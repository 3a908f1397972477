-- ===== src/Network/Examples.antt =====
-- Two small networks and their addresses.
use dck.Base.{ℕ, ◌+◌, ◌*◌, ◌^◌, ◌≡◌, ◌≢◌, ◌↔◌, true, none, some, [], ◌∷◌, arith, refl, inr}
use dck.Base.Bytes.{codes}
use dck.Base.Assoc.{lookup, insert}
use dck.Container.Types.{written, refused, save_ok}
use dck.Network.{
  contains, cidr_overlaps, masked, bridge_cidr, UserNetwork, Store, given, valid_network_name,
  load_network, list_networks, subnet_of, normalize_network_cidr, save_user_network, create_network,
  free_address, first_free, allocate_network_ip, release_network_ip, Reading,
}
use dck.Network.Pool.{Pool, allocate_ip, free_bridge_address}
use dck.Network.Overlap.{cidr_overlaps_iff}
use dck.Network.Invariant.{
  WellFormed, create_step, allocate_step, release_step, Reachable, no_networks, next,
  Reachable-WellFormed,
}
use dck.Network.Held.{Later, at_once, later, allocate_network_ip_twice}

-- Every read succeeds.
abbrev all_read : Reading
all_read = record { listed = true; readable = λ k. true }

-- 10.1.0.0, and the networks 10.1.0.0/29 and 10.1.0.8/29.
abbrev ten_one : ℕ
ten_one = 10 * 2 ^ 24 + 2 ^ 16

abbrev one_network : Store
one_network = (create_network written true all_read all_read (codes "web") (given ten_one 29) []).0

abbrev two_networks : Store
two_networks =
    (create_network written true all_read all_read (codes "db") (given (ten_one + 8) 29)
      one_network).0

two-Reachable : Reachable two_networks
two-Reachable =
    next one_network _
      (next [] _ no_networks (
        create_step written true all_read all_read (codes "web") (given ten_one 29) []
          (ground arith) (refl, λ k. refl)))
      (create_step written true all_read all_read (codes "db") (given (ten_one + 8) 29) one_network
        (ground arith) (refl, λ k. refl))

-- Both are stored.
two_names :
    load_network all_read (codes "db") two_networks
    ≡ some (record {
      name = codes "db";
      subnet = record { network_ip = ten_one + 8; prefix_len = 29 };
      gateway = ten_one + 9;
      allocated = [];
    })
unfolding load_network create_network valid_network_name lookup insert subnet_of
    normalize_network_cidr contains cidr_overlaps list_networks save_user_network save_ok
two_names = refl

Reachable-WellFormed_example : WellFormed two_networks
Reachable-WellFormed_example = Reachable-WellFormed two_networks two-Reachable

cidr_overlaps_iff_example :
    (cidr_overlaps (masked ten_one 16) bridge_cidr ≡ true)
    ↔ ((ip : ℕ) × (contains (masked ten_one 16) ip ≡ true) × (contains bridge_cidr ip ≡ true))
cidr_overlaps_iff_example = cidr_overlaps_iff (masked ten_one 16) bridge_cidr

first_web : (allocate_network_ip written all_read (codes "web") two_networks).1 ≡ some (ten_one + 2)
unfolding allocate_network_ip load_network create_network valid_network_name lookup insert subnet_of
    normalize_network_cidr contains cidr_overlaps list_networks save_user_network save_ok
    free_address first_free
first_web = refl

abbrev web_once : Store
web_once = (allocate_network_ip written all_read (codes "web") two_networks).0

-- An address of `db`, and one of `web`, which is released again.
abbrev web_twice : Store
web_twice =
    (allocate_network_ip written all_read (codes "web")
      (allocate_network_ip written all_read (codes "db") web_once).0).0

abbrev web_released : Store
web_released = release_network_ip written all_read (codes "web") (ten_one + 3) web_twice

web-Later : Later (codes "web") (ten_one + 2) web_once web_released
web-Later =
    later web_once web_twice web_released
      (later web_once (allocate_network_ip written all_read (codes "db") web_once).0 web_twice
        (later web_once web_once (allocate_network_ip written all_read (codes "db") web_once).0
          (at_once web_once) (allocate_step written all_read (codes "db") web_once) tt)
        (allocate_step written all_read (codes "web") _) tt)
      (release_step written all_read (codes "web") (ten_one + 3) web_twice) (inr (ground arith))

third_web : (allocate_network_ip written all_read (codes "web") web_released).1 ≡ some (ten_one + 3)
unfolding allocate_network_ip release_network_ip load_network create_network valid_network_name
    lookup insert subnet_of normalize_network_cidr contains cidr_overlaps list_networks
    save_user_network save_ok free_address first_free
third_web = refl

allocate_network_ip_twice_example : ten_one + 2 ≢ ten_one + 3
allocate_network_ip_twice_example =
    allocate_network_ip_twice written written all_read all_read (codes "web") (codes "web")
      two_networks web_released (ten_one + 2) (ten_one + 3) two-Reachable first_web web-Later
      third_web

-- Five allocations use up a /29.
abbrev after : Store → Store
after s = (allocate_network_ip written all_read (codes "web") s).0

after-Reachable : (s : Store) → Reachable s → Reachable (after s)
after-Reachable s r = next s (after s) r (allocate_step written all_read (codes "web") s)

abbrev full_store : Store
full_store = after (after (after (after (after two_networks))))

full-Reachable : Reachable full_store
full-Reachable =
    after-Reachable _
      (after-Reachable _ (after-Reachable _ (after-Reachable _ (after-Reachable _ two-Reachable))))

abbrev full_web : UserNetwork
full_web = record {
  name = codes "web";
  subnet = record { network_ip = ten_one; prefix_len = 29 };
  gateway = ten_one + 1;
  allocated = (ten_one + 6) ∷ (ten_one + 5) ∷ (ten_one + 4) ∷ (ten_one + 3) ∷ (ten_one + 2) ∷ [];
}

full_loaded :
    (load_network all_read (codes "web") full_store ≡ some full_web)
    × ((allocate_network_ip written all_read (codes "web") full_store).1 ≡ none)
unfolding allocate_network_ip load_network create_network valid_network_name lookup insert subnet_of
    normalize_network_cidr contains cidr_overlaps list_networks save_user_network save_ok
    free_address first_free
full_loaded = (refl, refl)

-- The pool of the bridge, with one address in its file.
abbrev pool : Pool
pool = record {
  held = (bridge_cidr.network_ip + 2) ∷ [];
  file = some ((bridge_cidr.network_ip + 2) ∷ []);
}

next_of_pool : (allocate_ip refused pool).1 ≡ some (bridge_cidr.network_ip + 3)
unfolding allocate_ip free_bridge_address first_free
next_of_pool = refl
