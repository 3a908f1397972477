-- ===== src/Network/Handout.antt =====
-- Which address an allocation gives.
use dck.Base.{
  ℕ, ◌+◌, ◌*◌, ◌/◌, ◌^◌, ◌≤◌, ◌<◌, ◌≡◌, true, false, none, some, if◌then◌else◌, arith, refl, ap,
  ◌∙◌, sym, Option-cases, inl, inr,
}
use dck.Base.Bytes.{Bytes}
use dck.Base.Assoc.{insert}
use dck.Container.Types.{SaveOutcome, written, refused, chmod_failed, save_ok}
use dck.Network.{
  Cidr, Reading, hosts, contains, UserNetwork, Store, has_address, ipv4_add, free_address,
  load_network, save_user_network, allocate_network_ip, with_address,
}
use dck.Network.Overlap.{contains_iff}
use native.Mathlib.Nat.{div-eq_of_lt, mul-add-div_right}
use dck.Network.Addresses.{first_free-some, first_free-none}
use dck.Network.Subnets.{Usable}
use dck.Network.Invariant.{Reachable, Reachable-WellFormed, load-found}

within_block : (q p r : ℕ) → r < p → (q * p + r) / p ≡ q
within_block q p r h =
    mul-add-div_right (omega (arith, h)) q r ∙ ap (λ x. q + x) (div-eq_of_lt h) ∙ plus_zero q
  where
    plus_zero : (x : ℕ) → x + 0 ≡ x
    plus_zero x = omega arith

within_start : (q p : ℕ) → 0 < p → q * p / p ≡ q
within_start q p h = ap (λ x. x / p) (plus_zero (q * p)) ∙ within_block q p 0 h
  where
    plus_zero : (x : ℕ) → x ≡ x + 0
    plus_zero x = omega arith

no_wrap : (x y : ℕ) → x + y < 2 ^ 32 → ipv4_add x y ≡ x + y
no_wrap x y h = omega arith

-- A host of a usable subnet lies in it.
host-contains :
    (c : Cidr) (g k : ℕ) → Usable c g → k < hosts c → contains c (c.network_ip + k) ≡ true
host-contains c g k u h =
    let (q, e) = u.aligned in
    (contains_iff c (c.network_ip + k)).1 (
      ap (λ x. (x + k) / hosts c) e
      ∙ within_block q (hosts c) k h
      ∙ sym (within_start q (hosts c) (omega (arith, h)))
      ∙ ap (λ x. x / hosts c) (sym e))

-- What the address that is handed out is.
pub record HandedOut (rd : Reading) (k : Bytes) (s : Store) (ip : ℕ) : Type 0 where
  pub network : UserNetwork
  pub loaded : load_network rd k s ≡ some network
  pub fresh : has_address ip network.allocated ≡ false
  pub above : network.subnet.network_ip + 2 ≤ ip
  pub below : ip + 1 < network.subnet.network_ip + hosts network.subnet
  pub inside : contains network.subnet ip ≡ true

pub free_address_lem :
    (n : UserNetwork) (g ip : ℕ)
    → Usable n.subnet g
    → free_address n ≡ some ip
    → (has_address ip n.allocated ≡ false)
      × (n.subnet.network_ip + 2 ≤ ip)
      × (ip + 1 < n.subnet.network_ip + hosts n.subnet)
      × (contains n.subnet ip ≡ true)
unfolding free_address
free_address_lem n g ip u h =
    let (k, low, high, e, free) = first_free-some _ _ 2 _ ip h in
    let flat : ip ≡ n.subnet.network_ip + k =
      e ∙ no_wrap n.subnet.network_ip k (omega (arith, u.fits)) in
    (free, omega arith, omega arith, rw (sym flat) at (host-contains n.subnet g k u (omega arith)))

saved :
    (o : SaveOutcome) (ip' ip : ℕ)
    → (if save_ok o then some ip' else none) ≡ some ip
    → (o ≡ written) × (ip' ≡ ip)
unfolding save_ok
saved written ip' ip h = (refl, cc h)
saved refused ip' ip h = cc
saved chmod_failed ip' ip h = cc

save_written : (n : UserNetwork) (s : Store) → save_user_network written n s ≡ insert n.name n s
unfolding save_user_network
save_written n s = refl

pub allocated :
    (o : SaveOutcome) (rd : Reading) (k : Bytes) (s : Store) (ip : ℕ)
    → (allocate_network_ip o rd k s).1 ≡ some ip
    → (n : UserNetwork) × (load_network rd k s ≡ some n)
      × (free_address n ≡ some ip)
      × ((allocate_network_ip o rd k s).0 ≡ insert n.name (with_address ip n) s)
unfolding allocate_network_ip
allocated o rd k s ip h = elim (Option-cases (load_network rd k s)) [
  | inl missing ↦ absurd (cc (rw (missing, allocate_network_ip) at h))
  | inr (n, e) ↦ elim (Option-cases (free_address n)) [
    | inl full ↦ absurd (cc (rw (e, allocate_network_ip) at h, full))
    | inr (ip', free) ↦
        (let (o_written, same) = saved o ip' ip (rw free at (rw (e, allocate_network_ip) at h)) in
          let stored : (allocate_network_ip o rd k s).0 ≡ insert n.name (with_address ip' n) s =
            rw (e, allocate_network_ip)
              (rw (free, o_written) (save_written (with_address ip' n) s)) in
          (n, e, free ∙ ap some same, stored ∙ ap (λ a. insert n.name (with_address a n) s) same))
  ]
]

-- A network of a reachable store from which no address can be had, though the file operation succeeds,
-- has allocated every host behind its gateway and before its last address.
pub allocate_network_ip_exhausted :
    (rd : Reading) (k : Bytes) (s : Store) (n : UserNetwork) (host : ℕ)
    → Reachable s
    → load_network rd k s ≡ some n
    → (allocate_network_ip written rd k s).1 ≡ none
    → 2 ≤ host
    → host + 1 < hosts n.subnet
    → has_address (n.subnet.network_ip + host) n.allocated ≡ true
unfolding allocate_network_ip free_address
allocate_network_ip_exhausted rd k s n host r e h low high =
    let wf = Reachable-WellFormed s r in
    let u = (wf.fine k n (load-found s wf rd k n e)).usable in
    elim (Option-cases (free_address n)) [
      | inl full ↦ rw (no_wrap n.subnet.network_ip host (omega (arith, u.fits))) at (
          first_free-none (ipv4_add n.subnet.network_ip) n.allocated 2 _ host full low
            (omega arith))
      | inr (ip, free) ↦
          absurd (unfold save_ok in cc (rw free at (rw (e, allocate_network_ip) at h)))
    ]
