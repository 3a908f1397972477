-- ===== src/Network/Invariant.antt =====
-- What holds of every store of networks that the program can reach.
use dck.Base.{
  ℕ, zero, suc, ◌+◌, ◌^◌, ◌≤◌, ◌<◌, ◌≡◌, ◌≢◌, Bool, true, false, not, some, List, [], ◌∷◌, any,
  keep, arith, refl, ap, ◌∙◌, sym, ◌==◌, ◌&&◌, Bool-cases, Option-cases, inl, inr,
}
use dck.Base.Bytes.{Bytes}
use dck.Base.Assoc.{lookup, insert, delete, insert_cases, delete_cases, any-lookup}
use dck.Container.Types.{SaveOutcome, written, refused, chmod_failed}
use dck.Network.{
  Cidr, Reading, can_load, stat, bridge_cidr, cidr_overlaps, UserNetwork, Store, SubnetArg, unset,
  malformed, given, valid_network_name, load_network, list_networks, subnet_of, next_network_subnet,
  first_unused, save_user_network, new_network, create_network, free_address, allocate_network_ip,
  release_network_ip, remove_network, is_unused,
}
use dck.Network.Subnets.{Usable, normalize_network_cidr-Usable}

-- A network that is stored under the name `k`.
pub record Fine (k : Bytes) (n : UserNetwork) : Type 0 where
  pub named : n.name ≡ k
  pub valid : valid_network_name k ≡ true
  pub usable : Usable n.subnet n.gateway
  pub off_bridge : cidr_overlaps n.subnet bridge_cidr ≡ false

-- Every stored network is fine, and the subnets of two of them do not overlap.
pub record WellFormed (store : Store) : Type 0 where
  pub fine : (k : Bytes) (n : UserNetwork) → lookup k store ≡ some n → Fine k n
  pub apart :
      (j k : Bytes) (m n : UserNetwork)
      → lookup j store ≡ some m
      → lookup k store ≡ some n
      → j ≢ k
      → cidr_overlaps m.subnet n.subnet ≡ false

-- An address that the user gives has 32 bits.
abbrev pub ArgFits : SubnetArg → Type 0
ArgFits (given ip len) = ip < 2 ^ 32
ArgFits unset = Unit
ArgFits malformed = Unit

-- The directory can be listed and every state file can be read.
abbrev pub ReadsAll : Reading → Type 0
ReadsAll rd = (rd.listed ≡ true) × ((name : Bytes) → rd.readable name ≡ true)

-- One operation on the networks, with the outcome of its file operations. The reading with which a
-- creation compares subnets is complete.
pub data Step : Store → Store → Type 0 where
  create_step :
      (o : SaveOutcome) (seen : Bool) (rd rd' : Reading) (name : Bytes) (arg : SubnetArg)
      (s : Store)
      → ArgFits arg
      → ReadsAll rd'
      → Step s (create_network o seen rd rd' name arg s).0
  allocate_step :
      (o : SaveOutcome) (rd : Reading) (name : Bytes) (s : Store)
      → Step s (allocate_network_ip o rd name s).0
  release_step :
      (o : SaveOutcome) (rd : Reading) (name : Bytes) (ip : ℕ) (s : Store)
      → Step s (release_network_ip o rd name ip s)
  remove_step :
      (bridge_gone file_gone : Bool) (rd : Reading) (name : Bytes) (s : Store)
      → Step s (remove_network bridge_gone file_gone rd name s).0

-- From no network at all, by operations one after the other.
pub data Reachable : Store → Type 0 where
  no_networks : Reachable []
  next : (s t : Store) → Reachable s → Step s t → Reachable t

overlaps_comm : (a b : Cidr) → cidr_overlaps a b ≡ cidr_overlaps b a
unfolding cidr_overlaps
overlaps_comm a b = ground arith

module _ (s : Store) (wf : WellFormed s) where
  -- A network apart from all others takes its place.
  insert-WellFormed :
      (k : Bytes) (n : UserNetwork)
      → Fine k n
      → ((j : Bytes) (m : UserNetwork)
          → lookup j s ≡ some m
          → j ≢ k
          → cidr_overlaps n.subnet m.subnet ≡ false)
      → WellFormed (insert k n s)
  insert-WellFormed k n f away = record {
    fine = λ j m found. elim (insert_cases k j n m s found) [
      | inl (same, value) ↦ rw (same, value) at f
      | inr (other, old) ↦ wf.fine j m old
    ];
    apart = λ i j m m' found found' ne. elim (insert_cases k i n m s found) [
      | inl (same, value) ↦ elim (insert_cases k j n m' s found') [
        | inl (same', value') ↦ absurd (ne (sym same ∙ same'))
        | inr (other', old') ↦ rw value at (away j m' old' (λ e. other' (sym e)))
      ]
      | inr (other, old) ↦ elim (insert_cases k j n m' s found') [
        | inl (same', value') ↦
            overlaps_comm m.subnet m'.subnet ∙ rw value' at (away i m old (λ e. other (sym e)))
        | inr (other', old') ↦ wf.apart i j m m' old old' ne
      ]
    ];
  }

  delete-WellFormed : (k : Bytes) → WellFormed (delete k s)
  delete-WellFormed k = record {
    fine = λ j n found. wf.fine j n (delete_cases k j n s found).1;
    apart = λ i j m n found found' ne.
        wf.apart i j m n (delete_cases k i m s found).1 (delete_cases k j n s found').1 ne;
  }

  -- A stored network gets another set of addresses.
  replace-WellFormed :
      (k : Bytes) (old n : UserNetwork)
      → lookup k s ≡ some old
      → Fine k n
      → n.subnet ≡ old.subnet
      → WellFormed (insert k n s)
  replace-WellFormed k old n found f same = insert-WellFormed k n f (λ j m other ne.
      ap (λ c. cidr_overlaps c m.subnet) same ∙ wf.apart k j old m found other (λ e. ne (sym e)))

  save-WellFormed :
      (o : SaveOutcome) (k : Bytes) (n : UserNetwork)
      → n.name ≡ k
      → WellFormed (insert k n s)
      → WellFormed (save_user_network o n s)
  unfolding save_user_network
  save-WellFormed written k n e h = rw (sym e) at h
  save-WellFormed chmod_failed k n e h = rw (sym e) at h
  save-WellFormed refused k n e h = wf

  pub load-found :
      (rd : Reading) (k : Bytes) (n : UserNetwork)
      → load_network rd k s ≡ some n
      → lookup k s ≡ some n
  unfolding load_network
  load-found rd k n h = ground arith

  -- The name, the subnet and the gateway decide.
  same-Fine :
      (k : Bytes) (n : UserNetwork) (as' : List ℕ)
      → Fine k n
      → Fine k (record n { allocated = as' })
  same-Fine k n as' f = record {
    named = f.named;
    valid = f.valid;
    usable = f.usable;
    off_bridge = f.off_bridge;
  }

  -- A change of the addresses of a stored network.
  addresses-WellFormed :
      (o : SaveOutcome) (rd : Reading) (k : Bytes) (n : UserNetwork) (as' : List ℕ)
      → load_network rd k s ≡ some n
      → WellFormed (save_user_network o (record n { allocated = as' }) s)
  addresses-WellFormed o rd k n as' e =
      let found = load-found rd k n e in
      let f = wf.fine k n found in
      let n' : UserNetwork = record n { allocated = as' } in
      save-WellFormed o k n' f.named (replace-WellFormed k n n' found (same-Fine k n as' f) refl)

  allocate-WellFormed :
      (o : SaveOutcome) (rd : Reading) (k : Bytes) → WellFormed (allocate_network_ip o rd k s).0
  unfolding allocate_network_ip
  allocate-WellFormed o rd k = elim (Option-cases (load_network rd k s)) [
    | inl missing ↦ rw (missing, allocate_network_ip) wf
    | inr (n, e) ↦ elim (Option-cases (free_address n)) [
      | inl full ↦ rw (e, allocate_network_ip) (rw full wf)
      | inr (ip, free) ↦
          rw (e, allocate_network_ip) (rw free (addresses-WellFormed o rd k n (ip ∷ n.allocated) e))
    ]
  ]

  release-WellFormed :
      (o : SaveOutcome) (rd : Reading) (k : Bytes) (ip : ℕ)
      → WellFormed (release_network_ip o rd k ip s)
  unfolding release_network_ip
  release-WellFormed o rd k ip = elim (Option-cases (load_network rd k s)) [
    | inl missing ↦ rw (missing, release_network_ip) wf
    | inr (n, e) ↦
        rw (e, release_network_ip)
          (addresses-WellFormed o rd k n (keep (λ a. not (a == ip)) n.allocated) e)
  ]

  remove-WellFormed :
      (bridge_gone file_gone : Bool) (rd : Reading) (k : Bytes)
      → WellFormed (remove_network bridge_gone file_gone rd k s).0
  unfolding remove_network
  remove-WellFormed b f rd k = elim (Option-cases (load_network rd k s)) [
    | inl missing ↦ rw (missing, remove_network) wf
    | inr (n, e) ↦ elim (Bool-cases (not (is_unused n.allocated))) [
      | inl used ↦ rw (e, remove_network) (rw used wf)
      | inr unused ↦ elim (Bool-cases (b && f)) [
        | inl gone ↦ rw (e, remove_network) (rw (unused, gone) (delete-WellFormed k))
        | inr kept ↦ rw (e, remove_network) (rw (unused, kept) wf)
      ]
    ]
  ]

first_unused-lt :
    (used : Store) (octet rounds : ℕ)
    → octet + rounds ≤ 256
    → (first_unused used octet rounds).network_ip < 2 ^ 32
first_unused-lt used octet zero h = omega arith
first_unused-lt used octet (suc rounds) h = ground (arith, first_unused-lt used (suc octet) rounds)

next-lt : (rd : Reading) (s : Store) → (next_network_subnet rd s).network_ip < 2 ^ 32
unfolding next_network_subnet
next-lt rd s = first_unused-lt (list_networks rd s) 10 240 (omega arith)

subnet-Usable :
    (rd : Reading) (arg : SubnetArg) (s : Store) (c : Cidr) (g : ℕ)
    → ArgFits arg
    → subnet_of rd arg s ≡ some (c, g)
    → Usable c g
unfolding subnet_of
subnet-Usable rd unset s c g h e =
    normalize_network_cidr-Usable (next_network_subnet rd s).network_ip
      (next_network_subnet rd s).prefix_len c g (next-lt rd s) e
subnet-Usable rd malformed s c g h e = cc
subnet-Usable rd (given ip len) s c g h e = normalize_network_cidr-Usable ip len c g h e

module _ (s : Store) (wf : WellFormed s) where
  new-WellFormed :
      (o : SaveOutcome) (rd : Reading) (k : Bytes) (c : Cidr) (g : ℕ)
      → ReadsAll rd
      → valid_network_name k ≡ true
      → Usable c g
      → cidr_overlaps c bridge_cidr ≡ false
      → any (λ e. cidr_overlaps c e.1.subnet) (list_networks rd s) ≡ false
      → WellFormed (save_user_network o (new_network k c g) s)
  unfolding list_networks
  new-WellFormed o rd k c g all valid u off away =
      save-WellFormed s wf o k (new_network k c g) refl (
        insert-WellFormed s wf k (new_network k c g)
          (record { named = refl; valid = valid; usable = u; off_bridge = off })
          (λ j m found ne.
            any-lookup (can_load rd) (λ n. cidr_overlaps c n.subnet) s j m (rw all.0 at away) found
              (rw ((wf.fine j m found).valid, all.1 j) refl)))

  create-WellFormed :
      (o : SaveOutcome) (seen : Bool) (rd rd' : Reading) (k : Bytes) (arg : SubnetArg)
      → ArgFits arg
      → ReadsAll rd'
      → WellFormed (create_network o seen rd rd' k arg s).0
  unfolding create_network
  create-WellFormed o seen rd rd' k arg fits all = elim (Bool-cases (not (valid_network_name k))) [
    | inl bad ↦ rw (bad, create_network) wf
    | inr valid ↦ elim (Option-cases (stat seen k s)) [
      | inr (n, taken) ↦ rw (valid, create_network) (rw taken wf)
      | inl free ↦ elim (Option-cases (subnet_of rd arg s)) [
        | inl no_subnet ↦ rw (valid, create_network) (rw (free, no_subnet) wf)
        | inr ((c, g), e) ↦ elim (Bool-cases (cidr_overlaps c bridge_cidr)) [
          | inl on ↦ rw (valid, create_network) (rw (free, e, on) wf)
          | inr off ↦
              elim (Bool-cases (any (λ x. cidr_overlaps c x.1.subnet) (list_networks rd' s))) [
                | inl over ↦ rw (valid, create_network) (rw (free, e, off, over) wf)
                | inr away ↦
                    rw (valid, create_network)
                      (rw (free, e, off, away)
                        (new-WellFormed o rd' k c g all (ground (arith, valid))
                          (subnet-Usable rd arg s c g fits e) off away))
              ]
        ]
      ]
    ]
  ]

pub Step-WellFormed : (s t : Store) → WellFormed s → Step s t → WellFormed t
Step-WellFormed s _ wf (create_step o seen rd rd' k arg _ fits all) =
    create-WellFormed s wf o seen rd rd' k arg fits all
Step-WellFormed s _ wf (allocate_step o rd k _) = allocate-WellFormed s wf o rd k
Step-WellFormed s _ wf (release_step o rd k ip _) = release-WellFormed s wf o rd k ip
Step-WellFormed s _ wf (remove_step b f rd k _) = remove-WellFormed s wf b f rd k

-- Whatever networks are created and removed, and addresses allocated and released, with any outcome of
-- the saves, the removals and all reads but one, the listing with which a creation compares subnets,
-- which must be complete: every stored network has a valid name, a prefix from /16 to /29 and its first
-- host as its gateway, lies off the built-in bridge, and overlaps no other.
pub Reachable-WellFormed : (s : Store) → Reachable s → WellFormed s
unfolding lookup
Reachable-WellFormed _ no_networks = record { fine = λ k n e. cc; apart = λ j k m n e e' ne. cc }
Reachable-WellFormed _ (next s t r step) = Step-WellFormed s t (Reachable-WellFormed s r) step
