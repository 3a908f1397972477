-- ===== src/Network/Pool.antt =====
-- internal/network/network.go: the addresses of the built-in bridge. A process reads the file once and
-- then goes by its own map; a failed save is not reported.
use dck.Base.{
  ℕ, ◌+◌, ◌-◌, ◌*◌, ◌/◌, ◌%◌, ◌≤◌, ◌<◌, ◌≡◌, ◌≢◌, false, not, Option, none, some, List, [], ◌∷◌,
  keep, arith, refl, ap, ◌∙◌, Option-cases, inl, inr, ◌==◌,
}
use dck.Container.Types.{SaveOutcome, written, refused, chmod_failed}
use dck.Network.{bridge_cidr, hosts, has_address, first_free}
use dck.Network.Addresses.{first_free-some, first_free-none}

-- The map in memory, and the file.
pub record Pool : Type 0 where
  pub held : List ℕ
  pub file : Option (List ℕ)

unfoldable pub load_pool : Option (List ℕ) → Pool
load_pool none = record { held = []; file = none }
load_pool (some addresses) = record { held = addresses; file = some addresses }

unfoldable pub save_pool : SaveOutcome → Pool → Pool
save_pool written p = record p { file = some p.held }
save_pool chmod_failed p = record p { file = some p.held }
save_pool refused p = p

-- The last byte of the network's address is replaced.
abbrev pub bridge_address : ℕ → ℕ
bridge_address i = (bridge_cidr.network_ip / 256) * 256 + i % 256

unfoldable pub free_bridge_address : List ℕ → Option ℕ
free_bridge_address held = first_free bridge_address held 2 (hosts bridge_cidr - 1 - 2)

abbrev pub hold : ℕ → Pool → Pool
hold ip p = record p { held = ip ∷ p.held }

unfoldable pub allocate_ip : SaveOutcome → Pool → Pool × Option ℕ
allocate_ip o p = elim (free_bridge_address p.held) [
  | none ↦ (p, none)
  | some ip ↦ (save_pool o (hold ip p), some ip)
]

unfoldable pub release_ip : SaveOutcome → ℕ → Pool → Pool
release_ip o ip p = save_pool o (record p { held = keep (λ a. not (a == ip)) p.held })

held-save : (o : SaveOutcome) (p : Pool) → (save_pool o p).held ≡ p.held
unfolding save_pool
held-save written p = refl
held-save chmod_failed p = refl
held-save refused p = refl

-- An address of the bridge that is handed out was not held, and is held from then on, however the save
-- ends; it is one of 10.0.2.2 to 10.0.2.254.
pub allocate_ip_lem :
    (o : SaveOutcome) (p : Pool) (ip : ℕ)
    → (allocate_ip o p).1 ≡ some ip
    → (has_address ip p.held ≡ false)
      × ((allocate_ip o p).0.held ≡ ip ∷ p.held)
      × (bridge_cidr.network_ip + 2 ≤ ip)
      × (ip ≤ bridge_cidr.network_ip + 254)
unfolding allocate_ip
allocate_ip_lem o p ip h = elim (Option-cases (free_bridge_address p.held)) [
  | inl full ↦ absurd (cc (rw (full, allocate_ip) at h))
  | inr (ip', free) ↦
      (let same : ip' ≡ ip = cc (rw (free, allocate_ip) at h) in
        let (k, low, high, e, fresh) =
          first_free-some bridge_address p.held 2 (hosts bridge_cidr - 1 - 2) ip'
            (unfold free_bridge_address in free) in
        (
          rw same at fresh,
          rw (free, allocate_ip) (held-save o (hold ip' p) ∙ ap (λ a. a ∷ p.held) same),
          omega arith,
          omega arith,
        ))
]

not_held :
    (ip : ℕ) (addresses : List ℕ) → has_address ip (keep (λ a. not (a == ip)) addresses) ≡ false
not_held ip [] = refl
not_held ip (a ∷ addresses) = ground (arith, not_held ip addresses)

allocate-none :
    (o : SaveOutcome) (p : Pool) → (allocate_ip o p).1 ≡ none → free_bridge_address p.held ≡ none
unfolding allocate_ip
allocate-none o p h = elim (Option-cases (free_bridge_address p.held)) [
  | inl full ↦ full
  | inr (ip, free) ↦ absurd (cc (rw (free, allocate_ip) at h))
]

held-release :
    (o : SaveOutcome) (ip : ℕ) (p : Pool)
    → (release_ip o ip p).held ≡ keep (λ a. not (a == ip)) p.held
unfolding release_ip
held-release o ip p = held-save o (record p { held = keep (λ a. not (a == ip)) p.held })

-- When an address of the bridge has been released, the next allocation finds one.
pub allocate_ip-release_ip :
    (o o' : SaveOutcome) (p : Pool) (k : ℕ)
    → 2 ≤ k
    → k < 255
    → (allocate_ip o (release_ip o' (bridge_address k) p)).1 ≢ none
allocate_ip-release_ip o o' p k low high e =
    let ip = bridge_address k in
    let full = allocate-none o (release_ip o' ip p) e in
    let taken =
      first_free-none bridge_address (release_ip o' ip p).held 2 (hosts bridge_cidr - 1 - 2) k
        (unfold free_bridge_address in full) low (omega (arith, high)) in
    let free = ap (has_address ip) (held-release o' ip p) ∙ not_held ip p.held in cc (taken, free)
