-- ===== src/Network/Addresses.antt =====
-- Which addresses a network hands out.
use dck.Base.{
  ℕ, zero, suc, ◌+◌, ◌≤◌, ◌<◌, ◌≡◌, true, false, none, some, List, arith, sym, Bool-cases, inl, inr,
  ℕ_discrete,
}
use dck.Network.{has_address, first_free}

-- A free address that is found is that of one of the hosts, and is not allocated.
pub first_free-some :
    (address : ℕ → ℕ) (al : List ℕ) (host rounds ip : ℕ)
    → first_free address al host rounds ≡ some ip
    → (k : ℕ) × (host ≤ k) × (k < host + rounds) × (ip ≡ address k) × (has_address ip al ≡ false)
unfolding first_free
first_free-some address al host zero ip h = cc
first_free-some address al host (suc rounds) ip h =
    let here = address host in
    elim (Bool-cases (has_address here al)) [
      | inl taken ↦
          (let (k, low, high, e, free) =
              first_free-some address al (suc host) rounds ip (rw taken at h) in
            (k, omega arith, omega arith, e, free))
      | inr free ↦
          (let same : here ≡ ip = cc (rw free at h) in
            (host, omega arith, omega arith, sym same, rw same at free))
    ]

-- If none is found, every host is allocated.
pub first_free-none :
    (address : ℕ → ℕ) (al : List ℕ) (host rounds k : ℕ)
    → first_free address al host rounds ≡ none
    → host ≤ k
    → k < host + rounds
    → has_address (address k) al ≡ true
unfolding first_free
first_free-none address al host zero k h low high = absurd (omega arith)
first_free-none address al host (suc rounds) k h low high =
    elim (Bool-cases (has_address (address host) al)) [
      | inl taken ↦ elim (ℕ_discrete host k) [
        | yes same ↦ rw same at taken
        | no other ↦
            first_free-none address al (suc host) rounds k (rw taken at h) (omega arith)
              (omega arith)
      ]
      | inr free ↦ absurd (cc (rw free at h))
    ]
