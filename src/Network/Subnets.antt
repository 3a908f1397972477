-- ===== src/Network/Subnets.antt =====
-- What a subnet that the program accepts looks like.
use native.Mathlib.Nat.{lt_of_mul-lt-mul_right, mul-le-mul_right, div-mul-le_self}
use dck.Base.{
  ℕ, suc, ◌+◌, ◌-◌, ◌*◌, ◌/◌, ◌^◌, ◌≤◌, ◌<◌, ◌≡◌, not, ◌||◌, Option, some, ltb, arith, refl, ap,
  ◌∙◌, sym, Bool-cases, inl, inr,
}
use dck.Network.{Cidr, hosts, contains, masked, next_in_byte, normalize_network_cidr}
use dck.Network.Overlap.{pow_add}

-- A /16 to /29 whose addresses are 32-bit values, and its first host.
pub record Usable (c : Cidr) (gateway : ℕ) : Type 0 where
  pub shortest : 16 ≤ c.prefix_len
  pub longest : c.prefix_len ≤ 29
  pub fits : c.network_ip + hosts c ≤ 2 ^ 32
  pub aligned : (q : ℕ) × (c.network_ip ≡ q * hosts c)
  pub first_host : gateway ≡ c.network_ip + 1

block_ends : (q p m : ℕ) → q * p < m * p → q * p + p ≤ m * p
block_ends q p m h =
    let lt = lt_of_mul-lt-mul_right p h in grind (arith, mul-le-mul_right {m = suc q} {n = m} p lt)

-- The block of addresses of a network ends where those of 32 bits end, or before.
block_fits : (ip k m : ℕ) → m + k ≡ 32 → ip < 2 ^ 32 → (ip / 2 ^ k) * 2 ^ k + 2 ^ k ≤ 2 ^ 32
block_fits ip k m e h =
    let all : 2 ^ 32 ≡ 2 ^ m * 2 ^ k = ap (λ x. 2 ^ x) (sym e) ∙ pow_add m k in
    let below : (ip / 2 ^ k) * 2 ^ k < 2 ^ m * 2 ^ k =
      omega (arith, div-mul-le_self ip (2 ^ k), h, all) in
    omega (arith, block_ends (ip / 2 ^ k) (2 ^ k) (2 ^ m) below, all)

next_of_eight : (z : ℕ) → next_in_byte (8 * z) ≡ 8 * z + 1
next_of_eight z = omega arith

next_of_aligned : (q k : ℕ) → 3 ≤ k → next_in_byte (q * 2 ^ k) ≡ q * 2 ^ k + 1
next_of_aligned q k h =
    let eight : 2 ^ k ≡ 2 ^ 3 * 2 ^ (k - 3) = ap (λ x. 2 ^ x) (omega arith) ∙ pow_add 3 (k - 3) in
    let whole : q * 2 ^ k ≡ 8 * (q * 2 ^ (k - 3)) = ap (λ x. q * x) eight ∙ swap q (2 ^ (k - 3)) in
    ap next_in_byte whole ∙ next_of_eight (q * 2 ^ (k - 3)) ∙ ap (λ x. x + 1) (sym whole)
  where
    swap : (x y : ℕ) → x * (8 * y) ≡ 8 * (x * y)
    swap x y = grind arith

transport-Usable :
    {a c : Cidr} {g gateway : ℕ}
    → ◌≡◌ {A = Option (Cidr × ℕ)} (some (a, g)) (some (c, gateway))
    → Usable a g
    → Usable c gateway
transport-Usable {a} {c} {g} {gateway} e u =
    let same : a ≡ c = cc e in let same_gateway : g ≡ gateway = cc e in rw (same, same_gateway) at u

pub normalize_network_cidr-Usable :
    (ip len : ℕ) (c : Cidr) (gateway : ℕ)
    → ip < 2 ^ 32
    → normalize_network_cidr ip len ≡ some (c, gateway)
    → Usable c gateway
unfolding normalize_network_cidr
normalize_network_cidr-Usable ip len c gateway h e = elim (Bool-cases (ltb len 16 || ltb 29 len)) [
  | inl out ↦ absurd (cc (rw out at e))
  | inr inside ↦
      elim (Bool-cases (not (contains (masked ip len) (next_in_byte (masked ip len).network_ip)))) [
        | inl no_gateway ↦ absurd (cc (rw (inside, no_gateway) at e))
        | inr fine ↦ transport-Usable (rw (inside, fine) at e) (record {
          shortest = ground (arith, inside);
          longest = ground (arith, inside);
          fits = block_fits ip (32 - len) len (ground (arith, inside)) h;
          aligned = (ip / 2 ^ (32 - len), refl);
          first_host = next_of_aligned (ip / 2 ^ (32 - len)) (32 - len) (ground (arith, inside));
        })
      ]
]
