-- ===== src/Network/Overlap.antt =====
-- When two subnets share an address.
use native.Mathlib.Nat.{div-div-eq-div-mul, pow-suc}
use dck.Base.{
  ℕ, zero, suc, ◌+◌, ◌-◌, ◌*◌, ◌/◌, ◌^◌, ◌≤◌, ◌≡◌, ◌↔◌, true, arith, ap, ◌∙◌, sym, ==_iff, ==_refl,
  Bool-cases, inl, inr, dec_lt,
}
use dck.Network.{Cidr, hosts, contains, cidr_overlaps}

pub pow_add : (m n : ℕ) → 2 ^ (m + n) ≡ 2 ^ m * 2 ^ n
pow_add m zero = ap (λ e. 2 ^ e) m_plus ∙ last (2 ^ m)
  where
    m_plus : m + 0 ≡ m
    m_plus = omega arith

    last : (x : ℕ) → x ≡ x * 1
    last x = omega arith
pow_add m (suc n) =
    ap (λ e. 2 ^ e) over
    ∙ pow-suc 2 (m + n)
    ∙ ap (λ x. x * 2) (pow_add m n)
    ∙ assoc (2 ^ m) (2 ^ n)
    ∙ ap (λ x. 2 ^ m * x) (sym (pow-suc 2 n))
  where
    over : m + suc n ≡ suc (m + n)
    over = omega arith

    assoc : (x y : ℕ) → x * y * 2 ≡ x * (y * 2)
    assoc x y = grind arith

-- The quotients by a wider power of two are those of the quotients by the narrower.
same_wider : (a b i j : ℕ) → a ≤ b → i / 2 ^ a ≡ j / 2 ^ a → i / 2 ^ b ≡ j / 2 ^ b
same_wider a b i j le same =
    let d = b - a in
    let split : 2 ^ b ≡ 2 ^ a * 2 ^ d = ap (λ e. 2 ^ e) (omega arith) ∙ pow_add a d in
    rw split (
      sym (div-div-eq-div-mul i (2 ^ a) (2 ^ d))
      ∙ ap (λ q. q / 2 ^ d) same
      ∙ div-div-eq-div-mul j (2 ^ a) (2 ^ d))

pub contains_iff :
    (c : Cidr) (ip : ℕ) → (contains c ip ≡ true) ↔ (ip / hosts c ≡ c.network_ip / hosts c)
unfolding contains
contains_iff c ip = ==_iff (ip / hosts c) (c.network_ip / hosts c)

contains_own : (c : Cidr) → contains c c.network_ip ≡ true
unfolding contains
contains_own c = ==_refl (c.network_ip / hosts c)

-- Of two subnets with a common address the wider holds the network address of the other.
wider_holds :
    (a b : Cidr) (ip : ℕ)
    → 32 - a.prefix_len ≤ 32 - b.prefix_len
    → contains a ip ≡ true
    → contains b ip ≡ true
    → contains b a.network_ip ≡ true
wider_holds a b ip le in_a in_b = (contains_iff b a.network_ip).1 (
    sym (
      same_wider (32 - a.prefix_len) (32 - b.prefix_len) ip a.network_ip le
        ((contains_iff a ip).0 in_a))
    ∙ (contains_iff b ip).0 in_b)

-- The overlap check is exact: it reports an overlap exactly if some address lies in both subnets.
pub cidr_overlaps_iff :
    (a b : Cidr)
    → (cidr_overlaps a b ≡ true) ↔ ((ip : ℕ) × (contains a ip ≡ true) × (contains b ip ≡ true))
unfolding cidr_overlaps
cidr_overlaps_iff a b = (
  λ h. elim (Bool-cases (contains a b.network_ip)) [
    | inl inside ↦ (b.network_ip, inside, contains_own b)
    | inr outside ↦ (a.network_ip, contains_own a, ground (arith, h, outside))
  ],
  λ (ip, in_a, in_b). elim (dec_lt (32 - a.prefix_len) (32 - b.prefix_len)) [
    | yes lt ↦ ground (arith, wider_holds a b ip (omega (arith, lt)) in_a in_b)
    | no ge ↦ ground (arith, wider_holds b a ip (omega (arith, ge)) in_b in_a)
  ],
)
