-- ===== src/Container/Memory/Exact.antt =====
-- What a size with a unit is read as.
use dck.Base.{
  ℕ, ◌*◌, ◌%◌, ◌^◌, ◌≤◌, ◌<◌, ◌≡◌, ◌≢◌, true, some, [], ◌∷◌, ◌++◌, map, arith, All, refl, ap, ◌∙◌,
}
use dck.Base.Int.{ℤ, pos, ◌*ℤ◌}
use dck.Base.Int64.{mul64, from_word, to_word, parse_int, is_digit, value, parse_digits_complete}
use dck.Base.Bytes.{Bytes, to_upper, split_last-append}
use dck.Container.Memory.{multiplier, parse_upper, parse_memory_string}

-- Digits are not changed by the upper-casing.
map-to_upper_digits :
    (s : Bytes) (c : ℕ)
    → All (λ d. is_digit d ≡ true) s
    → map to_upper (s ++ c ∷ []) ≡ s ++ to_upper c ∷ []
map-to_upper_digits [] c h = refl
map-to_upper_digits (d ∷ s) c h = ground (arith, map-to_upper_digits s c h.1)

parse_int_complete :
    (s : Bytes)
    → s ≢ []
    → All (λ d. is_digit d ≡ true) s
    → value 0 s < 2 ^ 63
    → parse_int s ≡ some (pos (value 0 s))
unfolding parse_int
parse_int_complete [] ne h fits = absurd (ne refl)
parse_int_complete (d ∷ s) ne h fits = ground (arith, parse_digits_complete (d ∷ s) 0 h)

product : (a b : ℕ) → pos a *ℤ pos b ≡ pos (a * b)
unfolding ◌*ℤ◌
product a b = ground arith

mul64_pos : (a b : ℕ) → mul64 (pos a) (pos b) ≡ from_word (a * b % 2 ^ 64)
unfolding mul64 to_word
mul64_pos a b = rw (product a b)

parse_upper_unit :
    (s : Bytes) (c mult : ℕ) (v : ℤ)
    → multiplier c ≡ some mult
    → parse_int s ≡ some v
    → parse_upper (s ++ c ∷ []) ≡ some (mul64 v (pos mult))
unfolding parse_upper
parse_upper_unit s c mult v m e = rw (split_last-append s c, parse_upper) (rw (m, e))

-- A number of at least one digit below 2^63, followed by a unit in either case, is never refused: the
-- result is the product with the unit's factor, wrapped around to an int64.
pub parse_memory_string_lem :
    (s : Bytes) (unit mult : ℕ)
    → s ≢ []
    → All (λ d. is_digit d ≡ true) s
    → value 0 s < 2 ^ 63
    → multiplier (to_upper unit) ≡ some mult
    → parse_memory_string (s ++ unit ∷ []) ≡ some (from_word (value 0 s * mult % 2 ^ 64))
unfolding parse_memory_string
parse_memory_string_lem [] unit mult ne h fits m = absurd (ne refl)
parse_memory_string_lem (d ∷ s) unit mult ne h fits m =
    ap parse_upper (map-to_upper_digits (d ∷ s) unit h)
    ∙ parse_upper_unit (d ∷ s) _ mult _ m (parse_int_complete (d ∷ s) ne h fits)
    ∙ ap some (mul64_pos (value 0 (d ∷ s)) mult)

multiplier_pos : (c m : ℕ) → multiplier c ≡ some m → 0 < m
unfolding multiplier
multiplier_pos c m h = ground arith

le-mul : (a b : ℕ) → 0 < b → a ≤ a * b
le-mul a b h = grind arith

from_word_small : (n : ℕ) → n < 2 ^ 63 → from_word (n % 2 ^ 64) ≡ pos n
unfolding from_word
from_word_small n h = ground arith

-- A number of at least one digit, followed by a unit in either case, whose product with the unit's
-- factor is below 2^63, is read as this product.
pub parse_memory_string-exact :
    (s : Bytes) (unit mult : ℕ)
    → s ≢ []
    → All (λ d. is_digit d ≡ true) s
    → multiplier (to_upper unit) ≡ some mult
    → value 0 s * mult < 2 ^ 63
    → parse_memory_string (s ++ unit ∷ []) ≡ some (pos (value 0 s * mult))
parse_memory_string-exact s unit mult ne h m fits =
    parse_memory_string_lem s unit mult ne h
      (omega (arith, le-mul (value 0 s) mult (multiplier_pos _ mult m))) m
    ∙ ap some (from_word_small (value 0 s * mult) fits)
