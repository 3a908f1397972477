-- ===== src/Base/Int64.antt =====
-- int64 arithmetic, and strconv.ParseInt in base 10 with 64 bits.
use dck.Base.{
  ℕ, ◌+◌, ◌-◌, ◌*◌, ◌%◌, ◌^◌, ◌≤◌, ◌<◌, ◌≡◌, Bool, true, false, ◌&&◌, Option, none, some, [], ◌∷◌,
  arith, leb, ltb, ◌==◌, if◌then◌else◌, All, refl,
}
use dck.Base.Int.{ℤ, pos, negsuc, ◌*ℤ◌, sub_ℕ}
use dck.Base.Bytes.{Bytes}

-- The residue modulo 2^64 that an int64 register holds, read in two's complement.
unfoldable pub from_word : ℕ → ℤ
from_word w = if ltb w (2 ^ 63) then pos w else negsuc (2 ^ 64 - 1 - w)

unfoldable pub to_word : ℤ → ℕ
to_word (pos n) = n % 2 ^ 64
to_word (negsuc n) = 2 ^ 64 - 1 - n % 2 ^ 64

-- int64(a) * int64(b), which wraps around.
unfoldable pub mul64 : ℤ → ℤ → ℤ
mul64 a b = from_word (to_word (a *ℤ b))

abbrev pub is_digit : ℕ → Bool
is_digit c = leb b'0' c && leb c b'9'

-- ParseUint's loop. A number of 2^64 or more is `ErrRange`, which is an error as any other.
unfoldable pub parse_digits : Bytes → ℕ → Option ℕ
parse_digits [] n = some n
parse_digits (c ∷ s) n =
    let rest = parse_digits s (n * 10 + (c - b'0')) in
    if is_digit c then (if ltb (n * 10 + (c - b'0')) (2 ^ 64) then rest else none) else none

unfoldable pub parse_uint : Bytes → Option ℕ
unfolding parse_digits
parse_uint [] = none
parse_uint (c ∷ s) = parse_digits (c ∷ s) 0

-- The sign is applied to a magnitude that fits.
abbrev signed : Bool → Option ℕ → Option ℤ
signed negative none = none
signed false (some n) = if ltb n (2 ^ 63) then some (pos n) else none
signed true (some n) = if leb n (2 ^ 63) then some (sub_ℕ 0 n) else none

unfoldable pub parse_int : Bytes → Option ℤ
unfolding parse_uint
parse_int [] = none
parse_int (c ∷ s) =
    if c == b'+'
    then signed false (parse_uint s)
    else if c == b'-'
    then signed true (parse_uint s)
    else signed false (parse_uint (c ∷ s))

-- The number that digits spell behind `n`, with no bound.
abbrev pub value : ℕ → Bytes → ℕ
value n [] = n
value n (c ∷ s) = value (n * 10 + (c - b'0')) s

pub le-value : (n : ℕ) (s : Bytes) → n ≤ value n s
le-value n [] = omega arith
le-value n (c ∷ s) = omega (arith, le-value (n * 10 + (c - b'0')) s)

pub parse_digits_complete :
    (s : Bytes) (n : ℕ)
    → All (λ c. is_digit c ≡ true) s
    → value n s < 2 ^ 64
    → parse_digits s n ≡ some (value n s)
unfolding parse_digits
parse_digits_complete [] n h fits = refl
parse_digits_complete (c ∷ s) n (d, h) fits =
    let m = n * 10 + (c - b'0') in ground (arith, parse_digits_complete s m h fits, le-value m s)

pub parse_digits_sound :
    (s : Bytes) (n r : ℕ)
    → parse_digits s n ≡ some r
    → All (λ c. is_digit c ≡ true) s × (r ≡ value n s)
unfolding parse_digits
parse_digits_sound [] n r h = ground arith
parse_digits_sound (c ∷ s) n r h = ground (arith, parse_digits_sound s (n * 10 + (c - b'0')) r)
