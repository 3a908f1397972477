-- ===== src/Base/Bytes.antt =====
-- Go strings as lists of bytes, and the functions of package strings that the program calls.
use Prim.Native.Char.{code}
use Prim.Native.String.{String}
use Prim.Native.Nat.{ℕ, ◌-◌}
use mathlib.Core.Option.{Option, none, some}
use mathlib.Core.Path.{◌≡◌, refl, ap, sym, ◌∙◌}
use mathlib.Core.Logic.{◌≢◌, ◌↔◌}
use mathlib.Core.Bool.{Bool, true, false, ◌&&◌, ◌||◌}
use mathlib.Core.List.{List, [], ◌∷◌, ◌++◌}
use native.Mathlib.Omega.{arith}
use dck.Base.Tests.{◌==◌, leb, if◌then◌else◌}
use dck.Base.Lists.{length, drop, any}

abbrev pub Bytes : Type 0
Bytes = List ℕ

-- The code points of a literal: its bytes, where it is ASCII.
abbrev pub codes : String → Bytes
codes String.[] = []
codes (String.◌∷◌ c s) = code c ∷ codes s

-- s == t
abbrev pub str_eq : Bytes → Bytes → Bool
str_eq [] [] = true
str_eq [] (y ∷ ys) = false
str_eq (x ∷ xs) [] = false
str_eq (x ∷ xs) (y ∷ ys) = x == y && str_eq xs ys

pub str_eq_sound : (s t : Bytes) → str_eq s t ≡ true → s ≡ t
str_eq_sound [] [] h = refl
str_eq_sound [] (y ∷ ys) h = cc
str_eq_sound (x ∷ xs) [] h = cc
str_eq_sound (x ∷ xs) (y ∷ ys) h = ground (arith, str_eq_sound xs ys)

pub str_eq_refl : (s : Bytes) → str_eq s s ≡ true
str_eq_refl [] = refl
str_eq_refl (x ∷ xs) = ground (arith, str_eq_refl xs)

pub str_eq_ne : (s t : Bytes) → str_eq s t ≡ false → s ≢ t
str_eq_ne s t h e = cc (h, ap (str_eq s) e, str_eq_refl s)

pub str_eq_iff : (s t : Bytes) → (str_eq s t ≡ true) ↔ (s ≡ t)
str_eq_iff s t = (str_eq_sound s t, λ e. ap (str_eq s) (sym e) ∙ str_eq_refl s)

-- strings.HasPrefix(s, p)
abbrev pub has_prefix : Bytes → Bytes → Bool
has_prefix s [] = true
has_prefix [] (y ∷ ys) = false
has_prefix (x ∷ xs) (y ∷ ys) = x == y && has_prefix xs ys

-- strings.IndexByte(s, b) ≥ 0, or strings.Contains with a one-byte text.
abbrev pub contains_byte : Bytes → ℕ → Bool
contains_byte s b = any (λ c. c == b) s

pub has_prefix-append : (p s : Bytes) → has_prefix (p ++ s) p ≡ true
has_prefix-append [] s = refl
has_prefix-append (x ∷ p) s = ground (arith, has_prefix-append p s)

pub has_prefix_split : (s p : Bytes) → has_prefix s p ≡ true → s ≡ p ++ drop (length p) s
has_prefix_split s [] h = refl
has_prefix_split [] (y ∷ ys) h = cc
has_prefix_split (x ∷ xs) (y ∷ ys) h = ground (arith, has_prefix_split xs ys)

-- strings.ToUpper, on ASCII letters.
abbrev pub to_upper : ℕ → ℕ
to_upper c = if leb b'a' c && leb c b'z' then c - 32 else c

-- All but the last byte, and the last byte.
abbrev pub split_last : Bytes → Option (Bytes × ℕ)
split_last [] = none
split_last (c ∷ s) = elim (split_last s) [ none ↦ some ([], c) | some (r, l) ↦ some (c ∷ r, l) ]

pub split_last-append : (s : Bytes) (c : ℕ) → split_last (s ++ c ∷ []) ≡ some (s, c)
split_last-append [] c = refl
split_last-append (x ∷ s) c = rw (split_last-append s c)

-- unicode.IsSpace on ASCII.
abbrev pub is_space : ℕ → Bool
is_space c = c == 32 || (leb 9 c && leb c 13)

-- strings.TrimLeftFunc, TrimRightFunc and TrimFunc.
abbrev pub trim_left_by : (ℕ → Bool) → Bytes → Bytes
trim_left_by p [] = []
trim_left_by p (c ∷ s) = let rest = trim_left_by p s in if p c then rest else c ∷ s

abbrev pub trim_right_by : (ℕ → Bool) → Bytes → Bytes
trim_right_by p [] = []
trim_right_by p (c ∷ s) = elim (trim_right_by p s) [
  | [] ↦ (if p c then [] else c ∷ [])
  | d ∷ r ↦ c ∷ d ∷ r
]

abbrev pub trim_by : (ℕ → Bool) → Bytes → Bytes
trim_by p s = trim_right_by p (trim_left_by p s)

abbrev pub trim_left : Bytes → Bytes
trim_left = trim_left_by is_space

abbrev pub trim_right : Bytes → Bytes
trim_right = trim_right_by is_space

abbrev pub trim_space : Bytes → Bytes
trim_space = trim_by is_space

pub trim_right-last :
    (p : ℕ → Bool) (s : Bytes) (c : ℕ) → p c ≡ false → trim_right_by p (s ++ c ∷ []) ≡ s ++ c ∷ []
trim_right-last p [] c h = rw h
trim_right-last p (x ∷ []) c h = ground (arith, trim_right-last p [] c h)
trim_right-last p (x ∷ y ∷ s) c h = ground (arith, trim_right-last p (y ∷ s) c h)

-- len(s) == 0
abbrev pub is_empty : Bytes → Bool
is_empty [] = true
is_empty (c ∷ s) = false
