-- ===== src/Container/Memory.antt =====
-- internal/container/parse.go: sizes such as 512m and 2G. A text with a byte outside ASCII is refused
-- by the source as here: no letter of another alphabet is upper-cased to a digit, a sign or a unit.
pub mod Exact
use dck.Base.{
  ℕ, ◌*◌, ◌^◌, Bool, true, false, Option, none, some, List, [], ◌∷◌, map, if◌then◌else◌, ◌==◌,
}
use dck.Base.Int.{ℤ, pos}
use dck.Base.Int64.{mul64, parse_int}
use dck.Base.Bytes.{Bytes, to_upper, split_last}

-- What a suffix multiplies by; `none` for a byte that is no unit.
unfoldable pub multiplier : ℕ → Option ℕ
multiplier c =
    if c == b'T'
    then some (1024 * 1024 * 1024 * 1024)
    else if c == b'G'
    then some (1024 * 1024 * 1024)
    else if c == b'M'
    then some (1024 * 1024)
    else if c == b'K'
    then some 1024
    else none

abbrev scaled : ℕ → Option ℤ → Option ℤ
scaled mult none = none
scaled mult (some val) = some (mul64 val (pos mult))

unfoldable pub parse_upper : Bytes → Option ℤ
parse_upper s = elim (split_last s) [
  | none ↦ scaled 1 (parse_int s)
  | some (body, last) ↦ elim (multiplier last) [
    | none ↦ scaled 1 (parse_int s)
    | some mult ↦ scaled mult (parse_int body)
  ]
]

-- `none` is an error.
unfoldable pub parse_memory_string : Bytes → Option ℤ
parse_memory_string [] = some (pos 0)
parse_memory_string (c ∷ s) = parse_upper (map to_upper (c ∷ s))

unfoldable pub parse_disk_string : Bytes → Option ℤ
unfolding parse_memory_string
parse_disk_string s = parse_memory_string s
