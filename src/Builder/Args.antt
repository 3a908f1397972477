-- ===== src/Builder/Args.antt =====
-- internal/builder/builder.go: build arguments, `expandBuildArg` and `handleArg`.
pub mod Expand
mod Examples
use dck.Base.{
  ℕ, Bool, true, false, ◌&&◌, ◌||◌, not, Option, none, some, List, [], ◌∷◌, ◌++◌, map,
  if◌then◌else◌, ◌==◌, leb,
}
use dck.Base.Bytes.{Bytes, codes, str_eq}
use dck.Base.Assoc.{lookup, insert}
use dck.Base.Split.{join_byte}
use dck.Builder.Instructions.{cut_at, blank}

abbrev pub BuildArgs : Type 0
BuildArgs = List (Bytes × Bytes)

abbrev pub is_name_byte : ℕ → Bool
is_name_byte c =
    c == b'_' || leb b'a' c && leb c b'z' || leb b'A' c && leb c b'Z' || leb b'0' c && leb c b'9'

-- Where the loop stands: outside a name, behind a `$`, or in a name of which it has read a part, in
-- braces or not.
pub data Place : Type 0 where
  outside dollar : Place
  braced : Bytes → Place
  bare : Bytes → Place

-- What takes the place of a name: nothing, if there is no argument of it.
unfoldable pub value_of : BuildArgs → Bytes → Bytes
value_of args name = elim (lookup name args) [ none ↦ [] | some v ↦ v ]

abbrev pub outside_next : ℕ → Place
outside_next c = if c == b'$' then dollar else outside

abbrev pub outside_out : ℕ → Bytes
outside_out c = if c == b'$' then [] else c ∷ []

-- The place behind one more byte, and what is written at it.
unfoldable pub next_place : Place → ℕ → Place
next_place outside c = outside_next c
next_place dollar c =
    if c == b'{' then braced [] else if is_name_byte c then bare (c ∷ []) else outside_next c
next_place (braced name) c = if c == b'}' then outside else braced (name ++ c ∷ [])
next_place (bare name) c = if is_name_byte c then bare (name ++ c ∷ []) else outside_next c

unfoldable pub write_at : BuildArgs → Place → ℕ → Bytes
unfolding value_of
write_at args outside c = outside_out c
write_at args dollar c =
    if c == b'{' then [] else if is_name_byte c then [] else b'$' ∷ outside_out c
write_at args (braced name) c = if c == b'}' then value_of args name else []
write_at args (bare name) c = if is_name_byte c then [] else value_of args name ++ outside_out c

-- A name in braces that does not end is written as it stands.
unfoldable pub write_end : BuildArgs → Place → Bytes
unfolding value_of
write_end args outside = []
write_end args dollar = b'$' ∷ []
write_end args (braced name) = b'$' ∷ (b'{' ∷ name)
write_end args (bare name) = value_of args name

unfoldable pub expand_from : BuildArgs → Place → Bytes → Bytes
unfolding next_place write_at write_end
expand_from args p [] = write_end args p
expand_from args p (c ∷ s) = write_at args p c ++ expand_from args (next_place p c) s

unfoldable pub expand_build_arg : Bytes → BuildArgs → Bytes
unfolding expand_from
expand_build_arg value args = expand_from args outside value

unfoldable pub substitute_args : List Bytes → BuildArgs → List Bytes
unfolding expand_build_arg
substitute_args values args = map (λ v. expand_build_arg v args) values

-- strings.Index(s, "=")
unfoldable pub name_and_default : Bytes → Bytes × Bytes
unfolding cut_at
name_and_default s = elim (cut_at (λ c. c == b'=') s) [
  | none ↦ (s, [])
  | some (name, []) ↦ (name, [])
  | some (name, c ∷ default) ↦ (name, default)
]

-- An argument that is given, or set before, keeps its value.
unfoldable pub handle_arg : List Bytes → BuildArgs → BuildArgs
unfolding name_and_default
handle_arg inst_args args =
    let (name, default) = name_and_default (join_byte blank inst_args) in
    elim (lookup name args) [
      | some v ↦ args
      | none ↦ if str_eq default [] then args else insert name default args
    ]
