-- ===== src/Builder/Args/Expand.antt =====
-- What `expandBuildArg` makes of a text that is put together from literal parts and names.
use dck.Base.{
  ℕ, ◌≡◌, Bool, true, false, not, List, [], ◌∷◌, ◌++◌, ◌==◌, any, arith, refl, ap, sym, ◌∙◌,
  append-nil, append_assoc, Bool-cases, inl, inr,
}
use dck.Base.Bytes.{Bytes}
use dck.Builder.Args.{
  BuildArgs, outside, braced, bare, is_name_byte, value_of, outside_next, outside_out, expand_from,
  expand_build_arg,
}

pub data Piece : Type 0 where
  literal : Bytes → Piece
  in_braces : Bytes → Piece
  named : Bytes → Piece

abbrev pub print_piece : Piece → Bytes
print_piece (literal s) = s
print_piece (in_braces name) = b'$' ∷ (b'{' ∷ (name ++ b'}' ∷ []))
print_piece (named name) = b'$' ∷ name

abbrev pub print_pieces : List Piece → Bytes
print_pieces [] = []
print_pieces (p ∷ ps) = print_piece p ++ print_pieces ps

-- What the pieces stand for.
abbrev pub piece_value : BuildArgs → Piece → Bytes
piece_value args (literal s) = s
piece_value args (in_braces name) = value_of args name
piece_value args (named name) = value_of args name

abbrev pub pieces_value : BuildArgs → List Piece → Bytes
pieces_value args [] = []
pieces_value args (p ∷ ps) = piece_value args p ++ pieces_value args ps

abbrev pub starts_with_name_byte : Bytes → Bool
starts_with_name_byte [] = false
starts_with_name_byte (c ∷ s) = is_name_byte c

abbrev pub is_nothing : Bytes → Bool
is_nothing [] = true
is_nothing (c ∷ s) = false

-- A literal has no `$`, a name in braces no `}`; a name without braces has a byte, only bytes of
-- names, and none behind it.
abbrev pub PieceFits : Piece → Bytes → Type 0
PieceFits (literal s) rest = any (λ c. c == b'$') s ≡ false
PieceFits (in_braces name) rest = any (λ c. c == b'}') name ≡ false
PieceFits (named name) rest =
    (is_nothing name ≡ false)
    × (any (λ c. not (is_name_byte c)) name ≡ false)
    × (starts_with_name_byte rest ≡ false)

abbrev pub PiecesFit : List Piece → Type 0
PiecesFit [] = Unit
PiecesFit (p ∷ ps) = PieceFits p (print_pieces ps) × PiecesFit ps

module _ (args : BuildArgs) where
  expand_literal :
      (s t : Bytes)
      → any (λ c. c == b'$') s ≡ false
      → expand_from args outside (s ++ t) ≡ s ++ expand_from args outside t
  unfolding expand_from
  expand_literal [] t h = refl
  expand_literal (c ∷ s) t h = elim (Bool-cases (c == b'$')) [
    | inl is ↦ absurd (cc (rw is at h))
    | inr other ↦ rw other (ap (λ r. c ∷ r) (expand_literal s t (rw other at h)))
  ]

  expand_braced :
      (read name t : Bytes)
      → any (λ c. c == b'}') name ≡ false
      → expand_from args (braced read) (name ++ (b'}' ∷ t))
        ≡ value_of args (read ++ name) ++ expand_from args outside t
  unfolding expand_from
  expand_braced read [] t h = rw (append-nil read) refl
  expand_braced read (c ∷ name) t h = elim (Bool-cases (c == b'}')) [
    | inl is ↦ absurd (cc (rw is at h))
    | inr other ↦ rw other (
        expand_braced (read ++ c ∷ []) name t (rw other at h)
        ∙ ap (λ n. value_of args n ++ expand_from args outside t) (append_assoc read (c ∷ []) name))
  ]

  expand_bare_end :
      (read t : Bytes)
      → starts_with_name_byte t ≡ false
      → expand_from args (bare read) t ≡ value_of args read ++ expand_from args outside t
  unfolding expand_from
  expand_bare_end read [] h = sym (append-nil (value_of args read))
  expand_bare_end read (c ∷ t) h =
      rw h (append_assoc (value_of args read) (outside_out c) (expand_from args (outside_next c) t))

  expand_bare :
      (read name t : Bytes)
      → any (λ c. not (is_name_byte c)) name ≡ false
      → starts_with_name_byte t ≡ false
      → expand_from args (bare read) (name ++ t)
        ≡ value_of args (read ++ name) ++ expand_from args outside t
  unfolding expand_from
  expand_bare read [] t h end = rw (append-nil read) (expand_bare_end read t end)
  expand_bare read (c ∷ name) t h end = elim (Bool-cases (is_name_byte c)) [
    | inr other ↦ absurd (cc (rw other at h))
    | inl is ↦ rw is (
        expand_bare (read ++ c ∷ []) name t (rw is at h) end
        ∙ ap (λ n. value_of args n ++ expand_from args outside t) (append_assoc read (c ∷ []) name))
  ]

  not_brace : (c : ℕ) → is_name_byte c ≡ true → (c == b'{') ≡ false
  not_brace c h = ground (arith, h)

  expand_piece :
      (p : Piece) (t : Bytes)
      → PieceFits p t
      → expand_from args outside (print_piece p ++ t)
        ≡ piece_value args p ++ expand_from args outside t
  unfolding expand_from
  expand_piece (literal s) t fits = expand_literal s t fits
  expand_piece (in_braces name) t fits =
      ap (λ r. expand_from args (braced []) r) (append_assoc name (b'}' ∷ []) t)
      ∙ expand_braced [] name t fits
  expand_piece (named []) t fits = absurd (cc (fits.0))
  expand_piece (named (c ∷ name)) t (some_byte, only, end) = elim (Bool-cases (is_name_byte c)) [
    | inr other ↦ absurd (cc (rw other at only))
    | inl is ↦ rw (not_brace c is) (rw is (expand_bare (c ∷ []) name t (rw is at only) end))
  ]

  expand_pieces :
      (ps : List Piece)
      → PiecesFit ps
      → expand_from args outside (print_pieces ps) ≡ pieces_value args ps
  unfolding expand_from
  expand_pieces [] fits = refl
  expand_pieces (p ∷ ps) (fits, rest) =
      expand_piece p (print_pieces ps) fits
      ∙ ap (λ r. piece_value args p ++ r) (expand_pieces ps rest)

-- A text that is put together from parts without `$`, names in braces, and names of letters, digits and
-- underscores that no such byte follows, is expanded to the parts as they are and, for each name, the
-- value of the build argument, or nothing if there is none. The values are not expanded again.
pub expand_build_arg_pieces :
    (args : BuildArgs) (ps : List Piece)
    → PiecesFit ps
    → expand_build_arg (print_pieces ps) args ≡ pieces_value args ps
unfolding expand_build_arg
expand_build_arg_pieces args ps fits = expand_pieces args ps fits
