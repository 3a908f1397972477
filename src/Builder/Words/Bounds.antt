-- ===== src/Builder/Words/Bounds.antt =====
-- The words of a text are no longer than the text, and none is empty.
use dck.Base.{
  ℕ, ◌+◌, ◌≤◌, ◌≡◌, false, List, [], ◌∷◌, ◌++◌, length, length-append, All, All-append, arith, refl,
  suc, some, Option-cases, ◌⊎◌, inl, inr, map,
}
use dck.Base.Bytes.{Bytes, is_empty, split_last}
use dck.Builder.Words.{
  Lexer, start, lex, lex_all, flush, split_space_respecting_quotes, strip_quotes, split_shell_words,
  between, single, double,
}

-- The bytes of all words together.
abbrev pub total : List Bytes → ℕ
total [] = 0
total (p ∷ ps) = length p + total ps

total-append : (ps qs : List Bytes) → total (ps ++ qs) ≡ total ps + total qs
total-append [] qs = omega arith
total-append (p ∷ ps) qs = omega (arith, total-append ps qs)

total-flush : (ps : List Bytes) (cur : Bytes) → total (flush ps cur) ≡ total ps + length cur
total-flush ps [] = omega arith
total-flush ps (c ∷ cur) = omega (arith, total-append ps ((c ∷ cur) ∷ []))

abbrev held : Lexer → ℕ
held l = total l.parts + length l.current

held-lex : (c : ℕ) (l : Lexer) → held (lex c l) ≤ suc (held l)
unfolding lex
held-lex c l = ground (arith, total-flush l.parts l.current, length-append l.current (c ∷ []))

held-lex_all : (s : Bytes) (l : Lexer) → held (lex_all s l) ≤ length s + held l
unfolding lex_all
held-lex_all [] l = omega arith
held-lex_all (c ∷ s) l = omega (arith, held-lex_all s (lex c l), held-lex c l)

-- The words hold together at most as many bytes as the text: no byte is written twice.
pub total-split-le : (s : Bytes) → total (split_space_respecting_quotes s) ≤ length s
unfolding split_space_respecting_quotes
total-split-le s =
    let l = lex_all s start in omega (arith, total-flush l.parts l.current, held-lex_all s start)

length-split_last :
    (s body : Bytes) (d : ℕ) → split_last s ≡ some (body, d) → length body ≤ length s
length-split_last [] body d h = cc
length-split_last (c ∷ s) body d h = elim (Option-cases (split_last s)) [
  | inl ends ↦ ground (arith, rw ends at h)
  | inr (r, e) ↦ ground (arith, rw e at h, length-split_last s r.0 r.1 e)
]

length-between : (q : ℕ) (p body : Bytes) → between q p ≡ some body → length body ≤ length p
length-between q [] body h = cc
length-between q (c ∷ s) body h = elim (Option-cases (split_last s)) [
  | inl ends ↦ cc (rw (ends, between) at h)
  | inr (r, e) ↦ ground (arith, rw (e, between) at h, length-split_last s r.0 r.1 e)
]

length-strip_quotes : (p : Bytes) → length (strip_quotes p) ≤ length p
unfolding strip_quotes
length-strip_quotes p = elim (Option-cases (between single p)) [
  | inr (body, e) ↦ rw (e, strip_quotes) (length-between single p body e)
  | inl not_single ↦ elim (Option-cases (between double p)) [
    | inr (body, e) ↦ rw (not_single, strip_quotes) (rw e (length-between double p body e))
    | inl not_double ↦ rw (not_single, strip_quotes) (rw not_double (omega arith))
  ]
]

total-map-strip : (ps : List Bytes) → total (map strip_quotes ps) ≤ total ps
total-map-strip [] = omega arith
total-map-strip (p ∷ ps) = omega (arith, length-strip_quotes p, total-map-strip ps)

-- So it is with the words of `SplitShellWords`, from which quotes are taken off.
pub total-split_shell_words-le : (s : Bytes) → total (split_shell_words s) ≤ length s
unfolding split_shell_words
total-split_shell_words-le s =
    omega (arith, total-map-strip (split_space_respecting_quotes s), total-split-le s)

abbrev pub NotEmpty : Bytes → Type 0
NotEmpty p = is_empty p ≡ false

flush-NotEmpty : (ps : List Bytes) (cur : Bytes) → All NotEmpty ps → All NotEmpty (flush ps cur)
flush-NotEmpty ps [] h = h
flush-NotEmpty ps (c ∷ cur) h = All-append NotEmpty ps ((c ∷ cur) ∷ []) h (refl, tt)

lex-parts :
    (c : ℕ) (l : Lexer) → ((lex c l).parts ≡ l.parts) ⊎ ((lex c l).parts ≡ flush l.parts l.current)
unfolding lex
lex-parts c l = ground arith

lex-NotEmpty : (c : ℕ) (l : Lexer) → All NotEmpty l.parts → All NotEmpty (lex c l).parts
lex-NotEmpty c l h = elim (lex-parts c l) [
  | inl same ↦ rw same h
  | inr flushed ↦ rw flushed (flush-NotEmpty l.parts l.current h)
]

lex_all-NotEmpty : (s : Bytes) (l : Lexer) → All NotEmpty l.parts → All NotEmpty (lex_all s l).parts
unfolding lex_all
lex_all-NotEmpty [] l h = h
lex_all-NotEmpty (c ∷ s) l h = lex_all-NotEmpty s (lex c l) (lex-NotEmpty c l h)

-- No word of `SplitSpaceRespectingQuotes` is empty.
pub split-NotEmpty : (s : Bytes) → All NotEmpty (split_space_respecting_quotes s)
unfolding split_space_respecting_quotes
split-NotEmpty s =
    let l = lex_all s start in flush-NotEmpty l.parts l.current (lex_all-NotEmpty s start tt)
