-- ===== src/Builder/Words.antt =====
-- internal/builder/parser.go: SplitSpaceRespectingQuotes and SplitShellWords, byte by byte.
pub mod Bounds
pub mod Quoting
use dck.Base.{
  ℕ, Bool, true, false, ◌&&◌, ◌||◌, not, Option, none, some, List, [], ◌∷◌, ◌++◌, map,
  if◌then◌else◌, ◌==◌,
}
use dck.Base.Bytes.{Bytes, split_last, is_empty}

abbrev pub backslash : ℕ
backslash = b'\\'

abbrev pub single : ℕ
single = b'\''

abbrev pub double : ℕ
double = b'"'

-- The variables of the loop.
pub record Lexer : Type 0 where
  pub parts : List Bytes
  pub current : Bytes
  pub in_single : Bool
  pub in_double : Bool
  pub escape : Bool

abbrev pub start : Lexer
start = record { parts = []; current = []; in_single = false; in_double = false; escape = false }

-- The bytes of the loop's `switch`: ' ', '\t', '\n', '\r', '\f' and '\v'.
abbrev pub is_blank : ℕ → Bool
is_blank c = c == 32 || c == 9 || c == 10 || c == 13 || c == 12 || c == 11

-- current.WriteByte(c)
abbrev pub write : ℕ → Lexer → Lexer
write c l = record l { current = l.current ++ c ∷ [] }

abbrev pub flush : List Bytes → Bytes → List Bytes
flush parts current = if is_empty current then parts else parts ++ current ∷ []

-- One round of the loop.
unfoldable pub lex : ℕ → Lexer → Lexer
lex c l =
    if l.escape
    then record (write c l) { escape = false }
    else if c == backslash && l.in_double
    then record l { escape = true }
    else if c == single && not l.in_double
    then record (write c l) { in_single = not l.in_single }
    else if c == double && not l.in_single
    then record (write c l) { in_double = not l.in_double }
    else if is_blank c && not l.in_single && not l.in_double
    then record l { parts = flush l.parts l.current; current = [] }
    else write c l

unfoldable pub lex_all : Bytes → Lexer → Lexer
unfolding lex
lex_all [] l = l
lex_all (c ∷ s) l = lex_all s (lex c l)

-- What the loop leaves behind.
abbrev pub words_of : Lexer → List Bytes
words_of l = flush l.parts l.current

unfoldable pub split_space_respecting_quotes : Bytes → List Bytes
unfolding lex_all
split_space_respecting_quotes s = words_of (lex_all s start)

-- The text between the first and the last byte, if both are `q` and there are two of them.
abbrev pub between : ℕ → Bytes → Option Bytes
between q [] = none
between q (c ∷ s) = elim (split_last s) [
  | none ↦ none
  | some (body, d) ↦ if c == q && d == q then some body else none
]

unfoldable pub strip_quotes : Bytes → Bytes
strip_quotes p = elim (between single p) [
  | some body ↦ body
  | none ↦ elim (between double p) [ some body ↦ body | none ↦ p ]
]

unfoldable pub split_shell_words : Bytes → List Bytes
unfolding split_space_respecting_quotes strip_quotes
split_shell_words s = map strip_quotes (split_space_respecting_quotes s)
