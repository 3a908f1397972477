-- ===== src/Builder/Json.antt =====
-- internal/builder/parser.go: the exec form, parseJSONArray and GetExecForm.
pub mod RoundTrip
use dck.Base.{
  ℕ, Bool, true, false, ◌&&◌, ◌||◌, not, Option, none, some, List, [], ◌∷◌, ◌++◌, if◌then◌else◌,
  ◌==◌,
}
use dck.Base.Bytes.{Bytes, split_last, is_empty, trim_by, trim_space}
use dck.Builder.Words.{
  Lexer, start, write, backslash, single, double, split_space_respecting_quotes,
}

abbrev pub comma : ℕ
comma = b','

abbrev pub is_quote : ℕ → Bool
is_quote c = c == double || c == single

-- strings.Trim(strings.TrimSpace(s), "\"'")
abbrev pub json_value : Bytes → Bytes
json_value s = trim_by is_quote (trim_space s)

abbrev pub add_value : List Bytes → Bytes → List Bytes
add_value parts current =
    if is_empty (json_value current) then parts else parts ++ json_value current ∷ []

-- One round of the loop.
unfoldable pub json_lex : ℕ → Lexer → Lexer
json_lex c l =
    if l.escape
    then record (write c l) { escape = false }
    else if c == backslash && l.in_double
    then record l { escape = true }
    else if c == single && not l.in_double
    then record l { in_single = not l.in_single }
    else if c == double && not l.in_single
    then record l { in_double = not l.in_double }
    else if c == comma && not l.in_single && not l.in_double
    then record l { parts = add_value l.parts l.current; current = [] }
    else write c l

unfoldable pub json_lex_all : Bytes → Lexer → Lexer
unfolding json_lex
json_lex_all [] l = l
json_lex_all (c ∷ s) l = json_lex_all s (json_lex c l)

-- What stands between "[" and "]", if the text begins and ends so.
abbrev pub bracketed : Bytes → Option Bytes
bracketed [] = none
bracketed (c ∷ s) = elim (split_last s) [
  | none ↦ none
  | some (body, d) ↦ if c == b'[' && d == b']' then some body else none
]

abbrev pub values_of : Lexer → List Bytes
values_of l = add_value l.parts l.current

unfoldable pub parse_json_array : Bytes → List Bytes
parse_json_array s = elim (bracketed (trim_space s)) [
  | none ↦ split_space_respecting_quotes (trim_space s)
  | some body ↦ values_of (json_lex_all body start)
]

unfoldable pub get_exec_form : List Bytes → Option (List Bytes)
unfolding parse_json_array
get_exec_form [] = none
get_exec_form (a ∷ []) = elim (parse_json_array a) [ [] ↦ none | p ∷ ps ↦ some (p ∷ ps) ]
get_exec_form (a ∷ b ∷ args) = none
