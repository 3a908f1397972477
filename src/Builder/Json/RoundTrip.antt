-- ===== src/Builder/Json/RoundTrip.antt =====
-- The exec form of a list of arguments is read back as that list.
use dck.Base.{
  ℕ, ◌≡◌, Bool, true, false, ◌||◌, List, [], ◌∷◌, ◌++◌, map, append-nil, append_assoc, All, arith,
  refl, ap, ◌∙◌, sym, ◌==◌, if◌then◌else◌,
}
use dck.Base.Bytes.{Bytes, is_empty, split_last-append, trim_space, trim_right-last, is_space}
use dck.Base.Split.{join_byte}
use dck.Base.{some}
use dck.Builder.Words.{Lexer, start, backslash, double}
use dck.Builder.Json.{
  comma, json_value, json_lex, json_lex_all, values_of, parse_json_array, bracketed,
}

-- A JSON string: quotes and backslashes get a backslash in front.
abbrev pub escaped : Bytes → Bytes
escaped [] = []
escaped (c ∷ s) = if c == double || c == backslash then backslash ∷ c ∷ escaped s else c ∷ escaped s

abbrev pub json_string : Bytes → Bytes
json_string w = double ∷ escaped w ++ double ∷ []

-- Elements behind the first have a blank in front, as in `["a", "b"]`.
abbrev pub elements : List Bytes → List Bytes
elements [] = []
elements (w ∷ ws) = json_string w ∷ map (λ v. 32 ∷ json_string v) ws

abbrev pub json_array : List Bytes → Bytes
json_array ws = b'[' ∷ join_byte comma (elements ws) ++ b']' ∷ []

-- The elements behind the first, each with its comma.
abbrev join_tail : List Bytes → Bytes
join_tail [] = []
join_tail (v ∷ vs) = comma ∷ 32 ∷ json_string v ++ join_tail vs

-- The arguments that the program keeps: not empty, and with no blank or quote at either end.
abbrev pub Kept : Bytes → Type 0
Kept w = (json_value w ≡ w) × (is_empty w ≡ false)

abbrev at : List Bytes → Bytes → Bool → Lexer
at ps cur in_double = record {
  parts = ps;
  current = cur;
  in_single = false;
  in_double = in_double;
  escape = false;
}

json_lex_all-append :
    (s t : Bytes) (l : Lexer) → json_lex_all (s ++ t) l ≡ json_lex_all t (json_lex_all s l)
unfolding json_lex_all
json_lex_all-append [] t l = refl
json_lex_all-append (c ∷ s) t l = json_lex_all-append s t (json_lex c l)

json_lex_all_cons :
    (c : ℕ) (s : Bytes) (l : Lexer) → json_lex_all (c ∷ s) l ≡ json_lex_all s (json_lex c l)
unfolding json_lex_all
json_lex_all_cons c s l = refl

-- One byte of a JSON string is written to the current argument.
lex_one :
    (c : ℕ) (s : Bytes) (ps : List Bytes) (cur : Bytes)
    → json_lex_all
        (if c == double || c == backslash then backslash ∷ c ∷ s else c ∷ s)
        (at ps cur true)
      ≡ json_lex_all s (at ps (cur ++ c ∷ []) true)
unfolding json_lex_all
lex_one c s ps cur = ground arith

lex_escaped :
    (w : Bytes) (ps : List Bytes) (cur : Bytes)
    → json_lex_all (escaped w) (at ps cur true) ≡ at ps (cur ++ w) true
lex_escaped [] ps cur = unfold json_lex_all in ap (λ c. at ps c true) (sym (append-nil cur))
lex_escaped (c ∷ w) ps cur =
    lex_one c (escaped w) ps cur
    ∙ lex_escaped w ps (cur ++ c ∷ [])
    ∙ ap (λ r. at ps r true) (append_assoc cur (c ∷ []) w)

lex_string :
    (w : Bytes) (ps : List Bytes) (cur : Bytes)
    → json_lex_all (json_string w) (at ps cur false) ≡ at ps (cur ++ w) false
unfolding json_lex
lex_string w ps cur =
    json_lex_all_cons double (escaped w ++ double ∷ []) (at ps cur false)
    ∙ json_lex_all-append (escaped w) (double ∷ []) (at ps cur true)
    ∙ ap (json_lex_all (double ∷ [])) (lex_escaped w ps cur)
    ∙ unfold json_lex_all in refl

-- A comma behind a kept argument ends it, with or without a blank in front.
lex_comma :
    (ps : List Bytes) (cur w : Bytes)
    → json_value cur ≡ w
    → is_empty w ≡ false
    → json_lex comma (at ps cur false) ≡ at (ps ++ w ∷ []) [] false
unfolding json_lex
lex_comma ps cur w e n = rw (e, n)

lex_blank : (ps : List Bytes) → json_lex 32 (at ps [] false) ≡ at ps (32 ∷ []) false
unfolding json_lex
lex_blank ps = refl

-- What is open when the element `cur` has been read, then the rest.
lex_elements :
    (ws : List Bytes) (w : Bytes) (ps : List Bytes) (cur : Bytes)
    → json_value cur ≡ w
    → is_empty w ≡ false
    → All Kept ws
    → values_of (json_lex_all (join_tail ws) (at ps cur false)) ≡ ps ++ w ∷ ws
lex_elements [] w ps cur e n h = unfold json_lex_all in rw (e, n)
lex_elements (v ∷ ws) w ps cur e n (h, hs) =
    let ps' = ps ++ w ∷ [] in
    let rest = json_string v ++ join_tail ws in
    ap values_of (
      json_lex_all_cons comma (32 ∷ rest) (at ps cur false)
      ∙ ap (json_lex_all (32 ∷ rest)) (lex_comma ps cur w e n)
      ∙ json_lex_all_cons 32 rest (at ps' [] false)
      ∙ ap (json_lex_all rest) (lex_blank ps')
      ∙ json_lex_all-append (json_string v) (join_tail ws) (at ps' (32 ∷ []) false)
      ∙ ap (json_lex_all (join_tail ws)) (lex_string v ps' (32 ∷ [])))
    ∙ lex_elements ws v ps' (32 ∷ v) h.0 h.1 hs
    ∙ append_assoc ps (w ∷ []) (v ∷ ws)

join_tail_lem :
    (vs : List Bytes) (a : Bytes)
    → join_byte comma (a ∷ map (λ v. 32 ∷ json_string v) vs) ≡ a ++ join_tail vs
unfolding join_byte
join_tail_lem [] a = sym (append-nil a)
join_tail_lem (v ∷ vs) a = ap (λ r. a ++ (comma ∷ r)) (join_tail_lem vs (32 ∷ json_string v))

bracketed_lem : (body : Bytes) → bracketed (b'[' ∷ body ++ b']' ∷ []) ≡ some body
bracketed_lem body = rw (split_last-append body b']', bracketed)

trim_array : (body : Bytes) → trim_space (b'[' ∷ body ++ b']' ∷ []) ≡ b'[' ∷ body ++ b']' ∷ []
trim_array body = trim_right-last is_space (b'[' ∷ body) b']' refl

values_of-elements :
    (ws : List Bytes)
    → All Kept ws
    → values_of (json_lex_all (join_byte comma (elements ws)) start) ≡ ws
values_of-elements [] h = unfold json_lex_all join_byte in refl
values_of-elements (w ∷ ws) (h, hs) =
    ap values_of (
      ap (λ s. json_lex_all s start) (join_tail_lem ws (json_string w))
      ∙ json_lex_all-append (json_string w) (join_tail ws) start
      ∙ ap (json_lex_all (join_tail ws)) (lex_string w [] []))
    ∙ lex_elements ws w [] w h.0 h.1 hs

-- The JSON array of arguments that are not empty and have no blank and no quote at either end is read
-- back as these arguments; quotes and backslashes inside them are escaped, and commas are not.
pub parse_json_array-json_array :
    (ws : List Bytes) → All Kept ws → parse_json_array (json_array ws) ≡ ws
unfolding parse_json_array
parse_json_array-json_array ws h =
    let body = join_byte comma (elements ws) in
    rw (trim_array body, parse_json_array) (rw (bracketed_lem body) (values_of-elements ws h))
