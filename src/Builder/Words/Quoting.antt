-- ===== src/Builder/Words/Quoting.antt =====
-- Words in single quotes are read back as they are.
use dck.Base.{
  ℕ, ◌≡◌, Bool, true, false, List, [], ◌∷◌, ◌++◌, map, append-nil, append_assoc, All, arith, refl,
  ap, ◌∙◌, sym, ◌==◌,
}
use dck.Base.Bytes.{Bytes, split_last-append}
use dck.Base.Split.{Lacks, join_byte}
use dck.Builder.Words.{
  Lexer, lex, lex_all, words_of, single, split_space_respecting_quotes, strip_quotes,
  split_shell_words,
}

abbrev pub quote : Bytes → Bytes
quote w = single ∷ w ++ single ∷ []

-- The loop's variables with no escape open.
abbrev at : List Bytes → Bytes → Bool → Lexer
at ps cur in_single = record {
  parts = ps;
  current = cur;
  in_single = in_single;
  in_double = false;
  escape = false;
}

lex_all-append : (s t : Bytes) (l : Lexer) → lex_all (s ++ t) l ≡ lex_all t (lex_all s l)
unfolding lex_all
lex_all-append [] t l = refl
lex_all-append (c ∷ s) t l = lex_all-append s t (lex c l)

lex_quoted :
    (w : Bytes) (ps : List Bytes) (cur : Bytes)
    → Lacks single w
    → lex_all w (at ps cur true) ≡ at ps (cur ++ w) true
unfolding lex_all
lex_quoted [] ps cur h = ap (λ c. at ps c true) (sym (append-nil cur))
lex_quoted (c ∷ w) ps cur (hc, h) =
    ap (lex_all w) (one c hc)
    ∙ lex_quoted w ps (cur ++ c ∷ []) h
    ∙ ap (λ r. at ps r true) (append_assoc cur (c ∷ []) w)
  where
    one : (c : ℕ) → (c == single) ≡ false → lex c (at ps cur true) ≡ at ps (cur ++ c ∷ []) true
    one c h = ground arith

lex_quote :
    (w : Bytes) (ps : List Bytes)
    → Lacks single w
    → lex_all (quote w) (at ps [] false) ≡ at ps (quote w) false
unfolding lex_all
lex_quote w ps h =
    lex_all-append w (single ∷ []) (at ps (single ∷ []) true)
    ∙ ap (lex_all (single ∷ [])) (lex_quoted w ps (single ∷ []) h)

lex_blank :
    (w : Bytes) (ps : List Bytes)
    → lex 32 (at ps (quote w) false) ≡ at (ps ++ quote w ∷ []) [] false
unfolding lex
lex_blank w ps = refl

lex_all_cons : (c : ℕ) (s : Bytes) (l : Lexer) → lex_all (c ∷ s) l ≡ lex_all s (lex c l)
unfolding lex_all
lex_all_cons c s l = refl

lex_words :
    (ws : List Bytes) (w : Bytes) (ps : List Bytes)
    → All (Lacks single) (w ∷ ws)
    → words_of (lex_all (join_byte 32 (map quote (w ∷ ws))) (at ps [] false))
      ≡ ps ++ map quote (w ∷ ws)
unfolding join_byte
lex_words [] w ps (h, _) = ap words_of (lex_quote w ps h)
lex_words (v ∷ ws) w ps (h, hs) =
    let rest = join_byte 32 (map quote (v ∷ ws)) in
    ap words_of (
      lex_all-append (quote w) (32 ∷ rest) (at ps [] false)
      ∙ ap (lex_all (32 ∷ rest)) (lex_quote w ps h)
      ∙ lex_all_cons 32 rest (at ps (quote w) false)
      ∙ ap (lex_all rest) (lex_blank w ps))
    ∙ lex_words ws v (ps ++ quote w ∷ []) hs
    ∙ append_assoc ps (quote w ∷ []) (map quote (v ∷ ws))

strip-quote : (w : Bytes) → strip_quotes (quote w) ≡ w
unfolding strip_quotes
strip-quote w = rw (split_last-append w single, strip_quotes)

strip-quotes : (ws : List Bytes) → map strip_quotes (map quote ws) ≡ ws
strip-quotes [] = refl
strip-quotes (w ∷ ws) = cc (strip-quote w, strip-quotes ws)

-- Words that hold no single quote, each put in single quotes and separated by blanks, are read back
-- as they are, whatever else they hold: blanks, double quotes, backslashes, or nothing at all.
pub split_shell_words-quote :
    (ws : List Bytes) → All (Lacks single) ws → split_shell_words (join_byte 32 (map quote ws)) ≡ ws
unfolding split_shell_words
split_shell_words-quote [] h = unfold join_byte lex_all split_space_respecting_quotes in refl
split_shell_words-quote (w ∷ ws) h =
    ap (map strip_quotes) (lex_words ws w [] h) ∙ strip-quotes (w ∷ ws)
