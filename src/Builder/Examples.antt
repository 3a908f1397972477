-- ===== src/Builder/Examples.antt =====
-- Runs of internal/builder on concrete texts.
use dck.Base.{◌≡◌, [], ◌∷◌, refl, map}
use dck.Base.Bytes.{Bytes, codes}
use dck.Base.Split.{join_byte}
use dck.Builder.Words.{split_space_respecting_quotes, split_shell_words, lex, lex_all}
use dck.Builder.Words.Quoting.{quote, split_shell_words-quote}
use dck.Builder.Json.{parse_json_array, json_lex, json_lex_all}
use dck.Builder.Instructions.{
  Instruction, cut_at, split_args, split_line, split_instruction, parse_parts, parse_instruction,
  continued, parse_instructions,
}
use dck.Builder.Instructions.Lines.{Written, parse_instructions_drops_last}
use dck.Builder.Json.RoundTrip.{json_array, parse_json_array-json_array}

abbrev run_line : Bytes
run_line = codes "RUN make 'all of it'"

abbrev run_instruction : Instruction
run_instruction = record {
  inst_type = codes "RUN";
  args = codes "make" ∷ codes "'all of it'" ∷ [];
  raw = run_line;
}

abbrev from_instruction : Instruction
from_instruction = record {
  inst_type = codes "FROM";
  args = codes "alpine" ∷ [];
  raw = codes "from alpine";
}

run-Written : Written run_line run_instruction
unfolding continued parse_instruction split_instruction split_line cut_at split_args
    split_space_respecting_quotes lex_all lex parse_parts
run-Written = record {
  one_line = (
    refl,
    (
      refl,
      (
        refl,
        (
          refl,
          (
            refl,
            (
              refl,
              (
                refl,
                (
                  refl,
                  (
                    refl,
                    (
                      refl,
                      (
                        refl,
                        (refl, (refl, (refl, (refl, (refl, (refl, (refl, (refl, (refl, tt))))))))),
                      ),
                    ),
                  ),
                ),
              ),
            ),
          ),
        ),
      ),
    ),
  );
  trimmed = refl;
  trimmed_both = refl;
  not_continued = refl;
  not_skipped = refl;
  reads = refl;
}

from-Written : Written (codes "from alpine") from_instruction
unfolding continued parse_instruction split_instruction split_line cut_at split_args
    split_space_respecting_quotes lex_all lex parse_parts
from-Written = record {
  one_line =
      (refl, (refl, (refl, (refl, (refl, (refl, (refl, (refl, (refl, (refl, (refl, tt)))))))))));
  trimmed = refl;
  trimmed_both = refl;
  not_continued = refl;
  not_skipped = refl;
  reads = refl;
}

-- The second instruction is lost.
parse_instructions_drops_last_example :
    parse_instructions (codes "FROM a\nRUN b \\") ≡ parse_instructions (codes "FROM a")
parse_instructions_drops_last_example =
    parse_instructions_drops_last (codes "FROM a") (codes "RUN b ")
      (refl, (refl, (refl, (refl, (refl, (refl, tt))))))

-- A quoted word keeps its blanks and its quotes.
words_example :
    split_space_respecting_quotes (codes "sh -c 'a  b' x")
    ≡ codes "sh" ∷ codes "-c" ∷ codes "'a  b'" ∷ codes "x" ∷ []
unfolding split_space_respecting_quotes lex_all lex
words_example = refl

split_shell_words-quote_example :
    split_shell_words (join_byte 32 (map quote (codes "echo" ∷ codes "a \"b\"" ∷ [] ∷ [])))
    ≡ codes "echo" ∷ codes "a \"b\"" ∷ [] ∷ []
split_shell_words-quote_example =
    split_shell_words-quote (codes "echo" ∷ codes "a \"b\"" ∷ [] ∷ [])
      ((refl, (refl, (refl, (refl, tt)))), ((refl, (refl, (refl, (refl, (refl, tt))))), (tt, tt)))

parse_json_array-json_array_example :
    parse_json_array (json_array (codes "sh" ∷ codes "a, \"b\" c" ∷ []))
    ≡ codes "sh" ∷ codes "a, \"b\" c" ∷ []
parse_json_array-json_array_example =
    parse_json_array-json_array (codes "sh" ∷ codes "a, \"b\" c" ∷ [])
      ((refl, refl), ((refl, refl), tt))

-- An empty argument is dropped.
json_drops_empty : parse_json_array (codes "[\"a\", \"\"]") ≡ codes "a" ∷ []
unfolding parse_json_array json_lex_all json_lex
json_drops_empty = refl
