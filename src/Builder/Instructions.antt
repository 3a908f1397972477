-- ===== src/Builder/Instructions.antt =====
-- internal/builder/parser.go and types.go: the lines of a Dockerfile and its instructions. A blank is
-- an ASCII blank here.
pub mod Lines
use dck.Base.{
  ℕ, suc, Bool, true, false, ◌&&◌, ◌||◌, not, Option, none, some, List, [], ◌∷◌, ◌++◌, map,
  if◌then◌else◌, ◌==◌, any, keep,
}
use dck.Base.Bytes.{
  Bytes, codes, str_eq, has_prefix, contains_byte, to_upper, split_last, is_space, is_empty,
  trim_space, trim_left, trim_right,
}
use dck.Base.Split.{split_byte}
use dck.Builder.Words.{backslash, split_space_respecting_quotes}
use dck.Builder.Json.{parse_json_array}

abbrev pub newline : ℕ
newline = 10

abbrev pub blank : ℕ
blank = 32

-- The text before the first byte that passes the test, and the text from it on.
unfoldable pub cut_at : (ℕ → Bool) → Bytes → Option (Bytes × Bytes)
cut_at test [] = none
cut_at test (c ∷ s) =
    let rest = cut_at test s in
    if test c then some ([], c ∷ s) else elim rest [ none ↦ none | some (a, b) ↦ some (c ∷ a, b) ]

-- strings.Fields
unfoldable pub split_fields : Bytes → List Bytes
split_fields [] = [] ∷ []
split_fields (c ∷ s) =
    let rest = split_fields s in
    if is_space c then [] ∷ rest else elim rest [ [] ↦ (c ∷ []) ∷ [] | p ∷ ps ↦ (c ∷ p) ∷ ps ]

unfoldable pub fields : Bytes → List Bytes
unfolding split_fields
fields s = keep (λ p. not (is_empty p)) (split_fields s)

-- strings.SplitN(s, " ", 2) leaves out the blank it splits at.
abbrev behind : Bytes → Bytes
behind [] = []
behind (c ∷ s) = s

unfoldable pub parse_env_args : Bytes → List Bytes
unfolding cut_at
parse_env_args s =
    if contains_byte s b'='
    then split_space_respecting_quotes s
    else elim (cut_at (λ c. c == blank) s) [
      | none ↦ s ∷ []
      | some (key, value) ↦ key ∷ trim_space (behind value) ∷ []
    ]

unfoldable pub parse_label_args : Bytes → List Bytes
parse_label_args s = split_space_respecting_quotes s

-- The arguments behind the keyword `inst`.
unfoldable pub split_args : Bytes → Bytes → List Bytes
unfolding parse_env_args parse_label_args fields
split_args inst rest =
    if has_prefix rest (codes "[")
    then parse_json_array rest
    else if str_eq inst (codes "ENV")
    then parse_env_args rest
    else if str_eq inst (codes "LABEL")
    then parse_label_args rest
    else if str_eq inst (codes "EXPOSE")
    then fields rest
    else if (str_eq inst (codes "COPY") || str_eq inst (codes "ADD"))
        && has_prefix rest (codes "--")
    then split_space_respecting_quotes rest
    else split_space_respecting_quotes rest

unfoldable pub split_line : Bytes → List Bytes
unfolding split_args
split_line line =
    if has_prefix line (codes "[") then parse_json_array line else elim (cut_at is_space line) [
      | none ↦ line ∷ []
      | some (inst, rest) ↦ inst ∷ split_args inst (trim_space rest)
    ]

unfoldable pub split_instruction : Bytes → List Bytes
unfolding split_line
split_instruction line = split_line (trim_space line)

abbrev pub instruction_types : List Bytes
instruction_types =
    codes "FROM"
    ∷ codes "RUN"
    ∷ codes "CMD"
    ∷ codes "ENTRYPOINT"
    ∷ codes "ENV"
    ∷ codes "WORKDIR"
    ∷ codes "COPY"
    ∷ codes "ADD"
    ∷ codes "EXPOSE"
    ∷ codes "LABEL"
    ∷ codes "USER"
    ∷ codes "VOLUME"
    ∷ codes "SHELL"
    ∷ codes "ARG"
    ∷ codes "STOPSIGNAL"
    ∷ codes "HEALTHCHECK"
    ∷ codes "MAINTAINER"
    ∷ codes "ONBUILD"
    ∷ []

pub record Instruction : Type 0 where
  pub inst_type : Bytes
  pub args : List Bytes
  pub raw : Bytes

abbrev pub is_known : Bytes → Bool
is_known t = any (str_eq t) instruction_types

-- What `parseInstruction` returns: nothing and no error, an unknown keyword, or an instruction.
pub data ParsedLine : Type 0 where
  nothing : ParsedLine
  unknown : Bytes → ParsedLine
  parsed : Instruction → ParsedLine

unfoldable pub parse_parts : Bytes → List Bytes → ParsedLine
parse_parts line [] = nothing
parse_parts line (name ∷ args) =
    if is_known (map to_upper name)
    then parsed (record { inst_type = map to_upper name; args = args; raw = line })
    else unknown name

unfoldable pub parse_instruction : Bytes → ParsedLine
unfolding parse_parts
parse_instruction line = parse_parts line (split_instruction line)

-- The variables of the loop over the lines.
pub record Scanner : Type 0 where
  pub pending : Bytes
  pub line_cont : Bool
  pub insts : List Instruction

-- The text before a backslash at the end.
unfoldable pub continued : Bytes → Option Bytes
continued line = elim (split_last line) [
  | none ↦ none
  | some (body, c) ↦ if c == backslash then some body else none
]

-- The line that a raw line completes, if it does, and the variables behind it.
unfoldable pub join_line : Bytes → Scanner → Scanner × Option Bytes
unfolding continued
join_line line sc =
    if sc.line_cont
    then elim (continued line) [
      | some body ↦ (record sc { pending = sc.pending ++ (blank ∷ trim_left body) }, none)
      | none ↦ (
        record sc { pending = []; line_cont = false },
        some (sc.pending ++ (blank ∷ trim_left line)),
      )
    ]
    else elim (continued line) [
      | some body ↦ (record sc { pending = sc.pending ++ body; line_cont = true }, none)
      | none ↦ (sc, some line)
    ]

-- Empty lines and comments are skipped.
abbrev pub is_skipped : Bytes → Bool
is_skipped line = str_eq line [] || has_prefix line (codes "#")

unfoldable pub read_line : Bytes → ParsedLine
read_line line = if is_skipped line then nothing else parse_instruction line

-- The instructions, or the number of the line with an unknown keyword.
pub data ParseResult : Type 0 where
  instructions : List Instruction → ParseResult
  bad_line : ℕ → Bytes → ParseResult

abbrev pub read_complete : Option Bytes → ParsedLine
read_complete none = nothing
read_complete (some line) = read_line (trim_space line)

unfoldable pub parse_lines : ℕ → List Bytes → Scanner → ParseResult
unfolding join_line
parse_lines i [] sc = instructions sc.insts
parse_lines i (raw ∷ lines) sc =
    let (sc', complete) = join_line (trim_right raw) sc in
    let skip = parse_lines (suc i) lines sc' in
    elim (read_complete complete) [
      | nothing ↦ skip
      | unknown name ↦ bad_line (suc i) name
      | parsed inst ↦ parse_lines (suc i) lines (record sc' { insts = sc'.insts ++ inst ∷ [] })
    ]

abbrev pub first : Scanner
first = record { pending = []; line_cont = false; insts = [] }

unfoldable pub parse_instructions : Bytes → ParseResult
unfolding parse_lines
parse_instructions content = parse_lines 0 (split_byte newline content) first
