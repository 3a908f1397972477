-- ===== src/Builder/Instructions/Lines.antt =====
-- What is read from the lines of a Dockerfile.
use dck.Base.{
  ℕ, suc, ◌+◌, ◌≤◌, ◌≡◌, ◌≢◌, true, false, Option, none, some, List, [], ◌∷◌, ◌++◌, map, length,
  length-append, All, All-append, arith, refl, ap, ◌∙◌, sym, append_assoc, append-nil, Bool-cases,
  inl, inr, ◌==◌,
}
use dck.Base.Bytes.{
  Bytes, split_last-append, to_upper, trim_space, trim_left, trim_right, trim_right-last, is_space,
}
use dck.Base.Split.{split_byte, join_byte, Lacks, split-join, split-snoc}
use dck.Builder.Words.{backslash}
use dck.Builder.Instructions.{
  newline, blank, Instruction, Scanner, ParsedLine, nothing, unknown, parsed, ParseResult,
  instructions, bad_line, is_known, is_skipped, parse_parts, split_instruction, parse_instruction,
  continued, join_line, read_line, read_complete, parse_lines, parse_instructions, first,
}

-- An instruction of one of the keywords of the language, in upper case.
abbrev pub Known : Instruction → Type 0
Known i = is_known i.inst_type ≡ true

-- What can be said of the result for a text of `n` lines.
abbrev pub ResultFits : ℕ → ParseResult → Type 0
ResultFits n (instructions is) = All Known is × (length is ≤ n)
ResultFits n (bad_line i name) = (1 ≤ i) × (i ≤ n) × (is_known (map to_upper name) ≡ false)

abbrev LineFits : ParsedLine → Type 0
LineFits nothing = Unit
LineFits (unknown name) = is_known (map to_upper name) ≡ false
LineFits (parsed i) = Known i

parse_parts-LineFits : (line : Bytes) (ps : List Bytes) → LineFits (parse_parts line ps)
unfolding parse_parts
parse_parts-LineFits line [] = tt
parse_parts-LineFits line (name ∷ args) = ground arith

read_complete-LineFits : (c : Option Bytes) → LineFits (read_complete c)
unfolding read_line parse_instruction
read_complete-LineFits none = tt
read_complete-LineFits (some line) = elim (Bool-cases (is_skipped (trim_space line))) [
  | inl skipped ↦ rw skipped tt
  | inr read ↦
      rw read (parse_parts-LineFits (trim_space line) (split_instruction (trim_space line)))
]

join_line-insts : (line : Bytes) (sc : Scanner) → (join_line line sc).0.insts ≡ sc.insts
unfolding join_line
join_line-insts line sc = ground arith

abbrev with_inst : Scanner → Instruction → Scanner
with_inst sc inst = record sc { insts = sc.insts ++ inst ∷ [] }

-- What `parseInstruction` gives decides how the loop goes on.
abbrev go_on : ℕ → List Bytes → Scanner → ParsedLine → ParseResult
go_on i lines sc nothing = parse_lines (suc i) lines sc
go_on i lines sc (unknown name) = bad_line (suc i) name
go_on i lines sc (parsed inst) = parse_lines (suc i) lines (with_inst sc inst)

parse_lines_cons :
    (i : ℕ) (raw : Bytes) (lines : List Bytes) (sc : Scanner)
    → let (sc', complete) = join_line (trim_right raw) sc in
      parse_lines i (raw ∷ lines) sc ≡ go_on i lines sc' (read_complete complete)
unfolding parse_lines
parse_lines_cons i raw lines sc = cases (read_complete (join_line (trim_right raw) sc).1)
  where
    cases :
        (pl : ParsedLine)
        → let sc' = (join_line (trim_right raw) sc).0 in
          (elim pl [
            | nothing ↦ parse_lines (suc i) lines sc'
            | unknown name ↦ bad_line (suc i) name
            | parsed inst ↦ parse_lines (suc i) lines (with_inst sc' inst)
          ])
          ≡ go_on i lines sc' pl
    cases nothing = refl
    cases (unknown name) = refl
    cases (parsed inst) = refl

suc_over : (i n : ℕ) → i + suc n ≡ suc i + n
suc_over i n = omega arith

zero_over : (n : ℕ) → 0 + n ≡ n
zero_over n = omega arith

go_on-ResultFits :
    (i n : ℕ) (lines : List Bytes) (sc : Scanner) (pl : ParsedLine)
    → ((sc' : Scanner)
        → All Known sc'.insts
        → length sc'.insts ≤ suc i
        → ResultFits (suc i + n) (parse_lines (suc i) lines sc'))
    → All Known sc.insts
    → length sc.insts ≤ i
    → LineFits pl
    → ResultFits (suc i + n) (go_on i lines sc pl)
go_on-ResultFits i n lines sc nothing rest h fits fine = rest sc h (omega arith)
go_on-ResultFits i n lines sc (unknown name) rest h fits bad = (omega arith, omega arith, bad)
go_on-ResultFits i n lines sc (parsed inst) rest h fits known =
    rest (with_inst sc inst) (All-append Known sc.insts (inst ∷ []) h (known, tt))
      (omega (arith, length-append sc.insts (inst ∷ [])))

parse_lines-ResultFits :
    (i : ℕ) (lines : List Bytes) (sc : Scanner)
    → All Known sc.insts
    → length sc.insts ≤ i
    → ResultFits (i + length lines) (parse_lines i lines sc)
parse_lines-ResultFits i [] sc h fits = unfold parse_lines in (h, omega arith)
parse_lines-ResultFits i (raw ∷ lines) sc h fits =
    let (sc', complete) = join_line (trim_right raw) sc in
    let same = join_line-insts (trim_right raw) sc in
    rw (parse_lines_cons i raw lines sc, suc_over i (length lines))
      (go_on-ResultFits i (length lines) lines sc' (read_complete complete)
        (parse_lines-ResultFits (suc i) lines) (rw same h) (rw same fits)
        (read_complete-LineFits complete))

-- Every instruction that is read has one of the keywords of the language, in upper case, and there are
-- at most as many as lines; and if the text is refused, then with the number of one of its lines
-- and a word that is no keyword in either case.
pub parse_instructions-ResultFits :
    (content : Bytes)
    → ResultFits (length (split_byte newline content)) (parse_instructions content)
unfolding parse_instructions
parse_instructions-ResultFits content =
    rw (zero_over (length (split_byte newline content))) at
      (parse_lines-ResultFits 0 (split_byte newline content) first tt (omega arith))

-- A line that holds one instruction and nothing else.
pub record Written (line : Bytes) (inst : Instruction) : Type 0 where
  pub one_line : Lacks newline line
  pub trimmed : trim_right line ≡ line
  pub trimmed_both : trim_space line ≡ line
  pub not_continued : continued line ≡ none
  pub not_skipped : is_skipped line ≡ false
  pub reads : parse_instruction line ≡ parsed inst

join_line-Written :
    (line : Bytes) (inst : Instruction) (is : List Instruction)
    → Written line inst
    → join_line (trim_right line) (record { pending = []; line_cont = false; insts = is })
      ≡ (record { pending = []; line_cont = false; insts = is }, some line)
unfolding join_line
join_line-Written line inst is w =
    ap (λ l. join_line l sc) w.trimmed ∙ rw (w.not_continued, join_line) refl
  where
    sc : Scanner
    sc = record { pending = []; line_cont = false; insts = is }

read-Written :
    (line : Bytes) (inst : Instruction)
    → Written line inst
    → read_complete (some line) ≡ parsed inst
unfolding read_line
read-Written line inst w = rw w.trimmed_both (rw w.not_skipped w.reads)

parse_lines-Written :
    (i : ℕ) (xs : List (Bytes × Instruction)) (is : List Instruction)
    → All (λ x. Written x.0 x.1) xs
    → parse_lines i (map (λ x. x.0) xs) (record { pending = []; line_cont = false; insts = is })
      ≡ instructions (is ++ map (λ x. x.1) xs)
parse_lines-Written i [] is h = unfold parse_lines in ap instructions (sym (append-nil is))
parse_lines-Written i ((line, inst) ∷ xs) is (w, h) =
    let sc : Scanner = record { pending = []; line_cont = false; insts = is } in
    let lines = map (λ x. x.0) xs in
    parse_lines_cons i line lines sc
    ∙ ap (λ r. go_on i lines r.0 (read_complete r.1)) (join_line-Written line inst is w)
    ∙ ap (go_on i lines sc) (read-Written line inst w)
    ∙ parse_lines-Written (suc i) xs (is ++ inst ∷ []) h
    ∙ ap instructions (append_assoc is (inst ∷ []) (map (λ x. x.1) xs))

-- A text with one instruction on each line is read as these instructions, in their order.
pub parse_instructions_one_per_line :
    (xs : List (Bytes × Instruction))
    → xs ≢ []
    → All (λ x. Written x.0 x.1) xs
    → parse_instructions (join_byte newline (map (λ x. x.0) xs)) ≡ instructions (map (λ x. x.1) xs)
unfolding parse_instructions
parse_instructions_one_per_line [] ne h = absurd (ne refl)
parse_instructions_one_per_line (x ∷ xs) ne h =
    ap (λ ls. parse_lines 0 ls first)
      (split-join newline (map (λ y. y.0) (x ∷ xs)) (λ e. cc) (lines-Lacks (x ∷ xs) h))
    ∙ parse_lines-Written 0 (x ∷ xs) [] h
  where
    lines-Lacks :
        (ys : List (Bytes × Instruction))
        → All (λ y. Written y.0 y.1) ys
        → All (Lacks newline) (map (λ y. y.0) ys)
    lines-Lacks [] h = tt
    lines-Lacks (y ∷ ys) (w, h) = (w.one_line, lines-Lacks ys h)

continued-append : (s : Bytes) → continued (s ++ backslash ∷ []) ≡ some s
unfolding continued
continued-append s = rw (split_last-append s backslash, continued) refl

join_line-continued :
    (s : Bytes) (sc : Scanner) → (join_line (trim_right (s ++ backslash ∷ [])) sc).1 ≡ none
unfolding join_line
join_line-continued s sc =
    ap (λ l. (join_line l sc).1) (trim_right-last is_space s backslash refl)
    ∙ (elim (Bool-cases sc.line_cont) [
      | inl open_line ↦ rw (open_line, join_line) (rw (continued-append s, join_line) refl)
      | inr fresh ↦ rw (fresh, join_line) (rw (continued-append s, join_line) refl)
    ])

parse_lines_last_continued :
    (i : ℕ) (lines : List Bytes) (s : Bytes) (sc : Scanner)
    → parse_lines i (lines ++ (s ++ backslash ∷ []) ∷ []) sc ≡ parse_lines i lines sc
parse_lines_last_continued i [] s sc =
    let last = s ++ backslash ∷ [] in
    let sc' = (join_line (trim_right last) sc).0 in
    parse_lines_cons i last [] sc
    ∙ ap (λ c. go_on i [] sc' (read_complete c)) (join_line-continued s sc)
    ∙ unfold parse_lines in ap instructions (join_line-insts (trim_right last) sc)
parse_lines_last_continued i (raw ∷ lines) s sc =
    let (sc', complete) = join_line (trim_right raw) sc in
    parse_lines_cons i raw (lines ++ (s ++ backslash ∷ []) ∷ []) sc
    ∙ same (read_complete complete) sc' (parse_lines_last_continued (suc i) lines s)
    ∙ sym (parse_lines_cons i raw lines sc)
  where
    same :
        (pl : ParsedLine) (sc' : Scanner)
        → ((q : Scanner)
            → parse_lines (suc i) (lines ++ (s ++ backslash ∷ []) ∷ []) q
              ≡ parse_lines (suc i) lines q)
        → go_on i (lines ++ (s ++ backslash ∷ []) ∷ []) sc' pl ≡ go_on i lines sc' pl
    same nothing q rest = rest q
    same (unknown name) q rest = refl
    same (parsed inst) q rest = rest (with_inst q inst)

-- A last line that ends in a backslash is read as if it were not there, whatever stands in front of
-- the backslash and of the line: it is no error, and its instruction is lost.
pub parse_instructions_drops_last :
    (content s : Bytes)
    → Lacks newline s
    → parse_instructions (content ++ (newline ∷ s ++ backslash ∷ [])) ≡ parse_instructions content
unfolding parse_instructions
parse_instructions_drops_last content s h =
    ap (λ ls. parse_lines 0 ls first)
      (split-snoc newline content (s ++ backslash ∷ [])
        (All-append (λ c. (c == newline) ≡ false) s (backslash ∷ []) h (refl, tt)))
    ∙ parse_lines_last_continued 0 (split_byte newline content) s first

trim_left-last :
    (s : Bytes) (c : ℕ) → is_space c ≡ false → (t : Bytes) × (trim_left (s ++ c ∷ []) ≡ t ++ c ∷ [])
trim_left-last [] c h = ([], rw h refl)
trim_left-last (d ∷ s) c h = elim (Bool-cases (is_space d)) [
  | inl skipped ↦ (let (t, e) = trim_left-last s c h in (t, rw skipped e))
  | inr kept ↦ (d ∷ s, rw kept refl)
]

continued-last : (s : Bytes) (c : ℕ) → (c == backslash) ≡ false → continued (s ++ c ∷ []) ≡ none
unfolding continued
continued-last s c h = rw (split_last-append s c, continued) (rw h refl)

module _ (a b : Bytes) (c : ℕ) (visible : is_space c ≡ false)
    (ends : (c == backslash) ≡ false) where
  -- The line that a line break behind a backslash stands in for.
  abbrev pub joined : Bytes
  joined = a ++ (blank ∷ trim_left (b ++ c ∷ []))

  joined-last : (t : Bytes) × (joined ≡ t ++ c ∷ [])
  joined-last =
      let (t, e) = trim_left-last b c visible in
      (a ++ (blank ∷ t), ap (λ r. a ++ (blank ∷ r)) e ∙ sym (append_assoc a (blank ∷ t) (c ∷ [])))

  trim_right-joined : trim_right joined ≡ joined
  trim_right-joined =
      let (t, e) = joined-last in ap trim_right e ∙ trim_right-last is_space t c visible ∙ sym e

  continued-joined : continued joined ≡ none
  continued-joined = let (t, e) = joined-last in ap continued e ∙ continued-last t c ends

  open_join :
      (is : List Instruction)
      → join_line
          (trim_right (a ++ backslash ∷ []))
          (record { pending = []; line_cont = false; insts = is })
        ≡ (record { pending = a; line_cont = true; insts = is }, none)
  unfolding join_line
  open_join is =
      ap (λ l. join_line l (record { pending = []; line_cont = false; insts = is }))
        (trim_right-last is_space a backslash refl)
      ∙ rw (continued-append a, join_line) refl

  close_join :
      (is : List Instruction)
      → join_line (trim_right (b ++ c ∷ [])) (record { pending = a; line_cont = true; insts = is })
        ≡ (record { pending = []; line_cont = false; insts = is }, some joined)
  unfolding join_line
  close_join is =
      ap (λ l. join_line l (record { pending = a; line_cont = true; insts = is }))
        (trim_right-last is_space b c visible)
      ∙ rw (continued-last b c ends, join_line) refl

  whole_join :
      (is : List Instruction)
      → join_line (trim_right joined) (record { pending = []; line_cont = false; insts = is })
        ≡ (record { pending = []; line_cont = false; insts = is }, some joined)
  unfolding join_line
  whole_join is =
      ap (λ l. join_line l (record { pending = []; line_cont = false; insts = is }))
        trim_right-joined
      ∙ rw (continued-joined, join_line) refl

  -- A line that ends in a backslash and the line behind it, which ends in a visible byte other than a
  -- backslash, are read as one line: the backslash, the break and the blanks behind the break become
  -- one blank. Lines are counted as in the file.
  pub parse_lines-joined :
      (i : ℕ) (lines : List Bytes) (is : List Instruction)
      → let sc : Scanner = record { pending = []; line_cont = false; insts = is } in
        parse_lines i ((a ++ backslash ∷ []) ∷ (b ++ c ∷ []) ∷ lines) sc
        ≡ parse_lines (suc i) (joined ∷ lines) sc
  parse_lines-joined i lines is =
      let sc : Scanner = record { pending = []; line_cont = false; insts = is } in
      let mid : Scanner = record { pending = a; line_cont = true; insts = is } in
      parse_lines_cons i (a ++ backslash ∷ []) ((b ++ c ∷ []) ∷ lines) sc
      ∙ ap (λ r. go_on i ((b ++ c ∷ []) ∷ lines) r.0 (read_complete r.1)) (open_join is)
      ∙ parse_lines_cons (suc i) (b ++ c ∷ []) lines mid
      ∙ ap (λ r. go_on (suc i) lines r.0 (read_complete r.1)) (close_join is ∙ sym (whole_join is))
      ∙ sym (parse_lines_cons (suc i) joined lines sc)
