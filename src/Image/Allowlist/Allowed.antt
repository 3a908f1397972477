-- ===== src/Image/Allowlist/Allowed.antt =====
-- Which registries are allowed after a start and after an addition.
use dck.Base.{
  ◌≡◌, Bool, true, false, ◌&&◌, ◌||◌, not, Option, none, some, List, [], ◌∷◌, ◌++◌, map, any-append,
  keep, arith, refl, ap, sym, ◌∙◌, Bool-cases, inl, inr, ◌⊎◌, append_assoc,
}
use dck.Base.Bytes.{Bytes, str_eq, str_eq_refl, str_eq_sound, trim_space}
use dck.Base.Split.{split_byte, Lacks, split-Lacks, split-snoc}
use dck.Image.Auth.{normalize_registry_hostname}
use dck.Image.Allowlist.{
  has_host, default_allowlist, Env, Allowlist, line_feed, allowed_by_env, blocked_by_env,
  is_host_line, file_hosts, init_registry_allowlist, text_of, whole, add_new, add_to_allowlist,
  is_registry_allowed, has_bad_byte,
}

pub has_host-keep :
    (p : Bytes → Bool) (host : Bytes) (hosts : List Bytes)
    → has_host host (keep p hosts) ≡ (p host && has_host host hosts)
has_host-keep p host [] = ground arith
has_host-keep p host (h ∷ hosts) = elim (Bool-cases (str_eq h host)) [
  | inl same ↦
      rw (str_eq_sound h host same) (ground (arith, str_eq_refl host, has_host-keep p host hosts))
  | inr other ↦ ground (arith, other, has_host-keep p host hosts)
]

-- In strict mode, after a start a host is allowed exactly if the block-list does not have it and it is a
-- default or in the environment's list, or if the file has a line of it, blocked or not.
pub is_registry_allowed_parsed :
    (env : Env) (a : Allowlist) (host : Bytes)
    → env.strict ≡ true
    → let h = normalize_registry_hostname host in
      is_registry_allowed env host (init_registry_allowlist env a) ≡ (
        (not (has_host h (blocked_by_env env.block))
          && (has_host h default_allowlist || has_host h (allowed_by_env env.allow)))
        || has_host h (file_hosts a.file))
unfolding is_registry_allowed init_registry_allowlist
is_registry_allowed_parsed env a host strict =
    let h = normalize_registry_hostname host in
    let free = λ (k : Bytes). not (has_host k (blocked_by_env env.block)) in
    rw strict (
      any-append (λ k. str_eq k h) (keep free (default_allowlist ++ allowed_by_env env.allow))
        (file_hosts a.file)
      ∙ ap (λ b. b || has_host h (file_hosts a.file))
          (has_host-keep free h (default_allowlist ++ allowed_by_env env.allow)
            ∙ ap (λ b. free h && b)
                (any-append (λ k. str_eq k h) default_allowlist (allowed_by_env env.allow))))

-- A host that a line of the file gives back: without blanks around it, without a line feed, not empty
-- and no comment.
abbrev pub IsLine : Bytes → Type 0
IsLine host = (trim_space host ≡ host) × (is_host_line host ≡ true) × Lacks line_feed host

found_line :
    (host : Bytes) (before behind : List Bytes)
    → IsLine host
    → has_host host (keep is_host_line (map trim_space (before ++ (host ∷ behind)))) ≡ true
found_line host [] behind (trimmed, line, _) = rw trimmed (rw line (rw (str_eq_refl host) refl))
found_line host (b ∷ before) behind h = elim (Bool-cases (is_host_line (trim_space b))) [
  | inl line ↦ rw line (ground (arith, found_line host before behind h))
  | inr other ↦ rw other (found_line host before behind h)
]

-- A file that is missing, empty, or ends with its last line.
abbrev pub EndsInLine : Option Bytes → Type 0
EndsInLine file = (text_of file ≡ []) ⊎ ((s : Bytes) × (text_of file ≡ s ++ line_feed ∷ []))

lines_of_added :
    (s host : Bytes)
    → Lacks line_feed host
    → split_byte line_feed ((s ++ line_feed ∷ []) ++ (host ++ line_feed ∷ []))
      ≡ split_byte line_feed s ++ (host ∷ ([] ∷ []))
lines_of_added s host h =
    ap (split_byte line_feed) (
      append_assoc s (line_feed ∷ []) (host ++ line_feed ∷ [])
      ∙ sym (append_assoc s (line_feed ∷ host) (line_feed ∷ [])))
    ∙ split-snoc line_feed (s ++ (line_feed ∷ host)) [] tt
    ∙ ap (λ l. l ++ [] ∷ []) (split-snoc line_feed s host h)
    ∙ append_assoc (split_byte line_feed s) (host ∷ []) ([] ∷ [])

lines_of_first :
    (host : Bytes)
    → Lacks line_feed host
    → split_byte line_feed (host ++ line_feed ∷ []) ≡ host ∷ ([] ∷ [])
lines_of_first host h =
    split-snoc line_feed host [] tt ∙ ap (λ l. l ++ [] ∷ []) (split-Lacks line_feed host h)

added_line :
    (file : Option Bytes) (host : Bytes)
    → IsLine host
    → EndsInLine file
    → has_host host (file_hosts (some (text_of file ++ (host ++ line_feed ∷ [])))) ≡ true
unfolding file_hosts
added_line file host line ends = elim ends [
  | inl empty ↦ rw empty (rw (lines_of_first host line.2) (found_line host [] ([] ∷ []) line))
  | inr (s, e) ↦
      rw e (
        rw (lines_of_added s host line.2) (found_line host (split_byte line_feed s) ([] ∷ []) line))
]

or_true : (b : Bool) → (b || true) ≡ true
or_true true = refl
or_true false = refl

pub allowed_by_file :
    (env : Env) (a : Allowlist) (host : Bytes)
    → normalize_registry_hostname host ≡ host
    → has_host host (file_hosts a.file) ≡ true
    → is_registry_allowed env host (init_registry_allowlist env a) ≡ true
allowed_by_file env a host normal there = elim (Bool-cases env.strict) [
  | inl strict ↦ is_registry_allowed_parsed env a host strict ∙ rw normal (rw there (or_true _))
  | inr open_ ↦ (unfold is_registry_allowed in rw open_ refl)
]

-- A host that is not in memory, has the form in which registries are compared and makes a line of its own
-- is allowed after every start that follows its addition, whatever the environment says, if the file can be
-- written and what it held ends with a line.
pub is_registry_allowed-add :
    (env : Env) (a : Allowlist) (host : Bytes)
    → normalize_registry_hostname host ≡ host
    → IsLine host
    → has_bad_byte host ≡ false
    → has_host host a.hosts ≡ false
    → EndsInLine a.file
    → let (b, error) = add_to_allowlist true whole host a in
      (error ≡ none) × (is_registry_allowed env host (init_registry_allowlist env b) ≡ true)
unfolding add_to_allowlist add_new
is_registry_allowed-add env a host normal line good new ends =
    let some_host : str_eq host [] ≡ false = ground (arith, line.1) in
    rw line.0 (
      rw some_host (
        rw good
          (rw new (refl, allowed_by_file env _ host normal (added_line a.file host line ends)))))
