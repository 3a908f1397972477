-- ===== src/Image/Allowlist/Texts.antt =====
-- Which registries the texts of the environment and of the file allow.
use dck.Base.{
  ℕ, ◌≡◌, true, false, ◌&&◌, ◌||◌, not, Option, none, some, List, [], ◌∷◌, ◌++◌, map, keep, refl,
  ap, sym, ◌∙◌, All, All-append, All-mono, append-nil,
}
use dck.Base.Bytes.{Bytes, str_eq, trim_space, trim_left, trim_right, is_space}
use dck.Base.Split.{split_byte, join_byte, Lacks, split-join}
use dck.Image.Auth.{normalize_registry_hostname}
use dck.Image.Allowlist.{
  has_host, default_allowlist, Env, Allowlist, line_feed, env_hosts, allowed_by_env, blocked_by_env,
  is_host_line, file_hosts, init_registry_allowlist, is_registry_allowed,
}
use dck.Image.Allowlist.Allowed.{is_registry_allowed_parsed}

abbrev pub Blanks : Bytes → Type 0
Blanks = All (λ c. is_space c ≡ true)

-- Bytes none of which is a blank.
abbrev pub Solid : Bytes → Type 0
Solid = All (λ c. is_space c ≡ false)

trim_left-Blanks : (b s : Bytes) → Blanks b → trim_left (b ++ s) ≡ trim_left s
trim_left-Blanks [] s h = refl
trim_left-Blanks (c ∷ b) s (hc, h) = rw hc (trim_left-Blanks b s h)

trim_right-Blanks : (b : Bytes) → Blanks b → trim_right b ≡ []
trim_right-Blanks [] h = refl
trim_right-Blanks (c ∷ b) (hc, h) = rw (trim_right-Blanks b h) (rw hc refl)

trim_right-Solid : (s b : Bytes) → Solid s → Blanks b → trim_right (s ++ b) ≡ s
trim_right-Solid [] b h hb = trim_right-Blanks b hb
trim_right-Solid (c ∷ []) b (hc, h) hb = rw (trim_right-Blanks b hb) (rw hc refl)
trim_right-Solid (c ∷ d ∷ s) b (hc, h) hb = rw (trim_right-Solid (d ∷ s) b h hb) refl

-- A word between blanks.
trim_space-padded :
    (before s after : Bytes)
    → Blanks before
    → Solid s
    → Blanks after
    → trim_space (before ++ (s ++ after)) ≡ s
trim_space-padded before [] after hb h ha =
    ap trim_right (trim_left-Blanks before after hb) ∙ all_blank after ha
  where
    all_blank : (b : Bytes) → Blanks b → trim_right (trim_left b) ≡ []
    all_blank [] hb = refl
    all_blank (c ∷ b) (hc, hb) = rw hc (all_blank b hb)
trim_space-padded before (c ∷ s) after hb (hc, h) ha =
    let kept : trim_left (c ∷ (s ++ after)) ≡ c ∷ (s ++ after) = rw hc refl in
    ap trim_right (trim_left-Blanks before (c ∷ (s ++ after)) hb ∙ kept)
    ∙ trim_right-Solid (c ∷ s) after (hc, h) ha

trim_space-Solid : (s : Bytes) → Solid s → trim_space s ≡ s
trim_space-Solid s h = ap trim_space (sym (append-nil s)) ∙ trim_space-padded [] s [] tt h tt

-- A host as it stands in a list of the environment: a byte at least, no blank and no colon.
abbrev pub EnvHost : Bytes → Type 0
EnvHost h = (str_eq h [] ≡ false) × Solid h × Lacks b':' h

join-Solid : (hosts : List Bytes) → All EnvHost hosts → Solid (join_byte b':' hosts)
unfolding join_byte
join-Solid [] h = tt
join-Solid (p ∷ []) h = h.0.1
join-Solid (p ∷ q ∷ hosts) h =
    All-append (λ c. is_space c ≡ false) p (b':' ∷ join_byte b':' (q ∷ hosts)) h.0.1
      (refl, join-Solid (q ∷ hosts) h.1)

trim-hosts : (hosts : List Bytes) → All EnvHost hosts → map trim_space hosts ≡ hosts
trim-hosts [] h = refl
trim-hosts (p ∷ hosts) h = rw (trim_space-Solid p h.0.1) (ap (λ hs. p ∷ hs) (trim-hosts hosts h.1))

keep-hosts : (hosts : List Bytes) → All EnvHost hosts → keep (λ h. not (str_eq h [])) hosts ≡ hosts
keep-hosts [] h = refl
keep-hosts (p ∷ hosts) h = rw h.0.0 (ap (λ hs. p ∷ hs) (keep-hosts hosts h.1))

join_filled :
    (p : Bytes) (hosts : List Bytes)
    → str_eq p [] ≡ false
    → str_eq (join_byte b':' (p ∷ hosts)) [] ≡ false
unfolding join_byte
join_filled [] hosts h = cc
join_filled (c ∷ p) [] h = refl
join_filled (c ∷ p) (q ∷ hosts) h = refl

parts_joined :
    (p : Bytes) (hosts : List Bytes)
    → All EnvHost (p ∷ hosts)
    → map trim_space (split_byte b':' (join_byte b':' (p ∷ hosts))) ≡ p ∷ hosts
parts_joined p hosts h =
    ap (map trim_space)
      (split-join b':' (p ∷ hosts) (λ e. cc) (All-mono (λ q r. r.2) (p ∷ hosts) h))
    ∙ trim-hosts (p ∷ hosts) h

allowed_by_env_joined :
    (hosts : List Bytes) → All EnvHost hosts → allowed_by_env (join_byte b':' hosts) ≡ hosts
unfolding allowed_by_env env_hosts
allowed_by_env_joined [] h = unfold join_byte in refl
allowed_by_env_joined (p ∷ hosts) h =
    rw (trim_space-Solid (join_byte b':' (p ∷ hosts)) (join-Solid (p ∷ hosts) h)) (
      rw (join_filled p hosts h.0.0)
        (ap (keep (λ h. not (str_eq h []))) (parts_joined p hosts h) ∙ keep-hosts (p ∷ hosts) h))

blocked_by_env_joined :
    (hosts : List Bytes) → All EnvHost hosts → blocked_by_env (join_byte b':' hosts) ≡ hosts
unfolding blocked_by_env env_hosts
blocked_by_env_joined [] h = unfold join_byte in refl
blocked_by_env_joined (p ∷ hosts) h =
    rw (trim_space-Solid (join_byte b':' (p ∷ hosts)) (join-Solid (p ∷ hosts) h))
      (rw (join_filled p hosts h.0.0) (parts_joined p hosts h))

-- The lines of the file: a host between blanks, a comment behind blanks, or blanks.
pub data FileLine : Type 0 where
  host_line : (before host after : Bytes) → FileLine
  comment : (before text : Bytes) → FileLine
  blank_line : Bytes → FileLine

abbrev pub render_line : FileLine → Bytes
render_line (host_line before host after) = before ++ (host ++ after)
render_line (comment before text) = before ++ (b'#' ∷ text)
render_line (blank_line blanks) = blanks

abbrev pub IsFileLine : FileLine → Type 0
IsFileLine (host_line before host after) =
    Blanks before
    × Solid host
    × Blanks after
    × (is_host_line host ≡ true)
    × Lacks line_feed (before ++ (host ++ after))
IsFileLine (comment before text) = Blanks before × Lacks line_feed (before ++ (b'#' ∷ text))
IsFileLine (blank_line blanks) = Blanks blanks × Lacks line_feed blanks

abbrev pub hosts_of : List FileLine → List Bytes
hosts_of [] = []
hosts_of (host_line before host after ∷ ls) = host ∷ hosts_of ls
hosts_of (comment before text ∷ ls) = hosts_of ls
hosts_of (blank_line blanks ∷ ls) = hosts_of ls

trim_right_first :
    (c : ℕ) (s : Bytes) → is_space c ≡ false → (t : Bytes) × (trim_right (c ∷ s) ≡ c ∷ t)
trim_right_first c s h = go (trim_right s) refl
  where
    go : (r : Bytes) → trim_right s ≡ r → (t : Bytes) × (trim_right (c ∷ s) ≡ c ∷ t)
    go [] e = ([], rw e (rw h refl))
    go (d ∷ r) e = (d ∷ r, rw e refl)

comment_skipped :
    (before text : Bytes)
    → Blanks before
    → is_host_line (trim_space (before ++ (b'#' ∷ text))) ≡ false
comment_skipped before text hb =
    let (t, e) = trim_right_first b'#' text refl in
    let trimmed : trim_space (before ++ (b'#' ∷ text)) ≡ b'#' ∷ t =
      ap trim_right (trim_left-Blanks before (b'#' ∷ text) hb) ∙ e in
    rw trimmed refl

lines_read :
    (ls : List FileLine)
    → All IsFileLine ls
    → keep is_host_line (map trim_space (map render_line ls)) ≡ hosts_of ls
lines_read [] h = refl
lines_read (host_line before host after ∷ ls) ((hb, hs, ha, good, lack), h) =
    rw (trim_space-padded before host after hb hs ha)
      (rw good (ap (λ hs. host ∷ hs) (lines_read ls h)))
lines_read (comment before text ∷ ls) ((hb, lack), h) =
    rw (comment_skipped before text hb) (lines_read ls h)
lines_read (blank_line blanks ∷ ls) ((hb, lack), h) =
    rw (ap trim_space (sym (append-nil blanks)) ∙ trim_space-padded blanks [] [] hb tt tt)
      (lines_read ls h)

line-Lacks : (l : FileLine) → IsFileLine l → Lacks line_feed (render_line l)
line-Lacks (host_line before host after) h = h.4
line-Lacks (comment before text) h = h.1
line-Lacks (blank_line blanks) h = h.1

lines-Lacks : (ls : List FileLine) → All IsFileLine ls → All (Lacks line_feed) (map render_line ls)
lines-Lacks [] h = tt
lines-Lacks (l ∷ ls) h = (line-Lacks l h.0, lines-Lacks ls h.1)

-- The file is missing, or it is these lines.
abbrev pub HasLines : Option Bytes → List FileLine → Type 0
HasLines none ls = ls ≡ []
HasLines (some text) ls = text ≡ join_byte line_feed (map render_line ls)

file_hosts-lines :
    (file : Option Bytes) (ls : List FileLine)
    → HasLines file ls
    → All IsFileLine ls
    → file_hosts file ≡ hosts_of ls
unfolding file_hosts
file_hosts-lines none ls e h = rw e refl
file_hosts-lines (some text) [] e h = rw e (unfold join_byte split_byte in refl)
file_hosts-lines (some text) (l ∷ ls) e h = rw e (
    rw (split-join line_feed (map render_line (l ∷ ls)) (λ e. cc) (lines-Lacks (l ∷ ls) h))
      (lines_read (l ∷ ls) h))

-- In strict mode, when the two variables are hosts joined by colons, and the file is missing or made of
-- lines with a host between blanks, comments behind blanks and lines of blanks: after a start a host is
-- allowed exactly if the block-list does not have it and it is a default or in the environment's list, or
-- if the file has a line of it, blocked or not.
pub is_registry_allowed-init :
    (env : Env) (a : Allowlist) (host : Bytes) (allowed blocked : List Bytes) (ls : List FileLine)
    → env.strict ≡ true
    → env.allow ≡ join_byte b':' allowed
    → env.block ≡ join_byte b':' blocked
    → All EnvHost allowed
    → All EnvHost blocked
    → HasLines a.file ls
    → All IsFileLine ls
    → let h = normalize_registry_hostname host in
      is_registry_allowed env host (init_registry_allowlist env a) ≡ (
        (not (has_host h blocked) && (has_host h default_allowlist || has_host h allowed))
        || has_host h (hosts_of ls))
is_registry_allowed-init env a host allowed blocked ls strict e e' ha hb has good =
    is_registry_allowed_parsed env a host strict
    ∙ rw e (
        rw e' (
          rw (allowed_by_env_joined allowed ha) (
            rw (blocked_by_env_joined blocked hb) (rw (file_hosts-lines a.file ls has good) refl))))
