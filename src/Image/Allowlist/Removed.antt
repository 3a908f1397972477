-- ===== src/Image/Allowlist/Removed.antt =====
-- What the removal of a host leaves of the others.
use dck.Base.{
  ◌≡◌, Bool, true, false, not, some, none, List, [], ◌∷◌, ◌++◌, map, keep, arith, refl, ap, sym,
  ◌∙◌, Bool-cases, inl, inr, All,
}
use dck.Base.Bytes.{Bytes, str_eq, str_eq_refl, str_eq_sound, trim_space}
use dck.Base.Split.{split_byte, join_byte, Lacks, split-snoc, split-join}
use dck.Image.Auth.{normalize_registry_hostname}
use dck.Image.Allowlist.{
  has_host, Env, Allowlist, line_feed, is_host_line, file_hosts, init_registry_allowlist,
  hosts_text, whole, remove_from_allowlist, is_registry_allowed,
}
use dck.Image.Allowlist.Allowed.{IsLine, has_host-keep, allowed_by_file}

found_among :
    (host : Bytes) (hosts behind : List Bytes)
    → IsLine host
    → has_host host hosts ≡ true
    → has_host host (keep is_host_line (map trim_space (hosts ++ behind))) ≡ true
found_among host [] behind line there = ground arith
found_among host (h ∷ hosts) behind line there = elim (Bool-cases (str_eq h host)) [
  | inl same ↦ rw (str_eq_sound h host same) (rw line.0 (rw line.1 (rw (str_eq_refl host) refl)))
  | inr other ↦ elim (Bool-cases (is_host_line (trim_space h))) [
    | inl kept ↦ rw kept (ground (arith, other, there, found_among host hosts behind line))
    | inr dropped ↦ rw dropped (found_among host hosts behind line (ground (arith, other, there)))
  ]
]

All-keep :
    (P : Bytes → Type 0) (p : Bytes → Bool) (hosts : List Bytes)
    → All P hosts
    → All P (keep p hosts)
All-keep P p [] all = tt
All-keep P p (h ∷ hosts) all = elim (Bool-cases (p h)) [
  | inl kept ↦ rw kept (all.0, All-keep P p hosts all.1)
  | inr dropped ↦ rw dropped (All-keep P p hosts all.1)
]

written_hosts :
    (host : Bytes) (hosts : List Bytes)
    → IsLine host
    → All (Lacks line_feed) hosts
    → has_host host hosts ≡ true
    → has_host host (file_hosts (some (hosts_text hosts))) ≡ true
unfolding file_hosts hosts_text split_byte
written_hosts host hosts line lack there =
    let parts = split-join line_feed hosts (λ e. ground (arith, e, there)) lack in
    elim (Bool-cases (str_eq (join_byte line_feed hosts) [])) [
      | inl empty ↦
          let one : [] ∷ [] ≡ hosts =
            sym (ap (split_byte line_feed) (str_eq_sound (join_byte line_feed hosts) [] empty))
            ∙ parts in
          ground (arith, line.1, sym one, there)
      | inr full ↦ rw full (
          rw (split-snoc line_feed (join_byte line_feed hosts) [] tt)
            (rw parts (found_among host hosts ([] ∷ []) line there)))
    ]

-- When a host is removed and the file can be written, every other host in memory that has the form in
-- which registries are compared and makes a line of its own is allowed after every later start, also
-- where the environment's block-list has it, if no host in memory holds a line feed.
pub is_registry_allowed-remove :
    (env : Env) (a : Allowlist) (text host : Bytes)
    → normalize_registry_hostname host ≡ host
    → IsLine host
    → All (Lacks line_feed) a.hosts
    → has_host host a.hosts ≡ true
    → str_eq host (trim_space text) ≡ false
    → let (b, error) = remove_from_allowlist whole text a in
      (error ≡ none) × (is_registry_allowed env host (init_registry_allowlist env b) ≡ true)
unfolding remove_from_allowlist
is_registry_allowed-remove env a text host normal line lack there other =
    let stays = λ (h : Bytes). not (str_eq h (trim_space text)) in
    (
      refl,
      allowed_by_file env _ host normal (
          written_hosts host (keep stays a.hosts) line
            (All-keep (Lacks line_feed) stays a.hosts lack)
            (has_host-keep stays host a.hosts ∙ rw other (rw there refl))),
    )
