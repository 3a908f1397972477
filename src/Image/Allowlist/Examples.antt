-- ===== src/Image/Allowlist/Examples.antt =====
-- A strict start with quay.io blocked and one more host in the file, and the removal of a host.
use dck.Base.{List, ◌≡◌, true, none, some, [], ◌∷◌, ◌++◌, refl, arith}
use dck.Base.Bytes.{Bytes, codes}
use dck.Image.Auth.{
  strip_scheme, before_slash, normalize_registry_hostname, contains_text, stored_key,
}
use dck.Image.Allowlist.{
  Env, Allowlist, default_allowlist, init_registry_allowlist, remove_from_allowlist, whole,
  is_registry_allowed, line_feed,
}
use dck.Image.Allowlist.Texts.{FileLine, host_line, comment, blank_line, is_registry_allowed-init}
use dck.Base.Split.{join_byte}
use dck.Image.Allowlist.Removed.{is_registry_allowed-remove}

abbrev allowed_hosts : List Bytes
allowed_hosts = codes "a.io" ∷ codes "b.io" ∷ []

abbrev blocked_hosts : List Bytes
blocked_hosts = codes "quay.io" ∷ codes "b.io" ∷ []

abbrev strict_env : Env
strict_env = record { allow = codes "a.io:b.io"; block = codes "quay.io:b.io"; strict = true }

abbrev file_lines : List FileLine
file_lines =
    comment [] (codes " own hosts") ∷ host_line (codes " ") (codes "b.io") [] ∷ blank_line [] ∷ []

abbrev own_file : Allowlist
own_file = record {
  hosts = default_allowlist;
  file = some (codes "# own hosts" ++ line_feed ∷ (codes " b.io" ++ line_feed ∷ []));
}

-- `b.io` is blocked, and has a line in the file.
is_registry_allowed-init_example :
    is_registry_allowed strict_env
      (codes "https://b.io")
      (init_registry_allowlist strict_env own_file)
    ≡ true
unfolding normalize_registry_hostname strip_scheme before_slash contains_text stored_key join_byte
is_registry_allowed-init_example =
    is_registry_allowed-init strict_env own_file (codes "https://b.io") allowed_hosts blocked_hosts
      file_lines refl refl refl (ground arith) (ground arith) refl (ground arith)

-- quay.io is blocked, and allowed once gcr.io is removed.
is_registry_allowed-remove_example :
    let (b, error) = remove_from_allowlist whole (codes "gcr.io") own_file in
    (error ≡ none)
    × (is_registry_allowed strict_env (codes "quay.io") (init_registry_allowlist strict_env b)
        ≡ true)
unfolding normalize_registry_hostname strip_scheme before_slash contains_text stored_key
is_registry_allowed-remove_example =
    is_registry_allowed-remove strict_env own_file (codes "gcr.io") (codes "quay.io") refl
      (refl, refl, (refl, (refl, (refl, (refl, (refl, (refl, (refl, tt)))))))) (ground arith) refl
      refl
