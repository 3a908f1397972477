-- ===== src/Image/Auth.antt =====
-- internal/image/auth.go: the credentials for registries in auth.json. The file is `none` where it is
-- missing or cannot be read. The two environment variables are arguments.
pub mod Lookup
mod Examples
use dck.Base.{
  Bool, true, false, ◌&&◌, ◌||◌, not, Option, none, some, List, [], ◌∷◌, ◌++◌, if◌then◌else◌, any,
  keep, ◌==◌, ℕ,
}
use dck.Base.Bytes.{Bytes, codes, str_eq, has_prefix}
use dck.State.{trim_prefix}
use dck.FilePath.{slash}
use dck.Container.Types.{SaveOutcome, written, refused, chmod_failed, save_ok}

pub record AuthEntry : Type 0 where
  pub registry : Bytes
  pub username : Bytes
  pub password : Bytes

abbrev pub AuthFile : Type 0
AuthFile = Option (List AuthEntry)

-- strings.Contains
unfoldable pub contains_text : Bytes → Bytes → Bool
contains_text [] t = has_prefix [] t
contains_text (c ∷ s) t = has_prefix (c ∷ s) t || contains_text s t

abbrev pub https : Bytes
https = codes "https://"

abbrev pub http : Bytes
http = codes "http://"

-- The scheme in front is taken off, if it is one of the two.
unfoldable pub strip_scheme : Bytes → Bytes
strip_scheme s =
    if has_prefix s https
    then trim_prefix s https
    else if has_prefix s http
    then trim_prefix s http
    else s

-- The key under which `Login` and `Logout` know a registry.
unfoldable pub stored_key : Bytes → Bytes
stored_key registry =
    if not (contains_text registry (codes "://"))
    then strip_scheme (https ++ registry)
    else strip_scheme registry

-- The text in front of the first slash.
unfoldable pub before_slash : Bytes → Bytes
before_slash [] = []
before_slash (c ∷ s) = let rest = before_slash s in if c == slash then [] else c ∷ rest

unfoldable pub normalize_registry_hostname : Bytes → Bytes
normalize_registry_hostname registry = before_slash (strip_scheme registry)

abbrev pub entries_of : AuthFile → List AuthEntry
entries_of none = []
entries_of (some es) = es

unfoldable pub save_auth : SaveOutcome → List AuthEntry → AuthFile → AuthFile
save_auth written es file = some es
save_auth chmod_failed es file = some es
save_auth refused es file = file

abbrev pub drop_entry : Bytes → List AuthEntry → List AuthEntry
drop_entry key es = keep (λ e. not (str_eq e.registry key)) es

abbrev pub entry : Bytes → Bytes → Bytes → AuthEntry
entry key username password = record { registry = key; username = username; password = password }

-- `true` is success.
unfoldable pub login : SaveOutcome → Bytes → Bytes → Bytes → AuthFile → AuthFile × Bool
login o registry username password file = (
  save_auth o
      (drop_entry (stored_key registry) (entries_of file)
        ++ entry (stored_key registry) username password ∷ [])
      file,
  save_ok o,
)

pub data LogoutResult : Type 0 where
  logged_out no_credentials not_logged_in save_error : LogoutResult

unfoldable pub logout : SaveOutcome → Bytes → AuthFile → AuthFile × LogoutResult
logout o registry none = (none, no_credentials)
logout o registry (some es) =
    if not (any (λ e. str_eq e.registry (stored_key registry)) es)
    then (some es, not_logged_in)
    else (
      save_auth o (drop_entry (stored_key registry) es) (some es),
      if save_ok o then logged_out else save_error,
    )

unfoldable pub find_credentials : Bytes → List AuthEntry → Bytes × Bytes
find_credentials host [] = ([], [])
find_credentials host (e ∷ es) =
    let rest = find_credentials host es in
    if str_eq (normalize_registry_hostname e.registry) host then (e.username, e.password) else rest

-- Empty texts where there are no credentials. The environment comes first.
unfoldable pub get_credentials : Bytes → Bytes → Bytes → AuthFile → Bytes × Bytes
get_credentials user pass registry file =
    if not (str_eq user []) && not (str_eq pass [])
    then (user, pass)
    else find_credentials (normalize_registry_hostname registry) (entries_of file)
