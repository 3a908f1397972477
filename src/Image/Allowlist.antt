-- ===== src/Image/Allowlist.antt =====
-- internal/image/allowlist.go: the registry hosts that may be pulled from, in memory and in a file.
pub mod Allowed
pub mod Texts
pub mod Removed
mod Examples
use dck.Base.{
  take, ℕ, Bool, true, false, ◌&&◌, ◌||◌, not, ◌==◌, Option, none, some, List, [], ◌∷◌, ◌++◌, map,
  any, keep, if◌then◌else◌,
}
use dck.Base.Bytes.{Bytes, codes, str_eq, has_prefix, trim_space}
use dck.Base.Split.{split_byte, join_byte}
use dck.Image.Auth.{normalize_registry_hostname}

abbrev pub has_host : Bytes → List Bytes → Bool
has_host host hosts = any (λ h. str_eq h host) hosts

abbrev pub default_allowlist : List Bytes
default_allowlist =
    codes "registry-1.docker.io"
    ∷ codes "registry.docker.io"
    ∷ codes "docker.io"
    ∷ codes "ghcr.io"
    ∷ codes "quay.io"
    ∷ codes "gcr.io"
    ∷ []

-- The environment: DCK_REGISTRY_ALLOWLIST, DCK_REGISTRY_BLOCKLIST, and whether DCK_REGISTRY_STRICT
-- is 1.
pub record Env : Type 0 where
  pub allow : Bytes
  pub block : Bytes
  pub strict : Bool

-- The list in memory, and the text of the file, `none` where it cannot be read.
pub record Allowlist : Type 0 where
  pub hosts : List Bytes
  pub file : Option Bytes

abbrev pub line_feed : ℕ
line_feed = 10

-- The parts of the two variables, without blanks around them.
unfoldable pub env_hosts : Bytes → List Bytes
env_hosts text = map trim_space (split_byte b':' (trim_space text))

unfoldable pub allowed_by_env : Bytes → List Bytes
unfolding env_hosts
allowed_by_env text =
    if str_eq (trim_space text) [] then [] else keep (λ h. not (str_eq h [])) (env_hosts text)

unfoldable pub blocked_by_env : Bytes → List Bytes
unfolding env_hosts
blocked_by_env text = if str_eq (trim_space text) [] then [] else env_hosts text

abbrev pub is_host_line : Bytes → Bool
is_host_line line = not (str_eq line [] || has_prefix line (codes "#"))

unfoldable pub file_hosts : Option Bytes → List Bytes
file_hosts none = []
file_hosts (some text) = keep is_host_line (map trim_space (split_byte line_feed text))

-- The block-list takes hosts away before the file is read.
unfoldable pub init_registry_allowlist : Env → Allowlist → Allowlist
unfolding allowed_by_env blocked_by_env file_hosts
init_registry_allowlist env a = record a {
  hosts =
      keep (λ h. not (has_host h (blocked_by_env env.block)))
        (default_allowlist ++ allowed_by_env env.allow)
      ++ file_hosts a.file;
}

pub data AllowlistError : Type 0 where
  empty_host bad_host dir_error write_error : AllowlistError

-- strings.ContainsAny(host, " /")
abbrev pub has_bad_byte : Bytes → Bool
has_bad_byte host = any (λ c. c == 32 || c == b'/') host

abbrev pub text_of : Option Bytes → Bytes
text_of none = []
text_of (some text) = text

-- How a write goes: all of the text is written; the file cannot be opened; or an error comes when the
-- first so many bytes are written.
pub data FileWrite : Type 0 where
  whole unopened : FileWrite
  cut_off : ℕ → FileWrite

-- The write at the end of the file. A file that cannot be read and can be written is one that is not
-- there.
unfoldable pub add_new : FileWrite → Bytes → Allowlist → Allowlist × Option AllowlistError
add_new whole host a = (
  record { hosts = a.hosts ++ host ∷ []; file = some (text_of a.file ++ (host ++ line_feed ∷ [])) },
  none,
)
add_new unopened host a = (record a { hosts = a.hosts ++ host ∷ [] }, some write_error)
add_new (cut_off n) host a = (
  record {
    hosts = a.hosts ++ host ∷ [];
    file = some (text_of a.file ++ take n (host ++ line_feed ∷ []));
  },
  some write_error,
)

unfoldable pub add_to_allowlist :
    Bool → FileWrite → Bytes → Allowlist → Allowlist × Option AllowlistError
unfolding add_new
add_to_allowlist dir_ok written text a =
    let host = trim_space text in
    if str_eq host []
    then (a, some empty_host)
    else if has_bad_byte host
    then (a, some bad_host)
    else if not dir_ok
    then (a, some dir_error)
    else if has_host host a.hosts
    then (a, none)
    else add_new written host a

-- The text that is written for the hosts that stay.
unfoldable pub hosts_text : List Bytes → Bytes
hosts_text hosts =
    let text = join_byte line_feed hosts in if str_eq text [] then [] else text ++ line_feed ∷ []

-- The file is written anew, from its beginning.
unfoldable pub write_hosts : FileWrite → List Bytes → Allowlist → Allowlist × Option AllowlistError
unfolding hosts_text
write_hosts whole hosts a = (record { hosts = hosts; file = some (hosts_text hosts) }, none)
write_hosts unopened hosts a = (record a { hosts = hosts }, some write_error)
write_hosts (cut_off n) hosts a =
    (record { hosts = hosts; file = some (take n (hosts_text hosts)) }, some write_error)

unfoldable pub remove_from_allowlist :
    FileWrite → Bytes → Allowlist → Allowlist × Option AllowlistError
unfolding write_hosts
remove_from_allowlist w text a =
    write_hosts w (keep (λ h. not (str_eq h (trim_space text))) a.hosts) a

unfoldable pub is_registry_allowed : Env → Bytes → Allowlist → Bool
is_registry_allowed env host a =
    not env.strict || has_host (normalize_registry_hostname host) a.hosts
