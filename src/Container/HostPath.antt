-- ===== src/Container/HostPath.antt =====
-- internal/container/hostpath.go: which paths of the host may not be mounted into a container. What
-- `Lstat` and `EvalSymlinks` make of a clean absolute path is the parameter `resolve`.
pub mod Parts
pub mod Protected
mod Examples
use dck.Base.{Bool, true, false, not, ◌||◌, List, [], ◌∷◌, ◌++◌, if◌then◌else◌, any, map}
use dck.Base.Bytes.{Bytes, codes, str_eq, has_prefix, trim_space}
use dck.Base.Split.{split_byte}
use dck.FilePath.{slash, is_abs, clean}

abbrev pub protected_host_paths : List Bytes
protected_host_paths =
    codes "/"
    ∷ codes "/bin"
    ∷ codes "/boot"
    ∷ codes "/dev"
    ∷ codes "/etc"
    ∷ codes "/home"
    ∷ codes "/lib"
    ∷ codes "/lib64"
    ∷ codes "/media"
    ∷ codes "/mnt"
    ∷ codes "/opt"
    ∷ codes "/proc"
    ∷ codes "/root"
    ∷ codes "/run"
    ∷ codes "/sbin"
    ∷ codes "/sys"
    ∷ codes "/usr"
    ∷ codes "/var"
    ∷ codes "/var/lib/dck"
    ∷ codes "/var/run/dck"
    ∷ codes "/var/run/docker.sock"
    ∷ codes "/var/run/podman"
    ∷ codes "/var/run/containerd"
    ∷ codes "/.ssh"
    ∷ codes "/.aws"
    ∷ codes "/.kube"
    ∷ codes "/.docker"
    ∷ codes "/.gnupg"
    ∷ codes "/.netrc"
    ∷ []

-- The test of both loops.
unfoldable pub lies_at_or_under : Bytes → Bytes → Bool
lies_at_or_under resolved dir = str_eq resolved dir || has_prefix resolved (clean dir ++ slash ∷ [])

-- The two loops: an allowed directory decides before a blocked one.
unfoldable pub is_blocked : List Bytes → List Bytes → Bytes → Bool
is_blocked allowed blocked resolved =
    if any (lies_at_or_under resolved) allowed
    then false
    else any (lies_at_or_under resolved) blocked

unfoldable pub is_protected_host_path : (Bytes → Bytes) → List Bytes → Bytes → Bool
is_protected_host_path resolve allowed path =
    if str_eq path []
    then true
    else if not (is_abs path)
    then true
    else is_blocked allowed protected_host_paths (resolve (clean path))

-- InitHostPathPolicy reads DCK_ALLOWED_HOST_PATHS, once. `abs` is `filepath.Abs`, which asks for the
-- working directory; here it does not fail.
abbrev pub allowed_of : (Bytes → Bytes) → List Bytes → List Bytes
allowed_of abs [] = []
allowed_of abs (p ∷ ps) =
    let rest = allowed_of abs ps in
    if str_eq (trim_space p) [] then rest else abs (trim_space p) ∷ rest

unfoldable pub init_host_path_policy :
    (Bytes → Bytes) → Bytes → Bool × List Bytes → Bool × List Bytes
init_host_path_policy abs env (inited, allowed) =
    if inited
    then (inited, allowed)
    else if str_eq (trim_space env) []
    then (true, allowed)
    else (true, allowed ++ allowed_of abs (split_byte b':' (trim_space env)))
