-- ===== src/Container/HostPath/Protected.antt =====
-- Which paths are protected.
use dck.Base.{
  ◌≡◌, ◌≢◌, Bool, true, false, not, ◌||◌, ◌&&◌, List, [], ◌∷◌, ◌++◌, if◌then◌else◌, All, any, map,
  arith, refl, ap, ◌∙◌,
}
use dck.Base.Bytes.{Bytes, codes, str_eq, has_prefix, contains_byte}
use dck.Base.Split.{join_byte, split_byte}
use dck.FilePath.{slash, clean, is_abs, resolve, render, push}
use dck.FilePath.Clean.{Plain, absolute}
use dck.State.{bad_part}
use dck.State.Safe.{bad_part-Plain, contains-Lacks}
use dck.Container.HostPath.{
  protected_host_paths, lies_at_or_under, is_blocked, is_protected_host_path,
}
use dck.Container.HostPath.Parts.{starts_with, lies_at_or_under_lem}

-- The protected directories but the root, as lists of parts.
abbrev pub protected_parts : List (List Bytes)
protected_parts =
    (codes "bin" ∷ [])
    ∷ (codes "boot" ∷ [])
    ∷ (codes "dev" ∷ [])
    ∷ (codes "etc" ∷ [])
    ∷ (codes "home" ∷ [])
    ∷ (codes "lib" ∷ [])
    ∷ (codes "lib64" ∷ [])
    ∷ (codes "media" ∷ [])
    ∷ (codes "mnt" ∷ [])
    ∷ (codes "opt" ∷ [])
    ∷ (codes "proc" ∷ [])
    ∷ (codes "root" ∷ [])
    ∷ (codes "run" ∷ [])
    ∷ (codes "sbin" ∷ [])
    ∷ (codes "sys" ∷ [])
    ∷ (codes "usr" ∷ [])
    ∷ (codes "var" ∷ [])
    ∷ (codes "var" ∷ codes "lib" ∷ codes "dck" ∷ [])
    ∷ (codes "var" ∷ codes "run" ∷ codes "dck" ∷ [])
    ∷ (codes "var" ∷ codes "run" ∷ codes "docker.sock" ∷ [])
    ∷ (codes "var" ∷ codes "run" ∷ codes "podman" ∷ [])
    ∷ (codes "var" ∷ codes "run" ∷ codes "containerd" ∷ [])
    ∷ (codes ".ssh" ∷ [])
    ∷ (codes ".aws" ∷ [])
    ∷ (codes ".kube" ∷ [])
    ∷ (codes ".docker" ∷ [])
    ∷ (codes ".gnupg" ∷ [])
    ∷ (codes ".netrc" ∷ [])
    ∷ []

protected_paths_lem : protected_host_paths ≡ (slash ∷ []) ∷ map absolute protected_parts
unfolding join_byte
protected_paths_lem = refl

-- A directory of plain parts other than the root.
abbrev pub Directory : List Bytes → Type 0
Directory qs = (qs ≢ []) × All Plain qs

abbrev is_bad : Bytes → Bool
is_bad p = bad_part p || contains_byte p slash

abbrev is_odd : List Bytes → Bool
is_odd [] = true
is_odd (q ∷ qs) = any is_bad (q ∷ qs)

parts-Plain : (qs : List Bytes) → any is_bad qs ≡ false → All Plain qs
parts-Plain [] h = tt
parts-Plain (q ∷ qs) h = (
  bad_part-Plain q (ground (arith, h)) (contains-Lacks slash q (ground (arith, h))),
  parts-Plain qs (ground (arith, h)),
)

pub directories : (qss : List (List Bytes)) → any is_odd qss ≡ false → All Directory qss
directories [] h = tt
directories ([] ∷ qss) h = cc
directories ((q ∷ qs) ∷ qss) h =
    (((λ e. cc), parts-Plain (q ∷ qs) (ground (arith, h))), directories qss (ground (arith, h)))

protected-Directory : All Directory protected_parts
unfolding bad_part
protected-Directory = directories protected_parts refl

module _ (ps : List Bytes) (dir : Directory ps) where
  any-absolute :
      (qss : List (List Bytes))
      → All Directory qss
      → any (lies_at_or_under (absolute ps)) (map absolute qss) ≡ any (starts_with ps) qss
  any-absolute [] h = refl
  any-absolute (qs ∷ qss) (hq, h) =
      ap (λ b. b || any (lies_at_or_under (absolute ps)) (map absolute qss))
        (lies_at_or_under_lem ps qs dir.0 hq.0 dir.1 hq.1)
      ∙ ap (λ b. starts_with ps qs || b) (any-absolute qss h)

clean_root : clean (slash ∷ []) ≡ slash ∷ []
unfolding clean is_abs split_byte resolve push render join_byte
clean_root = refl

reaches :
    (resolve : Bytes → Bytes) (allowed : List Bytes) (path : Bytes)
    → is_abs path ≡ true
    → is_protected_host_path resolve allowed path
      ≡ is_blocked allowed protected_host_paths (resolve (clean path))
unfolding is_protected_host_path
reaches resolve allowed [] h = absurd (unfold is_abs in cc h)
reaches resolve allowed (c ∷ path) h = rw (h, is_protected_host_path) refl

below_root : (ps : List Bytes) → Directory ps → lies_at_or_under (absolute ps) (slash ∷ []) ≡ false
unfolding lies_at_or_under
below_root ps dir =
    ap (λ d. str_eq (absolute ps) (slash ∷ []) || has_prefix (absolute ps) (d ++ slash ∷ []))
      clean_root
    ∙ visible ps dir
  where
    visible :
        (ps : List Bytes)
        → Directory ps
        → str_eq (join_byte slash ps) [] || has_prefix (join_byte slash ps) (slash ∷ []) ≡ false
    visible [] dir = absurd (dir.0 refl)
    visible ([] ∷ ps) dir = absurd (cc (dir.1.0.not_empty))
    visible ((c ∷ p) ∷ []) dir = unfold join_byte in ground (arith, dir.1.0.no_slash.0)
    visible ((c ∷ p) ∷ q ∷ ps) dir = unfold join_byte in ground (arith, dir.1.0.no_slash.0)

is_blocked_lem :
    (ps : List Bytes) (allowed qss : List (List Bytes))
    → Directory ps
    → All Directory allowed
    → All Directory qss
    → is_blocked (map absolute allowed) ((slash ∷ []) ∷ map absolute qss) (absolute ps)
      ≡ (not (any (starts_with ps) allowed) && any (starts_with ps) qss)
unfolding is_blocked
is_blocked_lem ps allowed qss dir ok ok' =
    decided _ _ _ _ _ (any-absolute ps dir allowed ok) (below_root ps dir)
      (any-absolute ps dir qss ok')
  where
    decided :
        (a a' r b b' : Bool)
        → a ≡ a'
        → r ≡ false
        → b ≡ b'
        → (if a then false else r || b) ≡ (not a' && b')
    decided a a' r b b' ea er eb = ground (arith, ea, er, eb)

-- A path is protected exactly if it begins with the parts of a protected directory and with those of
-- no allowed one. So it is for an absolute path that the links lead to a path of plain parts other
-- than the root, with allowed directories of plain parts other than the root.
pub is_protected_host_path_lem :
    (resolve : Bytes → Bytes) (allowed : List (List Bytes)) (path : Bytes) (ps : List Bytes)
    → is_abs path ≡ true
    → resolve (clean path) ≡ absolute ps
    → Directory ps
    → All Directory allowed
    → is_protected_host_path resolve (map absolute allowed) path
      ≡ (not (any (starts_with ps) allowed) && any (starts_with ps) protected_parts)
is_protected_host_path_lem resolve allowed path ps h e dir ok =
    reaches resolve (map absolute allowed) path h
    ∙ ap (is_blocked (map absolute allowed) protected_host_paths) e
    ∙ ap (λ blocked. is_blocked (map absolute allowed) blocked (absolute ps)) protected_paths_lem
    ∙ is_blocked_lem ps allowed protected_parts dir ok protected-Directory
