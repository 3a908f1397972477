-- ===== src/Image/Archive.antt =====
-- internal/image/export.go: the path at which an entry of an archive is unpacked.
pub mod Relative
pub mod Inside
pub mod Link
mod Examples
use dck.Base.{
  ℕ, Bool, true, false, ◌&&◌, ◌||◌, not, ◌==◌, Option, none, some, List, [], ◌∷◌, ◌++◌, any, keep,
  if◌then◌else◌,
}
use dck.Base.Bytes.{Bytes, codes, str_eq, has_prefix, contains_byte, trim_left_by}
use dck.Base.Split.{split_byte, join_byte}
use dck.State.{backslash}
use dck.FilePath.{slash, dot, dot_dot, is_abs, clean, path_join, rel, dir}

unfoldable pub split_each : ℕ → List Bytes → List Bytes
split_each sep [] = []
split_each sep (p ∷ ps) = split_byte sep p ++ split_each sep ps

-- The fields of a name that slashes and backslashes part.
unfoldable pub archive_parts : Bytes → List Bytes
unfolding split_each
archive_parts name = keep (λ p. not (str_eq p [])) (split_each backslash (split_byte slash name))

pub data ArchivePath : Type 0 where
  unpacked : Bytes → ArchivePath
  empty_or_nul absolute_path parent_traversal escapes_staging : ArchivePath

unfoldable pub leaves_root : Option Bytes → Bool
leaves_root none = true
leaves_root (some r) = str_eq r dot_dot || has_prefix r (codes "../")

unfoldable pub safe_archive_path : Bytes → Bytes → ArchivePath
unfolding rel archive_parts leaves_root
safe_archive_path root name =
    if str_eq name [] || contains_byte name 0
    then empty_or_nul
    else if has_prefix name (slash ∷ []) || has_prefix name (backslash ∷ [])
    then absolute_path
    else if any (λ p. str_eq p dot_dot) (archive_parts name)
    then parent_traversal
    else let cleaned = clean name in
      let path = path_join (root ∷ cleaned ∷ []) in
      if str_eq cleaned dot
      then unpacked root
      else if leaves_root (rel root path)
      then escapes_staging
      else unpacked path

-- The target's path, from the link's directory or, of an absolute target, from the root.
unfoldable pub link_target : Bytes → Bytes → Bytes → Bytes
link_target root link_path target =
    if has_prefix target (slash ∷ [])
    then path_join (root ∷ trim_left_by (λ c. c == slash) target ∷ [])
    else path_join (dir link_path ∷ target ∷ [])

pub data LinkCheck : Type 0 where
  good_link invalid_target no_way : LinkCheck
  bad_path : ArchivePath → LinkCheck

unfoldable pub checked : ArchivePath → LinkCheck
checked (unpacked p) = good_link
checked empty_or_nul = bad_path empty_or_nul
checked absolute_path = bad_path absolute_path
checked parent_traversal = bad_path parent_traversal
checked escapes_staging = bad_path escapes_staging

unfoldable pub way_checked : Bytes → Option Bytes → LinkCheck
unfolding checked
way_checked root none = no_way
way_checked root (some r) = checked (safe_archive_path root r)

unfoldable pub validate_archive_link : Bytes → Bytes → Bytes → LinkCheck
unfolding link_target way_checked
validate_archive_link root link_path target =
    if str_eq target [] || contains_byte target 0 || has_prefix target (backslash ∷ [])
    then invalid_target
    else way_checked root (rel root (link_target root link_path target))
