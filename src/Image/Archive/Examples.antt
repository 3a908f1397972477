-- ===== src/Image/Archive/Examples.antt =====
-- Names and links in an archive that is unpacked at /data/tmp/stage.
use dck.Base.{◌≡◌, ◌≢◌, true, false, [], ◌∷◌, ◌++◌, List, ◌⊎◌, refl, All}
use dck.Base.Bytes.{Bytes, codes}
use dck.Base.Split.{split_byte}
use dck.FilePath.{clean, render, is_abs, resolve, path_join, rel, dir}
use dck.FilePath.Clean.{Plain, absolute}
use dck.State.{bad_part}
use dck.State.Safe.{literal}
use dck.Image.Archive.{
  safe_archive_path, unpacked, parent_traversal, link_target, bad_path, validate_archive_link,
}
use dck.Image.Archive.Link.{validate_archive_link-Inside}
use dck.Image.Archive.Inside.{is_inner_name, Unpacks, safe_archive_path_lem}

abbrev stage : List Bytes
stage = codes "data" ∷ codes "tmp" ∷ codes "stage" ∷ []

abbrev hosts_name : Bytes
hosts_name = codes "rootfs/./etc//hosts"

stage-Plain : All Plain stage
unfolding bad_part
stage-Plain = (literal "data" refl, (literal "tmp" refl, (literal "stage" refl, tt)))

safe_archive_path_lem_example :
    ((is_inner_name hosts_name ≡ true) × Unpacks stage hosts_name)
    ⊎ ((is_inner_name hosts_name ≡ false)
        × ((path : Bytes) → safe_archive_path (absolute stage) hosts_name ≢ unpacked path))
safe_archive_path_lem_example = safe_archive_path_lem stage (λ e. cc) stage-Plain hosts_name

inner_name :
    safe_archive_path (absolute stage) hosts_name
    ≡ unpacked (codes "/data/tmp/stage/rootfs/etc/hosts")
unfolding safe_archive_path split_byte clean render is_abs resolve path_join
inner_name = refl

hidden_parent : safe_archive_path (absolute stage) (codes "rootfs/a\\..\\..\\b") ≡ parent_traversal
unfolding safe_archive_path split_byte
hidden_parent = refl

abbrev link_path : Bytes
link_path = codes "/data/tmp/stage/usr/bin/sh"

validate_archive_link-Inside_example :
    (ps : List Bytes) × (link_target (absolute stage) link_path (codes "../lib/sh")
      ≡ absolute (stage ++ ps))
    × All Plain ps
unfolding split_byte clean render is_abs resolve path_join rel dir link_target validate_archive_link
    safe_archive_path
validate_archive_link-Inside_example =
    validate_archive_link-Inside stage link_path (codes "../lib/sh") stage-Plain refl refl

link_outside :
    validate_archive_link (absolute stage) link_path (codes "../../../etc")
    ≡ bad_path parent_traversal
unfolding validate_archive_link split_byte clean render is_abs resolve path_join rel dir
    safe_archive_path
link_outside = refl
