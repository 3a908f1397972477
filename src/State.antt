-- ===== src/State.antt =====
-- internal/state/state.go: where the files of an image, a container or a layer are. Strings are taken as
-- ASCII. `crypto/sha256` is the parameter `sha256`.
pub mod Safe
pub mod Inside
mod Examples
use dck.Base.{
  ℕ, ◌+◌, ◌-◌, ◌/◌, ◌%◌, Bool, true, false, ◌&&◌, ◌||◌, not, Option, none, some, List, [], ◌∷◌,
  ◌++◌, if◌then◌else◌, ◌==◌, ltb, any, drop, length,
}
use dck.Base.Bytes.{Bytes, codes, str_eq, has_prefix, contains_byte, trim_space}
use dck.Base.Split.{split_byte}
use dck.FilePath.{slash, dot, dot_dot, clean, path_join, base}

abbrev pub backslash : ℕ
backslash = b'\\'

-- strings.TrimPrefix
abbrev pub trim_prefix : Bytes → Bytes → Bytes
trim_prefix s p = if has_prefix s p then drop (length p) s else s

-- DataDir, from DCK_DATA_DIR, whether the user is root, and the home directory, if there is one.
unfoldable pub data_dir : Bytes → Bool → Option Bytes → Bytes
data_dir env is_root home =
    let dir = trim_space env in
    if not (str_eq dir [])
    then clean dir
    else if is_root
    then codes "/root/.dck"
    else path_join (elim home [ none ↦ codes "/root" | some h ↦ h ] ∷ codes ".dck" ∷ [])

unfoldable pub bad_part : Bytes → Bool
bad_part part = str_eq part [] || str_eq part dot || str_eq part dot_dot

unfoldable pub valid_image_name : Bytes → Bool
valid_image_name name =
    if str_eq name []
      || has_prefix name (slash ∷ [])
      || has_prefix name (backslash ∷ [])
      || contains_byte name backslash
    then false
    else not (any bad_part (split_byte slash name))

-- strings.ContainsAny(s, `/\\`)
abbrev pub has_separator : Bytes → Bool
has_separator s = contains_byte s slash || contains_byte s backslash

unfoldable pub valid_tag : Bytes → Bool
valid_tag tag = not (bad_part tag) && not (has_separator tag)

-- hex.EncodeToString
abbrev hex_digit : ℕ → ℕ
hex_digit n = if ltb n 10 then b'0' + n else b'a' + (n - 10)

unfoldable pub hex_encode : Bytes → Bytes
hex_encode [] = []
hex_encode (b ∷ s) = hex_digit (b / 16) ∷ hex_digit (b % 16) ∷ hex_encode s

-- What the hash is fed: a zero byte in front of each part.
abbrev pub hash_input : List Bytes → Bytes
hash_input [] = []
hash_input (p ∷ ps) = 0 ∷ p ++ hash_input ps

module _ (sha256 : Bytes → Bytes) where
  unfoldable pub reference_key : List Bytes → Bytes
  reference_key parts = hex_encode (sha256 (hash_input parts))

  unfoldable pub safe_part : Bytes → Bytes
  safe_part value =
      if not (bad_part value) && not (has_separator value) && str_eq (base value) value
      then value
      else reference_key (value ∷ [])

-- The directory of everything is a parameter of the paths below it.
module _ (sha256 : Bytes → Bytes) (dir : Bytes) where
  unfoldable pub images_dir : Bytes
  images_dir = path_join (dir ∷ codes "images" ∷ [])

  unfoldable pub containers_dir : Bytes
  containers_dir = path_join (dir ∷ codes "containers" ∷ [])

  unfoldable pub logs_dir : Bytes
  logs_dir = path_join (dir ∷ codes "logs" ∷ [])

  unfoldable pub overlay_dir : Bytes
  overlay_dir = path_join (dir ∷ codes "overlay" ∷ [])

  unfoldable pub volumes_dir : Bytes
  volumes_dir = path_join (dir ∷ codes "volumes" ∷ [])

  unfoldable pub consoles_dir : Bytes
  consoles_dir = path_join (dir ∷ codes "consoles" ∷ [])

  unfoldable pub cache_dir : Bytes
  cache_dir = path_join (dir ∷ codes "cache" ∷ [])

  unfoldable pub layer_cache_dir : Bytes
  layer_cache_dir = path_join (cache_dir ∷ codes "layers" ∷ [])

  unfoldable pub image_dir : Bytes → Bytes → Bytes
  image_dir name tag =
      if not (valid_image_name name) || not (valid_tag tag)
      then path_join (images_dir ∷ codes ".invalid" ∷ reference_key sha256 (name ∷ tag ∷ []) ∷ [])
      else path_join (images_dir ∷ name ∷ tag ∷ [])

  unfoldable pub image_rootfs_dir : Bytes → Bytes → Bytes
  image_rootfs_dir name tag = path_join (image_dir name tag ∷ codes "rootfs" ∷ [])

  unfoldable pub container_path : Bytes → Bytes
  container_path id = path_join (containers_dir ∷ (safe_part sha256 id ++ codes ".json") ∷ [])

  unfoldable pub log_path : Bytes → Bytes
  log_path id = path_join (logs_dir ∷ (safe_part sha256 id ++ codes ".log") ∷ [])

  unfoldable pub overlay_base : Bytes → Bytes
  overlay_base id = path_join (overlay_dir ∷ safe_part sha256 id ∷ [])

  unfoldable pub overlay_dirs : Bytes → Bytes × Bytes × Bytes
  overlay_dirs id = (
    path_join (overlay_base id ∷ codes "upper" ∷ []),
    path_join (overlay_base id ∷ codes "work" ∷ []),
    path_join (overlay_base id ∷ codes "merged" ∷ []),
  )

  unfoldable pub layer_path : Bytes → Bytes
  layer_path digest = path_join (
      layer_cache_dir
      ∷ safe_part sha256 (trim_prefix digest (codes "sha256:"))
      ∷ codes "layer.tar.gz"
      ∷ [])

  unfoldable pub console_path : Bytes → Bytes
  console_path id = path_join (consoles_dir ∷ (safe_part sha256 id ++ codes ".sock") ∷ [])

  unfoldable pub resolve_volume : Bytes → Bytes
  resolve_volume source =
      if not (has_separator source)
      then path_join (volumes_dir ∷ safe_part sha256 source ∷ [])
      else source
