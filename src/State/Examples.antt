-- ===== src/State/Examples.antt =====
-- Paths of internal/state under /root/.dck.
use dck.Base.{◌≢◌, List, [], ◌∷◌, ◌++◌, All, refl}
use dck.Base.Bytes.{Bytes, codes}
use dck.FilePath.Clean.{Plain, absolute}
use dck.State.{bad_part, image_dir}
use dck.State.Safe.{literal}
use dck.State.Inside.{Below, image_dir-Below}

-- A hash with a digest of one byte.
abbrev small_hash : Bytes → Bytes
small_hash s = 171 ∷ []

some_small : (s : Bytes) → small_hash s ≢ []
some_small s e = cc

abbrev home : List Bytes
home = codes "root" ∷ codes ".dck" ∷ []

home-Plain : All Plain home
unfolding bad_part
home-Plain = (literal "root" refl, (literal ".dck" refl, tt))

image_dir-Below_example :
    Below
      (home ++ codes "images" ∷ [])
      (image_dir small_hash (absolute home) (codes "../x") (codes "latest"))
image_dir-Below_example =
    image_dir-Below small_hash some_small home (λ e. cc) home-Plain (codes "../x") (codes "latest")
