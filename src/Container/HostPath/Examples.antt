-- ===== src/Container/HostPath/Examples.antt =====
-- A path under /etc and one beside it.
use dck.Base.{◌≡◌, true, List, [], ◌∷◌, map, refl, All}
use dck.Base.Bytes.{Bytes, codes}
use dck.Base.Split.{split_byte, join_byte}
use dck.FilePath.{is_abs, clean, resolve, render, push, pop}
use dck.FilePath.Clean.{absolute}
use dck.State.{bad_part}
use dck.Container.HostPath.{is_protected_host_path}
use dck.Container.HostPath.Protected.{Directory, directories, is_protected_host_path_lem}

-- No link is on the way.
abbrev no_links : Bytes → Bytes
no_links path = path

abbrev passwd : List Bytes
passwd = codes "etc" ∷ codes "passwd" ∷ []

abbrev allowed_srv : List (List Bytes)
allowed_srv = (codes "srv" ∷ []) ∷ []

both-Directory : All Directory (passwd ∷ allowed_srv)
unfolding bad_part
both-Directory = directories (passwd ∷ allowed_srv) refl

is_protected_host_path_lem_example :
    is_protected_host_path no_links (map absolute allowed_srv) (codes "/etc/./passwd") ≡ true
unfolding clean is_abs split_byte resolve push pop render join_byte
is_protected_host_path_lem_example =
    is_protected_host_path_lem no_links allowed_srv (codes "/etc/./passwd") passwd refl refl
      both-Directory.0 both-Directory.1
