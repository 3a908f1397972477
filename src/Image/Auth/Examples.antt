-- ===== src/Image/Auth/Examples.antt =====
-- Logins to ghcr.io and to docker.io.
use dck.Base.{◌≡◌, none, some, [], ◌∷◌, refl}
use dck.Base.Bytes.{codes}
use dck.Container.Types.{written}
use dck.Image.Auth.{
  AuthFile, entry, login, logout, not_logged_in, get_credentials, contains_text, stored_key,
  strip_scheme, before_slash, normalize_registry_hostname,
}
use dck.Image.Auth.Lookup.{get_credentials-login, logout-login_with_path}

abbrev hub_login : AuthFile
hub_login = some (entry (codes "docker.io") (codes "ann") (codes "a") ∷ [])

get_credentials-login_example :
    get_credentials [] []
      (codes "http://ghcr.io/org")
      (login written (codes "https://ghcr.io") (codes "bob") (codes "b") hub_login).0
    ≡ (codes "bob", codes "b")
unfolding normalize_registry_hostname stored_key strip_scheme before_slash contains_text
get_credentials-login_example =
    get_credentials-login (codes "https://ghcr.io") (codes "bob") (codes "b") hub_login
      (codes "http://ghcr.io/org") refl (refl, tt)

logout-login_with_path_example :
    let file = (login written (codes "ghcr.io/org") (codes "bob") (codes "b") none).0 in
    (get_credentials [] [] (codes "ghcr.io") file ≡ (codes "bob", codes "b"))
    × ((logout written (codes "ghcr.io") file).1 ≡ not_logged_in)
unfolding contains_text
logout-login_with_path_example =
    logout-login_with_path (codes "ghcr.io") (codes "org") (codes "bob") (codes "b")
      (refl, (refl, (refl, (refl, (refl, (refl, (refl, tt))))))) refl refl
