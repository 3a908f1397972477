-- ===== src/Image/Auth/Lookup.antt =====
-- Which credentials are found for a registry.
use dck.Base.{
  ℕ, ◌≡◌, ◌≢◌, true, false, not, ◌||◌, List, [], ◌∷◌, ◌++◌, All, drop, length, arith, refl, ap, ◌∙◌,
  sym, Bool-cases, inl, inr, none, some,
}
use dck.Base.Bytes.{Bytes, codes, str_eq, str_eq_iff, has_prefix, has_prefix_split}
use dck.Base.Split.{Lacks}
use dck.FilePath.{slash}
use dck.Container.Types.{written}
use dck.Image.Auth.{
  AuthEntry, AuthFile, contains_text, https, http, strip_scheme, stored_key, before_slash,
  normalize_registry_hostname, entries_of, save_auth, drop_entry, entry, login, logout,
  not_logged_in, find_credentials, get_credentials,
}

https_contains : (s : Bytes) → contains_text (https ++ s) (codes "://") ≡ true
unfolding contains_text
https_contains s = refl

http_contains : (s : Bytes) → contains_text (http ++ s) (codes "://") ≡ true
unfolding contains_text
http_contains s = refl

-- A text with one of the schemes in front holds "://".
schemes_contain :
    (r : Bytes)
    → contains_text r (codes "://") ≡ false
    → (has_prefix r https ≡ false) × (has_prefix r http ≡ false)
schemes_contain r h = (
  elim (Bool-cases (has_prefix r https)) [
    | inr without ↦ without
    | inl with_it ↦ absurd (
        cc (
          h,
          ap (λ t. contains_text t (codes "://")) (has_prefix_split r https with_it),
          https_contains (drop (length https) r),
        ))
  ],
  elim (Bool-cases (has_prefix r http)) [
    | inr without ↦ without
    | inl with_it ↦ absurd (
        cc (
          h,
          ap (λ t. contains_text t (codes "://")) (has_prefix_split r http with_it),
          http_contains (drop (length http) r),
        ))
  ],
)

-- The host that `GetCredentials` looks for is the host of the key that `Login` and `Logout` use, for
-- every way to write a registry, with a scheme or without one, with a path or without one.
pub normalize_stored_key : (r : Bytes) → normalize_registry_hostname r ≡ before_slash (stored_key r)
unfolding normalize_registry_hostname stored_key
normalize_stored_key r = elim (Bool-cases (contains_text r (codes "://"))) [
  | inl with_scheme ↦ rw with_scheme refl
  | inr plain ↦
      (let (no_https, no_http) = schemes_contain r plain in
        rw plain (unfold strip_scheme in rw (no_https, no_http) refl))
]

str_eq-differ : (s t : Bytes) → s ≢ t → str_eq s t ≡ false
str_eq-differ s t ne = ground (arith, str_eq_iff s t)

-- The entries of a list that are for the host `h`.
find-drop_other :
    (key h : Bytes) (es : List AuthEntry)
    → str_eq (normalize_registry_hostname key) h ≡ false
    → find_credentials h (drop_entry key es) ≡ find_credentials h es
unfolding find_credentials
find-drop_other key h [] ne = refl
find-drop_other key h (e ∷ es) ne = elim (Bool-cases (str_eq e.registry key)) [
  | inl same ↦
      (let foreign : str_eq (normalize_registry_hostname e.registry) h ≡ false =
          ap (λ k. str_eq (normalize_registry_hostname k) h) ((str_eq_iff e.registry key).0 same)
          ∙ ne in
        rw (same, foreign) (find-drop_other key h es ne))
  | inr other ↦ rw other (ground (arith, find-drop_other key h es ne))
]

find-append_other :
    (h : Bytes) (es : List AuthEntry) (e : AuthEntry)
    → str_eq (normalize_registry_hostname e.registry) h ≡ false
    → find_credentials h (es ++ e ∷ []) ≡ find_credentials h es
unfolding find_credentials
find-append_other h [] e ne = rw ne refl
find-append_other h (d ∷ es) e ne = ground (arith, find-append_other h es e ne)

find-append_own :
    (h : Bytes) (es : List AuthEntry) (e : AuthEntry)
    → All (λ d. str_eq (normalize_registry_hostname d.registry) h ≡ false) es
    → str_eq (normalize_registry_hostname e.registry) h ≡ true
    → find_credentials h (es ++ e ∷ []) ≡ (e.username, e.password)
unfolding find_credentials
find-append_own h [] e none_before own = rw own refl
find-append_own h (d ∷ es) e (foreign, none_before) own =
    rw foreign (find-append_own h es e none_before own)

-- What a login leaves is asked for by the name of the host alone.
module _ (r user pass : Bytes) (file : AuthFile) where
  abbrev key : Bytes
  key = stored_key r

  login_entries :
      entries_of (login written r user pass file).0
      ≡ drop_entry key (entries_of file) ++ entry key user pass ∷ []
  unfolding login save_auth
  login_entries = refl

  found_after_login :
      (asked : Bytes)
      → get_credentials [] [] asked (login written r user pass file).0
        ≡ find_credentials
            (normalize_registry_hostname asked)
            (drop_entry key (entries_of file) ++ entry key user pass ∷ [])
  unfolding get_credentials
  found_after_login asked = ap (find_credentials (normalize_registry_hostname asked)) login_entries

  -- A login does not change the credentials of any other host: for a registry whose host is not that
  -- of the stored key, the same is found as before, if no credentials come from the environment.
  pub get_credentials-login_other :
      (asked : Bytes)
      → normalize_registry_hostname key ≢ normalize_registry_hostname asked
      → get_credentials [] [] asked (login written r user pass file).0
        ≡ get_credentials [] [] asked file
  unfolding get_credentials
  get_credentials-login_other asked ne =
      let h = normalize_registry_hostname asked in
      let foreign = str_eq-differ (normalize_registry_hostname key) h ne in
      found_after_login asked
      ∙ find-append_other h (drop_entry key (entries_of file)) (entry key user pass) foreign
      ∙ find-drop_other key h (entries_of file) foreign

  -- Every stored entry for the host `h` is under the key itself.
  abbrev pub OwnKey : Bytes → List AuthEntry → Type 0
  OwnKey h =
      All (λ e.
        str_eq e.registry key || not (str_eq (normalize_registry_hostname e.registry) h) ≡ true)

  drop-foreign :
      (h : Bytes) (es : List AuthEntry)
      → OwnKey h es
      → All (λ d. str_eq (normalize_registry_hostname d.registry) h ≡ false) (drop_entry key es)
  drop-foreign h [] own = tt
  drop-foreign h (e ∷ es) (here, own) = elim (Bool-cases (str_eq e.registry key)) [
    | inl same ↦ rw same (drop-foreign h es own)
    | inr other ↦ rw other (ground (arith, here, other), drop-foreign h es own)
  ]

  -- A login is found again: for a registry whose host is that of the stored key, under any spelling,
  -- the user name and the password of the last login are found, if every earlier entry for this host
  -- was stored under the same key and no credentials come from the environment.
  pub get_credentials-login :
      (asked : Bytes)
      → normalize_registry_hostname key ≡ normalize_registry_hostname asked
      → OwnKey (normalize_registry_hostname asked) (entries_of file)
      → get_credentials [] [] asked (login written r user pass file).0 ≡ (user, pass)
  get_credentials-login asked same own =
      let h = normalize_registry_hostname asked in
      found_after_login asked
      ∙ find-append_own h (drop_entry key (entries_of file)) (entry key user pass)
          (drop-foreign h (entries_of file) own)
          ((str_eq_iff (normalize_registry_hostname key) h).1 same)

stored_key_plain : (r : Bytes) → contains_text r (codes "://") ≡ false → stored_key r ≡ r
unfolding stored_key
stored_key_plain r plain = rw plain (unfold strip_scheme in refl)

before_slash-append : (s t : Bytes) → Lacks slash s → before_slash (s ++ (slash ∷ t)) ≡ s
unfolding before_slash
before_slash-append [] t h = refl
before_slash-append (c ∷ s) t (hc, h) = rw hc (ap (λ x. c ∷ x) (before_slash-append s t h))

before_slash-Lacks : (s : Bytes) → Lacks slash s → before_slash s ≡ s
unfolding before_slash
before_slash-Lacks [] h = refl
before_slash-Lacks (c ∷ s) (hc, h) = rw hc (ap (λ x. c ∷ x) (before_slash-Lacks s h))

longer_differs : (s t : Bytes) (c : ℕ) → str_eq (s ++ (c ∷ t)) s ≡ false
longer_differs [] t c = refl
longer_differs (d ∷ s) t c = ground (arith, longer_differs s t c)

first_login :
    (r user pass : Bytes)
    → (login written r user pass none).0 ≡ some (entry (stored_key r) user pass ∷ [])
unfolding login save_auth
first_login r user pass = refl

logout_missing :
    (key host user pass : Bytes)
    → stored_key host ≡ host
    → str_eq key host ≡ false
    → (logout written host (some (entry key user pass ∷ []))).1 ≡ not_logged_in
unfolding logout
logout_missing key host user pass own differs = rw own (rw differs refl)

-- Who logs in to a registry with a path behind its host, with nothing stored before, is given these
-- credentials for the host, but cannot log out from the host: the logout reports that there is no
-- login.
pub logout-login_with_path :
    (host path user pass : Bytes)
    → Lacks slash host
    → contains_text host (codes "://") ≡ false
    → contains_text (host ++ (slash ∷ path)) (codes "://") ≡ false
    → let file = (login written (host ++ (slash ∷ path)) user pass none).0 in
      (get_credentials [] [] host file ≡ (user, pass))
      × ((logout written host file).1 ≡ not_logged_in)
logout-login_with_path host path user pass bare plain plain_path =
    let r = host ++ (slash ∷ path) in
    let own = stored_key_plain r plain_path in
    let hosts : normalize_registry_hostname (stored_key r) ≡ normalize_registry_hostname host =
      ap normalize_registry_hostname own
      ∙ normalize_stored_key r
      ∙ ap before_slash own
      ∙ before_slash-append host path bare
      ∙ sym (before_slash-Lacks host bare)
      ∙ ap before_slash (sym (stored_key_plain host plain))
      ∙ sym (normalize_stored_key host) in
    (
      get_credentials-login r user pass none host hosts tt,
      ap (λ f. (logout written host f).1)
            (first_login r user pass ∙ ap (λ k. some (entry k user pass ∷ [])) own)
          ∙ logout_missing r host user pass (stored_key_plain host plain)
              (longer_differs host path slash),
    )
