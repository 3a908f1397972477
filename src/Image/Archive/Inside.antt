-- ===== src/Image/Archive/Inside.antt =====
-- An entry of an archive is unpacked inside the staging directory.
use dck.Base.{
  ◌≡◌, ◌≢◌, Bool, true, false, ◌&&◌, ◌||◌, not, List, [], ◌∷◌, ◌++◌, any, any-append, append-nil,
  keep, if◌then◌else◌, arith, refl, ap, sym, ◌∙◌, Bool-cases, inl, inr, ◌⊎◌, All, All-mono,
}
use dck.Base.Bytes.{Bytes, str_eq, str_eq_sound, has_prefix, contains_byte}
use dck.Base.Split.{split_byte, join_byte, Lacks, split-All, split-join}
use dck.FilePath.{
  slash, dot, dot_dot, is_abs, push, resolve, rev_onto, render, clean, path_join, rel,
}
use dck.FilePath.Clean.{Plain, absolute, join-absolute}
use dck.State.{backslash}
use dck.Image.Archive.Relative.{leaves_root-below}
use dck.Image.Archive.{
  split_each, archive_parts, unpacked, escapes_staging, leaves_root, safe_archive_path,
}

abbrev NoParent : Bytes → Type 0
NoParent p = str_eq p dot_dot ≡ false

any-keep :
    (ps : List Bytes)
    → any (λ p. str_eq p dot_dot) (keep (λ p. not (str_eq p [])) ps)
      ≡ any (λ p. str_eq p dot_dot) ps
any-keep [] = refl
any-keep (p ∷ ps) = elim (Bool-cases (str_eq p [])) [
  | inl empty ↦ rw (str_eq_sound p [] empty) (any-keep ps)
  | inr full ↦ rw full (ap (λ b. str_eq p dot_dot || b) (any-keep ps))
]

parent_part : (p : Bytes) → str_eq p dot_dot ≡ true → split_byte backslash p ≡ dot_dot ∷ []
unfolding split_byte
parent_part p e = rw (str_eq_sound p dot_dot e) refl

split_each-NoParent :
    (ps : List Bytes)
    → any (λ p. str_eq p dot_dot) (split_each backslash ps) ≡ false
    → All NoParent ps
unfolding split_each
split_each-NoParent [] h = tt
split_each-NoParent (p ∷ ps) h =
    let both =
      sym (any-append (λ q. str_eq q dot_dot) (split_byte backslash p) (split_each backslash ps))
      ∙ h in
    elim (Bool-cases (str_eq p dot_dot)) [
      | inl parent ↦ absurd (cc (rw (parent_part p parent) at both))
      | inr other ↦ (other, split_each-NoParent ps (ground (arith, both)))
    ]

-- Without parts "..", only plain parts are kept.
resolve-AllPlain :
    (ps kept : List Bytes)
    → All NoParent ps
    → All (Lacks slash) ps
    → All Plain kept
    → All Plain (resolve false kept ps)
unfolding resolve push
resolve-AllPlain [] kept h lack plain = plain
resolve-AllPlain (p ∷ ps) kept h lack plain = elim (Bool-cases (str_eq p [] || str_eq p dot)) [
  | inl dropped ↦ rw dropped (resolve-AllPlain ps kept h.1 lack.1 plain)
  | inr stays ↦ rw stays (
      rw h.0 (
        resolve-AllPlain ps (p ∷ kept) h.1 lack.1 (
          record {
            not_empty = ground (arith, stays);
            not_dot = ground (arith, stays);
            not_dot_dot = h.0;
            no_slash = lack.0;
          },
          plain,
        )))
]

pub rev_onto-All :
    (ps acc : List Bytes) → All Plain ps → All Plain acc → All Plain (rev_onto ps acc)
rev_onto-All [] acc h plain = plain
rev_onto-All (p ∷ ps) acc h plain = rev_onto-All ps (p ∷ acc) h.1 (h.0, plain)

clean_parts :
    (name : Bytes)
    → is_abs name ≡ false
    → any (λ p. str_eq p dot_dot) (archive_parts name) ≡ false
    → (ps : List Bytes) × (clean name ≡ render false ps) × All Plain ps
unfolding clean archive_parts
clean_parts name relative h =
    let parts = split_byte slash name in
    (
      rev_onto (resolve false [] parts) [],
      rw relative refl,
      rev_onto-All (resolve false [] parts) []
          (resolve-AllPlain parts []
            (split_each-NoParent parts (sym (any-keep (split_each backslash parts)) ∙ h))
            (split-All slash name) tt)
          tt,
    )

joined :
    (ds ps : List Bytes)
    → ds ≢ []
    → All Plain ds
    → All Plain ps
    → str_eq (render false ps) dot ≡ false
    → (path_join (absolute ds ∷ render false ps ∷ []) ≡ absolute (ds ++ ps)) × (ps ≢ [])
unfolding render
joined ds [] ne hd hp other = absurd (cc other)
joined ds (p ∷ ps) ne hd hp other = (
  join-absolute ds ((p ∷ ps) ∷ []) ne hd ((λ e. cc), tt) (hp, tt)
      ∙ ap (λ qs. absolute (ds ++ qs)) (append-nil (p ∷ ps)),
  λ e. cc,
)

-- Neither empty nor absolute, without a NUL and without a part "..", where slashes and backslashes part.
abbrev pub is_inner_name : Bytes → Bool
is_inner_name name =
    not (str_eq name [] || contains_byte name 0)
    && not (has_prefix name (slash ∷ []) || has_prefix name (backslash ∷ []))
    && not (any (λ p. str_eq p dot_dot) (archive_parts name))

relative_name : (name : Bytes) → has_prefix name (slash ∷ []) ≡ false → is_abs name ≡ false
unfolding is_abs
relative_name [] h = refl
relative_name (c ∷ name) h = ground (arith, h)

pub refused :
    (root name : Bytes)
    → is_inner_name name ≡ false
    → (path : Bytes) → safe_archive_path root name ≢ unpacked path
unfolding safe_archive_path
refused root name bad path e = elim (Bool-cases (str_eq name [] || contains_byte name 0)) [
  | inl empty ↦ cc (rw empty at e)
  | inr full ↦
      elim (Bool-cases (has_prefix name (slash ∷ []) || has_prefix name (backslash ∷ []))) [
        | inl rooted ↦ cc (rw (full, rooted) at e)
        | inr relative ↦
            let parent : any (λ p. str_eq p dot_dot) (archive_parts name) ≡ true =
              ground (arith, bad, full, relative) in
            cc (rw (full, relative, parent) at e)
      ]
]

-- A clean name of plain parts is "." only if there are none.
no_parts : (ps : List Bytes) → All Plain ps → str_eq (render false ps) dot ≡ true → ps ≡ []
unfolding render split_byte
no_parts [] h e = refl
no_parts (p ∷ ps) h e =
    let parts = split-join slash (p ∷ ps) (λ e. cc) (All-mono (λ q r. r.no_slash) (p ∷ ps) h) in
    let first : p ≡ dot =
      cc (sym parts ∙ ap (split_byte slash) (str_eq_sound (join_byte slash (p ∷ ps)) dot e)) in
    absurd (cc (rw first at h.0.not_dot))

abbrev pub Unpacks : List Bytes → Bytes → Type 0
Unpacks ds name =
    (ps : List Bytes) × (safe_archive_path (absolute ds) name ≡ unpacked (absolute (ds ++ ps)))
    × (clean name ≡ render false ps)
    × All Plain ps

module _ (ds : List Bytes) (ne : ds ≢ []) (plain : All Plain ds) where
  at_parts :
      (ps : List Bytes)
      → All Plain ps
      → (if str_eq (render false ps) dot
          then unpacked (absolute ds)
          else if leaves_root (rel (absolute ds) (path_join (absolute ds ∷ render false ps ∷ [])))
          then escapes_staging
          else unpacked (path_join (absolute ds ∷ render false ps ∷ [])))
        ≡ unpacked (absolute (ds ++ ps))
  at_parts ps hp = elim (Bool-cases (str_eq (render false ps) dot)) [
    | inl root ↦ rw root (
        ap (λ qs. unpacked (absolute qs))
          (sym (append-nil ds) ∙ ap (λ qs. ds ++ qs) (sym (no_parts ps hp root))))
    | inr below ↦
        (let (path, some_parts) = joined ds ps ne plain hp below in
          rw below (rw path (rw (leaves_root-below ds ps ne some_parts plain hp) refl)))
  ]

  inner_name_path : (name : Bytes) → is_inner_name name ≡ true → Unpacks ds name
  unfolding safe_archive_path
  inner_name_path name h =
      let some_name : (str_eq name [] || contains_byte name 0) ≡ false = ground (arith, h) in
      let relative : (has_prefix name (slash ∷ []) || has_prefix name (backslash ∷ [])) ≡ false =
        ground (arith, h) in
      let no_parent : any (λ p. str_eq p dot_dot) (archive_parts name) ≡ false =
        ground (arith, h) in
      let (ps, cleaned, hp) =
        clean_parts name (relative_name name (ground (arith, relative))) no_parent in
      (ps, rw some_name (rw relative (rw no_parent (rw cleaned (at_parts ps hp)))), cleaned, hp)

  -- For a staging directory of plain parts that is not the root, and every name in an archive: a name that is
  -- not empty and not absolute, has no NUL and no part "..", is unpacked at the parts of the clean name
  -- below the directory, or at the directory itself if there are none; every other name is refused.
  pub safe_archive_path_lem :
      (name : Bytes)
      → ((is_inner_name name ≡ true) × Unpacks ds name)
        ⊎ ((is_inner_name name ≡ false)
            × ((path : Bytes) → safe_archive_path (absolute ds) name ≢ unpacked path))
  safe_archive_path_lem name = elim (Bool-cases (is_inner_name name)) [
    | inl good ↦ inl (good, inner_name_path name good)
    | inr bad ↦ inr (bad, refused (absolute ds) name bad)
  ]
