-- ===== src/Image/Archive/Link.antt =====
-- A link that is accepted points inside the staging directory.
use dck.Base.{
  ◌≡◌, ◌≢◌, true, false, ◌||◌, ◌==◌, some, List, [], ◌∷◌, ◌++◌, any, append-nil, arith, refl, ap,
  sym, ◌∙◌, Bool-cases, inl, inr, ◌⊎◌, All, All-mono,
}
use dck.Base.Bytes.{Bytes, str_eq, str_eq_sound, has_prefix, contains_byte, trim_left_by}
use dck.Base.Split.{split_byte, join_byte, Lacks, split-join, split-All, split-ne-nil}
use dck.FilePath.{
  slash, dot, dot_dot, is_abs, push, pop, resolve, rev_onto, render, clean, path_join, up_from,
  rel_parts, path_parts, rel, dir, up_to_last,
}
use dck.FilePath.Clean.{Plain, absolute, clean-absolute}
use dck.State.{backslash}
use dck.Image.Archive.{
  split_each, archive_parts, ArchivePath, unpacked, empty_or_nul, absolute_path, parent_traversal,
  escapes_staging, safe_archive_path, link_target, good_link, checked, way_checked,
  validate_archive_link,
}
use dck.Image.Archive.Relative.{path_parts-absolute}
use dck.Image.Archive.Inside.{is_inner_name, refused, rev_onto-All}

popped : (kept : List Bytes) → All Plain kept → All Plain (pop true kept)
unfolding pop
popped [] plain = tt
popped (q ∷ kept) plain = rw plain.0.not_dot_dot plain.1

push-AllPlain :
    (kept : List Bytes) (p : Bytes) → Lacks slash p → All Plain kept → All Plain (push true kept p)
unfolding push pop
push-AllPlain kept p lack plain = elim (Bool-cases (str_eq p [] || str_eq p dot)) [
  | inl dropped ↦ rw dropped plain
  | inr stays ↦ elim (Bool-cases (str_eq p dot_dot)) [
    | inl up ↦ rw (stays, up) (popped kept plain)
    | inr name ↦
        rw (stays, name)
          (
            record {
              not_empty = ground (arith, stays);
              not_dot = ground (arith, stays);
              not_dot_dot = name;
              no_slash = lack;
            },
            plain,
          )
  ]
]

rooted-AllPlain :
    (ps kept : List Bytes)
    → All (Lacks slash) ps
    → All Plain kept
    → All Plain (resolve true kept ps)
unfolding resolve
rooted-AllPlain [] kept lack plain = plain
rooted-AllPlain (p ∷ ps) kept lack plain =
    rooted-AllPlain ps (push true kept p) lack.1 (push-AllPlain kept p lack.0 plain)

-- A clean absolute path has plain parts.
clean-AllPlain :
    (path : Bytes)
    → is_abs path ≡ true
    → (ps : List Bytes) × (clean path ≡ absolute ps) × All Plain ps
unfolding clean render
clean-AllPlain path rooted =
    let kept = resolve true [] (split_byte slash path) in
    (
      rev_onto kept [],
      rw rooted refl,
      rev_onto-All kept [] (rooted-AllPlain (split_byte slash path) [] (split-All slash path) tt)
          tt,
    )

up_from-Lacks :
    (base targ : List Bytes) → All (Lacks slash) targ → All (Lacks slash) (up_from base targ)
unfolding up_from
up_from-Lacks [] targ h = h
up_from-Lacks (b ∷ base) targ h = ((refl, (refl, tt)), up_from-Lacks base targ h)

-- A way that does not go up first leads below the directory.
way_below :
    (ds rs : List Bytes)
    → All Plain ds
    → All (Lacks slash) rs
    → ((xs : List Bytes) × (rel_parts ds rs ≡ some xs) × (rs ≡ ds ++ xs))
      ⊎ ((xs : List Bytes) × (rel_parts ds rs ≡ some (dot_dot ∷ xs)) × All (Lacks slash) xs)
unfolding rel_parts up_from
way_below [] rs hd lack = inl (rs, refl, refl)
way_below (d ∷ ds) [] hd lack = inr (up_from ds [], refl, up_from-Lacks ds [] tt)
way_below (d ∷ ds) (r ∷ rs) hd lack = elim (Bool-cases (str_eq r d)) [
  | inl same ↦ elim (way_below ds rs hd.1 lack.1) [
    | inl (xs, e, below) ↦ inl (xs, rw same e, rw (str_eq_sound r d same) (ap (λ l. d ∷ l) below))
    | inr (xs, e, h) ↦ inr (xs, rw same e, h)
  ]
  | inr other ↦
      inr (up_from ds (r ∷ rs), rw (other, hd.0.not_dot_dot) refl, up_from-Lacks ds (r ∷ rs) lack)
]

goes_up :
    (xs : List Bytes)
    → All (Lacks slash) xs
    → is_inner_name (join_byte slash (dot_dot ∷ xs)) ≡ false
unfolding archive_parts split_each split_byte
goes_up xs h =
    let parts = split-join slash (dot_dot ∷ xs) (λ e. cc) ((refl, (refl, tt)), h) in
    let name = join_byte slash (dot_dot ∷ xs) in
    let parent : any (λ p. str_eq p dot_dot) (archive_parts name) ≡ true = rw parts refl in
    ground (arith, parent)

checked_good :
    (name : Bytes) (root : Bytes)
    → is_inner_name name ≡ false
    → checked (safe_archive_path root name) ≢ good_link
unfolding checked
checked_good name root bad e = go (safe_archive_path root name) refl e
  where
    go : (x : ArchivePath) → safe_archive_path root name ≡ x → checked x ≢ good_link
    go (unpacked p) found h = refused root name bad p found
    go empty_or_nul found h = cc
    go absolute_path found h = cc
    go parent_traversal found h = cc
    go escapes_staging found h = cc

clean-rooted : (ps : List Bytes) → All Plain ps → clean (absolute ps) ≡ absolute ps
unfolding clean is_abs render resolve split_byte join_byte
clean-rooted [] h = refl
clean-rooted (p ∷ ps) h = clean-absolute (p ∷ ps) (λ e. cc) h

parts-rooted : (ps : List Bytes) → All Plain ps → path_parts (absolute ps) ≡ ps
unfolding split_byte join_byte
parts-rooted [] h = refl
parts-rooted (p ∷ ps) h = path_parts-absolute (p ∷ ps) (λ e. cc) h

dir-absolute : (path : Bytes) → is_abs path ≡ true → (ps : List Bytes) × (dir path ≡ absolute ps)
unfolding dir is_abs split_byte
dir-absolute [] h = absurd (cc h)
dir-absolute (c ∷ path) h =
    elim (split_byte slash path)
        as (λ l. split_byte slash path ≡ l → (ps : List Bytes) × (dir (c ∷ path) ≡ absolute ps)) [
          | [] ↦ λ e. absurd (split-ne-nil slash path e)
          | q ∷ qs ↦ λ e.
              (let (ps, clean_dir, _) = clean-AllPlain (slash ∷ up_to_last (q ∷ qs)) refl in
                (ps, rw h (rw e clean_dir)))
        ]
      refl

-- The path of a target is absolute and clean.
link_target-AllPlain :
    (root_rest link_path target : Bytes)
    → is_abs link_path ≡ true
    → (ps : List Bytes) × (link_target (slash ∷ root_rest) link_path target ≡ absolute ps)
      × All Plain ps
unfolding link_target path_join join_byte is_abs
link_target-AllPlain root_rest link_path target rooted =
    elim (Bool-cases (has_prefix target (slash ∷ []))) [
      | inl from_root ↦ rw from_root (
          clean-AllPlain (slash ∷ (root_rest ++ slash ∷ trim_left_by (λ c. c == slash) target))
            refl)
      | inr from_link ↦
          (let (qs, e) = dir-absolute link_path rooted in
            rw from_link
              (rw e (clean-AllPlain (slash ∷ (join_byte slash qs ++ slash ∷ target)) refl)))
    ]

All-behind : (ds ps : List Bytes) → All Plain (ds ++ ps) → All Plain ps
All-behind [] ps h = h
All-behind (d ∷ ds) ps h = All-behind ds ps h.1

good_way :
    (ds rs : List Bytes)
    → All Plain ds
    → All Plain rs
    → way_checked (absolute ds) (rel (absolute ds) (absolute rs)) ≡ good_link
    → (ps : List Bytes) × (absolute rs ≡ absolute (ds ++ ps)) × All Plain ps
unfolding way_checked rel is_abs
good_way ds rs hd hr good = elim (Bool-cases (str_eq (absolute rs) (absolute ds))) [
  | inl same ↦
      ([], str_eq_sound (absolute rs) (absolute ds) same ∙ ap absolute (sym (append-nil ds)), tt)
  | inr other ↦ elim (way_below ds rs hd (All-mono (λ p q. q.no_slash) rs hr)) [
    | inl (xs, _, below) ↦ (xs, ap absolute below, All-behind ds xs (rw below at hr))
    | inr (xs, up, lack) ↦
        let way =
          rw
            (
              clean-rooted ds hd,
              clean-rooted rs hr,
              other,
              parts-rooted ds hd,
              parts-rooted rs hr,
              up,
            )
            at good in
        absurd (checked_good (join_byte slash (dot_dot ∷ xs)) (absolute ds) (goes_up xs lack) way)
  ]
]

-- If a link with an absolute path is accepted, then the path of its target, which is resolved from the link's
-- directory or, if it is absolute, from the staging directory, is that of the staging directory or lies
-- below it, for a staging directory of plain parts.
pub validate_archive_link-Inside :
    (ds : List Bytes) (link_path target : Bytes)
    → All Plain ds
    → is_abs link_path ≡ true
    → validate_archive_link (absolute ds) link_path target ≡ good_link
    → (ps : List Bytes) × (link_target (absolute ds) link_path target ≡ absolute (ds ++ ps))
      × All Plain ps
unfolding validate_archive_link
validate_archive_link-Inside ds link_path target plain rooted good =
    let (rs, place, hr) = link_target-AllPlain (join_byte slash ds) link_path target rooted in
    elim (Bool-cases
      (str_eq target [] || contains_byte target 0 || has_prefix target (backslash ∷ []))) [
        | inl bad ↦ absurd (cc (rw bad at good))
        | inr fine ↦
            (let (ps, e, hp) = good_way ds rs plain hr (rw (fine, place) at good) in
              (ps, place ∙ e, hp))
      ]
