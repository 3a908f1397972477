-- ===== src/Image/Archive/Relative.antt =====
-- The way from a directory to a path below it does not lead out of the directory.
use dck.Base.{
  ◌≡◌, ◌≢◌, false, not, some, List, [], ◌∷◌, ◌++◌, keep, drop, length, refl, ap, sym, ◌∙◌,
  Bool-cases, inl, inr, All, All-append, All-mono,
}
use dck.Base.Bytes.{Bytes, codes, str_eq, str_eq_refl, str_eq_sound, has_prefix, has_prefix_split}
use dck.Base.Split.{split_byte, join_byte, split-join, split-append}
use dck.FilePath.{slash, dot_dot, is_abs, rel_parts, path_parts, rel}
use dck.FilePath.Clean.{Plain, absolute, clean-absolute, split-absolute}
use dck.Image.Archive.{leaves_root}

keep-Plain : (ps : List Bytes) → All Plain ps → keep (λ p. not (str_eq p [])) ps ≡ ps
keep-Plain [] h = refl
keep-Plain (p ∷ ps) h = rw h.0.not_empty (ap (λ qs. p ∷ qs) (keep-Plain ps h.1))

pub path_parts-absolute : (ps : List Bytes) → ps ≢ [] → All Plain ps → path_parts (absolute ps) ≡ ps
path_parts-absolute ps ne h =
    ap (keep (λ p. not (str_eq p []))) (split-absolute ps ne h) ∙ keep-Plain ps h

pub rel_parts_below : (ds ps : List Bytes) → rel_parts ds (ds ++ ps) ≡ some ps
unfolding rel_parts
rel_parts_below [] [] = refl
rel_parts_below [] (p ∷ ps) = refl
rel_parts_below (d ∷ ds) ps = rw (str_eq_refl d) (rel_parts_below ds ps)

stays_below :
    (ps : List Bytes) → ps ≢ [] → All Plain ps → leaves_root (some (join_byte slash ps)) ≡ false
unfolding leaves_root split_byte
stays_below [] ne h = absurd (ne refl)
stays_below (p ∷ ps) ne h =
    let parts = split-join slash (p ∷ ps) ne (All-mono (λ q r. r.no_slash) (p ∷ ps) h) in
    let path = join_byte slash (p ∷ ps) in
    elim (Bool-cases (str_eq path dot_dot)) [
      | inl up ↦
          let first : p ≡ dot_dot =
            cc (sym parts ∙ ap (split_byte slash) (str_eq_sound path dot_dot up)) in
          absurd (cc (rw first at h.0.not_dot_dot))
      | inr inside ↦ elim (Bool-cases (has_prefix path (codes "../"))) [
        | inl up ↦
            let rest = drop (length (codes "../")) path in
            let first : p ≡ dot_dot = cc (
              sym parts
              ∙ ap (split_byte slash) (has_prefix_split path (codes "../") up)
              ∙ split-append slash dot_dot rest (refl, (refl, tt))) in
            absurd (cc (rw first at h.0.not_dot_dot))
        | inr below ↦ rw inside below
      ]
    ]

append-ne-nil : (ds ps : List Bytes) → ds ≢ [] → ds ++ ps ≢ []
append-ne-nil [] ps ne e = ne refl
append-ne-nil (d ∷ ds) ps ne e = cc

pub leaves_root-below :
    (ds ps : List Bytes)
    → ds ≢ []
    → ps ≢ []
    → All Plain ds
    → All Plain ps
    → leaves_root (rel (absolute ds) (absolute (ds ++ ps))) ≡ false
unfolding rel is_abs
leaves_root-below ds ps nd np hd hp =
    let na = append-ne-nil ds ps nd in
    let ha = All-append Plain ds ps hd hp in
    rw (clean-absolute ds nd hd) (
      rw (clean-absolute (ds ++ ps) na ha)
        (elim (Bool-cases (str_eq (absolute (ds ++ ps)) (absolute ds))) [
          | inl same ↦ rw same (unfold leaves_root in refl)
          | inr other ↦ rw other (
              rw (path_parts-absolute ds nd hd) (
                rw (path_parts-absolute (ds ++ ps) na ha)
                  (rw (rel_parts_below ds ps) (stays_below ps np hp))))
        ]))
