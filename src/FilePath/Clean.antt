-- ===== src/FilePath/Clean.antt =====
-- Paths that are already clean, and joins under a clean directory.
use dck.Base.{
  ℕ, ◌≡◌, ◌≢◌, Bool, true, false, List, [], ◌∷◌, ◌++◌, map, append-nil, All, All-append, All-mono,
  arith, refl, ap, ◌∙◌, sym,
}
use dck.Base.Bytes.{Bytes, str_eq}
use dck.Base.Split.{split_byte, join_byte, Lacks, split-join, join-append}
use dck.FilePath.{slash, dot, dot_dot, is_abs, resolve, rev_onto, render, clean, path_join}

-- A part of a path that names an entry of its directory.
pub record Plain (p : Bytes) : Type 0 where
  pub not_empty : str_eq p [] ≡ false
  pub not_dot : str_eq p dot ≡ false
  pub not_dot_dot : str_eq p dot_dot ≡ false
  pub no_slash : Lacks slash p

-- The absolute path of these parts.
abbrev pub absolute : List Bytes → Bytes
absolute ps = slash ∷ join_byte slash ps

resolve-Plain :
    (rooted : Bool) (ps kept : List Bytes)
    → All Plain ps
    → resolve rooted kept ps ≡ rev_onto ps kept
unfolding resolve
resolve-Plain rooted [] kept h = refl
resolve-Plain rooted (p ∷ ps) kept (hp, h) = ground (arith, resolve-Plain rooted ps (p ∷ kept) h)

rev_onto_twice :
    (ps kept acc : List Bytes) → rev_onto (rev_onto ps kept) acc ≡ rev_onto kept (ps ++ acc)
rev_onto_twice [] kept acc = refl
rev_onto_twice (p ∷ ps) kept acc = rev_onto_twice ps (p ∷ kept) acc

pub split-absolute :
    (ps : List Bytes) → ps ≢ [] → All Plain ps → split_byte slash (absolute ps) ≡ [] ∷ ps
unfolding split_byte
split-absolute ps ne h =
    ap (λ r. [] ∷ r) (split-join slash ps ne (All-mono (λ p q. q.no_slash) ps h))

resolve_empty :
    (rooted : Bool) (kept ps : List Bytes) → resolve rooted kept ([] ∷ ps) ≡ resolve rooted kept ps
unfolding resolve
resolve_empty rooted kept ps = refl

resolved :
    (ps : List Bytes)
    → ps ≢ []
    → All Plain ps
    → rev_onto (resolve true [] (split_byte slash (absolute ps))) [] ≡ ps
resolved ps ne h =
    ap (λ r. rev_onto (resolve true [] r) []) (split-absolute ps ne h)
    ∙ ap (λ r. rev_onto r []) (resolve_empty true [] ps ∙ resolve-Plain true ps [] h)
    ∙ rev_onto_twice ps [] []
    ∙ append-nil ps

-- A path of plain parts is clean.
pub clean-absolute : (ps : List Bytes) → ps ≢ [] → All Plain ps → clean (absolute ps) ≡ absolute ps
unfolding clean is_abs
clean-absolute ps ne h = ap (render true) (resolved ps ne h) ∙ unfold render in refl

abbrev pub flat : List (List Bytes) → List Bytes
flat [] = []
flat (ps ∷ pss) = ps ++ flat pss

-- An element of a join that spells these parts.
abbrev pub element : List Bytes → Bytes
element = join_byte slash

abbrev NonEmpty : List Bytes → Type 0
NonEmpty ps = ps ≢ []

flat-ne-nil : (ps : List Bytes) (pss : List (List Bytes)) → ps ≢ [] → ps ++ flat pss ≢ []
flat-ne-nil [] pss ne e = ne refl
flat-ne-nil (p ∷ ps) pss ne e = cc

join_cons :
    (p q : Bytes) (ps : List Bytes)
    → join_byte slash (p ∷ q ∷ ps) ≡ p ++ (slash ∷ join_byte slash (q ∷ ps))
unfolding join_byte
join_cons p q ps = refl

join_first :
    (c : ℕ) (p : Bytes) (qs : List Bytes)
    → join_byte slash ((c ∷ p) ∷ qs) ≡ c ∷ join_byte slash (p ∷ qs)
unfolding join_byte
join_first c p [] = refl
join_first c p (q ∷ qs) = refl

join_elements :
    (ps : List Bytes) (pss : List (List Bytes))
    → ps ≢ []
    → All NonEmpty pss
    → join_byte slash (map element (ps ∷ pss)) ≡ join_byte slash (ps ++ flat pss)
join_elements ps [] ne h = unfold join_byte in ap (join_byte slash) (sym (append-nil ps))
join_elements ps (qs ∷ pss) ne (hq, h) =
    join_cons (element ps) (element qs) (map element pss)
    ∙ ap (λ r. join_byte slash ps ++ (slash ∷ r)) (join_elements qs pss hq h)
    ∙ sym (join-append slash ps (qs ++ flat pss) ne (flat-ne-nil qs pss hq))

All-flat : (pss : List (List Bytes)) → All (All Plain) pss → All Plain (flat pss)
All-flat [] h = tt
All-flat (ps ∷ pss) (hp, h) = All-append Plain ps (flat pss) hp (All-flat pss h)

-- A join of plain elements under an absolute directory is that directory's parts, and then theirs.
pub join-absolute :
    (ds : List Bytes) (pss : List (List Bytes))
    → ds ≢ []
    → All Plain ds
    → All NonEmpty pss
    → All (All Plain) pss
    → path_join (absolute ds ∷ map element pss) ≡ absolute (ds ++ flat pss)
unfolding path_join
join-absolute ds pss ne hd hne hp =
    ap clean (
      join_first slash (element ds) (map element pss)
      ∙ ap (λ r. slash ∷ r) (join_elements ds pss ne hne))
    ∙ clean-absolute (ds ++ flat pss) (flat-ne-nil ds pss ne)
        (All-append Plain ds (flat pss) hd (All-flat pss hp))

module _ (ds : List Bytes) (ne : ds ≢ []) (hd : All Plain ds) where
  pub join_one : (p : Bytes) → Plain p → path_join (absolute ds ∷ p ∷ []) ≡ absolute (ds ++ p ∷ [])
  unfolding join_byte
  join_one p h = join-absolute ds ((p ∷ []) ∷ []) ne hd ((λ e. cc), tt) ((h, tt), tt)

  pub join_two :
      (ps : List Bytes) (q : Bytes)
      → ps ≢ []
      → All Plain ps
      → Plain q
      → path_join (absolute ds ∷ join_byte slash ps ∷ q ∷ []) ≡ absolute (ds ++ (ps ++ q ∷ []))
  unfolding join_byte
  join_two ps q hps h hq =
      join-absolute ds (ps ∷ (q ∷ []) ∷ []) ne hd (hps, ((λ e. cc), tt)) (h, ((hq, tt), tt))

-- An absolute path determines its parts.
pub absolute-injective :
    (ps qs : List Bytes)
    → ps ≢ []
    → qs ≢ []
    → All Plain ps
    → All Plain qs
    → absolute ps ≡ absolute qs
    → ps ≡ qs
absolute-injective ps qs ne ne' h h' e =
    sym (split-join slash ps ne (All-mono (λ p q. q.no_slash) ps h))
    ∙ ap (split_byte slash) (cc e)
    ∙ split-join slash qs ne' (All-mono (λ p q. q.no_slash) qs h')
