-- ===== src/Base/Split.antt =====
-- strings.Split and strings.Join with a one-byte separator.
use dck.Base.{
  ℕ, ◌≡◌, ◌≢◌, false, List, [], ◌∷◌, ◌++◌, append_assoc, arith, ◌==◌, if◌then◌else◌, All, refl, ap,
  ◌∙◌, sym, Bool-cases, inl, inr,
}
use dck.Base.Bytes.{Bytes}

-- A byte goes in front of the first part.
abbrev glue : ℕ → List Bytes → List Bytes
glue c [] = (c ∷ []) ∷ []
glue c (p ∷ ps) = (c ∷ p) ∷ ps

unfoldable pub split_byte : ℕ → Bytes → List Bytes
split_byte sep [] = [] ∷ []
split_byte sep (c ∷ s) = let rest = split_byte sep s in if c == sep then [] ∷ rest else glue c rest

unfoldable pub join_byte : ℕ → List Bytes → Bytes
join_byte sep [] = []
join_byte sep (p ∷ []) = p
join_byte sep (p ∷ q ∷ ps) = p ++ (sep ∷ join_byte sep (q ∷ ps))

abbrev pub Lacks : ℕ → Bytes → Type 0
Lacks b = All (λ c. (c == b) ≡ false)

module _ (sep : ℕ) where
  pub split-Lacks : (s : Bytes) → Lacks sep s → split_byte sep s ≡ s ∷ []
  unfolding split_byte
  split-Lacks [] h = refl
  split-Lacks (c ∷ s) h = ground (arith, split-Lacks s h.1)

  pub split-append :
      (p s : Bytes) → Lacks sep p → split_byte sep (p ++ (sep ∷ s)) ≡ p ∷ split_byte sep s
  unfolding split_byte
  split-append [] s h = ground arith
  split-append (c ∷ p) s h = ground (arith, split-append p s h.1)

  -- Splitting a join gives the parts back, if there is one and none holds the separator.
  pub split-join :
      (ps : List Bytes) → ps ≢ [] → All (Lacks sep) ps → split_byte sep (join_byte sep ps) ≡ ps
  unfolding join_byte
  split-join [] ne h = absurd (ne refl)
  split-join (p ∷ []) ne h = split-Lacks p h.0
  split-join (p ∷ q ∷ ps) ne h =
      split-append p (join_byte sep (q ∷ ps)) h.0
      ∙ ap (λ r. p ∷ r) (split-join (q ∷ ps) (λ e. cc) h.1)

  pub split-All : (s : Bytes) → All (Lacks sep) (split_byte sep s)
  unfolding split_byte
  split-All [] = (tt, tt)
  split-All (c ∷ s) = split_step c (split_byte sep s) (split-All s)
    where
      split_step :
          (c : ℕ) (ps : List Bytes)
          → All (Lacks sep) ps
          → All (Lacks sep) (if c == sep then [] ∷ ps else glue c ps)
      split_step c [] h = ground arith
      split_step c (p ∷ ps) h = ground arith

  pub split-ne-nil : (s : Bytes) → split_byte sep s ≢ []
  unfolding split_byte
  split-ne-nil [] e = cc
  split-ne-nil (c ∷ s) e = elim (Bool-cases (c == sep)) [
    | inl same ↦ cc (rw same at e)
    | inr other ↦ glue-ne-nil c (split_byte sep s) (rw other at e)
  ]
    where
      glue-ne-nil : (c : ℕ) (ps : List Bytes) → glue c ps ≢ []
      glue-ne-nil c [] e = cc
      glue-ne-nil c (p ∷ ps) e = cc

  join_step :
      (c : ℕ) (ps : List Bytes)
      → ps ≢ []
      → join_byte sep (if c == sep then [] ∷ ps else glue c ps) ≡ c ∷ join_byte sep ps
  unfolding join_byte
  join_step c [] ne = absurd (ne refl)
  join_step c (p ∷ []) ne = ground arith
  join_step c (p ∷ q ∷ ps) ne = ground arith

  -- Joining the parts of a split gives the text back.
  pub join-split : (s : Bytes) → join_byte sep (split_byte sep s) ≡ s
  unfolding split_byte
  join-split [] = unfold join_byte in refl
  join-split (c ∷ s) =
      join_step c (split_byte sep s) (split-ne-nil s) ∙ ap (λ r. c ∷ r) (join-split s)

  pub join-append :
      (ps qs : List Bytes)
      → ps ≢ []
      → qs ≢ []
      → join_byte sep (ps ++ qs) ≡ join_byte sep ps ++ (sep ∷ join_byte sep qs)
  unfolding join_byte
  join-append [] qs ne ne' = absurd (ne refl)
  join-append (p ∷ []) [] ne ne' = absurd (ne' refl)
  join-append (p ∷ []) (q ∷ qs) ne ne' = refl
  join-append (p ∷ p' ∷ ps) qs ne ne' =
      ap (λ r. p ++ (sep ∷ r)) (join-append (p' ∷ ps) qs (λ e. cc) ne')
      ∙ sym (append_assoc p (sep ∷ join_byte sep (p' ∷ ps)) (sep ∷ join_byte sep qs))

glue-snoc :
    (c : ℕ) (ps : List Bytes) (t : Bytes) → ps ≢ [] → glue c (ps ++ t ∷ []) ≡ glue c ps ++ t ∷ []
glue-snoc c [] t ne = absurd (ne refl)
glue-snoc c (p ∷ ps) t ne = refl

-- A last part without the separator is split off.
pub split-snoc :
    (sep : ℕ) (s t : Bytes)
    → Lacks sep t
    → split_byte sep (s ++ (sep ∷ t)) ≡ split_byte sep s ++ t ∷ []
unfolding split_byte
split-snoc sep [] t h = split-append sep [] t tt ∙ ap (λ r. [] ∷ r) (split-Lacks sep t h)
split-snoc sep (c ∷ s) t h = elim (Bool-cases (c == sep)) [
  | inl same ↦ rw same (ap (λ r. [] ∷ r) (split-snoc sep s t h))
  | inr other ↦
      rw other
        (ap (glue c) (split-snoc sep s t h) ∙ glue-snoc c (split_byte sep s) t (split-ne-nil sep s))
]
