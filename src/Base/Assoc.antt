-- ===== src/Base/Assoc.antt =====
-- Go maps with string keys, as association lists.
use mathlib.Core.Path.{◌≡◌, refl, sym, ◌∙◌}
use mathlib.Core.Logic.{◌≢◌, ◌⊎◌, inl, inr}
use mathlib.Core.List.{List, [], ◌∷◌}
use mathlib.Core.Option.{Option, none, some}
use native.Mathlib.Omega.{arith}
use dck.Base.Tests.{if◌then◌else◌, Bool-cases}
use dck.Base.Lists.{any, keep}
use mathlib.Core.Bool.{Bool, true, false}
use dck.Base.Bytes.{Bytes, str_eq, str_eq_iff, str_eq_ne, str_eq_sound}

module _ {ℓ} {V : Type ℓ} where
  -- v, ok := m[k]
  unfoldable pub lookup : Bytes → List (Bytes × V) → Option V
  lookup k [] = none
  lookup k ((j, v) ∷ m) = if str_eq j k then some v else lookup k m

  -- m[k] = v
  unfoldable pub insert : Bytes → V → List (Bytes × V) → List (Bytes × V)
  insert k v [] = (k, v) ∷ []
  insert k v ((j, w) ∷ m) = if str_eq j k then (k, v) ∷ m else (j, w) ∷ insert k v m

  -- delete(m, k)
  pub delete : Bytes → List (Bytes × V) → List (Bytes × V)
  delete k [] = []
  delete k ((j, w) ∷ m) = let rest = delete k m in if str_eq j k then rest else (j, w) ∷ rest

  pub lookup-insert :
      (k j : Bytes) (v : V) (m : List (Bytes × V))
      → lookup j (insert k v m) ≡ (if str_eq k j then some v else lookup j m)
  unfolding lookup insert
  lookup-insert k j v [] = refl
  lookup-insert k j v ((i, w) ∷ m) =
      ground (arith, str_eq_iff k j, str_eq_iff i k, str_eq_iff i j, lookup-insert k j v m)

  pub lookup-delete :
      (k j : Bytes) (m : List (Bytes × V))
      → lookup j (delete k m) ≡ (if str_eq k j then none else lookup j m)
  unfolding lookup delete
  lookup-delete k j [] = ground arith
  lookup-delete k j ((i, w) ∷ m) =
      ground (arith, str_eq_iff k j, str_eq_iff i k, str_eq_iff i j, lookup-delete k j m)

  -- What is found behind an insertion is the new value or one that was found before it.
  pub insert_cases :
      (k j : Bytes) (v w : V) (m : List (Bytes × V))
      → lookup j (insert k v m) ≡ some w
      → ((k ≡ j) × (v ≡ w)) ⊎ ((k ≢ j) × (lookup j m ≡ some w))
  insert_cases k j v w m h =
      let found = sym (lookup-insert k j v m) ∙ h in
      elim (Bool-cases (str_eq k j)) [
        | inl same ↦ inl ((str_eq_iff k j).0 same, cc (rw same at found))
        | inr other ↦ inr (str_eq_ne k j other, rw other at found)
      ]

  pub delete_cases :
      (k j : Bytes) (w : V) (m : List (Bytes × V))
      → lookup j (delete k m) ≡ some w
      → (k ≢ j) × (lookup j m ≡ some w)
  delete_cases k j w m h =
      let found = sym (lookup-delete k j m) ∙ h in
      elim (Bool-cases (str_eq k j)) [
        | inl same ↦ absurd (cc (rw same at found))
        | inr other ↦ (str_eq_ne k j other, rw other at found)
      ]

  -- What holds of no entry with a good key does not hold of what is found under one.
  pub any-lookup :
      (good : Bytes → Bool) (p : V → Bool) (m : List (Bytes × V)) (k : Bytes) (v : V)
      → any (λ e. p e.1) (keep (λ e. good e.0) m) ≡ false
      → lookup k m ≡ some v
      → good k ≡ true
      → p v ≡ false
  unfolding lookup
  any-lookup good p [] k v h found valid = cc
  any-lookup good p ((j, w) ∷ m) k v h found valid = elim (Bool-cases (str_eq j k)) [
    | inl same ↦
        (let value : w ≡ v = cc (rw same at found) in
          let good_j : good j ≡ true = rw (sym (str_eq_sound j k same)) at valid in
          ground (arith, rw good_j at h, value))
    | inr other ↦ any-lookup good p m k v (ground (arith, h)) (rw other at found) valid
  ]
