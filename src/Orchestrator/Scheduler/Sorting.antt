-- ===== src/Orchestrator/Scheduler/Sorting.antt =====
-- Predicates on the elements of lists that are sorted, filtered and looked up.
use dck.Base.{◌≡◌, Bool, true, some, List, [], ◌∷◌, ◌++◌, keep, map, Bool-cases, inl, inr, All}
use dck.Base.Bytes.{Bytes, str_eq}
use dck.Base.Assoc.{lookup}
use dck.Orchestrator.Scheduler.{insert_by, sort_by}

-- What holds of every element holds after a sort, and the other way round.
module _ {ℓ κ} {A : Type ℓ} (P : A → Type κ) (less : A → A → Bool) where
  pub All-insert_by : (x : A) (xs : List A) → P x → All P xs → All P (insert_by less x xs)
  unfolding insert_by
  All-insert_by x [] px h = (px, tt)
  All-insert_by x (y ∷ ys) px h = elim (Bool-cases (less y x)) [
    | inl before ↦ rw before (h.0, All-insert_by x ys px h.1)
    | inr behind ↦ rw behind (px, h)
  ]

  insert_by-All : (x : A) (xs : List A) → All P (insert_by less x xs) → P x × All P xs
  unfolding insert_by
  insert_by-All x [] h = (h.0, tt)
  insert_by-All x (y ∷ ys) h = elim (Bool-cases (less y x)) [
    | inl before ↦
        (let h' = rw before at h in let (px, rest) = insert_by-All x ys h'.1 in (px, (h'.0, rest)))
    | inr behind ↦ (let h' = rw behind at h in (h'.0, h'.1))
  ]

  pub All-sort_by : (xs : List A) → All P xs → All P (sort_by less xs)
  unfolding sort_by
  All-sort_by [] h = tt
  All-sort_by (x ∷ xs) (px, h) = All-insert_by x (sort_by less xs) px (All-sort_by xs h)

  pub sort_by-All : (xs : List A) → All P (sort_by less xs) → All P xs
  unfolding sort_by
  sort_by-All [] h = tt
  sort_by-All (x ∷ xs) h =
      let (px, rest) = insert_by-All x (sort_by less xs) h in (px, sort_by-All xs rest)

module _ {ℓ κ} {A : Type ℓ} (P : A → Type κ) where
  pub append-All : (xs ys : List A) → All P (xs ++ ys) → All P xs × All P ys
  append-All [] ys h = (tt, h)
  append-All (x ∷ xs) ys (px, h) = (let (hx, hy) = append-All xs ys h in ((px, hx), hy))

  pub keep-All : (q : A → Bool) (xs : List A) → All P (keep q xs) → All (λ x. q x ≡ true → P x) xs
  keep-All q [] h = tt
  keep-All q (x ∷ xs) h = elim (Bool-cases (q x)) [
    | inl good ↦ (let h' = rw good at h in ((λ e. h'.0), keep-All q xs h'.1))
    | inr bad ↦ ((λ e. absurd (cc)), keep-All q xs (rw bad at h))
  ]

  pub All-keep : (q : A → Bool) (xs : List A) → ((x : A) → q x ≡ true → P x) → All P (keep q xs)
  All-keep q [] f = tt
  All-keep q (x ∷ xs) f = elim (Bool-cases (q x)) [
    | inl good ↦ rw good (f x good, All-keep q xs f)
    | inr bad ↦ rw bad (All-keep q xs f)
  ]

pub lookup-All {ℓ κ} :
    {A : Type ℓ} (P : A → Type κ) (m : List (Bytes × A)) (k : Bytes) (a : A)
    → All P (map (λ e. e.1) m)
    → lookup k m ≡ some a
    → P a
unfolding lookup
lookup-All P [] k a h found = absurd (cc)
lookup-All P ((j, b) ∷ m) k a h found = elim (Bool-cases (str_eq j k)) [
  | inl same ↦ (let e : b ≡ a = cc (rw same at found) in rw (← e) h.0)
  | inr other ↦ lookup-All P m k a h.1 (rw other at found)
]
