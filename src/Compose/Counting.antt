-- ===== src/Compose/Counting.antt =====
-- How often a name stands in a list, and what the loops of the sort leave of that.
use dck.Base.{
  ℕ, ◌+◌, ◌≤◌, ◌≡◌, Bool, true, false, ◌&&◌, ◌||◌, not, ◌==◌, List, [], ◌∷◌, ◌++◌, if◌then◌else◌,
  keep, arith, refl, Bool-cases, inl, inr, append-nil, append_assoc, ◌∙◌, sym,
}
use dck.Base.Bytes.{Bytes, str_eq, str_eq_iff, str_eq_refl}
use dck.Compose.{member, insert_string, sort_strings, append_missing}

abbrev pub count : Bytes → List Bytes → ℕ
count m [] = 0
count m (x ∷ xs) = (if str_eq x m then 1 else 0) + count m xs

pub count-append : (m : Bytes) (xs ys : List Bytes) → count m (xs ++ ys) ≡ count m xs + count m ys
count-append m [] ys = omega arith
count-append m (x ∷ xs) ys = omega (arith, count-append m xs ys)

pub count_self : (m : Bytes) → count m (m ∷ []) ≡ 1
count_self m = rw (str_eq_refl m) refl

pub member-count : (m : Bytes) (xs : List Bytes) → member m xs ≡ not (count m xs == 0)
member-count m [] = refl
member-count m (x ∷ xs) = ground (arith, member-count m xs)

pub member-append :
    (m : Bytes) (xs ys : List Bytes) → member m (xs ++ ys) ≡ (member m xs || member m ys)
member-append m [] ys = refl
member-append m (x ∷ xs) ys = ground (arith, member-append m xs ys)

count-insert_string :
    (m s : Bytes) (ts : List Bytes)
    → count m (insert_string s ts) ≡ (if str_eq s m then 1 else 0) + count m ts
unfolding insert_string
count-insert_string m s [] = refl
count-insert_string m s (t ∷ ts) = ground (arith, count-insert_string m s ts)

pub count-sort_strings : (m : Bytes) (ss : List Bytes) → count m (sort_strings ss) ≡ count m ss
unfolding sort_strings
count-sort_strings m [] = refl
count-sort_strings m (s ∷ ss) =
    ground (arith, count-insert_string m s (sort_strings ss), count-sort_strings m ss)

pub count-keep :
    (m : Bytes) (p : Bytes → Bool) (xs : List Bytes)
    → count m (keep p xs) ≡ (if p m then count m xs else 0)
count-keep m p [] = ground arith
count-keep m p (x ∷ xs) = elim (Bool-cases (str_eq x m)) [
  | inl same ↦
      (let e : x ≡ m = (str_eq_iff x m).0 same in
        rw e (ground (arith, str_eq_refl m, count-keep m p xs)))
  | inr other ↦ ground (arith, other, count-keep m p xs)
]

-- Every name is there once, as the keys of a map are.
abbrev pub Once : List Bytes → Type 0
Once names = (m : Bytes) → count m names ≤ 1

pub count-append_missing :
    (m : Bytes) (names result : List Bytes)
    → count m (append_missing names result)
      ≡ (if member m names && count m result == 0 then 1 else count m result)
unfolding append_missing
count-append_missing m [] result = refl
count-append_missing m (n ∷ names) result = elim (Bool-cases (member n result)) [
  | inl old ↦ rw old (elim (Bool-cases (str_eq n m)) [
    | inl same ↦
        (let there : member m result ≡ true = rw ((str_eq_iff n m).0 same) at old in
          ground (arith, same, there, member-count m result, count-append_missing m names result))
    | inr other ↦ ground (arith, other, count-append_missing m names result)
  ])
  | inr new ↦ rw new (elim (Bool-cases (str_eq n m)) [
    | inl same ↦
        (let absent : member m result ≡ false = rw ((str_eq_iff n m).0 same) at new in
          ground (
            arith,
            same,
            absent,
            member-count m result,
            count-append m result (n ∷ []),
            count-append_missing m names (result ++ n ∷ []),
          ))
    | inr other ↦ ground (
      arith,
      other,
      count-append m result (n ∷ []),
      count-append_missing m names (result ++ n ∷ []),
    )
  ])
]

-- What is added comes behind the result.
pub append_missing-append :
    (names result : List Bytes)
    → (rest : List Bytes) × (append_missing names result ≡ result ++ rest)
unfolding append_missing
append_missing-append [] result = ([], sym (append-nil result))
append_missing-append (n ∷ names) result = elim (Bool-cases (member n result)) [
  | inl old ↦ rw old (append_missing-append names result)
  | inr new ↦
      (let (rest, e) = append_missing-append names (result ++ n ∷ []) in
        (n ∷ rest, rw new (e ∙ append_assoc result (n ∷ []) rest)))
]
