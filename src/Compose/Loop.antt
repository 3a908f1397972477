-- ===== src/Compose/Loop.antt =====
-- One round of the main loop of `sortByDependencies`: its invariant.
use dck.Base.{
  ℕ, ◌+◌, ◌≡◌, true, ◌&&◌, not, ◌==◌, List, [], ◌∷◌, ◌++◌, if◌then◌else◌, keep, length, arith, refl,
  Bool-cases, inl, inr, ap, ◌∙◌, All,
}
use dck.Base.Int.{ℤ, pos}
use dck.Base.Bytes.{Bytes, str_eq, str_eq_iff, str_eq_refl}
use dck.Compose.{
  member, dependents, in_degree, decrement, Kahn, release_one, release, sort_queue, take_first,
}
use dck.Compose.Counting.{count, count-append, count-sort_strings, member-count, member-append}

-- The dependencies of `m` that are not in `done`.
abbrev pub pending : List (Bytes × Bytes) → List Bytes → Bytes → ℕ
pending es done m = length (keep (λ e. str_eq e.1 m && not (member e.0 done)) es)

pub pending_initial :
    (es : List (Bytes × Bytes)) (m : Bytes) → in_degree es m ≡ pos (pending es [] m)
unfolding in_degree
pending_initial [] m = refl
pending_initial (e ∷ es) m = ground (arith, pending_initial es m)

pending_take :
    (es : List (Bytes × Bytes)) (done : List Bytes) (n m : Bytes)
    → count n done ≡ 0
    → pending es done m ≡ count m (dependents es n) + pending es (done ++ n ∷ []) m
unfolding dependents
pending_take [] done n m h = omega arith
pending_take (e ∷ es) done n m h = ground (
  arith,
  member-append e.0 done (n ∷ []),
  member-count e.0 done,
  str_eq_iff e.0 n,
  str_eq_iff n e.0,
  pending_take es done n m,
)

-- `w` is the number of dependencies that the loop still waits for.
pub record Counts (names : List Bytes) (w : Bytes → ℕ) (k : Kahn) : Type 0 where
  pub degrees : (m : Bytes) → k.degree m ≡ pos (w m)
  pub counts :
      (m : Bytes)
      → count m k.result + count m k.queue ≡ (if member m names && w m == 0 then 1 else 0)

decrement_pos : (a : ℕ) → decrement (pos (1 + a)) ≡ pos a
decrement_pos a = ground arith

release_one-degree :
    (x m : Bytes) (w w' : Bytes → ℕ) (k : Kahn)
    → w m ≡ (if str_eq x m then 1 else 0) + w' m
    → k.degree m ≡ pos (w m)
    → (release_one x k).degree m ≡ pos (w' m)
unfolding release_one
release_one-degree x m w w' k step h = elim (Bool-cases (str_eq x m)) [
  | inl same ↦ rw same (ap decrement (h ∙ ap pos (rw same at step)) ∙ decrement_pos (w' m))
  | inr other ↦ rw other (h ∙ ap pos (ground (arith, other, step)))
]

release_one_result : (x : Bytes) (k : Kahn) → (release_one x k).result ≡ k.result
unfolding release_one
release_one_result x k = refl

release_one_queue :
    (x : Bytes) (a : ℕ) (k : Kahn)
    → (release_one x k).degree x ≡ pos a
    → (release_one x k).queue ≡ (if a == 0 then k.queue ++ x ∷ [] else k.queue)
unfolding release_one
release_one_queue x a k h = rw h refl

release_one_totals :
    (names : List Bytes) (x m : Bytes) (w w' : Bytes → ℕ) (k : Kahn)
    → member x names ≡ true
    → ((n : Bytes) → w n ≡ (if str_eq x n then 1 else 0) + w' n)
    → Counts names w k
    → count m (release_one x k).result + count m (release_one x k).queue
      ≡ (if member m names && w' m == 0 then 1 else 0)
release_one_totals names x m w w' k inside step c =
    let queue =
      release_one_queue x (w' x) k (release_one-degree x x w w' k (step x) (c.degrees x)) in
    rw (release_one_result x k) (
      rw queue (elim (Bool-cases (str_eq x m)) [
        | inl same ↦
            (let e = (str_eq_iff x m).0 same in
              let inside' : member m names ≡ true = rw e at inside in
              rw e (
                ground (
                  arith,
                  inside',
                  str_eq_refl m,
                  same,
                  step m,
                  c.counts m,
                  count-append m k.queue (m ∷ []),
                )))
        | inr other ↦ ground (arith, other, step m, c.counts m, count-append m k.queue (x ∷ []))
      ]))

release_one-Counts :
    (names : List Bytes) (x : Bytes) (w w' : Bytes → ℕ) (k : Kahn)
    → member x names ≡ true
    → ((n : Bytes) → w n ≡ (if str_eq x n then 1 else 0) + w' n)
    → Counts names w k
    → Counts names w' (release_one x k)
release_one-Counts names x w w' k inside step c = record {
  degrees = λ m. release_one-degree x m w w' k (step m) (c.degrees m);
  counts = λ m. release_one_totals names x m w w' k inside step c;
}

release-Counts :
    (names ms : List Bytes) (w w' : Bytes → ℕ) (k : Kahn)
    → All (λ m. member m names ≡ true) ms
    → ((n : Bytes) → w n ≡ count n ms + w' n)
    → Counts names w k
    → Counts names w' (release ms k)
unfolding release
release-Counts names [] w w' k inside step c = record {
  degrees = λ m. c.degrees m ∙ ap pos (omega (arith, step m));
  counts = λ m. ground (arith, step m, c.counts m);
}
release-Counts names (x ∷ ms) w w' k inside step c =
    release-Counts names ms (λ n. count n ms + w' n) w' (release_one x k) inside.1 (λ n. refl)
      (release_one-Counts names x w (λ n. count n ms + w' n) k inside.0 (λ n. omega (arith, step n))
        c)

release_result : (ms : List Bytes) (k : Kahn) → (release ms k).result ≡ k.result
unfolding release
release_result [] k = refl
release_result (x ∷ ms) k = release_result ms (release_one x k) ∙ release_one_result x k

sort_queue-Counts :
    (names : List Bytes) (w : Bytes → ℕ) (k : Kahn)
    → Counts names w k
    → Counts names w (sort_queue k)
unfolding sort_queue
sort_queue-Counts names w k c = record {
  degrees = c.degrees;
  counts = λ m. omega (arith, count-sort_strings m k.queue, c.counts m);
}

-- The names of every edge are selected.
abbrev pub EdgesInside : List Bytes → List (Bytes × Bytes) → Type 0
EdgesInside names es = All (λ e. (member e.0 names ≡ true) × (member e.1 names ≡ true)) es

dependents_inside :
    (names : List Bytes) (es : List (Bytes × Bytes)) (n : Bytes)
    → EdgesInside names es
    → All (λ m. member m names ≡ true) (dependents es n)
unfolding dependents
dependents_inside names [] n h = tt
dependents_inside names (e ∷ es) n h = elim (Bool-cases (str_eq e.0 n)) [
  | inl same ↦ rw same (h.0.1, dependents_inside names es n h.1)
  | inr other ↦ rw other (dependents_inside names es n h.1)
]

-- The state of the loop, by its variables.
abbrev pub state : (Bytes → ℤ) → List Bytes → List Bytes → Kahn
state degree queue result = record { degree = degree; queue = queue; result = result }

pub take_first-Counts :
    (names : List Bytes) (es : List (Bytes × Bytes)) (n : Bytes) (degree : Bytes → ℤ)
    (queue result : List Bytes)
    → EdgesInside names es
    → Counts names (pending es result) (state degree (n ∷ queue) result)
    → Counts names
        (pending es (result ++ n ∷ []))
        (take_first es n queue (state degree (n ∷ queue) result))
unfolding take_first
take_first-Counts names es n degree queue result inside c =
    let absent : count n result ≡ 0 = ground (arith, c.counts n, str_eq_refl n) in
    sort_queue-Counts names (pending es (result ++ n ∷ [])) _ (
      release-Counts names (dependents es n) (pending es result) (pending es (result ++ n ∷ [])) _
        (dependents_inside names es n inside) (λ m. pending_take es result n m absent)
        (record {
          degrees = c.degrees;
          counts = λ m. omega (arith, count-append m result (n ∷ []), c.counts m);
        }))

pub take_first_result :
    (es : List (Bytes × Bytes)) (n : Bytes) (queue : List Bytes) (k : Kahn)
    → (take_first es n queue k).result ≡ k.result ++ n ∷ []
unfolding take_first sort_queue
take_first_result es n queue k = release_result (dependents es n) _
