-- ===== src/Compose/Ends.antt =====
-- The main loop of `sortByDependencies` ends, with its names in order.
use dck.Base.{
  ℕ, zero, suc, ◌≤◌, ◌<◌, ◌≡◌, Bool, true, false, ◌&&◌, not, ◌==◌, List, [], ◌∷◌, ◌++◌, some,
  Option, if◌then◌else◌, keep, length, arith, refl, Bool-cases, inl, inr, append-nil, append_assoc,
  subst, ap, sym,
}
use dck.Base.Int.{ℤ}
use dck.Base.Bytes.{Bytes, str_eq, str_eq_iff, str_eq_refl}
use dck.Compose.{member, in_degree, is_zero, take_first, kahn, initial}
use dck.Compose.Counting.{count, count-sort_strings, count-keep, member-count, member-append, Once}
use dck.Compose.Loop.{
  pending, EdgesInside, Counts, state, take_first-Counts, take_first_result, pending_initial,
}

-- Every name stands behind all its dependencies, after those in `done`.
abbrev pub ordered : List (Bytes × Bytes) → List Bytes → List Bytes → Bool
ordered es done [] = true
ordered es done (m ∷ ms) = pending es done m == 0 && ordered es (done ++ m ∷ []) ms

ordered-snoc :
    (es : List (Bytes × Bytes)) (done ms : List Bytes) (m : Bytes)
    → ordered es done ms ≡ true
    → pending es (done ++ ms) m ≡ 0
    → ordered es done (ms ++ m ∷ []) ≡ true
ordered-snoc es done [] m h free = ground (arith, rw (append-nil done) at free)
ordered-snoc es done (x ∷ ms) m h free = ground (
  arith,
  ordered-snoc es (done ++ x ∷ []) ms m,
  ap (λ l. pending es l m) (append_assoc done (x ∷ []) ms),
)

-- The names that are not in the result yet.
abbrev pub unprocessed : List Bytes → List Bytes → ℕ
unprocessed result names = length (keep (λ m. not (member m result)) names)

unprocessed-le :
    (result names : List Bytes) (n : Bytes)
    → unprocessed (result ++ n ∷ []) names ≤ unprocessed result names
unprocessed-le result [] n = omega arith
unprocessed-le result (m ∷ names) n =
    ground (arith, member-append m result (n ∷ []), unprocessed-le result names n)

pub unprocessed-le_length : (names : List Bytes) → unprocessed [] names ≤ length names
unprocessed-le_length [] = omega arith
unprocessed-le_length (n ∷ names) = ground (arith, unprocessed-le_length names)

unprocessed-lt :
    (result names : List Bytes) (n : Bytes)
    → member n names ≡ true
    → member n result ≡ false
    → unprocessed (result ++ n ∷ []) names < unprocessed result names
unprocessed-lt result [] n inside absent = absurd (ground arith)
unprocessed-lt result (m ∷ names) n inside absent = elim (Bool-cases (str_eq m n)) [
  | inl same ↦ rw ((str_eq_iff m n).0 same) (
      ground (
        arith,
        absent,
        str_eq_refl n,
        member-append n result (n ∷ []),
        unprocessed-le result names n,
      ))
  | inr other ↦
      ground (arith, other, member-append m result (n ∷ []), unprocessed-lt result names n)
]

-- What is known of the names that the loop has taken from the queue, `r`.
pub record Sorted (names : List Bytes) (es : List (Bytes × Bytes)) (r : List Bytes) : Type 0 where
  pub taken : (m : Bytes) → count m r ≡ (if member m names && pending es r m == 0 then 1 else 0)
  pub in_order : ordered es [] r ≡ true

abbrev Ends : List Bytes → List (Bytes × Bytes) → Option (List Bytes) → Type 0
Ends names es o = (r : List Bytes) × (o ≡ some r) × Sorted names es r

kahn-Ends :
    (names : List Bytes) (es : List (Bytes × Bytes)) (fuel : ℕ) (degree : Bytes → ℤ)
    (queue result : List Bytes)
    → EdgesInside names es
    → unprocessed result names < fuel
    → ordered es [] result ≡ true
    → Counts names (pending es result) (state degree queue result)
    → Ends names es (kahn fuel es (state degree queue result))
unfolding kahn
kahn-Ends names es zero degree queue result inside enough sorted c = absurd (omega arith)
kahn-Ends names es (suc fuel) degree [] result inside enough sorted c =
    (result, refl, record { taken = λ m. omega (arith, c.counts m); in_order = sorted })
kahn-Ends names es (suc fuel) degree (n ∷ queue) result inside enough sorted c =
    let k = take_first es n queue (state degree (n ∷ queue) result) in
    let moved : k.result ≡ result ++ n ∷ [] =
      take_first_result es n queue (state degree (n ∷ queue) result) in
    let free : pending es result n ≡ 0 = ground (arith, c.counts n, str_eq_refl n) in
    let absent : member n result ≡ false =
      ground (arith, c.counts n, str_eq_refl n, member-count n result) in
    let selected : member n names ≡ true = ground (arith, c.counts n, str_eq_refl n) in
    kahn-Ends names es fuel k.degree k.queue k.result inside
      (rw moved (omega (arith, unprocessed-lt result names n selected absent)))
      (rw moved (ordered-snoc es [] result n sorted free))
      (subst (λ r. Counts names (pending es r) k) (sym moved)
        (take_first-Counts names es n degree queue result inside c))

initial-Counts :
    (names : List Bytes) (es : List (Bytes × Bytes))
    → Once names
    → Counts names (pending es []) (initial es names)
unfolding initial
initial-Counts names es once = record {
  degrees = λ m. pending_initial es m;
  counts = λ m. ground (
    arith,
    count-sort_strings m (keep (λ n. is_zero (in_degree es n)) names),
    count-keep m (λ n. is_zero (in_degree es n)) names,
    pending_initial es m,
    once m,
    member-count m names,
  );
}

-- With one round for each name and one more, the loop ends.
pub kahn-initial :
    (names : List Bytes) (es : List (Bytes × Bytes))
    → Once names
    → EdgesInside names es
    → (r : List Bytes) × (kahn (suc (length names)) es (initial es names) ≡ some r)
      × Sorted names es r
kahn-initial names es once inside =
    let k = initial es names in
    unfold initial in
    kahn-Ends names es (suc (length names)) k.degree k.queue [] inside
      (omega (arith, unprocessed-le_length names)) refl (initial-Counts names es once)
