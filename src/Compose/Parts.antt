-- ===== src/Compose/Parts.antt =====
-- The two parts of the result of `sortByDependencies`.
use dck.Base.{
  ℕ, zero, suc, ◌<◌, ◌≡◌, Bool, true, false, ◌&&◌, List, [], ◌∷◌, ◌++◌, some, if◌then◌else◌, arith,
  Bool-cases, inl, inr, append-nil, append_assoc, ap, ◌∙◌, sym,
}
use dck.Base.Bytes.{Bytes, str_eq, str_eq_sound}
use dck.Compose.{Services, member, depends_on, edges, sorted_part, sort_names}
use dck.Compose.Counting.{
  count, count-append, member-count, Once, count-append_missing, append_missing-append,
}
use dck.Compose.Loop.{pending}
use dck.Compose.Ends.{ordered, Sorted, kahn-initial}
use dck.Compose.Edges.{edges_inside, has_edge, has_edge-edges, pending_zero, find_pending}

-- `d` stands in front of an `n`.
abbrev pub Before : Bytes → Bytes → List Bytes → Type 0
Before d n r =
    (pre : List Bytes) × (post : List Bytes) × (r ≡ pre ++ (n ∷ post)) × (member d pre ≡ true)

-- `n` is to wait for `d`, where both are to be started.
abbrev pub waits_for : Services → List Bytes → Bytes → Bytes → Bool
waits_for services names n d =
    member n names && (member d names && member d (depends_on services n))

ordered-pending :
    (es : List (Bytes × Bytes)) (done r : List Bytes) (n : Bytes)
    → ordered es done r ≡ true
    → member n r ≡ true
    → (pre : List Bytes) × (post : List Bytes) × (r ≡ pre ++ (n ∷ post))
      × (pending es (done ++ pre) n ≡ 0)
ordered-pending es done [] n h m = cc
ordered-pending es done (x ∷ r) n h m = elim (Bool-cases (str_eq x n)) [
  | inl same ↦
      (let e = str_eq_sound x n same in
        (
          [],
          r,
          ap (λ y. y ∷ r) e,
          ap (λ l. pending es l n) (append-nil done)
              ∙ ap (pending es done) (sym e)
              ∙ ground (arith, h),
        ))
  | inr other ↦
      (let (pre, post, e, free) =
          ordered-pending es (done ++ x ∷ []) r n (ground (arith, h)) (rw other at m) in
        (x ∷ pre, post, ap (λ l. x ∷ l) e, rw (← append_assoc done (x ∷ []) pre) free))
]

-- The two parts of the result, `s` from the loop and `rest` from what it leaves.
pub record Parts (services : Services) (names s rest : List Bytes) : Type 0 where
  pub result : sort_names services names ≡ some (s ++ rest)
  pub sorted : Sorted names (edges services names) s
  pub once : (m : Bytes) → count m (s ++ rest) ≡ (if member m names then 1 else 0)

pub parts :
    (services : Services) (names : List Bytes)
    → Once names
    → (s : List Bytes) × (rest : List Bytes) × Parts services names s rest
unfolding sort_names sorted_part
parts services names once =
    let es = edges services names in
    let (s, e, sorted) = kahn-initial names es once (edges_inside services names) in
    let (rest, added) = append_missing-append names s in
    (
      s,
      rest,
      record {
        result = rw (e, sort_names, sorted_part) (ap some added);
        sorted = sorted;
        once =
            λ m. ground (arith, ap (count m) added, count-append_missing m names s, sorted.taken m);
      },
    )

module _ (services : Services) (names s rest : List Bytes) (p : Parts services names s rest) where
  edge_of :
      (n d : Bytes)
      → waits_for services names n d ≡ true
      → has_edge d n (edges services names) ≡ true
  edge_of n d w = has_edge-edges services names d n ∙ w

  pub sorted-Before :
      (n d : Bytes)
      → member n s ≡ true
      → waits_for services names n d ≡ true
      → Before d n (s ++ rest)
  sorted-Before n d m w =
      let (pre, post, e, free) =
        ordered-pending (edges services names) [] s n p.sorted.in_order m in
      (
        pre,
        post ++ rest,
        ap (λ l. l ++ rest) e ∙ append_assoc pre (n ∷ post) rest,
        pending_zero (edges services names) pre d n free (edge_of n d w),
      )

  -- What the loop has not taken waits for another name that it has not taken.
  untaken_waits :
      (n : Bytes)
      → member n names ≡ true
      → member n s ≡ false
      → (d : Bytes) × (waits_for services names n d ≡ true) × (member d s ≡ false)
  untaken_waits n selected m =
      let (d, edge, out) =
        find_pending (edges services names) s n
          (λ free. absurd (ground (arith, free, p.sorted.taken n, member-count n s, selected))) in
      (d, sym (has_edge-edges services names d n) ∙ edge, out)

  rest_of : (d : Bytes) → member d names ≡ true → member d s ≡ false → member d rest ≡ true
  rest_of d selected out =
      ground (arith, p.once d, count-append d s rest, member-count d s, member-count d rest)

  rest_untaken : (n : Bytes) → member n rest ≡ true → (member n names ≡ true) × (member n s ≡ false)
  rest_untaken n m = (
    ground (arith, p.once n, count-append n s rest, member-count n rest),
    ground (arith, p.once n, count-append n s rest, member-count n s, member-count n rest),
  )

  pub rest_waits :
      (n : Bytes)
      → member n rest ≡ true
      → (d : Bytes) × (waits_for services names n d ≡ true) × (member d rest ≡ true)
  rest_waits n m =
      let (selected, out) = rest_untaken n m in
      let (d, w, out') = untaken_waits n selected out in (d, w, rest_of d (ground (arith, w)) out')

  -- Where a rank falls along the dependencies, the loop takes every name.
  pub ranked_taken :
      (rank : Bytes → ℕ)
      → ((n d : Bytes) → waits_for services names n d ≡ true → rank d < rank n)
      → (k : ℕ) (n : Bytes) → rank n < k
      → member n names ≡ true
      → member n s ≡ true
  ranked_taken rank falls zero n h selected = absurd (omega arith)
  ranked_taken rank falls (suc k) n h selected = elim (Bool-cases (member n s)) [
    | inl there ↦ there
    | inr out ↦
        (let (d, w, out') = untaken_waits n selected out in
          let there =
            ranked_taken rank falls k d (omega (arith, falls n d w)) (ground (arith, w)) in
          absurd (cc))
  ]
