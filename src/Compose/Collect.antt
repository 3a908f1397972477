-- ===== src/Compose/Collect.antt =====
-- The calls of `collectDeps` end, and what they collect.
use dck.Base.{
  ℕ, zero, suc, ◌≤◌, ◌<◌, ◌≡◌, true, false, List, [], ◌∷◌, ◌⊎◌, some, Option, arith, refl,
  Bool-cases, Option-cases, inl, inr,
}
use dck.Base.Bytes.{Bytes, str_eq, str_eq_refl, str_eq_sound}
use dck.Base.Assoc.{lookup}
use dck.Compose.{Services, member, depends_on, collect_each, collect_deps, all_deps}
use dck.Compose.Counting.{member-count, member-append, Once}
use dck.Compose.Ends.{unprocessed}

abbrev pub Within : List Bytes → List Bytes → Type 0
Within xs ys = (m : Bytes) → member m xs ≡ true → member m ys ≡ true

-- `m` is a dependency of `n`, or a dependency of one, and so on.
pub data Needed (services : Services) (n : Bytes) : Bytes → Type 0 where
  direct : {m : Bytes} → member m (depends_on services n) ≡ true → Needed services n m
  further :
      {d m : Bytes}
      → Needed services n d
      → member m (depends_on services d) ≡ true
      → Needed services n m

-- What a call of `collectDeps` for the dependencies `targets` makes of the set `before`.
pub record Collected (services : Services) (targets before after : List Bytes) : Type 0 where
  pub grows : Within before after
  pub reached : Within targets after
  pub closed :
      (m : Bytes)
      → member m after ≡ true
      → (member m before ≡ true) ⊎ Within (depends_on services m) after
  pub needed :
      (n m : Bytes)
      → ((t : Bytes) → member t targets ≡ true → Needed services n t)
      → member m after ≡ true
      → (member m before ≡ true) ⊎ Needed services n m
  pub once : Once before → Once after

unprocessed_mono :
    (before after us : List Bytes)
    → Within before after
    → unprocessed after us ≤ unprocessed before us
unprocessed_mono before after [] h = omega arith
unprocessed_mono before after (u ∷ us) h = ground (arith, h u, unprocessed_mono before after us h)

unprocessed-cons :
    (before us : List Bytes) (n : Bytes)
    → member n us ≡ true
    → member n before ≡ false
    → unprocessed (n ∷ before) us < unprocessed before us
unprocessed-cons before [] n inside absent = absurd (ground arith)
unprocessed-cons before (u ∷ us) n inside absent =
    let fewer = unprocessed_mono before (n ∷ before) us (λ m h. ground (arith, h)) in
    elim (Bool-cases (str_eq u n)) [
      | inl same ↦
          (let e = str_eq_sound u n same in rw e (ground (arith, absent, str_eq_refl n, fewer)))
      | inr other ↦ ground (arith, other, unprocessed-cons before us n)
    ]

depends_on-Within :
    (services : Services) (n : Bytes) → Within (depends_on services n) (all_deps services)
unfolding depends_on all_deps lookup
depends_on-Within [] n m h = cc
depends_on-Within ((j, deps) ∷ services) n m h =
    rw (member-append m deps (all_deps services)) (elim (Bool-cases (str_eq j n)) [
      | inl same ↦ ground (arith, rw (same, depends_on, lookup) at h)
      | inr other ↦
          ground (arith, depends_on-Within services n m (rw (other, depends_on, lookup) at h))
    ])

Once-cons : (d : Bytes) (ns : List Bytes) → member d ns ≡ false → Once ns → Once (d ∷ ns)
Once-cons d ns new o m = elim (Bool-cases (str_eq d m)) [
  | inl same ↦
      (let absent : member m ns ≡ false = rw (str_eq_sound d m same) at new in
        ground (arith, same, absent, member-count m ns))
  | inr other ↦ ground (arith, other, o m)
]

nothing-Collected :
    (services : Services) (targets collected : List Bytes)
    → Within targets collected
    → Collected services targets collected collected
nothing-Collected services targets collected h = record {
  grows = λ m i. i;
  reached = h;
  closed = λ m i. inl i;
  needed = λ n m t i. inl i;
  once = λ o. o;
}

module _ (services : Services) (visit : Bytes → List Bytes → Option (List Bytes)) (fuel : ℕ)
    (visited : (d : Bytes) (collected : List Bytes)
      → unprocessed collected (all_deps services) < fuel
      → (after : List Bytes) × (visit d collected ≡ some after)
        × Collected services (depends_on services d) collected after) where
  -- A dependency that is new, and then the others.
  collect_new :
      (d : Bytes) (deps before middle after : List Bytes)
      → member d before ≡ false
      → Collected services (depends_on services d) (d ∷ before) middle
      → Collected services deps middle after
      → Collected services (d ∷ deps) before after
  collect_new d deps before middle after new first rest = record {
    grows = λ m h. rest.grows m (first.grows m (ground (arith, h)));
    reached = λ m h. elim (Bool-cases (str_eq d m)) [
      | inl same ↦ rest.grows m (first.grows m (ground (arith, same)))
      | inr other ↦ rest.reached m (rw other at h)
    ];
    closed = λ m h. elim (rest.closed m h) [
      | inr w ↦ inr w
      | inl i ↦ elim (first.closed m i) [
        | inr w ↦ inr (λ k o. rest.grows k (w k o))
        | inl j ↦ elim (Bool-cases (str_eq d m)) [
          | inl same ↦ inr (rw (← str_eq_sound d m same) (λ k o. rest.grows k (first.reached k o)))
          | inr other ↦ inl (rw other at j)
        ]
      ]
    ];
    needed = λ n m t h. elim (rest.needed n m (λ k o. t k (ground (arith, o))) h) [
      | inr w ↦ inr w
      | inl i ↦
          (let d_needed = t d (rw (str_eq_refl d) refl) in
            elim (first.needed n m (λ k o. Needed.further d_needed o) i) [
              | inr w ↦ inr w
              | inl j ↦ elim (Bool-cases (str_eq d m)) [
                | inl same ↦ inr (rw (← str_eq_sound d m same) d_needed)
                | inr other ↦ inl (rw other at j)
              ]
            ])
    ];
    once = λ o. rest.once (first.once (Once-cons d before new o));
  }

  collect_old :
      (d : Bytes) (deps before after : List Bytes)
      → member d before ≡ true
      → Collected services deps before after
      → Collected services (d ∷ deps) before after
  collect_old d deps before after old c = record {
    grows = c.grows;
    reached = λ m h. elim (Bool-cases (str_eq d m)) [
      | inl same ↦ c.grows m (rw (str_eq_sound d m same) at old)
      | inr other ↦ c.reached m (rw other at h)
    ];
    closed = c.closed;
    needed = λ n m t h. c.needed n m (λ k o. t k (ground (arith, o))) h;
    once = c.once;
  }

  collect_each-Collected :
      (deps collected : List Bytes)
      → Within deps (all_deps services)
      → unprocessed collected (all_deps services) ≤ fuel
      → (after : List Bytes) × (collect_each visit deps collected ≡ some after)
        × Collected services deps collected after
  unfolding collect_each
  collect_each-Collected [] collected within enough =
      (collected, refl, nothing-Collected services [] collected (λ m h. absurd (cc)))
  collect_each-Collected (d ∷ deps) collected within enough =
      let within' : Within deps (all_deps services) = λ m h. within m (ground (arith, h)) in
      elim (Bool-cases (member d collected)) [
        | inl old ↦
            (let (after, e, c) = collect_each-Collected deps collected within' enough in
              (after, rw (old, collect_each) e, collect_old d deps collected after old c))
        | inr new ↦
            (let fewer =
                unprocessed-cons collected (all_deps services) d
                  (within d (rw (str_eq_refl d) refl)) new in
              let (middle, e, first) = visited d (d ∷ collected) (omega (arith, fewer)) in
              let least = unprocessed_mono (d ∷ collected) middle (all_deps services) first.grows in
              let (after, e', rest) =
                collect_each-Collected deps middle within' (omega (arith, least, fewer)) in
              (
                after,
                rw (new, collect_each) (rw (e, collect_each) e'),
                collect_new d deps collected middle after new first rest,
              ))
      ]

pub collect_deps-Collected :
    (services : Services) (fuel : ℕ) (n : Bytes) (collected : List Bytes)
    → unprocessed collected (all_deps services) < fuel
    → (after : List Bytes) × (collect_deps fuel services n collected ≡ some after)
      × Collected services (depends_on services n) collected after
unfolding collect_deps depends_on
collect_deps-Collected services zero n collected enough = absurd (omega arith)
collect_deps-Collected services (suc fuel) n collected enough =
    elim (Option-cases (lookup n services)) [
      | inl missing ↦ (
        collected,
        rw (missing, collect_deps) refl,
        rw (missing, depends_on) (nothing-Collected services [] collected (λ m h. absurd (cc))),
      )
      | inr (deps, found) ↦
          (let (after, e, c) =
              collect_each-Collected services (collect_deps fuel services) fuel
                (collect_deps-Collected services fuel) deps collected
                (λ m h. depends_on-Within services n m (rw (found, depends_on) h))
                (omega (arith, enough)) in
            (after, rw (found, collect_deps) e, rw (found, depends_on) c))
    ]
