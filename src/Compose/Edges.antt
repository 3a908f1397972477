-- ===== src/Compose/Edges.antt =====
-- The pairs of the loop that fills `deps` and `inDegree`: one for each dependency between selected
-- services.
use dck.Base.{
  ◌≡◌, ◌≢◌, Bool, true, false, ◌&&◌, not, List, [], ◌∷◌, any, arith, refl, Bool-cases, inl, inr,
  ◌∙◌, All-append, any-append,
}
use dck.Base.Bytes.{Bytes, str_eq, str_eq_iff, str_eq_refl, str_eq_sound}
use dck.Compose.{Services, member, depends_on, edges_of, edges_from, edges}
use dck.Compose.Loop.{pending, EdgesInside}

-- `d` is a dependency of `m`, in the pairs.
abbrev pub has_edge : Bytes → Bytes → List (Bytes × Bytes) → Bool
has_edge d m es = any (λ e. str_eq e.0 d && str_eq e.1 m) es

edges_of_inside :
    (names : List Bytes) (n : Bytes) (deps : List Bytes)
    → member n names ≡ true
    → EdgesInside names (edges_of names n deps)
unfolding edges_of
edges_of_inside names n [] h = tt
edges_of_inside names n (dep ∷ deps) h = elim (Bool-cases (member dep names)) [
  | inl selected ↦ rw selected ((selected, h), edges_of_inside names n deps h)
  | inr other ↦ rw other (edges_of_inside names n deps h)
]

edges_from_inside :
    (services : Services) (names ns : List Bytes)
    → ((m : Bytes) → member m ns ≡ true → member m names ≡ true)
    → EdgesInside names (edges_from services names ns)
unfolding edges_from
edges_from_inside services names [] within = tt
edges_from_inside services names (n ∷ ns) within =
    All-append _ (edges_of names n (depends_on services n)) (edges_from services names ns)
      (edges_of_inside names n (depends_on services n) (within n (rw (str_eq_refl n) refl)))
      (edges_from_inside services names ns (λ m h. within m (ground (arith, h))))

pub edges_inside :
    (services : Services) (names : List Bytes) → EdgesInside names (edges services names)
unfolding edges
edges_inside services names = edges_from_inside services names names (λ m h. h)

has_edge-edges_of :
    (names : List Bytes) (n d m : Bytes) (deps : List Bytes)
    → has_edge d m (edges_of names n deps) ≡ (str_eq n m && (member d names && member d deps))
unfolding edges_of
has_edge-edges_of names n d m [] = ground arith
has_edge-edges_of names n d m (dep ∷ deps) = elim (Bool-cases (str_eq dep d)) [
  | inl same ↦
      (let e = str_eq_sound dep d same in
        rw e (ground (arith, str_eq_refl d, has_edge-edges_of names n d m deps)))
  | inr other ↦ ground (arith, other, has_edge-edges_of names n d m deps)
]

has_edge-edges_from :
    (services : Services) (names ns : List Bytes) (d m : Bytes)
    → has_edge d m (edges_from services names ns)
      ≡ (member m ns && (member d names && member d (depends_on services m)))
unfolding edges_from
has_edge-edges_from services names [] d m = refl
has_edge-edges_from services names (n ∷ ns) d m =
    any-append (λ e. str_eq e.0 d && str_eq e.1 m) (edges_of names n (depends_on services n))
      (edges_from services names ns)
    ∙ elim (Bool-cases (str_eq n m)) [
      | inl same ↦
          (let e = str_eq_sound n m same in
            rw e (
              ground (
                arith,
                str_eq_refl m,
                has_edge-edges_of names m d m (depends_on services m),
                has_edge-edges_from services names ns d m,
              )))
      | inr other ↦ ground (
        arith,
        other,
        has_edge-edges_of names n d m (depends_on services n),
        has_edge-edges_from services names ns d m,
      )
    ]

pub has_edge-edges :
    (services : Services) (names : List Bytes) (d m : Bytes)
    → has_edge d m (edges services names)
      ≡ (member m names && (member d names && member d (depends_on services m)))
unfolding edges
has_edge-edges services names d m = has_edge-edges_from services names names d m

pub pending_zero :
    (es : List (Bytes × Bytes)) (done : List Bytes) (d m : Bytes)
    → pending es done m ≡ 0
    → has_edge d m es ≡ true
    → member d done ≡ true
pending_zero [] done d m free edge = cc
pending_zero (e ∷ es) done d m free edge = elim (Bool-cases (str_eq e.0 d && str_eq e.1 m)) [
  | inl this ↦
      (let same : e.0 ≡ d = ground (arith, this, str_eq_iff e.0 d) in
        rw (← same) (ground (arith, this, free)))
  | inr other ↦ pending_zero es done d m (ground (arith, free)) (rw other at edge)
]

pub find_pending :
    (es : List (Bytes × Bytes)) (done : List Bytes) (m : Bytes)
    → pending es done m ≢ 0
    → (d : Bytes) × (has_edge d m es ≡ true) × (member d done ≡ false)
find_pending [] done m waits = absurd (waits refl)
find_pending (e ∷ es) done m waits = elim (Bool-cases (str_eq e.1 m && not (member e.0 done))) [
  | inl this ↦ (e.0, ground (arith, this, str_eq_refl e.0), ground (arith, this))
  | inr other ↦
      (let (d, edge, open_) = find_pending es done m (rw other at waits) in
        (d, ground (arith, edge), open_))
]
