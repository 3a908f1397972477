-- ===== src/Compose/Order.antt =====
-- The order that `sortByDependencies` gives.
use dck.Base.{
  ℕ, suc, ◌<◌, ◌≡◌, true, List, [], ◌++◌, some, if◌then◌else◌, arith, refl, Bool-cases, inl, inr,
}
use dck.Base.Bytes.{Bytes, str_eq}
use dck.Compose.{Services, member, depends_on, selected_names, sort_by_dependencies}
use dck.Compose.Counting.{count, member-count, member-append, Once}
use dck.Compose.Selection.{names_of, selected_for}
use dck.Compose.Parts.{Before, parts, sorted-Before, rest_waits, ranked_taken}

selected :
    (services : Services) (filter : Bytes)
    → Once (names_of services)
    → (names : List Bytes) × (selected_names services filter ≡ some names) × Once names
unfolding selected_names
selected services filter once = elim (Bool-cases (str_eq filter [])) [
  | inl all ↦ (names_of services, rw (all, selected_names) refl, once)
  | inr given ↦
      (let (names, e, single, c) = selected_for services filter given once in (names, e, single))
]

-- If no service stands twice in the file, the sort ends, whatever the dependencies are, cycles included:
-- a round of its loop for each selected service is enough. Its result holds each selected service once
-- and nothing else.
pub sort_by_dependencies_ends :
    (services : Services) (filter : Bytes)
    → Once (names_of services)
    → (names : List Bytes) × (r : List Bytes) × (selected_names services filter ≡ some names)
      × (sort_by_dependencies services filter ≡ some r)
      × ((m : Bytes) → count m r ≡ (if member m names then 1 else 0))
unfolding sort_by_dependencies
sort_by_dependencies_ends services filter once =
    let (names, e, single) = selected services filter once in
    let (s, rest, p) = parts services names single in
    (names, s ++ rest, e, rw (e, sort_by_dependencies) p.result, p.once)

member_of_once :
    (m : Bytes) (names r : List Bytes)
    → count m r ≡ (if member m names then 1 else 0)
    → member m r ≡ true
    → member m names ≡ true
member_of_once m names r once h = ground (arith, member-count m r)

-- If no service stands twice in the file and the dependencies have no cycle, so that a rank falls along
-- them, the sort gives a result in which every service stands behind each of its dependencies that is
-- started with it.
pub sort_by_dependencies_order :
    (services : Services) (filter : Bytes) (rank : Bytes → ℕ)
    → Once (names_of services)
    → ((n d : Bytes) → member d (depends_on services n) ≡ true → rank d < rank n)
    → (r : List Bytes) × (sort_by_dependencies services filter ≡ some r)
      × ((n d : Bytes)
          → member n r ≡ true
          → member d r ≡ true
          → member d (depends_on services n) ≡ true
          → Before d n r)
unfolding sort_by_dependencies
sort_by_dependencies_order services filter rank once falls =
    let (names, e, single) = selected services filter once in
    let (s, rest, p) = parts services names single in
    (
      s ++ rest,
      rw (e, sort_by_dependencies) p.result,
      λ n d in_n in_d dep.
          let n_selected = member_of_once n names (s ++ rest) (p.once n) in_n in
          let d_selected = member_of_once d names (s ++ rest) (p.once d) in_d in
          let taken =
            ranked_taken services names s rest p rank (λ m k w. falls m k (ground (arith, w)))
              (suc (rank n)) n (omega arith) n_selected in
          sorted-Before services names s rest p n d taken
            (ground (arith, n_selected, d_selected, dep)),
    )

-- With cycles, the result has two parts: a service of the first stands behind each of its dependencies
-- that is started with it, and each service of the second depends on a service of the second, which may be
-- itself.
pub sort_by_dependencies_cycles :
    (services : Services) (filter : Bytes)
    → Once (names_of services)
    → (s : List Bytes) × (rest : List Bytes) × (sort_by_dependencies services filter
        ≡ some (s ++ rest))
      × ((n d : Bytes)
          → member n s ≡ true
          → member d (s ++ rest) ≡ true
          → member d (depends_on services n) ≡ true
          → Before d n (s ++ rest))
      × ((n : Bytes)
          → member n rest ≡ true
          → (d : Bytes) × (member d (depends_on services n) ≡ true) × (member d rest ≡ true))
unfolding sort_by_dependencies
sort_by_dependencies_cycles services filter once =
    let (names, e, single) = selected services filter once in
    let (s, rest, p) = parts services names single in
    (
      s,
      rest,
      rw (e, sort_by_dependencies) p.result,
      λ n d in_n in_d dep.
          let n_selected =
            member_of_once n names (s ++ rest) (p.once n)
              (ground (arith, in_n, member-append n s rest)) in
          let d_selected = member_of_once d names (s ++ rest) (p.once d) in_d in
          sorted-Before services names s rest p n d in_n
            (ground (arith, n_selected, d_selected, dep)),
      λ n in_rest.
          let (d, w, out) = rest_waits services names s rest p n in_rest in
          (d, ground (arith, w), out),
    )
