-- ===== src/Compose/Examples.antt =====
-- A web service behind a data base and a cache, and two services that wait for one another.
use dck.Base.{
  ℕ, ◌<◌, ◌≡◌, true, false, some, List, [], ◌∷◌, ◌++◌, ◌⊎◌, ◌↔◌, inl, inr, arith, refl,
  if◌then◌else◌, Bool-cases,
}
use dck.Base.Bytes.{Bytes, codes, str_eq, str_eq_iff}
use dck.Base.Assoc.{lookup}
use dck.Compose.{
  Services, member, sort_by_dependencies, selected_names, sort_names, sorted_part, kahn, take_first,
  release, release_one, sort_queue, sort_strings, insert_string, append_missing, initial, in_degree,
  edges, edges_from, edges_of, dependents, depends_on, collect_deps, collect_each, all_deps,
}
use dck.Compose.Counting.{count, Once}
use dck.Compose.Selection.{names_of, selected_names_iff}
use dck.Compose.Collect.{Needed}
use dck.Compose.Parts.{Before}
use dck.Compose.Order.{
  sort_by_dependencies_ends, sort_by_dependencies_order, sort_by_dependencies_cycles,
}

abbrev web_db_cache : Services
web_db_cache =
    (codes "web", codes "db" ∷ codes "cache" ∷ [])
    ∷ (codes "cache", codes "db" ∷ [])
    ∷ (codes "db", [])
    ∷ (codes "log", [])
    ∷ []

abbrev circle : Services
circle =
    (codes "b", codes "a" ∷ []) ∷ (codes "c", []) ∷ (codes "a", codes "b" ∷ codes "c" ∷ []) ∷ []

all_in_order :
    sort_by_dependencies web_db_cache []
    ≡ some (codes "db" ∷ codes "cache" ∷ codes "log" ∷ codes "web" ∷ [])
unfolding sort_by_dependencies selected_names sort_names sorted_part kahn take_first release
    release_one sort_queue sort_strings insert_string append_missing initial in_degree edges
    edges_from edges_of dependents depends_on lookup
all_in_order = refl

asked_in_order :
    sort_by_dependencies web_db_cache (codes "cache") ≡ some (codes "db" ∷ codes "cache" ∷ [])
unfolding sort_by_dependencies selected_names sort_names sorted_part kahn take_first release
    release_one sort_queue sort_strings insert_string append_missing initial in_degree edges
    edges_from edges_of dependents depends_on lookup collect_deps collect_each all_deps
asked_in_order = refl

circle_in_order : sort_by_dependencies circle [] ≡ some (codes "c" ∷ codes "b" ∷ codes "a" ∷ [])
unfolding sort_by_dependencies selected_names sort_names sorted_part kahn take_first release
    release_one sort_queue sort_strings insert_string append_missing initial in_degree edges
    edges_from edges_of dependents depends_on lookup
circle_in_order = refl

-- Texts that differ are not both equal to a third.
web_db_cache-Once : Once (names_of web_db_cache)
web_db_cache-Once m = ground (
  arith,
  str_eq_iff (codes "web") m,
  str_eq_iff (codes "cache") m,
  str_eq_iff (codes "db") m,
  str_eq_iff (codes "log") m,
)

circle-Once : Once (names_of circle)
circle-Once m =
    ground (arith, str_eq_iff (codes "b") m, str_eq_iff (codes "c") m, str_eq_iff (codes "a") m)

abbrev rank : Bytes → ℕ
rank n = if str_eq n (codes "web") then 2 else if str_eq n (codes "cache") then 1 else 0

needs_of_web :
    (n d : Bytes)
    → str_eq (codes "web") n ≡ true
    → member d (depends_on web_db_cache n) ≡ true
    → rank d < rank n
unfolding depends_on lookup
needs_of_web n d w h =
    let e = (str_eq_iff (codes "web") n).0 w in
    rw (← e)
      (ground (arith, rw (← e) at h, str_eq_iff (codes "db") d, str_eq_iff (codes "cache") d))

needs_of_cache :
    (n d : Bytes)
    → str_eq (codes "cache") n ≡ true
    → member d (depends_on web_db_cache n) ≡ true
    → rank d < rank n
unfolding depends_on lookup
needs_of_cache n d w h =
    let e = (str_eq_iff (codes "cache") n).0 w in
    rw (← e) (ground (arith, rw (← e) at h, str_eq_iff (codes "db") d))

needs_nothing :
    (n d : Bytes)
    → str_eq (codes "web") n ≡ false
    → str_eq (codes "cache") n ≡ false
    → member d (depends_on web_db_cache n) ≡ true
    → rank d < rank n
unfolding depends_on lookup
needs_nothing n d w c h = elim (Bool-cases (str_eq (codes "db") n)) [
  | inl db ↦ absurd (
      cc (
        rw (db, depends_on, lookup) at
          (rw (c, depends_on, lookup) at (rw (w, depends_on, lookup) at h))))
  | inr not_db ↦ elim (Bool-cases (str_eq (codes "log") n)) [
    | inl log ↦ absurd (
        cc (
          rw (log, depends_on, lookup) at
            (rw (not_db, depends_on, lookup) at
              (rw (c, depends_on, lookup) at (rw (w, depends_on, lookup) at h)))))
    | inr not_log ↦ absurd (
        cc (
          rw (not_log, depends_on, lookup) at
            (rw (not_db, depends_on, lookup) at
              (rw (c, depends_on, lookup) at (rw (w, depends_on, lookup) at h)))))
  ]
]

rank_falls : (n d : Bytes) → member d (depends_on web_db_cache n) ≡ true → rank d < rank n
rank_falls n d h = elim (Bool-cases (str_eq (codes "web") n)) [
  | inl web ↦ needs_of_web n d web h
  | inr w ↦ elim (Bool-cases (str_eq (codes "cache") n)) [
    | inl cache ↦ needs_of_cache n d cache h
    | inr c ↦ needs_nothing n d w c h
  ]
]

sort_by_dependencies_ends_example :
    (names : List Bytes) × (r : List Bytes) × (selected_names circle [] ≡ some names)
    × (sort_by_dependencies circle [] ≡ some r)
    × ((m : Bytes) → count m r ≡ (if member m names then 1 else 0))
sort_by_dependencies_ends_example = sort_by_dependencies_ends circle [] circle-Once

sort_by_dependencies_order_example :
    (r : List Bytes) × (sort_by_dependencies web_db_cache [] ≡ some r)
    × ((n d : Bytes)
        → member n r ≡ true
        → member d r ≡ true
        → member d (depends_on web_db_cache n) ≡ true
        → Before d n r)
sort_by_dependencies_order_example =
    sort_by_dependencies_order web_db_cache [] rank web_db_cache-Once rank_falls

sort_by_dependencies_cycles_example :
    (s : List Bytes) × (rest : List Bytes) × (sort_by_dependencies circle [] ≡ some (s ++ rest))
    × ((n d : Bytes)
        → member n s ≡ true
        → member d (s ++ rest) ≡ true
        → member d (depends_on circle n) ≡ true
        → Before d n (s ++ rest))
    × ((n : Bytes)
        → member n rest ≡ true
        → (d : Bytes) × (member d (depends_on circle n) ≡ true) × (member d rest ≡ true))
sort_by_dependencies_cycles_example = sort_by_dependencies_cycles circle [] circle-Once

selected_names_iff_example :
    (names : List Bytes) × (selected_names web_db_cache (codes "cache") ≡ some names)
    × Once names
    × ((m : Bytes)
        → (member m names ≡ true) ↔ ((m ≡ codes "cache") ⊎ Needed web_db_cache (codes "cache") m))
selected_names_iff_example =
    selected_names_iff web_db_cache (codes "cache") refl web_db_cache-Once refl
