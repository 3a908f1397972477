-- ===== src/Compose/Selection.antt =====
-- The services that are started when one of them is asked for.
use dck.Base.{
  suc, ◌≡◌, true, false, not, List, [], ◌⊎◌, some, keep, length, length-keep-le, map, arith, inl,
  inr, ◌↔◌,
}
use dck.Base.Bytes.{Bytes, str_eq, str_eq_iff, str_eq_refl}
use dck.Compose.{Services, member, depends_on, all_deps, selected_names}
use dck.Compose.Counting.{member-count, Once, count-keep}
use dck.Compose.Collect.{Needed, Collected, collect_deps-Collected}

abbrev pub names_of : Services → List Bytes
names_of services = map (λ e. e.0) services

pub selected_for :
    (services : Services) (filter : Bytes)
    → str_eq filter [] ≡ false
    → Once (names_of services)
    → (names : List Bytes) × (selected_names services filter ≡ some names)
      × Once names
      × Collected services
          (depends_on services filter)
          (keep (λ n. str_eq n filter) (names_of services))
          names
unfolding selected_names
selected_for services filter given once =
    let own = keep (λ n. str_eq n filter) (names_of services) in
    let (names, e, c) =
      collect_deps-Collected services (suc (length (all_deps services))) filter own
        (omega (arith, length-keep-le (λ m. not (member m own)) (all_deps services))) in
    (
      names,
      rw (given, selected_names) e,
      c.once (λ m. ground (arith, count-keep m (λ n. str_eq n filter) (names_of services), once m)),
      c,
    )

own_name :
    (services : Services) (filter m : Bytes)
    → member m (keep (λ n. str_eq n filter) (names_of services)) ≡ true
    → m ≡ filter
own_name services filter m h = ground (
  arith,
  h,
  str_eq_iff m filter,
  count-keep m (λ n. str_eq n filter) (names_of services),
  member-count m (keep (λ n. str_eq n filter) (names_of services)),
)

own_filter :
    (services : Services) (filter : Bytes)
    → member filter (names_of services) ≡ true
    → member filter (keep (λ n. str_eq n filter) (names_of services)) ≡ true
own_filter services filter h = ground (
  arith,
  h,
  str_eq_refl filter,
  count-keep filter (λ n. str_eq n filter) (names_of services),
  member-count filter (keep (λ n. str_eq n filter) (names_of services)),
  member-count filter (names_of services),
)

Needed-member :
    (services : Services) (filter m : Bytes) (own names : List Bytes)
    → ((k : Bytes) → member k own ≡ true → k ≡ filter)
    → Collected services (depends_on services filter) own names
    → Needed services filter m
    → member m names ≡ true
Needed-member services filter m own names only c (Needed.direct h) = c.reached m h
Needed-member services filter m own names only c (Needed.further {d} r h) =
    elim (c.closed d (Needed-member services filter d own names only c r)) [
      | inl i ↦ c.reached m (rw (only d i) at h)
      | inr w ↦ w m h
    ]

-- When a service of the file is asked for by its name, `sortByDependencies` selects that service and the
-- services that it depends on, directly or through others, each once, and no other; the calls of
-- `collectDeps` nest no deeper than there are dependencies in the file, cycles included.
pub selected_names_iff :
    (services : Services) (filter : Bytes)
    → str_eq filter [] ≡ false
    → Once (names_of services)
    → member filter (names_of services) ≡ true
    → (names : List Bytes) × (selected_names services filter ≡ some names)
      × Once names
      × ((m : Bytes) → (member m names ≡ true) ↔ ((m ≡ filter) ⊎ Needed services filter m))
selected_names_iff services filter given once there =
    let (names, e, single, c) = selected_for services filter given once in
    let own = keep (λ n. str_eq n filter) (names_of services) in
    let only = own_name services filter in
    (
      names,
      e,
      single,
      λ m. (
        λ h. elim (c.needed filter m (λ t o. Needed.direct o) h) [
          | inl i ↦ inl (only m i)
          | inr w ↦ inr w
        ],
        λ h. elim h [
          | inl same ↦ rw same (c.grows filter (own_filter services filter there))
          | inr w ↦ Needed-member services filter m own names only c w
        ],
      ),
    )
