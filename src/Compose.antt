-- ===== src/Compose.antt =====
-- cmd/up.go: the order in which the services of a compose file are started.
pub mod Counting
pub mod Selection
pub mod Loop
pub mod Ends
pub mod Collect
pub mod Parts
pub mod Edges
pub mod Order
mod Examples
use dck.Base.{
  ℕ, zero, suc, Bool, true, false, ◌&&◌, ◌||◌, not, ◌==◌, ltb, Option, none, some, List, [], ◌∷◌,
  ◌++◌, if◌then◌else◌, any, keep, length, map,
}
use dck.Base.Int.{ℤ, pos, negsuc}
use dck.Base.Bytes.{Bytes, str_eq}
use dck.Base.Assoc.{lookup}

-- The services of the file by name, each with the keys of its map `DependsOn`. Every map stands in
-- the order in which it is run through.
abbrev pub Services : Type 0
Services = List (Bytes × List Bytes)

-- names[n], for a set of names.
abbrev pub member : Bytes → List Bytes → Bool
member n names = any (λ m. str_eq m n) names

-- s <= t
abbrev pub str_leb : Bytes → Bytes → Bool
str_leb [] t = true
str_leb (x ∷ s) [] = false
str_leb (x ∷ s) (y ∷ t) = ltb x y || (x == y && str_leb s t)

-- sort.Strings
unfoldable pub insert_string : Bytes → List Bytes → List Bytes
insert_string s [] = s ∷ []
insert_string s (t ∷ ts) = if str_leb s t then s ∷ (t ∷ ts) else t ∷ insert_string s ts

unfoldable pub sort_strings : List Bytes → List Bytes
sort_strings [] = []
sort_strings (s ∷ ss) = insert_string s (sort_strings ss)

unfoldable pub depends_on : Services → Bytes → List Bytes
depends_on services n = elim (lookup n services) [ none ↦ [] | some deps ↦ deps ]

-- The loop of `collectDeps`, where `visit` is its call of itself.
unfoldable pub collect_each :
    (Bytes → List Bytes → Option (List Bytes)) → List Bytes → List Bytes → Option (List Bytes)
collect_each visit [] collected = some collected
collect_each visit (dep ∷ deps) collected = elim (member dep collected) [
  | true ↦ collect_each visit deps collected
  | false ↦ elim (visit dep (dep ∷ collected)) [
    | none ↦ none
    | some collected' ↦ collect_each visit deps collected'
  ]
]

-- `none` means that the fuel, which bounds the depth of the calls, has run out.
unfoldable pub collect_deps : ℕ → Services → Bytes → List Bytes → Option (List Bytes)
unfolding collect_each
collect_deps zero services name collected = none
collect_deps (suc fuel) services name collected = elim (lookup name services) [
  | none ↦ some collected
  | some deps ↦ collect_each (collect_deps fuel services) deps collected
]

unfoldable pub all_deps : Services → List Bytes
all_deps [] = []
all_deps ((n, deps) ∷ services) = deps ++ all_deps services

-- The set `names`: all services, or the one that is asked for with all that it depends on.
unfoldable pub selected_names : Services → Bytes → Option (List Bytes)
unfolding collect_deps all_deps
selected_names services filter =
    if str_eq filter []
    then some (map (λ e. e.0) services)
    else collect_deps (suc (length (all_deps services))) services filter
        (keep (λ n. str_eq n filter) (map (λ e. e.0) services))

-- One pair of a dependency and its dependent for each round of the loop that fills `deps` and
-- `inDegree`.
unfoldable pub edges_of : List Bytes → Bytes → List Bytes → List (Bytes × Bytes)
edges_of names n [] = []
edges_of names n (dep ∷ deps) =
    let rest = edges_of names n deps in if member dep names then (dep, n) ∷ rest else rest

unfoldable pub edges_from : Services → List Bytes → List Bytes → List (Bytes × Bytes)
unfolding edges_of depends_on
edges_from services names [] = []
edges_from services names (n ∷ ns) =
    edges_of names n (depends_on services n) ++ edges_from services names ns

unfoldable pub edges : Services → List Bytes → List (Bytes × Bytes)
unfolding edges_from
edges services names = edges_from services names names

-- deps[dep]
unfoldable pub dependents : List (Bytes × Bytes) → Bytes → List Bytes
dependents es dep = map (λ e. e.1) (keep (λ e. str_eq e.0 dep) es)

-- inDegree[n], before the first name is taken from the queue.
unfoldable pub in_degree : List (Bytes × Bytes) → Bytes → ℤ
in_degree es n = pos (length (keep (λ e. str_eq e.1 n) es))

-- x--
abbrev pub decrement : ℤ → ℤ
decrement (pos zero) = negsuc 0
decrement (pos (suc k)) = pos k
decrement (negsuc k) = negsuc (suc k)

abbrev pub is_zero : ℤ → Bool
is_zero (pos k) = k == 0
is_zero (negsuc k) = false

-- The variables of the main loop.
pub record Kahn : Type 0 where
  pub degree : Bytes → ℤ
  pub queue : List Bytes
  pub result : List Bytes

unfoldable pub release_one : Bytes → Kahn → Kahn
release_one m k =
    let degree' : Bytes → ℤ = λ n. if str_eq m n then decrement (k.degree n) else k.degree n in
    record k {
      degree = degree';
      queue = if is_zero (degree' m) then k.queue ++ m ∷ [] else k.queue;
    }

unfoldable pub release : List Bytes → Kahn → Kahn
unfolding release_one
release [] k = k
release (m ∷ ms) k = release ms (release_one m k)

unfoldable pub sort_queue : Kahn → Kahn
unfolding sort_strings
sort_queue k = record k { queue = sort_strings k.queue }

-- One round, at the queue `n ∷ queue`.
unfoldable pub take_first : List (Bytes × Bytes) → Bytes → List Bytes → Kahn → Kahn
unfolding release sort_queue dependents
take_first es n queue k =
    sort_queue (release (dependents es n) (record k { queue = queue; result = k.result ++ n ∷ [] }))

-- The main loop: `none` means that the fuel has run out.
unfoldable pub kahn : ℕ → List (Bytes × Bytes) → Kahn → Option (List Bytes)
unfolding take_first
kahn zero es k = none
kahn (suc fuel) es k = elim (k.queue) [
  | [] ↦ some k.result
  | n ∷ queue ↦ kahn fuel es (take_first es n queue k)
]

-- The range over the map of names takes any order; here they come in the order in which they were
-- selected.
unfoldable pub append_missing : List Bytes → List Bytes → List Bytes
append_missing [] result = result
append_missing (n ∷ names) result =
    append_missing names (if member n result then result else result ++ n ∷ [])

unfoldable pub initial : List (Bytes × Bytes) → List Bytes → Kahn
unfolding in_degree sort_strings
initial es names = record {
  degree = in_degree es;
  queue = sort_strings (keep (λ n. is_zero (in_degree es n)) names);
  result = [];
}

-- The names that the loop takes from the queue.
unfoldable pub sorted_part : Services → List Bytes → Option (List Bytes)
unfolding kahn initial edges
sorted_part services names =
    let es = edges services names in kahn (suc (length names)) es (initial es names)

unfoldable pub sort_names : Services → List Bytes → Option (List Bytes)
unfolding sorted_part append_missing
sort_names services names = elim (sorted_part services names) [
  | none ↦ none
  | some result ↦ some (append_missing names result)
]

unfoldable pub sort_by_dependencies : Services → Bytes → Option (List Bytes)
unfolding selected_names sort_names
sort_by_dependencies services filter = elim (selected_names services filter) [
  | none ↦ none
  | some names ↦ sort_names services names
]
