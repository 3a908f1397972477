-- ===== src/Orchestrator/Scheduler/Target.antt =====
-- The node that `ScheduleReplica` chooses.
use dck.Base.{
  ◌≡◌, ◌≢◌, Bool, true, false, ◌&&◌, not, Option, none, some, List, [], ◌∷◌, keep, map, subst,
  arith, refl, Bool-cases, inl, inr, ap, sym, ◌∙◌, All, All-append, All-mono,
}
use dck.Base.Int.{ltb_ℤ, ◌≤ℤ◌}
use dck.Base.Bytes.{Bytes, str_eq, str_eq_sound}
use dck.Base.Assoc.{lookup}
use dck.Orchestrator.Types.{Node, ClusterConfig}
use dck.Orchestrator.Scheduler.{
  insert_by, sort_by, is_active, nodes_of, local_node, local_candidate, candidates, first_of,
  target,
}
use dck.Orchestrator.Scheduler.Sorting.{
  All-insert_by, All-sort_by, sort_by-All, append-All, keep-All, All-keep, lookup-All,
}

-- More memory first.
abbrev more_memory : Node → Node → Bool
more_memory a b = ltb_ℤ b.mem_avail a.mem_avail

abbrev NoMoreThan : Node → Node → Type 0
NoMoreThan t n = n.mem_avail ≤ℤ t.mem_avail

-- The first node of a list has the most memory of it.
abbrev MostFirst : List Node → Type 0
MostFirst [] = Unit
MostFirst (t ∷ ns) = All (NoMoreThan t) ns

trans_no_more : (a b c : Node) → NoMoreThan a b → NoMoreThan b c → NoMoreThan a c
trans_no_more a b c h k = omega arith

insert_by-MostFirst :
    (x : Node) (ns : List Node) → MostFirst ns → MostFirst (insert_by more_memory x ns)
unfolding insert_by
insert_by-MostFirst x [] h = tt
insert_by-MostFirst x (y ∷ ys) h = elim (Bool-cases (more_memory y x)) [
  | inl before ↦
      rw before (All-insert_by (NoMoreThan y) more_memory x ys (ground (arith, before)) h)
  | inr behind ↦
      (let least : NoMoreThan x y = ground (arith, behind) in
        rw behind (least, All-mono (λ n k. trans_no_more x y n least k) ys h))
]

sort_by-MostFirst : (ns : List Node) → MostFirst (sort_by more_memory ns)
unfolding sort_by
sort_by-MostFirst [] = tt
sort_by-MostFirst (x ∷ ns) = insert_by-MostFirst x (sort_by more_memory ns) (sort_by-MostFirst ns)

abbrev Active : Node → Type 0
Active n = is_active n.node_state ≡ true

-- The key of a node is its id.
abbrev pub Keyed : ClusterConfig → Type 0
Keyed conf = (id : Bytes) (n : Node) → lookup id conf.nodes ≡ some n → n.id ≡ id

local-All :
    (P : Node → Type 0) (o : Option Node) (n : Node)
    → All P (local_candidate o)
    → o ≡ some n
    → Active n
    → P n
local-All P none n h e a = absurd (cc)
local-All P (some k) n h e a =
    let same : k ≡ n = cc in
    let up : is_active k.node_state ≡ true = ap (λ x. is_active x.node_state) same ∙ a in
    subst P same (rw up at h).0

module _ (conf : ClusterConfig) (own : str_eq conf.node_id [] ≡ false) (keyed : Keyed conf) where
  -- Every active node is a candidate.
  candidates-All :
      (P : Node → Type 0) (id : Bytes) (n : Node)
      → All P (candidates conf)
      → lookup id conf.nodes ≡ some n
      → Active n
      → P n
  unfolding candidates nodes_of
  candidates-All P id n h found a =
      let (others, local) =
        append-All P
          (keep (λ n. is_active n.node_state && not (str_eq n.id conf.node_id)) (nodes_of conf))
          (local_candidate (local_node conf)) h in
      elim (Bool-cases (str_eq id conf.node_id)) [
        | inl same ↦
            (let e = str_eq_sound id conf.node_id same in
              local-All P (local_node conf) n local (unfold local_node in rw own (rw (← e) found))
                a)
        | inr other ↦
            lookup-All
              (λ x. (is_active x.node_state && not (str_eq x.id conf.node_id)) ≡ true → P x)
              conf.nodes id n
              (sort_by-All _ _ (map (λ e. e.1) conf.nodes) (keep-All P _ (nodes_of conf) others))
              found (rw (keyed id n found) (rw a (rw other refl)))
      ]

  no_candidate :
      (id : Bytes) (n : Node)
      → candidates conf ≡ []
      → lookup id conf.nodes ≡ some n
      → is_active n.node_state ≡ false
  no_candidate id n none_left found = elim (Bool-cases (is_active n.node_state)) [
    | inr down ↦ down
    | inl up ↦
        absurd (candidates-All (λ k. ⊥) id n (subst (All (λ k. ⊥)) (sym none_left) tt) found up)
  ]

-- What the choice promises.
abbrev pub BestTarget : ClusterConfig → Option Node → Type 0
BestTarget conf none =
    (id : Bytes) (n : Node) → lookup id conf.nodes ≡ some n → is_active n.node_state ≡ false
BestTarget conf (some t) =
    (is_active t.node_state ≡ true)
    × ((id : Bytes) (n : Node)
        → lookup id conf.nodes ≡ some n
        → is_active n.node_state ≡ true
        → n.mem_avail ≤ℤ t.mem_avail)

local-Active : (o : Option Node) → All Active (local_candidate o)
local-Active none = tt
local-Active (some n) = elim (Bool-cases (is_active n.node_state)) [
  | inl up ↦ rw up (up, tt)
  | inr down ↦ rw down tt
]

candidates-Active : (conf : ClusterConfig) → All Active (candidates conf)
unfolding candidates
candidates-Active conf =
    All-append Active _ (local_candidate (local_node conf))
      (All-keep Active (λ n. is_active n.node_state && not (str_eq n.id conf.node_id))
        (nodes_of conf) (λ n h. ground (arith, h)))
      (local-Active (local_node conf))

insert_by-nonempty : (x : Node) (ns : List Node) → insert_by more_memory x ns ≢ []
unfolding insert_by
insert_by-nonempty x [] h = cc
insert_by-nonempty x (y ∷ ns) h = ground (arith, h)

sort_by-empty : (ns : List Node) → sort_by more_memory ns ≡ [] → ns ≡ []
unfolding sort_by
sort_by-empty [] h = refl
sort_by-empty (x ∷ ns) h = absurd (insert_by-nonempty x (sort_by more_memory ns) h)

first_lem :
    (conf : ClusterConfig) (ns : List Node)
    → str_eq conf.node_id [] ≡ false
    → Keyed conf
    → sort_by more_memory (candidates conf) ≡ ns
    → BestTarget conf (first_of ns)
unfolding first_of
first_lem conf [] own keyed e =
    λ id n. no_candidate conf own keyed id n (sort_by-empty (candidates conf) e)
first_lem conf (t ∷ ns) own keyed e =
    let most : All (NoMoreThan t) ns = subst MostFirst e (sort_by-MostFirst (candidates conf)) in
    let up : All Active (t ∷ ns) =
      subst (All Active) e
        (All-sort_by Active more_memory (candidates conf) (candidates-Active conf)) in
    let every : All (NoMoreThan t) (candidates conf) =
      sort_by-All (NoMoreThan t) more_memory (candidates conf)
        (subst (All (NoMoreThan t)) (sym e) (omega arith, most)) in
    (up.0, λ id n. candidates-All conf own keyed (NoMoreThan t) id n every)

-- Of a node that is a member of a cluster whose table has each node under its id, `ScheduleReplica`
-- chooses for a replica an active node that has at least as much memory available as every active node of
-- the table, its own included, and it finds none only if no node of the table is active.
pub target-BestTarget :
    (conf : ClusterConfig)
    → str_eq conf.node_id [] ≡ false
    → Keyed conf
    → BestTarget conf (target conf)
unfolding target
target-BestTarget conf own keyed =
    first_lem conf (sort_by more_memory (candidates conf)) own keyed refl
