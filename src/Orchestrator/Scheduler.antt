-- ===== src/Orchestrator/Scheduler.antt =====
-- internal/orchestrator/scheduler.go: the node for a replica, and what starting and removing a replica
-- does. How the calls to images, containers and other nodes end is an argument.
pub mod Sorting
pub mod Target
use dck.Base.{
  ℕ, Bool, true, false, ◌&&◌, not, Option, none, some, List, [], ◌∷◌, ◌++◌, if◌then◌else◌, keep,
  map, ltb,
}
use dck.Base.Int.{ltb_ℤ}
use dck.Base.Bytes.{Bytes, codes, str_eq}
use dck.Base.Assoc.{lookup}
use dck.Orchestrator.Types.{
  Node, NodeState, active, inactive, left, ServiceReplica, ClusterConfig, Store, File, missing,
  unreadable, holds, Fleet, Running,
}

-- sort.Slice. Where two elements are equal in order, the first comes first.
unfoldable pub insert_by {ℓ} : {A : Type ℓ} → (A → A → Bool) → A → List A → List A
insert_by less x [] = x ∷ []
insert_by less x (y ∷ ys) = if less y x then y ∷ insert_by less x ys else x ∷ (y ∷ ys)

unfoldable pub sort_by {ℓ} : {A : Type ℓ} → (A → A → Bool) → List A → List A
unfolding insert_by
sort_by less [] = []
sort_by less (x ∷ xs) = insert_by less x (sort_by less xs)

-- The whole process-wide configuration is replaced, its services included. `none` is an error.
unfoldable pub read_cluster : File ClusterConfig → Store → Option Store
read_cluster missing st = none
read_cluster unreadable st = none
read_cluster (holds cfg) st = some (record st { conf = cfg })

unfoldable pub load_cluster_config : Store → Option Store
unfolding read_cluster
load_cluster_config st = read_cluster st.cluster_file st

abbrev pub is_active : NodeState → Bool
is_active active = true
is_active inactive = false
is_active left = false

-- The nodes of `ListNodes`, from the configuration that it has loaded.
unfoldable pub nodes_of : ClusterConfig → List Node
unfolding sort_by
nodes_of conf = sort_by (λ a b. ltb a.joined_at b.joined_at) (map (λ e. e.1) conf.nodes)

-- The node of `GetNode`, from the same file.
unfoldable pub local_node : ClusterConfig → Option Node
local_node conf = if str_eq conf.node_id [] then none else lookup conf.node_id conf.nodes

abbrev pub local_candidate : Option Node → List Node
local_candidate none = []
local_candidate (some n) = if is_active n.node_state then n ∷ [] else []

unfoldable pub candidates : ClusterConfig → List Node
unfolding nodes_of local_node
candidates conf =
    keep (λ n. is_active n.node_state && not (str_eq n.id conf.node_id)) (nodes_of conf)
    ++ local_candidate (local_node conf)

unfoldable pub first_of {ℓ} : {A : Type ℓ} → List A → Option A
first_of [] = none
first_of (x ∷ xs) = some x

unfoldable pub target : ClusterConfig → Option Node
unfolding candidates sort_by first_of
target conf = first_of (sort_by (λ a b. ltb_ℤ b.mem_avail a.mem_avail) (candidates conf))

-- How the start of a replica ends on the node that is chosen: it runs in the container, and its state
-- file is written or not; it does not run; or it runs, but the answer is lost and an error comes back.
pub data Placement : Type 0 where
  placed : Bytes → Bytes → Bool → Placement
  failed : Placement
  lost : Bytes → Placement

-- The state file of a replica is named by its id, and takes the place of one that is there.
unfoldable pub put_record : ServiceReplica → List ServiceReplica → List ServiceReplica
put_record r [] = r ∷ []
put_record r (s ∷ rs) = if str_eq s.id r.id then r ∷ rs else s ∷ put_record r rs

unfoldable pub place : ℕ → Bytes → Bytes → Placement → Fleet → Fleet × Bool
unfolding put_record
place now image node (placed id container true) fl = (
  record {
    replicas =
        put_record
          (record {
            id = id;
            node_id = node;
            container_id = container;
            status = codes "running";
            created_at = now;
          })
          fl.replicas;
    containers = fl.containers ++ record { container_id = container; image = image } ∷ [];
  },
  true,
)
place now image node (placed id container false) fl = (
  record fl {
    containers = fl.containers ++ record { container_id = container; image = image } ∷ [];
  },
  true,
)
place now image node failed fl = (fl, false)
place now image node (lost container) fl = (
  record fl {
    containers = fl.containers ++ record { container_id = container; image = image } ∷ [];
  },
  false,
)

-- The part of `ScheduleReplica` behind the load. The Boolean is false for an error.
unfoldable pub schedule_loaded :
    ℕ → (Bytes → Placement) → Bytes → Store → Fleet → Store × Fleet × Bool
unfolding target place
schedule_loaded now start image st fl = elim (target st.conf) [
  | none ↦ (st, fl, false)
  | some t ↦ (let (fl', done) = place now image t.id (start t.id) fl in (st, fl', done))
]

unfoldable pub schedule_replica :
    ℕ → (Bytes → Placement) → Bytes → Store → Fleet → Store × Fleet × Bool
unfolding load_cluster_config schedule_loaded
schedule_replica now start image st fl = elim (load_cluster_config st) [
  | none ↦ (st, fl, false)
  | some st' ↦ schedule_loaded now start image st' fl
]

-- How the removal of a container ends: it is gone; it is kept and an error comes back; or it is gone,
-- but an error comes back.
pub data Removal : Type 0 where
  removed kept unanswered : Removal

-- A container has one id.
unfoldable pub without_container : Bytes → List Running → List Running
without_container id [] = []
without_container id (c ∷ cs) = if str_eq c.container_id id then cs else c ∷ without_container id cs

unfoldable pub remove_on_node : Removal → Bytes → Fleet → Fleet × Bool
unfolding without_container
remove_on_node removed id fl = (record fl { containers = without_container id fl.containers }, true)
remove_on_node kept id fl = (fl, false)
remove_on_node unanswered id fl =
    (record fl { containers = without_container id fl.containers }, false)

-- The node is looked up in memory.
unfoldable pub remove_remote_replica : Removal → Bytes → Bytes → Store → Fleet → Fleet × Bool
unfolding remove_on_node
remove_remote_replica removal node container st fl = elim (lookup node st.conf.nodes) [
  | none ↦ (fl, false)
  | some n ↦ remove_on_node removal container fl
]

-- `forgotten` says whether the state file is gone afterwards.
unfoldable pub remove_replica_state : Bool → Bytes → Fleet → Fleet
remove_replica_state forgotten id fl =
    if forgotten then record fl { replicas = keep (λ r. not (str_eq r.id id)) fl.replicas } else fl
