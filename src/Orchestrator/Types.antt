-- ===== src/Orchestrator/Types.antt =====
-- internal/orchestrator/types.go, and the state that service.go and scheduler.go keep in memory and in
-- files.
use dck.Base.{ℕ, Bool, Option, none, some, List, [], ◌∷◌}
use dck.Base.Int.{ℤ}
use dck.Base.Bytes.{Bytes}

pub data NodeState : Type 0 where
  active inactive left : NodeState

pub record Node : Type 0 where
  pub id : Bytes
  pub node_state : NodeState
  pub mem_avail : ℤ
  pub joined_at : ℕ

pub record UpdateConfig : Type 0 where
  pub parallelism : ℤ
  pub delay : ℤ
  pub failure_action : Bytes
  pub order : Bytes

-- The fields that the modelled operations read or change. `none` is nil. Ports, memory, CPUs, labels and
-- the healthcheck are left out.
pub record Service : Type 0 where
  pub image : Bytes
  pub replicas : ℤ
  pub env : Option (List (Bytes × Bytes))
  pub volumes : Option (List Bytes)
  pub command : Bytes
  pub restart : Bytes
  pub update_config : Option UpdateConfig
  pub created_at : ℕ
  pub updated_at : ℕ

pub record ServiceOpts : Type 0 where
  pub env : Option (List (Bytes × Bytes))
  pub volumes : Option (List Bytes)
  pub command : Bytes
  pub restart : Bytes
  pub update_config : Option UpdateConfig

pub record ServiceReplica : Type 0 where
  pub id : Bytes
  pub node_id : Bytes
  pub container_id : Bytes
  pub status : Bytes
  pub created_at : ℕ

abbrev pub ServiceMap : Type 0
ServiceMap = List (Bytes × Service)

-- What decoding gives of a service that has been encoded: an empty list or map is not written
-- (`omitempty`), and comes back as nil.
unfoldable pub or_nil {ℓ} : {A : Type ℓ} → Option (List A) → Option (List A)
or_nil none = none
or_nil (some []) = none
or_nil (some (x ∷ xs)) = some (x ∷ xs)

unfoldable pub as_read : Service → Service
unfolding or_nil
as_read svc = record svc { env = or_nil svc.env; volumes = or_nil svc.volumes }

unfoldable pub all_as_read : ServiceMap → ServiceMap
unfolding as_read
all_as_read [] = []
all_as_read ((name, svc) ∷ m) = (name, as_read svc) ∷ all_as_read m

-- A JSON file: it is missing, it cannot be read or decoded, or decoding it gives a value.
pub data File {ℓ} (A : Type ℓ) : Type ℓ where
  missing unreadable : File A
  holds : A → File A

-- What cluster.json keeps.
pub record ClusterConfig : Type 0 where
  pub node_id : Bytes
  pub nodes : List (Bytes × Node)
  pub services : ServiceMap

-- `conf` is the process-wide `clusterConf`; `loaded_dir` and `loaded_file` say whether
-- `loadedServicesDir` is the present directory, and what `loadedServicesFile` is.
pub record Store : Type 0 where
  pub conf : ClusterConfig
  pub services_file : File ServiceMap
  pub cluster_file : File ClusterConfig
  pub loaded_dir : Bool
  pub loaded_file : Bool

-- A container that runs on a node for a replica.
pub record Running : Type 0 where
  pub container_id : Bytes
  pub image : Bytes

-- One service's replicas: their state files, in the order in which they are listed, and the
-- containers that run for them on the nodes.
pub record Fleet : Type 0 where
  pub replicas : List ServiceReplica
  pub containers : List Running

pub data ServiceError : Type 0 where
  load_error already_exists not_found bad_replicas save_error : ServiceError

abbrev pub with_services : ServiceMap → Store → Store
with_services m st = record st { conf = record st.conf { services = m } }
