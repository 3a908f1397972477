-- ===== src/Orchestrator/Reconcile/Converge.antt =====
-- A service that has too few replicas gets those that it lacks.
use dck.Base.{ℕ, ◌≡◌, true, false, some, ◌≤◌, Bool, List, any}
use dck.Base.Bytes.{Bytes, codes, str_eq}
use dck.Orchestrator.Types.{ServiceReplica, Fleet, Node, ClusterConfig}
use dck.Orchestrator.Scheduler.{placed, place, target}
use dck.Orchestrator.Reconcile.{Attempt}

abbrev pub has_id : Bytes → List ServiceReplica → Bool
has_id id = any (λ r. str_eq r.id id)

-- A start that gives a container and a state file under a new id.
module _ (now : ℕ) (image node id container : Bytes) (fl : Fleet)
    (new : has_id id fl.replicas ≡ false) where
  abbrev after_start : Fleet
  after_start = (place now image node (placed id container true) fl).0

  abbrev new_record : ServiceReplica
  new_record = record {
    id = id;
    node_id = node;
    container_id = container;
    status = codes "running";
    created_at = now;
  }

module _ (cfg : ClusterConfig) (t : Node) (found : target cfg ≡ some t) where
  -- Nobody gives up; the start number `i` succeeds on the chosen node with the replica's id `ids i`, and
  -- its state file is written.
  abbrev pub AllPlaced : (ids containers : ℕ → Bytes) → (ℕ → Attempt) → Type 0
  AllPlaced ids containers attempts =
      (i : ℕ)
      → ((attempts i).cancelled ≡ false)
        × ((attempts i).cancelled_in_wait ≡ false)
        × ((attempts i).start t.id ≡ placed (ids i) (containers i) true)

  -- The ids from the number `i` on are new.
  abbrev pub NewFrom : (ids : ℕ → Bytes) → ℕ → Fleet → Type 0
  NewFrom ids i fl = (k : ℕ) → i ≤ k → has_id (ids k) fl.replicas ≡ false
