-- ===== src/Orchestrator/Examples.antt =====
-- A cluster of one node that runs one replica of the service `web`.
use dck.Base.{
  ℕ, zero, suc, Bool, ◌+◌, ◌≤◌, ◌≡◌, true, false, none, some, List, [], ◌∷◌, arith, refl,
  Bool-cases, inl, inr,
}
use dck.Base.Int.{pos}
use dck.Base.Bytes.{Bytes, codes, str_eq, str_eq_iff}
use dck.Base.Assoc.{lookup}
use dck.Container.Types.{written, refused, chmod_failed, save_ok}
use dck.Orchestrator.Types.{
  Node, active, Service, ServiceOpts, ServiceReplica, ServiceMap, holds, ClusterConfig, Store,
  Fleet, not_found, save_error, as_read, or_nil, all_as_read,
}
use dck.Orchestrator.Services.{ok, err, create_service, get_service, new_service, save_services}
use dck.Orchestrator.Services.Table.{Call, create, scale, drop, perform_all, effect_all}
use dck.Orchestrator.Services.Decoded.{Decoded}
use dck.Orchestrator.Services.Stored.{result_of, get_service-perform_all, create_service_half_saved}
use dck.Orchestrator.Scheduler.{
  placed, failed, removed, target, candidates, nodes_of, local_node, sort_by, insert_by, first_of,
  schedule_replica, schedule_loaded, load_cluster_config, read_cluster, place, put_record,
  remove_remote_replica, remove_on_node, without_container, remove_replica_state,
}
use dck.Orchestrator.Scheduler.Target.{Keyed, BestTarget, target-BestTarget}
use dck.Orchestrator.Rolling.{
  Turn, update_service_found, listed_replicas, update_from, update_one, stop_first, finish_update,
  parallelism_of, delay_of, order_of,
}
use dck.Orchestrator.Rolling.Capacity.{running, loss, starts_first, rolling_update_running}
use dck.Orchestrator.Rolling.Gone.{count}
use dck.Orchestrator.Rolling.Files.{rolling_update_done, rolling_update_forgets}
use dck.Orchestrator.Reconcile.{Attempt, Withdrawal}

abbrev node : Node
node = record { id = codes "n1"; node_state = active; mem_avail = pos 512; joined_at = 3 }

-- The cluster's file lists no service.
abbrev cluster : ClusterConfig
cluster = record { node_id = codes "n1"; nodes = (codes "n1", node) ∷ []; services = [] }

abbrev web : Service
web = record {
  image = codes "web:1";
  replicas = pos 1;
  env = none;
  volumes = none;
  command = [];
  restart = [];
  update_config = none;
  created_at = 5;
  updated_at = 5;
}

abbrev table : ServiceMap
table = (codes "web", web) ∷ (codes "db", web) ∷ []

abbrev store : Store
store = record {
  conf = cluster;
  services_file = holds table;
  cluster_file = holds cluster;
  loaded_dir = true;
  loaded_file = true;
}

abbrev replica : ServiceReplica
replica = record {
  id = codes "r1";
  node_id = codes "n1";
  container_id = codes "c1";
  status = codes "running";
  created_at = 6;
}

abbrev fleet : Fleet
fleet = record {
  replicas = replica ∷ [];
  containers = record { container_id = codes "c1"; image = codes "web:1" } ∷ [];
}

abbrev opts : ServiceOpts
opts = record {
  env = some [];
  volumes = none;
  command = codes "run";
  restart = [];
  update_config = none;
}

-- The save of the first call fails behind the file's replacement, that of the second before it.
abbrev calls : List Call
calls =
    create true chmod_failed 7 (codes "log") (codes "log:1") (pos 2) opts
    ∷ scale true refused 8 (codes "web") (pos 4)
    ∷ drop true written (codes "db")
    ∷ []

table-Decoded : Decoded (λ n. lookup n table)
unfolding lookup as_read or_nil
table-Decoded n = elim (Bool-cases (str_eq (codes "web") n)) [
  | inl same ↦ rw same refl
  | inr other ↦ rw other (elim (Bool-cases (str_eq (codes "db") n)) [
    | inl same ↦ rw same refl
    | inr none_of_them ↦ rw none_of_them refl
  ])
]

get_service-perform_all_example :
    (get_service true (codes "log") (perform_all calls store)).1
    ≡ result_of (effect_all calls (λ n. lookup n table) (codes "log"))
get_service-perform_all_example =
    get_service-perform_all calls store table (codes "log") refl table-Decoded

no_log : lookup (codes "log") table ≡ none
unfolding lookup
no_log = refl

create_service_half_saved_example :
    let (st', result) =
      create_service true chmod_failed 7 (codes "log") (codes "log:1") (pos 2) opts store in
    (result ≡ err save_error)
    × (lookup (codes "log") st'.conf.services ≡ none)
    × ((get_service true (codes "log") st').1
        ≡ ok (as_read (new_service 7 (codes "log:1") (pos 2) opts)))
create_service_half_saved_example =
    create_service_half_saved 7 (codes "log") (codes "log:1") (pos 2) opts store table refl
      table-Decoded no_log

cluster-Keyed : Keyed cluster
unfolding lookup
cluster-Keyed id n found = elim (Bool-cases (str_eq (codes "n1") id)) [
  | inl same ↦
      (let e = (str_eq_iff (codes "n1") id).0 same in
        let k : node ≡ n = cc (rw (same, lookup) at found) in rw (← e) (rw (← k) refl))
  | inr other ↦ absurd (cc (rw (other, lookup) at found))
]

target-BestTarget_example : BestTarget cluster (target cluster)
target-BestTarget_example = target-BestTarget cluster refl cluster-Keyed

abbrev all_readable : ServiceReplica → Bool
all_readable r = true

-- Every start gives a container and a state file.
abbrev good_turn : ServiceReplica → Turn
good_turn r = record {
  cancelled = false;
  now = 9;
  start = λ id. placed (codes "r2") (codes "c2") true;
  removal = removed;
  forgotten = true;
  cancelled_in_wait = false;
}

-- No start succeeds.
abbrev bad_turn : ServiceReplica → Turn
bad_turn r = record (good_turn r) { start = λ id. failed }

goes_well :
    (update_service_found written 10
      (codes "web")
      (codes "web:2")
      all_readable
      good_turn
      web
      store
      fleet).stopped_at
    ≡ none
unfolding all_as_read update_service_found update_from update_one stop_first finish_update
    parallelism_of delay_of order_of listed_replicas schedule_replica schedule_loaded
    load_cluster_config read_cluster target candidates nodes_of local_node sort_by insert_by
    first_of lookup place put_record remove_remote_replica remove_on_node without_container
    remove_replica_state save_services save_ok
goes_well = refl

rolling_update_running_example :
    let p =
      update_service_found written 10
        (codes "web")
        (codes "web:2")
        all_readable
        bad_turn
        web
        store
        fleet in
    running fleet ≤ running p.fleet + loss (starts_first web) p.stopped_at
rolling_update_running_example =
    rolling_update_running written 10 (codes "web") (codes "web:2") all_readable bad_turn web store
      fleet

rolling_update_done_example :
    let p =
      update_service_found written 10
        (codes "web")
        (codes "web:2")
        all_readable
        good_turn
        web
        store
        fleet in
    (count (codes "c1") p.fleet.containers ≡ 0)
    × ((get_service true (codes "web") p.store).1
        ≡ ok (as_read (record web { image = codes "web:2"; updated_at = 10 })))
unfolding listed_replicas
rolling_update_done_example =
    rolling_update_done written 10 (codes "web") (codes "web:2") all_readable good_turn web
      (codes "c1") store fleet refl (omega arith) (λ r node. refl) goes_well

-- `db` is lost.
no_db : lookup (codes "db") cluster.services ≡ none
unfolding lookup
no_db = refl

rolling_update_forgets_example :
    (get_service true
      (codes "db")
      (update_service_found written 10
        (codes "web")
        (codes "web:2")
        all_readable
        good_turn
        web
        store
        fleet).store).1
    ≡ err not_found
unfolding listed_replicas
rolling_update_forgets_example =
    rolling_update_forgets written 10 (codes "web") (codes "web:2") all_readable good_turn web
      (codes "db") store fleet cluster refl refl refl no_db goes_well

-- Ids of replicas: a, aa, and so on.
unfoldable letters : ℕ → Bytes
letters zero = codes "a"
letters (suc n) = b'a' ∷ letters n

abbrev attempts : ℕ → Attempt
attempts i = record {
  cancelled = false;
  now = 11;
  start = λ id. placed (letters i) (letters i) true;
  cancelled_in_wait = false;
}

abbrev withdrawals : ServiceReplica → Withdrawal
withdrawals r = record { cancelled = false; removal = removed; forgotten = true }

abbrev big_web : Service
big_web = record web { replicas = pos 3 }
