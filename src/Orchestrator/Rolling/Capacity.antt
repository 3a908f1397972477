-- ===== src/Orchestrator/Rolling/Capacity.antt =====
-- How many containers run for a service while it is updated.
use dck.Base.{
  ℕ, ◌+◌, ◌-◌, ◌≤◌, ◌==◌, ◌≡◌, Bool, true, false, ◌&&◌, Option, none, some, List, [], ◌∷◌,
  if◌then◌else◌, length, length-append, arith, refl, Bool-cases, Option-cases, inl, inr, ap,
}
use dck.Base.Bytes.{Bytes}
use dck.Base.Assoc.{lookup}
use dck.Container.Types.{SaveOutcome}
use dck.Orchestrator.Types.{Service, ServiceReplica, Store, Fleet, Running}
use dck.Orchestrator.Scheduler.{
  Placement, placed, failed, lost, Removal, removed, kept, unanswered, place, schedule_loaded,
  schedule_replica, load_cluster_config, target, without_container, remove_on_node,
  remove_remote_replica, remove_replica_state,
}
use dck.Orchestrator.Rolling.{
  Turn, UpdateError, Progress, start_first, stop_first, update_one, update_from, waits,
  finish_update, update_service_found, listed_replicas, is_start_first, order_of, parallelism_of,
  delay_of,
}

-- The containers that run.
abbrev pub running : Fleet → ℕ
running fl = length fl.containers

place-running :
    (now : ℕ) (image node : Bytes) (p : Placement) (fl : Fleet)
    → (if (place now image node p fl).1 then running fl + 1 else running fl)
      ≤ running (place now image node p fl).0
unfolding place
place-running now image node (placed id c true) fl =
    omega (arith, length-append fl.containers (record { container_id = c; image = image } ∷ []))
place-running now image node (placed id c false) fl =
    omega (arith, length-append fl.containers (record { container_id = c; image = image } ∷ []))
place-running now image node failed fl = omega arith
place-running now image node (lost c) fl =
    omega (arith, length-append fl.containers (record { container_id = c; image = image } ∷ []))

schedule_loaded-running :
    (now : ℕ) (start : Bytes → Placement) (image : Bytes) (st : Store) (fl : Fleet)
    → (let s = schedule_loaded now start image st fl in if s.2 then running fl + 1 else running fl)
      ≤ running (schedule_loaded now start image st fl).1
unfolding schedule_loaded
schedule_loaded-running now start image st fl = elim (Option-cases (target st.conf)) [
  | inl nowhere ↦ rw (nowhere, schedule_loaded) (omega arith)
  | inr (t, there) ↦ rw (there, schedule_loaded) (place-running now image t.id (start t.id) fl)
]

-- A start adds a container if it reports no error, and takes none away.
pub schedule_replica-running :
    (now : ℕ) (start : Bytes → Placement) (image : Bytes) (st : Store) (fl : Fleet)
    → (let s = schedule_replica now start image st fl in if s.2 then running fl + 1 else running fl)
      ≤ running (schedule_replica now start image st fl).1
unfolding schedule_replica
schedule_replica-running now start image st fl = elim (Option-cases (load_cluster_config st)) [
  | inl out ↦ rw (out, schedule_replica) (omega arith)
  | inr (st', there) ↦ rw (there, schedule_replica) (schedule_loaded-running now start image st' fl)
]

length-without : (id : Bytes) (cs : List Running) → length cs ≤ length (without_container id cs) + 1
unfolding without_container
length-without id [] = omega arith
length-without id (c ∷ cs) = ground (arith, length-without id cs)

remove_on_node-running :
    (removal : Removal) (id : Bytes) (fl : Fleet)
    → running fl ≤ running (remove_on_node removal id fl).0 + 1
unfolding remove_on_node
remove_on_node-running removed id fl = length-without id fl.containers
remove_on_node-running kept id fl = omega arith
remove_on_node-running unanswered id fl = length-without id fl.containers

-- A removal takes at most one container away.
remove_remote_replica-running :
    (removal : Removal) (node id : Bytes) (st : Store) (fl : Fleet)
    → running fl ≤ running (remove_remote_replica removal node id st fl).0 + 1
unfolding remove_remote_replica
remove_remote_replica-running removal node id st fl =
    elim (Option-cases (lookup node st.conf.nodes)) [
      | inl unknown ↦ rw (unknown, remove_remote_replica) (omega arith)
      | inr (n, there) ↦ rw (there, remove_remote_replica) (remove_on_node-running removal id fl)
    ]

remove_replica_state-running :
    (forgotten : Bool) (id : Bytes) (fl : Fleet)
    → running (remove_replica_state forgotten id fl) ≡ running fl
unfolding remove_replica_state
remove_replica_state-running true id fl = refl
remove_replica_state-running false id fl = refl

-- What a part of the update may take away: nothing if it starts first or ends without an error, else
-- one container.
abbrev pub loss : Bool → Option UpdateError → ℕ
loss true e = 0
loss false none = 0
loss false (some e) = 1

start_first-running :
    (image : Bytes) (turn : Turn) (r : ServiceReplica) (st : Store) (fl : Fleet)
    → running fl ≤ running (start_first image turn r st fl).fleet
unfolding start_first
start_first-running image turn r st fl =
    let s = schedule_replica turn.now turn.start image st fl in
    ground (
      arith,
      schedule_replica-running turn.now turn.start image st fl,
      remove_remote_replica-running turn.removal r.node_id r.container_id s.0 s.1,
      remove_replica_state-running turn.forgotten r.id
          (remove_remote_replica turn.removal r.node_id r.container_id s.0 s.1).0,
    )

stop_first-running :
    (image : Bytes) (turn : Turn) (r : ServiceReplica) (st : Store) (fl : Fleet)
    → let p = stop_first image turn r st fl in
      running fl ≤ running p.fleet + loss false p.stopped_at
unfolding stop_first
stop_first-running image turn r st fl =
    let g = remove_remote_replica turn.removal r.node_id r.container_id st fl in
    ground (
      arith,
      remove_remote_replica-running turn.removal r.node_id r.container_id st fl,
      schedule_replica-running turn.now turn.start image st g.0,
      remove_replica_state-running turn.forgotten r.id
          (schedule_replica turn.now turn.start image st g.0).1,
    )

update_one-running :
    (first : Bool) (image : Bytes) (turn : Turn) (r : ServiceReplica) (st : Store) (fl : Fleet)
    → let p = update_one first image turn r st fl in
      running fl ≤ running p.fleet + loss first p.stopped_at
unfolding update_one
update_one-running true image turn r st fl = ground (arith, start_first-running image turn r st fl)
update_one-running false image turn r st fl = ground (arith, stop_first-running image turn r st fl)

loss-none : (first : Bool) → loss first none ≡ 0
loss-none true = refl
loss-none false = refl

update_from-running :
    (parallelism delay : ℕ) (first : Bool) (image : Bytes) (turns : ServiceReplica → Turn)
    (left : ℕ) (rs : List ServiceReplica) (st : Store) (fl : Fleet)
    → let p = update_from parallelism delay first image turns left rs st fl in
      running fl ≤ running p.fleet + loss first p.stopped_at
unfolding update_from
update_from-running parallelism delay first image turns left [] st fl = ground arith
update_from-running parallelism delay first image turns left (r ∷ rs) st fl =
    let p = update_one first image (turns r) r st fl in
    let here = update_one-running first image (turns r) r st fl in
    let left' = if left == 0 then parallelism - 1 else left - 1 in
    let behind = update_from-running parallelism delay first image turns left' rs p.store p.fleet in
    elim (Option-cases p.stopped_at) [
      | inr (e, stopped) ↦ rw (stopped, update_from) here
      | inl going ↦
          (let kept_up : running fl ≤ running p.fleet =
              omega (arith, loss-none first, ap (loss first) going, here) in
            rw (going, update_from)
              (elim (Bool-cases (left == 0 && waits delay rs && (turns r).cancelled_in_wait)) [
                | inl cancelled ↦ rw cancelled (omega (arith, kept_up))
                | inr on ↦ rw on (omega (arith, kept_up, behind))
              ]))
    ]

pub finish_update_fleet :
    (o : SaveOutcome) (now : ℕ) (name image : Bytes) (svc : Service) (p : Progress)
    → (finish_update o now name image svc p).fleet ≡ p.fleet
unfolding finish_update
finish_update_fleet o now name image svc p = elim (Option-cases p.stopped_at) [
  | inl on ↦ rw (on, finish_update) refl
  | inr (e, stopped) ↦ rw (stopped, finish_update) refl
]

-- An error of the last part comes when every replica is updated.
loss-finish_update :
    (first : Bool) (o : SaveOutcome) (now : ℕ) (name image : Bytes) (svc : Service) (p : Progress)
    → loss first p.stopped_at ≤ loss first (finish_update o now name image svc p).stopped_at
unfolding finish_update
loss-finish_update first o now name image svc p = elim (Option-cases p.stopped_at) [
  | inl on ↦ rw on (omega (arith, loss-none first))
  | inr (e, stopped) ↦ rw (stopped, finish_update) (omega (arith, ap (loss first) stopped))
]

abbrev pub starts_first : Service → Bool
starts_first svc = is_start_first (order_of svc.update_config)

-- Whatever the calls that start and remove replicas report, and wherever the update of a service is
-- cancelled or stops at an error, no fewer containers run for the service afterwards than before if its
-- order is start-first or the update ends without an error, and at most one fewer otherwise.
pub rolling_update_running :
    (o : SaveOutcome) (now : ℕ) (name image : Bytes) (readable : ServiceReplica → Bool)
    (turns : ServiceReplica → Turn) (svc : Service) (st : Store) (fl : Fleet)
    → let p = update_service_found o now name image readable turns svc st fl in
      running fl ≤ running p.fleet + loss (starts_first svc) p.stopped_at
unfolding update_service_found
rolling_update_running o now name image readable turns svc st fl =
    let first = starts_first svc in
    let batch = parallelism_of svc.update_config in
    let q =
      update_from batch (delay_of svc.update_config) first image turns (batch - 1)
        (listed_replicas readable fl) st fl in
    omega (
      arith,
      update_from-running batch (delay_of svc.update_config) first image turns (batch - 1)
          (listed_replicas readable fl) st fl,
      ap running (finish_update_fleet o now name image svc q),
      loss-finish_update first o now name image svc q,
    )
