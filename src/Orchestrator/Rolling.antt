-- ===== src/Orchestrator/Rolling.antt =====
-- internal/orchestrator/scheduler.go: `RollingUpdateService`.
pub mod Capacity
pub mod Outcome
pub mod Gone
pub mod Files
pub mod Kept
use dck.Base.{
  ℕ, zero, suc, ◌-◌, ◌==◌, Bool, true, false, ◌&&◌, not, Option, none, some, List, [], ◌∷◌, ◌++◌,
  if◌then◌else◌, keep,
}
use dck.Base.Int.{ℤ, pos, negsuc, ltb_ℤ}
use dck.Base.Bytes.{Bytes, codes, str_eq}
use dck.Base.Assoc.{insert}
use dck.Container.Types.{SaveOutcome, save_ok}
use dck.Orchestrator.Types.{Service, ServiceReplica, UpdateConfig, Store, Fleet, with_services}
use dck.Orchestrator.Services.{Result, ok, err, get_service, save_services}
use dck.Orchestrator.Scheduler.{
  Placement, Removal, schedule_replica, remove_remote_replica, remove_replica_state,
}

-- What happens outside when a replica's turn comes: whether the update is cancelled before, the time,
-- how a start would end on each node, how the removal ends, and whether the state file goes; and
-- whether the update is cancelled in a wait behind the turn.
pub record Turn : Type 0 where
  pub cancelled : Bool
  pub now : ℕ
  pub start : Bytes → Placement
  pub removal : Removal
  pub forgotten : Bool
  pub cancelled_in_wait : Bool

pub data UpdateError : Type 0 where
  no_service cancel_error start_error remove_error store_error : UpdateError

-- What a part of the update leaves, and the error at which it returns.
pub record Progress : Type 0 where
  pub store : Store
  pub fleet : Fleet
  pub stopped_at : Option UpdateError

abbrev pub default_parallelism : ℕ
default_parallelism = 1

abbrev pub positive_or : ℕ → ℤ → ℕ
positive_or default (pos zero) = default
positive_or default (pos (suc n)) = suc n
positive_or default (negsuc n) = default

unfoldable pub parallelism_of : Option UpdateConfig → ℕ
parallelism_of none = default_parallelism
parallelism_of (some u) = positive_or default_parallelism u.parallelism

unfoldable pub delay_of : Option UpdateConfig → ℕ
delay_of none = 0
delay_of (some u) = positive_or 0 u.delay

unfoldable pub order_of : Option UpdateConfig → Bytes
order_of none = codes "stop-first"
order_of (some u) = if str_eq u.order [] then codes "stop-first" else u.order

abbrev pub is_start_first : Bytes → Bool
is_start_first order = str_eq order (codes "start-first")

-- The two bodies of the inner loop.
unfoldable pub start_first : Bytes → Turn → ServiceReplica → Store → Fleet → Progress
start_first image turn r st fl =
    let (st', fl', started) = schedule_replica turn.now turn.start image st fl in
    if not started
    then record { store = st'; fleet = fl'; stopped_at = some start_error }
    else let (fl'', gone) = remove_remote_replica turn.removal r.node_id r.container_id st' fl' in
      if not gone
      then record { store = st'; fleet = fl''; stopped_at = some remove_error }
      else record {
        store = st';
        fleet = remove_replica_state turn.forgotten r.id fl'';
        stopped_at = none;
      }

unfoldable pub stop_first : Bytes → Turn → ServiceReplica → Store → Fleet → Progress
stop_first image turn r st fl =
    let (fl', gone) = remove_remote_replica turn.removal r.node_id r.container_id st fl in
    if not gone
    then record { store = st; fleet = fl'; stopped_at = some remove_error }
    else let (st', fl'', started) = schedule_replica turn.now turn.start image st fl' in
      if not started
      then record { store = st'; fleet = fl''; stopped_at = some start_error }
      else record {
        store = st';
        fleet = remove_replica_state turn.forgotten r.id fl'';
        stopped_at = none;
      }

unfoldable pub update_one : Bool → Bytes → Turn → ServiceReplica → Store → Fleet → Progress
unfolding start_first stop_first
update_one first image turn r st fl =
    if turn.cancelled
    then record { store = st; fleet = fl; stopped_at = some cancel_error }
    else if first
    then start_first image turn r st fl
    else stop_first image turn r st fl

abbrev pub is_empty_list {ℓ} : {A : Type ℓ} → List A → Bool
is_empty_list [] = true
is_empty_list (x ∷ xs) = false

-- Whether a wait follows a turn that ends a batch: there is a delay, and another batch.
abbrev pub waits : ℕ → List ServiceReplica → Bool
waits delay rest = not (delay == 0) && not (is_empty_list rest)

-- The two loops as one, over the replicas that are left: `place` is the number of turns of the present
-- batch behind this one, and `parallelism` turns make a batch.
unfoldable pub update_from :
    ℕ
    → ℕ
    → Bool
    → Bytes
    → (ServiceReplica → Turn)
    → ℕ
    → List ServiceReplica
    → Store
    → Fleet
    → Progress
update_from parallelism delay first image turns place [] st fl = record {
  store = st;
  fleet = fl;
  stopped_at = none;
}
update_from parallelism delay first image turns place (r ∷ rs) st fl =
    let p = update_one first image (turns r) r st fl in
    let rest =
      update_from parallelism delay first image turns
        (if place == 0 then parallelism - 1 else place - 1) rs p.store p.fleet in
    elim (p.stopped_at) [
      | some e ↦ p
      | none ↦
          if place == 0 && waits delay rs && (turns r).cancelled_in_wait
          then record p { stopped_at = some cancel_error }
          else rest
    ]

-- The end: the service that was read at the beginning is put into the table in memory.
unfoldable pub finish_update : SaveOutcome → ℕ → Bytes → Bytes → Service → Progress → Progress
unfolding save_services save_ok
finish_update o now name image svc p = elim (p.stopped_at) [
  | some e ↦ p
  | none ↦ record p {
    store = save_services o (
        with_services
          (insert name (record svc { image = image; updated_at = now }) p.store.conf.services)
          p.store);
    stopped_at = if save_ok o then none else some store_error;
  }
]

-- The list of `GetServiceReplicas`: a state file that cannot be read is passed over. Its error, of a
-- directory that cannot be read, is dropped by the caller, as if no file could be read.
unfoldable pub listed_replicas : (ServiceReplica → Bool) → Fleet → List ServiceReplica
listed_replicas readable fl = keep readable fl.replicas

unfoldable pub update_service_found :
    SaveOutcome
    → ℕ
    → Bytes
    → Bytes
    → (ServiceReplica → Bool)
    → (ServiceReplica → Turn)
    → Service
    → Store
    → Fleet
    → Progress
unfolding parallelism_of delay_of order_of update_from finish_update listed_replicas
update_service_found o now name image readable turns svc st fl =
    finish_update o now name image svc (
      update_from (parallelism_of svc.update_config) (delay_of svc.update_config)
        (is_start_first (order_of svc.update_config)) image turns
        (parallelism_of svc.update_config - 1) (listed_replicas readable fl) st fl)

abbrev pub rolling_found :
    SaveOutcome
    → ℕ
    → Bytes
    → Bytes
    → (ServiceReplica → Bool)
    → (ServiceReplica → Turn)
    → Fleet
    → Store
    → Result Service
    → Progress
rolling_found o now name image readable turns fl st (err e) = record {
  store = st;
  fleet = fl;
  stopped_at = some no_service;
}
rolling_found o now name image readable turns fl st (ok svc) =
    update_service_found o now name image readable turns svc st fl

unfoldable pub rolling_update_service :
    Bool
    → SaveOutcome
    → ℕ
    → Bytes
    → Bytes
    → (ServiceReplica → Bool)
    → (ServiceReplica → Turn)
    → Store
    → Fleet
    → Progress
unfolding get_service update_service_found
rolling_update_service dir_ok o now name image readable turns st fl =
    let (st', found) = get_service dir_ok name st in
    rolling_found o now name image readable turns fl st' found
