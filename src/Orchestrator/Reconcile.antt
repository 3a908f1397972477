-- ===== src/Orchestrator/Reconcile.antt =====
-- internal/orchestrator: how the number of replicas of one service is brought to what it asks for
-- (`ReconcileServices` of service.go and `AutoHealServices` of scheduler.go).
pub mod Converge
pub mod Missed
use dck.Base.{
  ℕ, zero, suc, ◌+◌, ◌-◌, Bool, true, false, ◌||◌, List, [], ◌∷◌, if◌then◌else◌, keep, length, ltb,
}
use dck.Base.Int.{ℤ, pos, ltb_ℤ, pos_part, neg_part}
use dck.Base.Bytes.{Bytes, codes, str_eq}
use dck.Orchestrator.Types.{Service, ServiceReplica, Store, Fleet}
use dck.Orchestrator.Scheduler.{
  Placement, Removal, sort_by, schedule_replica, remove_remote_replica, remove_replica_state,
}

-- What happens outside at one start: whether the caller has given up before, how the start would end
-- on each node, and whether the caller gives up in the wait behind it.
pub record Attempt : Type 0 where
  pub cancelled : Bool
  pub now : ℕ
  pub start : Bytes → Placement
  pub cancelled_in_wait : Bool

-- The same at one removal.
pub record Withdrawal : Type 0 where
  pub cancelled : Bool
  pub removal : Removal
  pub forgotten : Bool

abbrev pub is_running_record : ServiceReplica → Bool
is_running_record r = str_eq r.status (codes "running")

-- The state files that say that their replica runs.
unfoldable pub running_records : List ServiceReplica → ℕ
running_records rs = length (keep is_running_record rs)

-- `attempts i` is the i-th start. An error is only logged.
unfoldable pub reconcile_scale_up : (ℕ → Attempt) → Bytes → ℕ → ℕ → Store → Fleet → Store × Fleet
reconcile_scale_up attempts image zero i st fl = (st, fl)
reconcile_scale_up attempts image (suc count) i st fl =
    let s = schedule_replica (attempts i).now (attempts i).start image st fl in
    let rest = reconcile_scale_up attempts image count (i + 1) s.0 s.1 in
    if (attempts i).cancelled then (st, fl) else rest

-- The loop of `reconcileScaleDown` over the replicas that it has sorted.
unfoldable pub scale_down_from :
    (ServiceReplica → Withdrawal) → ℕ → List ServiceReplica → Store → Fleet → Fleet
scale_down_from outside zero rs st fl = fl
scale_down_from outside (suc count) [] st fl = fl
scale_down_from outside (suc count) (r ∷ rs) st fl =
    let g = remove_remote_replica (outside r).removal r.node_id r.container_id st fl in
    let rest =
      scale_down_from outside count rs st
        (if g.1 then remove_replica_state (outside r).forgotten r.id g.0 else g.0) in
    if (outside r).cancelled then fl else rest

unfoldable pub reconcile_scale_down :
    (ServiceReplica → Withdrawal) → ℕ → List ServiceReplica → Store → Fleet → Fleet
unfolding sort_by scale_down_from
reconcile_scale_down outside count rs st fl =
    scale_down_from outside count (sort_by (λ a b. ltb b.created_at a.created_at) rs) st fl

-- The part of `ReconcileServices` for one service.
unfoldable pub reconcile_service :
    (ℕ → Attempt) → (ServiceReplica → Withdrawal) → Service → Store → Fleet → Store × Fleet
unfolding running_records reconcile_scale_up reconcile_scale_down
reconcile_service attempts outside svc st fl =
    let running = running_records fl.replicas in
    if ltb_ℤ (pos running) svc.replicas
    then reconcile_scale_up attempts svc.image (pos_part svc.replicas - running) 0 st fl
    else if ltb_ℤ svc.replicas (pos running)
    then (
      st,
      reconcile_scale_down outside (running + neg_part svc.replicas - pos_part svc.replicas)
          fl.replicas st fl,
    )
    else (st, fl)

unfoldable pub heal_from : (ℕ → Attempt) → Bytes → ℕ → ℕ → Store → Fleet → Store × Fleet
heal_from attempts image zero i st fl = (st, fl)
heal_from attempts image (suc count) i st fl =
    let s = schedule_replica (attempts i).now (attempts i).start image st fl in
    let rest = heal_from attempts image count (i + 1) s.0 s.1 in
    if (attempts i).cancelled
    then (st, fl)
    else if (attempts i).cancelled_in_wait
    then (s.0, s.1)
    else rest

-- The part of `AutoHealServices` for one service.
unfoldable pub auto_heal_service : (ℕ → Attempt) → Service → Store → Fleet → Store × Fleet
unfolding running_records heal_from
auto_heal_service attempts svc st fl =
    let running = running_records fl.replicas in
    if ltb_ℤ (pos running) svc.replicas
    then heal_from attempts svc.image (pos_part svc.replicas - running) 0 st fl
    else (st, fl)
