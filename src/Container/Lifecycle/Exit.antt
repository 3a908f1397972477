-- ===== src/Container/Lifecycle/Exit.antt =====
-- How an exit of a container's main process is handled.
use dck.Base.{
  Bool-cases, inl, inr, ℕ, ◌≡◌, Bool, true, false, Option, some, arith, ◌||◌, ◌⊎◌, ◌≤◌, sym, ◌∙◌,
  refl, ◌≢◌, ◌+◌,
}
use dck.Base.Int.{ℤ, pos}
use dck.Base.Bytes.{Bytes, codes, str_eq, str_eq_iff}
use dck.Container.Types.{
  Container, Process, SaveOutcome, persisted, IfOnDisk, OnDisk, written, refused, chmod_failed,
}
use dck.Container.Load.{load}
use dck.Container.RestartGuard.{
  mark_stable_if_needed, restart_max_attempts, roll_window, allow_automatic_restart,
}
use dck.Container.Lifecycle.{
  release_stopped, finalize_stopped, decide_restart, monitor_exit, handle_main_process_exit, settle,
  scheduled, should_restart,
}

-- A reset changes neither the state file nor what decides about a restart.
mark_stable_lem :
    (now : ℕ) (p : Process)
    → let q = mark_stable_if_needed now p in
      (q.disk ≡ p.disk)
      × (q.c.restart ≡ p.c.restart)
      × (q.c.detach ≡ p.c.detach)
      × (q.c.cleanup_started ≡ p.c.cleanup_started)
unfolding mark_stable_if_needed
mark_stable_lem now p = ground arith

release_stopped_lem :
    (now : ℕ) (o : SaveOutcome) (p : Process)
    → let q = release_stopped now o p in
      (q.c.restart ≡ p.c.restart) × (q.c.detach ≡ p.c.detach) × (q.c.cleanup_started ≡ true)
unfolding release_stopped
release_stopped_lem now o p = ground arith

-- Finalizing an exit twice has the effect of finalizing it once: the second call changes nothing and
-- reports that it did nothing.
pub finalize_stopped_once :
    (e e' : ℤ) (now now' : ℕ) (o o' : SaveOutcome) (p : Process)
    → let q = (finalize_stopped e now o p).0 in finalize_stopped e' now' o' q ≡ (q, false, false)
unfolding finalize_stopped
finalize_stopped_once e e' now now' o o' p =
    let r = release_stopped now o p in
    ground (arith, release_stopped_lem now o p, mark_stable_lem now r)

module _ (e : ℤ) (now : ℕ) (o : SaveOutcome) (p : Process) where
  -- What a finalization that took place says of the state before it.
  finalize_stopped-true :
      let (q, finalized, restart) = finalize_stopped e now o p in
      finalized ≡ true
      → (p.c.cleanup_started ≡ false)
        × (restart ≡ should_restart p.c.restart e (p.c.stopped_by_user || p.stop_mark))
        × (q.c.restart ≡ p.c.restart)
        × (q.c.detach ≡ p.c.detach)
  unfolding finalize_stopped
  finalize_stopped-true h =
      let r = release_stopped now o p in
      ground (arith, release_stopped_lem now o p, mark_stable_lem now r)

should_restart-true :
    (policy : Bytes) (e : ℤ) (by_user mark : Bool)
    → should_restart policy e (by_user || mark) ≡ true
    → (should_restart policy e false ≡ true) × (by_user ≡ false) × (mark ≡ false)
unfolding should_restart
should_restart-true policy e by_user mark h = ground arith

-- One attempt more than `attempts`, within the budget.
abbrev pub ChargedOnce : ℕ → Container → Type 0
ChargedOnce attempts d =
    (d.restart_attempts ≡ attempts + 1) × (d.restart_attempts ≤ restart_max_attempts d)

-- What the policy and the exit code say: to restart always, or after a failure.
abbrev pub AsksForRestart : Container → ℤ → Type 0
AsksForRestart c e =
    (((c.restart ≡ codes "always") ⊎ (c.restart ≡ codes "unless-stopped")) × (c.detach ≡ false))
    ⊎ ((c.restart ≡ codes "on-failure") × (e ≢ pos 0))

policy_asks :
    (c : Container) (e : ℤ)
    → should_restart c.restart e false ≡ true
    → (c.detach ≡ false) ⊎ (c.restart ≡ codes "on-failure")
    → AsksForRestart c e
unfolding should_restart
policy_asks c e due place = elim (Bool-cases (str_eq c.restart (codes "on-failure"))) [
  | inl failure ↦
      (let same = (str_eq_iff c.restart (codes "on-failure")).0 failure in
        inr (same, λ zero_code. cc (rw (same, zero_code) at due)))
  | inr other ↦ inl (
    ground (
      arith,
      due,
      other,
      str_eq_iff c.restart (codes "always"),
      str_eq_iff c.restart (codes "unless-stopped"),
    ),
    ground (arith, place, other, str_eq_iff c.restart (codes "on-failure")),
  )
]

module _ (parse_duration : Bytes → Option ℤ) (now : ℕ) (o : SaveOutcome) where
  allow-OnDisk :
      (p : Process)
      → (allow_automatic_restart parse_duration now o p).1 ≡ true
      → OnDisk
          (ChargedOnce (roll_window parse_duration now p.c).restart_attempts)
          (allow_automatic_restart parse_duration now o p).0.disk
  unfolding allow_automatic_restart
  allow-OnDisk p h = ground arith

  decide_restart-scheduled :
      (deleted restart : Bool) (p : Process)
      → (decide_restart parse_duration now o deleted restart p).1 ≡ scheduled
      → (restart ≡ true)
        × ((p.c.detach ≡ false) ⊎ (p.c.restart ≡ codes "on-failure"))
        × OnDisk
            (ChargedOnce (roll_window parse_duration now p.c).restart_attempts)
            (decide_restart parse_duration now o deleted restart p).0.disk
  unfolding decide_restart
  decide_restart-scheduled deleted restart p h =
      ground (arith, allow-OnDisk p, str_eq_iff p.c.restart (codes "on-failure"))

-- A restart that `monitorContainer` schedules was asked for by the policy: `always` or
-- `unless-stopped` for a container that is not detached, or `on-failure` with an exit code that is
-- not 0. The user had not stopped it, this exit had not been handled before, and the state file has one
-- attempt more than the window that is open when the exit is handled, at most the budget.
pub monitor_exit-scheduled :
    (parse_duration : Bytes → Option ℤ) (e : ℤ) (now : ℕ) (o : SaveOutcome) (now' : ℕ)
    (o' : SaveOutcome) (deleted : Bool) (p : Process)
    → (monitor_exit parse_duration e now o now' o' deleted p).1 ≡ scheduled
    → AsksForRestart p.c e
      × (p.c.stopped_by_user ≡ false)
      × (p.stop_mark ≡ false)
      × (p.c.cleanup_started ≡ false)
      × OnDisk
          (ChargedOnce
            (roll_window parse_duration now' (finalize_stopped e now o p).0.c).restart_attempts)
          (monitor_exit parse_duration e now o now' o' deleted p).0.disk
unfolding monitor_exit persisted
monitor_exit-scheduled pd e now o now' o' deleted p h =
    elim (Bool-cases (finalize_stopped e now o p).1) [
      | inl done ↦
          (let q = finalize_stopped e now o p in
            let (fresh, why, same_restart, same_detach) = finalize_stopped-true e now o p done in
            let (due, place, charged) =
              decide_restart-scheduled pd now' o' deleted q.2 q.0 (rw done at h) in
            let (asked, by_user, mark) =
              should_restart-true p.c.restart e p.c.stopped_by_user p.stop_mark (sym why ∙ due) in
            (
              policy_asks p.c e asked (rw (same_restart, same_detach) at place),
              by_user,
              mark,
              fresh,
              rw done charged,
            ))
      | inr skipped ↦ absurd (ground (arith, h, skipped))
    ]

-- The counters of the crash-loop guard are those of `d`.
abbrev pub SameCounters : Container → Container → Type 0
SameCounters d c =
    (c.restart_attempts ≡ d.restart_attempts)
    × (c.restart_window_start ≡ d.restart_window_start)
    × (c.restart_blocked ≡ d.restart_blocked)

load-SameCounters :
    (alive : Bool) (o : SaveOutcome) (d : Container) (p : Process)
    → p.disk ≡ some d
    → SameCounters d (load alive o p).c × IfOnDisk (SameCounters d) (load alive o p).disk
unfolding load
load-SameCounters alive o d p h = ground arith

release_stopped-SameCounters :
    (now : ℕ) (o : SaveOutcome) (d : Container) (p : Process)
    → SameCounters d p.c
    → IfOnDisk (SameCounters d) p.disk
    → IfOnDisk (SameCounters d) (release_stopped now o p).disk
unfolding release_stopped
release_stopped-SameCounters now written d p h g = h
release_stopped-SameCounters now refused d p h g = g
release_stopped-SameCounters now chmod_failed d p h g = h

finalize_stopped-SameCounters :
    (e : ℤ) (now : ℕ) (o : SaveOutcome) (d : Container) (p : Process)
    → SameCounters d p.c
    → IfOnDisk (SameCounters d) p.disk
    → IfOnDisk (SameCounters d) (finalize_stopped e now o p).0.disk
unfolding finalize_stopped
finalize_stopped-SameCounters e now o d p h g = elim (Bool-cases p.c.cleanup_started) [
  | inl done ↦ simp done g
  | inr fresh ↦
      simp (fresh, (mark_stable_lem now (release_stopped now o p)).0)
        (release_stopped-SameCounters now o d p h g)
]

settle-IfOnDisk :
    (P : Container → Type 0) (deleted finalized restart : Bool) (p : Process)
    → IfOnDisk P p.disk
    → IfOnDisk P (settle deleted finalized restart p).0.disk
unfolding settle
settle-IfOnDisk P deleted false restart p h = h
settle-IfOnDisk P deleted true true p h = h
settle-IfOnDisk P true true false p h = elim (Bool-cases p.c.remove_on_exit) [
  | inl gone ↦ simp gone tt
  | inr kept ↦ simp kept h
]
settle-IfOnDisk P false true false p h = elim (Bool-cases p.c.remove_on_exit) [
  | inl gone ↦ simp gone h
  | inr kept ↦ simp kept h
]

-- An exit that the supervisor handles leaves the restart counters of the state file as they were,
-- however long the container had been running: the state that `markStableIfNeeded` clears is
-- dropped without a save.
pub handle_main_process_exit-keeps_counters :
    (alive : Bool) (o : SaveOutcome) (now : ℕ) (o' : SaveOutcome) (deleted : Bool) (c d : Container)
    (mark : Bool)
    → IfOnDisk
        (SameCounters d)
        (handle_main_process_exit alive o now o' deleted
          (record { c = c; disk = some d; stop_mark = mark })).0.disk
unfolding handle_main_process_exit
handle_main_process_exit-keeps_counters alive o now o' deleted c d mark =
    let p : Process = record { c = c; disk = some d; stop_mark = mark } in
    let q = load alive o p in
    let (in_memory, on_disk) = load-SameCounters alive o d p refl in
    let kept : IfOnDisk (SameCounters d) (finalize_stopped (pos 0) now o' q).0.disk =
      finalize_stopped-SameCounters (pos 0) now o' d q in_memory on_disk in
    settle-IfOnDisk (SameCounters d) deleted (finalize_stopped (pos 0) now o' q).1
      (finalize_stopped (pos 0) now o' q).2 (finalize_stopped (pos 0) now o' q).0 kept
