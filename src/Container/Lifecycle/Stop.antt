-- ===== src/Container/Lifecycle/Stop.antt =====
-- What a stop by the user promises: the container does not come back by itself.
use dck.Base.{
  ℕ, ◌≡◌, ◌≢◌, Bool, true, false, Option, none, some, List, [], ◌∷◌, arith, Option-cases, inl, inr,
}
use dck.Base.Int.{ℤ, pos}
use dck.Base.Bytes.{Bytes}
use dck.Container.Types.{Container, Process, SaveOutcome, persisted, save, OnDisk, IfOnDisk}
use dck.Container.Load.{load, normalize_loaded_state}
use dck.Container.RestartGuard.{mark_stable_if_needed, reset_restart_guard}
use dck.Container.Lifecycle.{
  stop, stop_ok, monitor_exit, finalize_stopped, decide_restart, should_restart, scheduled,
  can_restart_after_delay, release_stopped, clear_processes, release_resources, cleanup_container,
  settle, handle_main_process_exit,
}

-- A stop that reports success on a container whose cleanup has not begun leaves the user's wish in
-- memory, in the process-wide map and in the state file, however the second save ends.
pub stop_recorded :
    (console_alive : Bool) (o o' : SaveOutcome) (p : Process)
    → p.c.cleanup_started ≡ false
    → (stop console_alive o o' p).1 ≡ stop_ok
    → let q = (stop console_alive o o' p).0 in
      (q.stop_mark ≡ true)
      × (q.c.stopped_by_user ≡ true)
      × OnDisk (λ d. d.stopped_by_user ≡ true) q.disk
unfolding stop persisted
stop_recorded k o o' p h ok = (ground arith, ground arith, ground arith)

module _ (parse_duration : Bytes → Option ℤ) where
  no_restart_of_stopped :
      (exit_code : ℤ) (now : ℕ) (o : SaveOutcome) (now' : ℕ) (o' : SaveOutcome) (deleted : Bool)
      (p : Process)
      → p.c.stopped_by_user ≡ true
      → (monitor_exit parse_duration exit_code now o now' o' deleted p).1 ≢ scheduled
  unfolding monitor_exit finalize_stopped decide_restart should_restart
  no_restart_of_stopped e now o now' o' deleted p h = rw h (ground arith)

delay_refused_by_disk :
    (alive : Bool) (o : SaveOutcome) (p : Process)
    → IfOnDisk (λ d. d.stopped_by_user ≡ true) p.disk
    → can_restart_after_delay alive o p ≡ false
unfolding can_restart_after_delay load normalize_loaded_state save
delay_refused_by_disk alive o p h = ground arith

-- What may happen to a container that is stopped: this process handles an exit; the supervisor, which
-- reads the state file first, handles one; or another process reads the state file.
pub data StopEvent : Type 0 where
  own_exit : ℤ → ℕ → SaveOutcome → ℕ → SaveOutcome → Bool → StopEvent
  supervised_exit : Bool → SaveOutcome → ℕ → SaveOutcome → Bool → StopEvent
  other_load : Bool → SaveOutcome → StopEvent

module _ (parse_duration : Bytes → Option ℤ) where
  unfoldable pub happens : StopEvent → Process → Process
  happens (own_exit e now o now' o' deleted) p =
      (monitor_exit parse_duration e now o now' o' deleted p).0
  happens (supervised_exit alive o now o' deleted) p = record p {
    disk = (handle_main_process_exit alive o now o' deleted p).0.disk;
  }
  happens (other_load alive o) p = record p { disk = (load alive o p).disk }

  abbrev pub happen : List StopEvent → Process → Process
  happen [] p = p
  happen (e ∷ es) p = happen es (happens e p)

-- The user's wish is in memory, and in the state file if it is there.
abbrev Wished : Process → Type 0
Wished p = (p.c.stopped_by_user ≡ true) × IfOnDisk (λ d. d.stopped_by_user ≡ true) p.disk

load-Wished : (alive : Bool) (o : SaveOutcome) (p : Process) → Wished p → Wished (load alive o p)
unfolding load normalize_loaded_state save
load-Wished alive o p h = (ground arith, ground arith)

finalize-Wished :
    (e : ℤ) (now : ℕ) (o : SaveOutcome) (p : Process)
    → Wished p
    → Wished (finalize_stopped e now o p).0
unfolding finalize_stopped release_stopped mark_stable_if_needed reset_restart_guard clear_processes
    release_resources save persisted
finalize-Wished e now o p h = (ground arith, ground arith)

cleanup-Wished : (deleted : Bool) (p : Process) → Wished p → Wished (cleanup_container deleted p)
unfolding cleanup_container release_resources
cleanup-Wished deleted p h = (ground arith, ground arith)

settle-Wished :
    (deleted finalized restart : Bool) (p : Process)
    → Wished p
    → Wished (settle deleted finalized restart p).0
unfolding settle
settle-Wished deleted finalized restart p h =
    (ground (arith, cleanup-Wished deleted p h), ground (arith, cleanup-Wished deleted p h))

supervised-Wished :
    (alive : Bool) (o : SaveOutcome) (now : ℕ) (o' : SaveOutcome) (deleted : Bool) (p : Process)
    → Wished p
    → Wished (handle_main_process_exit alive o now o' deleted p).0
unfolding handle_main_process_exit
supervised-Wished alive o now o' deleted p h = elim (Option-cases p.disk) [
  | inl gone ↦ rw (gone, handle_main_process_exit) h
  | inr (d, there) ↦
      (let f = finalize_stopped (pos 0) now o' (load alive o p) in
        rw (there, handle_main_process_exit)
          (settle-Wished deleted f.1 f.2 f.0
            (finalize-Wished (pos 0) now o' (load alive o p) (load-Wished alive o p h))))
]

module _ (parse_duration : Bytes → Option ℤ) where
  own-Wished :
      (e : ℤ) (now : ℕ) (o : SaveOutcome) (now' : ℕ) (o' : SaveOutcome) (deleted : Bool)
      (p : Process)
      → Wished p
      → Wished (monitor_exit parse_duration e now o now' o' deleted p).0
  unfolding monitor_exit decide_restart finalize_stopped should_restart
  own-Wished e now o now' o' deleted p h =
      let q = (finalize_stopped e now o p).0 in
      let hq = finalize-Wished e now o p h in
      rw h.0 (
        ground (arith, hq, cleanup-Wished deleted q hq),
        ground (arith, hq, cleanup-Wished deleted q hq),
      )

  happens-Wished : (e : StopEvent) (p : Process) → Wished p → Wished (happens parse_duration e p)
  unfolding happens
  happens-Wished (own_exit e now o now' o' deleted) p h = own-Wished e now o now' o' deleted p h
  happens-Wished (supervised_exit alive o now o' deleted) p h =
      (h.0, (supervised-Wished alive o now o' deleted p h).1)
  happens-Wished (other_load alive o) p h = (h.0, (load-Wished alive o p h).1)

  happen-Wished :
      (es : List StopEvent) (p : Process) → Wished p → Wished (happen parse_duration es p)
  happen-Wished [] p h = h
  happen-Wished (e ∷ es) p h = happen-Wished es (happens parse_duration e p) (happens-Wished e p h)

OnDisk-IfOnDisk :
    (P : Container → Type 0) (disk : Option Container) → OnDisk P disk → IfOnDisk P disk
OnDisk-IfOnDisk P none h = tt
OnDisk-IfOnDisk P (some d) h = h

-- After a stop that reports success on a container whose cleanup has not begun, and after any exits that
-- this process or the supervisor handles and any reads of the state file by other processes: no exit
-- that this process handles schedules a restart, and a restart whose delay is already running, in this
-- process or in another, is refused at its end. A process that has read the state before the stop and
-- writes it afterwards is not among these.
pub stop_cancels_restart :
    (parse_duration : Bytes → Option ℤ) (console_alive : Bool) (o o' : SaveOutcome) (p : Process)
    (es : List StopEvent)
    → p.c.cleanup_started ≡ false
    → (stop console_alive o o' p).1 ≡ stop_ok
    → let q = happen parse_duration es (stop console_alive o o' p).0 in
      ((exit_code : ℤ) (now : ℕ) (s : SaveOutcome) (now' : ℕ) (s' : SaveOutcome) (deleted : Bool)
        → (monitor_exit parse_duration exit_code now s now' s' deleted q).1 ≢ scheduled)
      × ((alive mark : Bool) (s : SaveOutcome) (c : Container)
          → can_restart_after_delay alive s (record { c = c; disk = q.disk; stop_mark = mark })
            ≡ false)
stop_cancels_restart pd k o o' p es h ok =
    let (_, by_user, on_disk) = stop_recorded k o o' p h ok in
    let q = happen pd es (stop k o o' p).0 in
    let (wished, kept) =
      happen-Wished pd es (stop k o o' p).0
        (by_user, OnDisk-IfOnDisk (λ d. d.stopped_by_user ≡ true) (stop k o o' p).0.disk on_disk) in
    (
      λ e now s now' s' deleted. no_restart_of_stopped pd e now s now' s' deleted q wished,
      λ alive mark s c.
          delay_refused_by_disk alive s (record { c = c; disk = q.disk; stop_mark = mark }) kept,
    )
