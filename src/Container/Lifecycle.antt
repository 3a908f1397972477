-- ===== src/Container/Lifecycle.antt =====
-- internal/container/start.go and stop.go: what an exit and a stop do to a container's state, and
-- which of them leads to an automatic restart. Signals, cgroups, the network and log files are
-- outside the state; each file operation's outcome is an argument.
pub mod Stop
pub mod Exit
use dck.Base.{
  ℕ, zero, suc, Bool, true, false, ◌&&◌, ◌||◌, not, Option, none, some, if◌then◌else◌, ltb, [],
  List,
}
use dck.Base.Int.{ℤ, pos, negsuc}
use dck.Base.Bytes.{Bytes, codes, str_eq}
use dck.Container.Types.{
  Container, Status, Process, SaveOutcome, created, running, stopped, save, save_ok,
}
use dck.Container.Load.{is_running, is_stopped, load}
use dck.Container.RestartGuard.{mark_stable_if_needed, allow_automatic_restart}

abbrev pub is_zero : ℤ → Bool
is_zero (pos zero) = true
is_zero (pos (suc n)) = false
is_zero (negsuc n) = false

unfoldable pub should_restart : Bytes → ℤ → Bool → Bool
should_restart policy exit_code stopped_by_user =
    if stopped_by_user
    then false
    else if str_eq policy (codes "always")
    then true
    else if str_eq policy (codes "unless-stopped")
    then true
    else if str_eq policy (codes "on-failure")
    then not (is_zero exit_code)
    else false

-- The state that is cleared when a container's processes are gone.
unfoldable pub clear_processes : Container → Container
clear_processes c = record c {
  pid = 0;
  unshare_pid = 0;
  mount_namespace = 0;
  pid_namespace = 0;
  network_namespace = 0;
  ipc_namespace = 0;
  uts_namespace = 0;
  status = stopped;
}

-- `cleanupNetwork`, with the rootless port forwarders, and `killConsoleServe`, as the state sees them.
unfoldable pub release_resources : Container → Container
release_resources c = record c { ip = []; console_serve_pid = 0; port_forward_pids = [] }

-- The first part of `finalizeStopped`, up to its save.
unfoldable pub release_stopped : ℕ → SaveOutcome → Process → Process
unfolding clear_processes release_resources save
release_stopped now o p = save o (record p {
  c =
      release_resources
        (record (clear_processes (record c { cleanup_started = true })) { last_exit_at = now });
})
  where
    open p use {c}

-- The results are the new state, `finalized` and `restart`.
unfoldable pub finalize_stopped : ℤ → ℕ → SaveOutcome → Process → Process × Bool × Bool
finalize_stopped exit_code now o p = if c.cleanup_started then (p, false, false) else (
  mark_stable_if_needed now (release_stopped now o p),
  true,
  should_restart c.restart exit_code (c.stopped_by_user || p.stop_mark),
)
  where
    open p use {c}

-- `cleanupContainer` deletes the state file; the deletion may fail.
unfoldable pub cleanup_container : Bool → Process → Process
unfolding release_resources
cleanup_container deleted p = record p {
  c = release_resources p.c;
  disk = if deleted then none else p.disk;
}

-- What the goroutine of `monitorContainer` does behind the exit: nothing, since another path owns the
-- cleanup or no restart is due; start the delay before a restart; refuse it; or clean up.
pub data ExitAction : Type 0 where
  idle scheduled exhausted cleaned : ExitAction

module _ (parse_duration : Bytes → Option ℤ) where
  unfoldable pub decide_restart : ℕ → SaveOutcome → Bool → Bool → Process → Process × ExitAction
  decide_restart now o deleted restart p =
      if restart && (not p.c.detach || str_eq p.c.restart (codes "on-failure"))
      then (let (p', ok) = allow_automatic_restart parse_duration now o p in
          (p', if ok then scheduled else exhausted))
      else if p.c.remove_on_exit
      then (cleanup_container deleted p, cleaned)
      else (p, idle)

  unfoldable pub monitor_exit :
      ℤ → ℕ → SaveOutcome → ℕ → SaveOutcome → Bool → Process → Process × ExitAction
  monitor_exit exit_code now o now' o' deleted p =
      let (p', finalized, restart) = finalize_stopped exit_code now o p in
      if finalized then decide_restart now' o' deleted restart p' else (p', idle)

-- What is left to do once `finalizeStopped` has returned to the supervisor.
unfoldable pub settle : Bool → Bool → Bool → Process → Process × Bool
unfolding cleanup_container
settle deleted finalized restart p =
    if not finalized
    then (p, false)
    else if not restart && p.c.remove_on_exit
    then (cleanup_container deleted p, true)
    else (p, true)

-- `HandleMainProcessExit` of the supervisor: it loads the state file, finalizes what it has loaded,
-- and drops it. The result is the state file; a file that cannot be loaded is left as it is.
unfoldable pub handle_main_process_exit :
    Bool → SaveOutcome → ℕ → SaveOutcome → Bool → Process → Process × Bool
handle_main_process_exit alive o now o' deleted p = elim p.disk [
  | none ↦ (p, false)
  | some d ↦
      (let (p', finalized, restart) = finalize_stopped (pos 0) now o' (load alive o p) in
        settle deleted finalized restart p')
]

-- The test behind the delay: the stop mark first, and then the state file as `Load` reads it.
unfoldable pub can_restart_after_delay : Bool → SaveOutcome → Process → Bool
unfolding load
can_restart_after_delay alive o p = if p.stop_mark then false else elim p.disk [
  | none ↦ false
  | some d ↦
      (let c = (load alive o p).c in if is_stopped c.status then not c.stopped_by_user else false)
]

pub data StopResult : Type 0 where
  stop_ok not_running save_failed : StopResult

unfoldable pub finalize_stop_state : SaveOutcome → Process → Process
unfolding clear_processes release_resources save
finalize_stop_state o p = save o (record p { c = clear_processes (release_resources p.c) })

abbrev mark_stopped : Process → Process
mark_stopped p = record p { c = record c { stopped_by_user = true }; stop_mark = true }
  where
    open p use {c}

-- The branch of `Stop` for a container that is not running. `console_alive` says whether the console
-- server's process lives.
unfoldable pub stop_not_running : Bool → SaveOutcome → Process → Process × StopResult
unfolding release_resources save save_ok
stop_not_running console_alive o p =
    let q =
      if ltb 0 p.c.pid || ltb 0 p.c.unshare_pid || console_alive
      then record p { c = release_resources p.c }
      else p in
    if is_stopped q.c.status && not (str_eq q.c.restart []) && not (str_eq q.c.restart (codes "no"))
    then (save o (mark_stopped q), if save_ok o then stop_ok else save_failed)
    else (q, not_running)

unfoldable pub stop : Bool → SaveOutcome → SaveOutcome → Process → Process × StopResult
unfolding stop_not_running finalize_stop_state save save_ok
stop console_alive o o' p =
    if not (is_running p.c.status)
    then stop_not_running console_alive o p
    else if p.c.cleanup_started
    then (p, stop_ok)
    else (let q = save o (mark_stopped (record p { c = record c { cleanup_started = true } })) in
        if save_ok o then (finalize_stop_state o' q, stop_ok) else (q, save_failed))
  where
    open p use {c}
