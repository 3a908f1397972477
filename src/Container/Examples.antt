-- ===== src/Container/Examples.antt =====
-- Runs of internal/container on concrete containers.
use dck.Base.{
  ℕ, ◌+◌, ◌*◌, ◌≤◌, ◌≡◌, ◌≢◌, Bool, true, false, Option, none, some, List, [], ◌∷◌, arith, refl,
  if◌then◌else◌, All,
}
use dck.Base.Int.{ℤ, pos}
use dck.Base.Int64.{is_digit, from_word}
use dck.Base.Bytes.{Bytes, codes, str_eq}
use dck.Container.Types.{
  Container, PortMap, Process, SaveOutcome, written, refused, running, minute, second, persisted,
  save, save_ok, OnDisk, IfOnDisk,
}
use dck.Container.Load.{load, normalize_loaded_state}
use dck.Container.RestartGuard.{
  restart_max_attempts, restart_window_duration, roll_window, charge, elapsed,
  allow_automatic_restart, mark_stable_if_needed, reset_restart_guard,
}
use dck.Container.RestartGuard.Budget.{Event, attempt, reload, step, granted, granted-le-budget}
use dck.Container.Lifecycle.{
  should_restart, release_resources, clear_processes, release_stopped, finalize_stopped,
  decide_restart, monitor_exit, handle_main_process_exit, can_restart_after_delay, scheduled, stop,
  stop_ok, finalize_stop_state,
}
use dck.Container.Lifecycle.Stop.{
  StopEvent, supervised_exit, own_exit, happen, stop_cancels_restart,
}
use dck.Container.Lifecycle.Exit.{
  AsksForRestart, ChargedOnce, monitor_exit-scheduled, handle_main_process_exit-keeps_counters,
  SameCounters,
}
use dck.Container.Memory.{multiplier, parse_memory_string}
use dck.Container.Memory.Exact.{parse_memory_string_lem}
use dck.Container.Ports.{add_port, forward_failed}

-- A parser that knows one duration.
abbrev durations : Bytes → Option ℤ
durations s = if str_eq s (codes "1m") then some (pos minute) else none

abbrev http : PortMap
http = record { host_port = pos 8080; container_port = pos 80; protocol = codes "tcp" }

-- A container that runs, was restarted twice in the window that opened at 100 s, and is to be
-- restarted always.
abbrev web : Container
web = record {
  id = codes "web";
  name = codes "web";
  pid = 42;
  unshare_pid = 41;
  mount_namespace = 7;
  pid_namespace = 8;
  network_namespace = 9;
  ipc_namespace = 10;
  uts_namespace = 11;
  status = running;
  ports = http ∷ [];
  restart = codes "always";
  restart_delay = [];
  restart_max_attempts = pos 3;
  restart_attempts = 2;
  restart_window = codes "1m";
  restart_window_start = 100 * second;
  last_started_at = 101 * second;
  restart_blocked = false;
  ip = codes "10.0.0.2";
  detach = false;
  remove_on_exit = false;
  stopped_by_user = false;
  last_exit_at = 0;
  network_mode = [];
  console_serve_pid = 0;
  port_forward_pids = [];
  cleanup_started = false;
}

abbrev web_process : Process
web_process = record { c = web; disk = some web; stop_mark = false }

-- Three crashes within the minute, and a supervisor that takes over between them.
abbrev crashes : List Event
crashes =
    attempt (110 * second) written
    ∷ reload true written
    ∷ attempt (120 * second) written
    ∷ attempt (130 * second) refused
    ∷ []

granted-le-budget_example : granted durations crashes web_process + 2 ≤ 3
unfolding restart_max_attempts restart_window_duration persisted
granted-le-budget_example =
    granted-le-budget durations crashes web_process refl (λ e. cc) (ground arith)
      (unfold elapsed in (ground arith, (tt, (ground arith, (ground arith, tt)))))

-- Only the first of the three is granted.
granted-crashes : granted durations crashes web_process ≡ 1
unfolding granted step restart_max_attempts restart_window_duration allow_automatic_restart charge
    roll_window elapsed save save_ok persisted load normalize_loaded_state
granted-crashes = refl

granted_once : (allow_automatic_restart durations (110 * second) written web_process).1 ≡ true
unfolding allow_automatic_restart charge roll_window restart_window_duration restart_max_attempts
    elapsed save save_ok
granted_once = refl

stopped_web : (stop false written refused web_process).1 ≡ stop_ok
unfolding stop save save_ok finalize_stop_state
stopped_web = refl

-- The supervisor handles an exit, this process another.
abbrev after_stop : List StopEvent
after_stop =
    supervised_exit false written (109 * second) written true
    ∷ own_exit (pos 1) (110 * second) written (110 * second) written true
    ∷ []

stop_cancels_restart_example :
    let q = happen durations after_stop (stop false written refused web_process).0 in
    ((exit_code : ℤ) (now : ℕ) (s : SaveOutcome) (now' : ℕ) (s' : SaveOutcome) (deleted : Bool)
      → (monitor_exit durations exit_code now s now' s' deleted q).1 ≢ scheduled)
    × ((alive mark : Bool) (s : SaveOutcome) (c : Container)
        → can_restart_after_delay alive s (record { c = c; disk = q.disk; stop_mark = mark })
          ≡ false)
stop_cancels_restart_example =
    stop_cancels_restart durations false written refused web_process after_stop refl stopped_web

crashed_web :
    (monitor_exit durations
      (pos 1)
      (110 * second)
      written
      (110 * second)
      written
      true
      web_process).1
    ≡ scheduled
unfolding monitor_exit finalize_stopped release_stopped clear_processes release_resources
    mark_stable_if_needed elapsed reset_restart_guard should_restart decide_restart
    allow_automatic_restart charge roll_window restart_window_duration restart_max_attempts save
    save_ok
crashed_web = refl

monitor_exit-scheduled_example :
    AsksForRestart web (pos 1)
    × (false ≡ false)
    × (false ≡ false)
    × (false ≡ false)
    × OnDisk
        (ChargedOnce
          (roll_window durations
            (110 * second)
            (finalize_stopped (pos 1) (110 * second) written web_process).0.c).restart_attempts)
        (monitor_exit durations
          (pos 1)
          (110 * second)
          written
          (110 * second)
          written
          true
          web_process).0.disk
monitor_exit-scheduled_example =
    monitor_exit-scheduled durations (pos 1) (110 * second) written (110 * second) written true
      web_process crashed_web

-- The container had been running for more than a minute.
handle_main_process_exit-keeps_counters_example :
    IfOnDisk
      (SameCounters web)
      (handle_main_process_exit true written
        (200 * second)
        written
        true
        (record { c = web; disk = some web; stop_mark = false })).0.disk
handle_main_process_exit-keeps_counters_example =
    handle_main_process_exit-keeps_counters true written (200 * second) written true web web false

big_size_digits : All (λ d. is_digit d ≡ true) (codes "17179869184")
big_size_digits =
    (refl, (refl, (refl, (refl, (refl, (refl, (refl, (refl, (refl, (refl, (refl, tt)))))))))))

-- 16 EiB is read as 0, which the callers take for "no limit".
parse_memory_string_lem_example : parse_memory_string (codes "17179869184g") ≡ some (pos 0)
unfolding from_word
parse_memory_string_lem_example =
    parse_memory_string_lem (codes "17179869184") b'g' (1024 * 1024 * 1024) (λ e. cc)
      big_size_digits (ground arith) (unfold multiplier in refl)

added_ok :
    (add_port false (some []) written (pos 9000) (pos 90) [] web_process).1 ≢ some forward_failed
unfolding add_port save_ok
added_ok e = cc
