-- ===== src/Supervisor/Examples.antt =====
-- A crashed container in the supervisor's hands.
use dck.Base.{◌*◌, ◌≤◌, ◌≡◌, true, false, Option, none, some, [], refl, inr}
use dck.Base.Int.{ℤ, pos}
use dck.Base.Bytes.{Bytes, codes}
use dck.Container.Types.{Container, Process, written, stopped, second, persisted, save, save_ok}
use dck.Container.Load.{load, normalize_loaded_state}
use dck.Container.RestartGuard.{
  allow_automatic_restart, charge, roll_window, restart_max_attempts, restart_window_duration,
  elapsed,
}
use dck.Supervisor.{
  Clock, Outside, started, adopt, deadline_of, first_deadline, restart_due, restart_fresh,
  eligible_for_supervisor, supervisor_restart_delay,
}
use dck.Supervisor.Adoption.{adopt_waits, adopt_ignores_disk}

abbrev no_durations : Bytes → Option ℤ
no_durations s = none

-- A detached container that crashed 100 s after the beginning of time.
abbrev crashed : Container
crashed = record {
  id = codes "db";
  name = codes "db";
  pid = 0;
  unshare_pid = 0;
  mount_namespace = 0;
  pid_namespace = 0;
  network_namespace = 0;
  ipc_namespace = 0;
  uts_namespace = 0;
  status = stopped;
  ports = [];
  restart = codes "unless-stopped";
  restart_delay = [];
  restart_max_attempts = pos 0;
  restart_attempts = 0;
  restart_window = [];
  restart_window_start = 0;
  last_started_at = 0;
  restart_blocked = false;
  ip = [];
  detach = true;
  remove_on_exit = false;
  stopped_by_user = false;
  last_exit_at = 100 * second;
  network_mode = [];
  console_serve_pid = 0;
  port_forward_pids = [];
  cleanup_started = false;
}

abbrev clock : Clock
clock = record {
  listed = 105 * second;
  checked = 105 * second;
  charged = 105 * second;
  failed = 106 * second;
}

abbrev env : Outside
env = record {
  charge_save = written;
  load_save = written;
  being_removed = false;
  alive = false;
  start_ok = true;
}

abbrev listed : Process
listed = record { c = crashed; disk = some crashed; stop_mark = false }

starts : (adopt no_durations clock env (some 0) listed).decision ≡ started
unfolding adopt deadline_of first_deadline restart_due restart_fresh eligible_for_supervisor
    supervisor_restart_delay allow_automatic_restart charge roll_window restart_max_attempts
    restart_window_duration elapsed save save_ok persisted load normalize_loaded_state
starts = refl

adopt_waits_example : 101 * second ≤ 105 * second
unfolding supervisor_restart_delay
adopt_waits_example = adopt_waits no_durations clock env listed (λ e. cc) (inr starts)

-- The user had stopped the container after it was listed.
adopt_ignores_disk_example :
    adopt no_durations clock env (some 0) (record {
      c = crashed;
      disk = some (record crashed { stopped_by_user = true });
      stop_mark = false;
    })
    ≡ adopt no_durations clock env (some 0) listed
adopt_ignores_disk_example =
    adopt_ignores_disk no_durations clock env (some 0) crashed false (some crashed)
      (some (record crashed { stopped_by_user = true })) refl starts
