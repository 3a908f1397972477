-- ===== src/Container/Load.antt =====
-- internal/container/create.go: reading a container's state file, and what `Load` does to a state
-- that says "running" of a process which is gone. Here the id is the file's own.
use dck.Base.{Bool, ◌&&◌, not, none, some, if◌then◌else◌, true, false}
use dck.Container.Types.{Status, Process, SaveOutcome, running, stopped, save}

abbrev pub is_running : Status → Bool
is_running running = true
is_running _ = false

abbrev pub is_stopped : Status → Bool
is_stopped stopped = true
is_stopped _ = false

-- What `processAlive` reports is given as `alive`.
unfoldable pub normalize_loaded_state : Bool → SaveOutcome → Process → Process
unfolding save
normalize_loaded_state alive o p =
    if is_running p.c.status && not alive
    then save o (record p {
      c = record c {
        status = stopped;
        pid = 0;
        unshare_pid = 0;
        mount_namespace = 0;
        pid_namespace = 0;
        network_namespace = 0;
        ipc_namespace = 0;
        uts_namespace = 0;
      };
    })
    else p
  where
    open p use {c}

-- A missing file is an error, and leaves what the process holds.
unfoldable pub load : Bool → SaveOutcome → Process → Process
unfolding normalize_loaded_state
load alive o p = elim p.disk [
  | none ↦ p
  | some d ↦ normalize_loaded_state alive o (record p { c = d })
]
