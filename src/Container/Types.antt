-- ===== src/Container/Types.antt =====
-- internal/container/types.go: the container's record, and what `Save` leaves on disk.
-- A `time.Time` is a number of nanoseconds since Go's zero time, so 0 is the value with `IsZero`.
use dck.Base.{ℕ, ◌*◌, ◌^◌, ◌-◌, Bool, true, false, Option, none, some, List}
use dck.Base.Int.{ℤ}
use dck.Base.Bytes.{Bytes}

pub data Status : Type 0 where
  created running stopped : Status

pub record PortMap : Type 0 where
  pub host_port : ℤ
  pub container_port : ℤ
  pub protocol : Bytes

-- The fields that the modelled operations read or write.
pub record Container : Type 0 where
  pub id : Bytes
  pub name : Bytes
  pub pid : ℕ
  pub unshare_pid : ℕ
  pub mount_namespace : ℕ
  pub pid_namespace : ℕ
  pub network_namespace : ℕ
  pub ipc_namespace : ℕ
  pub uts_namespace : ℕ
  pub status : Status
  pub ports : List PortMap
  pub restart : Bytes
  pub restart_delay : Bytes
  pub restart_max_attempts : ℤ
  pub restart_attempts : ℕ
  pub restart_window : Bytes
  pub restart_window_start : ℕ
  pub last_started_at : ℕ
  pub restart_blocked : Bool
  pub ip : Bytes
  pub detach : Bool
  pub remove_on_exit : Bool
  pub stopped_by_user : Bool
  pub last_exit_at : ℕ
  pub network_mode : Bytes
  pub console_serve_pid : ℕ
  pub port_forward_pids : List ℕ
  pub cleanup_started : Bool

abbrev pub second : ℕ
second = 10 ^ 9

abbrev pub minute : ℕ
minute = 60 * second

-- The largest `time.Duration`, at which `Time.Sub` saturates.
abbrev pub max_duration : ℕ
max_duration = 2 ^ 63 - 1

-- How a call of `Save` ends: the file is replaced; an error comes before the rename; or the rename
-- is done and the `Chmod` behind it fails.
pub data SaveOutcome : Type 0 where
  written refused chmod_failed : SaveOutcome

-- A process that holds a container in memory, the container's state file, and whether the
-- process-wide map `stoppedContainers` holds the container's id.
pub record Process : Type 0 where
  pub c : Container
  pub disk : Option Container
  pub stop_mark : Bool

-- Runtime-only fields have the tag `json:"-"`: they come back as zero values.
unfoldable pub persisted : Container → Container
persisted c = record c { cleanup_started = false }

-- `Save` puts the state on disk and reports whether it met no error.
unfoldable pub save : SaveOutcome → Process → Process
unfolding persisted
save written p = record p { disk = some (persisted p.c) }
save chmod_failed p = record p { disk = some (persisted p.c) }
save refused p = p

unfoldable pub save_ok : SaveOutcome → Bool
save_ok written = true
save_ok chmod_failed = false
save_ok refused = false

-- The state file is there, and its state satisfies `P`.
abbrev pub OnDisk : (Container → Type 0) → Option Container → Type 0
OnDisk P none = ⊥
OnDisk P (some d) = P d

-- The state file, if it is there, satisfies `P`.
abbrev pub IfOnDisk : (Container → Type 0) → Option Container → Type 0
IfOnDisk P none = Unit
IfOnDisk P (some d) = P d
