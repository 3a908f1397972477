-- ===== src/Container/RestartGuard.antt =====
-- internal/container/restart_guard.go: the crash-loop budget of automatic restarts.
-- `time.ParseDuration` is a parameter, since it computes fractions in float64.
pub mod Budget
use dck.Base.{
  ℕ, zero, suc, ◌+◌, ◌-◌, ◌*◌, min, Bool, true, false, ◌||◌, Option, none, some, if◌then◌else◌, leb,
  ◌==◌, [],
}
use dck.Base.Int.{ℤ, pos, negsuc}
use dck.Base.Bytes.{Bytes, str_eq}
use dck.Container.Types.{Container, Process, SaveOutcome, minute, max_duration, save, save_ok}

abbrev pub default_restart_max_attempts : ℕ
default_restart_max_attempts = 5

abbrev pub default_restart_window : ℕ
default_restart_window = 10 * minute

abbrev pub stable_runtime_window : ℕ
stable_runtime_window = minute

-- The value of a positive integer, and the default for any other.
abbrev pub positive_or : ℕ → ℤ → ℕ
positive_or d (pos zero) = d
positive_or d (pos (suc n)) = suc n
positive_or d (negsuc n) = d

unfoldable pub restart_max_attempts : Container → ℕ
restart_max_attempts c = positive_or default_restart_max_attempts c.restart_max_attempts

-- A parse error gives the default too.
abbrev pub duration_or : ℕ → Option ℤ → ℕ
duration_or d none = d
duration_or d (some v) = positive_or d v

-- `now.Sub(t)`, which saturates. Where `now` is before `t` it is negative, and 0 here: both are
-- below every positive duration.
unfoldable pub elapsed : ℕ → ℕ → ℕ
elapsed now t = min (now - t) max_duration

unfoldable pub reset_restart_guard : ℕ → Process → Process
reset_restart_guard now p = record p {
  c = record c { restart_attempts = 0; restart_window_start = now; restart_blocked = false };
}
  where
    open p use {c}

unfoldable pub mark_stable_if_needed : ℕ → Process → Process
unfolding elapsed reset_restart_guard
mark_stable_if_needed now p =
    if p.c.last_started_at == 0
    then p
    else if leb stable_runtime_window (elapsed now p.c.last_started_at)
    then reset_restart_guard now p
    else p

module _ (parse_duration : Bytes → Option ℤ) where
  unfoldable pub restart_window_duration : Container → ℕ
  restart_window_duration c =
      if str_eq c.restart_window []
      then default_restart_window
      else duration_or default_restart_window (parse_duration c.restart_window)

  -- Opens a new window where none is open, or where the open one has passed.
  unfoldable pub roll_window : ℕ → Container → Container
  unfolding restart_window_duration elapsed
  roll_window now c =
      if c.restart_window_start == 0
        || leb (restart_window_duration c) (elapsed now c.restart_window_start)
      then record c { restart_window_start = now; restart_attempts = 0 }
      else c

  -- Charges one attempt to the open window, or blocks the container.
  unfoldable pub charge : SaveOutcome → Process → Process × Bool
  unfolding restart_max_attempts save save_ok
  charge o p =
      if leb (restart_max_attempts c) c.restart_attempts
      then (save o (record p { c = record c { restart_blocked = true } }), false)
      else (
        save o (record p { c = record c { restart_attempts = c.restart_attempts + 1 } }),
        save_ok o,
      )
    where
      open p use {c}

  unfoldable pub allow_automatic_restart : ℕ → SaveOutcome → Process → Process × Bool
  unfolding roll_window charge
  allow_automatic_restart now o p =
      if p.c.restart_blocked then (p, false) else charge o (record p { c = roll_window now p.c })
