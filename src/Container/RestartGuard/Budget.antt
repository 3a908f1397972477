-- ===== src/Container/RestartGuard/Budget.antt =====
-- What the crash-loop guard promises over any sequence of attempts and reloads.
use dck.Base.{
  ℕ, ◌+◌, ◌≤◌, ◌<◌, ◌≡◌, Bool, true, false, Option, some, List, [], ◌∷◌, arith, All, if◌then◌else◌,
  refl, ◌≢◌, ◌↔◌,
}
use dck.Base.Int.{ℤ}
use dck.Base.Bytes.{Bytes}
use dck.Container.Types.{Container, Process, SaveOutcome, written, persisted, OnDisk}
use dck.Container.Load.{load}
use dck.Container.RestartGuard.{
  restart_max_attempts, restart_window_duration, roll_window, elapsed, allow_automatic_restart,
}

-- What happens to a container between two explicit starts: an automatic restart is asked for, or
-- another process takes over from the state file.
pub data Event : Type 0 where
  attempt : ℕ → SaveOutcome → Event
  reload : Bool → SaveOutcome → Event

module _ (parse_duration : Bytes → Option ℤ) where
  unfoldable pub step : Event → Process → Process × Bool
  step (attempt now o) p = allow_automatic_restart parse_duration now o p
  step (reload alive o) p = (load alive o p, false)

  -- How many restarts a sequence of events grants.
  unfoldable pub granted : List Event → Process → ℕ
  unfolding step
  granted [] p = 0
  granted (e ∷ es) p = let (p', ok) = step e p in (if ok then 1 else 0) + granted es p'

-- The attempt falls into the window of length `w` that opened at `s`.
abbrev pub WithinWindow : ℕ → ℕ → Event → Type 0
WithinWindow s w (attempt now o) = elapsed now s < w
WithinWindow s w (reload alive o) = Unit

module _ (parse_duration : Bytes → Option ℤ) (s w limit : ℕ) where
  -- The container's window opened at `s` and lasts `w`, and at least `n` attempts are charged to it.
  pub record Charged (n : ℕ) (c : Container) : Type 0 where
    pub opened : c.restart_window_start ≡ s
    pub same_length : restart_window_duration parse_duration c ≡ w
    pub same_limit : restart_max_attempts c ≡ limit
    pub charged : n ≤ c.restart_attempts
    pub within : c.restart_attempts ≤ limit

  -- That holds in memory and in the state file.
  abbrev pub Guarded : ℕ → Process → Type 0
  Guarded n p = Charged n p.c × OnDisk (Charged n) p.disk

  attempt-Guarded :
      (now : ℕ) (o : SaveOutcome) (n : ℕ) (p : Process)
      → s ≢ 0
      → elapsed now s < w
      → Guarded n p
      → let (p', b) = allow_automatic_restart parse_duration now o p in
        Guarded ((if b then 1 else 0) + n) p'
  unfolding allow_automatic_restart
  attempt-Guarded now o n p pos h g = ground arith

  load-Guarded :
      (alive : Bool) (o : SaveOutcome) (n : ℕ) (p : Process)
      → Guarded n p
      → Guarded n (load alive o p)
  unfolding load restart_max_attempts restart_window_duration
  load-Guarded alive o n p g = ground arith

  granted_bound :
      (es : List Event) (n : ℕ) (p : Process)
      → s ≢ 0
      → All (WithinWindow s w) es
      → Guarded n p
      → granted parse_duration es p + n ≤ limit
  unfolding granted
  granted_bound [] n p pos h g = omega arith
  granted_bound (attempt now o ∷ es) n p pos h g =
      let (p', b) = allow_automatic_restart parse_duration now o p in
      omega (
        arith,
        granted_bound es ((if b then 1 else 0) + n) p' pos h.1
            (attempt-Guarded now o n p pos h.0 g),
      )
  granted_bound (reload alive o ∷ es) n p pos h g =
      omega (arith, granted_bound es n (load alive o p) pos h.1 (load-Guarded alive o n p g))

-- Start from a container whose state file is up to date and whose restart window is open. Whatever
-- attempts and reloads follow within that window, and however their saves end, the restarts that
-- are granted and those already charged are together at most the configured budget.
pub granted-le-budget :
    (parse_duration : Bytes → Option ℤ) (es : List Event) (p : Process)
    → p.disk ≡ some (persisted p.c)
    → p.c.restart_window_start ≢ 0
    → p.c.restart_attempts ≤ restart_max_attempts p.c
    → All (WithinWindow p.c.restart_window_start (restart_window_duration parse_duration p.c)) es
    → granted parse_duration es p + p.c.restart_attempts ≤ restart_max_attempts p.c
unfolding persisted restart_max_attempts restart_window_duration
granted-le-budget pd es p synced pos fits h =
    granted_bound pd p.c.restart_window_start (restart_window_duration pd p.c)
      (restart_max_attempts p.c) es p.c.restart_attempts p pos h
      (
        record {
          opened = refl;
          same_length = refl;
          same_limit = refl;
          charged = omega arith;
          within = fits;
        },
        ground arith,
      )

-- A restart is granted exactly if the container is not blocked, the budget of its window, opened
-- anew where none is open or the last has passed, is not used up, and the attempt reached the state
-- file without an error.
pub allow-true_iff :
    (parse_duration : Bytes → Option ℤ) (now : ℕ) (o : SaveOutcome) (p : Process)
    → ((allow_automatic_restart parse_duration now o p).1 ≡ true) ↔ (
        (p.c.restart_blocked ≡ false)
        × ((roll_window parse_duration now p.c).restart_attempts < restart_max_attempts p.c)
        × (o ≡ written))
unfolding allow_automatic_restart
allow-true_iff pd now o p = (ground arith, ground arith)

-- A granted restart was charged before it was granted: the state file holds the very state in
-- memory, with one attempt more than the window had, at most the budget, and not blocked.
pub allow_charged :
    (parse_duration : Bytes → Option ℤ) (now : ℕ) (o : SaveOutcome) (p : Process)
    → (allow_automatic_restart parse_duration now o p).1 ≡ true
    → let p' = (allow_automatic_restart parse_duration now o p).0 in
      (p'.disk ≡ some (persisted p'.c))
      × (p'.c.restart_attempts ≡ (roll_window parse_duration now p.c).restart_attempts + 1)
      × (p'.c.restart_attempts ≤ restart_max_attempts p'.c)
      × (p'.c.restart_blocked ≡ false)
unfolding allow_automatic_restart persisted
allow_charged pd now o p h = (ground arith, ground arith, ground arith, ground arith)
