-- ===== src/Supervisor.antt =====
-- cmd/supervisor.go: what one round of the supervisor does about one listed container. What `Start`
-- does to the state is outside the model: the decision to call it is the result.
pub mod Adoption
mod Examples
use dck.Base.{
  ℕ, ◌+◌, Bool, true, false, ◌&&◌, ◌||◌, not, Option, none, some, [], if◌then◌else◌, ◌==◌, ltb,
}
use dck.Base.Int.{ℤ}
use dck.Base.Bytes.{Bytes, codes, str_eq}
use dck.Container.Types.{Container, Process, SaveOutcome, second}
use dck.Container.Load.{is_running, load}
use dck.Container.RestartGuard.{duration_or, allow_automatic_restart}

unfoldable pub eligible_for_supervisor : Container → Bool
eligible_for_supervisor c =
    if not c.detach || c.stopped_by_user || is_running c.status || c.restart_blocked
    then false
    else str_eq c.restart (codes "always") || str_eq c.restart (codes "unless-stopped")

-- The times at which the round looks at the clock: for a new deadline, for the deadline's test, for
-- the budget, and behind a failed start.
pub record Clock : Type 0 where
  pub listed : ℕ
  pub checked : ℕ
  pub charged : ℕ
  pub failed : ℕ

-- What happens outside: how the saves of the budget and of the reload end, whether the container is
-- being removed, whether its process lives, and whether the start succeeds.
pub record Outside : Type 0 where
  pub charge_save : SaveOutcome
  pub load_save : SaveOutcome
  pub being_removed : Bool
  pub alive : Bool
  pub start_ok : Bool

pub data Decision : Type 0 where
  ignored waiting refused_by_budget forgotten started : Decision

-- The entry of the map `managed`, the container, and what was decided.
pub record Round : Type 0 where
  pub managed : Option ℕ
  pub process : Process
  pub decision : Decision

abbrev result : Option ℕ → Process → Decision → Round
result m p d = record { managed = m; process = p; decision = d }

module _ (parse_duration : Bytes → Option ℤ) where
  unfoldable pub supervisor_restart_delay : Container → ℕ
  supervisor_restart_delay c =
      if str_eq c.restart_delay []
      then second
      else duration_or second (parse_duration c.restart_delay)

  -- A container that is not managed yet gets a deadline.
  unfoldable pub first_deadline : ℕ → Option ℕ → Container → ℕ
  first_deadline now (some d) c = d
  first_deadline now none c =
      if c.last_exit_at == 0 then now else c.last_exit_at + supervisor_restart_delay c

  -- A deadline of zero was recorded while the container ran.
  unfoldable pub deadline_of : ℕ → Option ℕ → Container → ℕ
  unfolding first_deadline
  deadline_of now managed c =
      if first_deadline now managed c == 0 && not (c.last_exit_at == 0)
      then c.last_exit_at + supervisor_restart_delay c
      else first_deadline now managed c

  -- The part behind the budget: the state file is read again, and `Start` is called.
  unfoldable pub restart_fresh : Clock → Outside → ℕ → Process → Round
  unfolding load
  restart_fresh clock env deadline p =
      if env.being_removed then result none p forgotten else elim p.disk [
        | none ↦ result none p forgotten
        | some d ↦
            (let q = load env.alive env.load_save p in
              if is_running q.c.status || q.c.stopped_by_user || q.c.restart_blocked
              then result (some deadline) q ignored
              else result
                  (some (if env.start_ok then 0 else clock.failed + supervisor_restart_delay q.c)) q
                  started)
      ]

  unfoldable pub restart_due : Clock → Outside → ℕ → Process → Round
  restart_due clock env deadline p =
      if ltb clock.checked deadline
      then result (some deadline) p waiting
      else if not (eligible_for_supervisor p.c)
      then result (some deadline) p ignored
      else (let (q, ok) = allow_automatic_restart parse_duration clock.charged env.charge_save p in
          if ok
          then restart_fresh clock env deadline q
          else result (some deadline) q refused_by_budget)

  -- The body of the loop of `adoptEligibleContainers`: `p` holds the container as listed and its file.
  unfoldable pub adopt : Clock → Outside → Option ℕ → Process → Round
  adopt clock env managed p =
      if p.c.stopped_by_user || str_eq p.c.restart (codes "no") || str_eq p.c.restart []
      then result none p ignored
      else if is_running p.c.status
      then (if not p.c.detach then result managed p ignored else result (some 0) p ignored)
      else restart_due clock env (deadline_of clock.listed managed p.c) p
