-- ===== src/Supervisor/Adoption.antt =====
-- When the supervisor starts a container.
use dck.Base.{
  ℕ, ◌+◌, ◌≤◌, ◌≡◌, ◌≢◌, Bool, true, false, Option, none, some, arith, refl, ap, ◌∙◌, sym,
  Bool-cases, inl, inr, ◌⊎◌, ◌||◌, ltb, [],
}
use dck.Base.Int.{ℤ}
use dck.Base.Bytes.{Bytes, codes, str_eq}
use dck.Container.Types.{Container, Process, written, save}
use dck.Container.Load.{is_running}
use dck.Container.RestartGuard.{allow_automatic_restart, charge}
use dck.Supervisor.{
  eligible_for_supervisor, Clock, Outside, started, supervisor_restart_delay, deadline_of,
  first_deadline, restart_fresh, restart_due, adopt,
}

module _ (parse_duration : Bytes → Option ℤ) (clock : Clock) (env : Outside) where
  restart_due-started :
      (deadline : ℕ) (p : Process)
      → (restart_due parse_duration clock env deadline p).decision ≡ started
      → (deadline ≤ clock.checked)
        × (eligible_for_supervisor p.c ≡ true)
        × ((allow_automatic_restart parse_duration clock.charged env.charge_save p).1 ≡ true)
  unfolding restart_due
  restart_due-started deadline p h = ground arith

  adopt-started :
      (managed : Option ℕ) (p : Process)
      → (adopt parse_duration clock env managed p).decision ≡ started
      → (deadline_of parse_duration clock.listed managed p.c ≤ clock.checked)
        × (eligible_for_supervisor p.c ≡ true)
        × ((allow_automatic_restart parse_duration clock.charged env.charge_save p).1 ≡ true)
  unfolding adopt
  adopt-started managed p h =
      ground (arith, restart_due-started (deadline_of parse_duration clock.listed managed p.c) p)

  -- A container that has exited, and is not managed yet or was running when the supervisor last saw it,
  -- is not started before its restart delay has passed since its exit.
  pub adopt_waits :
      (p : Process)
      → p.c.last_exit_at ≢ 0
      → ((adopt parse_duration clock env none p).decision ≡ started)
        ⊎ ((adopt parse_duration clock env (some 0) p).decision ≡ started)
      → p.c.last_exit_at + supervisor_restart_delay parse_duration p.c ≤ clock.checked
  unfolding deadline_of first_deadline
  adopt_waits p exited h = elim h [
    | inl fresh ↦ ground (arith, adopt-started none p fresh)
    | inr seen ↦ ground (arith, adopt-started (some 0) p seen)
  ]

module _ (parse_duration : Bytes → Option ℤ) (clock : Clock) (env : Outside) where
  abbrev given_up : Container → Bool
  given_up c = c.stopped_by_user || str_eq c.restart (codes "no") || str_eq c.restart []

  -- The tests in front of the deadline.
  adopt_guards :
      (managed : Option ℕ) (p : Process)
      → (adopt parse_duration clock env managed p).decision ≡ started
      → (given_up p.c ≡ false) × (is_running p.c.status ≡ false)
  unfolding adopt
  adopt_guards managed p h = elim (Bool-cases (given_up p.c)) [
    | inl out ↦ absurd (ground (arith, rw (out, adopt) at h))
    | inr within ↦ elim (Bool-cases (is_running p.c.status)) [
      | inl runs ↦ absurd (ground (arith, rw (runs, adopt) at (rw (within, adopt) at h)))
      | inr down ↦ (within, down)
    ]
  ]

  adopt_reaches :
      (managed : Option ℕ) (p : Process)
      → given_up p.c ≡ false
      → is_running p.c.status ≡ false
      → deadline_of parse_duration clock.listed managed p.c ≤ clock.checked
      → eligible_for_supervisor p.c ≡ true
      → (allow_automatic_restart parse_duration clock.charged env.charge_save p).1 ≡ true
      → adopt parse_duration clock env managed p
        ≡ restart_fresh parse_duration clock env
            (deadline_of parse_duration clock.listed managed p.c)
            (allow_automatic_restart parse_duration clock.charged env.charge_save p).0
  unfolding adopt restart_due
  adopt_reaches managed p within down due fit granted =
      let not_early : ltb clock.checked (deadline_of parse_duration clock.listed managed p.c)
          ≡ false =
        ground (arith, due) in
      rw (within, adopt) (rw down (rw (not_early, restart_due) (rw (fit, granted) refl)))

-- The container `c` in memory, with some state file.
abbrev over : Container → Bool → Option Container → Process
over c mark disk = record { c = c; disk = disk; stop_mark = mark }

allow_same_disk :
    (parse_duration : Bytes → Option ℤ) (now : ℕ) (c : Container) (mark : Bool)
    (disk disk' : Option Container)
    → (allow_automatic_restart parse_duration now written (over c mark disk)).1 ≡ true
    → allow_automatic_restart parse_duration now written (over c mark disk)
      ≡ allow_automatic_restart parse_duration now written (over c mark disk')
unfolding allow_automatic_restart charge save
allow_same_disk pd now c mark disk disk' h = elim (Bool-cases c.restart_blocked) [
  | inl blocked ↦ absurd (cc (rw blocked at h))
  | inr free ↦ rw free refl
]

-- The state file that is there when the round begins does not matter: if the attempt is saved without
-- an error and the supervisor goes on to start the container, then with any other state file, or with
-- none, it starts it all the same and leaves the same behind. What is read again behind the budget is
-- the state that the attempt has just written.
pub adopt_ignores_disk :
    (parse_duration : Bytes → Option ℤ) (clock : Clock) (env : Outside) (managed : Option ℕ)
    (c : Container) (mark : Bool) (disk disk' : Option Container)
    → env.charge_save ≡ written
    → (adopt parse_duration clock env managed
        (record { c = c; disk = disk; stop_mark = mark })).decision
      ≡ started
    → adopt parse_duration clock env managed (record { c = c; disk = disk'; stop_mark = mark })
      ≡ adopt parse_duration clock env managed (record { c = c; disk = disk; stop_mark = mark })
adopt_ignores_disk pd clock env managed c mark disk disk' o h =
    let p = over c mark disk in
    let p' = over c mark disk' in
    let (within, down) = adopt_guards pd clock env managed p h in
    let (due, fit, granted) = adopt-started pd clock env managed p h in
    let same : allow_automatic_restart pd clock.charged env.charge_save p
        ≡ allow_automatic_restart pd clock.charged env.charge_save p' =
      rw o (allow_same_disk pd clock.charged c mark disk disk' (rw o at granted)) in
    let granted' = sym (ap (λ r. r.1) same) ∙ granted in
    adopt_reaches pd clock env managed p' within down due fit granted'
    ∙ ap (λ r. restart_fresh pd clock env (deadline_of pd clock.listed managed c) r.0) (sym same)
    ∙ sym (adopt_reaches pd clock env managed p within down due fit granted)
