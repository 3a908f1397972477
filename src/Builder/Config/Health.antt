-- ===== src/Builder/Config/Health.antt =====
-- What `handleHealthcheck` reads from its arguments.
use dck.Base.{
  ◌≡◌, true, Bool, not, ◌&&◌, map, arith, Option, none, some, List, [], ◌∷◌, refl, Option-cases,
  inl, inr, All,
}
use dck.Base.Int.{ℤ}
use dck.Base.Bytes.{Bytes, codes, str_eq, to_upper}
use dck.Builder.Config.{
  HealthConfig, ImageConfig, HealthResult, finished, bad_retries, panics, empty_health, nothing,
  command, word_of, with_option, is_option, health_from, handle_healthcheck,
}

-- The options of HEALTHCHECK with their values.
pub data HealthOption : Type 0 where
  an_interval a_timeout some_retries a_start_period : Bytes → HealthOption

abbrev pub flag_of : HealthOption → Bytes
flag_of (an_interval v) = codes "--INTERVAL"
flag_of (a_timeout v) = codes "--TIMEOUT"
flag_of (some_retries v) = codes "--RETRIES"
flag_of (a_start_period v) = codes "--START-PERIOD"

abbrev pub value_of : HealthOption → Bytes
value_of (an_interval v) = v
value_of (a_timeout v) = v
value_of (some_retries v) = v
value_of (a_start_period v) = v

-- Options, each with its flag as it is spelled, and then the rest.
abbrev pub print_options : List (Bytes × HealthOption) → List Bytes → List Bytes
print_options [] rest = rest
print_options ((flag, o) ∷ os) rest = flag ∷ (value_of o ∷ print_options os rest)

-- Every flag is that of its option, in any letter case.
abbrev pub AreSpelled : List (Bytes × HealthOption) → Type 0
AreSpelled os = All (λ o. map to_upper o.0 ≡ flag_of o.1) os

-- The word is neither a flag nor NONE, in any letter case.
abbrev pub is_plain_word : Bytes → Bool
is_plain_word a =
    let up = map to_upper a in
    not (str_eq up (codes "--INTERVAL"))
    && not (str_eq up (codes "--TIMEOUT"))
    && not (str_eq up (codes "--RETRIES"))
    && not (str_eq up (codes "--START-PERIOD"))
    && not (str_eq up (codes "NONE"))

-- The last value of an option, or the given one if the option is not there.
abbrev pub last_interval : List (Bytes × HealthOption) → Bytes → Bytes
last_interval [] v = v
last_interval ((flag, an_interval w) ∷ os) v = last_interval os w
last_interval ((flag, a_timeout w) ∷ os) v = last_interval os v
last_interval ((flag, some_retries w) ∷ os) v = last_interval os v
last_interval ((flag, a_start_period w) ∷ os) v = last_interval os v

abbrev pub last_timeout : List (Bytes × HealthOption) → Bytes → Bytes
last_timeout [] v = v
last_timeout ((flag, an_interval w) ∷ os) v = last_timeout os v
last_timeout ((flag, a_timeout w) ∷ os) v = last_timeout os w
last_timeout ((flag, some_retries w) ∷ os) v = last_timeout os v
last_timeout ((flag, a_start_period w) ∷ os) v = last_timeout os v

abbrev pub last_start_period : List (Bytes × HealthOption) → Bytes → Bytes
last_start_period [] v = v
last_start_period ((flag, an_interval w) ∷ os) v = last_start_period os v
last_start_period ((flag, a_timeout w) ∷ os) v = last_start_period os v
last_start_period ((flag, some_retries w) ∷ os) v = last_start_period os v
last_start_period ((flag, a_start_period w) ∷ os) v = last_start_period os w

module _ (scan_int : Bytes → Option ℤ) where
  -- The last number of retries; `none` if one of them cannot be read.
  abbrev pub last_retries : List (Bytes × HealthOption) → ℤ → Option ℤ
  last_retries [] n = some n
  last_retries ((flag, an_interval w) ∷ os) n = last_retries os n
  last_retries ((flag, a_timeout w) ∷ os) n = last_retries os n
  last_retries ((flag, some_retries w) ∷ os) n = elim (scan_int w) [
    | none ↦ none
    | some m ↦ last_retries os m
  ]
  last_retries ((flag, a_start_period w) ∷ os) n = last_retries os n

  abbrev pub check_with :
      List (Bytes × HealthOption) → List Bytes → HealthConfig → Option ℤ → Option HealthConfig
  check_with os args hc none = none
  check_with os args hc (some n) = some (record {
    test = args;
    interval = last_interval os hc.interval;
    timeout = last_timeout os hc.timeout;
    retries = n;
    start_period = last_start_period os hc.start_period;
  })

  abbrev pub check_of :
      List (Bytes × HealthOption) → List Bytes → HealthConfig → Option HealthConfig
  check_of os args hc = check_with os args hc (last_retries os hc.retries)

  abbrev result_of : Option HealthConfig → HealthResult
  result_of none = bad_retries
  result_of (some hc) = finished (some hc)

  plain_command : (a : Bytes) → is_plain_word a ≡ true → word_of a ≡ command
  unfolding word_of
  plain_command a h = ground (arith, h)

  command_alone :
      (a : Bytes) (args : List Bytes) (hc : HealthConfig)
      → word_of a ≡ command
      → health_from scan_int (some hc) (a ∷ args) ≡ finished (some (record hc { test = a ∷ args }))
  unfolding health_from
  command_alone a [] hc e = rw e refl
  command_alone a (v ∷ args) hc e = rw e refl

  health_from-options :
      (os : List (Bytes × HealthOption)) (a : Bytes) (args : List Bytes) (hc : HealthConfig)
      → AreSpelled os
      → is_plain_word a ≡ true
      → health_from scan_int (some hc) (print_options os (a ∷ args))
        ≡ result_of (check_of os (a ∷ args) hc)
  unfolding health_from word_of with_option
  health_from-options [] a args hc all plain = command_alone a args hc (plain_command a plain)
  health_from-options ((flag, an_interval v) ∷ os) a args hc (is, all) plain =
      rw (is, health_from, word_of)
        (health_from-options os a args (record hc { interval = v }) all plain)
  health_from-options ((flag, a_timeout v) ∷ os) a args hc (is, all) plain =
      rw (is, health_from, word_of)
        (health_from-options os a args (record hc { timeout = v }) all plain)
  health_from-options ((flag, a_start_period v) ∷ os) a args hc (is, all) plain =
      rw (is, health_from, word_of)
        (health_from-options os a args (record hc { start_period = v }) all plain)
  health_from-options ((flag, some_retries v) ∷ os) a args hc (is, all) plain =
      elim (Option-cases (scan_int v)) [
        | inl bad ↦ rw (is, health_from, word_of) (rw (bad, with_option, last_retries) refl)
        | inr (n, good) ↦
            rw (is, health_from, word_of)
              (rw (good, with_option, last_retries)
                (health_from-options os a args (record hc { retries = n }) all plain))
      ]

  abbrev pub with_check : ImageConfig → Option HealthConfig → Option ImageConfig
  with_check c none = none
  with_check c (some hc) = some (record c { healthcheck = some hc })

  result_config :
      (args : List Bytes) (c : ImageConfig) (a : Bytes) (rest : List Bytes)
      (o : Option HealthConfig)
      → args ≡ a ∷ rest
      → health_from scan_int (some empty_health) args ≡ result_of o
      → (handle_healthcheck scan_int args c).0 ≡ with_check c o
  unfolding handle_healthcheck
  result_config [] c a rest o shape e = cc
  result_config (b ∷ args) c a rest none shape e = rw (e, handle_healthcheck) refl
  result_config (b ∷ args) c a rest (some hc) shape e = rw (e, handle_healthcheck) refl

  print_shape :
      (os : List (Bytes × HealthOption)) (a : Bytes) (args : List Bytes)
      → (b : Bytes) × (rest : List Bytes) × (print_options os (a ∷ args) ≡ b ∷ rest)
  print_shape [] a args = (a, args, refl)
  print_shape ((flag, o) ∷ os) a args = (flag, value_of o ∷ print_options os (a ∷ args), refl)

  -- If a HEALTHCHECK has options with a value each, in any order and in any letter case, and then a word
  -- that is neither a flag nor NONE, then the image gets the check whose interval, timeout, retries and
  -- start period are the last values that the options give, or empty and zero where there is none, and
  -- whose test is that word and all that follows; a number of retries that cannot be read is an error.
  pub handle_healthcheck-options :
      (os : List (Bytes × HealthOption)) (a : Bytes) (args : List Bytes) (c : ImageConfig)
      → AreSpelled os
      → is_plain_word a ≡ true
      → (handle_healthcheck scan_int (print_options os (a ∷ args)) c).0
        ≡ with_check c (check_of os (a ∷ args) empty_health)
  handle_healthcheck-options os a args c all plain =
      let (b, rest, shape) = print_shape os a args in
      result_config (print_options os (a ∷ args)) c b rest (check_of os (a ∷ args) empty_health)
        shape (health_from-options os a args empty_health all plain)

  -- HEALTHCHECK NONE leaves a check that the image has from its base as it is, and an option with a
  -- value behind NONE makes the build panic.
  pub handle_healthcheck-none :
      (a b v : Bytes) (args : List Bytes) (c : ImageConfig)
      → word_of a ≡ nothing
      → is_option scan_int (word_of b) ≡ true
      → ((handle_healthcheck scan_int (a ∷ []) c).0 ≡ some c)
        × ((handle_healthcheck scan_int (a ∷ (b ∷ (v ∷ args))) c).1 ≡ panics)
  unfolding handle_healthcheck health_from
  handle_healthcheck-none a b v args c e is = (
    rw (e, handle_healthcheck, health_from) refl,
    rw (e, handle_healthcheck, health_from) (rw (is, handle_healthcheck, health_from) refl),
  )
