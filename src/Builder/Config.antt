-- ===== src/Builder/Config.antt =====
-- internal/builder/builder.go: what the instructions that set the image's configuration do to it.
-- `fmt.Sscanf` of an integer is a parameter.
pub mod Health
pub mod Workdir
mod Examples
use dck.Base.{
  ℕ, Bool, true, false, ◌&&◌, ◌||◌, not, Option, none, some, List, [], ◌∷◌, ◌++◌, map, any, keep,
  if◌then◌else◌, ◌==◌,
}
use dck.Base.Int.{ℤ, pos}
use dck.Base.Bytes.{Bytes, codes, str_eq, contains_byte, to_upper, trim_by}
use dck.Base.Assoc.{insert}
use dck.Base.Split.{join_byte}
use dck.FilePath.{is_abs, path_join}
use dck.Image.Auth.{contains_text}
use dck.Builder.Json.{get_exec_form}
use dck.Builder.Instructions.{Instruction, cut_at, blank}
use dck.Builder.Args.{BuildArgs, substitute_args, handle_arg}

pub record HealthConfig : Type 0 where
  pub test : List Bytes
  pub interval : Bytes
  pub timeout : Bytes
  pub retries : ℤ
  pub start_period : Bytes

-- A set of keys is a list without repetitions.
pub record ImageConfig : Type 0 where
  pub author : Bytes
  pub cmd : List Bytes
  pub entrypoint : List Bytes
  pub env : List Bytes
  pub working_dir : Bytes
  pub user : Bytes
  pub labels : List (Bytes × Bytes)
  pub exposed_ports : List Bytes
  pub volumes : List Bytes
  pub stop_signal : Bytes
  pub healthcheck : Option HealthConfig
  pub shell : List Bytes

abbrev join_args : List Bytes → Bytes
join_args = join_byte blank

unfoldable pub handle_workdir : List Bytes → ImageConfig → ImageConfig
handle_workdir args c =
    let dir = join_args args in
    record c {
      working_dir =
          if not (is_abs dir) && not (str_eq c.working_dir [])
          then path_join (c.working_dir ∷ dir ∷ [])
          else dir;
    }

abbrev pub has_equals : Bytes → Bool
has_equals s = contains_byte s b'='

unfoldable pub env_entries : List Bytes → List Bytes
env_entries [] = []
env_entries (a ∷ []) = keep has_equals (a ∷ [])
env_entries (a ∷ (b ∷ args)) =
    if not (has_equals a) then (a ++ (b'=' ∷ b)) ∷ [] else keep has_equals (a ∷ (b ∷ args))

unfoldable pub handle_env : List Bytes → ImageConfig → ImageConfig
unfolding env_entries
handle_env args c = record c { env = c.env ++ env_entries args }

abbrev pub default_shell : List Bytes
default_shell = codes "/bin/sh" ∷ (codes "-c" ∷ [])

abbrev pub or_default_shell : List Bytes → List Bytes
or_default_shell [] = default_shell
or_default_shell (s ∷ ss) = s ∷ ss

unfoldable pub handle_cmd : Bytes → List Bytes → ImageConfig → ImageConfig
handle_cmd raw args c =
    if contains_text raw (codes "CMD [")
    then record c { cmd = args }
    else elim (get_exec_form args) [
      | some parsed ↦ record c { cmd = parsed }
      | none ↦ record c { cmd = or_default_shell c.shell ++ join_args args ∷ [] }
    ]

unfoldable pub handle_entrypoint : Bytes → List Bytes → ImageConfig → ImageConfig
handle_entrypoint raw [] c = record c { entrypoint = [] }
handle_entrypoint raw (a ∷ args) c =
    if contains_text raw (codes "ENTRYPOINT [")
    then record c { entrypoint = a ∷ args }
    else elim (get_exec_form (a ∷ args)) [
      | some parsed ↦ record c { entrypoint = parsed }
      | none ↦ record c { entrypoint = default_shell ++ join_args (a ∷ args) ∷ [] }
    ]

unfoldable pub add_key : Bytes → List Bytes → List Bytes
add_key k ks = if any (λ j. str_eq j k) ks then ks else ks ++ k ∷ []

unfoldable pub add_keys : List Bytes → List Bytes → List Bytes
unfolding add_key
add_keys [] ks = ks
add_keys (n ∷ ns) ks = add_keys ns (add_key n ks)

unfoldable pub port_key : Bytes → Bytes
port_key port = if contains_byte port b'/' then port else port ++ codes "/tcp"

unfoldable pub handle_expose : List Bytes → ImageConfig → ImageConfig
unfolding add_keys port_key
handle_expose args c = record c { exposed_ports = add_keys (map port_key args) c.exposed_ports }

unfoldable pub add_label : Bytes → List (Bytes × Bytes) → List (Bytes × Bytes)
unfolding cut_at
add_label arg labels = elim (cut_at (λ c. c == b'=') arg) [
  | none ↦ labels
  | some (key, []) ↦ labels
  | some (key, e ∷ value) ↦ insert key value labels
]

unfoldable pub add_labels : List Bytes → List (Bytes × Bytes) → List (Bytes × Bytes)
unfolding add_label
add_labels [] labels = labels
add_labels (a ∷ args) labels = add_labels args (add_label a labels)

unfoldable pub handle_label : List Bytes → ImageConfig → ImageConfig
unfolding add_labels
handle_label args c = record c { labels = add_labels args c.labels }

unfoldable pub handle_user : List Bytes → ImageConfig → ImageConfig
handle_user args c = record c { user = join_args args }

abbrev pub is_quote_byte : ℕ → Bool
is_quote_byte c = c == 34 || c == 39

unfoldable pub handle_volume : List Bytes → ImageConfig → ImageConfig
unfolding add_keys
handle_volume args c = record c { volumes = add_keys (map (trim_by is_quote_byte) args) c.volumes }

unfoldable pub handle_shell : List Bytes → ImageConfig → ImageConfig
handle_shell args c = elim (get_exec_form args) [
  | some parsed ↦ record c { shell = parsed }
  | none ↦ c
]

unfoldable pub handle_stop_signal : List Bytes → ImageConfig → ImageConfig
handle_stop_signal args c = record c { stop_signal = join_args args }

unfoldable pub handle_maintainer : List Bytes → ImageConfig → ImageConfig
handle_maintainer args c = record c { author = join_args args }

-- How the loop of `handleHealthcheck` ends: with its variable `hc`, where `none` is nil; with an error;
-- or by writing to a field of nil.
pub data HealthResult : Type 0 where
  finished : Option HealthConfig → HealthResult
  bad_retries : HealthResult
  panics : HealthResult

abbrev pub empty_health : HealthConfig
empty_health = record { test = []; interval = []; timeout = []; retries = pos 0; start_period = [] }

pub data HealthWord : Type 0 where
  interval timeout retries start_period nothing command : HealthWord

unfoldable pub word_of : Bytes → HealthWord
word_of a =
    let up = map to_upper a in
    if str_eq up (codes "--INTERVAL")
    then HealthWord.interval
    else if str_eq up (codes "--TIMEOUT")
    then HealthWord.timeout
    else if str_eq up (codes "--RETRIES")
    then HealthWord.retries
    else if str_eq up (codes "--START-PERIOD")
    then HealthWord.start_period
    else if str_eq up (codes "NONE")
    then nothing
    else command

-- What the result makes of the configuration: `none` is an error or a panic.
abbrev pub settle_health : HealthResult → ImageConfig → Option ImageConfig
settle_health (finished none) c = some c
settle_health (finished (some hc)) c = some (record c { healthcheck = some hc })
settle_health bad_retries c = none
settle_health panics c = none

module _ (scan_int : Bytes → Option ℤ) where
  -- hc.F = v, for the option's field. `none` is an invalid number.
  unfoldable pub with_option : HealthWord → Bytes → HealthConfig → Option HealthConfig
  with_option HealthWord.interval v hc = some (record hc { interval = v })
  with_option HealthWord.timeout v hc = some (record hc { timeout = v })
  with_option HealthWord.start_period v hc = some (record hc { start_period = v })
  with_option HealthWord.retries v hc = elim (scan_int v) [
    | none ↦ none
    | some n ↦ some (record hc { retries = n })
  ]
  with_option nothing v hc = some hc
  with_option command v hc = some hc

  abbrev pub is_option : HealthWord → Bool
  is_option nothing = false
  is_option command = false
  is_option HealthWord.interval = true
  is_option HealthWord.timeout = true
  is_option HealthWord.retries = true
  is_option HealthWord.start_period = true

  abbrev pub is_none_word : HealthWord → Bool
  is_none_word nothing = true
  is_none_word command = false
  is_none_word HealthWord.interval = false
  is_none_word HealthWord.timeout = false
  is_none_word HealthWord.retries = false
  is_none_word HealthWord.start_period = false

  abbrev pub take_command : List Bytes → Option HealthConfig → HealthResult
  take_command args none = panics
  take_command args (some hc) = finished (some (record hc { test = args }))

  -- The loop, over the arguments that are left. `break` leaves only the switch, so it goes on behind
  -- NONE; an option without a value is passed over.
  unfoldable pub health_from : Option HealthConfig → List Bytes → HealthResult
  health_from hc [] = finished hc
  health_from hc (a ∷ []) =
      if is_option (word_of a)
      then finished hc
      else if is_none_word (word_of a)
      then finished none
      else take_command (a ∷ []) hc
  health_from none (a ∷ (v ∷ rest)) =
      let behind_none = health_from none (v ∷ rest) in
      if is_option (word_of a)
      then panics
      else if is_none_word (word_of a)
      then behind_none
      else panics
  health_from (some hc) (a ∷ (v ∷ rest)) =
      let behind_none = health_from none (v ∷ rest) in
      let behind_option : HealthResult = elim (with_option (word_of a) v hc) [
        | none ↦ bad_retries
        | some hc' ↦ health_from (some hc') rest
      ] in
      if is_option (word_of a)
      then behind_option
      else if is_none_word (word_of a)
      then behind_none
      else finished (some (record hc { test = a ∷ (v ∷ rest) }))

  unfoldable pub handle_healthcheck : List Bytes → ImageConfig → Option ImageConfig × HealthResult
  unfolding health_from
  handle_healthcheck [] c = (some (record c { healthcheck = none }), finished none)
  handle_healthcheck (a ∷ args) c =
      let r = health_from (some empty_health) (a ∷ args) in (settle_health r c, r)

  -- The handler that an instruction's type selects. FROM, RUN, COPY, ADD and ONBUILD leave these fields
  -- as they are, but for FROM, which starts another stage. `none` is a return with an error or a panic.
  unfoldable pub apply_to_config : Instruction → List Bytes → ImageConfig → Option ImageConfig
  unfolding handle_workdir handle_env handle_cmd handle_entrypoint handle_expose handle_label
      handle_user handle_volume handle_shell handle_stop_signal handle_healthcheck handle_maintainer
  apply_to_config inst args c =
      let is = λ (name : Bytes). str_eq inst.inst_type name in
      if is (codes "WORKDIR")
      then some (handle_workdir args c)
      else if is (codes "ENV")
      then some (handle_env args c)
      else if is (codes "CMD")
      then some (handle_cmd inst.raw args c)
      else if is (codes "ENTRYPOINT")
      then some (handle_entrypoint inst.raw args c)
      else if is (codes "EXPOSE")
      then some (handle_expose args c)
      else if is (codes "LABEL")
      then some (handle_label args c)
      else if is (codes "USER")
      then some (handle_user args c)
      else if is (codes "VOLUME")
      then some (handle_volume args c)
      else if is (codes "SHELL")
      then some (handle_shell args c)
      else if is (codes "STOPSIGNAL")
      then some (handle_stop_signal args c)
      else if is (codes "HEALTHCHECK")
      then (handle_healthcheck args c).0
      else if is (codes "MAINTAINER")
      then some (handle_maintainer args c)
      else some c

  -- The instructions of a stage behind its FROM, on the build arguments and the configuration.
  unfoldable pub apply_stage :
      List Instruction → BuildArgs → ImageConfig → Option (BuildArgs × ImageConfig)
  unfolding apply_to_config substitute_args handle_arg
  apply_stage [] build_args c = some (build_args, c)
  apply_stage (inst ∷ insts) build_args c =
      let args = substitute_args inst.args build_args in
      let behind_arg = apply_stage insts (handle_arg args build_args) c in
      let behind : Option (BuildArgs × ImageConfig) = elim (apply_to_config inst args c) [
        | none ↦ none
        | some c' ↦ apply_stage insts build_args c'
      ] in
      if str_eq inst.inst_type (codes "ARG") then behind_arg else behind
