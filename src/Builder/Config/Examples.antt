-- ===== src/Builder/Config/Examples.antt =====
-- Checks and working directories of an image.
use dck.Base.{◌≡◌, true, Option, some, List, [], ◌∷◌, refl}
use dck.Base.Int.{ℤ, pos}
use dck.Base.Bytes.{Bytes, codes}
use dck.Base.Assoc.{lookup, insert}
use dck.Base.Split.{split_byte}
use dck.FilePath.{is_abs, path_join, clean, resolve, push, pop, render}
use dck.Builder.Instructions.{Instruction}
use dck.Builder.Args.{
  substitute_args, handle_arg, name_and_default, expand_build_arg, expand_from, next_place,
  write_at, write_end, value_of,
}
use dck.Builder.Config.{
  ImageConfig, panics, empty_health, word_of, nothing, is_option, handle_healthcheck,
  handle_workdir, apply_to_config, apply_stage,
}
use dck.Builder.Config.Health.{
  HealthOption, an_interval, some_retries, a_timeout, print_options, handle_healthcheck-options,
  handle_healthcheck-none,
}
use dck.Builder.Config.Workdir.{apply_stage_working_dir}

-- Every number is three.
abbrev scan_three : Bytes → Option ℤ
scan_three s = some (pos 3)

abbrev base : ImageConfig
base = record {
  author = [];
  cmd = [];
  entrypoint = [];
  env = [];
  working_dir = codes "/srv";
  user = [];
  labels = [];
  exposed_ports = [];
  volumes = [];
  stop_signal = [];
  healthcheck = some (record empty_health { interval = codes "1m" });
  shell = codes "/bin/sh" ∷ codes "-c" ∷ [];
}

abbrev options : List (Bytes × HealthOption)
options =
    (codes "--interval", an_interval (codes "30s"))
    ∷ (codes "--Retries", some_retries (codes "3"))
    ∷ (codes "--TIMEOUT", a_timeout (codes "5s"))
    ∷ []

abbrev curl : List Bytes
curl = codes "curl" ∷ codes "localhost" ∷ []

handle_healthcheck-options_example :
    (handle_healthcheck scan_three (print_options options (codes "CMD" ∷ curl)) base).0
    ≡ some (record base {
      healthcheck = some (record {
        test = codes "CMD" ∷ curl;
        interval = codes "30s";
        timeout = codes "5s";
        retries = pos 3;
        start_period = [];
      });
    })
handle_healthcheck-options_example =
    handle_healthcheck-options scan_three options (codes "CMD") curl base (refl, (refl, (refl, tt)))
      refl

none_word : word_of (codes "none") ≡ nothing
unfolding word_of
none_word = refl

interval_word : is_option scan_three (word_of (codes "--interval")) ≡ true
unfolding word_of
interval_word = refl

handle_healthcheck-none_example :
    ((handle_healthcheck scan_three (codes "none" ∷ []) base).0 ≡ some base)
    × ((handle_healthcheck scan_three (codes "none" ∷ codes "--interval" ∷ codes "5s" ∷ []) base).1
        ≡ panics)
handle_healthcheck-none_example =
    handle_healthcheck-none scan_three (codes "none") (codes "--interval") (codes "5s") [] base
      none_word interval_word

abbrev stage : List Instruction
stage =
    record { inst_type = codes "ARG"; args = codes "D=app" ∷ []; raw = codes "ARG D=app" }
    ∷ record {
      inst_type = codes "WORKDIR";
      args = codes "$D/bin" ∷ [];
      raw = codes "WORKDIR $D/bin";
    }
    ∷ []

in_app :
    apply_stage scan_three stage [] base
    ≡ some ((codes "D", codes "app") ∷ [], record base { working_dir = codes "/srv/app/bin" })
unfolding apply_stage apply_to_config substitute_args handle_arg name_and_default expand_build_arg
    expand_from next_place write_at write_end value_of lookup handle_workdir is_abs path_join clean
    resolve push pop render insert split_byte
in_app = refl

srv_absolute : is_abs (codes "/srv") ≡ true
unfolding is_abs
srv_absolute = refl

apply_stage_working_dir_example : is_abs (codes "/srv/app/bin") ≡ true
apply_stage_working_dir_example =
    apply_stage_working_dir scan_three stage [] ((codes "D", codes "app") ∷ []) base
      (record base { working_dir = codes "/srv/app/bin" }) srv_absolute in_app
