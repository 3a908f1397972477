-- ===== src/Builder/Config/Workdir.antt =====
-- The working directory through a stage.
use dck.Base.{
  ◌≡◌, Bool, true, false, Option, none, some, List, [], ◌∷◌, if◌then◌else◌, arith, refl, subst, ap,
  ◌∙◌, Bool-cases, Option-cases, inl, inr,
}
use dck.Base.Int.{ℤ}
use dck.Base.Bytes.{Bytes, codes, str_eq}
use dck.Base.Split.{join_byte}
use dck.FilePath.{slash, is_abs, clean, render, path_join}
use dck.Builder.Instructions.{Instruction, blank}
use dck.Builder.Args.{BuildArgs, substitute_args, handle_arg}
use dck.Builder.Config.{
  ImageConfig, HealthResult, finished, bad_retries, panics, empty_health, handle_workdir,
  handle_env, handle_cmd, handle_entrypoint, handle_expose, handle_label, handle_user,
  handle_volume, handle_shell, handle_stop_signal, handle_healthcheck, handle_maintainer,
  settle_health, health_from, apply_to_config, apply_stage,
}

is_abs-clean : (s : Bytes) → is_abs s ≡ true → is_abs (clean s) ≡ true
unfolding clean
is_abs-clean s h = rw (h, clean) (unfold render is_abs in refl)

is_abs-join : (c : Bytes) (dir : Bytes) → is_abs c ≡ true → is_abs (path_join (c ∷ dir ∷ [])) ≡ true
unfolding path_join is_abs
is_abs-join [] dir h = cc
is_abs-join (b ∷ s) dir h =
    is_abs-clean (join_byte slash ((b ∷ s) ∷ dir ∷ [])) (unfold is_abs join_byte in h)

not_empty : (s : Bytes) → is_abs s ≡ true → str_eq s [] ≡ false
unfolding is_abs
not_empty [] h = cc
not_empty (b ∷ s) h = refl

handle_workdir-is_abs :
    (args : List Bytes) (c : ImageConfig)
    → is_abs c.working_dir ≡ true
    → is_abs (handle_workdir args c).working_dir ≡ true
unfolding handle_workdir
handle_workdir-is_abs args c h =
    let dir = join_byte blank args in
    ground (arith, is_abs-join c.working_dir dir h, not_empty c.working_dir h)

handle_cmd_dir :
    (raw : Bytes) (args : List Bytes) (c : ImageConfig)
    → (handle_cmd raw args c).working_dir ≡ c.working_dir
unfolding handle_cmd
handle_cmd_dir raw args c = ground arith

handle_entrypoint_dir :
    (raw : Bytes) (args : List Bytes) (c : ImageConfig)
    → (handle_entrypoint raw args c).working_dir ≡ c.working_dir
unfolding handle_entrypoint
handle_entrypoint_dir raw [] c = refl
handle_entrypoint_dir raw (a ∷ args) c = ground arith

handle_shell_dir :
    (args : List Bytes) (c : ImageConfig) → (handle_shell args c).working_dir ≡ c.working_dir
unfolding handle_shell
handle_shell_dir args c = ground arith

ap_dir :
    (args args' : BuildArgs) (c c' : ImageConfig)
    → ◌≡◌ {A = Option (BuildArgs × ImageConfig)} (some (args, c)) (some (args', c'))
    → c.working_dir ≡ c'.working_dir
ap_dir args args' c c' e = ground (arith, e)

-- A configuration, where there is one, has an absolute directory.
data StaysAbs : Option ImageConfig → Type 0 where
  gone : StaysAbs none
  stays : {c : ImageConfig} → is_abs c.working_dir ≡ true → StaysAbs (some c)

stays_abs : (c : ImageConfig) → StaysAbs (some c) → is_abs c.working_dir ≡ true
stays_abs c (stays h) = h

settle_health_abs :
    (r : HealthResult) (c : ImageConfig)
    → is_abs c.working_dir ≡ true
    → StaysAbs (settle_health r c)
settle_health_abs (finished none) c h = stays h
settle_health_abs (finished (some hc)) c h = stays h
settle_health_abs bad_retries c h = gone
settle_health_abs panics c h = gone

if_stays :
    (b : Bool) (x y : Option ImageConfig) → StaysAbs x → StaysAbs y → StaysAbs (if b then x else y)
if_stays true x y hx hy = hx
if_stays false x y hx hy = hy

module _ (scan_int : Bytes → Option ℤ) where
  handle_healthcheck_dir :
      (args : List Bytes) (c : ImageConfig)
      → is_abs c.working_dir ≡ true
      → StaysAbs (handle_healthcheck scan_int args c).0
  unfolding handle_healthcheck
  handle_healthcheck_dir [] c h = stays h
  handle_healthcheck_dir (a ∷ args) c h =
      settle_health_abs (health_from scan_int (some empty_health) (a ∷ args)) c h

  apply_to_config_dir :
      (inst : Instruction) (args : List Bytes) (c : ImageConfig)
      → is_abs c.working_dir ≡ true
      → StaysAbs (apply_to_config scan_int inst args c)
  unfolding apply_to_config handle_env handle_expose handle_label handle_user handle_volume
      handle_stop_signal handle_maintainer
  apply_to_config_dir inst args c h =
      let is = λ (name : Bytes). str_eq inst.inst_type name in
      if_stays (is (codes "WORKDIR")) (some (handle_workdir args c)) _
        (stays {c = handle_workdir args c} (handle_workdir-is_abs args c h))
        (if_stays (is (codes "ENV")) (some (handle_env args c)) _
          (stays {c = handle_env args c} (h))
          (if_stays (is (codes "CMD")) (some (handle_cmd inst.raw args c)) _
            (stays {c = handle_cmd inst.raw args c}
              (ap is_abs (handle_cmd_dir inst.raw args c) ∙ h))
            (if_stays (is (codes "ENTRYPOINT")) (some (handle_entrypoint inst.raw args c)) _
              (stays {c = handle_entrypoint inst.raw args c}
                (ap is_abs (handle_entrypoint_dir inst.raw args c) ∙ h))
              (if_stays (is (codes "EXPOSE")) (some (handle_expose args c)) _
                (stays {c = handle_expose args c} (h))
                (if_stays (is (codes "LABEL")) (some (handle_label args c)) _
                  (stays {c = handle_label args c} (h))
                  (if_stays (is (codes "USER")) (some (handle_user args c)) _
                    (stays {c = handle_user args c} (h))
                    (if_stays (is (codes "VOLUME")) (some (handle_volume args c)) _
                      (stays {c = handle_volume args c} (h))
                      (if_stays (is (codes "SHELL")) (some (handle_shell args c)) _
                        (stays {c = handle_shell args c} (ap is_abs (handle_shell_dir args c) ∙ h))
                        (if_stays (is (codes "STOPSIGNAL")) (some (handle_stop_signal args c)) _
                          (stays {c = handle_stop_signal args c} (h))
                          (if_stays (is (codes "HEALTHCHECK"))
                            (handle_healthcheck scan_int args c).0 _
                            (handle_healthcheck_dir args c h)
                            (if_stays (is (codes "MAINTAINER")) (some (handle_maintainer args c)) _
                              (stays {c = handle_maintainer args c} (h))
                              (stays {c = c} h))))))))))))

  -- From an absolute working directory, the instructions of a stage, with their build arguments, only
  -- lead to absolute working directories.
  pub apply_stage_working_dir :
      (insts : List Instruction) (args args' : BuildArgs) (c c' : ImageConfig)
      → is_abs c.working_dir ≡ true
      → apply_stage scan_int insts args c ≡ some (args', c')
      → is_abs c'.working_dir ≡ true
  unfolding apply_stage
  apply_stage_working_dir [] args args' c c' h e = rw (← ap_dir args args' c c' e) h
  apply_stage_working_dir (inst ∷ insts) args args' c c' h e =
      let given = substitute_args inst.args args in
      elim (Bool-cases (str_eq inst.inst_type (codes "ARG"))) [
        | inl arg ↦
            apply_stage_working_dir insts (handle_arg given args) args' c c' h
              (rw (arg, apply_stage) at e)
        | inr other ↦ elim (Option-cases (apply_to_config scan_int inst given c)) [
          | inl out ↦ absurd (cc (rw (out, apply_stage) at (rw (other, apply_stage) at e)))
          | inr (d, on) ↦
              apply_stage_working_dir insts args args' d c'
                (stays_abs d (subst StaysAbs on (apply_to_config_dir inst given c h)))
                (rw (on, apply_stage) at (rw (other, apply_stage) at e))
        ]
      ]
