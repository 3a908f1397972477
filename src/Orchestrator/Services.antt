-- ===== src/Orchestrator/Services.antt =====
-- internal/orchestrator/service.go: the table of services in memory and in services.json.
pub mod Table
pub mod Decoded
pub mod Stored
use dck.Base.{
  ℕ, Bool, true, false, ◌&&◌, ◌||◌, not, Option, none, some, List, [], ◌∷◌, if◌then◌else◌,
}
use dck.Base.Int.{ℤ, pos, ltb_ℤ}
use dck.Base.Bytes.{Bytes, str_eq}
use dck.Base.Assoc.{lookup, insert, delete}
use dck.Container.Types.{SaveOutcome, written, refused, chmod_failed, save_ok}
use dck.Orchestrator.Types.{
  Service, ServiceOpts, ServiceMap, UpdateConfig, File, missing, unreadable, holds, Store,
  ServiceError, load_error, already_exists, not_found, bad_replicas, save_error, with_services,
  all_as_read,
}

-- The part of `loadServices` behind the making of the directory. `none` is an error.
unfoldable pub load_file : File ServiceMap → Store → Option Store
load_file missing st = some (record st {
  conf = record st.conf {
    services = if not st.loaded_dir || st.loaded_file then [] else st.conf.services;
  };
  loaded_dir = true;
  loaded_file = false;
})
load_file unreadable st = none
load_file (holds m) st =
    some
      (record st { conf = record st.conf { services = m }; loaded_dir = true; loaded_file = true })

-- `dir_ok` says whether the directory is there with its mode.
unfoldable pub load_services : Bool → Store → Option Store
unfolding load_file
load_services dir_ok st = if dir_ok then load_file st.services_file st else none

unfoldable pub save_services : SaveOutcome → Store → Store
unfolding all_as_read
save_services written st = record st {
  services_file = holds (all_as_read st.conf.services);
  loaded_dir = true;
  loaded_file = true;
}
save_services chmod_failed st = record st { services_file = holds (all_as_read st.conf.services) }
save_services refused st = st

unfoldable pub new_service : ℕ → Bytes → ℤ → ServiceOpts → Service
new_service now image replicas opts = record {
  image = image;
  replicas = replicas;
  env = opts.env;
  volumes = opts.volumes;
  command = opts.command;
  restart = opts.restart;
  update_config = opts.update_config;
  created_at = now;
  updated_at = now;
}

-- A result, or an error; the state that is left behind stands beside it.
pub data Result {ℓ} (A : Type ℓ) : Type ℓ where
  ok : A → Result A
  err : ServiceError → Result A

-- The part of `CreateService` behind the load.
unfoldable pub create_loaded :
    SaveOutcome → ℕ → Bytes → Bytes → ℤ → ServiceOpts → Store → Store × Result Service
unfolding save_services save_ok new_service
create_loaded o now name image replicas opts st = elim (lookup name st.conf.services) [
  | some old ↦ (st, err already_exists)
  | none ↦
      (let svc = new_service now image replicas opts in
        let saved = save_services o (with_services (insert name svc st.conf.services) st) in
        if save_ok o
        then (saved, ok svc)
        else (with_services (delete name saved.conf.services) saved, err save_error))
]

unfoldable pub create_service :
    Bool → SaveOutcome → ℕ → Bytes → Bytes → ℤ → ServiceOpts → Store → Store × Result Service
unfolding load_services create_loaded
create_service dir_ok o now name image replicas opts st = elim (load_services dir_ok st) [
  | none ↦ (st, err load_error)
  | some st' ↦ create_loaded o now name image replicas opts st'
]

unfoldable pub get_loaded : Bytes → Store → Store × Result Service
get_loaded name st = elim (lookup name st.conf.services) [
  | none ↦ (st, err not_found)
  | some svc ↦ (st, ok svc)
]

unfoldable pub get_service : Bool → Bytes → Store → Store × Result Service
unfolding load_services get_loaded
get_service dir_ok name st = elim (load_services dir_ok st) [
  | none ↦ (st, err load_error)
  | some st' ↦ get_loaded name st'
]

-- The service is changed in memory also where the save fails.
unfoldable pub scale_loaded : SaveOutcome → ℕ → Bytes → ℤ → Store → Store × Result Service
unfolding save_services save_ok
scale_loaded o now name replicas st = elim (lookup name st.conf.services) [
  | none ↦ (st, err not_found)
  | some svc ↦
      if ltb_ℤ replicas (pos 0)
      then (st, err bad_replicas)
      else let svc' = record svc { replicas = replicas; updated_at = now } in
        (
          save_services o (with_services (insert name svc' st.conf.services) st),
          if save_ok o then ok svc' else err save_error,
        )
]

unfoldable pub scale_service : Bool → SaveOutcome → ℕ → Bytes → ℤ → Store → Store × Result Service
unfolding load_services scale_loaded
scale_service dir_ok o now name replicas st = elim (load_services dir_ok st) [
  | none ↦ (st, err load_error)
  | some st' ↦ scale_loaded o now name replicas st'
]

-- The end of `RemoveService`, when the replicas are removed.
unfoldable pub drop_loaded : SaveOutcome → Bytes → Store → Store × Option ServiceError
unfolding save_services save_ok
drop_loaded o name st = (
  save_services o (with_services (delete name st.conf.services) st),
  if save_ok o then none else some save_error,
)

unfoldable pub drop_service : Bool → SaveOutcome → Bytes → Store → Store × Option ServiceError
unfolding load_services drop_loaded
drop_service dir_ok o name st = elim (load_services dir_ok st) [
  | none ↦ (st, some load_error)
  | some st' ↦ drop_loaded o name st'
]

-- if opts.F != nil { svc.F = opts.F }
abbrev pub or_old {ℓ} : {A : Type ℓ} → Option A → Option A → Option A
or_old none old = old
or_old (some new) old = some new

abbrev pub or_old_text : Bytes → Bytes → Bytes
or_old_text new old = if str_eq new [] then old else new

unfoldable pub with_opts : ℕ → ServiceOpts → Service → Service
with_opts now opts svc = record svc {
  env = or_old opts.env svc.env;
  volumes = or_old opts.volumes svc.volumes;
  command = or_old_text opts.command svc.command;
  restart = or_old_text opts.restart svc.restart;
  update_config = or_old opts.update_config svc.update_config;
  updated_at = now;
}

-- The part of `UpdateService` up to the rolling update.
unfoldable pub configure_loaded :
    SaveOutcome → ℕ → Bytes → ServiceOpts → Store → Store × Result Service
unfolding save_services save_ok with_opts
configure_loaded o now name opts st = elim (lookup name st.conf.services) [
  | none ↦ (st, err not_found)
  | some svc ↦ (
    save_services o (with_services (insert name (with_opts now opts svc) st.conf.services) st),
    if save_ok o then ok (with_opts now opts svc) else err save_error,
  )
]

unfoldable pub configure_service :
    Bool → SaveOutcome → ℕ → Bytes → ServiceOpts → Store → Store × Result Service
unfolding load_services configure_loaded
configure_service dir_ok o now name opts st = elim (load_services dir_ok st) [
  | none ↦ (st, err load_error)
  | some st' ↦ configure_loaded o now name opts st'
]
