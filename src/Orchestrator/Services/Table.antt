-- ===== src/Orchestrator/Services/Table.antt =====
-- Sequences of calls on services, and the table that they promise.
use dck.Base.{ℕ, Bool, false, ◌&&◌, not, Option, none, some, List, [], ◌∷◌, if◌then◌else◌}
use dck.Base.Int.{ℤ, pos, ltb_ℤ}
use dck.Base.Bytes.{Bytes, str_eq}
use dck.Container.Types.{SaveOutcome, written, refused, chmod_failed}
use dck.Orchestrator.Types.{Service, ServiceOpts, ServiceMap, Store, with_services, as_read}
use dck.Orchestrator.Services.{
  new_service, create_service, get_service, scale_service, drop_service, with_opts,
  configure_service,
}

-- A call, with what its file operations report and its time; `reload` is what a reading of the
-- cluster's own file does in between to the table in memory.
pub data Call : Type 0 where
  create : Bool → SaveOutcome → ℕ → Bytes → Bytes → ℤ → ServiceOpts → Call
  scale : Bool → SaveOutcome → ℕ → Bytes → ℤ → Call
  configure : Bool → SaveOutcome → ℕ → Bytes → ServiceOpts → Call
  drop : Bool → SaveOutcome → Bytes → Call
  get : Bool → Bytes → Call
  reload : ServiceMap → Call

abbrev pub perform : Call → Store → Store
perform (create dir_ok o now name image replicas opts) st =
    (create_service dir_ok o now name image replicas opts st).0
perform (scale dir_ok o now name replicas) st = (scale_service dir_ok o now name replicas st).0
perform (configure dir_ok o now name opts) st = (configure_service dir_ok o now name opts st).0
perform (drop dir_ok o name) st = (drop_service dir_ok o name st).0
perform (get dir_ok name) st = (get_service dir_ok name st).0
perform (reload m) st = with_services m st

abbrev pub perform_all : List Call → Store → Store
perform_all [] st = st
perform_all (c ∷ cs) st = perform_all cs (perform c st)

-- The abstract table: the service of each name.
abbrev pub Table : Type 0
Table = Bytes → Option Service

-- Whether the call's save comes to the file.
abbrev pub reaches : Bool → SaveOutcome → Bool
reaches dir_ok written = dir_ok
reaches dir_ok chmod_failed = dir_ok
reaches dir_ok refused = false

abbrev pub set : Bytes → Option Service → Table → Table
set name new f other = if str_eq name other then new else f other

abbrev pub set_old : Bytes → (Service → Service) → Option Service → Table → Table
set_old name change none f = f
set_old name change (some svc) f = set name (some (as_read (change svc))) f

abbrev pub set_new : Bytes → Service → Option Service → Table → Table
set_new name svc none f = set name (some (as_read svc)) f
set_new name svc (some old) f = f

-- What a call promises, of a service as it is read back: a save that does not come to the file leaves
-- the table as it was.
abbrev pub effect : Call → Table → Table
effect (create dir_ok o now name image replicas opts) f =
    if reaches dir_ok o then set_new name (new_service now image replicas opts) (f name) f else f
effect (scale dir_ok o now name replicas) f =
    if not (ltb_ℤ replicas (pos 0)) && reaches dir_ok o
    then set_old name (λ svc. record svc { replicas = replicas; updated_at = now }) (f name) f
    else f
effect (configure dir_ok o now name opts) f =
    if reaches dir_ok o then set_old name (with_opts now opts) (f name) f else f
effect (drop dir_ok o name) f = if reaches dir_ok o then set name none f else f
effect (get dir_ok name) f = f
effect (reload m) f = f

abbrev pub effect_all : List Call → Table → Table
effect_all [] f = f
effect_all (c ∷ cs) f = effect_all cs (effect c f)
