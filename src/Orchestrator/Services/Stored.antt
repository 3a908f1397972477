-- ===== src/Orchestrator/Services/Stored.antt =====
-- The operations on services implement a map from names to services, kept in services.json.
use dck.Base.{
  ℕ, ◌≡◌, true, false, Option, none, some, List, [], ◌∷◌, if◌then◌else◌, arith, refl, ap, ◌∙◌, sym,
  Bool-cases, Option-cases, inl, inr,
}
use dck.Base.Int.{ℤ, pos, ltb_ℤ}
use dck.Base.Bytes.{Bytes, str_eq, str_eq_refl}
use dck.Base.Assoc.{lookup, insert, delete, lookup-insert, lookup-delete}
use dck.Container.Types.{SaveOutcome, written, refused, chmod_failed, save_ok}
use dck.Orchestrator.Types.{
  Service, ServiceOpts, ServiceMap, holds, Store, not_found, save_error, with_services, as_read,
  all_as_read,
}
use dck.Orchestrator.Services.{
  load_file, load_services, save_services, new_service, Result, ok, err, create_loaded,
  create_service, get_loaded, get_service, scale_loaded, scale_service, drop_loaded, drop_service,
  with_opts, configure_loaded, configure_service,
}
use dck.Orchestrator.Services.Table.{
  Call, create, scale, configure, drop, get, reload, perform, perform_all, Table, reaches, set,
  effect, effect_all,
}
use dck.Orchestrator.Services.Decoded.{
  read_entry, Decoded, as_read_twice, lookup-all_as_read, set-Decoded,
}

-- The file holds the table.
abbrev Represents : Store → Table → Type 0
Represents st f =
    (m : ServiceMap) × (st.services_file ≡ holds m) × ((n : Bytes) → lookup n m ≡ f n) × Decoded f

abbrev pub loaded : ServiceMap → Store → Store
loaded m st = record st {
  conf = record st.conf { services = m };
  loaded_dir = true;
  loaded_file = true;
}

pub load_services_held :
    (m : ServiceMap) (st : Store)
    → st.services_file ≡ holds m
    → load_services true st ≡ some (loaded m st)
unfolding load_services load_file
load_services_held m st e = ap (λ f. load_file f st) e

-- A save of the table with a service put in or taken out.
module _ (name : Bytes) (m : ServiceMap) (f : Table) (h : (n : Bytes) → lookup n m ≡ f n)
    (d : Decoded f) where
  put_in :
      (svc : Service) (n : Bytes)
      → lookup n (all_as_read (insert name svc m)) ≡ set name (some (as_read svc)) f n
  put_in svc n =
      lookup-all_as_read n (insert name svc m)
      ∙ ap read_entry (lookup-insert name n svc m)
      ∙ elim (Bool-cases (str_eq name n)) [
        | inl same ↦ rw same refl
        | inr other ↦ rw other (ap read_entry (h n) ∙ d n)
      ]

  taken_out : (n : Bytes) → lookup n (all_as_read (delete name m)) ≡ set name none f n
  taken_out n =
      lookup-all_as_read n (delete name m)
      ∙ ap read_entry (lookup-delete name n m)
      ∙ elim (Bool-cases (str_eq name n)) [
        | inl same ↦ rw same refl
        | inr other ↦ rw other (ap read_entry (h n) ∙ d n)
      ]

  inserted :
      (o : SaveOutcome) (svc : Service) (st : Store)
      → st.services_file ≡ holds m
      → Represents
          (save_services o (with_services (insert name svc m) st))
          (if reaches true o then set name (some (as_read svc)) f else f)
  unfolding save_services
  inserted written svc st e =
      (_, refl, put_in svc, set-Decoded name _ f d (ap some (as_read_twice svc)))
  inserted chmod_failed svc st e =
      (_, refl, put_in svc, set-Decoded name _ f d (ap some (as_read_twice svc)))
  inserted refused svc st e = (m, e, h, d)

  deleted :
      (o : SaveOutcome) (st : Store)
      → st.services_file ≡ holds m
      → Represents
          (save_services o (with_services (delete name m) st))
          (if reaches true o then set name none f else f)
  unfolding save_services
  deleted written st e = (_, refl, taken_out, set-Decoded name none f d refl)
  deleted chmod_failed st e = (_, refl, taken_out, set-Decoded name none f d refl)
  deleted refused st e = (m, e, h, d)

-- What `GetService` gives of an entry.
abbrev pub result_of : Option Service → Result Service
result_of none = err not_found
result_of (some svc) = ok svc

module _ (m : ServiceMap) (st : Store) (f : Table) (e : st.services_file ≡ holds m)
    (h : (n : Bytes) → lookup n m ≡ f n) (d : Decoded f) where
  module _ (now : ℕ) (name image : Bytes) (replicas : ℤ) (opts : ServiceOpts) where
    create_new :
        (o : SaveOutcome)
        → lookup name m ≡ none
        → Represents (create_loaded o now name image replicas opts (loaded m st)).0 (
            if reaches true o
            then set name (some (as_read (new_service now image replicas opts))) f
            else f)
    unfolding create_loaded save_ok
    create_new written new =
        rw (new, create_loaded)
          (inserted name m f h d written (new_service now image replicas opts) (loaded m st) e)
    create_new chmod_failed new =
        rw (new, create_loaded)
          (inserted name m f h d chmod_failed (new_service now image replicas opts) (loaded m st) e)
    create_new refused new = rw (new, create_loaded) (m, e, h, d)

    create_represents :
        (o : SaveOutcome)
        → Represents
            (create_loaded o now name image replicas opts (loaded m st)).0
            (effect (create true o now name image replicas opts) f)
    create_represents o = elim (Option-cases (lookup name m)) [
      | inl new ↦ rw (sym (h name) ∙ new) (create_new o new)
      | inr (old, found) ↦
          (let same : effect (create true o now name image replicas opts) f ≡ f =
              rw (sym (h name) ∙ found) (ground arith) in
            rw same (unfold create_loaded in rw (found, create_loaded) (m, e, h, d)))
    ]

  module _ (o : SaveOutcome) (now : ℕ) (name : Bytes) where
    scale_represents :
        (replicas : ℤ)
        → Represents
            (scale_loaded o now name replicas (loaded m st)).0
            (effect (scale true o now name replicas) f)
    unfolding scale_loaded
    scale_represents replicas = elim (Option-cases (lookup name m)) [
      | inl new ↦
          (let same : effect (scale true o now name replicas) f ≡ f =
              rw (sym (h name) ∙ new) (ground arith) in
            rw same (rw (new, scale_loaded) (m, e, h, d)))
      | inr (svc, found) ↦ rw (sym (h name) ∙ found) (
          rw (found, scale_loaded)
            (elim (Bool-cases (ltb_ℤ replicas (pos 0))) [
              | inl bad ↦ rw bad (m, e, h, d)
              | inr good ↦ rw good (
                  inserted name m f h d o (record svc { replicas = replicas; updated_at = now })
                    (loaded m st) e)
            ]))
    ]

    configure_represents :
        (opts : ServiceOpts)
        → Represents
            (configure_loaded o now name opts (loaded m st)).0
            (effect (configure true o now name opts) f)
    unfolding configure_loaded
    configure_represents opts = elim (Option-cases (lookup name m)) [
      | inl new ↦
          (let same : effect (configure true o now name opts) f ≡ f =
              rw (sym (h name) ∙ new) (ground arith) in
            rw same (rw (new, configure_loaded) (m, e, h, d)))
      | inr (svc, found) ↦ rw (sym (h name) ∙ found) (
          rw (found, configure_loaded)
            (inserted name m f h d o (with_opts now opts svc) (loaded m st) e))
    ]

  get_represents : (name : Bytes) → Represents (get_loaded name (loaded m st)).0 f
  unfolding get_loaded
  get_represents name = elim (Option-cases (lookup name m)) [
    | inl new ↦ rw (new, get_loaded) (m, e, h, d)
    | inr (svc, found) ↦ rw (found, get_loaded) (m, e, h, d)
  ]

get_found :
    (m : ServiceMap) (st : Store) (f : Table)
    → ((n : Bytes) → lookup n m ≡ f n)
    → (name : Bytes) → (get_loaded name (loaded m st)).1 ≡ result_of (f name)
unfolding get_loaded
get_found m st f h name = rw (← h name) (elim (Option-cases (lookup name m)) [
  | inl new ↦ rw (new, get_loaded) refl
  | inr (svc, there) ↦ rw (there, get_loaded) refl
])

reaches_nowhere : (o : SaveOutcome) → reaches false o ≡ false
reaches_nowhere written = refl
reaches_nowhere chmod_failed = refl
reaches_nowhere refused = refl

perform_represents :
    (c : Call) (st : Store) (f : Table) → Represents st f → Represents (perform c st) (effect c f)
unfolding create_service scale_service configure_service drop_service get_service drop_loaded
perform_represents (create true o now name image replicas opts) st f (m, e, h, d) =
    rw (load_services_held m st e, perform, create_service)
      (create_represents m st f e h d now name image replicas opts o)
perform_represents (create false o now name image replicas opts) st f r = rw (reaches_nowhere o) r
perform_represents (scale true o now name replicas) st f (m, e, h, d) =
    rw (load_services_held m st e, perform, scale_service)
      (scale_represents m st f e h d o now name replicas)
perform_represents (scale false o now name replicas) st f r =
    elim (Bool-cases (ltb_ℤ replicas (pos 0))) [
      | inl bad ↦ rw bad r
      | inr good ↦ rw good (rw (reaches_nowhere o) r)
    ]
perform_represents (configure true o now name opts) st f (m, e, h, d) =
    rw (load_services_held m st e, perform, configure_service)
      (configure_represents m st f e h d o now name opts)
perform_represents (configure false o now name opts) st f r = rw (reaches_nowhere o) r
perform_represents (drop true o name) st f (m, e, h, d) =
    rw (load_services_held m st e, perform, drop_service) (deleted name m f h d o (loaded m st) e)
perform_represents (drop false o name) st f r = rw (reaches_nowhere o) r
perform_represents (get true name) st f (m, e, h, d) =
    rw (load_services_held m st e, perform, get_service) (get_represents m st f e h d name)
perform_represents (get false name) st f r = r
perform_represents (reload m) st f r = r

-- `GetService` reads the file.
pub get_service_held :
    (name : Bytes) (m : ServiceMap) (st : Store)
    → st.services_file ≡ holds m
    → (get_service true name st).1 ≡ result_of (lookup name m)
unfolding get_service
get_service_held name m st e =
    rw (load_services_held m st e, get_service) (get_found m st (λ n. lookup n m) (λ n. refl) name)

perform_all_represents :
    (cs : List Call) (st : Store) (f : Table)
    → Represents st f
    → Represents (perform_all cs st) (effect_all cs f)
perform_all_represents [] st f r = r
perform_all_represents (c ∷ cs) st f r =
    perform_all_represents cs (perform c st) (effect c f) (perform_represents c st f r)

-- If services.json holds a table, in which decoding leaves no empty list and no empty map but nil,
-- then after any calls that create, scale, configure, drop or get services, with readings of the
-- cluster's file between them, `GetService` gives of each name what the calls whose saves came to
-- the file make of that table, with nil for each empty `Env` and `Volumes`: whatever stood in
-- memory, whichever error a call reported, and whether its save failed before or behind the file's
-- replacement.
pub get_service-perform_all :
    (cs : List Call) (st : Store) (m : ServiceMap) (name : Bytes)
    → st.services_file ≡ holds m
    → Decoded (λ n. lookup n m)
    → (get_service true name (perform_all cs st)).1
      ≡ result_of (effect_all cs (λ n. lookup n m) name)
get_service-perform_all cs st m name e d =
    let (m', e', h, d') = perform_all_represents cs st (λ n. lookup n m) (m, e, λ n. refl, d) in
    get_service_held name m' (perform_all cs st) e' ∙ ap result_of (h name)

-- If the mode of services.json cannot be set when it has been replaced, `CreateService` of a new name
-- reports that the save failed and takes the service out of memory, but `GetService` finds it.
pub create_service_half_saved :
    (now : ℕ) (name image : Bytes) (replicas : ℤ) (opts : ServiceOpts) (st : Store) (m : ServiceMap)
    → st.services_file ≡ holds m
    → Decoded (λ n. lookup n m)
    → lookup name m ≡ none
    → let (st', result) = create_service true chmod_failed now name image replicas opts st in
      (result ≡ err save_error)
      × (lookup name st'.conf.services ≡ none)
      × ((get_service true name st').1 ≡ ok (as_read (new_service now image replicas opts)))
unfolding create_service create_loaded save_ok save_services
create_service_half_saved now name image replicas opts st m e d new =
    let svc = new_service now image replicas opts in
    let again =
      get_service-perform_all (create true chmod_failed now name image replicas opts ∷ []) st m name
        e d in
    (
      rw (load_services_held m st e, create_service) (rw (new, create_loaded) refl),
      rw (load_services_held m st e, create_service)
          (rw (new, create_loaded)
            (lookup-delete name name (insert name svc m) ∙ rw (str_eq_refl name) refl)),
      again ∙ rw new (rw (str_eq_refl name) refl),
    )
