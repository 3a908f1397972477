-- ===== src/Orchestrator/Rolling/Kept.antt =====
-- An update that stops at an error leaves the files as they were.
use dck.Base.{
  ℕ, ◌-◌, ◌==◌, ◌≡◌, ◌≢◌, Bool, true, false, ◌&&◌, some, List, [], ◌∷◌, if◌then◌else◌, arith, refl,
  Bool-cases, Option-cases, inl, inr, ap, ◌∙◌,
}
use dck.Base.Bytes.{Bytes}
use dck.Base.Assoc.{lookup}
use dck.Container.Types.{SaveOutcome}
use dck.Orchestrator.Types.{
  Service, ServiceMap, ServiceReplica, Store, Fleet, File, missing, unreadable, holds,
  ClusterConfig,
}
use dck.Orchestrator.Services.{Result, ok, err, get_service, get_loaded, load_services, load_file}
use dck.Orchestrator.Scheduler.{
  Placement, schedule_loaded, schedule_replica, load_cluster_config, read_cluster, target,
  remove_remote_replica,
}
use dck.Orchestrator.Rolling.{
  Turn, UpdateError, Progress, store_error, start_first, stop_first, update_one, update_from, waits,
  finish_update, update_service_found, rolling_found, rolling_update_service, is_start_first,
  listed_replicas, order_of, parallelism_of, delay_of,
}
use dck.Orchestrator.Rolling.Files.{loop}

-- The two files are what they were.
abbrev SameFiles : Store → Store → Type 0
SameFiles st st' = (st'.services_file ≡ st.services_file) × (st'.cluster_file ≡ st.cluster_file)

load_file-SameFiles :
    (f : File ServiceMap) (st st' : Store) → load_file f st ≡ some st' → SameFiles st st'
unfolding load_file
load_file-SameFiles missing st st' e = (ground (arith, e), ground (arith, e))
load_file-SameFiles unreadable st st' e = cc
load_file-SameFiles (holds m) st st' e = (ground (arith, e), ground (arith, e))

load_services-SameFiles :
    (dir_ok : Bool) (st st' : Store) → load_services dir_ok st ≡ some st' → SameFiles st st'
unfolding load_services
load_services-SameFiles true st st' e = load_file-SameFiles st.services_file st st' e
load_services-SameFiles false st st' e = cc

get_loaded_store : (name : Bytes) (st : Store) → (get_loaded name st).0 ≡ st
unfolding get_loaded
get_loaded_store name st = elim (Option-cases (lookup name st.conf.services)) [
  | inl new ↦ rw (new, get_loaded) refl
  | inr (svc, there) ↦ rw (there, get_loaded) refl
]

get_service-SameFiles :
    (dir_ok : Bool) (name : Bytes) (st : Store) → SameFiles st (get_service dir_ok name st).0
unfolding get_service
get_service-SameFiles dir_ok name st = elim (Option-cases (load_services dir_ok st)) [
  | inl out ↦ rw (out, get_service) (refl, refl)
  | inr (st', there) ↦
      rw (there, get_service)
        (rw (get_loaded_store name st') (load_services-SameFiles dir_ok st st' there))
]

read_cluster-SameFiles :
    (f : File ClusterConfig) (st st' : Store) → read_cluster f st ≡ some st' → SameFiles st st'
unfolding read_cluster
read_cluster-SameFiles missing st st' e = cc
read_cluster-SameFiles unreadable st st' e = cc
read_cluster-SameFiles (holds cfg) st st' e = (ground (arith, e), ground (arith, e))

schedule_loaded-SameFiles :
    (now : ℕ) (start : Bytes → Placement) (image : Bytes) (st : Store) (fl : Fleet)
    → SameFiles st (schedule_loaded now start image st fl).0
unfolding schedule_loaded
schedule_loaded-SameFiles now start image st fl = elim (Option-cases (target st.conf)) [
  | inl nowhere ↦ rw (nowhere, schedule_loaded) (refl, refl)
  | inr (t, there) ↦ rw (there, schedule_loaded) (refl, refl)
]

schedule_replica-SameFiles :
    (now : ℕ) (start : Bytes → Placement) (image : Bytes) (st : Store) (fl : Fleet)
    → SameFiles st (schedule_replica now start image st fl).0
unfolding schedule_replica load_cluster_config
schedule_replica-SameFiles now start image st fl =
    elim (Option-cases (read_cluster st.cluster_file st)) [
      | inl out ↦ rw (out, schedule_replica, load_cluster_config) (refl, refl)
      | inr (st', there) ↦
          (let read = read_cluster-SameFiles st.cluster_file st st' there in
            let same = schedule_loaded-SameFiles now start image st' fl in
            rw (there, schedule_replica, load_cluster_config) (same.0 ∙ read.0, same.1 ∙ read.1))
    ]

update_one-SameFiles :
    (first : Bool) (image : Bytes) (turn : Turn) (r : ServiceReplica) (st : Store) (fl : Fleet)
    → SameFiles st (update_one first image turn r st fl).store
unfolding update_one start_first stop_first
update_one-SameFiles true image turn r st fl =
    let same = schedule_replica-SameFiles turn.now turn.start image st fl in
    (ground (arith, same.0), ground (arith, same.1))
update_one-SameFiles false image turn r st fl =
    let g = remove_remote_replica turn.removal r.node_id r.container_id st fl in
    let same = schedule_replica-SameFiles turn.now turn.start image st g.0 in
    (ground (arith, same.0), ground (arith, same.1))

module _ (parallelism delay : ℕ) (first : Bool) (image : Bytes)
    (turns : ServiceReplica → Turn) where
  update_from-SameFiles :
      (left : ℕ) (rs : List ServiceReplica) (st : Store) (fl : Fleet)
      → SameFiles st (update_from parallelism delay first image turns left rs st fl).store
  unfolding update_from
  update_from-SameFiles left [] st fl = (refl, refl)
  update_from-SameFiles left (r ∷ rs) st fl =
      let p = update_one first image (turns r) r st fl in
      let here = update_one-SameFiles first image (turns r) r st fl in
      let behind =
        update_from-SameFiles (if left == 0 then parallelism - 1 else left - 1) rs p.store
          p.fleet in
      elim (Option-cases p.stopped_at) [
        | inr (e, stopped) ↦ rw (stopped, update_from) here
        | inl going ↦
            rw (going, update_from)
              (elim (Bool-cases (left == 0 && waits delay rs && (turns r).cancelled_in_wait)) [
                | inl cancelled ↦ rw cancelled here
                | inr on ↦ rw on (behind.0 ∙ here.0, behind.1 ∙ here.1)
              ])
      ]

finish_update_stopped :
    (o : SaveOutcome) (now : ℕ) (name image : Bytes) (svc : Service) (p : Progress)
    (e : UpdateError)
    → (finish_update o now name image svc p).stopped_at ≡ some e
    → e ≢ store_error
    → (finish_update o now name image svc p).store ≡ p.store
unfolding finish_update
finish_update_stopped o now name image svc p e stopped other = elim (Option-cases p.stopped_at) [
  | inr (e', there) ↦ rw (there, finish_update) refl
  | inl on ↦ absurd (other (ground (arith, rw (on, finish_update) at stopped)))
]

rolling_found_keeps :
    (o : SaveOutcome) (now : ℕ) (name image : Bytes) (readable : ServiceReplica → Bool)
    (turns : ServiceReplica → Turn) (fl : Fleet) (st : Store) (found : Result Service)
    (e : UpdateError)
    → (rolling_found o now name image readable turns fl st found).stopped_at ≡ some e
    → e ≢ store_error
    → (rolling_found o now name image readable turns fl st found).store.services_file
      ≡ st.services_file
unfolding update_service_found
rolling_found_keeps o now name image readable turns fl st (err e') e stopped other = refl
rolling_found_keeps o now name image readable turns fl st (ok svc) e stopped other =
    let q = loop o now name image readable turns svc st fl in
    ap (λ s. s.services_file) (finish_update_stopped o now name image svc q e stopped other)
    ∙ (update_from-SameFiles (parallelism_of svc.update_config) (delay_of svc.update_config)
        (is_start_first (order_of svc.update_config)) image turns
        (parallelism_of svc.update_config - 1) (listed_replicas readable fl) st fl).0

-- An update that returns with an error of a turn or a cancellation leaves services.json as it was, so
-- the service keeps its image there, whichever replicas have been replaced.
pub rolling_update_error_keeps :
    (dir_ok : Bool) (o : SaveOutcome) (now : ℕ) (name image : Bytes)
    (readable : ServiceReplica → Bool) (turns : ServiceReplica → Turn) (st : Store) (fl : Fleet)
    (e : UpdateError)
    → (rolling_update_service dir_ok o now name image readable turns st fl).stopped_at ≡ some e
    → e ≢ store_error
    → (rolling_update_service dir_ok o now name image readable turns st fl).store.services_file
      ≡ st.services_file
unfolding rolling_update_service
rolling_update_error_keeps dir_ok o now name image readable turns st fl e stopped other =
    let g = get_service dir_ok name st in
    rolling_found_keeps o now name image readable turns fl g.0 g.1 e stopped other
    ∙ (get_service-SameFiles dir_ok name st).0
