-- ===== src/Orchestrator/Rolling/Files.antt =====
-- What an update leaves of services.json.
use dck.Base.{
  ℕ, ◌-◌, ◌≡◌, Bool, true, false, Option, none, some, if◌then◌else◌, refl, Option-cases, inl, inr,
  ap, ◌∙◌, any, ◌≤◌,
}
use dck.Base.Bytes.{Bytes, str_eq, str_eq_refl}
use dck.Base.Assoc.{lookup, insert, lookup-insert}
use dck.Container.Types.{SaveOutcome, written, refused, chmod_failed, save_ok}
use dck.Orchestrator.Types.{
  Service, ServiceMap, ServiceReplica, Store, Fleet, holds, ClusterConfig, not_found, with_services,
  all_as_read, as_read,
}
use dck.Orchestrator.Services.{ok, err, get_service, save_services}
use dck.Orchestrator.Services.Stored.{result_of, get_service_held}
use dck.Orchestrator.Services.Decoded.{lookup-all_as_read, read_entry}
use dck.Orchestrator.Rolling.{
  Turn, UpdateError, Progress, store_error, update_from, is_empty_list, finish_update,
  update_service_found, is_start_first, listed_replicas, order_of, parallelism_of, delay_of,
}
use dck.Orchestrator.Rolling.Capacity.{finish_update_fleet}
use dck.Orchestrator.Rolling.Gone.{count, Avoids, update_from-gone}
use dck.Orchestrator.Rolling.Outcome.{reread, update_from_done}

saved :
    (o : SaveOutcome) (st : Store) (m : ServiceMap)
    → ◌≡◌ {A = Option UpdateError} (if save_ok o then none else some store_error) none
    → (save_services o (with_services m st)).services_file ≡ holds (all_as_read m)
unfolding save_ok save_services
saved written st m h = refl
saved chmod_failed st m h = cc
saved refused st m h = cc

-- An update that ends without an error has saved the table with the new image.
finish_update_done :
    (o : SaveOutcome) (now : ℕ) (name image : Bytes) (svc : Service) (p : Progress)
    → (finish_update o now name image svc p).stopped_at ≡ none
    → (p.stopped_at ≡ none)
      × ((finish_update o now name image svc p).store.services_file
          ≡ holds (
              all_as_read (
                insert name
                  (record svc { image = image; updated_at = now })
                  p.store.conf.services)))
unfolding finish_update
finish_update_done o now name image svc p done = elim (Option-cases p.stopped_at) [
  | inr (e, stopped) ↦ absurd (cc (stopped, rw (stopped, finish_update) at done))
  | inl on ↦ (on, rw (on, finish_update) (saved o p.store _ (rw (on, finish_update) at done)))
]

module _ (o : SaveOutcome) (now : ℕ) (name image : Bytes) (readable : ServiceReplica → Bool)
    (turns : ServiceReplica → Turn) (svc : Service) where
  abbrev pub updated : Service
  updated = record svc { image = image; updated_at = now }

  abbrev pub loop : Store → Fleet → Progress
  loop st fl =
      update_from (parallelism_of svc.update_config) (delay_of svc.update_config)
        (is_start_first (order_of svc.update_config)) image turns
        (parallelism_of svc.update_config - 1) (listed_replicas readable fl) st fl

  found_done :
      (st : Store) (fl : Fleet)
      → (update_service_found o now name image readable turns svc st fl).stopped_at ≡ none
      → ((loop st fl).stopped_at ≡ none)
        × ((update_service_found o now name image readable turns svc st fl).store.services_file
            ≡ holds (all_as_read (insert name updated (loop st fl).store.conf.services)))
  unfolding update_service_found
  found_done st fl done =
      let (went, file) = finish_update_done o now name image svc (loop st fl) done in (went, file)

  -- When an update ends without an error, then a container that belongs to a replica that was listed no
  -- longer runs, if its id stood once among the containers and no start gave it again, and `GetService`
  -- gives the service with the new image, and nil for an empty `Env` or `Volumes`.
  pub rolling_update_done :
      (id : Bytes) (st : Store) (fl : Fleet)
      → any (λ r. str_eq r.container_id id) (listed_replicas readable fl) ≡ true
      → count id fl.containers ≤ 1
      → ((r : ServiceReplica) (node : Bytes) → Avoids id ((turns r).start node))
      → (update_service_found o now name image readable turns svc st fl).stopped_at ≡ none
      → let p = update_service_found o now name image readable turns svc st fl in
        (count id p.fleet.containers ≡ 0)
        × ((get_service true name p.store).1 ≡ ok (as_read updated))
  unfolding update_service_found
  rolling_update_done id st fl belongs once fresh done =
      let (went, file) = found_done st fl done in
      let table = (loop st fl).store.conf.services in
      let put : lookup name (insert name updated table) ≡ some updated =
        lookup-insert name name updated table ∙ rw (str_eq_refl name) refl in
      let there : lookup name (all_as_read (insert name updated table)) ≡ some (as_read updated) =
        lookup-all_as_read name (insert name updated table) ∙ ap read_entry put in
      (
        ap (λ g. count id g.containers) (finish_update_fleet o now name image svc (loop st fl))
            ∙ update_from-gone id turns fresh (parallelism_of svc.update_config)
                (delay_of svc.update_config) (is_start_first (order_of svc.update_config)) image
                (parallelism_of svc.update_config - 1) (listed_replicas readable fl) st fl belongs
                once went,
        get_service_held name _
              (update_service_found o now name image readable turns svc st fl).store file
            ∙ ap result_of there,
      )

  -- If a replica of the service is listed and its update ends without an error, then a service that
  -- the cluster's file does not list is no longer found, whatever services.json held before: the
  -- reading of the nodes replaces the services in memory, and the end of the update saves those.
  pub rolling_update_forgets :
      (other : Bytes) (st : Store) (fl : Fleet) (cfg : ClusterConfig)
      → st.cluster_file ≡ holds cfg
      → is_empty_list (listed_replicas readable fl) ≡ false
      → str_eq name other ≡ false
      → lookup other cfg.services ≡ none
      → (update_service_found o now name image readable turns svc st fl).stopped_at ≡ none
      → (get_service true other
          (update_service_found o now name image readable turns svc st fl).store).1
        ≡ err not_found
  rolling_update_forgets other st fl cfg cluster some_replica differs unlisted done =
      let (went, file) = found_done st fl done in
      let reloaded : (loop st fl).store ≡ reread cfg st =
        update_from_done (parallelism_of svc.update_config) (delay_of svc.update_config)
          (is_start_first (order_of svc.update_config)) image turns
          (parallelism_of svc.update_config - 1) (listed_replicas readable fl) st fl cfg cluster
          went
        ∙ rw some_replica refl in
      let table = (loop st fl).store.conf.services in
      let missing : lookup other (insert name updated table) ≡ none =
        lookup-insert name other updated table ∙ rw differs (rw reloaded unlisted) in
      let gone : lookup other (all_as_read (insert name updated table)) ≡ none =
        lookup-all_as_read other (insert name updated table) ∙ ap read_entry missing in
      get_service_held other _
        (update_service_found o now name image readable turns svc st fl).store file
      ∙ ap result_of gone
