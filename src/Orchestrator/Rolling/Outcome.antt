-- ===== src/Orchestrator/Rolling/Outcome.antt =====
-- The turns of an update that ends without an error.
use dck.Base.{
  ℕ, ◌-◌, ◌==◌, ◌≡◌, Bool, true, false, ◌&&◌, none, some, List, [], ◌∷◌, if◌then◌else◌, arith, refl,
  Bool-cases, Option-cases, inl, inr, ap, sym, ◌∙◌,
}
use dck.Base.Bytes.{Bytes}
use dck.Orchestrator.Types.{ServiceReplica, Store, Fleet, holds, ClusterConfig}
use dck.Orchestrator.Scheduler.{
  Placement, schedule_loaded, schedule_replica, load_cluster_config, read_cluster, target,
  remove_remote_replica,
}
use dck.Orchestrator.Rolling.{
  Turn, start_first, stop_first, update_one, update_from, is_empty_list, waits,
}

-- The store when the cluster's file has been read.
abbrev pub reread : ClusterConfig → Store → Store
reread cfg st = record st { conf = cfg }

module _ (cfg : ClusterConfig) (now : ℕ) (start : Bytes → Placement) (image : Bytes) where
  schedule_loaded_store : (st : Store) (fl : Fleet) → (schedule_loaded now start image st fl).0 ≡ st
  unfolding schedule_loaded
  schedule_loaded_store st fl = elim (Option-cases (target st.conf)) [
    | inl nowhere ↦ rw (nowhere, schedule_loaded) refl
    | inr (t, there) ↦ rw (there, schedule_loaded) refl
  ]

  load_held :
      (st : Store) → st.cluster_file ≡ holds cfg → load_cluster_config st ≡ some (reread cfg st)
  unfolding load_cluster_config
  load_held st e = ap (λ f. read_cluster f st) e

  schedule_replica_store :
      (st : Store) (fl : Fleet)
      → st.cluster_file ≡ holds cfg
      → (schedule_replica now start image st fl).0 ≡ reread cfg st
  unfolding schedule_replica
  schedule_replica_store st fl e =
      rw (load_held st e, schedule_replica) (schedule_loaded_store (reread cfg st) fl)

update_one_done :
    (first : Bool) (image : Bytes) (turn : Turn) (r : ServiceReplica) (st : Store) (fl : Fleet)
    (cfg : ClusterConfig)
    → st.cluster_file ≡ holds cfg
    → (update_one first image turn r st fl).stopped_at ≡ none
    → (update_one first image turn r st fl).store ≡ reread cfg st
unfolding update_one start_first stop_first
update_one_done true image turn r st fl cfg e done =
    ground (arith, done, schedule_replica_store cfg turn.now turn.start image st fl e)
update_one_done false image turn r st fl cfg e done =
    let g = remove_remote_replica turn.removal r.node_id r.container_id st fl in
    ground (arith, done, schedule_replica_store cfg turn.now turn.start image st g.0 e)

module _ (parallelism delay : ℕ) (first : Bool) (image : Bytes)
    (turns : ServiceReplica → Turn) where
  abbrev pub next : ℕ → ℕ
  next left = if left == 0 then parallelism - 1 else left - 1

  -- An update of `r ∷ rs` that ends without an error ends its first turn without one, and goes on.
  pub update_from_goes_on :
      (left : ℕ) (r : ServiceReplica) (rs : List ServiceReplica) (st : Store) (fl : Fleet)
      → (update_from parallelism delay first image turns left (r ∷ rs) st fl).stopped_at ≡ none
      → let p = update_one first image (turns r) r st fl in
        (p.stopped_at ≡ none)
        × (update_from parallelism delay first image turns left (r ∷ rs) st fl
            ≡ update_from parallelism delay first image turns (next left) rs p.store p.fleet)
  unfolding update_from
  update_from_goes_on left r rs st fl done =
      let p = update_one first image (turns r) r st fl in
      elim (Option-cases p.stopped_at) [
        | inr (e, stopped) ↦ absurd (cc (stopped, rw (stopped, update_from) at done))
        | inl going ↦
            elim (Bool-cases (left == 0 && waits delay rs && (turns r).cancelled_in_wait)) [
              | inl cancelled ↦ absurd (cc (rw cancelled at (rw (going, update_from) at done)))
              | inr on ↦ (going, rw (going, update_from) (rw on refl))
            ]
      ]

  pub update_from_done :
      (left : ℕ) (rs : List ServiceReplica) (st : Store) (fl : Fleet) (cfg : ClusterConfig)
      → st.cluster_file ≡ holds cfg
      → (update_from parallelism delay first image turns left rs st fl).stopped_at ≡ none
      → (update_from parallelism delay first image turns left rs st fl).store
        ≡ (if is_empty_list rs then st else reread cfg st)
  update_from_done left [] st fl cfg e done = unfold update_from in refl
  update_from_done left (r ∷ rs) st fl cfg e done =
      let p = update_one first image (turns r) r st fl in
      let (going, same) = update_from_goes_on left r rs st fl done in
      let moved = update_one_done first image (turns r) r st fl cfg e going in
      let behind =
        update_from_done (next left) rs p.store p.fleet cfg (ap (λ s. s.cluster_file) moved ∙ e)
          (sym (ap (λ q. q.stopped_at) same) ∙ done) in
      ap (λ q. q.store) same ∙ behind ∙ elim (Bool-cases (is_empty_list rs)) [
        | inl last ↦ rw last moved
        | inr more ↦ rw more (ap (reread cfg) moved)
      ]
