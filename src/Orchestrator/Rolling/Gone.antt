-- ===== src/Orchestrator/Rolling/Gone.antt =====
-- The containers of the replicas that an update has replaced are gone.
use dck.Base.{
  ℕ, ◌+◌, ◌≤◌, ◌≡◌, Bool, true, false, none, List, [], ◌∷◌, ◌++◌, if◌then◌else◌, any, arith, refl,
  Bool-cases, Option-cases, inl, inr, ap, sym, ◌∙◌,
}
use dck.Base.Bytes.{Bytes, str_eq, str_eq_iff}
use dck.Base.Assoc.{lookup}
use dck.Orchestrator.Types.{ServiceReplica, Store, Fleet, Running}
use dck.Orchestrator.Scheduler.{
  Placement, placed, failed, lost, Removal, removed, kept, unanswered, place, schedule_loaded,
  schedule_replica, load_cluster_config, target, without_container, remove_on_node,
  remove_remote_replica, remove_replica_state,
}
use dck.Orchestrator.Rolling.{Turn, start_first, stop_first, update_one, update_from}
use dck.Orchestrator.Rolling.Outcome.{next, update_from_goes_on}

module _ (id : Bytes) where
  -- How many containers have the id.
  abbrev pub count : List Running → ℕ
  count [] = 0
  count (c ∷ cs) = (if str_eq c.container_id id then 1 else 0) + count cs

  -- The start does not give the id to a container.
  abbrev pub Avoids : Placement → Type 0
  Avoids (placed replica container saved) = str_eq container id ≡ false
  Avoids failed = Unit
  Avoids (lost container) = str_eq container id ≡ false

  count-append :
      (cs : List Running) (c : Running)
      → str_eq c.container_id id ≡ false
      → count (cs ++ c ∷ []) ≡ count cs
  count-append [] c h = rw h refl
  count-append (b ∷ cs) c h =
      ap (λ n. (if str_eq b.container_id id then 1 else 0) + n) (count-append cs c h)

  place-count :
      (now : ℕ) (image node : Bytes) (p : Placement) (fl : Fleet)
      → Avoids p
      → count (place now image node p fl).0.containers ≡ count fl.containers
  unfolding place
  place-count now image node (placed replica c true) fl h = count-append fl.containers _ h
  place-count now image node (placed replica c false) fl h = count-append fl.containers _ h
  place-count now image node failed fl h = refl
  place-count now image node (lost c) fl h = count-append fl.containers _ h

  schedule_loaded-count :
      (now : ℕ) (start : Bytes → Placement) (image : Bytes) (st : Store) (fl : Fleet)
      → ((node : Bytes) → Avoids (start node))
      → count (schedule_loaded now start image st fl).1.containers ≡ count fl.containers
  unfolding schedule_loaded
  schedule_loaded-count now start image st fl h = elim (Option-cases (target st.conf)) [
    | inl nowhere ↦ rw (nowhere, schedule_loaded) refl
    | inr (t, there) ↦
        rw (there, schedule_loaded) (place-count now image t.id (start t.id) fl (h t.id))
  ]

  schedule_replica-count :
      (now : ℕ) (start : Bytes → Placement) (image : Bytes) (st : Store) (fl : Fleet)
      → ((node : Bytes) → Avoids (start node))
      → count (schedule_replica now start image st fl).1.containers ≡ count fl.containers
  unfolding schedule_replica
  schedule_replica-count now start image st fl h = elim (Option-cases (load_cluster_config st)) [
    | inl out ↦ rw (out, schedule_replica) refl
    | inr (st', there) ↦
        rw (there, schedule_replica) (schedule_loaded-count now start image st' fl h)
  ]

  without-le : (other : Bytes) (cs : List Running) → count (without_container other cs) ≤ count cs
  unfolding without_container
  without-le other [] = omega arith
  without-le other (c ∷ cs) = ground (arith, without-le other cs)

  without-gone : (cs : List Running) → count cs ≤ 1 → count (without_container id cs) ≡ 0
  unfolding without_container
  without-gone [] h = refl
  without-gone (c ∷ cs) h = ground (arith, h, without-gone cs)

  removed-le :
      (removal : Removal) (node other : Bytes) (st : Store) (fl : Fleet)
      → count (remove_remote_replica removal node other st fl).0.containers ≤ count fl.containers
  unfolding remove_remote_replica
  removed-le removal node other st fl = elim (Option-cases (lookup node st.conf.nodes)) [
    | inl unknown ↦ rw (unknown, remove_remote_replica) (omega arith)
    | inr (n, there) ↦ rw (there, remove_remote_replica) (on_node removal)
  ]
    where
      on_node :
          (removal : Removal)
          → count (remove_on_node removal other fl).0.containers ≤ count fl.containers
      on_node removed = unfold remove_on_node in without-le other fl.containers
      on_node kept = unfold remove_on_node in omega arith
      on_node unanswered = unfold remove_on_node in without-le other fl.containers

  -- A removal that reports no error has taken the container away.
  removed-gone :
      (removal : Removal) (node : Bytes) (st : Store) (fl : Fleet)
      → count fl.containers ≤ 1
      → (remove_remote_replica removal node id st fl).1 ≡ true
      → count (remove_remote_replica removal node id st fl).0.containers ≡ 0
  unfolding remove_remote_replica
  removed-gone removal node st fl once done = elim (Option-cases (lookup node st.conf.nodes)) [
    | inl unknown ↦ absurd (cc (rw (unknown, remove_remote_replica) at done))
    | inr (n, there) ↦
        rw (there, remove_remote_replica)
          (on_node removal (rw (there, remove_remote_replica) at done))
  ]
    where
      on_node :
          (removal : Removal)
          → (remove_on_node removal id fl).1 ≡ true
          → count (remove_on_node removal id fl).0.containers ≡ 0
      on_node removed h = unfold remove_on_node in without-gone fl.containers once
      on_node kept h = absurd (unfold remove_on_node in cc h)
      on_node unanswered h = absurd (unfold remove_on_node in cc h)

  forgotten_containers :
      (forgotten : Bool) (replica : Bytes) (fl : Fleet)
      → (remove_replica_state forgotten replica fl).containers ≡ fl.containers
  unfolding remove_replica_state
  forgotten_containers true replica fl = refl
  forgotten_containers false replica fl = refl

  module _ (turns : ServiceReplica → Turn)
      (fresh : (r : ServiceReplica) (node : Bytes) → Avoids ((turns r).start node)) where
    update_one-count :
        (first : Bool) (image : Bytes) (r : ServiceReplica) (st : Store) (fl : Fleet)
        → let p = update_one first image (turns r) r st fl in
          p.stopped_at ≡ none
          → count fl.containers ≤ 1
          → (count p.fleet.containers ≤ count fl.containers)
            × (r.container_id ≡ id → count p.fleet.containers ≡ 0)
    unfolding update_one start_first stop_first
    update_one-count true image r st fl done once =
        let turn = turns r in
        let s = schedule_replica turn.now turn.start image st fl in
        let same = schedule_replica-count turn.now turn.start image st fl (fresh r) in
        let g = remove_remote_replica turn.removal r.node_id r.container_id s.0 s.1 in
        let forgotten = forgotten_containers turn.forgotten r.id g.0 in
        let fewer = removed-le turn.removal r.node_id r.container_id s.0 s.1 in
        let gone = removed-gone turn.removal r.node_id s.0 s.1 (omega (arith, same, once)) in
        (
          ground (arith, done, same, fewer, ap count forgotten),
          λ e. ground (arith, done, ap count forgotten, rw (sym e) at gone),
        )
    update_one-count false image r st fl done once =
        let turn = turns r in
        let g = remove_remote_replica turn.removal r.node_id r.container_id st fl in
        let s = schedule_replica turn.now turn.start image st g.0 in
        let same = schedule_replica-count turn.now turn.start image st g.0 (fresh r) in
        let forgotten = forgotten_containers turn.forgotten r.id s.1 in
        let fewer = removed-le turn.removal r.node_id r.container_id st fl in
        let gone = removed-gone turn.removal r.node_id st fl once in
        (
          ground (arith, done, same, fewer, ap count forgotten),
          λ e. ground (arith, done, same, ap count forgotten, rw (sym e) at gone),
        )

    module _ (parallelism delay : ℕ) (first : Bool) (image : Bytes) where
      update_from-count :
          (left : ℕ) (rs : List ServiceReplica) (st : Store) (fl : Fleet)
          → count fl.containers ≤ 1
          → let p = update_from parallelism delay first image turns left rs st fl in
            p.stopped_at ≡ none → count p.fleet.containers ≤ count fl.containers
      update_from-count left [] st fl once done = unfold update_from in omega arith
      update_from-count left (r ∷ rs) st fl once done =
          let p = update_one first image (turns r) r st fl in
          let (going, same) =
            update_from_goes_on parallelism delay first image turns left r rs st fl done in
          let (fewer, gone) = update_one-count first image r st fl going once in
          let behind =
            update_from-count (next parallelism delay first image turns left) rs p.store p.fleet
              (omega (arith, fewer, once)) (sym (ap (λ q. q.stopped_at) same) ∙ done) in
          omega (arith, ap (λ q. count q.fleet.containers) same, behind, fewer)

      -- An update that ends without an error leaves no container with the id, if it is the container of
      -- one of the replicas.
      pub update_from-gone :
          (left : ℕ) (rs : List ServiceReplica) (st : Store) (fl : Fleet)
          → any (λ r. str_eq r.container_id id) rs ≡ true
          → count fl.containers ≤ 1
          → let p = update_from parallelism delay first image turns left rs st fl in
            p.stopped_at ≡ none → count p.fleet.containers ≡ 0
      update_from-gone left [] st fl belongs once done = cc
      update_from-gone left (r ∷ rs) st fl belongs once done =
          let p = update_one first image (turns r) r st fl in
          let (going, same) =
            update_from_goes_on parallelism delay first image turns left r rs st fl done in
          let (fewer, gone) = update_one-count first image r st fl going once in
          let left' = next parallelism delay first image turns left in
          let done' = sym (ap (λ q. q.stopped_at) same) ∙ done in
          let once' : count p.fleet.containers ≤ 1 = omega (arith, fewer, once) in
          ap (λ q. count q.fleet.containers) same ∙ elim (Bool-cases (str_eq r.container_id id)) [
            | inl mine ↦
                (let behind = update_from-count left' rs p.store p.fleet once' done' in
                  omega (arith, behind, gone ((str_eq_iff r.container_id id).0 mine)))
            | inr other ↦
                update_from-gone left' rs p.store p.fleet (ground (arith, belongs, other)) once'
                  done'
          ]
