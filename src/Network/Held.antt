-- ===== src/Network/Held.antt =====
-- An address that is handed out stays with its network until it is released.
use dck.Base.{
  ℕ, ◌≡◌, ◌≢◌, Bool, true, false, ◌&&◌, not, some, [], ◌∷◌, keep, ◌==◌, any, arith, refl, ap, ◌∙◌,
  sym, Bool-cases, Option-cases, inl, inr, ◌⊎◌, List,
}
use dck.Base.Bytes.{Bytes, str_eq, str_eq_refl, str_eq_iff, str_eq_ne}
use dck.Base.Assoc.{lookup, insert, delete, lookup-insert, lookup-delete}
use dck.Container.Types.{SaveOutcome, written, refused, chmod_failed}
use dck.Network.{
  contains, cidr_overlaps, bridge_cidr, UserNetwork, Store, Reading, SubnetArg, has_address,
  load_network, list_networks, subnet_of, save_user_network, new_network, create_network,
  free_address, allocate_network_ip, with_address, without_address, release_network_ip,
  remove_network, is_unused, valid_network_name,
}
use dck.Network.Overlap.{cidr_overlaps_iff}
use dck.Network.Invariant.{
  WellFormed, Step, create_step, allocate_step, release_step, remove_step, Reachable, next,
  Reachable-WellFormed, load-found,
}
use dck.Network.Handout.{allocated, free_address_lem}

module _ (j : Bytes) (ip : ℕ) where
  -- An operation that is no release of `ip` from the network `j`, and no creation that does not see
  -- a state file which is there.
  abbrev pub Spares : (s t : Store) → Step s t → Type 0
  Spares s _ (create_step o seen rd rd' name arg _ fits all) = seen ≡ true
  Spares s _ (allocate_step o rd name _) = Unit
  Spares s _ (release_step o rd name ip' _) = (name ≢ j) ⊎ (ip' ≢ ip)
  Spares s _ (remove_step bridge_gone file_gone rd name _) = Unit

  -- Such operations one after the other.
  pub data Later : Store → Store → Type 0 where
    at_once : (s : Store) → Later s s
    later : (s t u : Store) → Later s t → (step : Step t u) → Spares t u step → Later s u

  -- The network `j` has `ip` in its subnet and has allocated it.
  abbrev Holds : UserNetwork → Type 0
  Holds n = (has_address ip n.allocated ≡ true) × (contains n.subnet ip ≡ true)

  abbrev Held : Store → Type 0
  Held s = (n : UserNetwork) × (lookup j s ≡ some n) × Holds n

  insert-Held :
      (k : Bytes) (m : UserNetwork) (s : Store) → Held s → (k ≡ j → Holds m) → Held (insert k m s)
  insert-Held k m s (n, there, h) own = elim (Bool-cases (str_eq k j)) [
    | inl same ↦ (m, lookup-insert k j m s ∙ rw same refl, own ((str_eq_iff k j).0 same))
    | inr other ↦ (n, lookup-insert k j m s ∙ rw other there, h)
  ]

  save-Held :
      (o : SaveOutcome) (m : UserNetwork) (s : Store)
      → Held s
      → (m.name ≡ j → Holds m)
      → Held (save_user_network o m s)
  unfolding save_user_network
  save-Held written m s h own = insert-Held m.name m s h own
  save-Held chmod_failed m s h own = insert-Held m.name m s h own
  save-Held refused m s h own = h

  delete-Held : (k : Bytes) (s : Store) → Held s → k ≢ j → Held (delete k s)
  delete-Held k s (n, there, h) ne = elim (Bool-cases (str_eq k j)) [
    | inl same ↦ absurd (ne ((str_eq_iff k j).0 same))
    | inr other ↦ (n, lookup-delete k j s ∙ rw other there, h)
  ]

  module _ (s : Store) (wf : WellFormed s) (held : Held s) where
    -- The network that an operation on `k` loads is the one that holds the address, if `k` is `j`.
    loaded-Holds :
        (rd : Reading) (k : Bytes) (m : UserNetwork)
        → load_network rd k s ≡ some m
        → (m.name ≡ k) × (k ≡ j → Holds m)
    loaded-Holds rd k m e =
        let found = load-found s wf rd k m e in
        (
          (wf.fine k m found).named,
          λ same.
              (let (n, there, h) = held in
                let one : n ≡ m = cc (there, found, same) in rw (← one) h),
        )

    create-Held :
        (o : SaveOutcome) (rd rd' : Reading) (k : Bytes) (arg : SubnetArg)
        → Held (create_network o true rd rd' k arg s).0
    unfolding create_network
    create-Held o rd rd' k arg = elim (Bool-cases (not (valid_network_name k))) [
      | inl bad ↦ rw (bad, create_network) held
      | inr valid ↦ elim (Option-cases (lookup k s)) [
        | inr (n, taken) ↦ rw (valid, create_network) (rw taken held)
        | inl free ↦ elim (Option-cases (subnet_of rd arg s)) [
          | inl no_subnet ↦ rw (valid, create_network) (rw (free, no_subnet) held)
          | inr ((c, g), e) ↦ elim (Bool-cases (cidr_overlaps c bridge_cidr)) [
            | inl on ↦ rw (valid, create_network) (rw (free, e, on) held)
            | inr off ↦
                elim (Bool-cases (any (λ x. cidr_overlaps c x.1.subnet) (list_networks rd' s))) [
                  | inl over ↦ rw (valid, create_network) (rw (free, e, off, over) held)
                  | inr away ↦
                      rw (valid, create_network)
                        (rw (free, e, off, away)
                          (save-Held o (new_network k c g) s held (λ same.
                            (let (n, there, h) = held in absurd (cc (free, there, same))))))
                ]
          ]
        ]
      ]
    ]

    allocate-Held :
        (o : SaveOutcome) (rd : Reading) (k : Bytes) → Held (allocate_network_ip o rd k s).0
    unfolding allocate_network_ip
    allocate-Held o rd k = elim (Option-cases (load_network rd k s)) [
      | inl missing ↦ rw (missing, allocate_network_ip) held
      | inr (m, e) ↦ elim (Option-cases (free_address m)) [
        | inl full ↦ rw (e, allocate_network_ip) (rw full held)
        | inr (ip', free) ↦
            (let (named, own) = loaded-Holds rd k m e in
              rw (e, allocate_network_ip)
                (rw free (
                  save-Held o (with_address ip' m) s held
                    (λ same. (let h = own (sym named ∙ same) in (ground (arith, h.0), h.1))))))
      ]
    ]

    kept_address :
        (ip' : ℕ) (as' : List ℕ)
        → ip' ≢ ip
        → has_address ip as' ≡ true
        → has_address ip (keep (λ a. not (a == ip')) as') ≡ true
    kept_address ip' [] ne h = h
    kept_address ip' (a ∷ as') ne h = elim (Bool-cases (a == ip')) [
      | inl gone ↦ rw gone (kept_address ip' as' ne (ground (arith, h, gone)))
      | inr stays ↦ rw stays (elim (Bool-cases (a == ip)) [
        | inl same ↦ rw same refl
        | inr other ↦ rw other (kept_address ip' as' ne (ground (arith, h, other)))
      ])
    ]

    release-Held :
        (o : SaveOutcome) (rd : Reading) (k : Bytes) (ip' : ℕ)
        → (k ≢ j) ⊎ (ip' ≢ ip)
        → Held (release_network_ip o rd k ip' s)
    unfolding release_network_ip
    release-Held o rd k ip' spared = elim (Option-cases (load_network rd k s)) [
      | inl missing ↦ rw (missing, release_network_ip) held
      | inr (m, e) ↦
          (let (named, own) = loaded-Holds rd k m e in
            rw (e, release_network_ip)
              (save-Held o (without_address ip' m) s held (λ same.
                (let h = own (sym named ∙ same) in
                  elim spared [
                    | inl apart ↦ absurd (apart (sym named ∙ same))
                    | inr ne ↦ (kept_address ip' m.allocated ne h.0, h.1)
                  ]))))
    ]

    used_held : (n : UserNetwork) → Holds n → is_unused n.allocated ≡ false
    used_held n h = go n.allocated h.0
      where
        go : (as' : List ℕ) → has_address ip as' ≡ true → is_unused as' ≡ false
        go [] h = cc
        go (a ∷ as') h = refl

    remove-Held :
        (bridge_gone file_gone : Bool) (rd : Reading) (k : Bytes)
        → Held (remove_network bridge_gone file_gone rd k s).0
    unfolding remove_network
    remove-Held b f rd k = elim (Option-cases (load_network rd k s)) [
      | inl missing ↦ rw (missing, remove_network) held
      | inr (m, e) ↦ elim (Bool-cases (not (is_unused m.allocated))) [
        | inl used ↦ rw (e, remove_network) (rw used held)
        | inr unused ↦ elim (Bool-cases (b && f)) [
          | inl gone ↦
              (let (named, own) = loaded-Holds rd k m e in
                rw (e, remove_network)
                  (rw (unused, gone)
                    (delete-Held k s held
                      (λ same. ground (arith, unused, used_held m (own same))))))
          | inr kept ↦ rw (e, remove_network) (rw (unused, kept) held)
        ]
      ]
    ]

    Step-Held : (t : Store) (step : Step s t) → Spares s t step → Held t
    Step-Held _ (create_step o seen rd rd' k arg _ fits all) seen_true =
        rw seen_true (create-Held o rd rd' k arg)
    Step-Held _ (allocate_step o rd k _) spared = allocate-Held o rd k
    Step-Held _ (release_step o rd k ip' _) spared = release-Held o rd k ip' spared
    Step-Held _ (remove_step b f rd k _) spared = remove-Held b f rd k

  Later-Held : (s t : Store) → Reachable s → Held s → Later s t → Reachable t × Held t
  Later-Held s _ r h (at_once _) = (r, h)
  Later-Held s _ r h (later _ t u before step spared) =
      let (r', h') = Later-Held s t r h before in
      (next t u r' step, Step-Held t (Reachable-WellFormed t r') h' u step spared)

-- In a store that the program can reach, an address that has been handed out is not handed out
-- again, by its network or by another, after any creations, allocations, releases and removals, as
-- long as the address is not released from its network, no creation fails to see a state file that
-- is there, and each creation compares its subnet with a complete listing.
pub allocate_network_ip_twice :
    (o o' : SaveOutcome) (rd rd' : Reading) (j k : Bytes) (s t : Store) (ip ip' : ℕ)
    → Reachable s
    → (allocate_network_ip o rd j s).1 ≡ some ip
    → Later j ip (allocate_network_ip o rd j s).0 t
    → (allocate_network_ip o' rd' k t).1 ≡ some ip'
    → ip ≢ ip'
allocate_network_ip_twice o o' rd rd' j k s t ip ip' r h behind h' same =
    let wf = Reachable-WellFormed s r in
    let (n, e, free, stored) = allocated o rd j s ip h in
    let f = wf.fine j n (load-found s wf rd j n e) in
    let (fresh, above, below, inside) = free_address_lem n n.gateway ip f.usable free in
    let first : lookup j (allocate_network_ip o rd j s).0 ≡ some (with_address ip n) =
      ap (lookup j) stored
      ∙ lookup-insert n.name j (with_address ip n) s
      ∙ rw (f.named, str_eq_refl j) refl in
    let (r', (m, there, (holds, in_m))) =
      Later-Held j ip (allocate_network_ip o rd j s).0 t (next s _ r (allocate_step o rd j s))
        (with_address ip n, first, (ground arith, inside)) behind in
    let wf' = Reachable-WellFormed t r' in
    let (n', e', free', stored') = allocated o' rd' k t ip' h' in
    let found' = load-found t wf' rd' k n' e' in
    let f' = wf'.fine k n' found' in
    let (fresh', above', below', inside') = free_address_lem n' n'.gateway ip' f'.usable free' in
    elim (Bool-cases (str_eq j k)) [
      | inl one ↦
          (let same_key : j ≡ k = (str_eq_iff j k).0 one in
            let value : m ≡ n' = cc (there, found', same_key) in
            absurd (cc (holds, fresh', value, same)))
      | inr two ↦ absurd (
          cc (
            wf'.apart j k m n' there found' (str_eq_ne j k two),
            (cidr_overlaps_iff m.subnet n'.subnet).1 (ip, in_m, rw (sym same) at inside'),
          ))
    ]
