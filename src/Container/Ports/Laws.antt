-- ===== src/Container/Ports/Laws.antt =====
-- What the port operations say of one another.
use dck.Base.{
  ◌≡◌, ◌↔◌, ◌≢◌, Bool, true, false, not, ◌&&◌, Option, none, some, List, [], ◌∷◌, ◌++◌, ℕ, arith,
  if◌then◌else◌, any, keep, refl, append-nil, keep-append, keep-not-none, Bool-cases, inl, inr, ◌⊎◌,
  ap, ◌∙◌, sym,
}
use dck.Base.Int.{ℤ, eq_ℤ, eq_ℤ_iff}
use dck.Base.Bytes.{Bytes, str_eq, str_eq_iff}
use dck.Container.Types.{PortMap, Process, SaveOutcome}
use dck.Container.Ports.{
  not_found, add_port, remove_port, find_port, find_first, is_port, default_protocol,
  forward_failed,
}

find_first-append :
    (test : PortMap → Bool) (ps : List PortMap) (q : PortMap)
    → find_first test (ps ++ q ∷ [])
      ≡ (elim (find_first test ps) [ none ↦ (if test q then some q else none) | some r ↦ some r ])
unfolding find_first
find_first-append test [] q = refl
find_first-append test (p ∷ ps) q = ground (arith, find_first-append test ps q)

any-find_first :
    (test : PortMap → Bool) (ps : List PortMap)
    → (any test ps ≡ false) ↔ (find_first test ps ≡ none)
unfolding find_first
any-find_first test [] = (λ h. refl, λ h. refl)
any-find_first test (p ∷ ps) =
    let (a, b) = any-find_first test ps in (ground (arith, a), ground (arith, b))

find_first-keep_self :
    (test : PortMap → Bool) (ps : List PortMap)
    → find_first test (keep (λ q. not (test q)) ps) ≡ none
unfolding find_first
find_first-keep_self test [] = refl
find_first-keep_self test (p ∷ ps) = ground (arith, find_first-keep_self test ps)

-- A test that fails wherever the removed one holds sees the same mapping.
find_first-keep_other :
    (test other : PortMap → Bool) (ps : List PortMap)
    → ((q : PortMap) → test q ≡ true → other q ≡ false)
    → find_first other (keep (λ q. not (test q)) ps) ≡ find_first other ps
unfolding find_first
find_first-keep_other test other [] h = refl
find_first-keep_other test other (p ∷ ps) h =
    ground (arith, find_first-keep_other test other ps h, h p)

-- The test for the removed port is the test for `q` itself, if both ask for the same.
is_port_other :
    (h h' : ℤ) (pr pr' : Bytes) (q : PortMap)
    → (eq_ℤ h h' && str_eq pr pr') ≡ false
    → is_port h pr q ≡ true
    → is_port h' pr' q ≡ false
is_port_other h h' pr pr' q ne m = ground (
  arith,
  eq_ℤ_iff q.host_port h,
  eq_ℤ_iff q.host_port h',
  eq_ℤ_iff h h',
  str_eq_iff q.protocol pr,
  str_eq_iff q.protocol pr',
  str_eq_iff pr pr',
)

module _ (o : SaveOutcome) (h : ℤ) (pr : Bytes) (p : Process) where
  ports-remove :
      (remove_port o h pr p).0.c.ports
      ≡ keep (λ q. not (is_port h (default_protocol pr) q)) p.c.ports
  unfolding remove_port
  ports-remove =
      let test = is_port h (default_protocol pr) in ground (arith, keep-not-none test p.c.ports)

  remove_missing :
      any (is_port h (default_protocol pr)) p.c.ports ≡ false
      → remove_port o h pr p ≡ (p, some not_found)
  unfolding remove_port
  remove_missing gone = ground arith

  any_of_missing :
      (remove_port o h pr p).1 ≡ some not_found
      → any (is_port h (default_protocol pr)) p.c.ports ≡ false
  unfolding remove_port
  any_of_missing e = ground arith

  -- After a removal, whether its save fails or not, no mapping of that port and protocol is found, and
  -- any other port or protocol finds what it found before.
  pub find_port-remove :
      (h' : ℤ) (pr' : Bytes)
      → find_port h' pr' (remove_port o h pr p).0.c
        ≡ (if eq_ℤ h h' && str_eq (default_protocol pr) pr' then none else find_port h' pr' p.c)
  unfolding find_port
  find_port-remove h' pr' =
      let test = is_port h (default_protocol pr) in
      let other = is_port h' pr' in
      let same = eq_ℤ h h' && str_eq (default_protocol pr) pr' in
      ap (find_first other) ports-remove ∙ elim (Bool-cases same) [
        | inl eq ↦ rw eq (
            ap (λ x. find_first (is_port x pr') (keep (λ q. not (test q)) p.c.ports))
              (sym ((eq_ℤ_iff h h').0 (ground arith)))
            ∙ ap (λ y. find_first (is_port h y) (keep (λ q. not (test q)) p.c.ports))
                (sym ((str_eq_iff (default_protocol pr) pr').0 (ground arith)))
            ∙ find_first-keep_self test p.c.ports)
        | inr ne ↦ rw ne (
            find_first-keep_other test other p.c.ports
              (λ q. is_port_other h h' (default_protocol pr) pr' q ne))
      ]

  -- A removal fails with "not found" and changes nothing, exactly if no such mapping is found.
  pub remove_port_missing_iff :
      (find_port h (default_protocol pr) p.c ≡ none) ↔ (remove_port o h pr p ≡ (p, some not_found))
  unfolding find_port
  remove_port_missing_iff =
      let (a, b) = any-find_first (is_port h (default_protocol pr)) p.c.ports in
      (λ gone. remove_missing (b gone), λ e. a (any_of_missing (ap (λ r. r.1) e)))

ports-add :
    (rootless : Bool) (forward : Option (List ℕ)) (o : SaveOutcome) (h cp : ℤ) (pr : Bytes)
    (p : Process)
    → let (q, err) = add_port rootless forward o h cp pr p in
      let new : PortMap = record {
        host_port = h;
        container_port = cp;
        protocol = default_protocol pr;
      } in
      ((err ≡ some forward_failed) × (q ≡ p)) ⊎ (q.c.ports ≡ p.c.ports ++ new ∷ [])
unfolding add_port
ports-add rootless forward o h cp pr p = ground arith

-- Adding a mapping leaves every mapping that was found before in its place; where none was found, the
-- new one is found under its own port and protocol, and still none under any other. So it is unless
-- the forwarding call fails, and then the container is as before.
pub find_port-add :
    (rootless : Bool) (forward : Option (List ℕ)) (o : SaveOutcome) (h cp : ℤ) (pr : Bytes)
    (p : Process) (h' : ℤ) (pr' : Bytes)
    → let (q, err) = add_port rootless forward o h cp pr p in
      let new : PortMap = record {
        host_port = h;
        container_port = cp;
        protocol = default_protocol pr;
      } in
      ((err ≡ some forward_failed) × (q ≡ p))
      ⊎ (find_port h' pr' q.c ≡ (elim (find_port h' pr' p.c) [
        | none ↦ (if is_port h' pr' new then some new else none)
        | some r ↦ some r
      ]))
unfolding find_port
find_port-add rootless forward o h cp pr p h' pr' =
    let new : PortMap = record {
      host_port = h;
      container_port = cp;
      protocol = default_protocol pr;
    } in
    elim (ports-add rootless forward o h cp pr p) [
      | inl failed ↦ inl failed
      | inr added ↦ inr (
          ap (find_first (is_port h' pr')) added ∙ find_first-append (is_port h' pr') p.c.ports new)
    ]

is_port_self :
    (h cp : ℤ) (pr : Bytes)
    → is_port h pr (record { host_port = h; container_port = cp; protocol = pr }) ≡ true
is_port_self h cp pr = ground (arith, eq_ℤ_iff h h, str_eq_iff pr pr)

keep_last :
    {A : Type 0} (test : A → Bool) (xs : List A) (x : A)
    → any test xs ≡ false
    → test x ≡ true
    → keep (λ y. not (test y)) (xs ++ x ∷ []) ≡ xs
keep_last test xs x h t =
    keep-append (λ y. not (test y)) xs (x ∷ [])
    ∙ ground (arith, keep-not-none test xs h, append-nil xs, t)

-- Removing what was just added gives the old mappings back, if the port and protocol were free.
pub remove-add :
    (rootless : Bool) (forward : Option (List ℕ)) (o o' : SaveOutcome) (h cp : ℤ) (pr : Bytes)
    (p : Process)
    → find_port h (default_protocol pr) p.c ≡ none
    → (add_port rootless forward o h cp pr p).1 ≢ some forward_failed
    → (remove_port o' h pr (add_port rootless forward o h cp pr p).0).0.c.ports ≡ p.c.ports
unfolding find_port
remove-add rootless forward o o' h cp pr p free ok =
    let test = is_port h (default_protocol pr) in
    let self = is_port_self h cp (default_protocol pr) in
    elim (ports-add rootless forward o h cp pr p) [
      | inl failed ↦ absurd (ok failed.0)
      | inr added ↦
          ports-remove o' h pr _
          ∙ ap (keep (λ q. not (test q))) added
          ∙ keep_last test p.c.ports _ ((any-find_first test p.c.ports).1 free) self
    ]
