-- ===== src/Container/HostPath/Parts.antt =====
-- The test of a path compares whole parts.
use dck.Base.{
  ◌≡◌, ◌≢◌, Bool, true, false, ◌||◌, ◌&&◌, List, [], ◌∷◌, ◌++◌, All, All-mono, drop, length, arith,
  refl, ap, ◌∙◌, sym, Bool-cases, inl, inr, append-nil, append_assoc,
}
use dck.Base.Bytes.{
  Bytes, str_eq, str_eq_iff, str_eq_refl, has_prefix, has_prefix_split, has_prefix-append,
}
use dck.Base.Split.{split_byte, join_byte, split-append, split-join, join-append}
use dck.FilePath.{slash}
use dck.FilePath.Clean.{Plain, absolute, clean-absolute, absolute-injective}
use dck.Container.HostPath.{lies_at_or_under}

-- The list begins with these parts.
abbrev pub starts_with : List Bytes → List Bytes → Bool
starts_with ps [] = true
starts_with [] (q ∷ qs) = false
starts_with (p ∷ ps) (q ∷ qs) = str_eq p q && starts_with ps qs

starts_with-append : (qs rs : List Bytes) → starts_with (qs ++ rs) qs ≡ true
starts_with-append [] rs = refl
starts_with-append (q ∷ qs) rs = ground (arith, str_eq_refl q, starts_with-append qs rs)

starts_with_rest :
    (ps qs : List Bytes) → starts_with ps qs ≡ true → (rs : List Bytes) × (ps ≡ qs ++ rs)
starts_with_rest ps [] h = (ps, refl)
starts_with_rest [] (q ∷ qs) h = cc
starts_with_rest (p ∷ ps) (q ∷ qs) h =
    let (rs, e) = starts_with_rest ps qs (ground (arith, h)) in
    let same : p ≡ q = (str_eq_iff p q).0 (ground (arith, h)) in (rs, cc (same, e))

-- Splitting what begins with joined parts and a slash.
split-joined :
    (qs : List Bytes) (s : Bytes)
    → qs ≢ []
    → All Plain qs
    → split_byte slash (join_byte slash qs ++ (slash ∷ s)) ≡ qs ++ split_byte slash s
unfolding join_byte
split-joined [] s ne h = absurd (ne refl)
split-joined (q ∷ []) s ne (hq, h) = split-append slash q s hq.no_slash
split-joined (q ∷ r ∷ qs) s ne (hq, h) =
    ap (split_byte slash) (append_assoc q (slash ∷ join_byte slash (r ∷ qs)) (slash ∷ s))
    ∙ split-append slash q (join_byte slash (r ∷ qs) ++ (slash ∷ s)) hq.no_slash
    ∙ ap (λ ps. q ∷ ps) (split-joined (r ∷ qs) s (λ e. cc) h)

same_truth : (a b : Bool) → (a ≡ true → b ≡ true) → (b ≡ true → a ≡ true) → a ≡ b
same_truth a b f g = ground (arith, f, g)

module _ (ps qs : List Bytes) (ne : ps ≢ []) (ne' : qs ≢ []) (h : All Plain ps)
    (h' : All Plain qs) where
  abbrev dir_slash : Bytes
  dir_slash = absolute qs ++ slash ∷ []

  test_of :
      lies_at_or_under (absolute ps) (absolute qs)
      ≡ (str_eq (absolute ps) (absolute qs) || has_prefix (absolute ps) dir_slash)
  unfolding lies_at_or_under
  test_of =
      ap (λ d. str_eq (absolute ps) (absolute qs) || has_prefix (absolute ps) (d ++ slash ∷ []))
        (clean-absolute qs ne' h')

  under-starts : has_prefix (absolute ps) dir_slash ≡ true → starts_with ps qs ≡ true
  under-starts e =
      let rest = drop (length dir_slash) (absolute ps) in
      let whole : join_byte slash ps ≡ join_byte slash qs ++ (slash ∷ rest) = cc (
        has_prefix_split (absolute ps) dir_slash e,
        append_assoc (absolute qs) (slash ∷ []) rest,
      ) in
      let parts : ps ≡ qs ++ split_byte slash rest =
        sym (split-join slash ps ne (All-mono (λ p q. q.no_slash) ps h))
        ∙ ap (split_byte slash) whole
        ∙ split-joined qs rest ne' h' in
      ap (λ x. starts_with x qs) parts ∙ starts_with-append qs (split_byte slash rest)

  under_rest :
      (rs : List Bytes)
      → ps ≡ qs ++ rs
      → str_eq (absolute ps) (absolute qs) || has_prefix (absolute ps) dir_slash ≡ true
  under_rest [] e =
      let same : str_eq (absolute ps) (absolute qs) ≡ true =
        (str_eq_iff (absolute ps) (absolute qs)).1 (ap absolute (e ∙ append-nil qs)) in
      ground (arith, same)
  under_rest (r ∷ rs) e =
      let longer : absolute ps ≡ dir_slash ++ join_byte slash (r ∷ rs) =
        ap absolute e
        ∙ ap (λ s. slash ∷ s) (join-append slash qs (r ∷ rs) ne' (λ e. cc))
        ∙ sym (append_assoc (absolute qs) (slash ∷ []) (join_byte slash (r ∷ rs))) in
      let inside : has_prefix (absolute ps) dir_slash ≡ true =
        ap (λ s. has_prefix s dir_slash) longer
        ∙ has_prefix-append dir_slash (join_byte slash (r ∷ rs)) in
      ground (arith, inside)

  starts-under :
      starts_with ps qs ≡ true
      → str_eq (absolute ps) (absolute qs) || has_prefix (absolute ps) dir_slash ≡ true
  starts-under e = let (rs, parts) = starts_with_rest ps qs e in under_rest rs parts

  starts_of_test :
      str_eq (absolute ps) (absolute qs) || has_prefix (absolute ps) dir_slash ≡ true
      → starts_with ps qs ≡ true
  starts_of_test e = elim (Bool-cases (str_eq (absolute ps) (absolute qs))) [
    | inl same ↦
        ap (λ x. starts_with x qs)
          (absolute-injective ps qs ne ne' h h' ((str_eq_iff (absolute ps) (absolute qs)).0 same)
            ∙ sym (append-nil qs))
        ∙ starts_with-append qs []
    | inr other ↦ under-starts (ground (arith, e, other))
  ]

  -- The test of a path against a directory compares whole parts: a path of plain parts passes exactly
  -- if it begins with the parts of the directory. So /etc/passwd lies under /etc, and /etcd does not.
  pub lies_at_or_under_lem : lies_at_or_under (absolute ps) (absolute qs) ≡ starts_with ps qs
  lies_at_or_under_lem = test_of ∙ same_truth _ _ starts_of_test starts-under
