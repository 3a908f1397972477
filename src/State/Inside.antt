-- ===== src/State/Inside.antt =====
-- Where the computed paths lie.
use dck.Base.{
  ◌≡◌, ◌≢◌, true, not, ◌||◌, List, [], ◌∷◌, ◌++◌, All, All-append, arith, refl, Bool-cases, inl,
  inr, ap, ◌∙◌, sym,
}
use mathlib.Core.List.{append_cancel_right}
use dck.Base.Bytes.{Bytes, codes}
use dck.Base.Split.{split_byte, join_byte, join-split, split-ne-nil}
use dck.FilePath.{slash, path_join}
use dck.FilePath.Clean.{Plain, absolute, join_one, join_two, absolute-injective}
use dck.State.{
  bad_part, valid_image_name, valid_tag, reference_key, safe_part, images_dir, containers_dir,
  image_dir, container_path,
}
use dck.State.Safe.{
  valid_image_name-Plain, valid_tag-Plain, reference_key-Plain, safe_part-Plain, Plain-append,
  literal, contains-Lacks,
}

-- `p` is a path below the directory of the parts `ds`: their path, with plain parts behind it.
abbrev pub Below : List Bytes → Bytes → Type 0
Below ds p = (ps : List Bytes) × (p ≡ absolute (ds ++ ps)) × All Plain ps × (ps ≢ [])

snoc-ne-nil : {A : Type 0} (xs : List A) (x : A) → xs ++ x ∷ [] ≢ []
snoc-ne-nil [] x e = cc
snoc-ne-nil (y ∷ xs) x e = cc

append-ne-nil : {A : Type 0} (xs ys : List A) → xs ≢ [] → xs ++ ys ≢ []
append-ne-nil [] ys ne e = ne refl
append-ne-nil (x ∷ xs) ys ne e = cc

append-cancel : {A : Type 0} (xs ys zs : List A) → xs ++ ys ≡ xs ++ zs → ys ≡ zs
append-cancel [] ys zs e = e
append-cancel (x ∷ xs) ys zs e = append-cancel xs ys zs (cc e)

snoc-injective :
    {A : Type 0} (xs ys : List A) (x y : A) → xs ++ x ∷ [] ≡ ys ++ y ∷ [] → (xs ≡ ys) × (x ≡ y)
snoc-injective [] [] x y e = (refl, cc e)
snoc-injective [] (b ∷ ys) x y e = absurd (snoc-ne-nil ys y (cc e))
snoc-injective (a ∷ xs) [] x y e = absurd (snoc-ne-nil xs x (cc e))
snoc-injective (a ∷ xs) (b ∷ ys) x y e =
    let (same, last) = snoc-injective xs ys x y (cc e) in (cc (same, e), last)

module _ (sha256 : Bytes → Bytes) (some_digest : (s : Bytes) → sha256 s ≢ []) (ds : List Bytes)
    (ne : ds ≢ []) (plain : All Plain ds) where
  abbrev under : Bytes → List Bytes
  under p = ds ++ p ∷ []

  under-Plain : (p : Bytes) → Plain p → All Plain (under p)
  under-Plain p h = All-append Plain ds (p ∷ []) plain (h, tt)

  images_dir-absolute : images_dir sha256 (absolute ds) ≡ absolute (under (codes "images"))
  unfolding images_dir bad_part
  images_dir-absolute = join_one ds ne plain (codes "images") (literal "images" refl)

  containers_dir-absolute :
      containers_dir sha256 (absolute ds) ≡ absolute (under (codes "containers"))
  unfolding containers_dir bad_part
  containers_dir-absolute = join_one ds ne plain (codes "containers") (literal "containers" refl)

  image_dir-valid :
      (name tag : Bytes)
      → valid_image_name name ≡ true
      → valid_tag tag ≡ true
      → image_dir sha256 (absolute ds) name tag
        ≡ absolute (under (codes "images") ++ (split_byte slash name ++ tag ∷ []))
  unfolding image_dir bad_part
  image_dir-valid name tag hn ht =
      rw (hn, ht, images_dir-absolute)
        (ap (λ n. path_join (absolute (under (codes "images")) ∷ n ∷ tag ∷ []))
            (sym (join-split slash name))
          ∙ join_two (under (codes "images")) (snoc-ne-nil ds _)
              (under-Plain (codes "images") (literal "images" refl)) (split_byte slash name) tag
              (split-ne-nil slash name) (valid_image_name-Plain name hn) (valid_tag-Plain tag ht))

  image_dir-invalid :
      (name tag : Bytes)
      → not (valid_image_name name) || not (valid_tag tag) ≡ true
      → image_dir sha256 (absolute ds) name tag
        ≡ absolute (
            under (codes "images")
            ++ (codes ".invalid" ∷ reference_key sha256 (name ∷ tag ∷ []) ∷ []))
  unfolding image_dir join_byte bad_part
  image_dir-invalid name tag h =
      rw (h, images_dir-absolute)
        (join_two (under (codes "images")) (snoc-ne-nil ds _)
          (under-Plain (codes "images") (literal "images" refl)) (codes ".invalid" ∷ [])
          (reference_key sha256 (name ∷ tag ∷ [])) (λ e. cc) (literal ".invalid" refl, tt)
          (reference_key-Plain sha256 some_digest (name ∷ tag ∷ [])))

  -- For a data directory of plain parts that is not the root, and a hash whose digests are not empty:
  -- whatever the name and the tag of an image are, its directory lies below the directory of the
  -- images.
  pub image_dir-Below :
      (name tag : Bytes) → Below (under (codes "images")) (image_dir sha256 (absolute ds) name tag)
  unfolding bad_part
  image_dir-Below name tag =
      elim (Bool-cases (not (valid_image_name name) || not (valid_tag tag))) [
        | inl bad ↦ (
          codes ".invalid" ∷ reference_key sha256 (name ∷ tag ∷ []) ∷ [],
          image_dir-invalid name tag bad,
          (literal ".invalid" refl, (reference_key-Plain sha256 some_digest (name ∷ tag ∷ []), tt)),
          λ e. cc,
        )
        | inr good ↦
            (let hn : valid_image_name name ≡ true = ground (arith, good) in
              let ht : valid_tag tag ≡ true = ground (arith, good) in
              (
                split_byte slash name ++ tag ∷ [],
                image_dir-valid name tag hn ht,
                All-append Plain (split_byte slash name) (tag ∷ []) (valid_image_name-Plain name hn)
                    (valid_tag-Plain tag ht, tt),
                snoc-ne-nil (split_byte slash name) tag,
              ))
      ]

  parts-Plain :
      (name tag : Bytes)
      → valid_image_name name ≡ true
      → valid_tag tag ≡ true
      → All Plain (under (codes "images") ++ (split_byte slash name ++ tag ∷ []))
  unfolding bad_part
  parts-Plain name tag hn ht =
      All-append Plain (under (codes "images")) (split_byte slash name ++ tag ∷ [])
        (under-Plain (codes "images") (literal "images" refl))
        (All-append Plain (split_byte slash name) (tag ∷ []) (valid_image_name-Plain name hn)
          (valid_tag-Plain tag ht, tt))

  -- For a data directory of plain parts that is not the root, and a hash whose digests are not empty: two
  -- references with valid names and tags that have one directory are one reference.
  pub image_dir-injective :
      (n n' t t' : Bytes)
      → valid_image_name n ≡ true
      → valid_image_name n' ≡ true
      → valid_tag t ≡ true
      → valid_tag t' ≡ true
      → image_dir sha256 (absolute ds) n t ≡ image_dir sha256 (absolute ds) n' t'
      → (n ≡ n') × (t ≡ t')
  image_dir-injective n n' t t' hn hn' ht ht' e =
      let root = under (codes "images") in
      let same =
        absolute-injective (root ++ (split_byte slash n ++ t ∷ []))
          (root ++ (split_byte slash n' ++ t' ∷ [])) (append-ne-nil root _ (snoc-ne-nil ds _))
          (append-ne-nil root _ (snoc-ne-nil ds _)) (parts-Plain n t hn ht)
          (parts-Plain n' t' hn' ht')
          (sym (image_dir-valid n t hn ht) ∙ e ∙ image_dir-valid n' t' hn' ht') in
      let (names, tags) = snoc-injective _ _ t t' (append-cancel root _ _ same) in
      (sym (join-split slash n) ∙ ap (join_byte slash) names ∙ join-split slash n', tags)

  json-Plain : (id : Bytes) → Plain (safe_part sha256 id ++ codes ".json")
  json-Plain id =
      Plain-append (safe_part sha256 id) _ _ _ _ (safe_part-Plain sha256 some_digest id)
        (contains-Lacks slash (codes ".json") refl)

  container_path-absolute :
      (id : Bytes)
      → container_path sha256 (absolute ds) id
        ≡ absolute (under (codes "containers") ++ (safe_part sha256 id ++ codes ".json") ∷ [])
  unfolding container_path bad_part
  container_path-absolute id = rw containers_dir-absolute (
      join_one (under (codes "containers")) (snoc-ne-nil ds _)
        (under-Plain (codes "containers") (literal "containers" refl)) _ (json-Plain id))

  -- For a data directory of plain parts that is not the root, and a hash whose digests are not empty:
  -- whatever a container's id is, its state file is an entry of the directory of the containers.
  pub container_path-Below :
      (id : Bytes)
      → (p : Bytes) × (container_path sha256 (absolute ds) id
          ≡ absolute (under (codes "containers") ++ p ∷ []))
        × Plain p
  container_path-Below id = (_, container_path-absolute id, json-Plain id)

  -- For a data directory of plain parts that is not the root, and a hash whose digests are not empty: two
  -- container ids that `safePart` leaves as they are, and that have one state file, are one id.
  pub container_path-injective :
      (id id' : Bytes)
      → safe_part sha256 id ≡ id
      → safe_part sha256 id' ≡ id'
      → container_path sha256 (absolute ds) id ≡ container_path sha256 (absolute ds) id'
      → id ≡ id'
  unfolding bad_part
  container_path-injective id id' safe safe' e =
      let root = under (codes "containers") in
      let root_parts = under-Plain (codes "containers") (literal "containers" refl) in
      let same =
        absolute-injective _ _ (snoc-ne-nil root _) (snoc-ne-nil root _)
          (All-append Plain root _ root_parts (json-Plain id, tt))
          (All-append Plain root _ root_parts (json-Plain id', tt))
          (sym (container_path-absolute id) ∙ e ∙ container_path-absolute id') in
      let files = (snoc-injective root root _ _ same).1 in
      sym safe ∙ append_cancel_right _ _ (codes ".json") files ∙ safe'
