-- ===== src/State/Safe.antt =====
-- Which parts of a path the program makes from names that others choose.
use Prim.Native.String.{String}
use dck.Base.{
  ℕ, ◌≡◌, ◌≢◌, true, false, not, ◌&&◌, ◌||◌, List, [], ◌∷◌, ◌++◌, any, All, All-append, arith, refl,
  Bool-cases, inl, inr,
}
use dck.Base.Bytes.{Bytes, codes, str_eq, contains_byte}
use dck.Base.Split.{split_byte, Lacks, split-All}
use dck.FilePath.{slash, dot_dot, base}
use dck.FilePath.Clean.{Plain}
use dck.State.{
  bad_part, valid_image_name, valid_tag, hex_encode, reference_key, safe_part, hash_input,
  has_separator,
}

pub contains-Lacks : (b : ℕ) (s : Bytes) → contains_byte s b ≡ false → Lacks b s
contains-Lacks b [] h = tt
contains-Lacks b (c ∷ s) h = ground (arith, contains-Lacks b s)

pub bad_part-Plain : (p : Bytes) → bad_part p ≡ false → Lacks slash p → Plain p
unfolding bad_part
bad_part-Plain p h l = record {
  not_empty = ground arith;
  not_dot = ground arith;
  not_dot_dot = ground arith;
  no_slash = l;
}

hex-Lacks : (s : Bytes) → Lacks slash (hex_encode s)
unfolding hex_encode
hex-Lacks [] = tt
hex-Lacks (b ∷ s) = ground (arith, hex-Lacks s)

hex-Plain : (s : Bytes) → s ≢ [] → Plain (hex_encode s)
hex-Plain [] ne = absurd (ne refl)
hex-Plain (b ∷ s) ne = record {
  not_empty = unfold hex_encode in ground arith;
  not_dot = unfold hex_encode in ground arith;
  not_dot_dot = unfold hex_encode in ground arith;
  no_slash = hex-Lacks (b ∷ s);
}

module _ (sha256 : Bytes → Bytes) (some_digest : (s : Bytes) → sha256 s ≢ []) where
  pub reference_key-Plain : (parts : List Bytes) → Plain (reference_key sha256 parts)
  unfolding reference_key
  reference_key-Plain parts = hex-Plain _ (some_digest (hash_input parts))

  -- Whatever text it is given, `safePart` makes the name of an entry of one directory, if the hash has
  -- no empty digest.
  pub safe_part-Plain : (value : Bytes) → Plain (safe_part sha256 value)
  unfolding safe_part
  safe_part-Plain value =
      let kept = not (bad_part value) && not (has_separator value) && str_eq (base value) value in
      elim (Bool-cases kept) [
        | inl good ↦ rw good (
            bad_part-Plain value (ground (arith, good))
              (contains-Lacks slash value (ground (arith, good))))
        | inr bad ↦ rw bad (reference_key-Plain (value ∷ []))
      ]

pub valid_tag-Plain : (tag : Bytes) → valid_tag tag ≡ true → Plain tag
unfolding valid_tag
valid_tag-Plain tag h = bad_part-Plain tag (ground arith) (contains-Lacks slash tag (ground arith))

not_bad_parts-Plain :
    (ps : List Bytes) → any bad_part ps ≡ false → All (Lacks slash) ps → All Plain ps
not_bad_parts-Plain [] h l = tt
not_bad_parts-Plain (p ∷ ps) h (lp, l) =
    (bad_part-Plain p (ground (arith, h)) lp, not_bad_parts-Plain ps (ground (arith, h)) l)

pub valid_image_name-Plain :
    (name : Bytes) → valid_image_name name ≡ true → All Plain (split_byte slash name)
unfolding valid_image_name
valid_image_name-Plain name h =
    not_bad_parts-Plain (split_byte slash name) (ground arith) (split-All slash name)

-- An extension of at least three bytes keeps a part plain.
pub Plain-append :
    (p : Bytes) (a b c : ℕ) (e : Bytes)
    → Plain p
    → Lacks slash (a ∷ b ∷ c ∷ e)
    → Plain (p ++ a ∷ b ∷ c ∷ e)
Plain-append [] a b c e h l = absurd (cc (h.not_empty))
Plain-append (x ∷ []) a b c e h l = record {
  not_empty = refl;
  not_dot = ground arith;
  not_dot_dot = ground arith;
  no_slash = All-append _ (x ∷ []) (a ∷ b ∷ c ∷ e) h.no_slash l;
}
Plain-append (x ∷ y ∷ p) a b c e h l = record {
  not_empty = refl;
  not_dot = ground arith;
  not_dot_dot = longer x y p;
  no_slash = All-append _ (x ∷ y ∷ p) (a ∷ b ∷ c ∷ e) h.no_slash l;
}
  where
    longer : (x y : ℕ) (p : Bytes) → str_eq (x ∷ y ∷ p ++ a ∷ b ∷ c ∷ e) dot_dot ≡ false
    longer x y [] = ground arith
    longer x y (z ∷ p) = ground arith

-- A literal of the program that holds no slash and is not "", "." or "..".
pub literal :
    (s : String) → bad_part (codes s) || contains_byte (codes s) slash ≡ false → Plain (codes s)
literal s h =
    bad_part-Plain (codes s) (ground (arith, h))
      (contains-Lacks slash (codes s) (ground (arith, h)))
