-- ===== src/Orchestrator/Services/Decoded.antt =====
-- Services as they come back from services.json.
use dck.Base.{◌≡◌, Option, none, some, List, [], ◌∷◌, refl, Bool-cases, inl, inr}
use dck.Base.Bytes.{Bytes, str_eq}
use dck.Base.Assoc.{lookup}
use dck.Orchestrator.Types.{Service, ServiceMap, or_nil, as_read, all_as_read}
use dck.Orchestrator.Services.Table.{Table, set}

-- An entry is what decoding gives.
abbrev pub read_entry : Option Service → Option Service
read_entry none = none
read_entry (some svc) = some (as_read svc)

abbrev pub Decoded : Table → Type 0
Decoded f = (n : Bytes) → read_entry (f n) ≡ f n

or_nil_twice : {A : Type 0} (o : Option (List A)) → or_nil (or_nil o) ≡ or_nil o
unfolding or_nil
or_nil_twice none = refl
or_nil_twice (some []) = refl
or_nil_twice (some (x ∷ xs)) = refl

pub as_read_twice : (svc : Service) → as_read (as_read svc) ≡ as_read svc
unfolding as_read
as_read_twice svc = rw (or_nil_twice svc.env, or_nil_twice svc.volumes) refl

pub lookup-all_as_read :
    (n : Bytes) (m : ServiceMap) → lookup n (all_as_read m) ≡ read_entry (lookup n m)
unfolding lookup all_as_read
lookup-all_as_read n [] = refl
lookup-all_as_read n ((j, svc) ∷ m) = elim (Bool-cases (str_eq j n)) [
  | inl same ↦ rw same refl
  | inr other ↦ rw other (lookup-all_as_read n m)
]

pub set-Decoded :
    (name : Bytes) (new : Option Service) (f : Table)
    → Decoded f
    → read_entry new ≡ new
    → Decoded (set name new f)
set-Decoded name new f d e n = elim (Bool-cases (str_eq name n)) [
  | inl same ↦ rw same e
  | inr other ↦ rw other (d n)
]
