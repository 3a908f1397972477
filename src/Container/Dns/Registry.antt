-- ===== src/Container/Dns/Registry.antt =====
-- The registry implements a map from names to addresses.
use dck.Base.{
  ◌≡◌, Bool, true, false, not, List, [], ◌∷◌, arith, refl, ap, ◌∙◌, if◌then◌else◌, any, ◌&&◌, ◌||◌,
}
use dck.Base.Bytes.{Bytes, str_eq, str_eq_iff}
use dck.Container.Dns.{
  DnsEntry, RegistryFile, read, write, with_name, without_name, first_ip, register_dns_name,
  unregister_dns_name, resolve_dns_name, list_dns_names,
}

-- The abstract registry: the address of each name, empty where there is none.
abbrev pub Addresses : Type 0
Addresses = Bytes → Bytes

pub data DnsCall : Type 0 where
  register : Bytes → Bytes → DnsCall
  unregister : Bytes → DnsCall

-- What a call promises.
abbrev pub assign : DnsCall → Addresses → Addresses
assign (register name ip) m other = if str_eq name other then ip else m other
assign (unregister name) m other = if str_eq name other then [] else m other

-- Calls with the outcome of their write; a call whose write fails is as if it had not been made.
abbrev pub assign_all : List (DnsCall × Bool) → Addresses → Addresses
assign_all [] m = m
assign_all ((call, true) ∷ calls) m = assign_all calls (assign call m)
assign_all ((call, false) ∷ calls) m = assign_all calls m

abbrev pub perform : DnsCall → Bool → RegistryFile → RegistryFile
perform (register name ip) reached file = register_dns_name reached name ip file
perform (unregister name) reached file = unregister_dns_name reached name file

abbrev pub perform_all : List (DnsCall × Bool) → RegistryFile → RegistryFile
perform_all [] file = file
perform_all ((call, reached) ∷ calls) file = perform_all calls (perform call reached file)

first_ip-with_name :
    (name ip other : Bytes) (es : List DnsEntry)
    → first_ip other (with_name name ip es) ≡ (if str_eq name other then ip else first_ip other es)
unfolding first_ip with_name
first_ip-with_name name ip other [] = refl
first_ip-with_name name ip other (e ∷ es) = ground (
  arith,
  str_eq_iff name other,
  str_eq_iff e.name name,
  str_eq_iff e.name other,
  first_ip-with_name name ip other es,
)

first_ip-without_name :
    (name other : Bytes) (es : List DnsEntry)
    → first_ip other (without_name name es) ≡ (if str_eq name other then [] else first_ip other es)
unfolding first_ip without_name
first_ip-without_name name other [] = ground arith
first_ip-without_name name other (e ∷ es) = ground (
  arith,
  str_eq_iff name other,
  str_eq_iff e.name name,
  str_eq_iff e.name other,
  first_ip-without_name name other es,
)

resolve-perform :
    (call : DnsCall) (file : RegistryFile) (other : Bytes)
    → resolve_dns_name other (perform call true file)
      ≡ assign call (λ n. resolve_dns_name n file) other
unfolding resolve_dns_name register_dns_name unregister_dns_name write read
resolve-perform (register name ip) file other = first_ip-with_name name ip other (read file)
resolve-perform (unregister name) file other = first_ip-without_name name other (read file)

perform_failed : (call : DnsCall) (file : RegistryFile) → perform call false file ≡ file
unfolding register_dns_name unregister_dns_name write
perform_failed (register name ip) file = refl
perform_failed (unregister name) file = refl

-- Only the addresses that a map gives matter to the calls behind it.
assign_all-ext :
    (calls : List (DnsCall × Bool)) (m m' : Addresses)
    → ((n : Bytes) → m n ≡ m' n)
    → (other : Bytes) → assign_all calls m other ≡ assign_all calls m' other
assign_all-ext [] m m' h other = h other
assign_all-ext ((register name ip, true) ∷ calls) m m' h other =
    assign_all-ext calls (assign (register name ip) m) (assign (register name ip) m')
      (λ n. ap (λ a. if str_eq name n then ip else a) (h n)) other
assign_all-ext ((unregister name, true) ∷ calls) m m' h other =
    assign_all-ext calls (assign (unregister name) m) (assign (unregister name) m')
      (λ n. ap (λ a. if str_eq name n then [] else a) (h n)) other
assign_all-ext ((call, false) ∷ calls) m m' h other = assign_all-ext calls m m' h other

-- After any calls of `RegisterDNSName` and `UnregisterDNSName`, whatever the registry's file held before
-- and whichever of their writes failed, `ResolveDNSName` gives of each name what the calls that were
-- written make of the map from names to addresses that it gave at first.
pub resolve_dns_name-perform_all :
    (calls : List (DnsCall × Bool)) (file : RegistryFile) (name : Bytes)
    → resolve_dns_name name (perform_all calls file)
      ≡ assign_all calls (λ n. resolve_dns_name n file) name
resolve_dns_name-perform_all [] file name = refl
resolve_dns_name-perform_all ((call, true) ∷ calls) file name =
    resolve_dns_name-perform_all calls (perform call true file) name
    ∙ assign_all-ext calls (λ n. resolve_dns_name n (perform call true file))
        (assign call (λ n. resolve_dns_name n file)) (resolve-perform call file) name
resolve_dns_name-perform_all ((call, false) ∷ calls) file name =
    rw (perform_failed call file) (resolve_dns_name-perform_all calls file name)

-- No two entries have the same name.
abbrev pub has_name : Bytes → List DnsEntry → Bool
has_name name es = any (λ e. str_eq e.name name) es

abbrev pub distinct_names : List DnsEntry → Bool
distinct_names [] = true
distinct_names (e ∷ es) = not (has_name e.name es) && distinct_names es

has_name-with_name :
    (name ip other : Bytes) (es : List DnsEntry)
    → has_name other (with_name name ip es) ≡ (str_eq name other || has_name other es)
unfolding with_name
has_name-with_name name ip other [] = refl
has_name-with_name name ip other (e ∷ es) = ground (
  arith,
  str_eq_iff name other,
  str_eq_iff e.name name,
  str_eq_iff e.name other,
  has_name-with_name name ip other es,
)

has_name-without_name :
    (name other : Bytes) (es : List DnsEntry)
    → has_name other (without_name name es) ≡ (not (str_eq name other) && has_name other es)
unfolding without_name
has_name-without_name name other [] = ground arith
has_name-without_name name other (e ∷ es) = ground (
  arith,
  str_eq_iff name other,
  str_eq_iff e.name name,
  str_eq_iff e.name other,
  has_name-without_name name other es,
)

distinct_names-with_name :
    (name ip : Bytes) (es : List DnsEntry)
    → distinct_names es ≡ true
    → distinct_names (with_name name ip es) ≡ true
unfolding with_name
distinct_names-with_name name ip [] h = refl
distinct_names-with_name name ip (e ∷ es) h = ground (
  arith,
  str_eq_iff e.name name,
  str_eq_iff name e.name,
  has_name-with_name name ip e.name es,
  distinct_names-with_name name ip es,
)

distinct_names-without_name :
    (name : Bytes) (es : List DnsEntry)
    → distinct_names es ≡ true
    → distinct_names (without_name name es) ≡ true
unfolding without_name
distinct_names-without_name name [] h = refl
distinct_names-without_name name (e ∷ es) h =
    ground (arith, has_name-without_name name e.name es, distinct_names-without_name name es)

distinct-perform :
    (call : DnsCall) (reached : Bool) (file : RegistryFile)
    → distinct_names (read file) ≡ true
    → distinct_names (read (perform call reached file)) ≡ true
unfolding register_dns_name unregister_dns_name write read
distinct-perform (register name ip) true file h = distinct_names-with_name name ip (read file) h
distinct-perform (unregister name) true file h = distinct_names-without_name name (read file) h
distinct-perform (register name ip) false file h = h
distinct-perform (unregister name) false file h = h

-- If the registry lists no name twice, it lists none twice after any calls of `RegisterDNSName` and
-- `UnregisterDNSName`.
pub list_dns_names-distinct :
    (calls : List (DnsCall × Bool)) (file : RegistryFile)
    → distinct_names (list_dns_names file) ≡ true
    → distinct_names (list_dns_names (perform_all calls file)) ≡ true
unfolding list_dns_names
list_dns_names-distinct [] file h = h
list_dns_names-distinct ((call, reached) ∷ calls) file h =
    list_dns_names-distinct calls (perform call reached file) (distinct-perform call reached file h)
