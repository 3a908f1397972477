-- ===== src/Container/Dns/Hosts.antt =====
-- What a second start of a container finds in its hosts file.
use dck.Base.{
  ◌≡◌, true, false, some, List, [], ◌∷◌, ◌++◌, arith, refl, Bool-cases, inl, inr, append_assoc,
}
use dck.Base.Bytes.{Bytes, codes, str_eq, has_prefix, has_prefix-append}
use dck.Image.Auth.{contains_text}
use dck.Container.Dns.{
  HostFiles, HostWrites, RegistryFile, ensure_container_hosts, inject_hosts, register_own,
  content_of, marker, host_lines, list_dns_names, nameserver_lines, newline,
}

contains_at_head : (s t : Bytes) → has_prefix s t ≡ true → contains_text s t ≡ true
unfolding contains_text
contains_at_head [] t h = h
contains_at_head (c ∷ s) t h = ground (arith, h)

contains_within : (s t r : Bytes) → contains_text (s ++ (t ++ r)) t ≡ true
unfolding contains_text
contains_within [] t r = contains_at_head (t ++ r) t (has_prefix-append t r)
contains_within (c ∷ s) t r = ground (arith, contains_within s t r)

inject_hosts_marked :
    (w : HostWrites) (name : Bytes) (f : HostFiles)
    → contains_text (content_of f.hosts) marker ≡ true
    → inject_hosts w name f ≡ f
unfolding inject_hosts
inject_hosts_marked w name f h = rw h refl

register_own_hosts :
    (w : HostWrites) (name ip : Bytes) (f : HostFiles) → (register_own w name ip f).hosts ≡ f.hosts
unfolding register_own
register_own_hosts w name ip f = ground arith

ensure_marked :
    (w : HostWrites) (merged_dir name ip : Bytes) (dns : List Bytes) (f : HostFiles)
    → contains_text (content_of f.hosts) marker ≡ true
    → (ensure_container_hosts w merged_dir name ip dns f).hosts ≡ f.hosts
unfolding ensure_container_hosts
ensure_marked w merged_dir name ip [] f h = ground (
  arith,
  register_own_hosts w name ip f,
  inject_hosts_marked w name (register_own w name ip f) (rw (register_own_hosts w name ip f) h),
)
ensure_marked w merged_dir name ip (s ∷ ss) f h =
    let g = register_own w name ip f in
    let resolved = record g { resolv_conf = some (nameserver_lines (s ∷ ss)) } in
    let same = register_own_hosts w name ip f in
    ground (arith, same, inject_hosts_marked w name resolved (rw same h))

inject_marks :
    (w : HostWrites) (name : Bytes) (f : HostFiles)
    → w.hosts_written ≡ true
    → contains_text (content_of (inject_hosts w name f).hosts) marker ≡ true
inject_marks w name f ok = elim (Bool-cases (contains_text (content_of f.hosts) marker)) [
  | inl there ↦ rw (inject_hosts_marked w name f there) there
  | inr new ↦
      (let lines = codes " names\n" ++ host_lines name (list_dns_names f.registry) in
        unfold inject_hosts content_of in
        rw new (
          rw ok (
            rw (← append_assoc (content_of f.hosts) newline (marker ++ lines))
              (contains_within (content_of f.hosts ++ newline) marker lines))))
]

ensure_marks :
    (w : HostWrites) (merged_dir name ip : Bytes) (dns : List Bytes) (f : HostFiles)
    → str_eq merged_dir [] ≡ false
    → w.resolv_written ≡ true
    → w.hosts_written ≡ true
    → contains_text (content_of (ensure_container_hosts w merged_dir name ip dns f).hosts) marker
      ≡ true
unfolding ensure_container_hosts
ensure_marks w merged_dir name ip [] f given resolved ok =
    rw given (inject_marks w name (register_own w name ip f) ok)
ensure_marks w merged_dir name ip (s ∷ ss) f given resolved ok =
    let g = register_own w name ip f in
    let with_resolv = record g { resolv_conf = some (nameserver_lines (s ∷ ss)) } in
    rw given (simp resolved (inject_marks w name with_resolv ok))

-- Once a call of `EnsureContainerHosts` with a root directory has written its files, no later call with
-- any name, address and name servers changes the hosts file, whatever the registry has come to hold and
-- whichever writes of that call fail.
pub ensure_container_hosts_once :
    (w w' : HostWrites) (merged_dir merged_dir' name name' ip ip' : Bytes) (dns dns' : List Bytes)
    (registry : RegistryFile) (f : HostFiles)
    → str_eq merged_dir [] ≡ false
    → w.resolv_written ≡ true
    → w.hosts_written ≡ true
    → let g = ensure_container_hosts w merged_dir name ip dns f in
      (ensure_container_hosts w' merged_dir' name' ip' dns'
        (record g { registry = registry })).hosts
      ≡ g.hosts
ensure_container_hosts_once w w' dir dir' name name' ip ip' dns dns' registry f given resolved ok =
    let g = ensure_container_hosts w dir name ip dns f in
    ensure_marked w' dir' name' ip' dns' (record g { registry = registry })
      (ensure_marks w dir name ip dns f given resolved ok)
