-- ===== src/Container/Dns/Examples.antt =====
-- A registry of two containers, and a container that starts twice.
use dck.Base.{◌≡◌, Bool, true, false, none, some, List, [], ◌∷◌, refl}
use dck.Base.Bytes.{codes}
use dck.Container.Dns.{
  RegistryFile, HostFiles, HostWrites, read, write, with_name, first_ip, register_dns_name,
  unregister_dns_name, resolve_dns_name, list_dns_names, ensure_container_hosts,
}
use dck.Container.Dns.Registry.{
  DnsCall, register, unregister, assign_all, perform_all, distinct_names,
  resolve_dns_name-perform_all,
}
use dck.Container.Dns.Hosts.{ensure_container_hosts_once}

-- The second write of `db` fails, and `web` gets a new address.
abbrev calls : List (DnsCall × Bool)
calls =
    (register (codes "db") (codes "10.0.0.2"), true)
    ∷ (register (codes "web") (codes "10.0.0.3"), true)
    ∷ (unregister (codes "db"), false)
    ∷ (register (codes "web") (codes "10.0.0.4"), true)
    ∷ []

moved : resolve_dns_name (codes "web") (perform_all calls none) ≡ codes "10.0.0.4"
unfolding resolve_dns_name register_dns_name unregister_dns_name write read with_name first_ip
moved = refl

kept : resolve_dns_name (codes "db") (perform_all calls none) ≡ codes "10.0.0.2"
unfolding resolve_dns_name register_dns_name unregister_dns_name write read with_name first_ip
kept = refl

resolve_dns_name-perform_all_example :
    resolve_dns_name (codes "web") (perform_all calls none)
    ≡ assign_all calls (λ n. resolve_dns_name n none) (codes "web")
resolve_dns_name-perform_all_example = resolve_dns_name-perform_all calls none (codes "web")

empty-distinct : distinct_names (list_dns_names none) ≡ true
unfolding list_dns_names read
empty-distinct = refl

abbrev all_written : HostWrites
all_written = record { registry_reached = true; resolv_written = true; hosts_written = true }

abbrev fresh : HostFiles
fresh = record { registry = none; hosts = none; resolv_conf = none }

-- `db` has another address when `web` starts again.
abbrev moved_db : RegistryFile
moved_db = some (record { name = codes "db"; ip = codes "10.0.0.9" } ∷ [])

ensure_container_hosts_once_example :
    let g =
      ensure_container_hosts all_written
        (codes "/m")
        (codes "web")
        (codes "10.0.0.3")
        (codes "1.1.1.1" ∷ [])
        fresh in
    (ensure_container_hosts all_written
      (codes "/m")
      (codes "web")
      (codes "10.0.0.3")
      (codes "1.1.1.1" ∷ [])
      (record g { registry = moved_db })).hosts
    ≡ g.hosts
ensure_container_hosts_once_example =
    ensure_container_hosts_once all_written all_written (codes "/m") (codes "/m") (codes "web")
      (codes "web") (codes "10.0.0.3") (codes "10.0.0.3") (codes "1.1.1.1" ∷ [])
      (codes "1.1.1.1" ∷ []) moved_db fresh refl refl refl
