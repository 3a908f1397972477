-- ===== src/Container/Dns.antt =====
-- internal/container/dns.go: the registry of container names and addresses in its file, and the
-- hosts file that a container gets from it.
pub mod Registry
pub mod Hosts
mod Examples
use dck.Base.{
  ◌&&◌, Bool, true, false, not, Option, none, some, List, [], ◌∷◌, ◌++◌, if◌then◌else◌, keep,
}
use dck.Base.Bytes.{Bytes, codes, str_eq}
use dck.Image.Auth.{contains_text}

pub record DnsEntry : Type 0 where
  pub name : Bytes
  pub ip : Bytes

-- The registry's file: `none` where it is missing, cannot be read or holds no list of entries.
abbrev pub RegistryFile : Type 0
RegistryFile = Option (List DnsEntry)

unfoldable pub read : RegistryFile → List DnsEntry
read none = []
read (some entries) = entries

-- Errors are dropped: `reached` says whether the new content has come into the file's place.
unfoldable pub write : Bool → List DnsEntry → RegistryFile → RegistryFile
write true entries file = some entries
write false entries file = file

-- The first entry of the name gets the address, or a new entry comes last.
unfoldable pub with_name : Bytes → Bytes → List DnsEntry → List DnsEntry
with_name name ip [] = record { name = name; ip = ip } ∷ []
with_name name ip (e ∷ es) =
    if str_eq e.name name then record e { ip = ip } ∷ es else e ∷ with_name name ip es

unfoldable pub register_dns_name : Bool → Bytes → Bytes → RegistryFile → RegistryFile
register_dns_name reached name ip file = write reached (with_name name ip (read file)) file

unfoldable pub without_name : Bytes → List DnsEntry → List DnsEntry
without_name name es = keep (λ e. not (str_eq e.name name)) es

unfoldable pub unregister_dns_name : Bool → Bytes → RegistryFile → RegistryFile
unregister_dns_name reached name file = write reached (without_name name (read file)) file

unfoldable pub first_ip : Bytes → List DnsEntry → Bytes
first_ip name [] = []
first_ip name (e ∷ es) = if str_eq e.name name then e.ip else first_ip name es

-- The empty text stands for a name that is not known.
unfoldable pub resolve_dns_name : Bytes → RegistryFile → Bytes
resolve_dns_name name file = first_ip name (read file)

unfoldable pub list_dns_names : RegistryFile → List DnsEntry
list_dns_names file = read file

-- The files of `EnsureContainerHosts` under the container's root: `none` is a file that cannot be
-- read. `resolv_conf` is written at most once.
pub record HostFiles : Type 0 where
  pub registry : RegistryFile
  pub hosts : Option Bytes
  pub resolv_conf : Option Bytes

-- How the calls end: the registry's write, the write of resolv.conf with the directory made for it,
-- and the write of hosts.
pub record HostWrites : Type 0 where
  pub registry_reached : Bool
  pub resolv_written : Bool
  pub hosts_written : Bool

abbrev pub newline : Bytes
newline = 10 ∷ []

abbrev pub marker : Bytes
marker = codes "# dck-managed"

unfoldable pub nameserver_lines : List Bytes → Bytes
nameserver_lines [] = []
nameserver_lines (s ∷ ss) = codes "nameserver " ++ (s ++ (newline ++ nameserver_lines ss))

-- One line for each entry of another container.
unfoldable pub host_lines : Bytes → List DnsEntry → Bytes
host_lines container_name [] = []
host_lines container_name (e ∷ es) =
    let rest = host_lines container_name es in
    if not (str_eq e.name container_name) then e.ip ++ (9 ∷ (e.name ++ (newline ++ rest))) else rest

unfoldable pub content_of : Option Bytes → Bytes
content_of none = []
content_of (some s) = s

-- The last part: the names go behind the content that is there, unless it has the marker.
unfoldable pub inject_hosts : HostWrites → Bytes → HostFiles → HostFiles
unfolding content_of list_dns_names
inject_hosts w container_name f =
    if not (contains_text (content_of f.hosts) marker) && w.hosts_written
    then record f {
      hosts = some (
          content_of f.hosts
          ++ (codes "\n# dck-managed names\n"
              ++ host_lines container_name (list_dns_names f.registry)));
    }
    else f

unfoldable pub register_own : HostWrites → Bytes → Bytes → HostFiles → HostFiles
register_own w container_name container_ip f =
    if not (str_eq container_name []) && not (str_eq container_ip [])
    then record f {
      registry = register_dns_name w.registry_reached container_name container_ip f.registry;
    }
    else f

unfoldable pub ensure_container_hosts :
    HostWrites → Bytes → Bytes → Bytes → List Bytes → HostFiles → HostFiles
ensure_container_hosts w merged_dir container_name container_ip [] f =
    if str_eq merged_dir []
    then f
    else inject_hosts w container_name (register_own w container_name container_ip f)
ensure_container_hosts w merged_dir container_name container_ip (s ∷ ss) f =
    if str_eq merged_dir []
    then f
    else let g = register_own w container_name container_ip f in
      if w.resolv_written
      then inject_hosts w container_name
          (record g { resolv_conf = some (nameserver_lines (s ∷ ss)) })
      else g
