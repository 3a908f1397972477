-- ===== src/Container/Ports.antt =====
-- internal/container/port_mgr.go: the port mappings of a container. What the calls that change the
-- host's forwarding report is an argument; the rules they set are not part of the state.
pub mod Laws
use dck.Base.{
  Bool, true, false, ◌&&◌, not, ℕ, Option, none, some, List, [], ◌∷◌, ◌++◌, if◌then◌else◌, any,
  keep,
}
use dck.Base.Int.{ℤ, eq_ℤ}
use dck.Base.Bytes.{Bytes, codes, str_eq}
use dck.Container.Types.{Container, PortMap, Process, SaveOutcome, save, save_ok}
use dck.Container.Load.{is_running}

pub data PortError : Type 0 where
  forward_failed not_found save_error : PortError

abbrev pub default_protocol : Bytes → Bytes
default_protocol protocol = if str_eq protocol [] then codes "tcp" else protocol

abbrev pub is_port : ℤ → Bytes → PortMap → Bool
is_port host_port protocol p = eq_ℤ p.host_port host_port && str_eq p.protocol protocol

abbrev pub save_result : SaveOutcome → Option PortError
save_result o = if save_ok o then none else some save_error

-- `forward` is what the forwarding call gives: `none` for an error, else the process ids that a
-- rootless forwarder runs under.
unfoldable pub add_port :
    Bool → Option (List ℕ) → SaveOutcome → ℤ → ℤ → Bytes → Process → Process × Option PortError
unfolding save save_ok
add_port rootless forward o host_port container_port protocol p =
    if is_running c.status && not (str_eq c.ip [])
    then elim forward [
      | none ↦ (p, some forward_failed)
      | some pids ↦ (
        save o (record p {
          c = record c {
            port_forward_pids =
                if rootless then c.port_forward_pids ++ pids else c.port_forward_pids;
            ports = c.ports ++ added ∷ [];
          };
        }),
        save_result o,
      )
    ]
    else (save o (record p { c = record c { ports = c.ports ++ added ∷ [] } }), save_result o)
  where
    open p use {c}

    added : PortMap
    added = record {
      host_port = host_port;
      container_port = container_port;
      protocol = default_protocol protocol;
    }

unfoldable pub remove_port : SaveOutcome → ℤ → Bytes → Process → Process × Option PortError
unfolding save save_ok
remove_port o host_port protocol p =
    let test = is_port host_port (default_protocol protocol) in
    if any test c.ports
    then (
      save o (record p { c = record c { ports = keep (λ q. not (test q)) c.ports } }),
      save_result o,
    )
    else (p, some not_found)
  where
    open p use {c}

unfoldable pub find_first : (PortMap → Bool) → List PortMap → Option PortMap
find_first test [] = none
find_first test (p ∷ ps) = if test p then some p else find_first test ps

-- `FindPort` does not replace an empty protocol.
unfoldable pub find_port : ℤ → Bytes → Container → Option PortMap
unfolding find_first
find_port host_port protocol c = find_first (is_port host_port protocol) c.ports
