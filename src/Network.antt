-- ===== src/Network.antt =====
-- internal/network/user_network.go: networks of the user, their subnets and their addresses. An IPv4
-- address is its 32-bit value, and a subnet what `net.ParseCIDR` makes of its text. The store maps a
-- name to the network in the state file of that name. What `ip` and `iptables` do is outside the store.
pub mod Overlap
pub mod Addresses
pub mod Subnets
pub mod Invariant
pub mod Handout
pub mod Held
pub mod Pool
mod Examples
use dck.Base.{
  ℕ, zero, suc, ◌+◌, ◌-◌, ◌*◌, ◌/◌, ◌%◌, ◌^◌, Bool, true, false, ◌&&◌, ◌||◌, not, Option, none,
  some, List, [], ◌∷◌, ◌++◌, if◌then◌else◌, ◌==◌, leb, ltb, any, keep, length,
}
use dck.Base.Bytes.{Bytes, codes, str_eq}
use dck.Base.Assoc.{lookup, insert, delete}
use dck.Container.Types.{SaveOutcome, written, refused, chmod_failed, save_ok}

pub record Cidr : Type 0 where
  pub network_ip : ℕ
  pub prefix_len : ℕ

-- The number of addresses.
abbrev pub hosts : Cidr → ℕ
hosts c = 2 ^ (32 - c.prefix_len)

-- IPNet.Contains: the address and the network agree under the mask.
unfoldable pub contains : Cidr → ℕ → Bool
contains c ip = (ip / hosts c) == (c.network_ip / hosts c)

-- The network of an address: the bits behind the prefix are cleared.
abbrev pub masked : ℕ → ℕ → Cidr
masked ip len = record { network_ip = (ip / 2 ^ (32 - len)) * 2 ^ (32 - len); prefix_len = len }

-- The built-in bridge, 10.0.2.0/24.
abbrev pub bridge_cidr : Cidr
bridge_cidr = record { network_ip = 10 * 2 ^ 24 + 2 * 2 ^ 8; prefix_len = 24 }

-- gateway[3]++, on a byte.
abbrev pub next_in_byte : ℕ → ℕ
next_in_byte ip = (ip / 256) * 256 + (ip % 256 + 1) % 256

-- The network and its gateway, from an IPv4 address and a prefix length.
unfoldable pub normalize_network_cidr : ℕ → ℕ → Option (Cidr × ℕ)
unfolding contains
normalize_network_cidr ip len =
    if ltb len 16 || ltb 29 len
    then none
    else if not (contains (masked ip len) (next_in_byte (masked ip len).network_ip))
    then none
    else some (masked ip len, next_in_byte (masked ip len).network_ip)

unfoldable pub cidr_overlaps : Cidr → Cidr → Bool
cidr_overlaps left right = contains left right.network_ip || contains right left.network_ip

pub record UserNetwork : Type 0 where
  pub name : Bytes
  pub subnet : Cidr
  pub gateway : ℕ
  pub allocated : List ℕ

abbrev pub Store : Type 0
Store = List (Bytes × UserNetwork)

abbrev is_alnum : ℕ → Bool
is_alnum c = (leb b'a' c && leb c b'z') || (leb b'A' c && leb c b'Z') || (leb b'0' c && leb c b'9')

abbrev is_name_byte : ℕ → Bool
is_name_byte c = is_alnum c || c == b'_' || c == b'.' || c == b'-'

-- ^[a-zA-Z0-9][a-zA-Z0-9_.-]{0,30}$
abbrev matches_name : Bytes → Bool
matches_name [] = false
matches_name (c ∷ s) = is_alnum c && not (any (λ d. not (is_name_byte d)) s) && leb (length s) 30

unfoldable pub valid_network_name : Bytes → Bool
valid_network_name name =
    matches_name name
    && not (str_eq name (codes "bridge"))
    && not (str_eq name (codes "host"))
    && not (str_eq name (codes "none"))
    && not (str_eq name (codes "ips"))

-- How a reading goes: whether the directory can be listed, and which state files can be read and
-- decoded.
pub record Reading : Type 0 where
  pub listed : Bool
  pub readable : Bytes → Bool

abbrev pub can_load : Reading → Bytes → Bool
can_load rd name = valid_network_name name && rd.readable name

unfoldable pub load_network : Reading → Bytes → Store → Option UserNetwork
load_network rd name store = if can_load rd name then lookup name store else none

-- `mustListNetworks`: a directory that cannot be listed gives no network, and a file that cannot be
-- read is passed over.
unfoldable pub list_networks : Reading → Store → Store
list_networks rd store = if rd.listed then keep (λ e. can_load rd e.0) store else []

-- The candidates 10.0.octet.0/24 for `rounds` octets from `octet` on; 10.254.0.0/24 behind them.
abbrev pub candidate : ℕ → Cidr
candidate octet = record { network_ip = 10 * 2 ^ 24 + octet * 2 ^ 8; prefix_len = 24 }

abbrev pub same_cidr : Cidr → Cidr → Bool
same_cidr a b = a.network_ip == b.network_ip && a.prefix_len == b.prefix_len

abbrev pub first_unused : Store → ℕ → ℕ → Cidr
first_unused used octet zero = record { network_ip = 10 * 2 ^ 24 + 254 * 2 ^ 16; prefix_len = 24 }
first_unused used octet (suc rounds) =
    let rest = first_unused used (suc octet) rounds in
    if not (any (λ e. same_cidr e.1.subnet (candidate octet)) used)
      && not (same_cidr (candidate octet) bridge_cidr)
    then candidate octet
    else rest

unfoldable pub next_network_subnet : Reading → Store → Cidr
next_network_subnet rd store = first_unused (list_networks rd store) 10 240

-- The subnet as the user gives it: none, a text that is no IPv4 CIDR, or an address and a length.
pub data SubnetArg : Type 0 where
  unset malformed : SubnetArg
  given : ℕ → ℕ → SubnetArg

pub data NetworkError : Type 0 where
  invalid_name already_exists bad_subnet overlaps_bridge overlaps_network save_network :
      NetworkError

pub data CreateResult : Type 0 where
  created_network : UserNetwork → CreateResult
  create_failed : NetworkError → CreateResult

unfoldable pub subnet_of : Reading → SubnetArg → Store → Option (Cidr × ℕ)
subnet_of rd unset store =
    normalize_network_cidr (next_network_subnet rd store).network_ip
      (next_network_subnet rd store).prefix_len
subnet_of rd malformed store = none
subnet_of rd (given ip len) store = normalize_network_cidr ip len

-- saveUserNetwork
unfoldable pub save_user_network : SaveOutcome → UserNetwork → Store → Store
save_user_network written n store = insert n.name n store
save_user_network chmod_failed n store = insert n.name n store
save_user_network refused n store = store

abbrev pub new_network : Bytes → Cidr → ℕ → UserNetwork
new_network name subnet gateway = record {
  name = name;
  subnet = subnet;
  gateway = gateway;
  allocated = [];
}

-- `seen` says whether os.Stat reports a state file that is there; any error of it counts as absent. The
-- two readings are those for the next subnet and for the overlap.
abbrev pub stat : Bool → Bytes → Store → Option UserNetwork
stat seen name store = if seen then lookup name store else none

unfoldable pub create_network :
    SaveOutcome → Bool → Reading → Reading → Bytes → SubnetArg → Store → Store × CreateResult
create_network o seen rd rd' name arg store =
    if not (valid_network_name name)
    then (store, create_failed invalid_name)
    else elim (stat seen name store) [
      | some n ↦ (store, create_failed already_exists)
      | none ↦ elim (subnet_of rd arg store) [
        | none ↦ (store, create_failed bad_subnet)
        | some (subnet, gateway) ↦
            (if cidr_overlaps subnet bridge_cidr
              then (store, create_failed overlaps_bridge)
              else if any (λ e. cidr_overlaps subnet e.1.subnet) (list_networks rd' store)
              then (store, create_failed overlaps_network)
              else (
                save_user_network o (new_network name subnet gateway) store,
                if save_ok o
                    then created_network (new_network name subnet gateway)
                    else create_failed save_network,
              ))
      ]
    ]

abbrev pub has_address : ℕ → List ℕ → Bool
has_address ip = any (λ a. a == ip)

-- ipv4Add, on a uint32.
abbrev pub ipv4_add : ℕ → ℕ → ℕ
ipv4_add base offset = (base + offset) % 2 ^ 32

-- The first address that is not allocated, among the addresses of `rounds` hosts from `host` on.
unfoldable pub first_free : (ℕ → ℕ) → List ℕ → ℕ → ℕ → Option ℕ
first_free address allocated host zero = none
first_free address allocated host (suc rounds) =
    let rest = first_free address allocated (suc host) rounds in
    if has_address (address host) allocated then rest else some (address host)

-- The loop runs over the hosts 2 up to, and without, the last.
unfoldable pub free_address : UserNetwork → Option ℕ
free_address n = first_free (ipv4_add n.subnet.network_ip) n.allocated 2 (hosts n.subnet - 1 - 2)

abbrev pub with_address : ℕ → UserNetwork → UserNetwork
with_address ip n = record n { allocated = ip ∷ n.allocated }

-- `none` is an error: no such network, or none that can be read, no free address, or a failed save.
unfoldable pub allocate_network_ip : SaveOutcome → Reading → Bytes → Store → Store × Option ℕ
allocate_network_ip o rd name store = elim (load_network rd name store) [
  | none ↦ (store, none)
  | some n ↦ elim (free_address n) [
    | none ↦ (store, none)
    | some ip ↦ (save_user_network o (with_address ip n) store, if save_ok o then some ip else none)
  ]
]

abbrev pub without_address : ℕ → UserNetwork → UserNetwork
without_address ip n = record n { allocated = keep (λ a. not (a == ip)) n.allocated }

unfoldable pub release_network_ip : SaveOutcome → Reading → Bytes → ℕ → Store → Store
release_network_ip o rd name ip store = elim (load_network rd name store) [
  | none ↦ store
  | some n ↦ save_user_network o (without_address ip n) store
]

abbrev pub is_unused : List ℕ → Bool
is_unused [] = true
is_unused (a ∷ rest) = false

-- Whether the bridge and the state file could be removed are arguments; the result says whether the
-- network is gone.
unfoldable pub remove_network : Bool → Bool → Reading → Bytes → Store → Store × Bool
remove_network bridge_gone file_gone rd name store = elim (load_network rd name store) [
  | none ↦ (store, false)
  | some n ↦
      (if not (is_unused n.allocated)
        then (store, false)
        else if bridge_gone && file_gone
        then (delete name store, true)
        else (store, false))
]
