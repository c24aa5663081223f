-- ===== src/Config.antt =====
-- src/config.rs: the configuration's data, defaults, address checks and next hops.
-- A HashMap is an association list, a String its UTF-8 bytes. `Net` is the crate's `IpNet`.
pub mod Permits
pub mod Validate
pub mod Parse
use ubgp.Base.{
  ℕ, ◌*◌, Bool, true, false, not, ◌&&◌, Option, none, some, List, [], ◌∷◌, Str, str_eq, same,
  if◌then◌else◌, length,
}
use ubgp.Net.Addr.{
  Ipv4Addr, Ipv6Addr, IpAddr, v4, v6, SocketAddr, ipv4, broadcast, is_unspecified_v4,
  is_multicast_v4, is_unspecified_v6, is_multicast_v6, ipv4_eq,
}

abbrev pub max_timeout_secs : ℕ
max_timeout_secs = 24 * 60 * 60

pub record Management : Type 0 where
  pub enabled : Bool
  pub listen : SocketAddr

abbrev pub default_management : Management
default_management = record {
  enabled = true;
  listen = record { ip = v4 (ipv4 127 0 0 1); port = 65090 };
}

pub record Kernel : Type 0 where
  pub tables : List ℕ
  pub receive_buffer_bytes : ℕ
  pub refresh_interval_ms : ℕ
  pub reconcile_interval_secs : ℕ
  pub stale_timeout_secs : ℕ
  pub dump_timeout_secs : ℕ
  pub max_prefixes : ℕ

abbrev pub default_kernel : Kernel
default_kernel = record {
  tables = 254 ∷ [];
  receive_buffer_bytes = 64 * 1024 * 1024;
  refresh_interval_ms = 250;
  reconcile_interval_secs = 300;
  stale_timeout_secs = 30;
  dump_timeout_secs = 10;
  max_prefixes = 2_000_000;
}

pub record Peer : Type 0 where
  pub address : IpAddr
  pub local_address : IpAddr
  pub interface : Str
  pub remote_asn : ℕ
  pub export_acl : Str
  pub md5_password : Option Str
  pub port : ℕ
  pub hold_time_secs : ℕ
  pub connect_timeout_secs : ℕ
  pub write_timeout_secs : ℕ
  pub ipv6 : Bool
  pub ipv4 : Bool
  pub next_hop_v4 : Option Ipv4Addr
  pub next_hop_v6 : Option Ipv6Addr
  pub next_hop_v6_link_local : Option Ipv6Addr

pub data Action : Type 0 where
  permit deny : Action

pub record Rule (Net : Type 0) : Type 0 where
  pub action : Action
  pub prefix : Net
  pub min_length : Option ℕ
  pub max_length : Option ℕ

pub record Acl (Net : Type 0) : Type 0 where
  pub rules : List (Rule Net)

pub record Config (Net : Type 0) : Type 0 where
  pub asn : ℕ
  pub router_id : Ipv4Addr
  pub ipv6 : Bool
  pub listen_port : ℕ
  pub kernel : Kernel
  pub management : Management
  pub acls : List (Str × Acl Net)
  pub peers : List Peer

-- `HashMap::get`
unfoldable pub find_acl : {Net : Type 0} → Str → List (Str × Acl Net) → Option (Acl Net)
find_acl name [] = none
find_acl name ((n, acl) ∷ rest) = if same n name then some acl else find_acl name rest

unfoldable pub valid_v4 : Ipv4Addr → Bool
valid_v4 a = not (is_unspecified_v4 a) && not (is_multicast_v4 a) && not (same a broadcast)

unfoldable pub valid_router_id : Ipv4Addr → Bool
valid_router_id id = not (is_unspecified_v4 id)

unfoldable pub valid_v6 : Ipv6Addr → Bool
valid_v6 a = not (is_unspecified_v6 a) && not (is_multicast_v6 a)

abbrev local_v4 : IpAddr → Option Ipv4Addr
local_v4 (v4 a) = some a
local_v4 (v6 a) = none

abbrev local_v6 : IpAddr → Option Ipv6Addr
local_v6 (v4 a) = none
local_v6 (v6 a) = some a

-- `Option::or`
abbrev pub or_else {ℓ} : {A : Type ℓ} → Option A → Option A → Option A
or_else none b = b
or_else (some a) b = some a

unfoldable pub nh4 : Peer → Option Ipv4Addr
nh4 p = or_else p.next_hop_v4 (local_v4 p.local_address)

unfoldable pub nh6 : Peer → Option Ipv6Addr
nh6 p = or_else p.next_hop_v6 (local_v6 p.local_address)
