-- ===== src/Bgp/Local.antt =====
-- `check_local_addresses` of src/bgp.rs, from what `getifaddrs` returns.
pub mod Owned
use ubgp.Base.{
  Bool, true, false, not, ◌||◌, Option, none, some, List, [], ◌∷◌, Str, str_eq, same, contains,
  if◌then◌else◌, message, Result, ok, err, ensure, ◌>>=◌, ◌>>◌,
}
use ubgp.Net.Addr.{Ipv6Addr, IpAddr, v4, v6, ip_eq, is_unicast_link_local}
use ubgp.Config.{Peer, nh4, nh6, or_else}
use ubgp.Config.Validate.{is_some_and, is_none_or}

-- An entry of `getifaddrs`: the name, and the address when it has one of the two families.
pub record Interface : Type 0 where
  pub name : Str
  pub address : Option IpAddr

-- The `match` on the family.
abbrev pub push_ip : Option IpAddr → List IpAddr → List IpAddr
push_ip none ips = ips
push_ip (some a) ips = a ∷ ips

-- The addresses of one interface.
unfoldable pub ips_of : Str → List Interface → List IpAddr
ips_of name [] = []
ips_of name (i ∷ rest) =
    if same i.name name then push_ip i.address (ips_of name rest) else ips_of name rest

abbrev pub link_local_of : IpAddr → Option Ipv6Addr
link_local_of (v4 a) = none
link_local_of (v6 a) = if is_unicast_link_local a then some a else none

-- `find_map`
unfoldable pub find_link_local : List IpAddr → Option Ipv6Addr
find_link_local [] = none
find_link_local (a ∷ ips) = or_else (link_local_of a) (find_link_local ips)

-- `interfaces` is what `getifaddrs` returns, if it succeeds.
unfoldable pub check_local_addresses : Option (List Interface) → Peer → Result (Option Ipv6Addr)
check_local_addresses none p = err (message "io error")
check_local_addresses (some interfaces) p = do
  let ips = ips_of p.interface interfaces
  ensure (contains ips p.local_address) "local_address is not assigned"
  ensure (not p.ipv4 || is_some_and (nh4 p) (λ a. contains ips (v4 a)))
      "IPv4 next hop is not assigned"
  ensure (not p.ipv6 || is_some_and (nh6 p) (λ a. contains ips (v6 a)))
      "IPv6 next hop is not assigned"
  ensure (is_none_or p.next_hop_v6_link_local (λ a. contains ips (v6 a)))
      "link-local next hop is not assigned"
  ok (find_link_local ips)
