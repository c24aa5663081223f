-- ===== src/Config/Validate.antt =====
-- `Config::validate` of src/config.rs: the checks in their order, a loop as a function. The texts
-- of the errors leave out the values that the source puts into them.
pub mod Exact
pub mod Total
use ubgp.Base.{
  ℕ, ◌*◌, String, Bool, true, false, not, ◌&&◌, ◌||◌, Option, none, some, List, [], ◌∷◌, Str,
  Str-discrete, Eq, same, contains, str_eq, if◌then◌else◌, length, is_empty, all, any, leb, ltb,
  ◌==◌, Result, Checked, ok, err, message, ensure, ◌>>=◌, ◌>>◌, unwrap_or,
}
use ubgp.Net.Addr.{
  Ipv4Addr, Ipv6Addr, IpAddr, v4, v6, is_ipv4, ip_eq, IpAddr-discrete, is_loopback,
  is_unicast_link_local,
}
use ubgp.Net.IpNet.{IpNet, eq_of_net}
use ubgp.Config.{
  Management, Kernel, Peer, Rule, Acl, Config, find_acl, valid_v4, valid_router_id, valid_v6, nh4,
  nh6, max_timeout_secs,
}

-- libc's TCP_MD5SIG_MAXKEYLEN and IFNAMSIZ on Linux.
abbrev pub max_key_len : ℕ
max_key_len = 80

abbrev pub if_name_size : ℕ
if_name_size = 16

-- `(lo..=hi).contains(&x)`
abbrev pub in_range : ℕ → ℕ → ℕ → Bool
in_range lo hi x = leb lo x && leb x hi

-- `Option::is_some_and` and `Option::is_none_or`
abbrev pub is_some_and {ℓ} : {A : Type ℓ} → Option A → (A → Bool) → Bool
is_some_and none p = false
is_some_and (some a) p = p a

abbrev pub is_none_or {ℓ} : {A : Type ℓ} → Option A → (A → Bool) → Bool
is_none_or none p = true
is_none_or (some a) p = p a

abbrev pub is_none {ℓ} : {A : Type ℓ} → Option A → Bool
is_none none = true
is_none (some a) = false

-- `==` on Booleans
abbrev pub same_bool : Bool → Bool → Bool
same_bool true b = b
same_bool false b = not b

abbrev pub valid_ip : IpAddr → Bool
valid_ip (v4 a) = valid_v4 a
valid_ip (v6 a) = valid_v6 a

abbrev pub Endpoint : Type 0
Endpoint = IpAddr × IpAddr × Str

unfoldable pub Endpoint-discrete : Discrete Endpoint
unfolding IpAddr-discrete Str-discrete
Endpoint-discrete = hlevel (IpAddr-discrete, Str-discrete)

instance abbrev pub endpoint_eq : Eq Endpoint
endpoint_eq = record { decides = Endpoint-discrete }

-- The loop over the named timeouts of the kernel, and that over a peer's.
validate_timeouts : String → List ℕ → Checked
validate_timeouts text [] = ok tt
validate_timeouts text (seconds ∷ rest) = do
  ensure (in_range 1 max_timeout_secs seconds) text
  validate_timeouts text rest

unfoldable pub validate_kernel : Kernel → Checked
unfolding validate_timeouts
validate_kernel k = do
  ensure (not (is_empty k.tables) && all (λ t. not (t == 0)) k.tables)
      "select at least one nonzero routing table"
  ensure (in_range 65536 (1024 * 1024 * 1024) k.receive_buffer_bytes)
      "receive_buffer_bytes must be 64 KiB..1 GiB"
  ensure (in_range 10 60000 k.refresh_interval_ms) "refresh_interval_ms must be 10..60000"
  validate_timeouts "kernel timeout out of range"
      (k.reconcile_interval_secs ∷ k.stale_timeout_secs ∷ k.dump_timeout_secs ∷ [])
  ensure (ltb k.dump_timeout_secs k.stale_timeout_secs)
      "dump timeout must be shorter than stale timeout"
  ensure (ltb 0 k.max_prefixes) "max_prefixes must be positive"

abbrev pub endpoint : Peer → Endpoint
endpoint p = (p.address, p.local_address, p.interface)

module _ {Net : Type 0} where
  unfoldable pub validate_globals : Config Net → Checked
  validate_globals c = do
    ensure (is_loopback c.management.listen.ip) "management CLI must bind to a loopback address"
    ensure (not (c.management.listen.port == 0)) "management CLI port must be nonzero"
    ensure (not (c.asn == 0) && not (c.asn == 23456)) "local ASN must be nonzero and not AS_TRANS"
    ensure (valid_router_id c.router_id) "router_id must be nonzero"
    ensure (not (c.listen_port == 0)) "listen_port must be nonzero"
    ensure (not (is_empty c.peers)) "at least one peer is required"

  -- The part of a peer's checks that precedes the set of endpoints.
  unfoldable pub validate_transport : Config Net → Peer → Checked
  validate_transport c p = do
    ensure (is_none_or p.md5_password (λ key. in_range 1 max_key_len (length key)))
        "md5_password must contain 1..=80 UTF-8 bytes"
    ensure (not (is_none (find_acl p.export_acl c.acls))) "mandatory export ACL does not exist"
    ensure (not (p.remote_asn == 0) && not (p.remote_asn == 23456) && not (p.port == 0))
        "invalid peer ASN or port"
    ensure
        (not (same p.address p.local_address)
          && same_bool (is_ipv4 p.address) (is_ipv4 p.local_address))
        "peer/local addresses must differ and use the same transport family"
    ensure (valid_ip p.address) "invalid peer address"
    ensure (valid_ip p.local_address) "invalid local address"
    ensure
        (not (is_empty p.interface)
          && ltb (length p.interface) if_name_size
          && not (any (λ c. c == 0) p.interface))
        "invalid peer interface"

  -- The part that follows it.
  unfoldable pub validate_families : Config Net → Peer → Checked
  unfolding validate_timeouts
  validate_families c p = do
    ensure (p.hold_time_secs == 0 || leb 3 p.hold_time_secs)
        "hold time must be zero or >= 3 seconds"
    validate_timeouts "peer timeout out of range"
        (p.connect_timeout_secs ∷ p.write_timeout_secs ∷ [])
    ensure (p.ipv4 || p.ipv6) "peer must enable at least one address family"
    ensure
        (c.ipv6
          || not p.ipv6
            && is_ipv4 p.address
            && is_none p.next_hop_v6
            && is_none p.next_hop_v6_link_local)
        "IPv6 must be enabled globally before using IPv6 settings"
    ensure (not p.ipv4 || is_some_and (nh4 p) valid_v4)
        "IPv4 export requires a valid local next_hop_v4"
    ensure (not p.ipv6 || is_some_and (nh6 p) (λ a. valid_v6 a && not (is_unicast_link_local a)))
        "IPv6 export requires a non-link-local next_hop_v6"
    ensure (is_none_or p.next_hop_v6_link_local is_unicast_link_local)
        "next_hop_v6_link_local must be link-local"

  -- `endpoints` is the HashSet of what earlier peers inserted.
  unfoldable pub validate_peers : Config Net → List Endpoint → List Peer → Checked
  validate_peers c endpoints [] = ok tt
  validate_peers c endpoints (p ∷ rest) = do
    validate_transport c p
    ensure (not (contains endpoints (endpoint p))) "duplicate peer endpoint"
    validate_families c p
    validate_peers c (endpoint p ∷ endpoints) rest

module _ {Net : Type 0} ⦃ops : IpNet Net⦄ where
  open ops use {addr, prefix_len, trunc}

  unfoldable pub validate_rules : List (Rule Net) → Checked
  validate_rules [] = ok tt
  validate_rules (r ∷ rest) = do
    let base = prefix_len r.prefix
    let lo = unwrap_or r.min_length base
    let hi = unwrap_or r.max_length base
    let max = if is_ipv4 (addr r.prefix) then 32 else 128
    ensure (same r.prefix (trunc r.prefix)) "prefix must have no host bits"
    ensure (leb base lo && leb lo hi && leb hi max) "invalid prefix length range"
    validate_rules rest

  unfoldable pub validate_acls : List (Str × Acl Net) → Checked
  validate_acls [] = ok tt
  validate_acls ((name, acl) ∷ rest) = do
    ensure (not (is_empty name)) "ACL name must not be empty"
    validate_rules acl.rules
    validate_acls rest

  unfoldable pub validate : Config Net → Checked
  validate c = do
    validate_globals c
    validate_kernel c.kernel
    validate_acls c.acls
    validate_peers c [] c.peers
