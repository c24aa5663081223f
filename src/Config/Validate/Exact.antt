-- ===== src/Config/Validate/Exact.antt =====
-- `validate` accepts exactly the configurations that meet a description of its own: what each
-- part must be, and that no two peers share an endpoint.
use ubgp.Base.{
  ℕ, ◌*◌, ◌≤◌, ◌<◌, ◌≡◌, ◌≢◌, ◌↔◌, ◌⊎◌, refl, Bool, true, false, not, Option, none, some, List, [],
  ◌∷◌, Str, same_iff, contains, length, is_empty, All, any, all, Checked, ok, ensure, ◌>>◌,
  unwrap_or, arith, String, if◌then◌else◌, ◌==◌, str_eq,
}
use ubgp.Net.Addr.{
  Ipv4Addr, Ipv6Addr, ip_eq, is_ipv4, is_loopback, is_unicast_link_local, is_unspecified_v4,
}
use ubgp.Net.IpNet.{IpNet, eq_of_net}
use ubgp.Config.{
  Kernel, Peer, Rule, Acl, Config, find_acl, valid_v4, valid_router_id, valid_v6, nh4, nh6,
  max_timeout_secs,
}
use ubgp.Config.Validate.{
  max_key_len, if_name_size, valid_ip, Endpoint, endpoint, endpoint_eq, validate_kernel,
  validate_globals, validate_transport, validate_families, validate_peers, validate_rules,
  validate_acls, validate,
}

abbrev IsTimeout : ℕ → Type 0
IsTimeout s = (1 ≤ s) × (s ≤ max_timeout_secs)

pub record IsValidKernel (k : Kernel) : Type 0 where
  pub some_table : is_empty k.tables ≡ false
  pub nonzero_tables : All (λ t. t ≢ 0) k.tables
  pub buffer_low : 65536 ≤ k.receive_buffer_bytes
  pub buffer_high : k.receive_buffer_bytes ≤ 1024 * 1024 * 1024
  pub refresh_low : 10 ≤ k.refresh_interval_ms
  pub refresh_high : k.refresh_interval_ms ≤ 60000
  pub reconcile : IsTimeout k.reconcile_interval_secs
  pub stale : IsTimeout k.stale_timeout_secs
  pub dump : IsTimeout k.dump_timeout_secs
  pub dump-lt-stale : k.dump_timeout_secs < k.stale_timeout_secs
  pub some_prefix : 0 < k.max_prefixes

ensure-bind_iff :
    (b : Bool) (text : String) (k : Checked)
    → ((ensure b text >> k) ≡ ok tt) ↔ ((b ≡ true) × (k ≡ ok tt))
ensure-bind_iff true text k = (λ h. (refl, h), λ h. h.1)
ensure-bind_iff false text k = (λ h. cc, λ h. cc)

all_nonzero : (ts : List ℕ) → (all (λ t. not (t == 0)) ts ≡ true) ↔ All (λ t. t ≢ 0) ts
all_nonzero [] = (λ _. tt, λ _. refl)
all_nonzero (t ∷ ts) =
    (λ h. ground (arith, (all_nonzero ts).0), λ h. ground (arith, (all_nonzero ts).1))

validate_kernel_iff : (k : Kernel) → (validate_kernel k ≡ ok tt) ↔ IsValidKernel k
unfolding validate_kernel
validate_kernel_iff k =
    (λ h. ground (arith, (all_nonzero k.tables).0), λ v. ground (arith, (all_nonzero k.tables).1))

-- `P` holds of the value, if there is one.
abbrev OnSome {ℓ κ} : {A : Type ℓ} → Option A → (A → Type κ) → Type κ
OnSome none P = Unit
OnSome (some a) P = P a

no_nul : (bs : List ℕ) → (any (λ b. b == 0) bs ≡ false) ↔ All (λ b. b ≢ 0) bs
no_nul [] = (λ _. tt, λ _. refl)
no_nul (b ∷ bs) = (λ h. ground (arith, (no_nul bs).0), λ h. ground (arith, (no_nul bs).1))

module _ {Net : Type 0} where
  pub record IsValidGlobals (c : Config Net) : Type 0 where
    pub console_loopback : is_loopback c.management.listen.ip ≡ true
    pub console_port : c.management.listen.port ≢ 0
    pub asn_nonzero : c.asn ≢ 0
    pub asn_not_trans : c.asn ≢ 23456
    pub router_id_nonzero : is_unspecified_v4 c.router_id ≡ false
    pub listens : c.listen_port ≢ 0
    pub some_peer : is_empty c.peers ≡ false

  validate_globals_iff : (c : Config Net) → (validate_globals c ≡ ok tt) ↔ IsValidGlobals c
  unfolding validate_globals valid_router_id
  validate_globals_iff c = (λ h. ground arith, λ v. ground arith)

  -- What the transport checks ask of one peer.
  pub record IsValidTransport (c : Config Net) (p : Peer) : Type 0 where
    pub key : OnSome p.md5_password (λ k. (1 ≤ length k) × (length k ≤ max_key_len))
    pub export : (acl : Acl Net) × (find_acl p.export_acl c.acls ≡ some acl)
    pub asn_nonzero : p.remote_asn ≢ 0
    pub asn_not_trans : p.remote_asn ≢ 23456
    pub port_nonzero : p.port ≢ 0
    pub differ : p.address ≢ p.local_address
    pub same_family : is_ipv4 p.address ≡ is_ipv4 p.local_address
    pub address_valid : valid_ip p.address ≡ true
    pub local_valid : valid_ip p.local_address ≡ true
    pub interface_named : is_empty p.interface ≡ false
    pub interface_fits : length p.interface < if_name_size
    pub interface_text : All (λ b. b ≢ 0) p.interface

  -- What the family checks ask of one peer.
  pub record IsValidFamilies (c : Config Net) (p : Peer) : Type 0 where
    pub hold : (p.hold_time_secs ≡ 0) ⊎ (3 ≤ p.hold_time_secs)
    pub connect : IsTimeout p.connect_timeout_secs
    pub write : IsTimeout p.write_timeout_secs
    pub some_family : (p.ipv4 ≡ true) ⊎ (p.ipv6 ≡ true)
    pub gate :
        (c.ipv6 ≡ true)
        ⊎ ((p.ipv6 ≡ false)
            × (is_ipv4 p.address ≡ true)
            × (p.next_hop_v6 ≡ none)
            × (p.next_hop_v6_link_local ≡ none))
    pub hop_v4 : (p.ipv4 ≡ false) ⊎ ((a : Ipv4Addr) × (nh4 p ≡ some a) × (valid_v4 a ≡ true))
    pub hop_v6 :
        (p.ipv6 ≡ false)
        ⊎ ((a : Ipv6Addr) × (nh6 p ≡ some a)
            × (valid_v6 a ≡ true)
            × (is_unicast_link_local a ≡ false))
    pub hop_link_local : OnSome p.next_hop_v6_link_local (λ a. is_unicast_link_local a ≡ true)

  validate_transport_iff :
      (c : Config Net) (p : Peer) → (validate_transport c p ≡ ok tt) ↔ IsValidTransport c p
  unfolding validate_transport
  validate_transport_iff c p = (
    λ h. ground (arith, (no_nul p.interface).0, (same_iff p.address p.local_address).1),
    λ v. ground (arith, (no_nul p.interface).1, (same_iff p.address p.local_address).0),
  )

  validate_families_iff :
      (c : Config Net) (p : Peer) → (validate_families c p ≡ ok tt) ↔ IsValidFamilies c p
  unfolding validate_families
  validate_families_iff c p = (λ h. ground arith, λ v. ground arith)

-- The endpoints of `ps` differ from one another and from those in `seen`.
abbrev pub Distinct : List Endpoint → List Peer → Type 0
Distinct seen [] = Unit
Distinct seen (p ∷ ps) = (contains seen (endpoint p) ≡ false) × Distinct (endpoint p ∷ seen) ps

then_iff : (m k : Checked) → ((m >> k) ≡ ok tt) ↔ ((m ≡ ok tt) × (k ≡ ok tt))
then_iff (ok tt) k = (λ h. (refl, h), λ h. h.1)
then_iff _ k = (λ h. cc, λ h. cc)

module _ {Net : Type 0} where
  validate_peers_iff :
      (c : Config Net) (seen : List Endpoint) (ps : List Peer)
      → (validate_peers c seen ps ≡ ok tt)
        ↔ (All (λ p. IsValidTransport c p × IsValidFamilies c p) ps × Distinct seen ps)
  unfolding validate_peers
  validate_peers_iff c seen [] = (λ _. (tt, tt), λ _. refl)
  validate_peers_iff c seen (p ∷ ps) = ground (
    arith,
    validate_peers_iff c (endpoint p ∷ seen) ps,
    validate_transport_iff c p,
    validate_families_iff c p,
  )

module _ {Net : Type 0} ⦃ops : IpNet Net⦄ where
  open ops use {addr, prefix_len, trunc}

  pub record IsValidRule (r : Rule Net) : Type 0 where
    pub no_host_bits : r.prefix ≡ trunc r.prefix
    pub base-le-low : prefix_len r.prefix ≤ unwrap_or r.min_length (prefix_len r.prefix)
    pub low-le-high :
        unwrap_or r.min_length (prefix_len r.prefix) ≤ unwrap_or r.max_length (prefix_len r.prefix)
    pub high-le-width :
        unwrap_or r.max_length (prefix_len r.prefix) ≤ (if is_ipv4 (addr r.prefix) then 32 else 128)

  validate_rules_iff : (rs : List (Rule Net)) → (validate_rules rs ≡ ok tt) ↔ All IsValidRule rs
  unfolding validate_rules
  validate_rules_iff [] = (λ _. tt, λ _. refl)
  validate_rules_iff (r ∷ rs) = (
    λ h. ground (arith, validate_rules_iff rs, same_iff r.prefix (trunc r.prefix)),
    λ v. ground (arith, validate_rules_iff rs, same_iff r.prefix (trunc r.prefix)),
  )

  abbrev IsValidAcl : (Str × Acl Net) → Type 0
  IsValidAcl (name, acl) = (is_empty name ≡ false) × All IsValidRule acl.rules

  validate_acls_iff :
      (acls : List (Str × Acl Net)) → (validate_acls acls ≡ ok tt) ↔ All IsValidAcl acls
  unfolding validate_acls
  validate_acls_iff [] = (λ _. tt, λ _. refl)
  validate_acls_iff ((name, acl) ∷ rest) = (
    λ h. ground (arith, validate_rules_iff acl.rules, validate_acls_iff rest),
    λ v. ground (arith, validate_rules_iff acl.rules, validate_acls_iff rest),
  )

  pub record IsValidConfig (c : Config Net) : Type 0 where
    pub globals : IsValidGlobals c
    pub kernel : IsValidKernel c.kernel
    pub acls : All IsValidAcl c.acls
    pub peers : All (λ p. IsValidTransport c p × IsValidFamilies c p) c.peers
    pub endpoints : Distinct [] c.peers

  -- `validate` accepts a configuration exactly when its global settings, kernel settings, ACLs and
  -- peers meet the limits listed above, each family that is on has a usable next hop, and no two
  -- peers share an endpoint.
  pub validate-IsValidConfig : (c : Config Net) → (validate c ≡ ok tt) ↔ IsValidConfig c
  unfolding validate
  validate-IsValidConfig c = (
    λ h. ground (
      arith,
      validate_globals_iff c,
      validate_kernel_iff c.kernel,
      validate_acls_iff c.acls,
      validate_peers_iff c [] c.peers,
    ),
    λ v. ground (
      arith,
      validate_globals_iff c,
      validate_kernel_iff c.kernel,
      validate_acls_iff c.acls,
      validate_peers_iff c [] c.peers,
    ),
  )
