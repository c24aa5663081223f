-- ===== src/Tests/Data.antt =====
-- Two routers that are peers of each other, and what they exchange.
use ubgp.Base.{ℕ, true, false, none, some, List, [], ◌∷◌}
use ubgp.Net.Addr.{ipv4, v4}
use ubgp.Net.IpNet.Concrete.{Cidr}
use ubgp.Config.{Peer, Config, Acl, permit, deny, default_kernel, default_management}
use ubgp.Wire.Open.{Negotiated}

abbrev pub net : ℕ → ℕ → ℕ → ℕ → ℕ → Cidr
net a b c d len = record { ip = v4 (ipv4 a b c d); len = len }

-- 10.0.0.0/8 up to /24, without 10.1.0.0/16
abbrev pub acl : Acl Cidr
acl = record {
  rules =
      record { action = deny; prefix = net 10 1 0 0 16; min_length = none; max_length = some 32 }
      ∷ record { action = permit; prefix = net 10 0 0 0 8; min_length = none; max_length = some 24 }
      ∷ [];
}

-- "out"
abbrev pub out : List ℕ
out = 111 ∷ 117 ∷ 116 ∷ []

abbrev pub router : ℕ → ℕ → Peer → Config Cidr
router asn last peer = record {
  asn = asn;
  router_id = ipv4 192 0 2 last;
  ipv6 = false;
  listen_port = 179;
  kernel = default_kernel;
  management = default_management;
  acls = (out, acl) ∷ [];
  peers = peer ∷ [];
}

abbrev pub peer : ℕ → ℕ → ℕ → ℕ → Peer
peer asn there here hold = record {
  address = v4 (ipv4 192 0 2 there);
  local_address = v4 (ipv4 192 0 2 here);
  interface = 101 ∷ 49 ∷ [];
  remote_asn = asn;
  export_acl = out;
  md5_password = none;
  port = 179;
  hold_time_secs = hold;
  connect_timeout_secs = 10;
  write_timeout_secs = 10;
  ipv6 = false;
  ipv4 = true;
  next_hop_v4 = none;
  next_hop_v6 = none;
  next_hop_v6_link_local = none;
}

abbrev pub to_b : Peer
to_b = peer 65002 2 1 90

abbrev pub to_a : Peer
to_a = peer 65001 1 2 30

abbrev pub router_a : Config Cidr
router_a = router 65001 1 to_b

abbrev pub router_b : Config Cidr
router_b = router 65002 2 to_a

-- What `parse_open` makes of the other's OPEN.
abbrev pub negotiated : ℕ → Negotiated
negotiated last = record {
  router_id = ipv4 192 0 2 last;
  hold = 30;
  asn4 = true;
  internal = false;
  ipv4 = true;
  ipv6 = false;
}

abbrev pub routes : List Cidr
routes = net 10 2 0 0 16 ∷ net 10 3 3 0 24 ∷ []
