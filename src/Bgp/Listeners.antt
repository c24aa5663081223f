-- ===== src/Bgp/Listeners.antt =====
-- The listeners of `run` in src/bgp.rs, and `endpoint` of src/transport.rs: which peer's queue a
-- connection goes to. A queue stands for its peer by the peer's place in the configuration.
pub mod Routed
use ubgp.Base.{
  ℕ, zero, suc, ◌+◌, Bool, true, false, ◌&&◌, Option, none, some, List, [], ◌∷◌, ◌++◌, Str, str_eq,
  same, length, ltb, if◌then◌else◌,
}
use ubgp.Net.Addr.{IpAddr, v4, v6, SocketAddr, ip_eq, is_unicast_link_local}
use ubgp.Config.{Peer, Config}

-- `SocketAddr`, with the scope of an IPv6 address.
pub record ScopedAddr : Type 0 where
  pub ip : IpAddr
  pub port : ℕ
  pub scope_id : ℕ

unfoldable pub scoped_endpoint : IpAddr → ℕ → ℕ → ScopedAddr
scoped_endpoint (v4 a) port index = record { ip = v4 a; port = port; scope_id = 0 }
scoped_endpoint (v6 a) port index = record {
  ip = v6 a;
  port = port;
  scope_id = if is_unicast_link_local a then index else 0;
}

-- The peers of one listener, by address: `HashMap<IpAddr, Sender>`.
abbrev pub ListenerPeers : Type 0
ListenerPeers = List (IpAddr × ℕ)

-- `HashMap::insert`
unfoldable pub insert_peer : IpAddr → ℕ → ListenerPeers → ListenerPeers
insert_peer a i [] = (a, i) ∷ []
insert_peer a i ((b, j) ∷ rest) = if same a b then (a, i) ∷ rest else (b, j) ∷ insert_peer a i rest

-- `HashMap::get`
unfoldable pub find_peer : IpAddr → ListenerPeers → Option ℕ
find_peer a [] = none
find_peer a ((b, j) ∷ rest) = if same a b then some j else find_peer a rest

abbrev pub Listeners : Type 0
Listeners = List ((IpAddr × Str) × ListenerPeers)

-- `(p.local_address, p.interface)`
abbrev pub same_listener : IpAddr × Str → IpAddr × Str → Bool
same_listener (a, i) (b, j) = same a b && same i j

-- `listeners.entry(key).or_default().insert(address, tx)`
unfoldable pub insert_entry : IpAddr × Str → IpAddr → ℕ → Listeners → Listeners
insert_entry key a i [] = (key, insert_peer a i []) ∷ []
insert_entry key a i ((k, peers) ∷ rest) =
    if same_listener key k
    then (k, insert_peer a i peers) ∷ rest
    else (k, peers) ∷ insert_entry key a i rest

-- The peers of a listener.
unfoldable pub find_listener : IpAddr × Str → Listeners → ListenerPeers
find_listener key [] = []
find_listener key ((k, peers) ∷ rest) =
    if same_listener key k then peers else find_listener key rest

-- The loop over the peers, from the place of the first of them.
unfoldable pub add_peers : ℕ → List Peer → Listeners → Listeners
add_peers i [] listeners = listeners
add_peers i (p ∷ ps) listeners =
    add_peers (suc i) ps (insert_entry (p.local_address, p.interface) p.address i listeners)

-- `peers.get(&remote.ip())` at one of the listeners.
abbrev pub route_to : List Peer → IpAddr × Str → IpAddr → Option ℕ
route_to peers key remote = find_peer remote (find_listener key (add_peers 0 peers []))

-- `try_send` on a channel for two connections.
unfoldable pub try_send : {A : Type 0} → A → List A → List A
try_send stream queue = if ltb (length queue) 2 then queue ++ (stream ∷ []) else queue
