-- ===== src/Tests/Connections.antt =====
-- Connections of a router with its peer, from their listener to their end.
use ubgp.Base.{
  Option, ◌≢◌, ◌≤◌, ◌<◌, Error, ℕ, ◌*◌, ◌+◌, ◌≡◌, ◌⊎◌, inl, inr, refl, true, false, ◌&&◌, none,
  some, List, [], ◌∷◌, contains, replicate, length-replicate, Str-discrete, ok, message, arith,
}
use ubgp.Base.Ensures.{Checks, holds}
use native.Mathlib.Decide.{ℕ_discrete}
use ubgp.Net.Addr.{ipv4, IpAddr-discrete, Ipv4Addr-discrete}
use ubgp.Net.IpNet.{eq_of_net}
use ubgp.Net.IpNet.Concrete.{Cidr, cidr, cidr_laws, Cidr-discrete}
use ubgp.Config.{find_acl, Peer, nh4, valid_v4}
use ubgp.Bgp.Choose.{Candidate}
use ubgp.Bgp.Plan.{enabled}
use ubgp.Bgp.Plan.Converges.{size}
use ubgp.Bgp.Transmit.{
  at_keepalive, Transmitter, Event, advanced, woken, published, exports_changed, is_waiting, start,
  take_refresh, run,
}
use ubgp.Bgp.Table.{read_all}
use ubgp.Config.Permits.{permits}
use ubgp.Netlink.Filter.{acl_names, exports_of, filter_exports}
use ubgp.Netlink.Reconcile.Publishes.{IsExport}
use ubgp.Bgp.Exports.Shown.{Shows, published-Shows}
use ubgp.Bgp.Table.Follows.{transmit-table}
use ubgp.Bgp.Transmit.Settles.{alone, transmit-settles}
use ubgp.Bgp.Transmit.Requests.{pend}
use ubgp.Bgp.Transmit.Replays.{IsReplayed, take_refresh_exact}
use ubgp.Bgp.Listeners.{route_to, scoped_endpoint}
use ubgp.Bgp.Listeners.Routed.{place_from, route_to-place_from}
use ubgp.Bgp.Local.{Interface}
use ubgp.Bgp.Handshake.{Reading, handshake}
use ubgp.Bgp.Handshake.Closes.{IsReading, IsOpened, handshake-IsOpened}
use ubgp.Bgp.PeerLoop.{Round, unselected, held, slept}
use ubgp.Bgp.Sockets.{
  Trace, SocketCall, open_v4, set_reuse_address, bind_device, set_ttl_v4, set_tcp_nodelay, md5sig,
  set_nonblocking, bind, listen, first_peer, index, perform, install_all, install_key, signature,
  padded, open_listener,
}
use ubgp.Tests.Data.{router_a, to_b, negotiated, routes, net, out}
use ubgp.Tests.Configuration.{router_a_valid}

pub own_next_hop : (nh4 to_b ≡ some (ipv4 192 0 2 1)) × (valid_v4 (ipv4 192 0 2 1) ≡ true)
unfolding nh4 valid_v4 Ipv4Addr-discrete
own_next_hop = (refl, refl)

-- A round, new exports, and a wake-up by them.
abbrev events : List (Event Cidr)
events =
    advanced 10 10
    ∷ advanced 11 11
    ∷ advanced 12 12
    ∷ advanced 13 13
    ∷ published ((out, routes) ∷ [])
    ∷ woken exports_changed 20
    ∷ []

-- What the kernel side may publish: what its ACL leaves of the routes.
routes_exported : IsExport router_a ((out, routes) ∷ [])
unfolding filter_exports exports_of acl_names find_acl permits Str-discrete Cidr-discrete
    IpAddr-discrete Ipv4Addr-discrete ℕ_discrete
routes_exported = inr (routes, (omega arith, (refl, (refl, tt)), (refl, (refl, tt))), refl)

published-Shows_example :
    Checks
      (λ r.
        (table : List Cidr) × (read_all (negotiated 2) r.0 [] ≡ ok table)
        × ((is_waiting r.1.phase ≡ false)
            ⊎ (r.1.unseen ≡ true)
            ⊎ Shows router_a to_b (negotiated 2) (net 10 2 0 0 16) r.1.exports table))
      (run router_a to_b (negotiated 2) events (start router_a to_b (negotiated 2) 5 []))
published-Shows_example =
    published-Shows cidr_laws router_a [] to_b [] (negotiated 2) 5 [] events (net 10 2 0 0 16)
      router_a_valid refl refl (inr (ipv4 192 0 2 1, own_next_hop.0, own_next_hop.1), inl refl)
      (inl refl) (tt, (tt, (tt, (tt, (routes_exported, (tt, tt))))))

transmit-table_example :
    Checks
      (λ r.
        (table : List Cidr) × (read_all (negotiated 2) r.0 [] ≡ ok table)
        × (table ≡ r.1.sent.advertised)
        × ((is_waiting r.1.phase ≡ false)
            ⊎ (contains table (net 10 2 0 0 16) ≡ (
                contains r.1.target (net 10 2 0 0 16)
                && enabled (negotiated 2) (net 10 2 0 0 16)))))
      (run router_a to_b (negotiated 2) events (start router_a to_b (negotiated 2) 5 []))
transmit-table_example =
    transmit-table cidr_laws router_a to_b (negotiated 2) refl
      (inr (ipv4 192 0 2 1, own_next_hop.0, own_next_hop.1), inl refl) 5 [] events (net 10 2 0 0 16)
      tt (tt, (tt, (tt, (tt, (((refl, (refl, tt)), tt), (tt, tt))))))

-- Before the first round, with everything to announce.
abbrev fresh : Transmitter Cidr
fresh = start router_a to_b (negotiated 2) 5 ((out, routes) ∷ [])

abbrev readings : List (ℕ × ℕ)
readings = replicate (4 * size fresh.plan + 4) (7, 8)

transmit-settles_example :
    (r : List (List ℕ) × Transmitter Cidr) × (run router_a to_b
        (negotiated 2)
        (alone readings)
        fresh
      ≡ ok r)
    × (is_waiting r.1.phase ≡ true)
    × (contains r.1.sent.advertised (net 10 2 0 0 16)
        ≡ (contains fresh.target (net 10 2 0 0 16) && enabled (negotiated 2) (net 10 2 0 0 16)))
unfolding run start
transmit-settles_example =
    transmit-settles cidr_laws router_a to_b (negotiated 2) refl
      (inr (ipv4 192 0 2 1, own_next_hop.0, own_next_hop.1), inl refl) 5 ((out, routes) ∷ []) [] []
      fresh readings (net 10 2 0 0 16) refl refl refl refl
      (omega (arith, length-replicate {A = ℕ × ℕ} (4 * size fresh.plan + 4) (7, 8)))

-- Everything is announced, and a refresh of IPv4 is pending.
abbrev refreshing : Transmitter Cidr
refreshing = record (start router_a to_b (negotiated 2) 5 ((out, routes) ∷ [])) {
  sent = record { advertised = routes; replay = [] };
  target = routes;
  eor = 0;
  pending = 1;
}

-- IPv4 was requested twice.
one_request : refreshing.pending ≡ pend (false ∷ false ∷ [])
unfolding pend
one_request = refl

take_refresh_exact_example :
    let s' = take_refresh router_a to_b (negotiated 2) 9 9 refreshing in
    ((s' ≡ record refreshing { phase = at_keepalive })
      × ((refreshing.eor ≢ 0) ⊎ (9 < refreshing.next_refresh) ⊎ (false ∷ false ∷ [] ≡ [])))
    ⊎ ((refreshing.eor ≡ 0)
        × (refreshing.next_refresh ≤ 9)
        × (false ∷ false ∷ [] ≢ [])
        × IsReplayed router_a to_b
            (negotiated 2)
            (false ∷ false ∷ [])
            9
            refreshing
            s'
            (net 10 2 0 0 16))
take_refresh_exact_example =
    take_refresh_exact router_a to_b (negotiated 2) (false ∷ false ∷ []) 9 9 refreshing
      (net 10 2 0 0 16) one_request

route_to-place_from_example :
    route_to router_a.peers (to_b.local_address, to_b.interface) to_b.address
    ≡ place_from (to_b.local_address, to_b.interface) to_b.address 0 router_a.peers
route_to-place_from_example =
    route_to-place_from router_a (to_b.local_address, to_b.interface) to_b.address router_a_valid

-- It is the only peer there.
first_place : place_from (to_b.local_address, to_b.interface) to_b.address 0 router_a.peers ≡ some 0
unfolding Str-discrete IpAddr-discrete Ipv4Addr-discrete ℕ_discrete
first_place = refl

abbrev interfaces : List Interface
interfaces = record { name = to_b.interface; address = some to_b.local_address } ∷ []

-- A KEEPALIVE where OPEN is expected.
abbrev early : Reading
early = some (3, ok (4, []))

early-IsReading : IsReading early
early-IsReading = holds (omega arith)

handshake-IsOpened_example :
    Checks
      (IsOpened router_a to_b (some interfaces) true)
      (handshake router_a to_b true true (some interfaces) true early)
handshake-IsOpened_example =
    handshake-IsOpened router_a to_b (some interfaces) true true true early (inr (omega arith))
      early-IsReading

abbrev candidate : Candidate
candidate = record { negotiated = negotiated 2; incoming = true; link_local = none }

-- A failure, a session of a minute, and another failure.
abbrev rounds : List Round
rounds =
    record { tried = unselected (message "refused"); jitter = 250; waited = slept }
    ∷ record { tried = held (some (message "eof")) 60 1; jitter = 999; waited = slept }
    ∷ record { tried = unselected (message "refused"); jitter = 0; waited = slept }
    ∷ []

abbrev keyed_peer : Peer
keyed_peer = record to_b { md5_password = some (115 ∷ 51 ∷ []) }

-- A kernel that refuses nothing and has one interface.
abbrev willing : Trace → SocketCall → Option Error
willing trace c = none

-- The second peer's key stands in front of `listen`.
listens_keyed :
    (open_listener willing
      (λ name. 3)
      (keyed_peer.local_address, keyed_peer.interface)
      179
      (to_b ∷ keyed_peer ∷ [])).1
    ≡ open_v4
      ∷ set_reuse_address
      ∷ bind_device keyed_peer.interface
      ∷ set_ttl_v4
      ∷ set_tcp_nodelay
      ∷ md5sig (record {
        address = scoped_endpoint keyed_peer.address 0 3;
        key_len = 2;
        key = 115 ∷ 51 ∷ replicate 78 0;
      })
      ∷ set_nonblocking
      ∷ bind (scoped_endpoint keyed_peer.local_address 179 3)
      ∷ listen
      ∷ []
unfolding open_listener first_peer index perform install_all install_key signature padded
    scoped_endpoint Str-discrete IpAddr-discrete Ipv4Addr-discrete ℕ_discrete
listens_keyed = refl
