-- ===== src/Tests/Kernel.antt =====
-- Routes from the kernel: their messages, what is exported of them, and for how long.
use native.Mathlib.Decide.{ℕ_discrete}
use ubgp.Base.{
  none, Error, unexpected_eof, if◌then◌else◌, ◌==◌, Bool, Str-discrete, err, message, Option, ◌++◌,
  slice, slice_from, true, length, ℕ, ◌≡◌, refl, false, some, List, [], ◌∷◌, ok, inl, arith, Eq,
}
use ubgp.Net.Addr.{IpAddr-discrete, Ipv4Addr-discrete}
use ubgp.Net.IpNet.{eq_of_net}
use ubgp.Net.IpNet.Concrete.{Cidr, cidr, cidr_laws, Cidr-discrete}
use ubgp.Netlink.Message.{
  messages, first_message, behind_padding, route, route_prefix, route_attributes, route_attribute,
  dump_status,
}
use ubgp.Netlink.Message.Ending.{Ends}
use ubgp.Netlink.Freshness.{Freshness, invalidated, expired, expire, apply_all}
use ubgp.Netlink.Freshness.Bounded.{expire-bounded}
use ubgp.Netlink.Events.{
  Arrival, no_events, delivered, signal, drain, drain_rounds, drain_round, recv, note_all, note,
}
use ubgp.Netlink.Events.Drained.{Drained, drain-Drained}
use ubgp.Netlink.Socket.{
  Calls, NetlinkCall, bind_groups, set_strict_check, event_groups, open_dump, open_events,
  open_socket, set_up, call,
}
use ubgp.Netlink.Socket.Closes.{Leaves, bound, still_open, open_dump-open_events}
use ubgp.Netlink.Snapshot.{
  Pass, Polled, Progress, start, snapshot, dump_families, dump_tables, dump_table, request,
  request_bytes, await_done, pass, take_replies, reply_rounds, reply_round, dump_message,
  add_prefix, close, poll,
}
use ubgp.Netlink.Reconcile.{ExportsOf, Reconciler, reconciler_start, Turn, to_poll, after_dump}
use ubgp.Netlink.Reconcile.BacksOff.{BacksOff, after_dump-BacksOff}
use ubgp.Netlink.Snapshot.Bounded.{Any, InBounds}
use ubgp.Netlink.Snapshot.Ends.{snapshot-Ends}
use ubgp.Tests.Data.{router_a, net}

-- A unicast route to 10.2.0.0/16 in table 254.
abbrev payload : List ℕ
payload = 2 ∷ 16 ∷ 0 ∷ 0 ∷ 254 ∷ 3 ∷ 0 ∷ 1 ∷ 0 ∷ 0 ∷ 0 ∷ 0 ∷ 8 ∷ 0 ∷ 1 ∷ 0 ∷ 10 ∷ 2 ∷ 0 ∷ 0 ∷ []

-- What is published is a number, 0 when nothing is.
instance abbrev number_eq : Eq ℕ
number_eq = record { decides = ℕ_discrete }

abbrev dirty : Freshness ℕ
dirty = record { dirty_since = some 5; withdrawn = false; published = 7 }

expire-bounded_example :
    (expire 0 40 30 (apply_all 0 30 (invalidated 20 ∷ expired 25 ∷ []) dirty)).published ≡ 0
expire-bounded_example =
    expire-bounded 0 30 (invalidated 20 ∷ expired 25 ∷ []) dirty 5 40 (inl refl) refl (tt, (tt, tt))
      (omega arith)

-- A change, a read that a signal interrupts, and a datagram that is too short.
abbrev queue : List Arrival
queue =
    delivered (16 ∷ 0 ∷ 0 ∷ 0 ∷ 24 ∷ 0 ∷ 0 ∷ 0 ∷ 1 ∷ 0 ∷ 0 ∷ 0 ∷ 0 ∷ 0 ∷ 0 ∷ 0 ∷ []) false 12 0
    ∷ signal
    ∷ delivered (1 ∷ 2 ∷ []) false 12 0
    ∷ []

drain-Drained_example : Drained 128 queue no_events
drain-Drained_example = drain-Drained queue

-- It drains to a change and a loss.
queue_drained : drain queue ≡ ok (record { changed = true; lost = true; datagrams = 2 }, [])
unfolding drain_rounds drain_round recv note_all note messages first_message behind_padding slice
    slice_from
queue_drained = refl

-- The reply to the request for IPv4: the route of `payload` and the end of the dump.
abbrev reply : List ℕ
reply =
    (36 ∷ 0 ∷ 0 ∷ 0 ∷ 24 ∷ 0 ∷ 2 ∷ 0 ∷ 1 ∷ 0 ∷ 0 ∷ 0 ∷ 0 ∷ 0 ∷ 0 ∷ 0 ∷ payload)
    ++ (20 ∷ 0 ∷ 0 ∷ 0 ∷ 3 ∷ 0 ∷ 2 ∷ 0 ∷ 1 ∷ 0 ∷ 0 ∷ 0 ∷ 0 ∷ 0 ∷ 0 ∷ 0 ∷ 0 ∷ 0 ∷ 0 ∷ 0 ∷ [])

abbrev quiet : Polled
quiet = record { poll_failed = false; poll_interrupted = false; revents = 0 ∷ 0 ∷ [] }

-- The reply comes in the second pass; the third is behind the deadline of ten seconds.
abbrev passes : List Pass
passes =
    record { stopping = false; elapsed = 0; new_events = []; new_replies = []; polled = quiet }
    ∷ record {
      stopping = false;
      elapsed = 1000;
      new_events = [];
      new_replies = delivered reply false 12 0 ∷ [];
      polled = quiet;
    }
    ∷ record {
      stopping = false;
      elapsed = 10_000_000_000;
      new_events = [];
      new_replies = [];
      polled = quiet;
    }
    ∷ []

abbrev sends : List ℕ → Option ℕ
sends bytes = some (length bytes)

snapshot-Ends_example :
    Ends
      (λ s. InBounds router_a s.dump.prefixes)
      Any
      (snapshot router_a sends true [] 0 [] passes).0
      (snapshot router_a sends true [] 0 [] passes).1
snapshot-Ends_example = snapshot-Ends cidr_laws router_a sends true [] 0 [] passes refl

-- It collects the route.
snapshot_runs : (snapshot router_a sends true [] 0 [] passes).1.dump.prefixes ≡ net 10 2 0 0 16 ∷ []
unfolding snapshot dump_families dump_tables dump_table request request_bytes await_done pass
    take_replies reply_rounds reply_round dump_message add_prefix close poll drain_rounds
    drain_round recv note_all note messages first_message behind_padding slice slice_from route
    route_prefix route_attributes route_attribute dump_status Cidr-discrete IpAddr-discrete
    Ipv4Addr-discrete ℕ_discrete
snapshot_runs = refl

-- A round that dumps, and one that the stop flag ends.
abbrev turn : Bool → Turn
turn stopping = record {
  stopping = stopping;
  arrivals = [];
  now = 5;
  opened = true;
  passes = passes;
  closing = [];
  late_arrivals = [];
  stopped = false;
  published_at = 6;
  ended = 7;
  checks = 5 ∷ [];
  late_checks = [];
  polled = quiet;
}

instance abbrev exports_eq : Eq (ExportsOf Cidr)
exports_eq = record { decides = hlevel (Str-discrete, Cidr-discrete) }

abbrev no_progress : Progress Cidr
no_progress = start router_a sends 0 [] []

after_dump-BacksOff_example :
    (s' : Reconciler Cidr) × (after_dump router_a sends
        (turn false)
        (err (message "stopping"), no_progress)
        (reconciler_start 5)
      ≡ ok (to_poll, s'))
    × BacksOff router_a sends (turn false) (reconciler_start 5) s'
after_dump-BacksOff_example =
    after_dump-BacksOff router_a sends (turn false) (message "stopping") no_progress
      (reconciler_start 5) refl

-- A kernel that refuses to bind a socket with a subscription to IPv6 routes.
abbrev no_v6 : Calls → NetlinkCall → Option Error
no_v6 trace (bind_groups groups) = if groups == 1361 then some unexpected_eof else none
no_v6 trace k = none

open_dump-open_events_example :
    Leaves [] (bound 0 67108864 ++ (set_strict_check 1 ∷ [])) (open_dump no_v6 router_a [])
    × Leaves [] (bound (event_groups false) 67108864) (open_events no_v6 router_a [])
open_dump-open_events_example = open_dump-open_events no_v6 router_a []

-- With IPv6 it is closed again, and without it stays open.
refused_closes : still_open 0 (open_socket no_v6 (event_groups true) 67108864 []).1 ≡ 0
unfolding open_socket set_up call
refused_closes = refl

accepted_stays : still_open 0 (open_socket no_v6 (event_groups false) 67108864 []).1 ≡ 1
unfolding open_socket set_up call
accepted_stays = refl
