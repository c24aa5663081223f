-- ===== src/Tests/Dumps.antt =====
-- A dump of the kernel, and what becomes of it.
use ubgp.Base.{
  length-replicate, slice, slice_from, Str, Str-discrete, replicate, ℕ, ◌≡◌, ◌<◌, ◌≤◌, ◌+◌, ◌*◌,
  refl, inl, inr, true, false, Option, some, List, [], ◌∷◌, any, contains, length, ok, arith, ◌∷◌,
  All,
}
use ubgp.Net.IpNet.{eq_of_net}
use ubgp.Net.IpNet.Concrete.{Cidr, cidr, cidr_laws, Cidr-discrete}
use ubgp.Net.Addr.{IpAddr-discrete, Ipv4Addr-discrete, ipv4}
use ubgp.Netlink.Message.{
  Message, messages, route, first_message, behind_padding, route_prefix, route_attributes,
  route_attribute, dump_status,
}
use ubgp.Netlink.Events.{Arrival, no_events, note, drain_rounds, drain_round, recv, note_all}
use ubgp.Netlink.Snapshot.{
  Pass, poll, snapshot, dump_families, dump_tables, dump_table, request, request_bytes, await_done,
  pass, take_replies, reply_rounds, reply_round, dump_message, add_prefix, close,
}
use ubgp.Netlink.Kernel.{
  KernelRoute, IsAttribute, IsWritten, route_bytes, datagram_bytes, prefix_of,
}
use ubgp.Netlink.Kernel.Routes.{route-route_bytes}
use ubgp.Netlink.Kernel.Datagrams.{calls, messages-datagram_bytes}
use ubgp.Netlink.Kernel.Dumps.{
  IsDumped, IsQuiet, FamiliesAnswered, last, more, no_table, next_table, only_v4, batch_arrival,
  last_arrival, done_message, with_routes, finds, route_message,
}
use ubgp.Netlink.Kernel.Collected.{snapshot-Collects}
use ubgp.Bgp.Transmit
use ubgp.Bgp.Transmit.{Transmitter, run}
use ubgp.Bgp.Transmit.Settles.{alone}
use ubgp.Bgp.Plan.Converges.{size}
use ubgp.Tests.Connections.{own_next_hop}
use ubgp.Bgp.Exports.Dumped.{Reached, snapshot-Reached}
use ubgp.Tests.Configuration.{router_a_valid}
use ubgp.Tests.Data.{router_a, to_b, negotiated, out, net}
use ubgp.Config.{find_acl}
use ubgp.Config.Permits.{permits}
use ubgp.Netlink.Filter.{acl_names, exports_of, filter_exports}
use native.Mathlib.Decide.{ℕ_discrete}

-- A unicast route to 10.2.0.0/16 in table 254, with an output interface.
abbrev unicast : KernelRoute
unicast = record {
  family = 2;
  dst_len = 16;
  src_len = 0;
  tos = 0;
  table = 254;
  protocol = 3;
  scope = 0;
  type = 1;
  flags = 0;
  attributes =
      record { kind = 15; value = 254 ∷ 0 ∷ 0 ∷ 0 ∷ [] }
      ∷ record { kind = 1; value = 10 ∷ 2 ∷ 0 ∷ 7 ∷ [] }
      ∷ record { kind = 4; value = 3 ∷ 0 ∷ 0 ∷ 0 ∷ [] }
      ∷ [];
}

-- A local route.
abbrev local : KernelRoute
local = record unicast { type = 2 }

attribute-IsAttribute :
    (kind a b c d : ℕ)
    → kind < 65536
    → IsAttribute 4 (record { kind = kind; value = a ∷ b ∷ c ∷ d ∷ [] })
attribute-IsAttribute kind a b c d fits = record {
  fits = omega arith;
  kind_fits = fits;
  address = λ h. refl;
  table = λ h. refl;
}

unicast-IsWritten : IsWritten unicast
unicast-IsWritten = record {
  flags_fit = omega arith;
  attributes = λ plain. (
    attribute-IsAttribute 15 254 0 0 0 (omega arith),
    (
      attribute-IsAttribute 1 10 2 0 7 (omega arith),
      (attribute-IsAttribute 4 3 0 0 0 (omega arith), tt),
    ),
  );
  dst_len = λ plain. omega arith;
  dst = λ plain. inr (λ e. cc);
}

local-IsWritten : IsWritten local
local-IsWritten = record {
  flags_fit = omega arith;
  attributes = λ plain. cc;
  dst_len = λ plain. cc;
  dst = λ plain. cc;
}

-- The default route has no address and no RTA_TABLE here.
abbrev default_route : KernelRoute
default_route = record unicast { dst_len = 0; attributes = [] }

default_route-IsWritten : IsWritten default_route
default_route-IsWritten = record {
  flags_fit = omega arith;
  attributes = λ plain. tt;
  dst_len = λ plain. omega arith;
  dst = λ plain. inl refl;
}

route-route_bytes_example :
    route {Net = Cidr} (route_bytes unicast) (254 ∷ []) ≡ ok (prefix_of (254 ∷ []) unicast)
route-route_bytes_example = route-route_bytes cidr_laws unicast (254 ∷ []) unicast-IsWritten

-- Its prefix has no host bits.
unicast_found : prefix_of {Net = Cidr} (254 ∷ []) unicast ≡ some (net 10 2 0 0 16)
unicast_found = refl

abbrev two_messages : List Message
two_messages = route_message 1 unicast ∷ done_message 1 ∷ []

messages-datagram_bytes_example :
    messages note 100 (datagram_bytes 7 two_messages) no_events ≡ calls note two_messages no_events
messages-datagram_bytes_example =
    messages-datagram_bytes note 7 100 two_messages no_events
      (
        record {
          length_fits = omega arith;
          kind_fits = omega arith;
          flags_fit = omega arith;
          seq_fits = omega arith;
        },
        (
          record {
            length_fits = omega arith;
            kind_fits = omega arith;
            flags_fit = omega arith;
            seq_fits = omega arith;
          },
          tt,
        ),
      )
      (omega arith)

abbrev reply_pass : List Arrival → Pass
reply_pass replies = record {
  stopping = false;
  elapsed = 1000;
  new_events = [];
  new_replies = replies;
  polled = record { poll_failed = false; poll_interrupted = false; revents = 0 ∷ 0 ∷ [] };
}

reply_pass-IsQuiet : (replies : List Arrival) → IsQuiet {Net = Cidr} router_a (reply_pass replies)
unfolding poll
reply_pass-IsQuiet replies = record {
  going_on = refl;
  in_time = omega arith;
  no_events = refl;
  polls = refl;
}

-- Two routes in the first pass, and one with the end of the dump in the second.
abbrev pub first_pass : Pass
first_pass = reply_pass (batch_arrival 7 1 (unicast, local ∷ []) ∷ [])

abbrev pub second_pass : Pass
second_pass = reply_pass (last_arrival 7 1 (default_route ∷ []) ∷ [])

abbrev pub dumped : List KernelRoute
dumped = unicast ∷ local ∷ default_route ∷ []

pub router_a_answered : FamiliesAnswered router_a 7 0 1 dumped (first_pass ∷ second_pass ∷ []) []
router_a_answered = only_v4 refl (
    next_table
      (more ((unicast, local ∷ []) ∷ []) (reply_pass-IsQuiet _) refl (omega arith)
        (last [] (default_route ∷ []) (reply_pass-IsQuiet _) refl (omega arith)))
      no_table)

pub dumped-IsDumped : All IsDumped dumped
dumped-IsDumped = (
  record { written = unicast-IsWritten; fits = omega arith },
  (
    record { written = local-IsWritten; fits = omega arith },
    (record { written = default_route-IsWritten; fits = omega arith }, tt),
  ),
)

abbrev pub sends : List ℕ → Option ℕ
sends bytes = some (length bytes)

-- Far less than `max_prefixes`.
few_dumped : length (with_routes {Net = Cidr} (254 ∷ []) dumped []) ≤ 2_000_000
unfolding Cidr-discrete
few_dumped = omega arith

snapshot-Collects_example :
    let r = snapshot router_a sends true [] 0 [] (first_pass ∷ second_pass ∷ []) in
    (r.0 ≡ ok tt)
    × (r.1.changed ≡ false)
    × ((n : Cidr)
        → contains r.1.dump.prefixes n ≡ any (λ k. finds n (prefix_of (254 ∷ []) k)) dumped)
snapshot-Collects_example =
    snapshot-Collects cidr_laws router_a 7 sends (λ b. refl) 0 router_a_answered dumped-IsDumped
      few_dumped

-- What the ACL leaves of the two prefixes.
abbrev exported : List (Str × List Cidr)
exported = (out, net 10 2 0 0 16 ∷ []) ∷ []

dumped_exported :
    filter_exports router_a
      (snapshot router_a sends true [] 0 [] (first_pass ∷ second_pass ∷ [])).1.dump.prefixes
    ≡ ok exported
unfolding snapshot dump_families dump_tables dump_table request request_bytes await_done pass
    take_replies reply_rounds reply_round dump_message add_prefix close poll drain_rounds
    drain_round recv note_all note messages first_message behind_padding slice slice_from route
    route_prefix route_attributes route_attribute dump_status Cidr-discrete IpAddr-discrete
    Ipv4Addr-discrete ℕ_discrete filter_exports exports_of acl_names find_acl permits Str-discrete
dumped_exported = refl

abbrev steps : ℕ
steps = 4 * size (Transmit.start router_a to_b (negotiated 2) 5 exported).plan + 4

abbrev reading : ℕ × ℕ
reading = (7, 8)

abbrev times : List (ℕ × ℕ)
times = replicate steps reading

enough : steps ≤ length times
enough = omega (arith, length-replicate steps reading)

snapshot-Reached_example :
    (r : List (List ℕ) × Transmitter Cidr) × (run router_a to_b
        (negotiated 2)
        (alone times)
        (Transmit.start router_a to_b (negotiated 2) 5 exported)
      ≡ ok r)
    × Reached cidr_laws router_a [] to_b []
        (negotiated 2)
        7
        sends
        (λ b. refl)
        dumped
        (net 10 2 0 0 16)
        r
snapshot-Reached_example =
    snapshot-Reached cidr_laws router_a [] to_b [] (negotiated 2) 7 sends (λ b. refl) 0 exported 5
      times (net 10 2 0 0 16) router_a_valid refl refl
      (inr (ipv4 192 0 2 1, own_next_hop.0, own_next_hop.1), inl refl) router_a_answered
      dumped-IsDumped few_dumped dumped_exported enough
