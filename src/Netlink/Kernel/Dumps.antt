-- ===== src/Netlink/Kernel/Dumps.antt =====
-- What the kernel answers to a request for a dump, and the prefixes in the answer.
use ubgp.Base.{
  same, ℕ, ◌+◌, ◌*◌, ◌^◌, ◌≤◌, ◌<◌, ◌≡◌, Bool, true, false, Option, none, some, List, [], ◌∷◌, ◌++◌,
  map, length, ok,
}
use ubgp.Base.Sets.{insert}
use ubgp.Net.IpNet.{IpNet, eq_of_net}
use ubgp.Config.{Config}
use ubgp.Netlink.Message.{Message}
use ubgp.Netlink.Events.{Arrival, delivered}
use ubgp.Netlink.Snapshot.{u32_ne, Pass, poll, next_seq}
use ubgp.Netlink.Kernel.{KernelRoute, route_bytes, datagram_bytes, prefix_of, IsWritten}

-- RTM_NEWROUTE and NLMSG_DONE, both with NLM_F_MULTI.
abbrev pub route_message : ℕ → KernelRoute → Message
route_message seq r = record { kind = 24; flags = 2; seq = seq; payload = route_bytes r }

abbrev pub done_message : ℕ → Message
done_message seq = record { kind = 3; flags = 2; seq = seq; payload = u32_ne 0 }

-- A datagram of the kernel, whose port is 0.
abbrev pub from_kernel : ℕ → List Message → Arrival
from_kernel port ms = delivered (datagram_bytes port ms) false 12 0

-- A route and those that follow it in a datagram.
abbrev pub Batch : Type 0
Batch = KernelRoute × List KernelRoute

abbrev pub batch_routes : Batch → List KernelRoute
batch_routes (r, rs) = r ∷ rs

abbrev pub batches_routes : List Batch → List KernelRoute
batches_routes [] = []
batches_routes (b ∷ bs) = batch_routes b ++ batches_routes bs

abbrev pub batch_arrival : ℕ → ℕ → Batch → Arrival
batch_arrival port seq b = from_kernel port (map (route_message seq) (batch_routes b))

abbrev pub last_arrival : ℕ → ℕ → List KernelRoute → Arrival
last_arrival port seq rs = from_kernel port (map (route_message seq) rs ++ (done_message seq ∷ []))

-- A route that fits a message.
pub record IsDumped (r : KernelRoute) : Type 0 where
  pub written : IsWritten r
  pub fits : 16 + length (route_bytes r) < 2 ^ 32

module _ {Net : Type 0} ⦃ops : IpNet Net⦄ where
  abbrev pub insert_found : Option Net → List Net → List Net
  insert_found none s = s
  insert_found (some n) s = insert n s

  -- The set with the prefixes of routes.
  abbrev pub with_routes : List ℕ → List KernelRoute → List Net → List Net
  with_routes tables [] s = s
  with_routes tables (r ∷ rs) s = with_routes tables rs (insert_found (prefix_of tables r) s)

  module _ (c : Config Net) where
    -- A pass before the deadline in which nothing but replies comes.
    pub record IsQuiet (p : Pass) : Type 0 where
      pub going_on : p.stopping ≡ false
      pub in_time : p.elapsed < c.kernel.dump_timeout_secs * 1_000_000_000
      pub no_events : p.new_events ≡ []
      pub polls : poll p.polled ≡ ok tt

    module _ (port : ℕ) where
      -- The answer to a request, over the passes that get its datagrams: the routes, and the passes
      -- behind it.
      pub data Answered (seq : ℕ) : List KernelRoute → List Pass → List Pass → Type 0 where
        last :
            {p : Pass} {rest : List Pass} (bs : List Batch) (rs : List KernelRoute)
            → IsQuiet p
            → p.new_replies ≡ map (batch_arrival port seq) bs ++ (last_arrival port seq rs ∷ [])
            → length bs < 128
            → Answered seq (batches_routes bs ++ rs) (p ∷ rest) rest
        more :
            {p : Pass} {ps rest : List Pass} {routes : List KernelRoute} (bs : List Batch)
            → IsQuiet p
            → p.new_replies ≡ map (batch_arrival port seq) bs
            → length bs ≤ 128
            → Answered seq routes ps rest
            → Answered seq (batches_routes bs ++ routes) (p ∷ ps) rest

      -- The answers to the requests for tables, from a sequence number to the next.
      pub data AllAnswered
          : List ℕ → ℕ → ℕ → List KernelRoute → List Pass → List Pass → Type 0 where
        no_table : {seq : ℕ} {rest : List Pass} → AllAnswered [] seq seq [] rest rest
        next_table :
            {table : ℕ} {tables : List ℕ} {seq seq' : ℕ} {one more : List KernelRoute}
            {ps between rest : List Pass}
            → Answered (next_seq seq) one ps between
            → AllAnswered tables (next_seq seq) seq' more between rest
            → AllAnswered (table ∷ tables) seq seq' (one ++ more) ps rest

      -- The answers to the requests for both families.
      pub data FamiliesAnswered : ℕ → ℕ → List KernelRoute → List Pass → List Pass → Type 0 where
        only_v4 :
            {seq seq' : ℕ} {routes : List KernelRoute} {ps rest : List Pass}
            → c.ipv6 ≡ false
            → AllAnswered c.kernel.tables seq seq' routes ps rest
            → FamiliesAnswered seq seq' routes ps rest
        both :
            {seq seq4 seq' : ℕ} {v4_routes v6_routes : List KernelRoute}
            {ps between rest : List Pass}
            → c.ipv6 ≡ true
            → AllAnswered c.kernel.tables seq seq4 v4_routes ps between
            → AllAnswered c.kernel.tables seq4 seq' v6_routes between rest
            → FamiliesAnswered seq seq' (v4_routes ++ v6_routes) ps rest

  -- Whether the prefix of a route is this one.
  abbrev pub finds : Net → Option Net → Bool
  finds n none = false
  finds n (some p) = same p n
