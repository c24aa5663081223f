-- ===== src/Tests/Sessions.antt =====
-- Sessions: plans and the selection of a connection.
use ubgp.Base.{
  ◌⊎◌, ◌≤◌, ok, map, inl, ℕ, true, ok, ◌>>=◌, ◌++◌, ◌+◌, ◌≤◌, ◌≡◌, refl, false, not, ◌&&◌, none,
  some, List, [], ◌∷◌, inr, contains, arith, length,
}
use ubgp.Net.IpNet.{eq_of_net}
use native.Mathlib.Decide.{ℕ_discrete}
use ubgp.Net.Addr.{IpAddr-discrete}
use ubgp.Net.IpNet.Concrete.{Cidr, cidr, cidr_laws, Cidr-discrete}
use ubgp.Bgp.Plan.{Plan, new_plan, next_batch, drain, enabled}
use ubgp.Bgp.Plan.Converges.{drain-new_plan}
use ubgp.Bgp.Choose.Bounded.{HasEnded, AreTimely, choose-HasEnded}
use ubgp.Bgp.Choose.{
  Event, Timed, timed_step, choose, opened, Candidate, prefer_incoming, waiting, run_from,
  selection_start, failed, deadline,
}
use ubgp.Bgp.Choose.Agreement.{prefer_incoming-agreement}
use ubgp.Bgp.Choose.Keeps.{HasCandidate, run_from-HasCandidate}
use ubgp.Net.Addr.{ipv4}
use ubgp.Wire.Frame.{read_frame, update_kind}
use ubgp.Wire.Update.{update}
use ubgp.Wire.Validate.{validate_update, valid}
use ubgp.Bgp.Plan.{take_batch}
use ubgp.Wire.Received.Batches.{IsRead}
use ubgp.Bgp.Plan.Sendable.{IsSendable, next_batch-update}
use ubgp.Tests.Messages.{own_next_hop}
use ubgp.Tests.Data.{router_a, router_b, to_a, to_b, negotiated, routes, net}

abbrev plan : Plan Cidr
plan = record { withdrawals = net 10 9 0 0 16 ∷ []; additions = routes }

-- The peer has 10.9.0.0/16 and shall have the two others.
abbrev sent : List Cidr
sent = net 10 9 0 0 16 ∷ net 10 2 0 0 16 ∷ []

abbrev replanned : Plan Cidr
replanned = new_plan sent routes (negotiated 2) []

enough_fuel : length replanned.withdrawals + length replanned.additions ≤ 4
unfolding new_plan Cidr-discrete IpAddr-discrete ℕ_discrete
enough_fuel = omega arith

drain-new_plan_example :
    contains
      (drain 4 replanned (record { advertised = sent; replay = [] })).0.advertised
      (net 10 9 0 0 16)
    ≡ (contains routes (net 10 9 0 0 16) && enabled (negotiated 2) (net 10 9 0 0 16))
drain-new_plan_example =
    drain-new_plan sent routes [] [] (negotiated 2) 4 (net 10 9 0 0 16) enough_fuel

prefer_incoming-agreement_example :
    prefer_incoming router_a to_b (negotiated 2)
    ≡ not (prefer_incoming router_b to_a (negotiated 1))
prefer_incoming-agreement_example =
    prefer_incoming-agreement router_a router_b to_b to_a (negotiated 2) (negotiated 1) refl refl
      refl refl (inr (omega arith))

abbrev candidate : Candidate
candidate = record { negotiated = negotiated 2; incoming = false; link_local = none }

run_from-HasCandidate_example : HasCandidate (
    run_from router_a to_b
      (waiting (record selection_start { pending = some candidate }))
      (failed "refused" ∷ deadline ∷ []))
run_from-HasCandidate_example =
    run_from-HasCandidate router_a to_b
      (waiting (record selection_start { pending = some candidate }))
      (failed "refused" ∷ deadline ∷ []) refl (tt, (tt, tt))

-- An outgoing connection, when the other side shall keep its own, and an error.
abbrev opening : List (ℕ × Event)
opening = (1000, opened candidate) ∷ (1200, failed "refused") ∷ []

opening-AreTimely : AreTimely router_a to_b (waiting selection_start, 12005) opening
unfolding timed_step
opening-AreTimely = (omega arith, (omega arith, tt))

choose-HasEnded_example :
    (t : Timed) × (choose router_a to_b 100_000 5 opening ≡ ok t)
    × (HasEnded t.0 ⊎ ((t.1 ≤ 13005) × HasEnded (timed_step router_a to_b t (t.1, deadline)).0))
choose-HasEnded_example =
    choose-HasEnded router_a to_b 100_000 5 opening (omega arith) (omega arith) opening-AreTimely

-- The first batch of `plan`, and what is left.
first_batch :
    next_batch plan ≡ some ((true, net 10 9 0 0 16 ∷ []), record plan { withdrawals = [] })
unfolding next_batch take_batch
first_batch = refl

next_batch-update_example :
    IsSendable (negotiated 2) (record plan { withdrawals = [] })
    × (body : List ℕ) × ((rest : List ℕ)
        → (update router_a to_b (negotiated 2) (net 10 9 0 0 16 ∷ []) true >>= λ packet.
            read_frame (packet ++ rest))
          ≡ ok ((update_kind, body), rest))
    × (validate_update body (negotiated 2) ≡ ok valid)
    × IsRead (map cidr.trunc (net 10 9 0 0 16 ∷ [])) [] body
next_batch-update_example =
    next_batch-update cidr_laws router_a to_b (negotiated 2) plan (record plan { withdrawals = [] })
      true (net 10 9 0 0 16 ∷ []) refl
      (inr (ipv4 192 0 2 1, own_next_hop.0, own_next_hop.1), inl refl) (refl, (refl, tt))
      first_batch
