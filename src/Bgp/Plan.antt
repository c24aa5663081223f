-- ===== src/Bgp/Plan.antt =====
-- `Plan` of src/bgp.rs: the difference between what a peer was sent and what it shall have, and
-- the batches in which it is sent. A queue is a list, its front first. The unstable sort by
-- family is the one that keeps the order within a family, which the source leaves open.
pub mod Batch
pub mod Converges
pub mod Sendable
use ubgp.Base.{
  ℕ, zero, suc, ◌-◌, ◌+◌, Bool, true, false, not, ◌&&◌, ◌||◌, Option, none, some, List, [], ◌∷◌,
  ◌++◌, length, is_empty, leb, ltb, if◌then◌else◌, contains,
}
use ubgp.Base.Sets.{filter, insert, remove}
use ubgp.Net.Addr.{is_ipv6}
use ubgp.Net.IpNet.{IpNet, eq_of_net}
use ubgp.Wire.Frame.{max_update_prefixes}
use ubgp.Wire.Open.{Negotiated}
use ubgp.Wire.Update.{same_family}

pub record Plan (Net : Type 0) : Type 0 where
  pub withdrawals : List Net
  pub additions : List Net

-- The sets that `transmit` changes when a batch is written.
pub record Sent (Net : Type 0) : Type 0 where
  pub advertised : List Net
  pub replay : List Net

module _ {Net : Type 0} ⦃ops : IpNet Net⦄ where
  open ops use {addr, net_eq}

  abbrev pub enabled : Negotiated → Net → Bool
  enabled n p = if not (is_ipv6 (addr p)) then n.ipv4 else n.ipv6

  -- `sort_unstable_by_key(|p| p.addr().is_ipv6())`
  abbrev pub by_family : List Net → List Net
  by_family ps = filter (λ p. not (is_ipv6 (addr p))) ps ++ filter (λ p. is_ipv6 (addr p)) ps

  -- `Plan::new`
  unfoldable pub new_plan : List Net → List Net → Negotiated → List Net → Plan Net
  new_plan advertised desired n replay = record {
    withdrawals =
        by_family (filter (λ p. not (contains desired p) || not (enabled n p)) advertised);
    additions =
        by_family
          (filter (λ p. enabled n p && (contains replay p || not (contains advertised p))) desired);
  }

  -- The `while` of `Plan::next`: the batch and the rest of the queue, with room for so many.
  unfoldable pub take_batch : ℕ → Bool → List Net → List Net × List Net
  take_batch room is_v6 [] = ([], [])
  take_batch zero is_v6 (p ∷ ps) = ([], p ∷ ps)
  take_batch (suc room) is_v6 (p ∷ ps) =
      let (batch, rest) = take_batch room is_v6 ps in
      if same_family (is_ipv6 (addr p)) is_v6 then (p ∷ batch, rest) else ([], p ∷ ps)

  -- The queue that `next` takes from, put back.
  abbrev pub queue_of : Bool → Plan Net → List Net
  queue_of withdraw plan = if withdraw then plan.withdrawals else plan.additions

  abbrev pub with_queue : Bool → List Net → Plan Net → Plan Net
  with_queue true rest plan = record plan { withdrawals = rest }
  with_queue false rest plan = record plan { additions = rest }

  abbrev pub next_of : Bool → Plan Net → List Net → Option ((Bool × List Net) × Plan Net)
  next_of withdraw plan [] = none
  next_of withdraw plan (front ∷ behind) =
      let (batch, rest) = take_batch max_update_prefixes (is_ipv6 (addr front)) (front ∷ behind) in
      some ((withdraw, batch), with_queue withdraw rest plan)

  -- `Plan::next`
  unfoldable pub next_batch : Plan Net → Option ((Bool × List Net) × Plan Net)
  next_batch plan =
      let withdraw = not (is_empty plan.withdrawals) in
      next_of withdraw plan (queue_of withdraw plan)

  -- The loop of `transmit` over a batch that was written.
  abbrev pub written : Bool → List Net → Sent Net → Sent Net
  written withdraw [] s = s
  written withdraw (p ∷ ps) s = written withdraw ps (record {
    advertised = if withdraw then remove p s.advertised else insert p s.advertised;
    replay = remove p s.replay;
  })

  -- Write a batch and go on, or stop at an empty plan.
  abbrev pub after_batch :
      (Plan Net → Sent Net → Sent Net × Plan Net)
      → Plan Net
      → Sent Net
      → Option ((Bool × List Net) × Plan Net)
      → Sent Net × Plan Net
  after_batch continue plan s none = (s, plan)
  after_batch continue plan s (some ((withdraw, batch), plan')) =
      continue plan' (written withdraw batch s)

  -- The rounds of `transmit` that nothing interrupts: batches until the plan is empty.
  unfoldable pub drain : ℕ → Plan Net → Sent Net → Sent Net × Plan Net
  drain zero plan s = (s, plan)
  drain (suc fuel) plan s = after_batch (λ plan' s'. drain fuel plan' s') plan s (next_batch plan)

  -- A batch has a prefix at least, so as many rounds as there are prefixes are enough.
  abbrev pub drain_all : Plan Net → Sent Net → Sent Net
  drain_all plan s = (drain (length plan.withdrawals + length plan.additions) plan s).0
