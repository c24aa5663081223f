-- ===== src/Bgp/Plan/Batch.antt =====
-- Which batches a plan gives.
use ubgp.Base.{
  ℕ, zero, suc, ◌≤◌, ◌≡◌, refl, Bool, true, false, not, Option, none, some, List, [], ◌∷◌, ◌++◌,
  length, is_empty, if◌then◌else◌, All, arith, Bool-cases, inl, inr, ap, sym, ◌∙◌,
}
use ubgp.Net.Addr.{is_ipv6}
use ubgp.Net.IpNet.{IpNet}
use ubgp.Wire.Update.{same_family}
use ubgp.Wire.Frame.{max_update_prefixes}
use ubgp.Bgp.Plan.{Plan, take_batch, next_batch, queue_of, with_queue, next_of}

same_family-true : (a b : Bool) → same_family a b ≡ true → a ≡ b
same_family-true true b h = cc
same_family-true false true h = cc
same_family-true false false h = refl

same_reflexive : (b : Bool) → same_family b b ≡ true
same_reflexive true = refl
same_reflexive false = refl

module _ {Net : Type 0} ⦃ops : IpNet Net⦄ where
  open ops use {addr}

  -- A cut of a queue: in order, at most `room` prefixes, of one family.
  pub record IsCut (room : ℕ) (is_v6 : Bool) (queue : List Net) (r : List Net × List Net)
      : Type 0 where
    pub whole : queue ≡ r.0 ++ r.1
    pub few : length r.0 ≤ room
    pub family : All (λ p. is_ipv6 (addr p) ≡ is_v6) r.0

  take_batch-IsCut :
      (room : ℕ) (is_v6 : Bool) (queue : List Net)
      → IsCut room is_v6 queue (take_batch room is_v6 queue)
  unfolding take_batch
  take_batch-IsCut room is_v6 [] = record { whole = refl; few = omega arith; family = tt }
  take_batch-IsCut zero is_v6 (p ∷ ps) = record { whole = refl; few = omega arith; family = tt }
  take_batch-IsCut (suc room) is_v6 (p ∷ ps) =
      let rest = take_batch-IsCut room is_v6 ps in
      elim (Bool-cases (same_family (is_ipv6 (addr p)) is_v6)) [
        | inl same ↦ rw same (record {
          whole = ap (λ q. p ∷ q) rest.whole;
          few = omega (arith, rest.few);
          family = (same_family-true (is_ipv6 (addr p)) is_v6 same, rest.family);
        })
        | inr other ↦ rw other (record { whole = refl; few = omega arith; family = tt })
      ]

  take_batch-front :
      (room : ℕ) (p : Net) (ps : List Net)
      → 1 ≤ length (take_batch (suc room) (is_ipv6 (addr p)) (p ∷ ps)).0
  unfolding take_batch
  take_batch-front room p ps = rw (same_reflexive (is_ipv6 (addr p))) (omega arith)

  -- What is to be said of a call of `next`.
  pub record IsBatch (plan : Plan Net) (withdraw : Bool) (batch : List Net) (plan' : Plan Net)
      : Type 0 where
    pub withdrawals_first : withdraw ≡ not (is_empty plan.withdrawals)
    pub nonempty : 1 ≤ length batch
    pub bounded : length batch ≤ max_update_prefixes
    pub one_family : (is_v6 : Bool) × All (λ p. is_ipv6 (addr p) ≡ is_v6) batch
    pub taken : queue_of withdraw plan ≡ batch ++ queue_of withdraw plan'
    pub kept : queue_of (not withdraw) plan' ≡ queue_of (not withdraw) plan

  abbrev pub IsNext : Plan Net → Option ((Bool × List Net) × Plan Net) → Type 0
  IsNext plan none = (plan.withdrawals ≡ []) × (plan.additions ≡ [])
  IsNext plan (some ((withdraw, batch), plan')) = IsBatch plan withdraw batch plan'

  queue_of-with_queue :
      (w : Bool) (rest : List Net) (plan : Plan Net)
      → (queue_of w (with_queue w rest plan) ≡ rest)
        × (queue_of (not w) (with_queue w rest plan) ≡ queue_of (not w) plan)
  queue_of-with_queue true rest plan = (refl, refl)
  queue_of-with_queue false rest plan = (refl, refl)

  next_of-IsNext :
      (w : Bool) (plan : Plan Net) (queue : List Net)
      → w ≡ not (is_empty plan.withdrawals)
      → queue_of w plan ≡ queue
      → (queue ≡ [] → (plan.withdrawals ≡ []) × (plan.additions ≡ []))
      → IsNext plan (next_of w plan queue)
  next_of-IsNext w plan [] h e empty = empty refl
  next_of-IsNext w plan (p ∷ ps) h e empty =
      let cut = take_batch-IsCut max_update_prefixes (is_ipv6 (addr p)) (p ∷ ps) in
      let (batch, rest) = take_batch max_update_prefixes (is_ipv6 (addr p)) (p ∷ ps) in
      record {
        withdrawals_first = h;
        nonempty = take_batch-front 199 p ps;
        bounded = cut.few;
        one_family = (is_ipv6 (addr p), cut.family);
        taken = e ∙ cut.whole ∙ ap (λ q. batch ++ q) (sym (queue_of-with_queue w rest plan).0);
        kept = (queue_of-with_queue w rest plan).1;
      }

  both_empty :
      (ws added : List Net)
      → (if not (is_empty ws) then ws else added) ≡ []
      → (ws ≡ []) × (added ≡ [])
  both_empty [] added h = (refl, h)
  both_empty (x ∷ ws) added h = cc

  -- `next` returns nothing exactly when both queues are empty. Otherwise it takes from the front
  -- of the withdrawals, or of the additions when no withdrawal is left, 1 to 200 prefixes of one
  -- family in the order of the queue, and leaves the other queue alone.
  pub next_batch-IsNext : (plan : Plan Net) → IsNext plan (next_batch plan)
  unfolding next_batch
  next_batch-IsNext plan =
      next_of-IsNext (not (is_empty plan.withdrawals)) plan _ refl refl
        (both_empty plan.withdrawals plan.additions)
