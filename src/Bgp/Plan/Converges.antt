-- ===== src/Bgp/Plan/Converges.antt =====
-- Draining a plan leaves the peer with what it shall have.
use ubgp.Base.{
  ℕ, zero, suc, ◌+◌, ◌≤◌, ◌≡◌, refl, Bool, true, false, not, ◌&&◌, ◌||◌, Option, none, some, List,
  [], ◌∷◌, length, is_empty, if◌then◌else◌, arith, ap, sym, ◌∙◌, contains, same, length-append,
}
use ubgp.Base.Sets.{contains-append, contains-filter, contains-insert, contains-remove, filter}
use ubgp.Net.Addr.{is_ipv6}
use ubgp.Net.IpNet.{IpNet, eq_of_net}
use ubgp.Wire.Open.{Negotiated}
use ubgp.Bgp.Plan.{
  Plan, Sent, new_plan, next_batch, written, drain, after_batch, enabled, by_family,
}
use ubgp.Bgp.Plan.Batch.{IsBatch, IsNext, next_batch-IsNext}

keep_all : (a : Bool) → (a && true) ≡ a
keep_all a = ground arith

split_and : (c v : Bool) → (c && not v || c && v) ≡ c
split_and c v = ground arith

lost_more : (a b c : Bool) → (a && not b && not c) ≡ (a && not (b || c))
lost_more a b c = ground arith

gained_more : (a b c : Bool) → (a || (b || c)) ≡ (b || a || c)
gained_more a b c = ground arith

moved_over : (a b c : Bool) → ((b || a) && true || c) ≡ (a && true || (b || c))
moved_over a b c = ground arith

nothing : {A : Type 0} (xs : List A) → false ≡ not (is_empty xs) → xs ≡ []
nothing [] h = refl
nothing (x ∷ xs) h = cc

start_goal :
    (a d e r : Bool) → (a && not (a && (not d || not e)) || d && (e && (r || not a))) ≡ (d && e)
start_goal a d e r = ground arith

none_changed : (a : Bool) → (a && true || false) ≡ a
none_changed a = ground arith

no_items : {A : Type 0} (xs : List A) → length xs ≤ 0 → xs ≡ []
no_items [] h = refl
no_items (x ∷ xs) h = absurd (omega arith)

module _ {Net : Type 0} ⦃ops : IpNet Net⦄ where
  open ops use {addr, net_eq}

  -- What the peer will have when the plan has been sent.
  abbrev pub goal : Plan Net → Sent Net → Net → Bool
  goal plan s x =
      contains s.advertised x && not (contains plan.withdrawals x) || contains plan.additions x

  pub contains-by_family : (ps : List Net) (x : Net) → contains (by_family ps) x ≡ contains ps x
  contains-by_family ps x =
      contains-append (filter (λ p. not (is_ipv6 (addr p))) ps) (filter (λ p. is_ipv6 (addr p)) ps)
        x
      ∙ rw
          (
            contains-filter (λ p. not (is_ipv6 (addr p))) ps x,
            contains-filter (λ p. is_ipv6 (addr p)) ps x,
          )
          (split_and (contains ps x) (is_ipv6 (addr x)))

  contains-written :
      (w : Bool) (batch : List Net) (s : Sent Net) (x : Net)
      → contains (written w batch s).advertised x ≡ (
          if w
          then contains s.advertised x && not (contains batch x)
          else contains batch x || contains s.advertised x)
  contains-written true [] s x = sym (keep_all (contains s.advertised x))
  contains-written false [] s x = refl
  contains-written true (p ∷ ps) s x =
      contains-written true ps _ x
      ∙ rw (contains-remove p s.advertised x)
          (lost_more (contains s.advertised x) (same p x) (contains ps x))
  contains-written false (p ∷ ps) s x =
      contains-written false ps _ x
      ∙ rw (contains-insert p s.advertised x)
          (gained_more (contains ps x) (same p x) (contains s.advertised x))

  -- A written batch does not change the goal.
  pub goal-step :
      (plan plan' : Plan Net) (w : Bool) (batch : List Net) (s : Sent Net) (x : Net)
      → IsBatch plan w batch plan'
      → goal plan' (written w batch s) x ≡ goal plan s x
  goal-step plan plan' true batch s x h =
      rw
        (
          contains-written true batch s x,
          h.kept,
          h.taken,
          contains-append batch plan'.withdrawals x,
        )
        (ap (λ b. b || contains plan.additions x)
          (lost_more (contains s.advertised x) (contains batch x) (contains plan'.withdrawals x)))
  goal-step plan plan' false batch s x h =
      let none_left : plan.withdrawals ≡ [] = nothing plan.withdrawals h.withdrawals_first in
      rw
        (
          contains-written false batch s x,
          h.kept,
          h.taken,
          none_left,
          contains-append batch plan'.additions x,
        )
        (moved_over (contains s.advertised x) (contains batch x) (contains plan'.additions x))

  pub size : Plan Net → ℕ
  size plan = length plan.withdrawals + length plan.additions

  pub size-step :
      (plan plan' : Plan Net) (w : Bool) (batch : List Net)
      → IsBatch plan w batch plan'
      → suc (size plan') ≤ size plan
  unfolding size
  size-step plan plan' true batch h =
      rw (h.kept, h.taken) (omega (arith, length-append batch plan'.withdrawals, h.nonempty))
  size-step plan plan' false batch h =
      rw (h.kept, h.taken) (omega (arith, length-append batch plan'.additions, h.nonempty))

  -- Nothing left to send.
  pub empty_goal :
      (plan : Plan Net) (s : Sent Net) (x : Net)
      → plan.withdrawals ≡ []
      → plan.additions ≡ []
      → contains s.advertised x ≡ goal plan s x
  empty_goal plan s x e f = rw (e, f) (sym (none_changed (contains s.advertised x)))

  empty-size : (plan : Plan Net) → size plan ≤ 0 → (plan.withdrawals ≡ []) × (plan.additions ≡ [])
  unfolding size
  empty-size plan h =
      (no_items plan.withdrawals (omega arith), no_items plan.additions (omega arith))

  -- The plan from which `drain` starts reaches the goal.
  abbrev Reaches : ℕ → Net → Type 0
  Reaches fuel x =
      (plan : Plan Net) (s : Sent Net)
      → size plan ≤ fuel
      → contains (drain fuel plan s).0.advertised x ≡ goal plan s x

  drain-none :
      (fuel : ℕ) (plan : Plan Net) (s : Sent Net)
      → next_batch plan ≡ none
      → drain (suc fuel) plan s ≡ (s, plan)
  unfolding drain
  drain-none fuel plan s e = ap (after_batch (drain fuel) plan s) e

  drain-some :
      (fuel : ℕ) (plan plan' : Plan Net) (w : Bool) (batch : List Net) (s : Sent Net)
      → next_batch plan ≡ some ((w, batch), plan')
      → drain (suc fuel) plan s ≡ drain fuel plan' (written w batch s)
  unfolding drain
  drain-some fuel plan plan' w batch s e = ap (after_batch (drain fuel) plan s) e

  drain-step :
      (fuel : ℕ) (x : Net)
      → Reaches fuel x
      → (plan : Plan Net) (s : Sent Net) → size plan ≤ suc fuel
      → (r : Option ((Bool × List Net) × Plan Net)) → next_batch plan ≡ r
      → IsNext plan r
      → contains (drain (suc fuel) plan s).0.advertised x ≡ goal plan s x
  drain-step fuel x before plan s h none e is_next =
      ap (λ d. contains d.0.advertised x) (drain-none fuel plan s e)
      ∙ empty_goal plan s x is_next.0 is_next.1
  drain-step fuel x before plan s h (some ((w, batch), plan')) e is_next =
      ap (λ d. contains d.0.advertised x) (drain-some fuel plan plan' w batch s e)
      ∙ before plan' (written w batch s) (omega (arith, size-step plan plan' w batch is_next))
      ∙ goal-step plan plan' w batch s x is_next

  -- Enough fuel sends the whole plan, and the goal is reached.
  drain-goal : (fuel : ℕ) (x : Net) → Reaches fuel x
  unfolding drain
  drain-goal zero x plan s h = empty_goal plan s x (empty-size plan h).0 (empty-size plan h).1
  drain-goal (suc fuel) x plan s h =
      drain-step fuel x (drain-goal fuel x) plan s h (next_batch plan) refl (next_batch-IsNext plan)

  pub goal-new_plan :
      (advertised desired replay : List Net) (n : Negotiated) (s : Sent Net) (x : Net)
      → s.advertised ≡ advertised
      → goal (new_plan advertised desired n replay) s x ≡ (contains desired x && enabled n x)
  unfolding new_plan
  goal-new_plan advertised desired replay n s x e =
      rw
        (
          e,
          contains-by_family
              (filter (λ p. not (contains desired p) || not (enabled n p)) advertised) x,
          contains-by_family
              (filter (λ p. enabled n p && (contains replay p || not (contains advertised p)))
                desired)
              x,
          contains-filter (λ p. not (contains desired p) || not (enabled n p)) advertised x,
          contains-filter (λ p. enabled n p && (contains replay p || not (contains advertised p)))
              desired x,
        )
        (start_goal (contains advertised x) (contains desired x) (enabled n x) (contains replay x))

  -- When a plan made of what a peer was sent, of what it shall have, of the session's families and
  -- of any prefixes to replay is sent batch after batch, then the peer has exactly the prefixes
  -- of the target whose family is negotiated.
  pub drain-new_plan :
      (advertised desired replay rest : List Net) (n : Negotiated) (fuel : ℕ) (x : Net)
      → let plan = new_plan advertised desired n replay in
        length plan.withdrawals + length plan.additions ≤ fuel
        → contains
            (drain fuel plan (record { advertised = advertised; replay = rest })).0.advertised
            x
          ≡ (contains desired x && enabled n x)
  unfolding size
  drain-new_plan advertised desired replay rest n fuel x h =
      let s : Sent Net = record { advertised = advertised; replay = rest } in
      drain-goal fuel x (new_plan advertised desired n replay) s h
      ∙ goal-new_plan advertised desired replay n s x refl
