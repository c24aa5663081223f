-- ===== src/Bgp/Transmit/Settles.antt =====
-- What `transmit` comes to when nothing else happens.
use ubgp.Base.{
  ℕ, suc, ◌+◌, ◌*◌, ◌-◌, ◌≤◌, ◌≡◌, inl, inr, refl, ◌∙◌, ap, true, false, not, ◌&&◌, ◌==◌, List, [],
  ◌∷◌, contains, Str, Result, ok, arith, length, leb,
}
use ubgp.Base.Ensures.{
  Ensures, Ensures-ok, Ensures-weaken, holds, rejected, Ensures-if, Ensures-bind,
}
use ubgp.Base.Sets.{no_and}
use ubgp.Net.IpNet.{IpNet, IpNetLaws, eq_of_net}
use ubgp.Config.{Config, Peer}
use ubgp.Wire.Frame.{frame}
use ubgp.Wire.Open.{Negotiated}
use ubgp.Bgp.Plan.{next_batch, enabled}
use ubgp.Bgp.Plan.Batch.{next_batch-IsNext}
use ubgp.Bgp.Plan.Converges.{empty_goal, size}
use ubgp.Bgp.Plan.Sendable.{HasNextHops, off_on}
use ubgp.Bgp.Transmit.{
  Phase, at_top, at_refresh, at_keepalive, at_plan, at_wait, is_waiting, Transmitter, Event,
  advanced, start, replan, take_refresh, send_keepalive, advance, step, run,
}
use ubgp.Bgp.Transmit.Synchronized.{Inv, start-Inv, run-Inv, send_next-Inv}

-- No error, and a value with this property.
abbrev Gives {ℓ} : {A : Type ℓ} → (A → Type 0) → Result A → Type ℓ
Gives P r = Ensures (λ e. ⊥) P r

given : {A : Type 0} {P : A → Type 0} {r : Result A} → Gives P r → (a : A) × (r ≡ ok a) × P a
given (holds {a} h) = (a, refl, h)
given (rejected h) = absurd h

-- The steps up to the wait with so many prefixes left to send.
abbrev steps_left : Phase → ℕ → ℕ
steps_left at_top left = 4 * left + 4
steps_left at_refresh left = 4 * left + 3
steps_left at_keepalive left = 4 * left + 2
steps_left at_plan left = 4 * left + 1
steps_left at_wait left = 0

all_done : (q : Phase) (left : ℕ) → steps_left q left ≤ 0 → is_waiting q ≡ true
all_done at_top left h = absurd (omega arith)
all_done at_refresh left h = absurd (omega arith)
all_done at_keepalive left h = absurd (omega arith)
all_done at_plan left h = absurd (omega arith)
all_done at_wait left h = refl

steps_left_bound : (q : Phase) (left : ℕ) → steps_left q left ≤ 4 * left + 4
steps_left_bound at_top left = omega arith
steps_left_bound at_refresh left = omega arith
steps_left_bound at_keepalive left = omega arith
steps_left_bound at_plan left = omega arith
steps_left_bound at_wait left = omega arith

-- Steps of the loop alone, with their readings of the clock.
abbrev pub alone : {Net : Type 0} → List (ℕ × ℕ) → List (Event Net)
alone [] = []
alone ((now, stored) ∷ times) = advanced now stored ∷ alone times

module _ {Net : Type 0} ⦃ops : IpNet Net⦄ (laws : IpNetLaws ops) (c : Config Net) (p : Peer)
    (n : Negotiated) (inside : n.internal ≡ (c.asn == p.remote_asn)) (hops : HasNextHops n p) where
  -- Nothing is to be seen, and the loop waits after at most so many steps.
  record Quiet (target : List Net) (fuel : ℕ) (s : Transmitter Net) : Type 0 where
    inv : Inv n s
    open_channel : s.closed ≡ false
    seen : s.unseen ≡ false
    unasked : s.pending ≡ 0
    same_target : s.target ≡ target
    near : steps_left s.phase (size s.plan) ≤ fuel

  -- The next phase of the round.
  next-Quiet :
      (target : List Net) (fuel : ℕ) (s : Transmitter Net) (q : Phase)
      → is_waiting q ≡ false
      → suc (steps_left q (size s.plan)) ≤ steps_left s.phase (size s.plan)
      → Quiet target (suc fuel) s
      → Quiet target fuel (record s { phase = q })
  next-Quiet target fuel s q busy less h = record {
    inv = record { reaches = h.inv.reaches; sendable = h.inv.sendable; idle = inl busy };
    open_channel = h.open_channel;
    seen = h.seen;
    unasked = h.unasked;
    same_target = h.same_target;
    near = omega (arith, less, h.near);
  }

  keepalive-Quiet :
      (target : List Net) (fuel now stored : ℕ) (s : Transmitter Net)
      → s.phase ≡ at_keepalive
      → Quiet target (suc fuel) s
      → Gives (λ r. Quiet target fuel r.1) (send_keepalive c p n now stored s)
  unfolding send_keepalive frame
  keepalive-Quiet target fuel now stored s e h =
      let moved = next-Quiet target fuel s at_plan refl (rw e (omega arith)) h in
      Ensures-if (not (n.hold == 0) && leb s.next_keepalive now)
        (λ _. holds (record {
          inv = record { reaches = h.inv.reaches; sendable = h.inv.sendable; idle = inl refl };
          open_channel = h.open_channel;
          seen = h.seen;
          unasked = h.unasked;
          same_target = h.same_target;
          near = moved.near;
        }))
        (λ _. holds moved)

  refresh-Quiet :
      (target : List Net) (fuel now stored : ℕ) (s : Transmitter Net)
      → s.phase ≡ at_refresh
      → Quiet target (suc fuel) s
      → Quiet target fuel (take_refresh c p n now stored s)
  unfolding take_refresh
  refresh-Quiet target fuel now stored s e h =
      let idle : (s.eor == 0 && leb s.next_refresh now && not (s.pending == 0)) ≡ false =
        rw h.unasked (no_and (s.eor == 0 && leb s.next_refresh now)) in
      rw idle (next-Quiet target fuel s at_keepalive refl (rw e (omega arith)) h)

  plan-Quiet :
      (target : List Net) (fuel now stored : ℕ) (s : Transmitter Net)
      → s.phase ≡ at_plan
      → Quiet target (suc fuel) s
      → Gives (λ r. Quiet target fuel r.1) (advance c p n at_plan now stored s)
  unfolding advance
  plan-Quiet target fuel now stored s e h =
      Ensures-weaken
        (send_next-Inv laws c p n inside hops s (next_batch s.plan) refl (next_batch-IsNext s.plan)
          h.inv)
        λ r (inv, writes). record {
          inv = inv;
          open_channel = writes.same_closed ∙ h.open_channel;
          seen = writes.same_unseen ∙ h.seen;
          unasked = writes.same_pending ∙ h.unasked;
          same_target = writes.same_target ∙ h.same_target;
          near = elim writes.shorter [
            | inl waits ↦ rw waits (omega arith)
            | inr (top, less) ↦ rw top (
                let near : 4 * size s.plan + 1 ≤ suc fuel = rw e at h.near in
                omega (arith, less, near))
          ];
        }

  advance-Quiet :
      (target : List Net) (fuel : ℕ) (q : Phase) (now stored : ℕ) (s : Transmitter Net)
      → s.phase ≡ q
      → Quiet target (suc fuel) s
      → Gives (λ r. Quiet target fuel r.1) (advance c p n q now stored s)
  unfolding advance replan
  advance-Quiet target fuel at_top now stored s e h =
      let idle : (s.unseen && leb 100 (now - s.last_replan)) ≡ false = rw h.seen refl in
      let moved = next-Quiet target fuel s at_refresh refl (rw e (omega arith)) h in
      Ensures-bind {R = Quiet target fuel}
        (Ensures-if s.closed (λ closed. absurd (off_on h.open_channel closed))
          λ _. rw idle (holds moved))
        λ s' k. holds k
  advance-Quiet target fuel at_refresh now stored s e h =
      holds (refresh-Quiet target fuel now stored s e h)
  advance-Quiet target fuel at_keepalive now stored s e h =
      keepalive-Quiet target fuel now stored s e h
  advance-Quiet target fuel at_plan now stored s e h = plan-Quiet target fuel now stored s e h
  advance-Quiet target fuel at_wait now stored s e h = holds (record {
    inv = h.inv;
    open_channel = h.open_channel;
    seen = h.seen;
    unasked = h.unasked;
    same_target = h.same_target;
    near = rw e (omega arith);
  })

  alone-Quiet :
      (target : List Net) (times : List (ℕ × ℕ)) (s : Transmitter Net)
      → Quiet target (length times) s
      → Gives (λ r. Quiet target 0 r.1) (run c p n (alone times) s)
  unfolding run step
  alone-Quiet target [] s h = holds h
  alone-Quiet target ((now, stored) ∷ times) s h =
      Ensures-bind (advance-Quiet target (length times) s.phase now stored s refl h)
        λ r k. Ensures-bind (alone-Quiet target times r.1 k) λ r' k'. holds k'

  -- In a session that is internal exactly when the ASNs are equal and whose families have next
  -- hops, from any state that `transmit` reaches with no exports unseen, the channel open and no
  -- refresh pending, and with m prefixes left in the plan, 4 m + 4 steps without another event
  -- succeed and leave the loop waiting, where the peer has exactly the prefixes of the target of
  -- that state whose family is negotiated.
  pub transmit-settles :
      (start_time : ℕ) (exports : List (Str × List Net)) (es : List (Event Net))
      (packets : List (List ℕ)) (s : Transmitter Net) (times : List (ℕ × ℕ)) (x : Net)
      → run c p n es (start c p n start_time exports) ≡ ok (packets, s)
      → s.closed ≡ false
      → s.unseen ≡ false
      → s.pending ≡ 0
      → 4 * size s.plan + 4 ≤ length times
      → (r : List (List ℕ) × Transmitter Net) × (run c p n (alone times) s ≡ ok r)
        × (is_waiting r.1.phase ≡ true)
        × (contains r.1.sent.advertised x ≡ (contains s.target x && enabled n x))
  transmit-settles start_time exports es packets s times x reached opened seen unasked enough =
      let inv =
        Ensures-ok (run-Inv laws c p n inside hops es _ (start-Inv n c p start_time exports))
          reached in
      let (r, gives, quiet) = given (
        alone-Quiet s.target times s (record {
          inv = inv;
          open_channel = opened;
          seen = seen;
          unasked = unasked;
          same_target = refl;
          near = omega (arith, enough, steps_left_bound s.phase (size s.plan));
        })) in
      let waits = all_done r.1.phase (size r.1.plan) quiet.near in
      (
        r,
        gives,
        waits,
        elim quiet.inv.idle [
          | inl busy ↦ absurd (off_on busy waits)
          | inr empty ↦
              empty_goal r.1.plan r.1.sent x empty.0 empty.1
              ∙ quiet.inv.reaches x
              ∙ ap (λ target. contains target x && enabled n x) quiet.same_target
        ],
      )
