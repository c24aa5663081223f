-- ===== src/Bgp/Transmit/Synchronized.antt =====
-- The invariant of `transmit`: what the peer has, corrected by the plan, is what it shall have.
use ubgp.Base.{
  ℕ, suc, ◌≤◌, Error, ◌-◌, ◌≡◌, ◌⊎◌, inl, inr, refl, ◌∙◌, Bool, true, false, not, ◌&&◌, ◌==◌,
  Option, none, some, List, [], ◌∷◌, ◌++◌, contains, Str, ok, ◌>>=◌, Bool-cases, if◌then◌else◌,
  bit_and, leb,
}
use ubgp.Base.Ensures.{
  Ensures, bind_ok, Checks, holds, rejected, Ensures-if, Ensures-bind, Ensures-weaken,
}
use ubgp.Net.IpNet.{IpNet, IpNetLaws, eq_of_net}
use ubgp.Config.{Config, Peer}
use ubgp.Wire.Frame.{frame, read_frame}
use ubgp.Wire.Open.{Negotiated}
use ubgp.Wire.Update.{update, end_of_rib, end_of_rib_body}
use ubgp.Netlink.Filter.{desired}
use ubgp.Bgp.Plan.{Plan, new_plan, next_batch, enabled}
use ubgp.Bgp.Plan.Batch.{IsNext, next_batch-IsNext}
use ubgp.Bgp.Plan.Converges.{goal, goal-step, goal-new_plan, empty_goal, size, size-step}
use ubgp.Bgp.Plan.Sendable.{IsSendable, HasNextHops, new_plan-IsSendable, next_batch-update}
use ubgp.Bgp.Transmit.{
  Phase, at_top, at_refresh, at_keepalive, at_plan, at_wait, Transmitter, Wake, exports_changed,
  notified, refresh_due, keepalive_due, Event, advanced, woken, published, sender_dropped,
  requested, start, retarget, replan, refreshed, take_refresh, send_keepalive, markers, send_next,
  advance, wake, step, run, is_waiting,
}

marker_total :
    {Q : Error → Type 0} (due is_v6 : Bool)
    → Ensures Q (λ r. Unit {0}) (if due then (end_of_rib is_v6 >>= λ m. ok (m ∷ [])) else ok [])
unfolding end_of_rib end_of_rib_body frame
marker_total false is_v6 = holds tt
marker_total true true = holds tt
marker_total true false = holds tt

markers_total : {Q : Error → Type 0} (eor : ℕ) → Ensures Q (λ r. Unit {0}) (markers eor)
unfolding markers
markers_total eor =
    Ensures-bind (marker_total (not (bit_and eor 1 == 0)) false)
      λ first _. Ensures-bind (marker_total (not (bit_and eor 2 == 0)) true) λ second _. holds tt

-- What writing changes: the loop waits, or goes back to the top with a shorter plan.
pub record Writes {Net : Type 0} ⦃ops : IpNet Net⦄ (s s' : Transmitter Net) : Type 0 where
  pub same_closed : s'.closed ≡ s.closed
  pub same_unseen : s'.unseen ≡ s.unseen
  pub same_pending : s'.pending ≡ s.pending
  pub same_target : s'.target ≡ s.target
  pub same_exports : s'.exports ≡ s.exports
  pub shorter : (s'.phase ≡ at_wait) ⊎ ((s'.phase ≡ at_top) × (suc (size s'.plan) ≤ size s.plan))

module _ {Net : Type 0} ⦃ops : IpNet Net⦄ (n : Negotiated) where
  pub record Inv (s : Transmitter Net) : Type 0 where
    pub reaches : (x : Net) → goal s.plan s.sent x ≡ (contains s.target x && enabled n x)
    pub sendable : IsSendable n s.plan
    pub idle : (is_waiting s.phase ≡ false) ⊎ ((s.plan.withdrawals ≡ []) × (s.plan.additions ≡ []))

  -- A new plan establishes the invariant, whatever was sent.
  replanned-Inv :
      (s : Transmitter Net) (target replay : List Net)
      → is_waiting s.phase ≡ false
      → s.target ≡ target
      → s.plan ≡ new_plan s.sent.advertised target n replay
      → Inv s
  replanned-Inv s target replay busy e f = record {
    reaches = λ x. rw (e, f) (goal-new_plan s.sent.advertised target replay n s.sent x refl);
    sendable = rw f (new_plan-IsSendable s.sent.advertised target replay n);
    idle = inl busy;
  }

  pub start-Inv :
      (c : Config Net) (p : Peer) (now : ℕ) (exports : List (Str × List Net))
      → Inv (start c p n now exports)
  unfolding start
  start-Inv c p now exports = replanned-Inv _ (desired exports p.export_acl) [] refl refl refl

module _ {Net : Type 0} ⦃ops : IpNet Net⦄ (c : Config Net) (p : Peer) (n : Negotiated) where
  -- The same under another phase.
  moved-Inv :
      (s : Transmitter Net) (q : Phase)
      → is_waiting q ≡ false
      → Inv n s
      → Inv n (record s { phase = q })
  moved-Inv s q busy h = record { reaches = h.reaches; sendable = h.sendable; idle = inl busy }

  retarget-Inv :
      (stored : ℕ) (s : Transmitter Net) (q : Phase)
      → is_waiting q ≡ false
      → Inv n (record (retarget c p n stored s) { phase = q })
  retarget-Inv stored s q busy = replanned-Inv n _ (desired s.exports p.export_acl) _ busy refl refl

  refreshed-Inv :
      (families stored : ℕ) (s : Transmitter Net) (q : Phase)
      → is_waiting q ≡ false
      → Inv n (record (refreshed c p n families stored s) { phase = q })
  refreshed-Inv families stored s q busy = replanned-Inv n _ s.target _ busy refl refl

  replan-Inv :
      (now stored : ℕ) (s : Transmitter Net) → Inv n s → Checks (Inv n) (replan c p n now stored s)
  unfolding replan
  replan-Inv now stored s h =
      Ensures-if s.closed (λ _. rejected tt)
        λ _.
          Ensures-if (s.unseen && leb 100 (now - s.last_replan))
            (λ _. holds (retarget-Inv stored s at_refresh refl))
            (λ _. holds (moved-Inv s at_refresh refl h))

  take_refresh-Inv :
      (now stored : ℕ) (s : Transmitter Net) → Inv n s → Inv n (take_refresh c p n now stored s)
  unfolding take_refresh
  take_refresh-Inv now stored s h =
      elim (Bool-cases (s.eor == 0 && leb s.next_refresh now && not (s.pending == 0))) [
        | inl due ↦ rw due (refreshed-Inv s.pending stored s at_keepalive refl)
        | inr other ↦ rw other (moved-Inv s at_keepalive refl h)
      ]

  send_keepalive-Inv :
      (now stored : ℕ) (s : Transmitter Net)
      → Inv n s
      → Checks (λ r. Inv n r.1) (send_keepalive c p n now stored s)
  unfolding send_keepalive frame
  send_keepalive-Inv now stored s h =
      Ensures-if (not (n.hold == 0) && leb s.next_keepalive now)
        (λ _. holds (record { reaches = h.reaches; sendable = h.sendable; idle = inl refl }))
        (λ _. holds (moved-Inv s at_plan refl h))

  awake-Inv :
      (s : Transmitter Net) (due : Bool)
      → Inv n s
      → Inv n (if due then record s { phase = at_top } else s)
  awake-Inv s true h = moved-Inv s at_top refl h
  awake-Inv s false h = h

  wake-Inv :
      (cause : Wake) (now : ℕ) (s : Transmitter Net)
      → Inv n s
      → Checks (Inv n) (wake c p n cause now s)
  unfolding wake
  wake-Inv exports_changed now s h =
      Ensures-if s.unseen (λ _. holds (retarget-Inv now s at_top refl))
        λ _. Ensures-if s.closed (λ _. rejected tt) (λ _. holds h)
  wake-Inv notified now s h = holds (moved-Inv s at_top refl h)
  wake-Inv refresh_due now s h = holds (awake-Inv s _ h)
  wake-Inv keepalive_due now s h = holds (awake-Inv s _ h)

module _ {Net : Type 0} ⦃ops : IpNet Net⦄ (laws : IpNetLaws ops) (c : Config Net) (p : Peer)
    (n : Negotiated) (inside : n.internal ≡ (c.asn == p.remote_asn)) (hops : HasNextHops n p) where
  pub send_next-Inv :
      {Q : Error → Type 0} (s : Transmitter Net) (found : Option ((Bool × List Net) × Plan Net))
      → next_batch s.plan ≡ found
      → IsNext s.plan found
      → Inv n s
      → Ensures Q (λ r. Inv n r.1 × Writes s r.1) (send_next c p n s found)
  send_next-Inv s none e b h = Ensures-bind (markers_total s.eor) λ packets _. holds (
    record { reaches = h.reaches; sendable = h.sendable; idle = inr b },
    record {
      same_closed = refl;
      same_unseen = refl;
      same_pending = refl;
      same_target = refl;
      same_exports = refl;
      shorter = inl refl;
    },
  )
  send_next-Inv s (some ((withdraw, batch), plan')) e b h =
      let (left, body, reads, accepted, routes) =
        next_batch-update laws c p n s.plan plan' withdraw batch inside hops h.sendable e in
      let (packet, written_ok) =
        bind_ok (update c p n batch withdraw) (λ packet. read_frame (packet ++ [])) (reads []) in
      rw written_ok (
        holds (
          record {
            reaches = λ x. goal-step s.plan plan' withdraw batch s.sent x b ∙ h.reaches x;
            sendable = left;
            idle = inl refl;
          },
          record {
            same_closed = refl;
            same_unseen = refl;
            same_pending = refl;
            same_target = refl;
            same_exports = refl;
            shorter = inr (refl, size-step s.plan plan' withdraw batch b);
          },
        ))

  advance-Inv :
      (q : Phase) (now stored : ℕ) (s : Transmitter Net)
      → Inv n s
      → Checks (λ r. Inv n r.1) (advance c p n q now stored s)
  unfolding advance
  advance-Inv at_top now stored s h =
      Ensures-bind (replan-Inv c p n now stored s h) λ s' h'. holds h'
  advance-Inv at_refresh now stored s h = holds (take_refresh-Inv c p n now stored s h)
  advance-Inv at_keepalive now stored s h = send_keepalive-Inv c p n now stored s h
  advance-Inv at_plan now stored s h =
      Ensures-weaken (send_next-Inv s (next_batch s.plan) refl (next_batch-IsNext s.plan) h)
        λ r k. k.0
  advance-Inv at_wait now stored s h = holds h

  pub step-Inv :
      (e : Event Net) (s : Transmitter Net) → Inv n s → Checks (λ r. Inv n r.1) (step c p n e s)
  unfolding step
  step-Inv (advanced now stored) s h = advance-Inv s.phase now stored s h
  step-Inv (woken cause now) s h =
      Ensures-if (is_waiting s.phase)
        (λ _. Ensures-bind (wake-Inv c p n cause now s h) λ s' h'. holds h') (λ _. holds h)
  step-Inv (published exports) s h =
      holds (record { reaches = h.reaches; sendable = h.sendable; idle = h.idle })
  step-Inv sender_dropped s h =
      holds (record { reaches = h.reaches; sendable = h.sendable; idle = h.idle })
  step-Inv (requested is_v6) s h =
      holds (record { reaches = h.reaches; sendable = h.sendable; idle = h.idle })

  -- From a state that satisfies the invariant, whatever else happens in between, `transmit` does
  -- not panic and keeps the invariant.
  pub run-Inv :
      (es : List (Event Net)) (s : Transmitter Net)
      → Inv n s
      → Checks (λ r. Inv n r.1) (run c p n es s)
  unfolding run
  run-Inv [] s h = holds h
  run-Inv (e ∷ es) s h =
      Ensures-bind (step-Inv e s h) λ r h'. Ensures-bind (run-Inv es r.1 h') λ r' h''. holds h''

  -- In a session that is internal exactly when the ASNs are equal and whose families have next
  -- hops, `transmit` does not panic, whatever is published, requested and read from the clock in
  -- whatever order. When it waits, the peer has exactly the prefixes of the target whose family is
  -- negotiated.
  pub transmit-synchronized :
      (now : ℕ) (exports : List (Str × List Net)) (es : List (Event Net)) (x : Net)
      → Checks
          (λ r.
            (is_waiting r.1.phase ≡ false)
            ⊎ (contains r.1.sent.advertised x ≡ (contains r.1.target x && enabled n x)))
          (run c p n es (start c p n now exports))
  transmit-synchronized now exports es x =
      Ensures-weaken (run-Inv es (start c p n now exports) (start-Inv n c p now exports)) (λ r h.
        elim h.idle [
          | inl busy ↦ inl busy
          | inr empty ↦ inr (empty_goal r.1.plan r.1.sent x empty.0 empty.1 ∙ h.reaches x)
        ])
