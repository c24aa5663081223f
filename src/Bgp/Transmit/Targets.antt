-- ===== src/Bgp/Transmit/Targets.antt =====
-- The target of `transmit` is that of the exports it has seen.
use ubgp.Base.{
  ℕ, ◌-◌, ◌≡◌, ◌⊎◌, inl, inr, refl, sym, ap, ◌∙◌, subst, Bool, true, false, not, ◌&&◌, ◌==◌, List,
  [], ◌∷◌, Str, All, leb, if◌then◌else◌, Bool-cases,
}
use ubgp.Base.Ensures.{
  Checks, holds, rejected, Ensures-if, Ensures-bind, Ensures-both, Ensures-weaken,
}
use ubgp.Net.IpNet.{IpNet, IpNetLaws, eq_of_net}
use ubgp.Config.{Config, Peer}
use ubgp.Wire.Frame.{frame}
use ubgp.Wire.Open.{Negotiated}
use ubgp.Netlink.Filter.{desired}
use ubgp.Bgp.Plan.{next_batch}
use ubgp.Bgp.Plan.Batch.{next_batch-IsNext}
use ubgp.Bgp.Plan.Sendable.{HasNextHops}
use ubgp.Bgp.Transmit.{
  Phase, at_top, at_refresh, at_keepalive, at_plan, at_wait, is_waiting, Transmitter, Wake,
  exports_changed, notified, refresh_due, keepalive_due, Event, advanced, woken, published,
  sender_dropped, requested, start, replan, take_refresh, send_keepalive, advance, wake, step, run,
}
use ubgp.Bgp.Transmit.Synchronized.{Inv, start-Inv, step-Inv, send_next-Inv}

module _ {Net : Type 0} ⦃ops : IpNet Net⦄ (c : Config Net) (p : Peer) (n : Negotiated)
    (P : List (Str × List Net) → Type 0) where
  -- The exports have the property, and are those of the target once they are seen.
  pub record Targets (s : Transmitter Net) : Type 0 where
    pub proper : P s.exports
    pub aimed : (s.unseen ≡ true) ⊎ (s.target ≡ desired s.exports p.export_acl)

  replan-Targets :
      (now stored : ℕ) (s : Transmitter Net)
      → Targets s
      → Checks Targets (replan c p n now stored s)
  unfolding replan
  replan-Targets now stored s h =
      Ensures-if s.closed (λ _. rejected tt)
        λ _.
          Ensures-if (s.unseen && leb 100 (now - s.last_replan))
            (λ _. holds (record { proper = h.proper; aimed = inr refl }))
            (λ _. holds (record { proper = h.proper; aimed = h.aimed }))

  take_refresh-Targets :
      (now stored : ℕ) (s : Transmitter Net) → Targets s → Targets (take_refresh c p n now stored s)
  unfolding take_refresh
  take_refresh-Targets now stored s h =
      elim (Bool-cases (s.eor == 0 && leb s.next_refresh now && not (s.pending == 0))) [
        | inl due ↦ rw due (record { proper = h.proper; aimed = h.aimed })
        | inr other ↦ rw other (record { proper = h.proper; aimed = h.aimed })
      ]

  send_keepalive-Targets :
      (now stored : ℕ) (s : Transmitter Net)
      → Targets s
      → Checks (λ r. Targets r.1) (send_keepalive c p n now stored s)
  unfolding send_keepalive frame
  send_keepalive-Targets now stored s h =
      Ensures-if (not (n.hold == 0) && leb s.next_keepalive now)
        (λ _. holds (record { proper = h.proper; aimed = h.aimed }))
        (λ _. holds (record { proper = h.proper; aimed = h.aimed }))

  awake-Targets :
      (s : Transmitter Net) (due : Bool)
      → Targets s
      → Targets (if due then record s { phase = at_top } else s)
  awake-Targets s true h = record { proper = h.proper; aimed = h.aimed }
  awake-Targets s false h = h

  wake-Targets :
      (cause : Wake) (now : ℕ) (s : Transmitter Net)
      → Targets s
      → Checks Targets (wake c p n cause now s)
  unfolding wake
  wake-Targets exports_changed now s h =
      Ensures-if s.unseen (λ _. holds (record { proper = h.proper; aimed = inr refl }))
        λ _. Ensures-if s.closed (λ _. rejected tt) (λ _. holds h)
  wake-Targets notified now s h = holds (record { proper = h.proper; aimed = h.aimed })
  wake-Targets refresh_due now s h = holds (awake-Targets s _ h)
  wake-Targets keepalive_due now s h = holds (awake-Targets s _ h)

  -- The exports that come have the property.
  abbrev pub IsProper : Event Net → Type 0
  IsProper (published exports) = P exports
  IsProper (advanced now stored) = Unit
  IsProper (woken cause now) = Unit
  IsProper sender_dropped = Unit
  IsProper (requested is_v6) = Unit

module _ {Net : Type 0} ⦃ops : IpNet Net⦄ (laws : IpNetLaws ops) (c : Config Net) (p : Peer)
    (n : Negotiated) (inside : n.internal ≡ (c.asn == p.remote_asn)) (hops : HasNextHops n p)
    (P : List (Str × List Net) → Type 0) where
  advance-Targets :
      (q : Phase) (now stored : ℕ) (s : Transmitter Net)
      → Inv n s
      → Targets c p n P s
      → Checks (λ r. Targets c p n P r.1) (advance c p n q now stored s)
  unfolding advance
  advance-Targets at_top now stored s inv h =
      Ensures-bind (replan-Targets c p n P now stored s h) λ s' h'. holds h'
  advance-Targets at_refresh now stored s inv h =
      holds (take_refresh-Targets c p n P now stored s h)
  advance-Targets at_keepalive now stored s inv h = send_keepalive-Targets c p n P now stored s h
  advance-Targets at_plan now stored s inv h =
      Ensures-weaken
        (send_next-Inv laws c p n inside hops s (next_batch s.plan) refl (next_batch-IsNext s.plan)
          inv)
        λ r (inv', w). record {
          proper = subst P (sym w.same_exports) h.proper;
          aimed = elim h.aimed [
            | inl unseen ↦ inl (w.same_unseen ∙ unseen)
            | inr target ↦ inr (
                w.same_target
                ∙ target
                ∙ ap (λ exports. desired exports p.export_acl) (sym w.same_exports))
          ];
        }
  advance-Targets at_wait now stored s inv h = holds h

  step-Targets :
      (e : Event Net) (s : Transmitter Net)
      → Inv n s
      → Targets c p n P s
      → IsProper c p n P e
      → Checks (λ r. Targets c p n P r.1) (step c p n e s)
  unfolding step
  step-Targets (advanced now stored) s inv h u = advance-Targets s.phase now stored s inv h
  step-Targets (woken cause now) s inv h u =
      Ensures-if (is_waiting s.phase)
        (λ _. Ensures-bind (wake-Targets c p n P cause now s h) λ s' h'. holds h') (λ _. holds h)
  step-Targets (published exports) s inv h new = holds (record { proper = new; aimed = inl refl })
  step-Targets sender_dropped s inv h u = holds (record { proper = h.proper; aimed = h.aimed })
  step-Targets (requested is_v6) s inv h u = holds (record { proper = h.proper; aimed = h.aimed })

  run-Targets :
      (es : List (Event Net)) (s : Transmitter Net)
      → Inv n s
      → Targets c p n P s
      → All (IsProper c p n P) es
      → Checks (λ r. Targets c p n P r.1) (run c p n es s)
  unfolding run
  run-Targets [] s inv h u = holds h
  run-Targets (e ∷ es) s inv h (new, later) =
      Ensures-bind
        (Ensures-both (step-Inv laws c p n inside hops e s inv) (step-Targets e s inv h new))
        λ r (inv', h'). Ensures-bind (run-Targets es r.1 inv' h' later) λ r' h''. holds h''

  -- From the start on, the exports have what they all have that are published, and their target is
  -- the target of `transmit` unless it has not seen them.
  pub start-run-Targets :
      (now : ℕ) (exports : List (Str × List Net)) (es : List (Event Net))
      → P exports
      → All (IsProper c p n P) es
      → Checks (λ r. Targets c p n P r.1) (run c p n es (start c p n now exports))
  unfolding start
  start-run-Targets now exports es first new =
      run-Targets es _ (start-Inv n c p now exports) (record { proper = first; aimed = inr refl })
        new
