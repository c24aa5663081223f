-- ===== src/Bgp/Table/Follows.antt =====
-- The table of the peer follows `transmit`.
use ubgp.Base.{
  ℕ, ◌-◌, ◌≡◌, ◌⊎◌, contains, refl, sym, ap, ◌∙◌, Bool, true, false, not, ◌&&◌, ◌==◌, Option, none,
  some, List, [], ◌∷◌, Str, All, leb, if◌then◌else◌, Bool-cases, inl, inr, ok,
}
use ubgp.Base.Ensures.{
  Checks, holds, rejected, Ensures-if, Ensures-bind, Ensures-both, Ensures-weaken,
}
use ubgp.Net.IpNet.{IpNet, IpNetLaws, eq_of_net}
use ubgp.Config.{Config, Peer}
use ubgp.Wire.Open.{Negotiated}
use ubgp.Wire.Update.{update}
use ubgp.Netlink.Filter.{desired}
use ubgp.Bgp.Plan.{Plan, enabled, next_batch}
use ubgp.Bgp.Plan.Batch.{IsNext, next_batch-IsNext}
use ubgp.Bgp.Plan.Sendable.{HasNextHops, next_batch-update}
use ubgp.Bgp.Transmit.{
  Phase, at_top, at_refresh, at_keepalive, at_plan, at_wait, is_waiting, Transmitter, Wake,
  exports_changed, notified, refresh_due, keepalive_due, Event, advanced, woken, published,
  sender_dropped, requested, start, retarget, refreshed, replan, take_refresh, send_keepalive,
  send_next, advance, wake, step, run,
}
use ubgp.Bgp.Transmit.Synchronized.{Inv, start-Inv, step-Inv, transmit-synchronized}
use ubgp.Bgp.Table.{read_all}
use ubgp.Bgp.Table.Packets.{
  read_back, read_packet-update, read_all-append, keepalive-read, read_one, markers-AreMarkers,
}
use ubgp.Bgp.Table.Trunc.{
  AreTrunc, AreTruncExports, IsTruncEvent, IsTruncPlan, desired-AreTrunc, new_plan-AreTrunc,
  batch-AreTrunc, written-AreTrunc, read-written,
}

module _ {Net : Type 0} ⦃ops : IpNet Net⦄ (n : Negotiated) where
  -- Nothing has host bits.
  pub record Follows (s : Transmitter Net) : Type 0 where
    pub exports_trunc : AreTruncExports s.exports
    pub target_trunc : AreTrunc s.target
    pub sent_trunc : AreTrunc s.sent.advertised
    pub plan_trunc : IsTruncPlan s.plan

  Follows-of :
      (s : Transmitter Net)
      → AreTruncExports s.exports
      → AreTrunc s.target
      → AreTrunc s.sent.advertised
      → IsTruncPlan s.plan
      → Follows s
  Follows-of s exports target sent plan = record {
    exports_trunc = exports;
    target_trunc = target;
    sent_trunc = sent;
    plan_trunc = plan;
  }

  -- What is written says what changes.
  pub record Told (s : Transmitter Net) (r : List (List ℕ) × Transmitter Net) : Type 0 where
    pub follows : Follows r.1
    pub told : read_all n r.0 s.sent.advertised ≡ ok r.1.sent.advertised

  -- A step that writes nothing and leaves the table alone.
  silent :
      (s s' : Transmitter Net)
      → Follows s'
      → s.sent.advertised ≡ s'.sent.advertised
      → Told s ([], s')
  unfolding read_all
  silent s s' h e = record { follows = h; told = ap ok e }

module _ {Net : Type 0} ⦃ops : IpNet Net⦄ (c : Config Net) (p : Peer) (n : Negotiated) where
  retarget-Follows :
      (stored : ℕ) (s : Transmitter Net) (q : Phase)
      → Follows n s
      → Follows n (record (retarget c p n stored s) { phase = q })
  retarget-Follows stored s q h =
      let target = desired-AreTrunc s.exports p.export_acl h.exports_trunc in
      Follows-of n _ h.exports_trunc target h.sent_trunc
        (new_plan-AreTrunc s.sent.advertised _ _ n h.sent_trunc target)

  moved-Follows :
      (s : Transmitter Net) (q : Phase) → Follows n s → Follows n (record s { phase = q })
  moved-Follows s q h = Follows-of n _ h.exports_trunc h.target_trunc h.sent_trunc h.plan_trunc

  replan-Told :
      (now stored : ℕ) (s : Transmitter Net)
      → Follows n s
      → Checks (λ s'. Told n s ([], s')) (replan c p n now stored s)
  unfolding replan
  replan-Told now stored s h =
      Ensures-if s.closed (λ _. rejected tt)
        λ _.
          Ensures-if (s.unseen && leb 100 (now - s.last_replan))
            (λ _. holds (silent n s _ (retarget-Follows stored s at_refresh h) refl))
            (λ _. holds (silent n s _ (moved-Follows s at_refresh h) refl))

  refreshed-Follows :
      (families stored : ℕ) (s : Transmitter Net) (q : Phase)
      → Follows n s
      → Follows n (record (refreshed c p n families stored s) { phase = q })
  refreshed-Follows families stored s q h =
      Follows-of n _ h.exports_trunc h.target_trunc h.sent_trunc
        (new_plan-AreTrunc s.sent.advertised s.target _ n h.sent_trunc h.target_trunc)

  take_refresh-Told :
      (now stored : ℕ) (s : Transmitter Net)
      → Follows n s
      → Told n s ([], take_refresh c p n now stored s)
  unfolding take_refresh
  take_refresh-Told now stored s h =
      elim (Bool-cases (s.eor == 0 && leb s.next_refresh now && not (s.pending == 0))) [
        | inl due ↦ rw due (silent n s _ (refreshed-Follows s.pending stored s at_keepalive h) refl)
        | inr other ↦ rw other (silent n s _ (moved-Follows s at_keepalive h) refl)
      ]

  send_keepalive-Told :
      (now stored : ℕ) (s : Transmitter Net)
      → Follows n s
      → Checks (Told n s) (send_keepalive c p n now stored s)
  unfolding send_keepalive
  send_keepalive-Told now stored s h =
      let (packet, e, read) = keepalive-read n in
      Ensures-if (not (n.hold == 0) && leb s.next_keepalive now)
        (λ _. rw e (
          holds (record {
            follows = Follows-of n _ h.exports_trunc h.target_trunc h.sent_trunc h.plan_trunc;
            told = read_one n packet s.sent.advertised (read s.sent.advertised);
          })))
        (λ _. holds (silent n s _ (moved-Follows s at_plan h) refl))

  awake-Follows :
      (s : Transmitter Net) (due : Bool)
      → Follows n s
      → Told n s ([], if due then record s { phase = at_top } else s)
  awake-Follows s true h = silent n s _ (moved-Follows s at_top h) refl
  awake-Follows s false h = silent n s s h refl

  wake-Told :
      (cause : Wake) (now : ℕ) (s : Transmitter Net)
      → Follows n s
      → Checks (λ s'. Told n s ([], s')) (wake c p n cause now s)
  unfolding wake
  wake-Told exports_changed now s h =
      Ensures-if s.unseen (λ _. holds (silent n s _ (retarget-Follows now s at_top h) refl))
        λ _. Ensures-if s.closed (λ _. rejected tt) (λ _. holds (silent n s s h refl))
  wake-Told notified now s h = holds (silent n s _ (moved-Follows s at_top h) refl)
  wake-Told refresh_due now s h = holds (awake-Follows s _ h)
  wake-Told keepalive_due now s h = holds (awake-Follows s _ h)

module _ {Net : Type 0} ⦃ops : IpNet Net⦄ (laws : IpNetLaws ops) (c : Config Net) (p : Peer)
    (n : Negotiated) where
  module _ (inside : n.internal ≡ (c.asn == p.remote_asn)) (hops : HasNextHops n p) where
    send_next-Told :
        (s : Transmitter Net) (found : Option ((Bool × List Net) × Plan Net))
        → next_batch s.plan ≡ found
        → IsNext s.plan found
        → Inv n s
        → Follows n s
        → Checks (Told n s) (send_next c p n s found)
    send_next-Told s none e b inv h =
        Ensures-bind (markers-AreMarkers laws c p n s.eor) λ packets read. holds (record {
          follows = Follows-of n _ h.exports_trunc h.target_trunc h.sent_trunc h.plan_trunc;
          told = read s.sent.advertised;
        })
    send_next-Told s (some ((withdraw, batch), plan')) e b inv h =
        let (left, body, reads, accepted, routes) =
          next_batch-update laws c p n s.plan plan' withdraw batch inside hops inv.sendable e in
        let (packet, made, framed) = read_back (update c p n batch withdraw) (reads []) in
        let (batch_trunc, rest_trunc) = batch-AreTrunc s.plan plan' withdraw batch b h.plan_trunc in
        rw made (
          holds (record {
            follows =
                Follows-of n _ h.exports_trunc h.target_trunc
                  (written-AreTrunc withdraw batch s.sent batch_trunc h.sent_trunc) rest_trunc;
            told = read_one n packet s.sent.advertised (
                read_packet-update n packet body s.sent.advertised framed accepted routes
                ∙ ap ok (read-written withdraw batch s.sent batch_trunc));
          }))

    advance-Told :
        (q : Phase) (now stored : ℕ) (s : Transmitter Net)
        → Inv n s
        → Follows n s
        → Checks (Told n s) (advance c p n q now stored s)
    unfolding advance
    advance-Told at_top now stored s inv h =
        Ensures-bind (replan-Told c p n now stored s h) λ s' told. holds told
    advance-Told at_refresh now stored s inv h = holds (take_refresh-Told c p n now stored s h)
    advance-Told at_keepalive now stored s inv h = send_keepalive-Told c p n now stored s h
    advance-Told at_plan now stored s inv h =
        send_next-Told s (next_batch s.plan) refl (next_batch-IsNext s.plan) inv h
    advance-Told at_wait now stored s inv h = holds (silent n s s h refl)

    step-Told :
        (e : Event Net) (s : Transmitter Net)
        → Inv n s
        → Follows n s
        → IsTruncEvent e
        → Checks (Told n s) (step c p n e s)
    unfolding step
    step-Told (advanced now stored) s inv h u = advance-Told s.phase now stored s inv h
    step-Told (woken cause now) s inv h u =
        Ensures-if (is_waiting s.phase)
          (λ _. Ensures-bind (wake-Told c p n cause now s h) λ s' told. holds told)
          (λ _. holds (silent n s s h refl))
    step-Told (published exports) s inv h new =
        holds (silent n s _ (Follows-of n _ new h.target_trunc h.sent_trunc h.plan_trunc) refl)
    step-Told sender_dropped s inv h u = holds (
        silent n s _ (Follows-of n _ h.exports_trunc h.target_trunc h.sent_trunc h.plan_trunc) refl)
    step-Told (requested is_v6) s inv h u = holds (
        silent n s _ (Follows-of n _ h.exports_trunc h.target_trunc h.sent_trunc h.plan_trunc) refl)

    run-Told :
        (es : List (Event Net)) (s : Transmitter Net)
        → Inv n s
        → Follows n s
        → All IsTruncEvent es
        → Checks (Told n s) (run c p n es s)
    unfolding run
    run-Told [] s inv h u = holds (silent n s s h refl)
    run-Told (e ∷ es) s inv h (new, later) =
        Ensures-bind
          (Ensures-both (step-Inv laws c p n inside hops e s inv) (step-Told e s inv h new))
          λ r (inv', told). Ensures-bind (run-Told es r.1 inv' told.follows later) λ r' told'.
            holds (record {
              follows = told'.follows;
              told = read_all-append n r.0 r'.0 s.sent.advertised told.told ∙ told'.told;
            })

    start-Follows :
        (now : ℕ) (exports : List (Str × List Net))
        → AreTruncExports exports
        → Follows n (start c p n now exports)
    unfolding start
    start-Follows now exports h =
        let target = desired-AreTrunc exports p.export_acl h in
        Follows-of n _ h target tt
          (new_plan-AreTrunc [] (desired exports p.export_acl) [] n tt target)

    start-empty :
        (now : ℕ) (exports : List (Str × List Net)) → (start c p n now exports).sent.advertised ≡ []
    unfolding start
    start-empty now exports = refl

    -- In a session that is internal exactly when the ASNs are equal and whose families have next
    -- hops, and with exports whose prefixes have no host bits, `transmit` does not panic, whatever
    -- is published, requested and read from the clock in whatever order. A peer that starts with an
    -- empty table can read each packet that it has written, finds each UPDATE valid, and has exactly
    -- what `transmit` takes for advertised; whenever `transmit` waits, that is the prefixes of the
    -- target whose family is negotiated.
    pub transmit-table :
        (now : ℕ) (exports : List (Str × List Net)) (es : List (Event Net)) (x : Net)
        → AreTruncExports exports
        → All IsTruncEvent es
        → Checks
            (λ r.
              (table : List Net) × (read_all n r.0 [] ≡ ok table)
              × (table ≡ r.1.sent.advertised)
              × ((is_waiting r.1.phase ≡ false)
                  ⊎ (contains table x ≡ (contains r.1.target x && enabled n x))))
            (run c p n es (start c p n now exports))
    transmit-table now exports es x h new =
        Ensures-weaken
          (Ensures-both
            (run-Told es (start c p n now exports) (start-Inv n c p now exports)
              (start-Follows now exports h) new)
            (transmit-synchronized laws c p n inside hops now exports es x))
          λ r (told, waits). (
            r.1.sent.advertised,
            ap (read_all n r.0) (sym (start-empty now exports)) ∙ told.told,
            refl,
            waits,
          )
