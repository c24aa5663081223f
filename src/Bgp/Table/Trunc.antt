-- ===== src/Bgp/Table/Trunc.antt =====
-- Prefixes without host bits stay so in the sets and plans of `transmit`.
use ubgp.Base.{
  ◌≡◌, refl, sym, subst, Bool, true, false, not, List, [], ◌∷◌, map, Str, All, All-append, contains,
  Bool-cases, inl, inr, same, if◌then◌else◌, str_eq,
}
use ubgp.Base.Sets.{filter, insert, remove}
use ubgp.Net.IpNet.{IpNet, eq_of_net}
use ubgp.Wire.Open.{Negotiated}
use ubgp.Netlink.Filter.{desired}
use ubgp.Netlink.Filter.Held.{desired-All}
use ubgp.Bgp.Plan.{by_family, Plan, Sent, new_plan, written}
use ubgp.Bgp.Plan.Batch.{IsBatch}
use ubgp.Bgp.Plan.Sendable.{All-filter_keeps, All-parts}
use ubgp.Bgp.Transmit.{Event, advanced, woken, published, sender_dropped, requested}
use ubgp.Bgp.Table.{remove_all, insert_all}

module _ {Net : Type 0} ⦃ops : IpNet Net⦄ where
  open ops use {trunc}

  -- No host bits.
  abbrev pub AreTrunc : List Net → Type 0
  AreTrunc ps = All (λ p. trunc p ≡ p) ps

  abbrev pub AreTruncExports : List (Str × List Net) → Type 0
  AreTruncExports exports = All (λ e. AreTrunc e.1) exports

  map-trunc : (ps : List Net) → AreTrunc ps → map trunc ps ≡ ps
  map-trunc [] h = refl
  map-trunc (p ∷ ps) (e, h) = rw (e, map-trunc ps h)

  pub desired-AreTrunc :
      (exports : List (Str × List Net)) (acl : Str)
      → AreTruncExports exports
      → AreTrunc (desired exports acl)
  desired-AreTrunc exports acl h = desired-All (λ p. trunc p ≡ p) exports acl h

  filter-AreTrunc : (f : Net → Bool) (ps : List Net) → AreTrunc ps → AreTrunc (filter f ps)
  filter-AreTrunc f ps h = All-filter_keeps (λ p. trunc p ≡ p) f ps h

  by_family-AreTrunc : (ps : List Net) → AreTrunc ps → AreTrunc (by_family ps)
  by_family-AreTrunc ps h =
      All-append (λ p. trunc p ≡ p) _ _ (filter-AreTrunc _ ps h) (filter-AreTrunc _ ps h)

  pub new_plan-AreTrunc :
      (advertised target replay : List Net) (n : Negotiated)
      → AreTrunc advertised
      → AreTrunc target
      → let plan = new_plan advertised target n replay in
        AreTrunc plan.withdrawals × AreTrunc plan.additions
  unfolding new_plan
  new_plan-AreTrunc advertised target replay n ha ht = (
    by_family-AreTrunc _ (filter-AreTrunc _ advertised ha),
    by_family-AreTrunc _ (filter-AreTrunc _ target ht),
  )

  remove-AreTrunc : (p : Net) (ps : List Net) → AreTrunc ps → AreTrunc (remove p ps)
  remove-AreTrunc p ps h = filter-AreTrunc (λ q. not (same p q)) ps h

  insert-AreTrunc : (p : Net) (ps : List Net) → trunc p ≡ p → AreTrunc ps → AreTrunc (insert p ps)
  insert-AreTrunc p ps e h = elim (Bool-cases (contains ps p)) [
    | inl held ↦ rw held h
    | inr new ↦ rw new (e, h)
  ]

  -- What is advertised when a batch is written is what the table of the peer is then.
  written-withdrawn :
      (batch : List Net) (s : Sent Net)
      → remove_all batch s.advertised ≡ (written true batch s).advertised
  written-withdrawn [] s = refl
  written-withdrawn (p ∷ ps) s = written-withdrawn ps _

  written-announced :
      (batch : List Net) (s : Sent Net)
      → insert_all batch s.advertised ≡ (written false batch s).advertised
  written-announced [] s = refl
  written-announced (p ∷ ps) s = written-announced ps _

  pub written-AreTrunc :
      (withdraw : Bool) (batch : List Net) (s : Sent Net)
      → AreTrunc batch
      → AreTrunc s.advertised
      → AreTrunc (written withdraw batch s).advertised
  written-AreTrunc withdraw [] s hb h = h
  written-AreTrunc true (p ∷ ps) s (e, hb) h =
      written-AreTrunc true ps _ hb (remove-AreTrunc p s.advertised h)
  written-AreTrunc false (p ∷ ps) s (e, hb) h =
      written-AreTrunc false ps _ hb (insert-AreTrunc p s.advertised e h)

  abbrev pub IsTruncPlan : Plan Net → Type 0
  IsTruncPlan plan = AreTrunc plan.withdrawals × AreTrunc plan.additions

  -- A batch and what it leaves.
  pub batch-AreTrunc :
      (plan plan' : Plan Net) (withdraw : Bool) (batch : List Net)
      → IsBatch plan withdraw batch plan'
      → IsTruncPlan plan
      → AreTrunc batch × IsTruncPlan plan'
  batch-AreTrunc plan plan' true batch b (hw, ha) =
      let (taken, left) =
        All-parts (λ p. trunc p ≡ p) batch plan'.withdrawals (subst AreTrunc b.taken hw) in
      (taken, (left, subst AreTrunc (sym b.kept) ha))
  batch-AreTrunc plan plan' false batch b (hw, ha) =
      let (taken, left) =
        All-parts (λ p. trunc p ≡ p) batch plan'.additions (subst AreTrunc b.taken ha) in
      (taken, (subst AreTrunc (sym b.kept) hw, left))

  -- The routes that a peer reads from a batch, put into its table.
  pub read-written :
      (withdraw : Bool) (batch : List Net) (s : Sent Net)
      → AreTrunc batch
      → insert_all
          (if withdraw then [] else map trunc batch)
          (remove_all (if withdraw then map trunc batch else []) s.advertised)
        ≡ (written withdraw batch s).advertised
  read-written true batch s h = rw (map-trunc batch h) (written-withdrawn batch s)
  read-written false batch s h = rw (map-trunc batch h) (written-announced batch s)

  -- The exports that come have no host bits.
  abbrev pub IsTruncEvent : Event Net → Type 0
  IsTruncEvent (published exports) = AreTruncExports exports
  IsTruncEvent (advanced now stored) = Unit
  IsTruncEvent (woken cause now) = Unit
  IsTruncEvent sender_dropped = Unit
  IsTruncEvent (requested is_v6) = Unit
