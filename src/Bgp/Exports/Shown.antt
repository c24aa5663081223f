-- ===== src/Bgp/Exports/Shown.antt =====
-- The whole way, from what the kernel side publishes to the table of a peer that reads the packets.
use ubgp.Base.{
  ℕ, ◌≡◌, ◌⊎◌, inl, inr, refl, sym, ap, ◌∙◌, subst, true, false, ◌&&◌, ◌==◌, some, List, [], ◌∷◌,
  ◌++◌, Str, All, contains, ok,
}
use ubgp.Base.Ensures.{Checks, Ensures-both, Ensures-weaken}
use ubgp.Net.IpNet.{IpNet, IpNetLaws, eq_of_net}
use ubgp.Config.{Acl, Config, Peer, find_acl}
use ubgp.Config.Permits.{permits}
use ubgp.Config.Validate.{validate}
use ubgp.Netlink.Filter.{desired, filter_exports}
use ubgp.Netlink.Filter.Held.{desired-nothing, filter_exports-All}
use ubgp.Netlink.Snapshot.Bounded.{InBounds}
use ubgp.Netlink.Reconcile.Publishes.{IsExport}
use ubgp.Wire.Open.{Negotiated}
use ubgp.Bgp.Exports.{exports-offered}
use ubgp.Bgp.Plan.{enabled}
use ubgp.Bgp.Plan.Sendable.{HasNextHops}
use ubgp.Bgp.Transmit.{
  Event, advanced, woken, published, sender_dropped, requested, is_waiting, start, run,
}
use ubgp.Bgp.Transmit.Targets.{IsProper, start-run-Targets}
use ubgp.Bgp.Table.{read_all}
use ubgp.Bgp.Table.Trunc.{AreTruncExports, IsTruncEvent}
use ubgp.Bgp.Table.Follows.{transmit-table}

module _ {Net : Type 0} ⦃ops : IpNet Net⦄ (c : Config Net) (p : Peer) (n : Negotiated)
    (x : Net) where
  -- The table has the prefix if the ACL of the peer permits it in the snapshot of the exports and
  -- its family is negotiated.
  pub record IsFrom (prefixes table : List Net) : Type 0 where
    pub bounds : InBounds c prefixes
    pub acl : Acl Net
    pub named : find_acl p.export_acl c.acls ≡ some acl
    pub shown : contains table x ≡ (contains prefixes x && permits acl x && enabled n x)

  abbrev pub Shows : List (Str × List Net) → List Net → Type 0
  Shows exports table =
      (exports ≡ []) × (contains table x ≡ false)
      ⊎ ((prefixes : List Net) × (filter_exports c prefixes ≡ ok exports) × IsFrom prefixes table)

module _ {Net : Type 0} ⦃ops : IpNet Net⦄ (c : Config Net) where
  IsExport-AreTrunc :
      (exports : List (Str × List Net)) → IsExport c exports → AreTruncExports exports
  IsExport-AreTrunc exports (inl none_of_it) = subst AreTruncExports (sym none_of_it) tt
  IsExport-AreTrunc exports (inr (prefixes, bounds, e)) =
      filter_exports-All (λ q. ops.trunc q ≡ q) c prefixes bounds.2 exports e

  -- What the exports show is what their target shows.
  target-Shows :
      (front behind : List Peer) (p : Peer) (n : Negotiated) (x : Net)
      (exports : List (Str × List Net)) (table : List Net)
      → validate c ≡ ok tt
      → c.peers ≡ front ++ (p ∷ behind)
      → IsExport c exports
      → contains table x ≡ (contains (desired exports p.export_acl) x && enabled n x)
      → Shows c p n x exports table
  target-Shows front behind p n x exports table valid peers (inl nothing) e =
      inl (nothing, e ∙ rw (nothing, desired-nothing {Net = Net} p.export_acl) refl)
  target-Shows front behind p n x exports table valid peers (inr (prefixes, bounds, filtered)) e =
      let (acl, named, permitted) =
        exports-offered c front behind p prefixes exports valid peers filtered in
      inr (
        prefixes,
        filtered,
        record {
          bounds = bounds;
          acl = acl;
          named = named;
          shown = e ∙ ap (λ b. b && enabled n x) (permitted x);
        },
      )

  IsProper-IsTrunc :
      (p : Peer) (n : Negotiated) (es : List (Event Net))
      → All (IsProper c p n (IsExport c)) es
      → All IsTruncEvent es
  IsProper-IsTrunc p n [] h = tt
  IsProper-IsTrunc p n (published exports ∷ es) (new, h) =
      (IsExport-AreTrunc exports new, IsProper-IsTrunc p n es h)
  IsProper-IsTrunc p n (advanced now stored ∷ es) (u, h) = (tt, IsProper-IsTrunc p n es h)
  IsProper-IsTrunc p n (woken cause now ∷ es) (u, h) = (tt, IsProper-IsTrunc p n es h)
  IsProper-IsTrunc p n (sender_dropped ∷ es) (u, h) = (tt, IsProper-IsTrunc p n es h)
  IsProper-IsTrunc p n (requested is_v6 ∷ es) (u, h) = (tt, IsProper-IsTrunc p n es h)

module _ {Net : Type 0} ⦃ops : IpNet Net⦄ (laws : IpNetLaws ops) (c : Config Net)
    (front : List Peer) (p : Peer) (behind : List Peer) (n : Negotiated) where
  -- When `validate` has accepted the configuration, in a session of one of its peers that is
  -- internal exactly when the ASNs are equal and whose families have next hops, and when nothing is
  -- published but what the kernel side may publish: `transmit` does not panic, whatever else
  -- happens in whatever order, and a peer that reads the packets that it has written has a table.
  -- Whenever `transmit` waits and has seen the exports, the table has no prefix if these are empty,
  -- and otherwise exactly the prefixes of a snapshot in its bounds, of which these are the exports,
  -- that the ACL of the peer permits and whose family is negotiated.
  pub published-Shows :
      (now : ℕ) (exports : List (Str × List Net)) (es : List (Event Net)) (x : Net)
      → validate c ≡ ok tt
      → c.peers ≡ front ++ (p ∷ behind)
      → n.internal ≡ (c.asn == p.remote_asn)
      → HasNextHops n p
      → IsExport c exports
      → All (IsProper c p n (IsExport c)) es
      → Checks
          (λ r.
            (table : List Net) × (read_all n r.0 [] ≡ ok table)
            × ((is_waiting r.1.phase ≡ false)
                ⊎ (r.1.unseen ≡ true)
                ⊎ Shows c p n x r.1.exports table))
          (run c p n es (start c p n now exports))
  published-Shows now exports es x valid peers inside hops first new =
      Ensures-weaken
        (Ensures-both
          (transmit-table laws c p n inside hops now exports es x
            (IsExport-AreTrunc c exports first) (IsProper-IsTrunc c p n es new))
          (start-run-Targets laws c p n inside hops (IsExport c) now exports es first new))
        λ r ((table, read, same_table, waits), h). (
          table,
          read,
          elim waits [
            | inl busy ↦ inl busy
            | inr target ↦ elim h.aimed [
              | inl unseen ↦ inr (inl unseen)
              | inr aimed ↦ inr (
                  inr (
                    target-Shows c front behind p n x r.1.exports table valid peers h.proper
                      (target ∙ ap (λ t. contains t x && enabled n x) aimed)))
            ]
          ],
        )
