-- ===== src/Netlink/Reconcile/Publishes.antt =====
-- What the kernel side publishes.
use ubgp.Base.{Option, ℕ, ◌≡◌, ◌⊎◌, inl, inr, Bool, List, [], ok, Eq}
use ubgp.Net.IpNet.{IpNet, IpNetLaws}
use ubgp.Config.{Config}
use ubgp.Netlink.Message.Ending.{Ends}
use ubgp.Netlink.Filter.{filter_exports}
use ubgp.Netlink.Snapshot.Bounded.{InBounds}
use ubgp.Netlink.Snapshot.Complete.{IsSnapshot}
use ubgp.Netlink.Freshness.{Freshness}
use ubgp.Netlink.Reconcile.{ExportsOf, Reconciler}

module _ {Net : Type 0} ⦃ops : IpNet Net⦄ (c : Config Net) where
  -- Nothing, or what the ACLs leave of one snapshot in its bounds.
  abbrev pub IsExport : ExportsOf Net → Type 0
  IsExport exports =
      (exports ≡ [])
      ⊎ ((prefixes : List Net) × InBounds c prefixes × (filter_exports c prefixes ≡ ok exports))

module _ {Net : Type 0} ⦃ops : IpNet Net⦄ (laws : IpNetLaws ops) (c : Config Net)
    (sendto : List ℕ → Option ℕ) where
  -- Nothing, or what the ACLs leave of one snapshot in its bounds, all dumps of which are complete.
  abbrev pub IsComplete : ExportsOf Net → Type 0
  IsComplete exports =
      (exports ≡ [])
      ⊎ ((prefixes : List Net) × IsSnapshot laws c sendto prefixes
          × (filter_exports c prefixes ≡ ok exports))

  -- It is an export then.
  IsComplete-IsExport : (exports : ExportsOf Net) → IsComplete exports → IsExport c exports
  IsComplete-IsExport exports (inl none_of_it) = inl none_of_it
  IsComplete-IsExport exports (inr (prefixes, (bounds, whole), filtered)) =
      inr (prefixes, bounds, filtered)

module _ {Net : Type 0} ⦃ops : IpNet Net⦄ ⦃eq : Eq (ExportsOf Net)⦄ (laws : IpNetLaws ops)
    (c : Config Net) (sendto : List ℕ → Option ℕ) where
  Publishes : Freshness (ExportsOf Net) → Type 0
  Publishes f = IsComplete laws c sendto f.published

  abbrev Sound : Reconciler Net → Type 0
  Sound s = Publishes s.freshness

  -- The loop goes on from a state that publishes so.
  abbrev SoundNext : Bool × Reconciler Net → Type 0
  SoundNext (on, s) = Sound s
