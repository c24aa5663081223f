-- ===== src/Bgp/Exports.antt =====
-- From a snapshot of the kernel's routes to what a peer has: `filter` of src/netlink.rs, then
-- `desired` and the plan of src/bgp.rs.
pub mod Shown
pub mod Dumped
use ubgp.Base.Ensures.{same_value}
use ubgp.Base.{
  [], ◌∷◌, ◌++◌, All-middle, subst, sym, some, ◌≡◌, ap, ◌∙◌, ◌&&◌, List, All, Str, contains, ok,
  arith,
}
use ubgp.Net.IpNet.{IpNet, eq_of_net}
use ubgp.Config.{Acl, Config, Peer, find_acl}
use ubgp.Config.Permits.{permits}
use ubgp.Config.Validate.{validate}
use ubgp.Config.Validate.Exact.{validate-IsValidConfig}
use ubgp.Netlink.Filter.{desired, filter_exports}
use ubgp.Netlink.Filter.Permitted.{named_acls, filter_exports-permits, All-both}
use ubgp.Wire.Open.{Negotiated}
use ubgp.Bgp.Plan.{Sent, new_plan, drain_all, enabled}
use ubgp.Bgp.Plan.Converges.{drain-new_plan}

module _ {Net : Type 0} ⦃ops : IpNet Net⦄ where
  -- What the exports of a snapshot offer to a peer.
  pub exports-offered :
      (c : Config Net) (front behind : List Peer) (p : Peer) (prefixes : List Net)
      (exports : List (Str × List Net))
      → validate c ≡ ok tt
      → c.peers ≡ front ++ (p ∷ behind)
      → filter_exports c prefixes ≡ ok exports
      → (acl : Acl Net) × (find_acl p.export_acl c.acls ≡ some acl)
        × ((x : Net)
            → contains (desired exports p.export_acl) x ≡ (contains prefixes x && permits acl x))
  exports-offered c front behind p prefixes exports valid peers filtered =
      let v = (validate-IsValidConfig c).0 valid in
      let (exports', filtered', each) =
        filter_exports-permits c prefixes (named_acls c c.peers v.peers) in
      let (acl, named, permitted) = All-middle _ front behind (subst (All _) peers each) in
      let same_exports : exports' ≡ exports = same_value (sym filtered' ∙ filtered) in
      (
        acl,
        named,
        λ x.
            subst
              (λ found.
                contains (desired found p.export_acl) x ≡ (contains prefixes x && permits acl x))
              same_exports (permitted x),
      )

  -- When `validate` has accepted the configuration, `filter` does not panic, and after the plan
  -- for a peer has been sent, whatever the peer was sent before, it has exactly the prefixes of
  -- the snapshot that the peer's ACL permits and whose family is negotiated.
  filter_exports-advertised :
      (c : Config Net) (prefixes advertised replay : List Net) (n : Negotiated) (x : Net)
      → validate c ≡ ok tt
      → (exports : List (Str × List Net)) × (filter_exports c prefixes ≡ ok exports)
        × All
            (λ p.
              (acl : Acl Net) × (find_acl p.export_acl c.acls ≡ some acl)
              × (let s : Sent Net = record { advertised = advertised; replay = replay } in
                  contains
                    (drain_all
                      (new_plan advertised (desired exports p.export_acl) n replay)
                      s).advertised
                    x
                  ≡ (contains prefixes x && permits acl x && enabled n x)))
            c.peers
  filter_exports-advertised c prefixes advertised replay n x valid =
      let v = (validate-IsValidConfig c).0 valid in
      let (exports, e, offered) =
        filter_exports-permits c prefixes (named_acls c c.peers v.peers) in
      (
        exports,
        e,
        All-both _ _ _ c.peers
            (λ p (acl, found, permitted) same_again. (
              acl,
              found,
              drain-new_plan advertised (desired exports p.export_acl) replay replay n _ x
                    (omega arith)
                  ∙ ap (λ b. b && enabled n x) (permitted x),
            ))
            offered offered,
      )
