-- ===== src/Netlink/Filter.antt =====
-- `filter` of src/netlink.rs and `desired` of src/bgp.rs: the exports of a snapshot by ACL. An
-- `Exports` map is an association list.
pub mod Permitted
pub mod Held
use ubgp.Base.{
  Bool, Option, none, some, List, [], ◌∷◌, Str, str_eq, same, if◌then◌else◌, Result, ok, expect,
  ◌>>=◌, unwrap_or,
}
use ubgp.Base.Sets.{filter, insert}
use ubgp.Net.IpNet.{IpNet, eq_of_net}
use ubgp.Config.{Peer, Acl, Config, find_acl}
use ubgp.Config.Permits.{permits}

-- `.map(|p| &p.export_acl).collect::<HashSet<_>>()`
unfoldable pub acl_names : List Peer → List Str
acl_names [] = []
acl_names (p ∷ ps) = insert p.export_acl (acl_names ps)

module _ {Net : Type 0} where
  -- `HashMap::get`
  pub find_exports : Str → List (Str × List Net) → Option (List Net)
  find_exports name [] = none
  find_exports name ((n, routes) ∷ rest) =
      if same n name then some routes else find_exports name rest

  -- `desired`
  pub desired : List (Str × List Net) → Str → List Net
  desired exports acl = unwrap_or (find_exports acl exports) []

module _ {Net : Type 0} ⦃ops : IpNet Net⦄ where
  -- The map over the names.
  unfoldable pub exports_of : Config Net → List Net → List Str → Result (List (Str × List Net))
  exports_of c prefixes [] = ok []
  exports_of c prefixes (name ∷ names) = do
    acl ← expect (find_acl name c.acls)
    rest ← exports_of c prefixes names
    ok ((name, filter (permits acl) prefixes) ∷ rest)

  unfoldable pub filter_exports : Config Net → List Net → Result (List (Str × List Net))
  filter_exports c prefixes = exports_of c prefixes (acl_names c.peers)
