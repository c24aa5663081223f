-- ===== src/Netlink/Filter/Held.antt =====
-- What `desired` of src/bgp.rs finds is held by the exports.
use ubgp.Base.{
  ◌≡◌, refl, Bool, List, [], ◌∷◌, Str, str_eq, All, same, Bool-cases, inl, inr, unwrap_or, ok,
  expect, subst,
}
use ubgp.Base.Sets.{filter}
use ubgp.Net.IpNet.{IpNet}
use ubgp.Config.{Config, find_acl}
use ubgp.Config.Permits.{permits}
use ubgp.Base.Ensures.{bind_ok, same_value}
use ubgp.Netlink.Filter.{acl_names, exports_of, filter_exports, find_exports, desired}

module _ {Net : Type 0} (P : Net → Type 0) where
  found-All :
      (acl : Str) (exports : List (Str × List Net))
      → All (λ e. All P e.1) exports
      → All P (unwrap_or (find_exports acl exports) [])
  unfolding find_exports
  found-All acl [] h = tt
  found-All acl ((name, routes) ∷ rest) (here, h) = elim (Bool-cases (same name acl)) [
    | inl found ↦ rw found here
    | inr other ↦ rw other (found-All acl rest h)
  ]

  pub desired-All :
      (exports : List (Str × List Net)) (acl : Str)
      → All (λ e. All P e.1) exports
      → All P (desired exports acl)
  unfolding desired
  desired-All exports acl h = found-All acl exports h

pub desired-nothing : {Net : Type 0} (acl : Str) → desired {Net = Net} [] acl ≡ []
unfolding desired find_exports
desired-nothing acl = refl

module _ {Net : Type 0} ⦃ops : IpNet Net⦄ (P : Net → Type 0) (c : Config Net) (prefixes : List Net)
    (each : All P prefixes) where
  filter-All : (f : Net → Bool) (xs : List Net) → All P xs → All P (filter f xs)
  filter-All f [] h = tt
  filter-All f (x ∷ xs) (here, h) = elim (Bool-cases (f x)) [
    | inl keep ↦ rw keep (here, filter-All f xs h)
    | inr lose ↦ rw lose (filter-All f xs h)
  ]

  exports_of-All :
      (names : List Str) (exports : List (Str × List Net))
      → exports_of c prefixes names ≡ ok exports
      → All (λ e. All P e.1) exports
  unfolding exports_of
  exports_of-All [] exports e = subst (All (λ e. All P e.1)) (same_value e) tt
  exports_of-All (name ∷ names) exports e =
      let (acl, found) = bind_ok (expect (find_acl name c.acls)) _ e in
      let (rest, others) = bind_ok (exports_of c prefixes names) _ (rw found at e) in
      subst (All (λ e. All P e.1)) (same_value (rw (found, others) at e))
        (filter-All (permits acl) prefixes each, exports_of-All names rest others)

  -- What holds of each prefix of a snapshot holds of each that is exported.
  pub filter_exports-All :
      (exports : List (Str × List Net))
      → filter_exports c prefixes ≡ ok exports
      → All (λ e. All P e.1) exports
  unfolding filter_exports
  filter_exports-All exports e = exports_of-All (acl_names c.peers) exports e
