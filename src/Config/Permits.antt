-- ===== src/Config/Permits.antt =====
-- `Acl::permits` of src/config.rs.
pub mod FirstMatch
use ubgp.Base.{
  Bool, true, false, ◌&&◌, Option, none, some, List, [], ◌∷◌, leb, unwrap_or, if◌then◌else◌,
}
use ubgp.Net.IpNet.{IpNet}
use ubgp.Config.{Action, permit, deny, Rule, Acl}

-- `action == Action::Permit`
abbrev is_permit : Action → Bool
is_permit permit = true
is_permit deny = false

module _ {Net : Type 0} ⦃ops : IpNet Net⦄ where
  open ops use {prefix_len, contains_net}

  -- The test of the closure that `find` is given.
  pub rule_matches : Net → Rule Net → Bool
  rule_matches prefix r =
      contains_net r.prefix prefix
      && leb (unwrap_or r.min_length (prefix_len r.prefix)) (prefix_len prefix)
      && leb (prefix_len prefix) (unwrap_or r.max_length (prefix_len r.prefix))

  find_rule : Net → List (Rule Net) → Option (Rule Net)
  find_rule prefix [] = none
  find_rule prefix (r ∷ rs) = if rule_matches prefix r then some r else find_rule prefix rs

  -- `is_some_and(|r| r.action == Action::Permit)`
  abbrev permitted : Option (Rule Net) → Bool
  permitted none = false
  permitted (some r) = is_permit r.action

  unfoldable pub permits : Acl Net → Net → Bool
  unfolding find_rule rule_matches
  permits acl prefix = permitted (find_rule prefix acl.rules)
