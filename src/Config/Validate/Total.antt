-- ===== src/Config/Validate/Total.antt =====
-- `validate` does not panic.
use ubgp.Base.{ℕ, Bool, true, false, List, [], ◌∷◌, Str, String, Checked, ensure, ◌>>◌}
use ubgp.Base.Ensures.{Checks, holds, rejected}
use ubgp.Net.IpNet.{IpNet}
use ubgp.Config.{Kernel, Peer, Rule, Acl, Config}
use ubgp.Config.Validate.{
  Endpoint, endpoint, validate_kernel, validate_timeouts, validate_globals, validate_transport,
  validate_families, validate_peers, validate_rules, validate_acls, validate,
}

-- A call that returns.
abbrev pub Ends : Checked → Type 0
Ends r = Checks (λ u. Unit {0}) r

Ends-then : {r k : Checked} → Ends r → Ends k → Ends (r >> k)
Ends-then (holds h) k = k
Ends-then (rejected h) k = rejected tt

ensure-Ends : (b : Bool) (text : String) (k : Checked) → Ends k → Ends (ensure b text >> k)
ensure-Ends true text k h = h
ensure-Ends false text k h = rejected tt

one-Ends : (b : Bool) (text : String) → Ends (ensure b text)
one-Ends true text = holds tt
one-Ends false text = rejected tt

timeouts-Ends : (text : String) (l : List ℕ) → Ends (validate_timeouts text l)
unfolding validate_timeouts
timeouts-Ends text [] = holds tt
timeouts-Ends text (s ∷ rest) = ensure-Ends _ _ _ (timeouts-Ends text rest)

kernel-Ends : (k : Kernel) → Ends (validate_kernel k)
unfolding validate_kernel
kernel-Ends k = search (ensure-Ends, one-Ends, Ends-then, timeouts-Ends) depth 14

module _ {Net : Type 0} where
  globals-Ends : (c : Config Net) → Ends (validate_globals c)
  unfolding validate_globals
  globals-Ends c = search (ensure-Ends, one-Ends) depth 14

  transport-Ends : (c : Config Net) (p : Peer) → Ends (validate_transport c p)
  unfolding validate_transport
  transport-Ends c p = search (ensure-Ends, one-Ends) depth 14

  families-Ends : (c : Config Net) (p : Peer) → Ends (validate_families c p)
  unfolding validate_families
  families-Ends c p = search (ensure-Ends, one-Ends, Ends-then, timeouts-Ends) depth 14

  peers-Ends :
      (c : Config Net) (seen : List Endpoint) (ps : List Peer) → Ends (validate_peers c seen ps)
  unfolding validate_peers
  peers-Ends c seen [] = holds tt
  peers-Ends c seen (p ∷ ps) =
      search
        (ensure-Ends, Ends-then, transport-Ends, families-Ends, peers-Ends c (endpoint p ∷ seen) ps)
        depth 6

module _ {Net : Type 0} ⦃ops : IpNet Net⦄ where
  rules-Ends : (rs : List (Rule Net)) → Ends (validate_rules rs)
  unfolding validate_rules
  rules-Ends [] = holds tt
  rules-Ends (r ∷ rest) = search (ensure-Ends, rules-Ends rest) depth 6

  acls-Ends : (acls : List (Str × Acl Net)) → Ends (validate_acls acls)
  unfolding validate_acls
  acls-Ends [] = holds tt
  acls-Ends ((name, acl) ∷ rest) =
      search (ensure-Ends, Ends-then, rules-Ends, acls-Ends rest) depth 6

  pub validate-Ends : (c : Config Net) → Ends (validate c)
  unfolding validate
  validate-Ends c =
      Ends-then (globals-Ends c)
        (Ends-then (kernel-Ends c.kernel) (Ends-then (acls-Ends c.acls) (peers-Ends c [] c.peers)))
