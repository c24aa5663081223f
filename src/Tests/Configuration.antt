-- ===== src/Tests/Configuration.antt =====
-- Configuration: the first match, and `validate`.
use ubgp.Base.{ℕ, List, [], ◌∷◌, ◌⊎◌, inl, some, refl, Str-discrete, ◌≡◌, ◌↔◌, true, ok}
use ubgp.Net.IpNet.Concrete.{Cidr, cidr, Cidr-discrete}
use ubgp.Config.{Rule, permit, valid_v4, nh4, nh6, valid_v6, valid_router_id, find_acl}
use ubgp.Config.Permits.{permits}
use ubgp.Config.Permits.FirstMatch.{IsFirstMatch, permits-FirstMatch}
use ubgp.Config.Parse
use ubgp.Config.Parse.{TomlError}
use ubgp.Config.Parse.Located.{advance_all, origin, parse-advance_all}
use ubgp.Config.Validate.{
  validate, validate_kernel, validate_globals, validate_transport, validate_families,
  validate_peers, validate_rules, validate_acls, Endpoint-discrete,
}
use ubgp.Net.Addr.{Ipv4Addr-discrete, IpAddr-discrete}
use native.Mathlib.Decide.{ℕ_discrete}
use ubgp.Config.Validate.Exact.{IsValidConfig, validate-IsValidConfig}
use ubgp.Tests.Data.{acl, net, router_a}

permits-FirstMatch_example :
    (permits acl (net 10 2 0 0 16) ≡ true)
    ↔ ((r : Rule Cidr) × IsFirstMatch (net 10 2 0 0 16) acl.rules r × (r.action ≡ permit))
permits-FirstMatch_example = permits-FirstMatch acl (net 10 2 0 0 16)

validate-IsValidConfig_example : (validate router_a ≡ ok tt) ↔ IsValidConfig router_a
validate-IsValidConfig_example = validate-IsValidConfig router_a

pub router_a_valid : validate router_a ≡ ok tt
unfolding validate validate_kernel validate_globals validate_transport validate_families
    validate_peers validate_rules validate_acls valid_v4 nh4 nh6 valid_v6 valid_router_id find_acl
    Str-discrete Ipv4Addr-discrete IpAddr-discrete Endpoint-discrete Cidr-discrete ℕ_discrete
router_a_valid = refl

-- The crate's error at the byte behind the line end and `k`, with a text that quotes the input.
abbrev refused_at : List ℕ → TomlError ⊎ ℕ
refused_at text = inl (record { span_start = some 3; rendered = text })

-- "a\nkey" and "b\nxyz"
parse-advance_all_example :
    (Parse.parse refused_at (97 ∷ 10 ∷ 107 ∷ 101 ∷ 121 ∷ [])
      ≡ ok (inl (advance_all (97 ∷ 10 ∷ 107 ∷ []) origin)))
    × (Parse.parse refused_at (98 ∷ 10 ∷ 120 ∷ 121 ∷ 122 ∷ [])
        ≡ Parse.parse refused_at (97 ∷ 10 ∷ 107 ∷ 101 ∷ 121 ∷ []))
parse-advance_all_example =
    parse-advance_all refused_at (97 ∷ 10 ∷ 107 ∷ 101 ∷ 121 ∷ []) (98 ∷ 10 ∷ 120 ∷ 121 ∷ 122 ∷ [])
      (record { span_start = some 3; rendered = 97 ∷ 10 ∷ 107 ∷ 101 ∷ 121 ∷ [] })
      (record { span_start = some 3; rendered = 98 ∷ 10 ∷ 120 ∷ 121 ∷ 122 ∷ [] }) refl refl refl
      (refl, (refl, (refl, (refl, (refl, tt)))))

-- It is the second column of the second line.
shown_at : advance_all (97 ∷ 10 ∷ 107 ∷ []) origin ≡ record { line = 2; column = 2 }
shown_at = refl
