-- ===== src/Management/Console/Shown.antt =====
-- What the console shows, on any bytes and any state.
use ubgp.Base.{ℕ, ◌≤◌, ◌≡◌, Bool, true, Option, List, Str, All}
use ubgp.Net.IpNet.{IpNet, eq_of_net}
use ubgp.Config.{Config}
use ubgp.Management.{is_printable}
use ubgp.Management.Line.{Output}
use ubgp.Management.Console.{
  Reply, banner, goodbye, help, prompt, peers_header, routes_header, invalid_prefix, unknown_acl,
  no_candidates, unknown_command, summary, candidates, peer_line, route_line, shown, telnet,
}

abbrev pub IsPrintable : ℕ → Type 0
IsPrintable b = is_printable b ≡ true

module _ {Net : Type 0} where
  -- A reply whose texts are printable and whose numbers are in their bounds.
  abbrev pub IsHarmless : Reply Net → Type 0
  IsHarmless (candidates name n) = All IsPrintable name
  IsHarmless (peer_line address interface asn state age md5 error) =
      All IsPrintable interface × All IsPrintable error
  IsHarmless (shown n total) = (n ≤ 100) × (n ≤ total)
  IsHarmless banner = Unit
  IsHarmless goodbye = Unit
  IsHarmless help = Unit
  IsHarmless prompt = Unit
  IsHarmless peers_header = Unit
  IsHarmless routes_header = Unit
  IsHarmless invalid_prefix = Unit
  IsHarmless unknown_acl = Unit
  IsHarmless no_candidates = Unit
  IsHarmless unknown_command = Unit
  IsHarmless (summary id asn ipv6 peers up tables acls) = Unit
  IsHarmless (route_line n) = Unit
  IsHarmless (telnet b) = Unit

module _ {Net : Type 0} where
  pub AllHarmless : List (Reply Net) → Type 0
  AllHarmless rs = All IsHarmless rs

module _ {Net : Type 0} ⦃ops : IpNet Net⦄ (c : Config Net) (parse_net : Str → Option Net) where
  module _ (can_write : ℕ → Bool) where
    abbrev Clean : Output (Reply Net) → Type 0
    Clean out = AllHarmless out.written
