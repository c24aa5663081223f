-- ===== src/Wire/Open/RoundTrip.antt =====
-- Two speakers of this code understand one another: `parse_open` on what `open` writes.
use ubgp.Base.{
  ℕ, ◌+◌, ◌≤◌, ◌<◌, ◌≡◌, ◌⊎◌, ◌≢◌, refl, min, Bool, true, false, not, ◌&&◌, ◌||◌, some, List, ◌∷◌,
  ◌++◌, length, leb, ◌==◌, same, same_iff, Result, ok, slice, slice_from, ◌>>◌, arith, as_u8,
  u16_be, u32_be, be_u16, be_u32, ◌∙◌, ◌/◌, ◌%◌,
}
use ubgp.Net.Addr.{Ipv4Addr, ipv4_eq, octets_v4}
use ubgp.Config.{Config, Peer, valid_router_id}
use ubgp.Wire.Frame.{require}
use ubgp.Wire.Open.{
  Negotiated, Capabilities, no_capabilities, parameters, parameter_block, negotiate, parse_open,
  two_octet_asn, open_body, families,
}

-- What the loops make of the capabilities that `open` writes.
abbrev seen : ℕ → Bool → Bool → Capabilities
seen asn v4 v6 = record {
  as4 = some (be_u32 (asn / 16777216 % 256) (asn / 65536 % 256) (asn / 256 % 256) (asn % 256));
  mp = v4 || v6;
  v4 = v4;
  v6 = v6;
}

abbrev caps_of : ℕ → Bool → Bool → List ℕ
caps_of asn v4 v6 = 65 ∷ 4 ∷ (u32_be asn ++ 2 ∷ 0 ∷ families v4 v6)

parameters-open :
    (asn : ℕ) (v4 v6 : Bool)
    → let caps = caps_of asn v4 v6 in
      let params = 2 ∷ as_u8 (length caps) ∷ caps in
      parameters (length params) false params no_capabilities ≡ ok (seen asn v4 v6)
unfolding parameters slice slice_from
parameters-open asn true true = refl
parameters-open asn true false = refl
parameters-open asn false true = refl
parameters-open asn false false = refl

abbrev body_of : ℕ → ℕ → Ipv4Addr → Bool → Bool → List ℕ
body_of asn hold id v4 v6 =
    let caps = caps_of asn v4 v6 in
    4
    ∷ (u16_be (two_octet_asn asn)
        ++ (u16_be hold
            ++ (octets_v4 id ++ as_u8 (length caps + 2) ∷ 2 ∷ as_u8 (length caps) ∷ caps)))

-- Reading the words back.
be_u16-u16_be : (n : ℕ) → n < 65536 → be_u16 (n / 256 % 256) (n % 256) ≡ n
be_u16-u16_be n h = omega arith

be_u32-u32_be :
    (n : ℕ)
    → n < 4294967296
    → be_u32 (n / 16777216 % 256) (n / 65536 % 256) (n / 256 % 256) (n % 256) ≡ n
be_u32-u32_be n h = omega arith

two_octets :
    (asn : ℕ) → be_u16 (two_octet_asn asn / 256 % 256) (two_octet_asn asn % 256) ≡ two_octet_asn asn
two_octets asn = ground arith

module _ {Net : Type 0} where
  -- The checks and the negotiation that are left once the fixed part and the loops are read.
  abbrev after_loops : ℕ → ℕ → Ipv4Addr → Bool → Bool → Config Net → Peer → Result Negotiated
  after_loops asn hold id v4 v6 c p = do
    require (hold == 0 || leb 3 hold) 2 6 "unacceptable hold time"
    require (valid_router_id id && (not (c.asn == p.remote_asn) || not (same id c.router_id))) 2 3
        "invalid or duplicate router ID"
    negotiate (two_octet_asn asn) hold id (seen asn v4 v6) c p

  parse_open-body :
      (asn hold : ℕ) (id : Ipv4Addr) (v4 v6 : Bool) (c : Config Net) (p : Peer)
      → hold < 65536
      → parse_open (body_of asn hold id v4 v6) c p ≡ after_loops asn hold id v4 v6 c p
  unfolding parse_open parameter_block slice slice_from
  parse_open-body asn hold id true true c p h =
      rw (two_octets asn, be_u16-u16_be hold h, parameters-open asn true true)
  parse_open-body asn hold id true false c p h =
      rw (two_octets asn, be_u16-u16_be hold h, parameters-open asn true false)
  parse_open-body asn hold id false true c p h =
      rw (two_octets asn, be_u16-u16_be hold h, parameters-open asn false true)
  parse_open-body asn hold id false false c p h =
      rw (two_octets asn, be_u16-u16_be hold h, parameters-open asn false false)

  -- A speaker with configuration `remote` and peer entry `pr` sends its OPEN to a speaker with
  -- configuration `c` and peer entry `p`. If the ASN is the expected one, the hold time is 0 or at
  -- least 3, the router ID nonzero and, inside one AS, not our own, and some family is on at both
  -- ends (IPv4 also when the sender announces no family), then the OPEN is accepted, with the
  -- smaller hold time, four-octet ASNs, and exactly the families that both ends have on.
  pub parse_open-open :
      (remote : Config Net) (pr : Peer) (c : Config Net) (p : Peer)
      → remote.asn < 4294967296
      → remote.asn ≡ p.remote_asn
      → pr.hold_time_secs < 65536
      → (pr.hold_time_secs ≡ 0) ⊎ (3 ≤ pr.hold_time_secs)
      → valid_router_id remote.router_id ≡ true
      → (c.asn ≢ p.remote_asn) ⊎ (remote.router_id ≢ c.router_id)
      → (p.ipv4 && (pr.ipv4 || not pr.ipv6) || p.ipv6 && pr.ipv6) ≡ true
      → parse_open (open_body remote pr) c p
        ≡ ok (record {
          router_id = remote.router_id;
          hold = min pr.hold_time_secs p.hold_time_secs;
          asn4 = true;
          internal = c.asn == p.remote_asn;
          ipv4 = p.ipv4 && (pr.ipv4 || not pr.ipv6);
          ipv6 = p.ipv6 && pr.ipv6;
        })
  unfolding open_body negotiate
  parse_open-open remote pr c p small asn hold_fits hold_ok id_ok id_new common =
      parse_open-body remote.asn pr.hold_time_secs remote.router_id pr.ipv4 pr.ipv6 c p hold_fits
      ∙ ground (arith, same_iff remote.router_id c.router_id, be_u32-u32_be remote.asn small)
