-- ===== src/Wire/Open.antt =====
-- The OPEN message in src/wire.rs: `open` and `parse_open`.
pub mod Total
pub mod RoundTrip
use ubgp.Base.{
  ℕ, zero, suc, ◌+◌, min, Bool, true, false, not, ◌&&◌, ◌||◌, Option, none, some, List, [], ◌∷◌,
  ◌++◌, length, take, is_empty, leb, ltb, ◌==◌, same, if◌then◌else◌, Result, ok, err, out_of_fuel,
  index, slice, slice_from, ◌>>=◌, ◌>>◌, as_u8, u16_be, u32_be, be_u32, unwrap_or,
}
use ubgp.Net.Addr.{Ipv4Addr, ipv4, ipv4_eq, octets_v4}
use ubgp.Config.{Config, Peer, valid_router_id}
use ubgp.Wire.Frame.{protocol_error, require, u16b, frame}

pub record Negotiated : Type 0 where
  pub router_id : Ipv4Addr
  pub hold : ℕ
  pub asn4 : Bool
  pub internal : Bool
  pub ipv4 : Bool
  pub ipv6 : Bool

-- `u16::try_from(asn).unwrap_or(23456)`
abbrev pub two_octet_asn : ℕ → ℕ
two_octet_asn asn = if ltb asn 65536 then asn else 23456

abbrev pub family_v4 : List ℕ
family_v4 = 1 ∷ 4 ∷ 0 ∷ 1 ∷ 0 ∷ 1 ∷ []

abbrev pub family_v6 : List ℕ
family_v6 = 1 ∷ 4 ∷ 0 ∷ 2 ∷ 0 ∷ 1 ∷ []

-- The multiprotocol capabilities of the families that are on.
abbrev pub families : Bool → Bool → List ℕ
families v4 v6 = (if v4 then family_v4 else []) ++ (if v6 then family_v6 else [])

module _ {Net : Type 0} where
  unfoldable pub open_caps : Config Net → Peer → List ℕ
  open_caps c p = 65 ∷ 4 ∷ (u32_be c.asn ++ 2 ∷ 0 ∷ families p.ipv4 p.ipv6)

  unfoldable pub open_body : Config Net → Peer → List ℕ
  unfolding open_caps
  open_body c p =
      let caps = open_caps c p in
      4
      ∷ (u16_be (two_octet_asn c.asn)
          ++ (u16_be p.hold_time_secs
              ++ (octets_v4 c.router_id
                  ++ as_u8 (length caps + 2) ∷ 2 ∷ as_u8 (length caps) ∷ caps)))

  -- `open`
  unfoldable pub open_message : Config Net → Peer → Result (List ℕ)
  unfolding open_body frame
  open_message c p = frame 1 (open_body c p)

-- What the capabilities have said so far.
pub record Capabilities : Type 0 where
  pub as4 : Option ℕ
  pub mp : Bool
  pub v4 : Bool
  pub v6 : Bool

abbrev pub no_capabilities : Capabilities
no_capabilities = record { as4 = none; mp = false; v4 = false; v6 = false }

-- `Option::is_some`
abbrev pub is_some {ℓ} : {A : Type ℓ} → Option A → Bool
is_some none = false
is_some (some a) = true

-- `as4.is_none_or(|a| a == value)`
abbrev pub agrees : Option ℕ → ℕ → Bool
agrees none value = true
agrees (some a) value = a == value

-- The `match` on one capability's code.
pub capability : ℕ → List ℕ → Capabilities → Result Capabilities
capability kind body s =
    if kind == 1
    then (do
      require (length body == 4) 2 0 "invalid multiprotocol capability"
      safi ← index body 3
      afi ← u16b body
      ok (
          if safi == 1
          then record s { mp = true; v4 = s.v4 || afi == 1; v6 = s.v6 || afi == 2 }
          else record s { mp = true }))
    else if kind == 2
    then (do require (is_empty body) 2 0 "invalid route refresh capability"; ok s)
    else if kind == 65
    then (do
      require (length body == 4) 2 0 "invalid four-octet ASN capability"
      a ← index body 0
      b ← index body 1
      c ← index body 2
      d ← index body 3
      require (agrees s.as4 (be_u32 a b c d)) 2 2 "conflicting ASN capabilities"
      ok (record s { as4 = some (be_u32 a b c d) }))
    else ok s

-- The `while` over the capabilities of a parameter. Each round takes two bytes at least.
pub capabilities : ℕ → List ℕ → Capabilities → Result Capabilities
unfolding capability
capabilities fuel [] s = ok s
capabilities zero (c ∷ cs) s = out_of_fuel
capabilities (suc fuel) (c ∷ cs) s = do
  let caps = c ∷ cs
  require (leb 2 (length caps)) 2 0 "invalid capability length"
  n ← index caps 1
  require (leb (n + 2) (length caps)) 2 0 "invalid capability length"
  body ← slice caps 2 (2 + n)
  kind ← index caps 0
  s' ← capability kind body s
  rest ← slice_from caps (2 + n)
  capabilities fuel rest s'

-- The `while` over the optional parameters.
pub parameters : ℕ → Bool → List ℕ → Capabilities → Result Capabilities
unfolding capabilities
parameters fuel extended [] s = ok s
parameters zero extended (b ∷ bs) s = out_of_fuel
parameters (suc fuel) extended (b ∷ bs) s = do
  let params = b ∷ bs
  let header = if extended then 3 else 2
  require (leb header (length params)) 2 0 "short optional parameter header"
  n ← if extended then (do field ← slice params 1 3; u16b field) else index params 1
  let end = header + n
  require (leb end (length params)) 2 0 "invalid optional parameter"
  kind ← index params 0
  whole ← slice params 0 end
  if not (kind == 2) then err (protocol_error 2 4 whole "unsupported optional parameter") else do
    caps ← slice params header end
    s' ← capabilities (length caps) caps s
    rest ← slice_from params end
    parameters fuel extended rest s'

-- `b.get(10) == Some(&255)`
abbrev is_255 : Result ℕ → Bool
is_255 (ok b) = b == 255
is_255 other = false

-- `extended`: the discriminator of RFC 9072.
abbrev pub is_extended : List ℕ → ℕ → Bool
is_extended b legacy = not (legacy == 0) && is_255 (index b 10)

-- The optional parameters, behind their length.
pub parameter_block : List ℕ → ℕ → Result (List ℕ)
parameter_block b legacy =
    if is_extended b legacy
    then (do
      require (leb 13 (length b)) 2 0 "short extended OPEN length"
      field ← slice b 11 13
      n ← u16b field
      require (n + 13 == length b) 2 0 "invalid extended OPEN parameter length"
      slice_from b 13)
    else (do require (legacy + 10 == length b) 2 0 "invalid OPEN parameter length"; slice_from b 10)

module _ {Net : Type 0} where
  -- The checks behind the loops, and the result.
  pub negotiate : ℕ → ℕ → Ipv4Addr → Capabilities → Config Net → Peer → Result Negotiated
  negotiate old_asn hold router_id s c p = do
    require (unwrap_or s.as4 old_asn == p.remote_asn) 2 2 "unexpected peer ASN"
    require (old_asn == two_octet_asn p.remote_asn) 2 2 "inconsistent two-octet peer ASN"
    let n : Negotiated = record {
      router_id = router_id;
      hold = min hold p.hold_time_secs;
      asn4 = is_some s.as4;
      internal = c.asn == p.remote_asn;
      ipv4 = p.ipv4 && (s.v4 || not s.mp);
      ipv6 = p.ipv6 && s.v6;
    }
    if not n.ipv4 && not n.ipv6
        then err (protocol_error 2 7 (families p.ipv4 p.ipv6) "no common address family")
        else ok n

  pub parse_open : List ℕ → Config Net → Peer → Result Negotiated
  parse_open b c p = do
    require (leb 10 (length b)) 2 0 "short OPEN"
    version ← index b 0
    if not (version == 4) then err (protocol_error 2 1 (0 ∷ 4 ∷ []) "unsupported version") else do
      old_asn ← slice b 1 3 >>= u16b
      hold ← slice b 3 5 >>= u16b
      require (hold == 0 || leb 3 hold) 2 6 "unacceptable hold time"
      i ← index b 5
      j ← index b 6
      k ← index b 7
      l ← index b 8
      let router_id = ipv4 i j k l
      require
          (valid_router_id router_id
            && (not (c.asn == p.remote_asn) || not (same router_id c.router_id)))
          2 3 "invalid or duplicate router ID"
      legacy ← index b 9
      params ← parameter_block b legacy
      s ← parameters (length params) (is_extended b legacy) params no_capabilities
      negotiate old_asn hold router_id s c p
