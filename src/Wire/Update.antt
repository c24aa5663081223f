-- ===== src/Wire/Update.antt =====
-- Encoding of UPDATE in src/wire.rs: `attr`, `nlri`, `update` and `end_of_rib`. What the source
-- appends to a buffer is the list that is appended.
pub mod Nlri
use ubgp.Base.{
  ℕ, ◌+◌, Bool, true, false, not, ◌&&◌, ◌||◌, Option, none, some, List, [], ◌∷◌, ◌++◌, length, all,
  is_empty, leb, ltb, ◌==◌, if◌then◌else◌, Result, ok, assert, expect, index, slice, ◌>>=◌, ◌>>◌,
  as_u8, as_u16, u16_be, u32_be, bit_or,
}
use ubgp.Net.Addr.{Ipv4Addr, Ipv6Addr, octets, octets_v4, octets_v6, is_ipv6}
use ubgp.Net.IpNet.{IpNet, div_ceil8}
use ubgp.Config.{Config, Peer, nh4, nh6}
use ubgp.Wire.Frame.{frame, update_kind, max_update_prefixes}
use ubgp.Wire.Open.{Negotiated, two_octet_asn, is_some}

-- `attr`
abbrev pub attr : ℕ → ℕ → List ℕ → List ℕ
attr flags kind body =
    bit_or flags (if ltb 255 (length body) then 0x10 else 0)
    ∷ kind
    ∷ ((if ltb 255 (length body) then u16_be (as_u16 (length body)) else as_u8 (length body) ∷ [])
        ++ body)

-- `==` on Booleans
abbrev pub same_family : Bool → Bool → Bool
same_family true b = b
same_family false b = not b

-- The link-local next hop that follows a global one.
abbrev pub link_local_octets : Option Ipv6Addr → List ℕ
link_local_octets none = []
link_local_octets (some a) = octets_v6 a

-- MP_REACH without NLRI: family, next hops and the reserved byte; MP_UNREACH has the family only.
unfoldable pub mp_head : Peer → Bool → Result (List ℕ)
mp_head p true = ok (0 ∷ 2 ∷ 1 ∷ [])
mp_head p false = do
  hop ← expect (nh6 p)
  let size : ℕ = if is_some p.next_hop_v6_link_local then 32 else 16
  ok (0 ∷ 2 ∷ 1 ∷ size ∷ (octets_v6 hop ++ (link_local_octets p.next_hop_v6_link_local ++ 0 ∷ [])))

module _ {Net : Type 0} where
  -- The AS_PATH: empty inside an AS, the local ASN outside, in the width of the session.
  abbrev pub as_path : Config Net → Peer → Negotiated → List ℕ
  as_path c p n =
      if c.asn == p.remote_asn
      then []
      else 2 ∷ 1 ∷ (if n.asn4 then u32_be c.asn else u16_be (two_octet_asn c.asn))

  -- The attributes of an announcement behind MP_REACH.
  unfoldable pub announce_attrs : Config Net → Peer → Negotiated → Bool → Result (List ℕ)
  announce_attrs c p n is_v6 = do
    let origin = attr 0x40 1 (2 ∷ [])
    let path = attr 0x40 2 (as_path c p n)
    let as4 =
        if not n.asn4 && ltb 65535 c.asn && not (c.asn == p.remote_asn)
        then attr 0xc0 17 (2 ∷ 1 ∷ u32_be c.asn)
        else []
    let local_pref = if c.asn == p.remote_asn then attr 0x40 5 (u32_be 100) else []
    hop ← if is_v6 then ok [] else (do a ← expect (nh4 p); ok (attr 0x40 3 (octets_v4 a)))
    ok (origin ++ (path ++ (as4 ++ (local_pref ++ hop))))

module _ {Net : Type 0} ⦃ops : IpNet Net⦄ where
  open ops use {addr, prefix_len, network}

  -- `nlri`
  unfoldable pub nlri : Net → Result (List ℕ)
  nlri p = do
    bytes ← slice (octets (network p)) 0 (div_ceil8 (prefix_len p))
    ok (prefix_len p ∷ bytes)

  -- `nlri` on each prefix of the batch.
  unfoldable pub nlris : List Net → Result (List ℕ)
  nlris [] = ok []
  nlris (p ∷ ps) = do head ← nlri p; rest ← nlris ps; ok (head ++ rest)

  -- The body: withdrawn routes, attributes, reachable routes.
  unfoldable pub update_body :
      Config Net → Peer → Negotiated → Bool → List ℕ → Bool → Result (List ℕ)
  update_body c p n is_v6 encoded withdraw = do
    mp ←
        if is_v6
        then (do
          head ← mp_head p withdraw
          ok (attr 0x80 (if withdraw then 15 else 14) (head ++ encoded)))
        else ok []
    rest ← if withdraw then ok [] else announce_attrs c p n is_v6
    let attrs = mp ++ rest
    let withdrawn =
        if withdraw && not is_v6 then u16_be (as_u16 (length encoded)) ++ encoded else 0 ∷ 0 ∷ []
    let reachable = if not withdraw && not is_v6 then encoded else []
    ok (withdrawn ++ (u16_be (as_u16 (length attrs)) ++ (attrs ++ reachable)))

  unfoldable pub update : Config Net → Peer → Negotiated → List Net → Bool → Result (List ℕ)
  update c p n prefixes withdraw = do
    assert (not (is_empty prefixes) && leb (length prefixes) max_update_prefixes)
    first ← index prefixes 0
    let is_v6 = is_ipv6 (addr first)
    assert (all (λ q. same_family (is_ipv6 (addr q)) is_v6) prefixes)
    encoded ← nlris prefixes
    body ← update_body c p n is_v6 encoded withdraw
    frame update_kind body

unfoldable pub end_of_rib_body : Bool → List ℕ
end_of_rib_body true = 0 ∷ 0 ∷ 0 ∷ 6 ∷ 0x80 ∷ 15 ∷ 3 ∷ 0 ∷ 2 ∷ 1 ∷ []
end_of_rib_body false = 0 ∷ 0 ∷ 0 ∷ 0 ∷ []

unfoldable pub end_of_rib : Bool → Result (List ℕ)
end_of_rib v6 = frame update_kind (end_of_rib_body v6)
