-- ===== src/Wire/Routes.antt =====
-- What the session does with messages that it does not act on, in src/wire.rs: `update_prefixes`,
-- `refresh_family` and `unexpected`. What the source pushes to `out` is the list that is returned.
pub mod Total
pub mod Decoded
pub mod Rounds
use ubgp.Base.{
  ℕ, zero, suc, ◌+◌, ◌-◌, ◌<◌, Bool, true, false, not, ◌&&◌, ◌||◌, Option, none, some, List, [],
  ◌∷◌, ◌++◌, length, drop, replicate, leb, ltb, ◌==◌, if◌then◌else◌, Error, message, Result, ok,
  out_of_fuel, ensure, expect, index, slice, slice_from, ◌>>=◌, ◌>>◌, bit_and,
}
use ubgp.Net.Addr.{IpAddr, v4, v6, ipv4_from, ipv6_from}
use ubgp.Net.IpNet.{IpNet, div_ceil8}
use ubgp.Wire.Frame.{protocol_error, u16b}
use ubgp.Wire.Open.{Negotiated}

-- The address that `size` bytes of a prefix make, the others zero.
-- `[0; 16]`
abbrev pub buffer : List ℕ
buffer = replicate 16 0

abbrev pub padded : List ℕ → ℕ → List ℕ
padded bytes size = bytes ++ replicate (16 - size) 0

abbrev pub address_of : Bool → List ℕ → IpAddr
address_of is_v6 bytes = if is_v6 then v6 (ipv6_from bytes) else v4 (ipv4_from bytes)

module _ {Net : Type 0} ⦃ops : IpNet Net⦄ where
  open ops use {new, trunc}

  -- `append`
  pub decoded : ℕ → List ℕ → Bool → Result (List Net)
  decoded fuel [] is_v6 = ok []
  decoded zero (bits ∷ bs) is_v6 = out_of_fuel
  decoded (suc fuel) (bits ∷ bs) is_v6 =
      let b = bits ∷ bs in
      let size = div_ceil8 bits in
      if ltb (if is_v6 then 128 else 32) bits || ltb (length b) (size + 1) then ok [] else (do
        bytes ← slice b 1 (1 + size)
        cleared ← slice buffer 0 size
        net ← expect (new (address_of is_v6 (padded bytes size)) bits)
        behind ← slice_from b (1 + size)
        rest ← decoded fuel behind is_v6
        ok (trunc net ∷ rest))

  -- The NLRI of one attribute, when it is an MP_REACH of a known family.
  pub reached : ℕ → ℕ → List ℕ → Result (List Net)
  reached kind l body =
      if kind == 14 && leb 5 l
      then (do
        safi ← index body 2
        if safi == 1
            then (do
              hop_size ← index body 3
              let start = 5 + hop_size
              afi ← u16b body
              if leb start l && (afi == 1 || afi == 2)
                  then (do
                    routes ← slice_from body start
                    decoded (length routes) routes (afi == 2))
                  else ok [])
            else ok [])
      else ok []

  -- The `while` over the attributes. Each round takes three bytes at least.
  pub attribute_routes : ℕ → List ℕ → Result (List Net)
  attribute_routes fuel [] = ok []
  attribute_routes zero (b ∷ bs) = out_of_fuel
  attribute_routes (suc fuel) (b ∷ bs) =
      let attrs = b ∷ bs in
      if ltb (length attrs) 3 then ok [] else (do
        flags ← index attrs 0
        kind ← index attrs 1
        let h = if not (bit_and flags 0x10 == 0) then 4 else 3
        if ltb (length attrs) h then ok [] else (do
          l ← if h == 4 then (do field ← slice_from attrs 2; u16b field) else index attrs 2
          if ltb (length attrs) (h + l) then ok [] else (do
            body ← slice attrs h (h + l)
            found ← reached kind l body
            behind ← slice_from attrs (h + l)
            rest ← attribute_routes fuel behind
            ok (found ++ rest))))

  pub update_prefixes : List ℕ → Result (List Net)
  update_prefixes b = if ltb (length b) 4 then ok [] else (do
    w ← u16b b
    if ltb (length b) (w + 4) then ok [] else (do
      a ← slice_from b (2 + w) >>= u16b
      if ltb (length b) (w + a + 4) then ok [] else (do
        tail ← slice_from b (4 + w + a)
        plain ← decoded (length tail) tail false
        attrs ← slice b (4 + w) (4 + w + a)
        routes ← attribute_routes (length attrs) attrs
        ok (plain ++ routes))))

unfoldable pub refresh_family : List ℕ → Negotiated → Result (Option Bool)
refresh_family b n = do
  ensure (length b == 4) "invalid ROUTE-REFRESH length"
  subtype ← index b 2
  if not (subtype == 0) then ok none else (do
    safi ← index b 3
    if not (safi == 1) then ok none else (do
      afi ← u16b b
      ok (
          if afi == 1 && n.ipv4
          then some false
          else if afi == 2 && n.ipv6
          then some true
          else none)))

pub data FsmState : Type 0 where
  open_sent open_confirm established : FsmState

-- `state as u8`
abbrev pub subcode_of : FsmState → ℕ
subcode_of open_sent = 1
subcode_of open_confirm = 2
subcode_of established = 3

unfoldable pub unexpected : FsmState → ℕ → List ℕ → Result Error
unexpected state kind body =
    if kind == 3
    then (if leb 2 (length body)
        then (do code ← index body 0; subcode ← index body 1; ok (message "peer sent NOTIFICATION"))
        else ok (message "peer sent truncated NOTIFICATION"))
    else ok (protocol_error 5 (subcode_of state) (kind ∷ []) "unexpected message in BGP state")
