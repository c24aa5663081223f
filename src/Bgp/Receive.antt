-- ===== src/Bgp/Receive.antt =====
-- `Refresh::request` and `receive` of src/bgp.rs. What the peer sends is a list of arrivals: the
-- time in seconds at which a call of `read_frame` is ready, and its result. When the list ends the
-- peer stays silent. A packet that is ready at the deadline itself is still taken.
pub mod Safe
use ubgp.Base.{
  ℕ, ◌+◌, Bool, true, false, not, ◌&&◌, Option, none, some, List, [], ◌∷◌, Result, ok, err, Error,
  ◌>>=◌, ◌>>◌, ltb, ◌==◌, if◌then◌else◌, bit_or,
}
use ubgp.Net.IpNet.{IpNet}
use ubgp.Wire.Frame.{protocol_error, frame, keepalive, update_kind, route_refresh}
use ubgp.Wire.Open.{Negotiated}
use ubgp.Wire.Validate.{UpdateAction, valid, attribute_discard, treat_as_withdraw, validate_update}
use ubgp.Wire.Routes.{update_prefixes, refresh_family, established, unexpected}

pub record Arrival : Type 0 where
  pub at : ℕ
  pub packet : Result (ℕ × List ℕ)

-- The deadline of the hold timer, and the bits of `Refresh`.
pub record Inbox : Type 0 where
  pub expires : ℕ
  pub pending : ℕ

-- `Refresh::request`
abbrev pub request : Bool → ℕ → ℕ
request is_v6 pending = bit_or pending (if is_v6 then 2 else 1)

abbrev pub request_some : Option Bool → ℕ → ℕ
request_some none pending = pending
request_some (some is_v6) pending = request is_v6 pending

abbrev pub is_valid : UpdateAction → Bool
is_valid valid = true
is_valid attribute_discard = false
is_valid treat_as_withdraw = false

abbrev pub hold_expired : Error
hold_expired = protocol_error 4 0 [] "hold timer expired"

module _ (Net : Type 0) ⦃ops : IpNet Net⦄ where
  -- What the warning about a recovered UPDATE computes.
  pub warn : List ℕ → Result (List Net × List ℕ)
  warn body = do
    prefixes ← update_prefixes body
    packet ← frame update_kind body
    ok (prefixes, packet)

  -- The `match` on a packet, at time `now`.
  pub handle : Negotiated → ℕ → ℕ → List ℕ → Inbox → Result Inbox
  handle n now kind body s =
      if kind == keepalive
      then ok (record s { expires = now + n.hold })
      else if kind == update_kind
      then (do
        action ← validate_update body n
        if is_valid action
            then ok (record s { expires = now + n.hold })
            else (do text ← warn body; ok (record s { expires = now + n.hold })))
      else if kind == route_refresh
      then (do
        family ← refresh_family body n
        ok (record s { pending = request_some family s.pending }))
      else (do e ← unexpected established kind body; err e)

  -- The loop. It only ends with an error; `ok` means that it is still waiting.
  pub receive : Negotiated → List Arrival → Inbox → Result Inbox
  receive n [] s = if n.hold == 0 then ok s else err hold_expired
  receive n (a ∷ rest) s =
      if not (n.hold == 0) && ltb s.expires a.at
      then err hold_expired
      else (do packet ← a.packet; s' ← handle n a.at packet.0 packet.1 s; receive n rest s')
