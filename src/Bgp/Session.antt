-- ===== src/Bgp/Session.antt =====
-- `session` of src/bgp.rs: a connection from the OPENs to its end.
pub mod Closes
use ubgp.Base.{
  ℕ, ◌+◌, Bool, true, false, not, ◌&&◌, Option, none, some, List, [], ◌∷◌, ◌++◌, Str, ◌==◌,
  if◌then◌else◌, Error, message, Result, Checked, ok, err, panic, out_of_fuel, ◌>>=◌, ◌>>◌,
}
use ubgp.Net.IpNet.{IpNet}
use ubgp.Config.{Peer, Config}
use ubgp.Config.Validate.{is_none}
use ubgp.Management.{open_confirm, established, active}
use ubgp.Wire.Frame.{protocol_error, frame, keepalive}
use ubgp.Wire.Open.{Negotiated}
use ubgp.Wire.Routes.{FsmState, unexpected}
use ubgp.Bgp.Choose.{Candidate}
use ubgp.Bgp.Receive.{Arrival, receive}
use ubgp.Bgp.Transmit.{Event, start, run}
use ubgp.Bgp.Handshake.{Action, wrote, status, Ended, report, close_with, Reading, within}

-- The link-local next hop of the interface, where none is configured.
unfoldable pub with_link_local : Candidate → Peer → Peer
with_link_local candidate p =
    if p.ipv6 && is_none p.next_hop_v6_link_local
    then record p { next_hop_v6_link_local = candidate.link_local }
    else p

-- Which half of the session ends first, with what it sees.
pub data Half (Net : Type 0) : Type 0 where
  receiver : List Arrival → Half Net
  transmitter : ℕ → List (Str × List Net) → List (Event Net) → Half Net

abbrev pub confirm_late : Negotiated → Error
confirm_late n = protocol_error (if n.hold == 0 then 5 else 4) 0 [] "OpenConfirm timeout"

abbrev pub confirm_secs : Peer → Negotiated → ℕ
confirm_secs p n = if n.hold == 0 then p.connect_timeout_secs else n.hold

-- What the message in OpenConfirm must be.
unfoldable pub finish_confirm : ℕ × List ℕ → Checked
finish_confirm (kind, body) =
    if not (kind == keepalive)
    then (do e ← unexpected FsmState.open_confirm kind body; err e)
    else ok tt

-- The end of an established session.
unfoldable pub after_halves : List Action → Checked → Result Ended
after_halves trace (ok u) = ok (trace, none)
after_halves trace (err e) = do
  notices ← report e
  ok (trace ++ (notices ++ (status active (some e) ∷ [])), some e)
after_halves trace panic = panic
after_halves trace out_of_fuel = out_of_fuel

unfoldable pub after_confirm : List Action → Checked → Checked → Result Ended
after_confirm trace (ok u) halves = after_halves (trace ++ (status established none ∷ [])) halves
after_confirm trace (err e) halves = close_with trace e
after_confirm trace panic halves = panic
after_confirm trace out_of_fuel halves = out_of_fuel

module _ {Net : Type 0} ⦃ops : IpNet Net⦄ where
  -- The `select!`: `ok` while both halves still run. A time of the receiver is in seconds.
  unfoldable pub run_halves : Config Net → Peer → Negotiated → ℕ → Half Net → Checked
  run_halves c p n now (receiver arrivals) = do
    s ← receive Net n arrivals (record { expires = now + n.hold; pending = 0 })
    ok tt
  run_halves c p n now (transmitter start_ms exports events) = do
    s ← run c p n events (start c p n start_ms exports)
    ok tt

  -- `none` in the result: the session is still up.
  unfoldable pub session :
      Config Net → Peer → Candidate → Bool → Reading → ℕ → Half Net → Result Ended
  session c p candidate can_write reading now half = do
    let n = candidate.negotiated
    let p' = with_link_local candidate p
    packet ← frame keepalive []
    if not can_write
        then ok (status open_confirm none ∷ [], some (message "BGP write deadline exceeded"))
        else after_confirm (status open_confirm none ∷ wrote packet ∷ [])
            (within (confirm_secs p' n) (confirm_late n) reading >>= finish_confirm)
            (run_halves c p' n now half)
