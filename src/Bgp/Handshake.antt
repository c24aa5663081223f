-- ===== src/Bgp/Handshake.antt =====
-- `report` and `handshake` of src/bgp.rs: a connection up to the exchange of OPENs. A trace lists
-- what is written to the peer and what the status shows.
pub mod Closes
use ubgp.Base.{
  ℕ, Bool, true, false, not, ◌⊎◌, inl, inr, Option, none, some, List, [], ◌∷◌, ◌++◌, ltb, ◌==◌,
  if◌then◌else◌, Error, protocol, unexpected_eof, message, Result, ok, err, panic, out_of_fuel,
  ensure, ◌>>=◌, ◌>>◌,
}
use ubgp.Net.Addr.{Ipv6Addr}
use ubgp.Config.{Peer, Config}
use ubgp.Management.{State}
use ubgp.Wire.Frame.{notification}
use ubgp.Wire.Open.{open_message, parse_open}
use ubgp.Wire.Routes.{FsmState, unexpected}
use ubgp.Bgp.Choose.{Candidate}
use ubgp.Bgp.Local.{Interface, check_local_addresses}

-- What a connection shows: a packet that is written, and a status with its error.
pub data Action : Type 0 where
  wrote : List ℕ → Action
  status : State → Option Error → Action

-- A trace so far, and the error that ended the connection.
abbrev pub Ended : Type 0
Ended = List Action × Option Error

-- `report`: a NOTIFICATION for a protocol error. Whether it still reaches the peer is ignored.
unfoldable pub report : Error → Result (List Action)
report (protocol e) = do packet ← notification e.code e.subcode e.error_data; ok (wrote packet ∷ [])
report unexpected_eof = ok []
report (message text) = ok []

-- The trace of a connection that `e` ends, with its report.
unfoldable pub close_with : List Action → Error → Result Ended
close_with trace e = do notices ← report e; ok (trace ++ notices, some e)

-- What a read gives: its time in seconds since the connection was made, and its result. `none`
-- never comes.
abbrev pub Reading : Type 0
Reading = Option (ℕ × Result (ℕ × List ℕ))

-- `timeout`: a reading behind the deadline is replaced by `late`.
unfoldable pub within : ℕ → Error → Reading → Result (ℕ × List ℕ)
within seconds late none = err late
within seconds late (some (time, r)) = if ltb seconds time then err late else r

-- A trace, and the candidate or an error.
abbrev pub Opened : Type 0
Opened = List Action × (Candidate ⊎ Error)

-- What follows the exchange of OPENs. The message of a timeout has no report.
unfoldable pub after_open : List Action → Result Candidate → Result Opened
after_open trace (ok candidate) = ok (trace, inl candidate)
after_open trace (err e) = do notices ← report e; ok (trace ++ notices, inr e)
after_open trace panic = panic
after_open trace out_of_fuel = out_of_fuel

module _ {Net : Type 0} where
  unfoldable pub finish_open :
      Config Net → Peer → Bool → Option Ipv6Addr → ℕ × List ℕ → Result Candidate
  finish_open c p incoming link_local (kind, body) =
      if not (kind == 1) then (do e ← unexpected FsmState.open_sent kind body; err e) else (do
        n ← parse_open body c p
        ok (record { negotiated = n; incoming = incoming; link_local = link_local }))

  unfoldable pub exchange :
      Config Net → Peer → Bool → Bool → Reading → Result (Option Ipv6Addr) → Result Opened
  exchange c p incoming can_write reading (ok link_local) = do
    packet ← open_message c p
    if not can_write
        then ok ([], inr (message "BGP write deadline exceeded"))
        else after_open (wrote packet ∷ []) (
            within p.connect_timeout_secs (message "OPEN timeout") reading
            >>= finish_open c p incoming link_local)
  exchange c p incoming can_write reading (err e) = ok ([], inr e)
  exchange c p incoming can_write reading panic = panic
  exchange c p incoming can_write reading out_of_fuel = out_of_fuel

  -- `configured` and `can_write` say whether the socket's options and the write of OPEN succeed.
  unfoldable pub handshake :
      Config Net → Peer → Bool → Bool → Option (List Interface) → Bool → Reading → Result Opened
  handshake c p incoming configured interfaces can_write reading =
      exchange c p incoming can_write reading
        (ensure configured "io error" >> check_local_addresses interfaces p)
