-- ===== src/Bgp/Session/Closes.antt =====
-- How a session of a valid configuration runs and ends.
use ubgp.Base.{ℕ, ◌≡◌, ◌⊎◌, Bool, true, false, none, some, List, [], ◌∷◌, ◌++◌, All, ok, message}
use ubgp.Net.IpNet.{IpNet}
use ubgp.Config.{Config}
use ubgp.Management.{open_confirm, established, active}
use ubgp.Wire.Frame.{frame, keepalive}
use ubgp.Bgp.Receive.Safe.{IsPacket}
use ubgp.Bgp.Handshake.{Action, wrote, status, Ended}
use ubgp.Bgp.Handshake.Closes.{Reports}
use ubgp.Bgp.Session.{Half, receiver, transmitter}

-- What the receiver gets is what `read_frame` can return.
abbrev pub IsHalf : {Net : Type 0} → Half Net → Type 0
IsHalf (receiver arrivals) = All IsPacket arrivals
IsHalf (transmitter now exports events) = Unit

-- The status and the KEEPALIVE at the start.
abbrev pub opening : List ℕ → List Action
opening packet = status open_confirm none ∷ wrote packet ∷ []

-- A session that is still up has sent a KEEPALIVE and is established. One that ended could not
-- write its KEEPALIVE in time, or has reported its error, before it was established, or behind that
-- with the status of the error.
abbrev pub IsEnded : Bool → Ended → Type 0
IsEnded can_write (trace, none) =
    (can_write ≡ true)
    × (packet : List ℕ) × (frame keepalive [] ≡ ok packet)
    × (trace ≡ opening packet ++ (status established none ∷ []))
IsEnded can_write (trace, some e) =
    ((can_write ≡ false)
      × (trace ≡ status open_confirm none ∷ [])
      × (e ≡ message "BGP write deadline exceeded"))
    ⊎ ((can_write ≡ true)
        × (packet : List ℕ) × (notices : List Action) × (frame keepalive [] ≡ ok packet)
        × Reports e notices
        × ((trace ≡ opening packet ++ notices)
            ⊎ (trace
                ≡ (opening packet ++ (status established none ∷ []))
                  ++ (notices ++ (status active (some e) ∷ [])))))
