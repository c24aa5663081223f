-- ===== src/Management.antt =====
-- src/management.rs: the states of the peers, and the console.
pub mod Line
pub mod Console
use ubgp.Base.{
  ℕ, Bool, true, false, ◌&&◌, not, Option, none, some, List, [], ◌∷◌, Str, leb, map, if◌then◌else◌,
}
use ubgp.Config.{Peer, Config}

-- The texts of `state`.
pub data State : Type 0 where
  idle connect open_confirm established active : State

-- `since` is a time in nanoseconds.
pub record PeerStatus : Type 0 where
  pub state : State
  pub since : ℕ
  pub last_error : Option Str

unfoldable pub statuses : {Net : Type 0} → ℕ → Config Net → List PeerStatus
statuses now c = map (λ p. record { state = idle; since = now; last_error = none }) c.peers

unfoldable pub update : ℕ → State → Option Str → PeerStatus → PeerStatus
update now state none s = record s { state = state; since = now }
update now state (some e) s = record s { state = state; since = now; last_error = some e }

-- A character of the text, which is ASCII and no control character.
abbrev pub is_printable : ℕ → Bool
is_printable c = leb 32 c && leb c 126

-- On the code points of a text.
unfoldable pub safe : List ℕ → Str
safe text = map (λ c. if is_printable c then c else 63) text
