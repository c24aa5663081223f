-- ===== src/Bgp/PeerLoop.antt =====
-- `peer_loop` of src/bgp.rs: the rounds of one peer, and how long it waits between them. What a
-- round meets is its list of events; a session is seen by its result and how long it Lasted.
pub mod Delays
use ubgp.Base.{
  ℕ, ◌+◌, ◌-◌, ◌*◌, ◌^◌, min, Bool, Option, none, some, List, [], ◌∷◌, ◌++◌, replicate, leb,
  if◌then◌else◌, Error, message, Result, ok, err, ◌>>=◌,
}
use ubgp.Management.{connect, active}
use ubgp.Wire.Frame.{notification}
use ubgp.Bgp.Handshake.{Action, wrote, status}

-- The first half of a round: `choose` failed, a session ended after this many seconds while these
-- many connections came in, or the listener stopped.
pub data Tried : Type 0 where
  unselected : Error → Tried
  held : Option Error → ℕ → ℕ → Tried
  listener_stopped : Tried

-- What ends the waiting: the timer, an incoming connection without or with a session, or the end
-- of the listener.
pub data Waited : Type 0 where
  slept listener_gone : Waited
  refused : Error → Waited
  served : Option Error → Waited

-- A round, with the milliseconds of the clock that are added to its delay.
pub record Round : Type 0 where
  pub tried : Tried
  pub jitter : ℕ
  pub waited : Waited

-- `if let Err(e) = result`
abbrev pub show_error : Option Error → List Action
show_error none = []
show_error (some e) = status active (some e) ∷ []

-- The actions of the first half, and the failures before this round is counted.
unfoldable pub try_once : Tried → ℕ → Result (List Action × ℕ)
try_once (unselected e) failures = ok (show_error (some e), failures)
try_once (held result seconds redundant) failures = do
  packet ← notification 6 7 []
  ok (
    replicate redundant (wrote packet) ++ show_error result,
    if leb 30 seconds then 0 else failures,
  )
try_once listener_stopped failures = err (message "listener stopped")

-- `failures.saturating_add(1)` on u32
abbrev pub count_failure : ℕ → ℕ
count_failure failures = min (failures + 1) (2 ^ 32 - 1)

-- `(1u64 << failures.min(5)).min(30)` seconds
abbrev pub base_secs : ℕ → ℕ
base_secs failures = min (2 ^ min failures 5) 30

unfoldable pub wait_once : Waited → Result (List Action)
wait_once slept = ok []
wait_once (refused e) = ok (show_error (some e))
wait_once (served result) = ok (show_error result)
wait_once listener_gone = err (message "listener stopped")

-- The delay in milliseconds, the actions, and the failures behind a round.
pub record Turn : Type 0 where
  pub delay : ℕ
  pub actions : List Action
  pub failures : ℕ

unfoldable pub peer_round : ℕ → Round → Result Turn
peer_round failures r = do
  (tried, failures') ← try_once r.tried failures
  let counted = count_failure failures'
  waited ← wait_once r.waited
  ok (record {
    delay = base_secs counted * 1000 + r.jitter;
    actions = status connect none ∷ (tried ++ (status active none ∷ waited));
    failures = counted;
  })

-- The loop, which only ends with an error; `ok` gives the turns so far.
unfoldable pub peer_loop : ℕ → List Round → Result (List Turn)
peer_loop failures [] = ok []
peer_loop failures (r ∷ rs) = do
  turn ← peer_round failures r
  turns ← peer_loop turn.failures rs
  ok (turn ∷ turns)
