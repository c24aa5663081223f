-- ===== src/Bgp/Choose.antt =====
-- `prefer_incoming` and `choose` of src/bgp.rs. The selection is a state machine: a round of its
-- `select!` is a step on the branch that became ready, and the branches' conditions are the
-- guards. The socket of a candidate is left out; the clock appears as the event `deadline`,
-- and below as the time of each event.
pub mod Agreement
pub mod Keeps
pub mod Bounded
use ubgp.Base.{
  ℕ, ◌+◌, ◌-◌, ◌*◌, ◌^◌, Result, ok, err, panic, out_of_fuel, ensure, ◌>>=◌, ◌>>◌, leb, Bool, true,
  false, not, ◌&&◌, ◌||◌, Option, none, some, List, [], ◌∷◌, ltb, ◌==◌, if◌then◌else◌, String,
  is_empty,
}
use ubgp.Net.Addr.{Ipv4Addr, Ipv6Addr, octets_v4, lt_octets}
use ubgp.Config.{Config, Peer}
use ubgp.Wire.Open.{Negotiated}
use ubgp.Wire.Update.{same_family}

pub record Candidate : Type 0 where
  pub negotiated : Negotiated
  pub incoming : Bool
  pub link_local : Option Ipv6Addr

-- The locals of the loop: how many tasks the `JoinSet` holds, and the errors so far.
pub record Selection : Type 0 where
  pub tasks : ℕ
  pub errors : List String
  pub pending : Option Candidate
  pub incoming_started : Bool

-- What the `select!` can see: a connection or the end of the listener, a task that ended (with a
-- candidate, an error, or a panic), and the deadline.
pub data Event : Type 0 where
  accepted listener_stopped task_panicked deadline : Event
  opened : Candidate → Event
  failed : String → Event

-- `chosen c old` returns `c` after a NOTIFICATION to `old`.
pub data Outcome : Type 0 where
  waiting : Selection → Outcome
  chosen : Candidate → Option Candidate → Outcome
  bailed : Outcome

abbrev pub selection_start : Selection
selection_start = record { tasks = 1; errors = []; pending = none; incoming_started = false }

-- An outcome, and the deadline of `sleep_until` in milliseconds.
abbrev pub Timed : Type 0
Timed = Outcome × ℕ

abbrev pub is_none {ℓ} : {A : Type ℓ} → Option A → Bool
is_none none = true
is_none (some a) = false

module _ {Net : Type 0} (c : Config Net) (p : Peer) where
  -- `(cfg.router_id, cfg.asn) < (n.router_id, p.remote_asn)`, in the order of tuples.
  unfoldable pub prefer_incoming : Negotiated → Bool
  prefer_incoming n =
      let mine = octets_v4 c.router_id in
      let theirs = octets_v4 n.router_id in
      lt_octets mine theirs || not (lt_octets theirs mine) && ltb c.asn p.remote_asn

  -- What follows the `match` on a task's result.
  abbrev pub settle : Selection → Outcome
  settle s = if s.tasks == 0 && is_none s.pending && s.incoming_started then bailed else waiting s

  abbrev pub on_deadline : Option Candidate → Outcome
  on_deadline none = bailed
  on_deadline (some candidate) = chosen candidate none

  -- One round. A branch whose condition does not hold cannot become ready.
  pub step : Selection → Event → Outcome
  step s accepted =
      if not s.incoming_started
      then waiting (record s { incoming_started = true; tasks = s.tasks + 1 })
      else waiting s
  step s listener_stopped = if not s.incoming_started then bailed else waiting s
  step s task_panicked = if not (s.tasks == 0) then bailed else waiting s
  step s (opened candidate) =
      if not (s.tasks == 0)
      then (if same_family candidate.incoming (prefer_incoming candidate.negotiated)
          then chosen candidate s.pending
          else settle (record s { tasks = s.tasks - 1; pending = some candidate }))
      else waiting s
  step s (failed e) =
      if not (s.tasks == 0)
      then settle (record s { tasks = s.tasks - 1; errors = e ∷ s.errors })
      else waiting s
  step s deadline = on_deadline s.pending

  -- The loop over the events as they come.
  pub run_from : Outcome → List Event → Outcome
  run_from outcome [] = outcome
  run_from (waiting s) (e ∷ es) = run_from (step s e) es
  run_from (chosen candidate old) (e ∷ es) = chosen candidate old
  run_from bailed (e ∷ es) = bailed

  -- `deadline = Instant::now() + ..` behind a candidate that is kept.
  abbrev pub next_deadline : ℕ → Event → ℕ → ℕ
  next_deadline now (opened candidate) until = now + 500
  next_deadline now accepted until = until
  next_deadline now listener_stopped until = until
  next_deadline now task_panicked until = until
  next_deadline now deadline until = until
  next_deadline now (failed e) until = until

  -- One round at a time.
  unfoldable pub timed_step : Timed → ℕ × Event → Timed
  timed_step (waiting s, until) (now, e) =
      (step s e, if s.tasks == 0 then until else next_deadline now e until)
  timed_step (chosen candidate old, until) (now, e) = (chosen candidate old, until)
  timed_step (bailed, until) (now, e) = (bailed, until)

  unfoldable pub timed_rounds : Timed → List (ℕ × Event) → Timed
  timed_rounds t [] = t
  timed_rounds t (e ∷ es) = timed_rounds (timed_step t e) es

  -- `choose`, where the clock reaches up to `last`.
  unfoldable pub choose : ℕ → ℕ → List (ℕ × Event) → Result Timed
  choose last now es = do
    ensure (ltb (p.connect_timeout_secs + 2) (2 ^ 64)) "connection selection deadline overflow"
    ensure (leb (now + (p.connect_timeout_secs + 2) * 1000) last)
        "connection selection deadline exceeds clock range"
    ok (timed_rounds (waiting selection_start, now + (p.connect_timeout_secs + 2) * 1000) es)
