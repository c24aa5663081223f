-- ===== src/Bgp/Choose/Keeps.antt =====
-- A candidate that has opened is not lost.
use ubgp.Base.{◌≡◌, false, Option, none, some, List, [], ◌∷◌, All, arith}
use ubgp.Config.{Config, Peer}
use ubgp.Bgp.Choose.{
  Candidate, Selection, Event, accepted, listener_stopped, task_panicked, deadline, opened, failed,
  Outcome, waiting, chosen, bailed, is_none, step, run_from, on_deadline,
}

-- Neither the end of the listener nor a panic.
abbrev pub IsBenign : Event → Type 0
IsBenign accepted = Unit
IsBenign listener_stopped = ⊥
IsBenign task_panicked = ⊥
IsBenign deadline = Unit
IsBenign (opened c) = Unit
IsBenign (failed e) = Unit

-- A candidate is chosen or kept.
abbrev pub HasCandidate : Outcome → Type 0
HasCandidate (waiting s) = is_none s.pending ≡ false
HasCandidate (chosen c old) = Unit
HasCandidate bailed = ⊥

module _ {Net : Type 0} (c : Config Net) (p : Peer) where
  on_deadline-HasCandidate :
      (pending : Option Candidate)
      → is_none pending ≡ false
      → HasCandidate (on_deadline c p pending)
  on_deadline-HasCandidate none h = cc
  on_deadline-HasCandidate (some a) h = tt

  step-HasCandidate :
      (s : Selection) (e : Event)
      → IsBenign e
      → is_none s.pending ≡ false
      → HasCandidate (step c p s e)
  unfolding step
  step-HasCandidate s accepted b h = ground arith
  step-HasCandidate s listener_stopped b h = absurd b
  step-HasCandidate s task_panicked b h = absurd b
  step-HasCandidate s deadline b h = on_deadline-HasCandidate s.pending h
  step-HasCandidate s (opened candidate) b h = ground arith
  step-HasCandidate s (failed e) b h = ground arith

  -- Once a candidate is pending, whatever happens but the end of the listener or a panic of a
  -- task, the selection does not fail: it waits with a candidate, or has chosen one.
  pub run_from-HasCandidate :
      (outcome : Outcome) (events : List Event)
      → HasCandidate outcome
      → All IsBenign events
      → HasCandidate (run_from c p outcome events)
  unfolding run_from
  run_from-HasCandidate outcome [] h b = h
  run_from-HasCandidate (waiting s) (e ∷ es) h b =
      run_from-HasCandidate (step c p s e) es (step-HasCandidate s e b.0 h) b.1
  run_from-HasCandidate (chosen candidate old) (e ∷ es) h b = tt
  run_from-HasCandidate bailed (e ∷ es) h b = h
