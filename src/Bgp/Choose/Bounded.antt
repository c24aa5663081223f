-- ===== src/Bgp/Choose/Bounded.antt =====
-- How long `choose` waits.
use ubgp.Base.{
  ℕ, ◌+◌, ◌*◌, ◌≤◌, ◌≡◌, ◌⊎◌, inl, inr, ◌^◌, lt→ltb, le→leb, refl, Option, none, some, List, [],
  ◌∷◌, arith, if◌then◌else◌, ok,
}
use ubgp.Config.{Config, Peer}
use ubgp.Bgp.Choose.{
  Candidate, Selection, Event, accepted, listener_stopped, task_panicked, deadline, opened, failed,
  Outcome, waiting, chosen, bailed, step, on_deadline, selection_start, Timed, timed_step,
  timed_rounds, choose,
}

-- Connections that may still open.
abbrev to_come : Selection → ℕ
to_come s = s.tasks + (if s.incoming_started then 0 else 1)

-- The deadline cannot move beyond the bound.
abbrev Below : ℕ → Timed → Type 0
Below bound (waiting s, until) = until + 500 * to_come s ≤ bound
Below bound (chosen a old, until) = Unit
Below bound (bailed, until) = Unit

-- A candidate or an error.
abbrev pub HasEnded : Outcome → Type 0
HasEnded (waiting s) = ⊥
HasEnded (chosen a old) = Unit
HasEnded bailed = Unit

module _ {Net : Type 0} (c : Config Net) (p : Peer) where
  on_deadline-HasEnded : (pending : Option Candidate) → HasEnded (on_deadline c p pending)
  on_deadline-HasEnded none = tt
  on_deadline-HasEnded (some a) = tt

  -- Each event comes no later than the deadline then in force.
  abbrev pub AreTimely : Timed → List (ℕ × Event) → Type 0
  AreTimely t [] = Unit
  AreTimely t ((now, e) ∷ es) = (now ≤ t.1) × AreTimely (timed_step c p t (now, e)) es

  timed_step-Below :
      (bound now : ℕ) (e : Event) (t : Timed)
      → now ≤ t.1
      → Below bound t
      → Below bound (timed_step c p t (now, e))
  unfolding timed_step step
  timed_step-Below bound now accepted (waiting s, until) due h = ground arith
  timed_step-Below bound now listener_stopped (waiting s, until) due h = ground arith
  timed_step-Below bound now task_panicked (waiting s, until) due h = ground arith
  timed_step-Below bound now deadline (waiting s, until) due h = ground arith
  timed_step-Below bound now (opened a) (waiting s, until) due h = ground arith
  timed_step-Below bound now (failed a) (waiting s, until) due h = ground arith
  timed_step-Below bound now e (chosen a old, until) due h = tt
  timed_step-Below bound now e (bailed, until) due h = tt

  timed_rounds-Below :
      (bound : ℕ) (t : Timed) (es : List (ℕ × Event))
      → AreTimely t es
      → Below bound t
      → Below bound (timed_rounds c p t es)
  unfolding timed_rounds
  timed_rounds-Below bound t [] timely h = h
  timed_rounds-Below bound t ((now, e) ∷ es) (due, timely) h =
      timed_rounds-Below bound (timed_step c p t (now, e)) es timely
        (timed_step-Below bound now e t due h)

  -- What the deadline does to an outcome.
  at_deadline :
      (bound : ℕ) (t : Timed)
      → Below bound t
      → HasEnded t.0 ⊎ ((t.1 ≤ bound) × HasEnded (timed_step c p t (t.1, deadline)).0)
  unfolding timed_step step
  at_deadline bound (waiting s, until) h = inr (omega (arith, h), on_deadline-HasEnded s.pending)
  at_deadline bound (chosen a old, until) h = inl tt
  at_deadline bound (bailed, until) h = inl tt

  -- With a timeout of at most a day and a clock that reaches far enough, `choose` does not fail at
  -- its start. When each event comes no later than the deadline then in force, it has ended, or its
  -- deadline, which ends it, is at most the timeout and three seconds after its start: the
  -- settling time of a candidate is added no more than twice.
  pub choose-HasEnded :
      (last now : ℕ) (es : List (ℕ × Event))
      → p.connect_timeout_secs ≤ 86400
      → now + (p.connect_timeout_secs + 2) * 1000 ≤ last
      → AreTimely (waiting selection_start, now + (p.connect_timeout_secs + 2) * 1000) es
      → (t : Timed) × (choose c p last now es ≡ ok t)
        × (HasEnded t.0
            ⊎ ((t.1 ≤ now + (p.connect_timeout_secs + 3) * 1000)
                × HasEnded (timed_step c p t (t.1, deadline)).0))
  unfolding choose
  choose-HasEnded last now es day range timely =
      let first : Timed = (waiting selection_start, now + (p.connect_timeout_secs + 2) * 1000) in
      (
        timed_rounds c p first es,
        rw
            (
              lt→ltb (p.connect_timeout_secs + 2) (2 ^ 64) (omega arith),
              le→leb (now + (p.connect_timeout_secs + 2) * 1000) last range,
            )
            refl,
        at_deadline (now + (p.connect_timeout_secs + 3) * 1000) (timed_rounds c p first es) (
            timed_rounds-Below (now + (p.connect_timeout_secs + 3) * 1000) first es timely
              (omega arith)),
      )
