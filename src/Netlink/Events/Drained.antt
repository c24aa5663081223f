-- ===== src/Netlink/Events/Drained.antt =====
-- `drain`: what it takes from a socket, and what its flags say of that.
use ubgp.Base.{
  ◌∙◌, Bool-cases, ap, ℕ, zero, suc, ◌+◌, ◌≤◌, ◌≡◌, ◌⊎◌, inl, inr, refl, Bool, true, false, not,
  ◌||◌, List, [], ◌∷◌, ◌++◌, length, any, arith, Result, Checked, ok, if◌then◌else◌,
}
use ubgp.Netlink.Events.Told.{
  collect, listed, is_err, is_loss, is_change, is_last, is_datagram, loses, changes, ends_batch,
  counts, count_datagrams, recv-Agrees,
}
use ubgp.Netlink.Message.{Message}
use ubgp.Netlink.Message.Ending.{Ends, fine, failing}
use ubgp.Netlink.Message.Total.{messages_total}
use ubgp.Netlink.Message.Related.{messages-Agree}
use ubgp.Netlink.Events.{
  Arrival, Received, would_block, interrupted, failed, datagram, recv, Events, no_events,
  tells_loss, tells_change, note, counted, lose, lose_if_err, note_all, drain_round, drain_rounds,
}

-- The events `e'` are `e` with a loss, a change and datagrams added.
pub record Adds (e e' : Events) (loss change : Bool) (n : ℕ) : Type 0 where
  pub lost_is : e'.lost ≡ (e.lost || loss)
  pub changed_is : e'.changed ≡ (e.changed || change)
  pub datagrams_are : e'.datagrams ≡ e.datagrams + n

-- The events after these messages of a datagram.
Noted : Events → Events → List Message → Type 0
Noted e e' ms = Adds e e' (any (λ m. tells_loss m.kind) ms) (any (λ m. tells_change m.kind) ms) 0

note-Noted :
    (e : Events) (m : Message) (e' : Events) (ms : List Message)
    → Noted e e' ms
    → ((note m e').0 ≡ (collect m ms).0) × Noted e (note m e').1 (collect m ms).1
unfolding Noted note
note-Noted e m e' ms h =
    let lost_is = h.lost_is in
    let changed_is = h.changed_is in
    let datagrams_are = h.datagrams_are in
    (
      refl,
      record { lost_is = ground arith; changed_is = ground arith; datagrams_are = ground arith },
    )

listed-Ends :
    (bytes : List ℕ) → Ends (λ ms. Unit {0}) (λ ms. Unit {0}) (listed bytes).0 (listed bytes).1
listed-Ends bytes =
    messages_total collect _ _ (length bytes) bytes [] (λ m ms h. fine tt) (λ ms h. h) (omega arith)
      tt

or_true : (b : Bool) → true ≡ (b || true)
or_true true = refl
or_true false = refl

or_assoc : (a b c : Bool) → ((a || b) || c) ≡ (a || (b || c))
or_assoc true b c = refl
or_assoc false b c = refl

or_false : (b : Bool) → b ≡ (b || false)
or_false true = refl
or_false false = refl

Adds-loss :
    {n : ℕ} (e e' : Events)
    → e'.changed ≡ e.changed
    → e'.datagrams ≡ e.datagrams + n
    → Adds e (lose e') true false n
Adds-loss e e' same more = record {
  lost_is = or_true e.lost;
  changed_is = same ∙ or_false e.changed;
  datagrams_are = more;
}

-- What a datagram adds to the events.
Taken : Events → Result Events → Checked → List Message → Type 0
Taken e r outcome ms =
    (e' : Events) × (r ≡ ok e')
    × Adds e e' (is_err outcome || any (λ m. tells_loss m.kind) ms)
        (any (λ m. tells_change m.kind) ms) 1

lose_if_err-Taken :
    {r : Checked} {ms : List Message} (e e' : Events)
    → Ends (λ ms'. Unit {0}) (λ ms'. Unit {0}) r ms
    → Noted (counted e) e' ms
    → Taken e (lose_if_err (r, e')) r ms
unfolding Noted Taken
lose_if_err-Taken e e' (fine h) noted =
    let datagrams_are = noted.datagrams_are in
    (
      e',
      refl,
      record {
        lost_is = noted.lost_is;
        changed_is = noted.changed_is;
        datagrams_are = omega (arith, datagrams_are);
      },
    )
lose_if_err-Taken e e' (failing h) noted =
    let datagrams_are = noted.datagrams_are in
    (
      lose e',
      refl,
      record {
        lost_is = or_true e.lost;
        changed_is = noted.changed_is;
        datagrams_are = omega (arith, datagrams_are);
      },
    )

Noted-none : (e : Events) → Noted e e []
unfolding Noted
Noted-none e = record {
  lost_is = or_false e.lost;
  changed_is = or_false e.changed;
  datagrams_are = omega arith;
}

note_all-Taken :
    (bytes : List ℕ) (e : Events) → Taken e (note_all bytes e) (listed bytes).0 (listed bytes).1
unfolding note_all
note_all-Taken bytes e =
    let start = Noted-none (counted e) in
    let (agree, noted) =
      messages-Agree (Noted (counted e)) note collect (length bytes) bytes (counted e) []
        (λ m s t. note-Noted (counted e) m s t) start in
    rw agree (lose_if_err-Taken e _ (listed-Ends bytes) noted)

-- What comes first, and what comes then.
Adds-append :
    {e e' e'' : Events} {loss loss' change change' : Bool} {n n' : ℕ}
    → Adds e e' loss change n
    → Adds e' e'' loss' change' n'
    → Adds e e'' (loss || loss') (change || change') (n + n')
Adds-append {e} {loss} {loss'} {change} {change'} h k = record {
  lost_is = k.lost_is ∙ ap (λ b. b || loss') h.lost_is ∙ or_assoc e.lost loss loss';
  changed_is =
      k.changed_is ∙ ap (λ b. b || change') h.changed_is ∙ or_assoc e.changed change change';
  datagrams_are = omega (arith, h.datagrams_are, k.datagrams_are);
}

-- What `n` rounds take of a socket: of the arrivals that were seen, the first that ends the batch
-- can only be the last.
pub record Drained (n : ℕ) (queue : List Arrival) (e : Events) : Type 0 where
  pub seen : List Arrival
  pub rest : List Arrival
  pub events : Events
  pub all_of_it : queue ≡ seen ++ rest
  pub ends : drain_rounds n queue e ≡ ok (events, rest)
  pub few : length seen ≤ n
  pub adds : Adds e events (any loses seen) (any changes seen) (count_datagrams seen)
  -- The batch is full, the socket is empty, or the last arrival ended it.
  pub enough : (length seen ≡ n) ⊎ (rest ≡ []) ⊎ (any ends_batch seen ≡ true)

-- What one arrival does.
record Round (r : Received) (e : Events) : Type 0 where
  events : Events
  ends : drain_round r e ≡ ok (not (is_last r), events)
  adds : Adds e events (is_loss r) (is_change r) (if is_datagram r then 1 else 0)

drain_round-Round : (r : Received) (e : Events) → Round r e
unfolding drain_round Noted Taken
drain_round-Round would_block e = record { events = e; ends = refl; adds = Noted-none e }
drain_round-Round interrupted e = record { events = e; ends = refl; adds = Noted-none e }
drain_round-Round failed e = record {
  events = lose e;
  ends = refl;
  adds = Adds-loss e e refl (omega arith);
}
drain_round-Round (datagram []) e = record {
  events = lose (counted e);
  ends = refl;
  adds = Adds-loss e (counted e) refl refl;
}
drain_round-Round (datagram (b ∷ bs)) e =
    let (e', ends, adds) = note_all-Taken (b ∷ bs) e in
    record { events = e'; ends = rw ends refl; adds = adds }

-- The same by what arrives.
record Arrived (a : Arrival) (e : Events) : Type 0 where
  events : Events
  ends : drain_round (recv a) e ≡ ok (not (ends_batch a), events)
  adds : Adds e events (loses a) (changes a) (counts a)

Arrived_lem : (a : Arrival) (e : Events) → Arrived a e
Arrived_lem a e =
    let round = drain_round-Round (recv a) e in
    let told = recv-Agrees a in
    record {
      events = round.events;
      ends = rw told.last round.ends;
      adds = rw (told.loss, told.change, told.count) round.adds;
    }

drain_rounds-Drained : (n : ℕ) (queue : List Arrival) (e : Events) → Drained n queue e
unfolding drain_rounds Noted count_datagrams
drain_rounds-Drained zero queue e = record {
  seen = [];
  rest = queue;
  events = e;
  all_of_it = refl;
  ends = refl;
  few = omega arith;
  adds = Noted-none e;
  enough = inl refl;
}
drain_rounds-Drained (suc n) [] e = record {
  seen = [];
  rest = [];
  events = e;
  all_of_it = refl;
  ends = refl;
  few = omega arith;
  adds = Noted-none e;
  enough = inr (inl refl);
}
drain_rounds-Drained (suc n) (a ∷ queue) e =
    let round = Arrived_lem a e in
    elim (Bool-cases (ends_batch a)) [
      | inl last ↦ record {
        seen = a ∷ [];
        rest = queue;
        events = round.events;
        all_of_it = refl;
        ends = rw (round.ends, last) refl;
        few = omega arith;
        adds = Adds-append round.adds (Noted-none round.events);
        enough = inr (inr (rw last refl));
      }
      | inr more ↦
          let next = drain_rounds-Drained n queue round.events in
          record {
            seen = a ∷ next.seen;
            rest = next.rest;
            events = next.events;
            all_of_it = ap (λ q. a ∷ q) next.all_of_it;
            ends = rw (round.ends, more) next.ends;
            few = omega (arith, next.few);
            adds = Adds-append round.adds next.adds;
            enough = elim next.enough [
              | inl full ↦ inl (ap suc full)
              | inr (inl empty) ↦ inr (inl empty)
              | inr (inr last) ↦ inr (inr (rw (more, last) refl))
            ];
          }
    ]

-- `drain` takes at most 128 arrivals, in order, and all of them unless one ends the batch: nothing
-- queued, an error, or an empty datagram. It says lost exactly when one of them is an error, a
-- datagram that was truncated or is not from port 0 of a netlink address, an empty or malformed
-- one, or one with a message of NLMSG_ERROR or NLMSG_OVERRUN. It says changed exactly when a
-- datagram from the kernel has a message of a kind from 16 to 28 or from 104 to 106. It never
-- panics.
pub drain-Drained : (queue : List Arrival) → Drained 128 queue no_events
drain-Drained queue = drain_rounds-Drained 128 queue no_events
