-- ===== src/Netlink/Snapshot/Ends.antt =====
-- The dump loops end by their deadline.
use ubgp.Base.{
  subst, sym, ℕ, ◌*◌, ◌≡◌, refl, Bool, true, false, not, Option, none, some, List, [], ◌∷◌, ◌++◌,
  ltb, any, arith, ◌&&◌,
}
use ubgp.Base.Ensures.{
  Checks, holds, rejected, Ensures-weaken, Ensures-if, Ensures-bind, ensure-Checks,
}
use ubgp.Net.IpNet.{IpNet, IpNetLaws, eq_of_net}
use ubgp.Config.{Config}
use ubgp.Netlink.Message.Ending.{
  Ends, fine, Ends-attempt, Ends-then, Ends-if, Ends-weaken, Ends-Checks,
}
use ubgp.Netlink.Message.Total.{Ensures-ensure}
use ubgp.Netlink.Events.{Arrival, drain}
use ubgp.Netlink.Events.Drained.{drain-Drained}
use ubgp.Netlink.Snapshot.{
  Pass, Polled, Progress, poll, take_replies, pass, await_done, close, or_error, request,
  request_bytes, dump_table, dump_tables, dump_families, start, snapshot, next_seq,
}
use ubgp.Netlink.Snapshot.Bounded.{Any, InBounds, DumpInBounds, reply_rounds-Checks}

pub drain-Checks : (queue : List Arrival) → Checks (λ r. Unit {0}) (drain queue)
drain-Checks queue = rw (drain-Drained queue).ends (holds tt)

pub poll-Checks : (p : Polled) → Checks (λ u. Unit {0}) (poll p)
unfolding poll
poll-Checks p =
    Ensures-if (p.poll_failed && not p.poll_interrupted) (λ e. rejected tt)
      (λ e. Ensures-weaken (ensure-Checks _ _) λ u h. tt)

or_error-Checks : {A : Type 0} (o : Option A) → Checks (λ a. Unit {0}) (or_error o)
or_error-Checks none = rejected tt
or_error-Checks (some a) = holds tt

module _ {Net : Type 0} ⦃ops : IpNet Net⦄ (laws : IpNetLaws ops) (c : Config Net) where
  abbrev pub deadline : ℕ
  deadline = c.kernel.dump_timeout_secs * 1_000_000_000

  -- A pass to come is at the deadline or behind it.
  abbrev pub Late : List Pass → Type 0
  Late passes = any (λ p. not (ltb p.elapsed deadline)) passes ≡ true

  Bounded : Progress Net → Type 0
  Bounded s = DumpInBounds laws c s.dump

  -- Bounded, with these passes to come.
  BoundedWith : List Pass → Progress Net → Type 0
  BoundedWith passes s = Bounded s × (s.passes ≡ passes)

  take_replies-Ends :
      (p : Pass) (s : Progress Net)
      → Bounded s
      → Ends (BoundedWith s.passes) Any (take_replies c p s).0 (take_replies c p s).1
  unfolding take_replies BoundedWith Bounded
  take_replies-Ends p s bounds =
      let I = BoundedWith s.passes in
      Ends-attempt I Any (reply_rounds-Checks laws c 128 s.seq _ s.dump bounds) tt λ (d, replies) h.
        Ends-Checks I Any {P = Any} (Ensures-if d.done (λ e. holds tt) (λ e. poll-Checks p.polled))
          (λ u. (h, refl)) tt

  -- A pass that succeeds was before the deadline.
  Timely : Pass → Progress Net → Progress Net → Type 0
  Timely p s s' = BoundedWith s.passes s' × (ltb p.elapsed deadline ≡ true)

  pass-Ends :
      (p : Pass) (s : Progress Net)
      → Bounded s
      → Ends (Timely p s) Any (pass c p s).0 (pass c p s).1
  unfolding pass Timely Bounded
  pass-Ends p s bounds =
      let I = Timely p s in
      let queued = s.events ++ p.new_events in
      Ends-attempt I Any {P = λ r. ltb p.elapsed deadline ≡ true}
        (Ensures-ensure (not p.stopping) _ _ λ going.
          Ensures-bind (ensure-Checks (ltb p.elapsed deadline) _)
            λ u timely. Ensures-weaken (drain-Checks queued) λ r h. timely)
        tt
        λ (ev, events) timely.
          Ends-attempt I Any {P = Any} (Ensures-weaken (ensure-Checks (not ev.lost) _) λ u h. tt) tt
            λ u h. Ends-weaken I Any (take_replies-Ends p _ bounds) λ s' h'. (h', timely)

  -- Bounded, with a late pass still to come.
  Waiting : Progress Net → Type 0
  Waiting s = Bounded s × Late s.passes

  Late-behind :
      (p : Pass) (ps : List Pass) → Late (p ∷ ps) → ltb p.elapsed deadline ≡ true → Late ps
  Late-behind p ps late timely = ground arith

  await_done-Ends :
      (passes : List Pass) (s : Progress Net)
      → Bounded s
      → Late passes
      → Ends Waiting Any (await_done c passes s).0 (await_done c passes s).1
  unfolding await_done Waiting Timely BoundedWith Bounded
  await_done-Ends [] s bounds late = cc
  await_done-Ends (p ∷ ps) s bounds late =
      let s1 : Progress Net = record s { passes = ps } in
      let r = pass c p s1 in
      Ends-then Waiting Any (pass-Ends p s1 bounds) λ ((bounds', left), timely).
        Ends-if Waiting Any r.1.dump.done
          (fine (bounds', subst Late (sym left) (Late-behind p ps late timely)))
          (await_done-Ends ps r.1 bounds' (Late-behind p ps late timely))

  close-Ends :
      (closing : List Arrival) (s : Progress Net)
      → Bounded s
      → Ends Bounded Any (close c closing s).0 (close c closing s).1
  unfolding close Bounded
  close-Ends closing s bounds =
      Ends-attempt Bounded Any (drain-Checks (s.events ++ closing)) tt
        λ (ev, events) h. Ends-Checks Bounded Any (ensure-Checks (not ev.lost) _) (λ u. bounds) tt

  module _ (sendto : List ℕ → Option ℕ) where
    request-Checks :
        (seq family table : ℕ) → Checks (λ u. Unit {0}) (request c sendto seq family table)
    unfolding request
    request-Checks seq family table =
        Ensures-bind {R = Any} (or_error-Checks (sendto (request_bytes seq family table)))
          λ n h. Ensures-weaken (ensure-Checks _ _) λ u h. tt

    dump_table-Ends :
        (family table : ℕ) (s : Progress Net)
        → Waiting s
        → Ends Waiting Any
            (dump_table c sendto family table s).0
            (dump_table c sendto family table s).1
    unfolding dump_table Waiting Bounded
    dump_table-Ends family table s (bounds, late) =
        let started : Progress Net = record s {
          seq = next_seq s.seq;
          dump = record s.dump { done = false; saw_route = false };
        } in
        Ends-attempt Waiting Any (request-Checks (next_seq s.seq) family table) tt
          λ u h. await_done-Ends s.passes started bounds late

    dump_tables-Ends :
        (family : ℕ) (tables : List ℕ) (s : Progress Net)
        → Waiting s
        → Ends Waiting Any
            (dump_tables c sendto family tables s).0
            (dump_tables c sendto family tables s).1
    unfolding dump_tables
    dump_tables-Ends family [] s h = fine h
    dump_tables-Ends family (table ∷ tables) s h =
        Ends-then Waiting Any (dump_table-Ends family table s h)
          λ h'. dump_tables-Ends family tables _ h'

    dump_families-Ends :
        (s : Progress Net)
        → Waiting s
        → Ends Waiting Any (dump_families c sendto s).0 (dump_families c sendto s).1
    unfolding dump_families
    dump_families-Ends s h =
        let v4_done = dump_tables-Ends 2 c.kernel.tables s h in
        Ends-then Waiting Any v4_done
          λ h'. Ends-if Waiting Any c.ipv6 (dump_tables-Ends 10 c.kernel.tables _ h') v4_done

    -- When a pass at the deadline or behind it is among those to come, `snapshot` ends, whatever
    -- arrives: with an error, or with at most `max_prefixes` prefixes, none twice and none with
    -- host bits.
    pub snapshot-Ends :
        (opened : Bool) (closing : List Arrival) (seq : ℕ) (events : List Arrival)
        (passes : List Pass)
        → Late passes
        → Ends
            (λ s. InBounds c s.dump.prefixes)
            Any
            (snapshot c sendto opened closing seq events passes).0
            (snapshot c sendto opened closing seq events passes).1
    unfolding snapshot Waiting Bounded
    snapshot-Ends opened closing seq events passes late =
        let bounds0 : InBounds c [] = (omega arith, tt, tt) in
        let I : Progress Net → Type 0 = λ s. InBounds c s.dump.prefixes in
        Ends-attempt I Any (ensure-Checks opened _) tt λ u h.
          Ends-then I Any (dump_families-Ends (start c sendto seq events passes) (bounds0, late))
            λ (bounds, late'). close-Ends closing _ bounds
