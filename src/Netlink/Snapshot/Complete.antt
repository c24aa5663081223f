-- ===== src/Netlink/Snapshot/Complete.antt =====
-- What a snapshot that succeeds is made of: one whole dump for each family and table.
use ubgp.Base.{
  ◌==◌, not, ℕ, ◌≡◌, refl, subst, Bool, true, false, Option, none, some, List, [], ◌∷◌, ◌++◌,
  Checked, ok, ensure, arith, ltb, if◌then◌else◌, ◌>>=◌, ap, String,
}
use ubgp.Base.Ensures.{Ensures-bind, ensure-Checks}
use ubgp.Netlink.Message.Total.{Ensures-ensure}
use ubgp.Net.IpNet.{IpNet, IpNetLaws, eq_of_net}
use ubgp.Config.{Config}
use ubgp.Netlink.Message.Ending.{Ends}
use ubgp.Netlink.Message.Success.{
  OnSuccess, On-attempt, On-Checks, On-if, On-check, On-then, OnSuccess-weaken, Ends-OnSuccess,
}
use ubgp.Netlink.Events.{Arrival}
use ubgp.Netlink.Snapshot.{
  Pass, Progress, take_replies, pass, await_done, close, or_error, request, request_bytes,
  dump_table, dump_tables, dump_families, start, snapshot, next_seq,
}
use ubgp.Netlink.Snapshot.Bounded.{Any, InBounds}
use ubgp.Netlink.Snapshot.Ends.{Late, deadline, drain-Checks, snapshot-Ends}
use ubgp.Netlink.Snapshot.Whole.{Told, requested, Follows, reply_rounds-Follows}

-- The tables that were asked of a family, in front of those before, the newest first.
pub onto : ℕ → List ℕ → List (ℕ × ℕ) → List (ℕ × ℕ)
onto family [] asked = asked
onto family (table ∷ tables) asked = onto family tables ((family, table) ∷ asked)

module _ {Net : Type 0} ⦃ops : IpNet Net⦄ (c : Config Net) (sendto : List ℕ → Option ℕ) where
  -- The prefixes that complete dumps leave, one after the other: for each the request was sent whole
  -- and answered under its sequence number.
  pub data Whole : List (ℕ × ℕ) → List Net → Type 0 where
    none_yet : Whole [] []
    dumped :
        {asked : List (ℕ × ℕ)} {before prefixes : List Net} {had_route : Bool}
        (family table seq : ℕ)
        → Whole asked before
        → sendto (request_bytes seq family table) ≡ some 36
        → Told c seq before true had_route prefixes
        → Whole ((family, table) ∷ asked) prefixes

  -- The tables of the configuration, for IPv4 (2), and for IPv6 (10) where it is configured.
  pub asked_of : List (ℕ × ℕ)
  asked_of =
      if c.ipv6
      then onto 10 c.kernel.tables (onto 2 c.kernel.tables [])
      else onto 2 c.kernel.tables []

equal : (n m : ℕ) → (n == m) ≡ true → n ≡ m
equal n m h = ground arith

ensured : (b : Bool) (text : String) {u : Unit {0}} → ensure b text ≡ ok u → b ≡ true
ensured true text h = refl
ensured false text h = cc

sent_whole :
    (o : Option ℕ) (whole : ℕ) (text : String) {u : Unit {0}}
    → (or_error o >>= λ n. ensure (n == whole) text) ≡ ok u
    → o ≡ some whole
sent_whole none whole text h = cc
sent_whole (some n) whole text h = ap some (equal n whole (ensured (n == whole) text h))

module _ {Net : Type 0} ⦃ops : IpNet Net⦄ (laws : IpNetLaws ops) (c : Config Net) where
  module _ (seq : ℕ) (before : List Net) where
    -- The dump of this request goes on.
    abbrev Going : Progress Net → Type 0
    Going s = (s.seq ≡ seq) × Follows laws c s.seq before s.dump

    take_replies-Going :
        (p : Pass) (s : Progress Net) → Going s → OnSuccess Going (take_replies c p s)
    unfolding take_replies
    take_replies-Going p s (same, told) =
        On-Checks Going s _
          (reply_rounds-Follows laws c s.seq before 128 (s.replies ++ p.new_replies) s.dump told)
          λ (d, replies) told'. On-check Going _ _ (same, told')

    pass-Going : (p : Pass) (s : Progress Net) → Going s → OnSuccess Going (pass c p s)
    unfolding pass
    pass-Going p s going =
        let queued = s.events ++ p.new_events in
        On-Checks Going (record s { events = queued }) _
          (Ensures-ensure (not p.stopping) _ _ λ on.
            Ensures-bind (ensure-Checks (ltb p.elapsed (deadline laws c)) _)
              λ u timely. drain-Checks queued)
          λ (ev, events) h.
            On-Checks Going (record s { events = events }) _ (ensure-Checks (not ev.lost) _)
              λ u h'. take_replies-Going p _ going

    -- It is complete.
    abbrev Complete : Progress Net → Type 0
    Complete s = Going s × (s.dump.done ≡ true)

    await_done-Complete :
        (passes : List Pass) (s : Progress Net)
        → Going s
        → OnSuccess Complete (await_done c passes s)
    unfolding await_done
    await_done-Complete [] s going = tt
    await_done-Complete (p ∷ ps) s going =
        let s1 : Progress Net = record s { passes = ps } in
        let r = pass c p s1 in
        On-then Complete Going r.0 r.1 _ (pass-Going p s1 going) λ going'.
          On-if Complete r.1.dump.done _ _ (λ done. (going', done))
            (await_done-Complete ps r.1 going')

  module _ (sendto : List ℕ → Option ℕ) where
    request-sent :
        (seq family table : ℕ) {u : Unit {0}}
        → request c sendto seq family table ≡ ok u
        → sendto (request_bytes seq family table) ≡ some 36
    unfolding request request_bytes
    request-sent seq family table h = sent_whole (sendto (request_bytes seq family table)) 36 _ h

    -- These were asked, and answered whole.
    abbrev Asked : List (ℕ × ℕ) → Progress Net → Type 0
    Asked asked s = Whole c sendto asked s.dump.prefixes

    dump_table-Asked :
        (family table : ℕ) (asked : List (ℕ × ℕ)) (s : Progress Net)
        → Asked asked s
        → OnSuccess (Asked ((family, table) ∷ asked)) (dump_table c sendto family table s)
    unfolding dump_table
    dump_table-Asked family table asked s whole =
        let I = Asked ((family, table) ∷ asked) in
        let seq = next_seq s.seq in
        let started : Progress Net = record s {
          seq = seq;
          dump = record s.dump { done = false; saw_route = false };
        } in
        On-attempt I (request c sendto seq family table) started _ λ u sent.
          OnSuccess-weaken (Complete seq s.dump.prefixes) I _
            (await_done-Complete seq s.dump.prefixes s.passes started (refl, requested))
            λ s' ((same, told), done).
              dumped family table seq whole (request-sent seq family table sent) (
                subst (λ b. Told c seq s.dump.prefixes b s'.dump.saw_route s'.dump.prefixes) done
                  (subst
                    (λ q. Told c q s.dump.prefixes s'.dump.done s'.dump.saw_route s'.dump.prefixes)
                    same told))

    dump_tables-Asked :
        (family : ℕ) (tables : List ℕ) (asked : List (ℕ × ℕ)) (s : Progress Net)
        → Asked asked s
        → OnSuccess (Asked (onto family tables asked)) (dump_tables c sendto family tables s)
    unfolding dump_tables onto
    dump_tables-Asked family [] asked s whole = whole
    dump_tables-Asked family (table ∷ tables) asked s whole =
        let r = dump_table c sendto family table s in
        On-then (Asked (onto family tables ((family, table) ∷ asked)))
          (Asked ((family, table) ∷ asked)) r.0 r.1 _ (dump_table-Asked family table asked s whole)
          λ whole'. dump_tables-Asked family tables ((family, table) ∷ asked) r.1 whole'

    On-either :
        (b : Bool) (asked asked' : List (ℕ × ℕ)) (x y : Checked × Progress Net)
        → OnSuccess (Asked asked) x
        → OnSuccess (Asked asked') y
        → OnSuccess (Asked (if b then asked else asked')) (if b then x else y)
    On-either true asked asked' x y hx hy = hx
    On-either false asked asked' x y hx hy = hy

    dump_families-Asked :
        (s : Progress Net)
        → Asked [] s
        → OnSuccess (Asked (asked_of c sendto)) (dump_families c sendto s)
    unfolding dump_families asked_of
    dump_families-Asked s whole =
        let first = onto 2 c.kernel.tables [] in
        let r = dump_tables c sendto 2 c.kernel.tables s in
        let v4 = dump_tables-Asked 2 c.kernel.tables [] s whole in
        On-then (Asked (asked_of c sendto)) (Asked first) r.0 r.1 _ v4 λ whole'.
          On-either c.ipv6 (onto 10 c.kernel.tables first) first _ _
            (dump_tables-Asked 10 c.kernel.tables first r.1 whole') v4

    close-Asked :
        (closing : List Arrival) (asked : List (ℕ × ℕ)) (s : Progress Net)
        → Asked asked s
        → OnSuccess (Asked asked) (close c closing s)
    unfolding close
    close-Asked closing asked s whole =
        On-Checks (Asked asked) s _ (drain-Checks (s.events ++ closing))
          λ (ev, events) e. On-check (Asked asked) _ _ whole

    snapshot-Asked :
        (opened : Bool) (closing : List Arrival) (seq : ℕ) (events : List Arrival)
        (passes : List Pass)
        → OnSuccess (Asked (asked_of c sendto)) (snapshot c sendto opened closing seq events passes)
    unfolding snapshot
    snapshot-Asked opened closing seq events passes =
        let I = Asked (asked_of c sendto) in
        On-Checks I _ _ (ensure-Checks opened _) λ u e.
          let r = dump_families c sendto (start c sendto seq events passes) in
          On-then I I r.0 r.1 _ (dump_families-Asked (start c sendto seq events passes) none_yet)
            λ whole. close-Asked closing (asked_of c sendto) r.1 whole

    -- The prefixes of a snapshot.
    abbrev pub IsSnapshot : List Net → Type 0
    IsSnapshot prefixes = InBounds c prefixes × Whole c sendto (asked_of c sendto) prefixes

    pub snapshot-IsSnapshot :
        (opened : Bool) (closing : List Arrival) (seq : ℕ) (events : List Arrival)
        (passes : List Pass)
        → Late laws c passes
        → Ends
            (λ s. IsSnapshot s.dump.prefixes)
            Any
            (snapshot c sendto opened closing seq events passes).0
            (snapshot c sendto opened closing seq events passes).1
    snapshot-IsSnapshot opened closing seq events passes late =
        Ends-OnSuccess (snapshot-Ends laws c sendto opened closing seq events passes late)
          (snapshot-Asked opened closing seq events passes)
