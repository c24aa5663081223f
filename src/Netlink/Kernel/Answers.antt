-- ===== src/Netlink/Kernel/Answers.antt =====
-- The loops of a dump over the passes in which the kernel answers.
use ubgp.Base.{
  ℕ, zero, suc, ◌+◌, ◌-◌, ◌*◌, ◌^◌, ◌≤◌, ◌<◌, ◌≡◌, refl, sym, ap, ◌∙◌, Bool, true, false, ◌||◌,
  List, [], ◌∷◌, ◌++◌, map, length, All, All_parts, ok, arith, lt→ltb, if◌then◌else◌, append-nil,
}
use ubgp.Net.IpNet.{IpNet, IpNetLaws, eq_of_net}
use ubgp.Config.{Config}
use ubgp.Netlink.Events.{Arrival, drain_rounds}
use ubgp.Netlink.Snapshot.{Dump, Pass, Progress, reply_rounds, take_replies, pass, await_done}
use ubgp.Netlink.Kernel.{KernelRoute}
use ubgp.Netlink.Kernel.Rounds.{
  collect_all, collect_all-le, collect_all-done, collect_all-append, finished,
  reply_round-batch_arrival, reply_round-last_arrival,
}
use ubgp.Netlink.Kernel.Dumps.{
  Batch, batch_routes, batches_routes, batch_arrival, last_arrival, IsDumped, IsQuiet, Answered,
  last, more,
}

pub ||_false : (b : Bool) → (b || false) ≡ b
||_false true = refl
||_false false = refl

if_same {ℓ} : {A : Type ℓ} (b : Bool) {x : A} → (if b then x else x) ≡ x
if_same true = refl
if_same false = refl

module _ {Net : Type 0} ⦃ops : IpNet Net⦄ (laws : IpNetLaws ops) (c : Config Net) where
  -- A dump with nothing queued.
  abbrev pub waiting : Bool → ℕ → Dump Net → List Pass → Progress Net
  waiting changed seq d passes = record {
    events = [];
    replies = [];
    changed = changed;
    seq = seq;
    dump = d;
    passes = passes;
  }

  reply_rounds-empty : (n seq : ℕ) (d : Dump Net) → reply_rounds c n seq [] d ≡ ok (d, [])
  unfolding reply_rounds
  reply_rounds-empty zero seq d = refl
  reply_rounds-empty (suc n) seq d = refl

  module _ (port seq : ℕ) (seq_fits : seq < 2 ^ 32) where
    reply_rounds-batches :
        (bs : List Batch) (m n : ℕ) (queue : List Arrival) (d : Dump Net)
        → m ≡ length bs + n
        → All IsDumped (batches_routes bs)
        → d.done ≡ false
        → length (collect_all laws c (batches_routes bs) d).prefixes ≤ c.kernel.max_prefixes
        → reply_rounds c m seq (map (batch_arrival port seq) bs ++ queue) d
          ≡ reply_rounds c n seq queue (collect_all laws c (batches_routes bs) d)
    unfolding reply_rounds
    reply_rounds-batches [] m n queue d count h undone room =
        ap (λ k. reply_rounds c k seq queue d) (omega (arith, count))
    reply_rounds-batches (b ∷ bs) zero n queue d count h undone room = absurd (omega arith)
    reply_rounds-batches (b ∷ bs) (suc m) n queue d count h undone room =
        let (first, behind) = All_parts IsDumped (batch_routes b) (batches_routes bs) h in
        let d' = collect_all laws c (batch_routes b) d in
        let whole = collect_all-append laws c (batch_routes b) (batches_routes bs) d in
        let room' : length (collect_all laws c (batches_routes bs) d').prefixes
            ≤ c.kernel.max_prefixes =
          rw⁻¹ whole room in
        let grown = collect_all-le laws c (batches_routes bs) d' in
        rw
          (reply_round-batch_arrival laws c port seq seq_fits b d first undone
            (omega (arith, grown, room')))
          (reply_rounds-batches bs m n queue d' (omega arith) behind
              (collect_all-done laws c (batch_routes b) d ∙ undone) room'
            ∙ ap (reply_rounds c n seq queue) (sym whole))

  pass-IsQuiet :
      (seq : ℕ) (p : Pass) (changed : Bool) (d d' : Dump Net) (ps : List Pass)
      → IsQuiet c p
      → reply_rounds c 128 seq p.new_replies d ≡ ok (d', [])
      → pass c p (waiting changed seq d ps) ≡ (ok tt, waiting changed seq d' ps)
  unfolding pass take_replies drain_rounds
  pass-IsQuiet seq p changed d d' ps q h =
      rw
        (
          q.going_on,
          lt→ltb p.elapsed (c.kernel.dump_timeout_secs * 1_000_000_000) q.in_time,
          q.no_events,
          h,
          ||_false changed,
          q.polls,
        )
        (ap (λ r. (r, waiting changed seq d' ps)) (if_same d'.done))

  module _ (port : ℕ) where
    -- The replies of a pass that does not bring the end.
    rounds-more :
        (seq : ℕ) (seq_fits : seq < 2 ^ 32) (bs : List Batch) (d : Dump Net)
        → length bs ≤ 128
        → All IsDumped (batches_routes bs)
        → d.done ≡ false
        → length (collect_all laws c (batches_routes bs) d).prefixes ≤ c.kernel.max_prefixes
        → reply_rounds c 128 seq (map (batch_arrival port seq) bs) d
          ≡ ok (collect_all laws c (batches_routes bs) d, [])
    rounds-more seq seq_fits bs d count h undone room =
        ap (λ queue. reply_rounds c 128 seq queue d)
          (sym (append-nil (map (batch_arrival port seq) bs)))
        ∙ reply_rounds-batches port seq seq_fits bs 128 (128 - length bs) [] d (omega arith) h
            undone room
        ∙ reply_rounds-empty (128 - length bs) seq (collect_all laws c (batches_routes bs) d)

    -- The replies of the pass that does.
    rounds-last :
        (seq : ℕ) (seq_fits : seq < 2 ^ 32) (bs : List Batch) (rs : List KernelRoute) (d : Dump Net)
        → length bs < 128
        → All IsDumped (batches_routes bs ++ rs)
        → d.done ≡ false
        → length (collect_all laws c (batches_routes bs ++ rs) d).prefixes ≤ c.kernel.max_prefixes
        → reply_rounds c 128 seq
            (map (batch_arrival port seq) bs ++ (last_arrival port seq rs ∷ []))
            d
          ≡ ok (finished laws c (collect_all laws c (batches_routes bs ++ rs) d), [])
    unfolding reply_rounds
    rounds-last seq seq_fits bs rs d count h undone room =
        let (first, behind) = All_parts IsDumped (batches_routes bs) rs h in
        let d' = collect_all laws c (batches_routes bs) d in
        let whole = collect_all-append laws c (batches_routes bs) rs d in
        let room' : length (collect_all laws c rs d').prefixes ≤ c.kernel.max_prefixes =
          rw⁻¹ whole room in
        let grown = collect_all-le laws c rs d' in
        reply_rounds-batches port seq seq_fits bs 128 (suc (127 - length bs))
          (last_arrival port seq rs ∷ []) d (omega arith) first undone (omega (arith, grown, room'))
        ∙ rw (reply_round-last_arrival laws c port seq seq_fits rs d' behind room', whole)

    pub await_done-Answered :
        (seq : ℕ) (seq_fits : seq < 2 ^ 32) (changed : Bool) (d : Dump Net)
        {routes : List KernelRoute} {ps rest : List Pass} (ps' : List Pass)
        → Answered c port seq routes ps rest
        → All IsDumped routes
        → d.done ≡ false
        → length (collect_all laws c routes d).prefixes ≤ c.kernel.max_prefixes
        → await_done c ps (waiting changed seq d ps')
          ≡ (ok tt, waiting changed seq (finished laws c (collect_all laws c routes d)) rest)
    unfolding await_done
    await_done-Answered seq seq_fits changed d ps' (last {p} {rest} bs rs q replies count) h undone
          room =
        rw (
          pass-IsQuiet seq p changed d
            (finished laws c (collect_all laws c (batches_routes bs ++ rs) d)) rest q
            (ap (λ queue. reply_rounds c 128 seq queue d) replies
              ∙ rounds-last seq seq_fits bs rs d count h undone room))
    await_done-Answered seq seq_fits changed d ps'
          (more {p} {ps} {rest} {routes} bs q replies count answered) h undone room =
        let (first, behind) = All_parts IsDumped (batches_routes bs) routes h in
        let d' = collect_all laws c (batches_routes bs) d in
        let whole = collect_all-append laws c (batches_routes bs) routes d in
        let room' : length (collect_all laws c routes d').prefixes ≤ c.kernel.max_prefixes =
          rw⁻¹ whole room in
        let grown = collect_all-le laws c routes d' in
        let undone' = collect_all-done laws c (batches_routes bs) d ∙ undone in
        rw
          (
            pass-IsQuiet seq p changed d d' ps q (
                ap (λ queue. reply_rounds c 128 seq queue d) replies
                ∙ rounds-more seq seq_fits bs d count first undone (omega (arith, grown, room'))),
            undone',
            whole,
          )
          (await_done-Answered seq seq_fits changed d' ps answered behind undone' room')
