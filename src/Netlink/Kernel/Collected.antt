-- ===== src/Netlink/Kernel/Collected.antt =====
-- `snapshot` when the kernel answers every request and nothing else happens.
use ubgp.Base.{
  Checked, contains, any, ℕ, ◌^◌, ◌≤◌, ◌<◌, ◌≡◌, refl, sym, ap, ◌∙◌, Bool, true, false, ◌||◌,
  Option, none, some, List, [], ◌∷◌, ◌++◌, length, All, All_parts, ok, arith, if◌then◌else◌,
  ==_refl,
}
use ubgp.Base.Sets.{contains-insert}
use ubgp.Net.IpNet.{IpNet, IpNetLaws, eq_of_net}
use ubgp.Config.{Config}
use ubgp.Netlink.Events.{drain_rounds}
use ubgp.Netlink.Snapshot.{
  Dump, Pass, Progress, next_seq, request, request_bytes, dump_table, dump_tables, dump_families,
  close, snapshot, start,
}
use ubgp.Netlink.Kernel.{KernelRoute, prefix_of}
use ubgp.Netlink.Kernel.Rounds.{collect_all, finished, insert_found-le}
use ubgp.Netlink.Kernel.Answers.{waiting, await_done-Answered, ||_false}
use ubgp.Netlink.Kernel.Dumps.{
  IsDumped, Answered, AllAnswered, no_table, next_table, FamiliesAnswered, only_v4, both,
  insert_found, with_routes, finds,
}

next_seq-fits : (seq : ℕ) → next_seq seq < 2 ^ 32
next_seq-fits seq = ground arith

if_true : {A : Type 0} (b : Bool) (x y : A) → b ≡ true → (if b then x else y) ≡ x
if_true true x y h = refl
if_true false x y h = cc

if_false : {A : Type 0} (b : Bool) (x y : A) → b ≡ false → (if b then x else y) ≡ y
if_false true x y h = cc
if_false false x y h = refl

or_swap : (a b d : Bool) → (b || (a || d)) ≡ ((a || b) || d)
or_swap true true d = refl
or_swap true false d = refl
or_swap false b d = refl

module _ {Net : Type 0} ⦃ops : IpNet Net⦄ (laws : IpNetLaws ops) (c : Config Net) where
  collect_all-with_routes :
      (rs : List KernelRoute) (d : Dump Net)
      → (collect_all laws c rs d).prefixes ≡ with_routes c.kernel.tables rs d.prefixes
  collect_all-with_routes [] d = refl
  collect_all-with_routes (r ∷ rs) d = collect_all-with_routes rs _

  with_routes-append :
      (tables : List ℕ) (rs more : List KernelRoute) (s : List Net)
      → with_routes tables (rs ++ more) s ≡ with_routes tables more (with_routes tables rs s)
  with_routes-append tables [] more s = refl
  with_routes-append tables (r ∷ rs) more s = with_routes-append tables rs more _

  with_routes-le :
      (tables : List ℕ) (rs : List KernelRoute) (s : List Net)
      → length s ≤ length (with_routes tables rs s)
  with_routes-le tables [] s = omega arith
  with_routes-le tables (r ∷ rs) s = omega (
    arith,
    insert_found-le laws c (prefix_of tables r) s,
    with_routes-le tables rs (insert_found (prefix_of tables r) s),
  )

  contains-insert_found :
      (o : Option Net) (s : List Net) (n : Net)
      → contains (insert_found o s) n ≡ (finds n o || contains s n)
  contains-insert_found none s n = refl
  contains-insert_found (some p) s n = contains-insert p s n

  contains-with_routes :
      (tables : List ℕ) (rs : List KernelRoute) (s : List Net) (n : Net)
      → contains (with_routes tables rs s) n
        ≡ (any (λ k. finds n (prefix_of tables k)) rs || contains s n)
  contains-with_routes tables [] s n = refl
  contains-with_routes tables (r ∷ rs) s n =
      contains-with_routes tables rs (insert_found (prefix_of tables r) s) n
      ∙ ap (λ b. any (λ k. finds n (prefix_of tables k)) rs || b)
          (contains-insert_found (prefix_of tables r) s n)
      ∙ or_swap (finds n (prefix_of tables r)) (any (λ k. finds n (prefix_of tables k)) rs)
          (contains s n)

  module _ (port : ℕ) (sendto : List ℕ → Option ℕ)
      (sends : (b : List ℕ) → sendto b ≡ some (length b)) where
    request-ok : (seq family table : ℕ) → request c sendto seq family table ≡ ok tt
    unfolding request
    request-ok seq family table =
        rw (
          sends (request_bytes seq family table),
          ==_refl (length (request_bytes seq family table)),
        )

    dump_table-Answered :
        (family table seq : ℕ) (changed : Bool) (d : Dump Net) {routes : List KernelRoute}
        {ps rest : List Pass}
        → Answered c port (next_seq seq) routes ps rest
        → All IsDumped routes
        → length (with_routes c.kernel.tables routes d.prefixes) ≤ c.kernel.max_prefixes
        → (d' : Dump Net) × (dump_table c sendto family table (waiting laws c changed seq d ps)
            ≡ (ok tt, waiting laws c changed (next_seq seq) d' rest))
          × (d'.prefixes ≡ with_routes c.kernel.tables routes d.prefixes)
    unfolding dump_table
    dump_table-Answered family table seq changed d {routes} {ps} {rest} answered h room =
        let d0 : Dump Net = record d { done = false; saw_route = false } in
        let same_set = collect_all-with_routes routes d0 in
        (
          finished laws c (collect_all laws c routes d0),
          rw (request-ok (next_seq seq) family table) (
              await_done-Answered laws c port (next_seq seq) (next_seq-fits seq) changed d0 ps
                answered h refl (rw same_set room)),
          same_set,
        )

    dump_tables-AllAnswered :
        (family seq : ℕ) {tables : List ℕ} {seq' : ℕ} (changed : Bool) (d : Dump Net)
        {routes : List KernelRoute} {ps rest : List Pass}
        → AllAnswered c port tables seq seq' routes ps rest
        → All IsDumped routes
        → length (with_routes c.kernel.tables routes d.prefixes) ≤ c.kernel.max_prefixes
        → (d' : Dump Net) × (dump_tables c sendto family tables (waiting laws c changed seq d ps)
            ≡ (ok tt, waiting laws c changed seq' d' rest))
          × (d'.prefixes ≡ with_routes c.kernel.tables routes d.prefixes)
    unfolding dump_tables
    dump_tables-AllAnswered family seq changed d no_table h room = (d, refl, refl)
    dump_tables-AllAnswered family seq changed d
          (next_table {table} {tables} {one} {more} {ps} {between} {rest} answered later) h room =
        let (first, behind) = All_parts IsDumped one more h in
        let whole = with_routes-append c.kernel.tables one more d.prefixes in
        let room' : length
              (with_routes c.kernel.tables more (with_routes c.kernel.tables one d.prefixes))
            ≤ c.kernel.max_prefixes =
          rw⁻¹ whole room in
        let grown =
          with_routes-le c.kernel.tables more (with_routes c.kernel.tables one d.prefixes) in
        let (d1, ran, set1) =
          dump_table-Answered family table seq changed d answered first
            (omega (arith, grown, room')) in
        let (d2, ran_on, set2) =
          dump_tables-AllAnswered family (next_seq seq) changed d1 later behind (rw set1 room') in
        (d2, rw ran ran_on, set2 ∙ ap (with_routes c.kernel.tables more) set1 ∙ sym whole)

    abbrev nothing_dumped : Dump Net
    nothing_dumped = record { done = false; saw_route = false; prefixes = [] }

    -- The state behind both families.
    abbrev Gathered : ℕ → List KernelRoute → List Pass → Checked × Progress Net → Type 0
    Gathered seq routes rest r =
        (d : Dump Net) × (r ≡ (ok tt, waiting laws c false seq d rest))
        × (d.prefixes ≡ with_routes c.kernel.tables routes [])

    dump_families-FamiliesAnswered :
        (seq : ℕ) {seq' : ℕ} {routes : List KernelRoute} {ps rest : List Pass}
        → FamiliesAnswered c port seq seq' routes ps rest
        → All IsDumped routes
        → length (with_routes {Net = Net} c.kernel.tables routes []) ≤ c.kernel.max_prefixes
        → Gathered seq' routes rest (dump_families c sendto (start c sendto seq [] ps))
    unfolding dump_families
    dump_families-FamiliesAnswered seq (only_v4 single answered) h room =
        let (d, ran, found) = dump_tables-AllAnswered 2 seq false nothing_dumped answered h room in
        (d, rw ran (if_false c.ipv6 _ _ single), found)
    dump_families-FamiliesAnswered seq (both {seq4} {v4_routes} {v6_routes} dual answered later) h
          room =
        let (first, behind) = All_parts IsDumped v4_routes v6_routes h in
        let whole = with_routes-append c.kernel.tables v4_routes v6_routes [] in
        let room' : length (
              with_routes c.kernel.tables v6_routes
                (with_routes {Net = Net} c.kernel.tables v4_routes []))
            ≤ c.kernel.max_prefixes =
          rw⁻¹ whole room in
        let grown =
          with_routes-le c.kernel.tables v6_routes
            (with_routes {Net = Net} c.kernel.tables v4_routes []) in
        let (d1, ran, set1) =
          dump_tables-AllAnswered 2 seq false nothing_dumped answered first
            (omega (arith, grown, room')) in
        let (d2, ran_on, set2) =
          dump_tables-AllAnswered 10 seq4 false d1 later behind (rw set1 room') in
        (
          d2,
          rw ran (if_true c.ipv6 _ _ dual ∙ ran_on),
          set2 ∙ ap (with_routes c.kernel.tables v6_routes) set1 ∙ sym whole,
        )

    -- What `snapshot` then ends with.
    pub snapshot-with_routes :
        (seq : ℕ) {seq' : ℕ} {routes : List KernelRoute} {ps rest : List Pass}
        → FamiliesAnswered c port seq seq' routes ps rest
        → All IsDumped routes
        → length (with_routes {Net = Net} c.kernel.tables routes []) ≤ c.kernel.max_prefixes
        → let r = snapshot c sendto true [] seq [] ps in
          (r.0 ≡ ok tt)
          × (r.1.changed ≡ false)
          × (r.1.dump.prefixes ≡ with_routes c.kernel.tables routes [])
    unfolding snapshot close drain_rounds
    snapshot-with_routes seq answered h room =
        let (d, ran, found) = dump_families-FamiliesAnswered seq answered h room in
        rw ran (refl, refl, found)

    -- When the kernel takes each request whole and answers it with the routes of `routes`, in any
    -- number of datagrams of any size that carry NLMSG_DONE behind the last route, while the passes
    -- are before the deadline and bring at most 128 datagrams each and no notification, and when
    -- the routes have at most `max_prefixes` prefixes, `snapshot` succeeds, reports no change, and
    -- its set has exactly the prefixes of the plain unicast routes of the selected tables.
    pub snapshot-Collects :
        (seq : ℕ) {seq' : ℕ} {routes : List KernelRoute} {ps rest : List Pass}
        → FamiliesAnswered c port seq seq' routes ps rest
        → All IsDumped routes
        → length (with_routes {Net = Net} c.kernel.tables routes []) ≤ c.kernel.max_prefixes
        → let r = snapshot c sendto true [] seq [] ps in
          (r.0 ≡ ok tt)
          × (r.1.changed ≡ false)
          × ((n : Net)
              → contains r.1.dump.prefixes n
                ≡ any (λ k. finds n (prefix_of c.kernel.tables k)) routes)
    snapshot-Collects seq {routes} answered h room =
        let (succeeds, unchanged, found) = snapshot-with_routes seq answered h room in
        (
          succeeds,
          unchanged,
          λ n.
              ap (λ s. contains s n) found
              ∙ contains-with_routes c.kernel.tables routes [] n
              ∙ ||_false (any (λ k. finds n (prefix_of c.kernel.tables k)) routes),
        )
