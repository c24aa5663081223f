-- ===== src/Netlink/Kernel/Rounds.antt =====
-- The rounds of a dump on what the kernel answers.
use ubgp.Base.{
  ℕ, ◌^◌, ◌≤◌, ◌<◌, ◌≡◌, refl, ap, ◌∙◌, true, false, Option, none, some, List, [], ◌∷◌, ◌++◌, map,
  length, All, All-append, ok, arith, le→leb, ==_refl, contains, slice, not, panic, out_of_fuel,
  err, Bool-cases, inl, inr, Checked,
}
use ubgp.Base.Sets.{insert}
use ubgp.Net.IpNet.{IpNet, IpNetLaws, eq_of_net}
use ubgp.Config.{Config}
use ubgp.Netlink.Message.{Message, attempt, dump_status}
use ubgp.Netlink.Events.{recv}
use ubgp.Netlink.Snapshot.{Dump, add_prefix, dump_message, reply_round}
use ubgp.Netlink.Kernel.{KernelRoute, datagram_bytes, prefix_of, IsMessage}
use ubgp.Netlink.Kernel.Routes.{route-route_bytes}
use ubgp.Netlink.Kernel.Datagrams.{calls, messages-datagram_bytes}
use ubgp.Netlink.Kernel.Dumps.{
  route_message, done_message, Batch, batch_routes, batch_arrival, last_arrival, from_kernel,
  IsDumped, insert_found,
}

module _ {S : Type 0} where
  attempt-attempt :
      (r : Checked) (s : S) (k : Checked × S) (l : S → Checked × S)
      → attempt r s (λ done. attempt k.0 k.1 (λ done'. l k.1))
        ≡ (let x = attempt r s (λ done. k) in attempt x.0 x.1 (λ done. l x.1))
  attempt-attempt (ok u) s k l = refl
  attempt-attempt (err e) s k l = refl
  attempt-attempt panic s k l = refl
  attempt-attempt out_of_fuel s k l = refl

  calls-append :
      (f : Message → S → Checked × S) (ms ns : List Message) (s : S)
      → calls f (ms ++ ns) s ≡ (let x = calls f ms s in attempt x.0 x.1 (λ done. calls f ns x.1))
  calls-append f [] ns s = refl
  calls-append f (m ∷ ms) ns s =
      ap (λ x. attempt (f m s).0 (f m s).1 (λ done. x)) (calls-append f ms ns (f m s).1)
      ∙ attempt-attempt (f m s).0 (f m s).1 (calls f ms (f m s).1) (calls f ns)

module _ {Net : Type 0} ⦃ops : IpNet Net⦄ (laws : IpNetLaws ops) (c : Config Net) where
  -- What a route adds to the dump.
  abbrev pub collect : KernelRoute → Dump Net → Dump Net
  collect r d = record d {
    saw_route = true;
    prefixes = insert_found (prefix_of c.kernel.tables r) d.prefixes;
  }

  abbrev pub collect_all : List KernelRoute → Dump Net → Dump Net
  collect_all [] d = d
  collect_all (r ∷ rs) d = collect_all rs (collect r d)

  -- The set grows.
  pub insert_found-le : (o : Option Net) (s : List Net) → length s ≤ length (insert_found o s)
  insert_found-le none s = omega arith
  insert_found-le (some n) s = elim (Bool-cases (contains s n)) [
    | inl held ↦ rw held (omega arith)
    | inr new ↦ rw new (omega arith)
  ]

  pub collect_all-le :
      (rs : List KernelRoute) (d : Dump Net)
      → length d.prefixes ≤ length (collect_all rs d).prefixes
  collect_all-le [] d = omega arith
  collect_all-le (r ∷ rs) d = omega (
    arith,
    insert_found-le (prefix_of c.kernel.tables r) d.prefixes,
    collect_all-le rs (collect r d),
  )

  collect-add_prefix :
      (o : Option Net) (d : Dump Net)
      → length (insert_found o d.prefixes) ≤ c.kernel.max_prefixes
      → add_prefix c o d ≡ (ok tt, record d { prefixes = insert_found o d.prefixes })
  unfolding add_prefix
  collect-add_prefix none d room = refl
  collect-add_prefix (some n) d room =
      rw (le→leb (length (insert n d.prefixes)) c.kernel.max_prefixes room)

  collect-dump_message :
      (seq : ℕ) (r : KernelRoute) (d : Dump Net)
      → IsDumped r
      → length (collect r d).prefixes ≤ c.kernel.max_prefixes
      → dump_message c seq (route_message seq r) d ≡ (ok tt, collect r d)
  unfolding dump_message
  collect-dump_message seq r d h room =
      rw (==_refl seq, route-route_bytes laws r c.kernel.tables h.written)
        (collect-add_prefix (prefix_of c.kernel.tables r) (record d { saw_route = true }) room)

  abbrev pub finished : Dump Net → Dump Net
  finished d = record d { done = true }

  finished-dump_message :
      (seq : ℕ) (d : Dump Net) → dump_message c seq (done_message seq) d ≡ (ok tt, finished d)
  unfolding dump_message dump_status slice
  finished-dump_message seq d = rw (==_refl seq)

  collect_all-calls :
      (seq : ℕ) (rs : List KernelRoute) (d : Dump Net)
      → All IsDumped rs
      → length (collect_all rs d).prefixes ≤ c.kernel.max_prefixes
      → calls (dump_message c seq) (map (route_message seq) rs) d ≡ (ok tt, collect_all rs d)
  collect_all-calls seq [] d h room = refl
  collect_all-calls seq (r ∷ rs) d h room =
      let grown = collect_all-le rs (collect r d) in
      rw (collect-dump_message seq r d h.0 (omega (arith, grown, room)))
        (collect_all-calls seq rs (collect r d) h.1 room)

  route_messages-IsMessage :
      (seq : ℕ) (rs : List KernelRoute)
      → seq < 2 ^ 32
      → All IsDumped rs
      → All IsMessage (map (route_message seq) rs)
  route_messages-IsMessage seq [] fits h = tt
  route_messages-IsMessage seq (r ∷ rs) fits h = (
    record {
      length_fits = h.0.fits;
      kind_fits = omega arith;
      flags_fit = omega arith;
      seq_fits = fits;
    },
    route_messages-IsMessage seq rs fits h.1,
  )

  done_message-IsMessage : (seq : ℕ) → seq < 2 ^ 32 → IsMessage (done_message seq)
  done_message-IsMessage seq fits = record {
    length_fits = omega arith;
    kind_fits = omega arith;
    flags_fit = omega arith;
    seq_fits = fits;
  }

  pub collect_all-done : (rs : List KernelRoute) (d : Dump Net) → (collect_all rs d).done ≡ d.done
  collect_all-done [] d = refl
  collect_all-done (r ∷ rs) d = collect_all-done rs (collect r d)

  pub collect_all-append :
      (rs more : List KernelRoute) (d : Dump Net)
      → collect_all (rs ++ more) d ≡ collect_all more (collect_all rs d)
  collect_all-append [] more d = refl
  collect_all-append (r ∷ rs) more d = collect_all-append rs more (collect r d)

  -- A datagram of messages that the callback takes.
  reply_round-from_kernel :
      (port seq : ℕ) (m : Message) (ms : List Message) (d d' : Dump Net)
      → All IsMessage (m ∷ ms)
      → calls (dump_message c seq) (m ∷ ms) d ≡ (ok tt, d')
      → reply_round c seq (recv (from_kernel port (m ∷ ms))) d ≡ ok (not d'.done, d')
  unfolding reply_round recv
  reply_round-from_kernel port seq m ms d d' fit taken = rw (
    messages-datagram_bytes (dump_message c seq) port (length (datagram_bytes port (m ∷ ms)))
        (m ∷ ms) d fit (omega arith),
    taken,
  )

  module _ (port seq : ℕ) (seq_fits : seq < 2 ^ 32) where
    pub reply_round-batch_arrival :
        (b : Batch) (d : Dump Net)
        → All IsDumped (batch_routes b)
        → d.done ≡ false
        → length (collect_all (batch_routes b) d).prefixes ≤ c.kernel.max_prefixes
        → reply_round c seq (recv (batch_arrival port seq b)) d
          ≡ ok (true, collect_all (batch_routes b) d)
    reply_round-batch_arrival (r, rs) d h undone room =
        reply_round-from_kernel port seq (route_message seq r) (map (route_message seq) rs) d
          (collect_all (r ∷ rs) d) (route_messages-IsMessage seq (r ∷ rs) seq_fits h)
          (collect_all-calls seq (r ∷ rs) d h room)
        ∙ ap (λ x. ok (not x, collect_all (r ∷ rs) d)) (collect_all-done rs (collect r d) ∙ undone)

    last-calls :
        (rs : List KernelRoute) (d : Dump Net)
        → All IsDumped rs
        → length (collect_all rs d).prefixes ≤ c.kernel.max_prefixes
        → calls (dump_message c seq) (map (route_message seq) rs ++ (done_message seq ∷ [])) d
          ≡ (ok tt, finished (collect_all rs d))
    last-calls rs d h room = rw (
      calls-append (dump_message c seq) (map (route_message seq) rs) (done_message seq ∷ []) d,
      collect_all-calls seq rs d h room,
      finished-dump_message seq (collect_all rs d),
    )

    pub reply_round-last_arrival :
        (rs : List KernelRoute) (d : Dump Net)
        → All IsDumped rs
        → length (collect_all rs d).prefixes ≤ c.kernel.max_prefixes
        → reply_round c seq (recv (last_arrival port seq rs)) d
          ≡ ok (false, finished (collect_all rs d))
    reply_round-last_arrival [] d h room =
        reply_round-from_kernel port seq (done_message seq) [] d (finished d)
          (done_message-IsMessage seq seq_fits, tt) (last-calls [] d h room)
    reply_round-last_arrival (r ∷ rs) d h room =
        reply_round-from_kernel port seq (route_message seq r)
          (map (route_message seq) rs ++ (done_message seq ∷ [])) d
          (finished (collect_all (r ∷ rs) d))
          (All-append IsMessage (map (route_message seq) (r ∷ rs)) (done_message seq ∷ [])
            (route_messages-IsMessage seq (r ∷ rs) seq_fits h)
            (done_message-IsMessage seq seq_fits, tt))
          (last-calls (r ∷ rs) d h room)
