-- ===== src/Netlink/Snapshot.antt =====
-- `Socket::request` and `snapshot` of src/netlink.rs: the dumps of the selected tables. What the
-- loops find in each pass is the list of passes, and the system's `sendto` a function.
pub mod Ends
pub mod Bounded
pub mod Whole
pub mod Complete
use ubgp.Base.{
  ℕ, zero, suc, ◌+◌, ◌*◌, ◌/◌, ◌%◌, ◌^◌, Bool, true, false, not, ◌&&◌, ◌||◌, Option, none, some,
  List, [], ◌∷◌, ◌++◌, length, is_empty, replicate, all, leb, ltb, ◌==◌, if◌then◌else◌, Result,
  Checked, ok, err, panic, out_of_fuel, ensure, message, ◌>>=◌, ◌>>◌, bit_and,
}
use ubgp.Base.Sets.{insert}
use ubgp.Net.IpNet.{IpNet, eq_of_net}
use ubgp.Config.{Config}
use ubgp.Netlink.Message.{Message, messages, attempt, u32n, route, dump_status}
use ubgp.Netlink.Events.{
  Arrival, Received, would_block, interrupted, failed, datagram, recv, Events, drain,
}

-- `to_ne_bytes`, little endian
abbrev pub u16_ne : ℕ → List ℕ
u16_ne n = n % 256 ∷ n / 256 % 256 ∷ []

abbrev pub u32_ne : ℕ → List ℕ
u32_ne n = n % 256 ∷ n / 256 % 256 ∷ n / 65536 % 256 ∷ n / 16777216 % 256 ∷ []

-- The 36 bytes of a request: the header, an `rtmsg` of the family, and `RTA_TABLE`.
unfoldable pub request_bytes : ℕ → ℕ → ℕ → List ℕ
request_bytes seq family table =
    u32_ne 36
    ++ u16_ne 26
    ++ u16_ne 0x301
    ++ u32_ne seq
    ++ replicate 4 0
    ++ (family ∷ replicate 11 0)
    ++ u16_ne 8
    ++ u16_ne 15
    ++ u32_ne table

-- `sequence.wrapping_add(1).max(1)`
abbrev pub next_seq : ℕ → ℕ
next_seq seq = if (seq + 1) % 2 ^ 32 == 0 then 1 else (seq + 1) % 2 ^ 32

-- The locals that the callback captures.
pub record Dump (Net : Type 0) : Type 0 where
  pub done : Bool
  pub saw_route : Bool
  pub prefixes : List Net

-- The result of the system's `poll`: a failure, whether it is EINTR, and the `revents`.
pub record Polled : Type 0 where
  pub poll_failed : Bool
  pub poll_interrupted : Bool
  pub revents : List ℕ

-- `POLLNVAL | POLLHUP`
unfoldable pub poll : Polled → Checked
poll p =
    if p.poll_failed && not p.poll_interrupted
    then err (message "io error")
    else ensure (all (λ f. bit_and f 0x30 == 0) p.revents) "netlink socket closed"

-- What one pass of the waiting loop finds: the flag `stop`, the time since the start in
-- nanoseconds, what has newly arrived on both sockets, and what `poll` finds.
pub record Pass : Type 0 where
  pub stopping : Bool
  pub elapsed : ℕ
  pub new_events : List Arrival
  pub new_replies : List Arrival
  pub polled : Polled

-- The queues of both sockets, `changed`, `*seq` and the passes to come.
pub record Progress (Net : Type 0) : Type 0 where
  pub events : List Arrival
  pub replies : List Arrival
  pub changed : Bool
  pub seq : ℕ
  pub dump : Dump Net
  pub passes : List Pass

abbrev pub or_error {ℓ} : {A : Type ℓ} → Option A → Result A
or_error none = err (message "io error")
or_error (some a) = ok a

module _ {Net : Type 0} ⦃ops : IpNet Net⦄ (c : Config Net) where
  -- `if let Some(prefix)`
  unfoldable pub add_prefix : Option Net → Dump Net → Checked × Dump Net
  add_prefix none d = (ok tt, d)
  add_prefix (some prefix) d =
      let prefixes = insert prefix d.prefixes in
      (
        ensure (leb (length prefixes) c.kernel.max_prefixes)
            "max_prefixes exceeded; refusing partial export",
        record d { prefixes = prefixes },
      )

  -- The arm of NLMSG_ERROR.
  unfoldable pub dump_error : List ℕ → Dump Net → Checked × Dump Net
  dump_error payload d =
      attempt (do ensure (leb 4 (length payload)) "short NLMSG_ERROR"; u32n payload) d
        (λ code.
          if code == 4294967294 && not d.saw_route
          then (ok tt, record d { done = true })
          else (ensure (code == 0) "netlink dump", d))

  -- The callback.
  unfoldable pub dump_message : ℕ → Message → Dump Net → Checked × Dump Net
  dump_message seq m d =
      attempt
        (do
          ensure (m.seq == seq) "unexpected dump sequence"
          ensure (bit_and m.flags 0x10 == 0) "interrupted netlink dump")
        d
        (λ u.
          if m.kind == 3
          then attempt (dump_status m.payload d.saw_route) d
              (λ u'. (ok tt, record d { done = true }))
          else if m.kind == 2
          then dump_error m.payload d
          else if m.kind == 4
          then (err (message "netlink dump overrun"), d)
          else if m.kind == 24
          then (let d' = record d { saw_route = true } in
              attempt (route m.payload c.kernel.tables) d' (λ found. add_prefix found d'))
          else (ok tt, d))

  -- `ok`, with the captured state
  abbrev pub with_state : Checked × Dump Net → Result (Dump Net)
  with_state (r, d) = r >> ok d

  -- One round of the inner loop, with whether it goes on.
  unfoldable pub reply_round : ℕ → Received → Dump Net → Result (Bool × Dump Net)
  reply_round seq would_block d = ok (false, d)
  reply_round seq interrupted d = ok (true, d)
  reply_round seq failed d = err (message "io error")
  reply_round seq (datagram []) d = err (message "empty dump datagram")
  reply_round seq (datagram (b ∷ bs)) d = do
    d' ← with_state (messages (dump_message seq) (length (b ∷ bs)) (b ∷ bs) d)
    ok (not d'.done, d')

  unfoldable pub reply_rounds : ℕ → ℕ → List Arrival → Dump Net → Result (Dump Net × List Arrival)
  reply_rounds zero seq queue d = ok (d, queue)
  reply_rounds (suc n) seq [] d = ok (d, [])
  reply_rounds (suc n) seq (a ∷ queue) d = reply_round seq (recv a) d >>= λ (on, d').
      if on then reply_rounds n seq queue d' else ok (d', queue)

  -- The rounds, and `poll` when the dump is not done.
  unfoldable pub take_replies : Pass → Progress Net → Checked × Progress Net
  take_replies p s =
      attempt (reply_rounds 128 s.seq (s.replies ++ p.new_replies) s.dump) s (λ (d, replies).
        (if d.done then ok tt else poll p.polled, record s { dump = d; replies = replies }))

  -- One pass of the waiting loop.
  unfoldable pub pass : Pass → Progress Net → Checked × Progress Net
  pass p s =
      let queued = s.events ++ p.new_events in
      attempt
        (do
          ensure (not p.stopping) "stopping"
          ensure (ltb p.elapsed (c.kernel.dump_timeout_secs * 1_000_000_000))
              "netlink dump deadline exceeded"
          drain queued)
        (record s { events = queued })
        (λ (ev, events).
          let drained = record s { events = events } in
          attempt (ensure (not ev.lost) "netlink notification loss during dump") drained
            (λ u. take_replies p (record drained { changed = s.changed || ev.changed })))

  -- `while !done`, over the passes that it finds.
  unfoldable pub await_done : List Pass → Progress Net → Checked × Progress Net
  await_done [] s = (out_of_fuel, s)
  await_done (p ∷ ps) s =
      let r = pass p (record s { passes = ps }) in
      attempt r.0 r.1 (λ u. if r.1.dump.done then (ok tt, r.1) else await_done ps r.1)

  -- The drain at the publication boundary.
  unfoldable pub close : List Arrival → Progress Net → Checked × Progress Net
  close closing s = attempt (drain (s.events ++ closing)) s (λ (ev, events). (
    ensure (not ev.lost) "netlink notification loss at end of dump",
    record s { events = events; changed = s.changed || ev.changed },
  ))

  -- The bytes sent, or an error.
  module _ (sendto : List ℕ → Option ℕ) where
    unfoldable pub request : ℕ → ℕ → ℕ → Checked
    request seq family table = do
      n ← or_error (sendto (request_bytes seq family table))
      ensure (n == length (request_bytes seq family table)) "short netlink request"

    -- The body of the loop over the tables.
    unfoldable pub dump_table : ℕ → ℕ → Progress Net → Checked × Progress Net
    dump_table family table s =
        let started = record s {
          seq = next_seq s.seq;
          dump = record s.dump { done = false; saw_route = false };
        } in
        attempt (request started.seq family table) started (λ u. await_done started.passes started)

    unfoldable pub dump_tables : ℕ → List ℕ → Progress Net → Checked × Progress Net
    dump_tables family [] s = (ok tt, s)
    dump_tables family (table ∷ tables) s =
        let r = dump_table family table s in attempt r.0 r.1 (λ u. dump_tables family tables r.1)

    -- Both families.
    unfoldable pub dump_families : Progress Net → Checked × Progress Net
    dump_families s =
        let r = dump_tables 2 c.kernel.tables s in
        attempt r.0 r.1 (λ u. if c.ipv6 then dump_tables 10 c.kernel.tables r.1 else r)

    abbrev pub start : ℕ → List Arrival → List Pass → Progress Net
    start seq events passes = record {
      events = events;
      replies = [];
      changed = false;
      seq = seq;
      dump = record { done = false; saw_route = false; prefixes = [] };
      passes = passes;
    }

    -- `opened` says whether the socket could be opened and its option set, and `closing` is what
    -- arrives behind the last pass. The prefixes and the flag of the result are in the state.
    unfoldable pub snapshot :
        Bool → List Arrival → ℕ → List Arrival → List Pass → Checked × Progress Net
    snapshot opened closing seq events passes =
        attempt (ensure opened "io error") (start seq events passes) (λ u.
          let r = dump_families (start seq events passes) in
          attempt r.0 r.1 (λ u'. close closing r.1))
