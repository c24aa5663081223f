-- ===== src/Netlink/Reconcile.antt =====
-- The loop of `run` in src/netlink.rs. A turn is what one round of the loop finds: the stop flag,
-- what the sockets and the clock give (a time in nanoseconds), and when the watchdog checks, which
-- is between the accesses of the loop to the shared state. The deadlines fit the clock. A map of
-- exports is a list of names with prefixes in the order of the ACLs, and `publish` compares these.
pub mod Publishes
pub mod BacksOff
use ubgp.Base.{
  ℕ, ◌+◌, ◌-◌, ◌*◌, ◌^◌, min, Bool, true, false, not, ◌&&◌, ◌||◌, Option, some, List, [], ◌∷◌, ◌++◌,
  Str, leb, if◌then◌else◌, Result, Checked, ok, err, panic, out_of_fuel, message, ◌>>=◌, Eq,
}
use ubgp.Net.IpNet.{IpNet}
use ubgp.Config.{Config}
use ubgp.Netlink.Message.{attempt}
use ubgp.Netlink.Filter.{filter_exports}
use ubgp.Netlink.Events.{Arrival, Events, drain}
use ubgp.Netlink.Snapshot.{Pass, Polled, Progress, poll, snapshot}
use ubgp.Netlink.Freshness.{Freshness, invalidate, expire, publish}

abbrev pub ExportsOf : Type 0 → Type 0
ExportsOf Net = List (Str × List Net)

-- The locals of the loop, the queue of its socket, and what it shares with the watchdog.
pub record Reconciler (Net : Type 0) : Type 0 where
  pub queue : List Arrival
  pub seq : ℕ
  pub due : ℕ
  pub dirty : Bool
  pub periodic : ℕ
  pub retries : ℕ
  pub dumps : ℕ
  pub losses : ℕ
  pub datagrams : ℕ
  pub freshness : Freshness (ExportsOf Net)

-- Before the first round.
abbrev pub reconciler_start : {Net : Type 0} → ℕ → Reconciler Net
reconciler_start now = record {
  queue = [];
  seq = 0;
  due = now;
  dirty = true;
  periodic = now;
  retries = 0;
  dumps = 0;
  losses = 0;
  datagrams = 0;
  freshness = record { dirty_since = some now; withdrawn = false; published = [] };
}

pub record Turn : Type 0 where
  pub stopping : Bool
  pub arrivals : List Arrival
  pub now : ℕ
  -- The dump: whether its socket opens, its passes, and what arrives behind them, behind the
  -- filter, and whether the loop is stopped behind a failure.
  pub opened : Bool
  pub passes : List Pass
  pub closing : List Arrival
  pub late_arrivals : List Arrival
  pub stopped : Bool
  -- The clock at the publication and at the end.
  pub published_at : ℕ
  pub ended : ℕ
  -- The checks of the watchdog before the first and before the second access.
  pub checks : List ℕ
  pub late_checks : List ℕ
  pub polled : Polled

-- How a round goes on: with `poll`, with the next round at once, or not.
pub data Flow : Type 0 where
  to_poll to_next to_end : Flow

abbrev pub ms : ℕ → ℕ
ms n = n * 1_000_000

abbrev pub secs : ℕ → ℕ
secs n = n * 1_000_000_000

-- `(100u64 << retries.min(5)).min(3000)`
abbrev pub retry_ms : ℕ → ℕ
retry_ms retries = min (100 * 2 ^ min retries 5) 3000

-- `retries.saturating_add(1)` on u32
abbrev pub count_retry : ℕ → ℕ
count_retry retries = min (retries + 1) (2 ^ 32 - 1)

module _ {Net : Type 0} ⦃ops : IpNet Net⦄ ⦃eq : Eq (ExportsOf Net)⦄ (c : Config Net)
    (sendto : List ℕ → Option ℕ) where
  -- The loop of the watchdog, at these times.
  unfoldable pub watch : List ℕ → Freshness (ExportsOf Net) → Freshness (ExportsOf Net)
  watch [] f = f
  watch (now ∷ times) f = watch times (expire [] now (secs c.kernel.stale_timeout_secs) f)

  -- The drain at the top, and what it invalidates.
  unfoldable pub absorb : Turn → Reconciler Net → Checked × Reconciler Net
  absorb t s = attempt (drain (s.queue ++ t.arrivals)) s (λ (ev, queue).
      let counted = record s {
        queue = queue;
        datagrams = s.datagrams + ev.datagrams;
        freshness = watch t.checks s.freshness;
      } in
      (
        ok tt,
        if ev.changed || ev.lost || leb s.periodic t.now
            then record counted {
              dirty = true;
              losses = if ev.lost then s.losses + 1 else s.losses;
              freshness = invalidate t.now counted.freshness;
            }
            else counted,
      ))

  -- A snapshot that was taken: its exports, or nothing when notifications were lost meanwhile.
  unfoldable pub complete : Turn → Progress Net → Reconciler Net → Result (Flow × Reconciler Net)
  complete t p s = do
    exports ← filter_exports c p.dump.prefixes
    (after, queue) ← drain (s.queue ++ t.late_arrivals)
    let counted = record s {
      queue = queue;
      dumps = s.dumps + 1;
      datagrams = s.datagrams + after.datagrams;
      freshness = watch t.late_checks s.freshness;
    }
    ok (
        if after.lost
        then (
          to_next,
          record counted { losses = s.losses + 1; due = t.ended + ms c.kernel.refresh_interval_ms },
        )
        else (
          to_poll,
          record counted {
            freshness =
                publish t.published_at (p.changed || after.changed) exports counted.freshness;
            retries = 0;
            dirty = p.changed || after.changed;
            periodic = t.ended + secs c.kernel.reconcile_interval_secs;
            due = t.ended + ms c.kernel.refresh_interval_ms;
          },
        ))

  -- A snapshot that failed.
  unfoldable pub retry : Turn → Reconciler Net → Flow × Reconciler Net
  retry t s = if t.stopped then (to_end, s) else (
    to_poll,
    record s {
      retries = count_retry s.retries;
      due = t.ended + ms (retry_ms (count_retry s.retries));
      freshness = watch t.late_checks s.freshness;
    },
  )

  unfoldable pub after_dump :
      Turn → Checked × Progress Net → Reconciler Net → Result (Flow × Reconciler Net)
  after_dump t (ok u, p) s = complete t p s
  after_dump t (err e, p) s = ok (retry t s)
  after_dump t (panic, p) s = panic
  after_dump t (out_of_fuel, p) s = out_of_fuel

  unfoldable pub dump_when_due : Turn → Reconciler Net → Result (Flow × Reconciler Net)
  dump_when_due t s =
      if s.dirty && leb s.due t.now
      then (let r = snapshot c sendto t.opened t.closing s.seq s.queue t.passes in
          after_dump t r (record s { queue = r.1.events; seq = r.1.seq }))
      else ok (to_poll, s)

  abbrev pub is_poll : Flow → Bool
  is_poll to_poll = true
  is_poll to_next = false
  is_poll to_end = false

  abbrev pub is_end : Flow → Bool
  is_end to_end = true
  is_end to_poll = false
  is_end to_next = false

  -- One round, with whether the loop goes on.
  unfoldable pub reconcile_once : Turn → Reconciler Net → Checked × (Bool × Reconciler Net)
  reconcile_once t s =
      let r = absorb t s in
      attempt r.0 (true, r.1)
        (λ u.
          attempt (dump_when_due t r.1) (true, r.1)
            (λ (flow, s').
              (if is_poll flow then poll t.polled else ok tt, (not (is_end flow), s'))))

  -- The rounds, as far as the turns go.
  unfoldable pub reconcile : List Turn → Reconciler Net → Checked × Reconciler Net
  reconcile [] s = (ok tt, s)
  reconcile (t ∷ ts) s =
      if t.stopping
      then (ok tt, s)
      else (let r = reconcile_once t s in
          attempt r.0 r.1.1 (λ u. if r.1.0 then reconcile ts r.1.1 else (ok tt, r.1.1)))
