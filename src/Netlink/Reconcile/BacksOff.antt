-- ===== src/Netlink/Reconcile/BacksOff.antt =====
-- What follows a dump that failed.
use ubgp.Base.{
  ℕ, ◌+◌, ◌≤◌, ◌≡◌, ◌∙◌, refl, min, false, Option, List, [], ◌∷◌, Error, ok, err, Eq, arith,
}
use ubgp.Base.Powers.{power_range}
use ubgp.Net.IpNet.{IpNet}
use ubgp.Config.{Config}
use ubgp.Netlink.Snapshot.{Progress}
use ubgp.Netlink.Freshness.{Freshness}
use ubgp.Netlink.Freshness.Bounded.{expire-dirty}
use ubgp.Netlink.Reconcile.{
  ExportsOf, Reconciler, Turn, to_poll, ms, retry_ms, count_retry, watch, retry, after_dump,
}

retry_range : (retries : ℕ) → 1 ≤ retries → (200 ≤ retry_ms retries) × (retry_ms retries ≤ 3000)
retry_range retries h =
    let power = power_range (min retries 5) (omega arith) (omega arith) in
    (omega (arith, power.0), omega arith)

module _ {Net : Type 0} ⦃ops : IpNet Net⦄ ⦃eq : Eq (ExportsOf Net)⦄ (c : Config Net)
    (sendto : List ℕ → Option ℕ) where
  watch-dirty :
      (times : List ℕ) (f : Freshness (ExportsOf Net))
      → (watch c sendto times f).dirty_since ≡ f.dirty_since
  unfolding watch
  watch-dirty [] f = refl
  watch-dirty (now ∷ times) f = watch-dirty times _ ∙ expire-dirty [] _ now f

  -- The next dump is due from 200 to 3000 milliseconds later, the state stays dirty for as long, and
  -- the loop polls.
  pub record BacksOff (t : Turn) (s s' : Reconciler Net) : Type 0 where
    pub due_low : t.ended + ms 200 ≤ s'.due
    pub due_high : s'.due ≤ t.ended + ms 3000
    pub still_dirty : s'.dirty ≡ s.dirty
    pub same_deadline : s'.freshness.dirty_since ≡ s.freshness.dirty_since

  -- A dump that fails while the loop is not stopped is tried again from 200 to 3000 milliseconds
  -- later, and neither it nor the watchdog moves the start of the stale time.
  pub after_dump-BacksOff :
      (t : Turn) (e : Error) (p : Progress Net) (s : Reconciler Net)
      → t.stopped ≡ false
      → (s' : Reconciler Net) × (after_dump c sendto t (err e, p) s ≡ ok (to_poll, s'))
        × BacksOff t s s'
  unfolding after_dump retry
  after_dump-BacksOff t e p s going =
      let range = retry_range (count_retry s.retries) (omega arith) in
      let s' : Reconciler Net = record s {
        retries = count_retry s.retries;
        due = t.ended + ms (retry_ms (count_retry s.retries));
        freshness = watch c sendto t.late_checks s.freshness;
      } in
      (
        s',
        rw going refl,
        record {
          due_low = omega (arith, range.0);
          due_high = omega (arith, range.1);
          still_dirty = refl;
          same_deadline = watch-dirty t.late_checks s.freshness;
        },
      )
