-- ===== src/Bgp/Transmit.antt =====
-- `transmit` of src/bgp.rs as a state machine. A round of its loop is four steps, one for each
-- thing that the round looks at, and a fifth waits in `select!`. Between any two of them other
-- tasks publish exports and request refreshes. A step is given the readings of the clock, in
-- milliseconds, that it takes: one for its test, one for what it stores. Writes succeed: a write
-- that fails ends the loop with its error.
pub mod Synchronized
pub mod Requests
pub mod Replays
pub mod Settles
pub mod Targets
use ubgp.Base.{
  ℕ, ◌+◌, ◌-◌, ◌*◌, ◌/◌, Bool, true, false, not, ◌&&◌, ◌||◌, Option, none, some, List, [], ◌∷◌,
  ◌++◌, Str, Result, ok, err, message, ◌>>=◌, leb, ◌==◌, if◌then◌else◌, bit_and, contains, length,
}
use ubgp.Base.Sets.{filter}
use ubgp.Net.Addr.{is_ipv6}
use ubgp.Net.IpNet.{IpNet, eq_of_net}
use ubgp.Config.{Config, Peer}
use ubgp.Wire.Frame.{frame, keepalive}
use ubgp.Wire.Open.{Negotiated}
use ubgp.Wire.Update.{update, end_of_rib}
use ubgp.Netlink.Filter.{desired}
use ubgp.Bgp.Plan.{Plan, Sent, new_plan, next_batch, written}
use ubgp.Bgp.Receive.{request}

-- Where the loop stands: at the top, before the test of refreshes, of the keepalive timer, of the
-- plan, or in `select!`.
pub data Phase : Type 0 where
  at_top at_refresh at_keepalive at_plan at_wait : Phase

-- The locals of `transmit` with what it shares: the channel of exports (its value, whether that
-- has been seen, whether the sender is gone) and the bits of `Refresh`.
pub record Transmitter (Net : Type 0) : Type 0 where
  pub phase : Phase
  pub sent : Sent Net
  pub target : List Net
  pub plan : Plan Net
  pub eor : ℕ
  pub next_keepalive : ℕ
  pub last_replan : ℕ
  pub next_refresh : ℕ
  pub exports : List (Str × List Net)
  pub unseen : Bool
  pub closed : Bool
  pub pending : ℕ

-- What wakes `select!`.
pub data Wake : Type 0 where
  exports_changed notified refresh_due keepalive_due : Wake

pub data Event (Net : Type 0) : Type 0 where
  advanced : ℕ → ℕ → Event Net
  woken : Wake → ℕ → Event Net
  published : List (Str × List Net) → Event Net
  sender_dropped : Event Net
  requested : Bool → Event Net

-- `u8::from(n.ipv4) | (u8::from(n.ipv6) << 1)`
abbrev pub family_bits : Bool → Bool → ℕ
family_bits ipv4 ipv6 = (if ipv4 then 1 else 0) + (if ipv6 then 2 else 0)

-- `(n.hold as u64 / 3).max(1)` seconds
abbrev pub keepalive_ms : ℕ → ℕ
keepalive_ms hold = (if leb 1 (hold / 3) then hold / 3 else 1) * 1000

abbrev pub is_waiting : Phase → Bool
is_waiting at_wait = true
is_waiting at_top = false
is_waiting at_refresh = false
is_waiting at_keepalive = false
is_waiting at_plan = false

-- The markers of the families that are due.
unfoldable pub markers : ℕ → Result (List (List ℕ))
markers eor = do
  first ← if not (bit_and eor 1 == 0) then (do m ← end_of_rib false; ok (m ∷ [])) else ok []
  second ← if not (bit_and eor 2 == 0) then (do m ← end_of_rib true; ok (m ∷ [])) else ok []
  ok (first ++ second)

module _ {Net : Type 0} ⦃ops : IpNet Net⦄ where
  open ops use {addr}

  abbrev pub family_bit : Net → ℕ
  family_bit prefix = if is_ipv6 (addr prefix) then 2 else 1

  abbrev pub asked_for : ℕ → Net → Bool
  asked_for families prefix = not (bit_and families (family_bit prefix) == 0)

  module _ (c : Config Net) (p : Peer) (n : Negotiated) where
    unfoldable pub start : ℕ → List (Str × List Net) → Transmitter Net
    start now exports = record {
      phase = at_top;
      sent = record { advertised = []; replay = [] };
      target = desired exports p.export_acl;
      plan = new_plan [] (desired exports p.export_acl) n [];
      eor = family_bits n.ipv4 n.ipv6;
      next_keepalive = now + keepalive_ms n.hold;
      last_replan = now;
      next_refresh = now;
      exports = exports;
      unseen = false;
      closed = false;
      pending = 0;
    }

    -- The new target, what is left of the replay, and the plan for them.
    abbrev pub retarget : ℕ → Transmitter Net → Transmitter Net
    retarget stored s =
        let target = desired s.exports p.export_acl in
        let replay = filter (λ prefix. contains target prefix) s.sent.replay in
        record s {
          target = target;
          sent = record { advertised = s.sent.advertised; replay = replay };
          plan = new_plan s.sent.advertised target n replay;
          last_replan = stored;
          unseen = false;
        }

    unfoldable pub replan : ℕ → ℕ → Transmitter Net → Result (Transmitter Net)
    replan now stored s =
        if s.closed
        then err (message "channel closed")
        else if s.unseen && leb 100 (now - s.last_replan)
        then ok (record (retarget stored s) { phase = at_refresh })
        else ok (record s { phase = at_refresh })

    -- The body of `if families != 0`.
    abbrev pub refreshed : ℕ → ℕ → Transmitter Net → Transmitter Net
    refreshed families stored s =
        let replay = filter (asked_for families) s.target in
        record s {
          sent = record { advertised = s.sent.advertised; replay = replay };
          plan = new_plan s.sent.advertised s.target n replay;
          eor = bit_and families (family_bits n.ipv4 n.ipv6);
          next_refresh = stored + 1000;
          pending = 0;
        }

    unfoldable pub take_refresh : ℕ → ℕ → Transmitter Net → Transmitter Net
    take_refresh now stored s =
        if s.eor == 0 && leb s.next_refresh now && not (s.pending == 0)
        then record (refreshed s.pending stored s) { phase = at_keepalive }
        else record s { phase = at_keepalive }

    unfoldable pub send_keepalive :
        ℕ → ℕ → Transmitter Net → Result (List (List ℕ) × Transmitter Net)
    send_keepalive now stored s =
        if not (n.hold == 0) && leb s.next_keepalive now
        then (do
          packet ← frame keepalive []
          ok (
            packet ∷ [],
            record s { phase = at_plan; next_keepalive = stored + keepalive_ms n.hold },
          ))
        else ok ([], record s { phase = at_plan })

    -- A batch and `continue`, or the markers and `select!`.
    abbrev pub send_next :
        Transmitter Net
        → Option ((Bool × List Net) × Plan Net)
        → Result (List (List ℕ) × Transmitter Net)
    send_next s (some ((withdraw, batch), plan')) = do
      packet ← update c p n batch withdraw
      ok (
        packet ∷ [],
        record s { phase = at_top; plan = plan'; sent = written withdraw batch s.sent },
      )
    send_next s none = do
      packets ← markers s.eor
      ok (packets, record s { phase = at_wait; eor = 0 })

    unfoldable pub advance :
        Phase → ℕ → ℕ → Transmitter Net → Result (List (List ℕ) × Transmitter Net)
    advance at_top now stored s = do s' ← replan now stored s; ok ([], s')
    advance at_refresh now stored s = ok ([], take_refresh now stored s)
    advance at_keepalive now stored s = send_keepalive now stored s
    advance at_plan now stored s = send_next s (next_batch s.plan)
    advance at_wait now stored s = ok ([], s)

    -- The branches of `select!`. One that is not ready, or not enabled, leaves the loop waiting.
    unfoldable pub wake : Wake → ℕ → Transmitter Net → Result (Transmitter Net)
    wake exports_changed now s =
        if s.unseen
        then ok (record (retarget now s) { phase = at_top })
        else if s.closed
        then err (message "channel closed")
        else ok s
    wake notified now s = ok (record s { phase = at_top })
    wake refresh_due now s = ok (
        if s.eor == 0 && not (s.pending == 0) && leb s.next_refresh now
        then record s { phase = at_top }
        else s)
    wake keepalive_due now s =
        ok
          (if not (n.hold == 0) && leb s.next_keepalive now then record s { phase = at_top } else s)

    unfoldable pub step : Event Net → Transmitter Net → Result (List (List ℕ) × Transmitter Net)
    step (advanced now stored) s = advance s.phase now stored s
    step (woken cause now) s =
        if is_waiting s.phase then (do s' ← wake cause now s; ok ([], s')) else ok ([], s)
    step (published exports) s = ok ([], record s { exports = exports; unseen = true })
    step sender_dropped s = ok ([], record s { closed = true })
    step (requested is_v6) s = ok ([], record s { pending = request is_v6 s.pending })

    -- The packets in the order in which they are written.
    unfoldable pub run :
        List (Event Net) → Transmitter Net → Result (List (List ℕ) × Transmitter Net)
    run [] s = ok ([], s)
    run (e ∷ es) s = do
      (packets, s') ← step e s
      (later, s'') ← run es s'
      ok (packets ++ later, s'')
