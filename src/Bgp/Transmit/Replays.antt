-- ===== src/Bgp/Transmit/Replays.antt =====
-- Requests for a refresh are not lost.
use ubgp.Base.{
  ℕ, ◌+◌, ◌≡◌, ◌≢◌, ◌≤◌, ◌<◌, ◌⊎◌, inl, inr, refl, sym, ◌∙◌, Bool, true, false, not, ◌&&◌, ◌||◌,
  ◌==◌, List, [], contains, Bool-cases, leb, leb→le, not-leb→lt, bit_and, if◌then◌else◌, arith,
}
use ubgp.Base.Sets.{contains-filter, filter}
use ubgp.Net.Addr.{is_ipv6}
use ubgp.Net.IpNet.{IpNet, eq_of_net}
use ubgp.Config.{Config, Peer}
use ubgp.Wire.Open.{Negotiated}
use ubgp.Bgp.Plan.{new_plan, enabled}
use ubgp.Bgp.Plan.Converges.{contains-by_family}
use ubgp.Bgp.Transmit.Requests.{pend, asks, bits, pend-bits, no_requests, pend_none, markers_due}
use ubgp.Bgp.Transmit.{Transmitter, at_keepalive, asked_for, refreshed, take_refresh}

not_both : {b : Bool} → b ≡ false → ¬ (b ≡ true)
not_both e t = cc

module _ {Net : Type 0} ⦃ops : IpNet Net⦄ (c : Config Net) (p : Peer) (n : Negotiated) where
  -- A prefix to replay is announced again, though it was announced before.
  contains-replayed :
      (advertised desired replay : List Net) (x : Net)
      → contains (new_plan advertised desired n replay).additions x ≡ (
          contains desired x && (enabled n x && (contains replay x || not (contains advertised x))))
  unfolding new_plan
  contains-replayed advertised desired replay x =
      contains-by_family
        (filter (λ q. enabled n q && (contains replay q || not (contains advertised q))) desired) x
      ∙ contains-filter (λ q. enabled n q && (contains replay q || not (contains advertised q)))
          desired x

  open ops use {addr}

  -- `is_v6` is the family of a prefix.
  asked_for-bits :
      (a b is_v6 : Bool)
      → not (bit_and (bits a b) (if is_v6 then 2 else 1) == 0) ≡ (if is_v6 then b else a)
  unfolding bits
  asked_for-bits true true true = refl
  asked_for-bits true true false = refl
  asked_for-bits true false true = refl
  asked_for-bits true false false = refl
  asked_for-bits false true true = refl
  asked_for-bits false true false = refl
  asked_for-bits false false true = refl
  asked_for-bits false false false = refl

  asks_if :
      (asked : List Bool) (is_v6 : Bool)
      → (if is_v6 then asks asked true else asks asked false) ≡ asks asked is_v6
  asks_if asked true = refl
  asks_if asked false = refl

  asked_for-asks :
      (asked : List Bool) (x : Net) → asked_for (pend asked) x ≡ asks asked (is_ipv6 (addr x))
  asked_for-asks asked x =
      rw (pend-bits asked) (asked_for-bits (asks asked false) (asks asked true) (is_ipv6 (addr x)))
      ∙ asks_if asked (is_ipv6 (addr x))

  -- The negotiated family of a prefix.
  abbrev pub in_family : Net → Bool
  in_family x = if is_ipv6 (addr x) then n.ipv6 else n.ipv4

  enabled-in_family : (x : Net) → enabled n x ≡ in_family x
  enabled-in_family x = elim (Bool-cases (is_ipv6 (addr x))) [
    | inl e ↦ rw e refl
    | inr e ↦ rw e refl
  ]

  -- What a refresh that is taken comes to.
  pub record IsReplayed (asked : List Bool) (stored : ℕ) (s s' : Transmitter Net) (x : Net)
      : Type 0 where
    pub none_left : s'.pending ≡ 0
    pub cooldown : s'.next_refresh ≡ stored + 1000
    pub markers : s'.eor ≡ bits (asks asked false && n.ipv4) (asks asked true && n.ipv6)
    pub again : contains s'.plan.additions x ≡ (
        contains s.target x
        && (in_family x && (asks asked (is_ipv6 (addr x)) || not (contains s.sent.advertised x))))

  absorbs : (t e a v : Bool) → (t && (e && ((t && a) || v))) ≡ (t && (e && (a || v)))
  absorbs true e a v = refl
  absorbs false e a v = refl

  refreshed-IsReplayed :
      (asked : List Bool) (families stored : ℕ) (s : Transmitter Net) (x : Net)
      → families ≡ pend asked
      → IsReplayed asked stored s
          (record (refreshed c p n families stored s) { phase = at_keepalive })
          x
  refreshed-IsReplayed asked families stored s x h = record {
    none_left = refl;
    cooldown = refl;
    markers =
        rw (h, pend-bits asked) (markers_due (asks asked false) (asks asked true) n.ipv4 n.ipv6);
    again =
        contains-replayed s.sent.advertised s.target (filter (asked_for families) s.target) x
        ∙ rw
            (
              contains-filter (asked_for families) s.target x,
              h,
              asked_for-asks asked x,
              enabled-in_family x,
            )
            (absorbs (contains s.target x) (in_family x) (asks asked (is_ipv6 (addr x)))
              (not (contains s.sent.advertised x)));
  }

  -- For the requests that came since the last ones were taken, the test for refreshes does one of
  -- two things. When a marker is due, the cooldown is not over or none came, it changes nothing.
  -- When no marker is due, the cooldown is over and some came, it takes all of them: it plans to
  -- announce exactly the prefixes of the target whose family is negotiated and which are of a
  -- requested family or not announced yet, makes the markers of the requested and negotiated
  -- families due, and starts a cooldown of a second.
  pub take_refresh_exact :
      (asked : List Bool) (now stored : ℕ) (s : Transmitter Net) (x : Net)
      → s.pending ≡ pend asked
      → let s' = take_refresh c p n now stored s in
        ((s' ≡ record s { phase = at_keepalive })
          × ((s.eor ≢ 0) ⊎ (now < s.next_refresh) ⊎ (asked ≡ [])))
        ⊎ ((s.eor ≡ 0) × (s.next_refresh ≤ now) × (asked ≢ []) × IsReplayed asked stored s s' x)
  unfolding take_refresh
  take_refresh_exact asked now stored s x h = elim (Bool-cases (s.eor == 0)) [
    | inr due ↦ rw due (inl (refl, inl (λ e. not_both due (ground arith))))
    | inl none_due ↦ elim (Bool-cases (leb s.next_refresh now)) [
      | inr early ↦
          rw (none_due, early) (inl (refl, inr (inl (not-leb→lt s.next_refresh now early))))
      | inl late ↦ elim (Bool-cases (s.pending == 0)) [
        | inl empty ↦
            rw (none_due, late, empty)
              (inl (refl, inr (inr (no_requests asked (sym h ∙ ground arith)))))
        | inr some_asked ↦
            rw (none_due, late, some_asked)
              (inr (
                ground arith,
                leb→le s.next_refresh now late,
                λ e. not_both some_asked (rw (h, e, pend_none) refl),
                refreshed-IsReplayed asked s.pending stored s x h,
              ))
      ]
    ]
  ]
