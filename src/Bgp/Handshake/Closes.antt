-- ===== src/Bgp/Handshake/Closes.antt =====
-- How a connection attempt ends.
use ubgp.Base.{
  sym, le→leb, subst, ℕ, ◌+◌, ◌≤◌, ◌≡◌, ◌⊎◌, inl, inr, refl, Bool, true, false, not, Option, none,
  some, List, [], ◌∷◌, ◌++◌, length, ltb, ◌==◌, Error, protocol, unexpected_eof, message, Result,
  ok, ◌>>=◌, arith,
}
use ubgp.Base.Ensures.{
  bind_ok, Checks, Ensures-Checks, holds, rejected, Ensures-if, Ensures-bind, ensure-Checks,
}
use ubgp.Net.Addr.{Ipv6Addr}
use ubgp.Config.{Peer, Config}
use ubgp.Wire.Frame.{frame, notification, read_frame}
use ubgp.Wire.Frame.RoundTrip.{kept, read_frame-notification}
use ubgp.Wire.Open.{open_message, open_body, open_caps, families}
use ubgp.Wire.Open.Total.{IsNegotiated, parse_open_total}
use ubgp.Wire.Routes.{FsmState}
use ubgp.Bgp.Receive.Safe.{unexpected_total}
use ubgp.Bgp.Choose.{Candidate}
use ubgp.Bgp.Local.{Interface}
use ubgp.Bgp.Local.Owned.{OwnedOn, check_local_addresses-Owned}
use ubgp.Bgp.Handshake.{
  Action, wrote, report, Reading, within, finish_open, Opened, after_open, exchange, handshake,
}

-- A reader gets the code, the subcode and the data of the error, as much as fits a message.
abbrev pub IsNotice : ℕ → ℕ → List ℕ → List ℕ → Type 0
IsNotice code subcode error_data packet =
    (rest : List ℕ) → read_frame (packet ++ rest) ≡ ok ((3, code ∷ subcode ∷ kept error_data), rest)

-- What the peer is told of an error: a protocol error by one NOTIFICATION, others not at all.
abbrev pub Reports : Error → List Action → Type 0
Reports (protocol e) notices =
    (packet : List ℕ) × (notices ≡ wrote packet ∷ [])
    × IsNotice e.code e.subcode e.error_data packet
Reports unexpected_eof notices = notices ≡ []
Reports (message text) notices = notices ≡ []

pub notification-IsNotice :
    (code subcode : ℕ) (error_data : List ℕ)
    → (packet : List ℕ) × (notification code subcode error_data ≡ ok packet)
      × IsNotice code subcode error_data packet
notification-IsNotice code subcode error_data =
    let (packet, made) =
      bind_ok (notification code subcode error_data) (λ packet. read_frame (packet ++ []))
        (read_frame-notification code subcode error_data []) in
    (
      packet,
      made,
      λ rest.
          subst
            (λ m.
              (m >>= λ packet'. read_frame (packet' ++ rest))
              ≡ ok ((3, code ∷ subcode ∷ kept error_data), rest))
            made (read_frame-notification code subcode error_data rest),
    )

pub report-Reports : (e : Error) → Checks (Reports e) (report e)
unfolding report
report-Reports (protocol e) =
    let (packet, made, reads) = notification-IsNotice e.code e.subcode e.error_data in
    rw made (holds (packet, refl, reads))
report-Reports unexpected_eof = holds refl
report-Reports (message text) = holds refl

abbrev pub IsPacketResult : Result (ℕ × List ℕ) → Type 0
IsPacketResult r = Checks (λ x. length x.1 ≤ 4077) r

-- A reading of what `read_frame` can return.
abbrev pub IsReading : Reading → Type 0
IsReading none = Unit
IsReading (some (time, r)) = IsPacketResult r

pub within-IsPacketResult :
    (seconds : ℕ) (late : Error) (reading : Reading)
    → IsReading reading
    → IsPacketResult (within seconds late reading)
unfolding within
within-IsPacketResult seconds late none h = rejected tt
within-IsPacketResult seconds late (some (time, r)) h =
    Ensures-if (ltb seconds time) (λ e. rejected tt) (λ e. h)

length-families : (v4 v6 : Bool) → length (families v4 v6) ≤ 12
length-families true true = omega arith
length-families true false = omega arith
length-families false true = omega arith
length-families false false = omega arith

module _ {Net : Type 0} where
  open_body_small : (c : Config Net) (p : Peer) → length (open_body c p) + 19 ≤ 4096
  unfolding open_body open_caps
  open_body_small c p = omega (arith, length-families p.ipv4 p.ipv6)

  open_message_lem :
      (c : Config Net) (p : Peer) → (packet : List ℕ) × (open_message c p ≡ ok packet)
  unfolding open_message frame open_body open_caps
  open_message_lem c p =
      rw (le→leb (length (open_body c p) + 19) 4096 (open_body_small c p)) (_, refl)

  -- A candidate of this direction, negotiated within the configuration, on an interface that has
  -- the peer's local address and next hops; OPEN is all that was written.
  pub record IsCandidate (c : Config Net) (p : Peer) (interfaces : Option (List Interface))
      (incoming : Bool) (trace : List Action) (candidate : Candidate) : Type 0 where
    pub packet : List ℕ
    pub made : open_message c p ≡ ok packet
    pub only_open : trace ≡ wrote packet ∷ []
    pub direction : candidate.incoming ≡ incoming
    pub negotiated : IsNegotiated c p candidate.negotiated
    pub owned : OwnedOn interfaces p candidate.link_local

  -- Nothing was written, or OPEN and what is reported of the error.
  abbrev pub IsRefused : Config Net → Peer → List Action → Error → Type 0
  IsRefused c p trace e =
      (trace ≡ [])
      ⊎ ((packet : List ℕ) × (notices : List Action) × (open_message c p ≡ ok packet)
          × (trace ≡ wrote packet ∷ notices)
          × Reports e notices)

  abbrev pub IsOpened : Config Net → Peer → Option (List Interface) → Bool → Opened → Type 0
  IsOpened c p interfaces incoming (trace, inl candidate) =
      IsCandidate c p interfaces incoming trace candidate
  IsOpened c p interfaces incoming (trace, inr e) = IsRefused c p trace e

  Fresh : Config Net → Peer → Bool → Option Ipv6Addr → Candidate → Type 0
  Fresh c p incoming link_local candidate =
      IsNegotiated c p candidate.negotiated
      × (candidate.incoming ≡ incoming)
      × (candidate.link_local ≡ link_local)

  after_open-IsOpened :
      (c : Config Net) (p : Peer) (interfaces : Option (List Interface)) (incoming : Bool)
      (link_local : Option Ipv6Addr) (packet : List ℕ) {r : Result Candidate}
      → open_message c p ≡ ok packet
      → OwnedOn interfaces p link_local
      → Checks (Fresh c p incoming link_local) r
      → Checks (IsOpened c p interfaces incoming) (after_open (wrote packet ∷ []) r)
  unfolding after_open Fresh
  after_open-IsOpened c p interfaces incoming link_local packet made owned
        (holds {a = candidate} (n, d, l)) =
      holds (record {
        packet = packet;
        made = made;
        only_open = refl;
        direction = d;
        negotiated = n;
        owned = subst (OwnedOn interfaces p) (sym l) owned;
      })
  after_open-IsOpened c p interfaces incoming link_local packet made owned (rejected {e = e} h) =
      Ensures-bind (report-Reports e)
        λ notices reports. holds (inr (packet, notices, made, refl, reports))

  finish_open-Fresh :
      (c : Config Net) (p : Peer) (incoming : Bool) (link_local : Option Ipv6Addr) (r : ℕ × List ℕ)
      → (p.hold_time_secs ≡ 0) ⊎ (3 ≤ p.hold_time_secs)
      → Checks (Fresh c p incoming link_local) (finish_open c p incoming link_local r)
  unfolding finish_open Fresh
  finish_open-Fresh c p incoming link_local (kind, body) hold =
      Ensures-if (not (kind == 1))
        (λ e. Ensures-bind (unexpected_total FsmState.open_sent kind body) λ x h. rejected tt)
        (λ e.
          Ensures-bind (Ensures-Checks (parse_open_total body c p hold))
            λ n h. holds (h, refl, refl))

  exchange-IsOpened :
      (c : Config Net) (p : Peer) (interfaces : Option (List Interface)) (incoming can_write : Bool)
      (reading : Reading) {r : Result (Option Ipv6Addr)}
      → (p.hold_time_secs ≡ 0) ⊎ (3 ≤ p.hold_time_secs)
      → IsReading reading
      → Checks (OwnedOn interfaces p) r
      → Checks (IsOpened c p interfaces incoming) (exchange c p incoming can_write reading r)
  unfolding exchange
  exchange-IsOpened c p interfaces incoming can_write reading hold fits (rejected h) =
      holds (inl refl)
  exchange-IsOpened c p interfaces incoming can_write reading hold fits
        (holds {a = link_local} owned) =
      let (packet, made) = open_message_lem c p in
      rw made (
        Ensures-if (not can_write) (λ e. holds (inl refl))
          λ e. after_open-IsOpened c p interfaces incoming link_local packet made owned (
            Ensures-bind (within-IsPacketResult p.connect_timeout_secs _ reading fits)
              λ r h. finish_open-Fresh c p incoming link_local r hold))

  -- Whatever is read, `handshake` ends without a panic. A candidate is negotiated within the
  -- configuration, on an interface that has the peer's local address and next hops. On an error
  -- behind OPEN, a protocol error is told to the peer by one NOTIFICATION with its code, subcode
  -- and data, and other errors are not.
  pub handshake-IsOpened :
      (c : Config Net) (p : Peer) (interfaces : Option (List Interface))
      (incoming configured can_write : Bool) (reading : Reading)
      → (p.hold_time_secs ≡ 0) ⊎ (3 ≤ p.hold_time_secs)
      → IsReading reading
      → Checks
          (IsOpened c p interfaces incoming)
          (handshake c p incoming configured interfaces can_write reading)
  unfolding handshake
  handshake-IsOpened c p interfaces incoming configured can_write reading hold fits =
      exchange-IsOpened c p interfaces incoming can_write reading hold fits
        (Ensures-bind (ensure-Checks configured _) λ u h. check_local_addresses-Owned interfaces p)
