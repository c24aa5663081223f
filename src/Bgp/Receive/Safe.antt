-- ===== src/Bgp/Receive/Safe.antt =====
-- The receiving half of a session does not panic, and what restarts its hold timer.
use ubgp.Base.{
  ℕ, ◌+◌, ◌≤◌, ◌≡◌, ◌⊎◌, inl, inr, refl, not, ◌&&◌, List, [], ◌∷◌, All, length, ltb, ◌==◌, arith,
  le→leb,
}
use ubgp.Base.Ensures.{
  Checks, Ensures-Checks, holds, rejected, Ensures-if, Ensures-bind, of_Returns,
}
use ubgp.Net.IpNet.{IpNet, IpNetLaws}
use ubgp.Wire.Frame.{frame, keepalive, update_kind, route_refresh}
use ubgp.Wire.Open.{Negotiated}
use ubgp.Wire.Validate.Total.{validate_update_total}
use ubgp.Wire.Routes.{FsmState, refresh_family, established, unexpected}
use ubgp.Wire.Routes.Total.{update_prefixes_total}
use ubgp.Bgp.Receive.{Arrival, Inbox, is_valid, warn, handle, receive}

-- What `read_frame` returns: an error, or a body that fits a message.
abbrev pub IsPacket : Arrival → Type 0
IsPacket a = Checks (λ r. length r.1 ≤ 4077) a.packet

-- The timer is restarted by KEEPALIVE and UPDATE, and by nothing else.
abbrev pub IsRestart : Negotiated → ℕ → ℕ → Inbox → Inbox → Type 0
IsRestart n now kind s s' =
    ((s'.expires ≡ now + n.hold) × ((kind ≡ keepalive) ⊎ (kind ≡ update_kind)))
    ⊎ ((s'.expires ≡ s.expires) × (kind ≡ route_refresh))

refresh_family_total : (b : List ℕ) (n : Negotiated) → Checks (λ f. Unit {0}) (refresh_family b n)
unfolding refresh_family
refresh_family_total (a ∷ b ∷ c ∷ d ∷ []) n =
    of_Returns (refresh_family (a ∷ b ∷ c ∷ d ∷ []) n) (ground arith)
refresh_family_total b n = of_Returns (refresh_family b n) (ground arith)

pub unexpected_total :
    (state : FsmState) (kind : ℕ) (body : List ℕ)
    → Checks (λ e. Unit {0}) (unexpected state kind body)
unfolding unexpected
unexpected_total state kind [] = of_Returns (unexpected state kind []) (ground arith)
unexpected_total state kind (a ∷ []) = of_Returns (unexpected state kind (a ∷ [])) (ground arith)
unexpected_total state kind (a ∷ b ∷ l) =
    of_Returns (unexpected state kind (a ∷ b ∷ l)) (ground arith)

module _ {Net : Type 0} ⦃ops : IpNet Net⦄ (laws : IpNetLaws ops) where
  warn_total : (body : List ℕ) → length body ≤ 4077 → Checks (λ t. Unit {0}) (warn Net body)
  unfolding warn frame
  warn_total body fits =
      Ensures-bind (Ensures-Checks (update_prefixes_total laws body))
        λ prefixes _. rw (le→leb (length body + 19) 4096 (omega arith)) (holds tt)

  -- `handle` returns on every packet that fits a message: with an error, or having restarted the
  -- hold timer exactly when the packet is a KEEPALIVE or an UPDATE.
  pub handle_total :
      (n : Negotiated) (now kind : ℕ) (body : List ℕ) (s : Inbox)
      → length body ≤ 4077
      → Checks (λ s'. IsRestart n now kind s s') (handle Net n now kind body s)
  unfolding handle
  handle_total n now kind body s fits =
      Ensures-if (kind == keepalive) (λ k. holds (inl (refl, inl (ground arith))))
        λ _.
          Ensures-if (kind == update_kind)
            (λ k. Ensures-bind (Ensures-Checks (validate_update_total body n)) λ action _.
              Ensures-if (is_valid action) (λ _. holds (inl (refl, inr (ground arith))))
                (λ _.
                  Ensures-bind (warn_total body fits)
                    λ text _. holds (inl (refl, inr (ground arith)))))
            λ _.
              Ensures-if (kind == route_refresh)
                (λ k.
                  Ensures-bind (refresh_family_total body n)
                    λ family _. holds (inr (refl, ground arith)))
                λ _. Ensures-bind (unexpected_total established kind body) λ e _. rejected tt

  -- Whatever arrives, and whenever, the receiving loop does not panic.
  pub receive_total :
      (n : Negotiated) (arrivals : List Arrival) (s : Inbox)
      → All IsPacket arrivals
      → Checks (λ s'. Unit {0}) (receive Net n arrivals s)
  unfolding receive
  receive_total n [] s h = Ensures-if (n.hold == 0) (λ _. holds tt) (λ _. rejected tt)
  receive_total n (a ∷ rest) s h =
      Ensures-if (not (n.hold == 0) && ltb s.expires a.at) (λ _. rejected tt)
        λ _. Ensures-bind h.0 λ packet fits.
          Ensures-bind (handle_total n a.at packet.0 packet.1 s fits)
            λ s' _. receive_total n rest s' h.1
