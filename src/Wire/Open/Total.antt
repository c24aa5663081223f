-- ===== src/Wire/Open/Total.antt =====
-- `parse_open` on any bytes: it returns, never panics, and every error is an OPEN error.
use ubgp.Base.{
  ℕ, zero, suc, ◌+◌, ◌≤◌, ◌≡◌, ◌⊎◌, refl, Bool, true, false, not, ◌&&◌, ◌||◌, List, [], ◌∷◌, length,
  take, drop, leb, ◌==◌, same, if◌then◌else◌, Result, index, slice, slice_lem, slice_from_lem,
  same_iff, ◌≢◌, ◌↔◌, ◌>>=◌, arith, length-drop, length-take, leb→le,
}
use ubgp.Base.Ensures.{
  Ensures, holds, rejected, of_Returns, Ensures-bind, Ensures-index, Ensures-slice,
  Ensures-slice_from, Ensures-if,
}
use ubgp.Net.Addr.{Ipv4Addr, ipv4, ipv4_eq}
use ubgp.Config.{Config, Peer, valid_router_id}
use ubgp.Wire.Frame.{u16b}
use ubgp.Wire.Faults.{IsFault, Ensures-require, u16b_total, u16_field_total}
use ubgp.Wire.Open.{
  Negotiated, Capabilities, no_capabilities, capability, capabilities, parameters, parameter_block,
  negotiate, parse_open, is_extended,
}

abbrev Fine {ℓ} : {A : Type ℓ} → Result A → Type ℓ
Fine = Ensures (IsFault 2) (λ _. Unit)

capability_total : (kind : ℕ) (body : List ℕ) (s : Capabilities) → Fine (capability kind body s)
unfolding capability
capability_total kind (a ∷ b ∷ c ∷ d ∷ []) s =
    of_Returns (capability kind (a ∷ b ∷ c ∷ d ∷ []) s) (ground arith)
capability_total kind body s = of_Returns (capability kind body s) (ground arith)

capabilities_total :
    (fuel : ℕ) (caps : List ℕ) (s : Capabilities)
    → length caps ≤ fuel
    → Fine (capabilities fuel caps s)
unfolding capabilities
capabilities_total fuel [] s h = holds tt
capabilities_total zero (c ∷ cs) s h = absurd (omega arith)
capabilities_total (suc fuel) (c ∷ cs) s h =
    let caps = c ∷ cs in
    Ensures-require (leb 2 (length caps)) 2 0 "invalid capability length" _
      (λ two. Ensures-index caps 1 (leb→le 2 (length caps) two) λ n _.
        Ensures-require (leb (n + 2) (length caps)) 2 0 "invalid capability length" _
          (λ room.
            let fits = leb→le (n + 2) (length caps) room in
            Ensures-slice caps 2 (2 + n) _ (omega arith) (omega arith) (
              Ensures-bind (capability_total c (drop 2 (take (2 + n) caps)) s) λ s' _.
                Ensures-slice_from caps (2 + n) _ (omega arith) (
                  capabilities_total fuel (drop (2 + n) caps) s'
                    (omega (arith, length-drop (2 + n) caps)))))
          refl)
      refl

-- The length field of a parameter, of one or two bytes.
field_total :
    (extended : Bool) (params : List ℕ)
    → (if extended then 3 else 2) ≤ length params
    → Fine (if extended then (slice params 1 3 >>= u16b) else index params 1)
field_total extended [] h = absurd (ground arith)
field_total extended (a ∷ []) h = absurd (ground arith)
field_total true (a ∷ b ∷ []) h = absurd (omega arith)
field_total false (a ∷ b ∷ bs) h = holds tt
field_total true (a ∷ b ∷ c ∷ cs) h =
    rw (slice_lem (a ∷ b ∷ c ∷ cs) 1 3 (omega arith) (omega arith)) (holds tt)

parameters_total :
    (fuel : ℕ) (extended : Bool) (params : List ℕ) (s : Capabilities)
    → length params ≤ fuel
    → Fine (parameters fuel extended params s)
unfolding parameters
parameters_total fuel extended [] s h = holds tt
parameters_total zero extended (b ∷ bs) s h = absurd (omega arith)
parameters_total (suc fuel) extended (b ∷ bs) s h =
    let params = b ∷ bs in
    let header : ℕ = if extended then 3 else 2 in
    Ensures-require (leb header (length params)) 2 0 "short optional parameter header" _
      (λ long.
        Ensures-bind (field_total extended params (leb→le header (length params) long)) λ n _.
          Ensures-require (leb (header + n) (length params)) 2 0 "invalid optional parameter" _
            (λ room.
              let fits = leb→le (header + n) (length params) room in
              Ensures-slice params 0 (header + n) _ (omega arith) fits (
                Ensures-if (not (b == 2)) (λ _. rejected refl)
                  λ _. Ensures-slice params header (header + n) _ (omega arith) fits (
                    Ensures-bind
                      (capabilities_total _ (drop header (take (header + n) params)) s
                        (omega arith))
                      λ s' _. Ensures-slice_from params (header + n) _ fits (
                        parameters_total fuel extended (drop (header + n) params) s'
                          (ground (arith, length-drop (header + n) params))))))
            refl)
      refl

parameter_block_total : (b : List ℕ) (legacy : ℕ) → 10 ≤ length b → Fine (parameter_block b legacy)
unfolding parameter_block
parameter_block_total b legacy h =
    Ensures-if (is_extended b legacy)
      (λ _.
        Ensures-require (leb 13 (length b)) 2 0 "short extended OPEN length" _
          (λ long.
            let fits = leb→le 13 (length b) long in
            Ensures-slice b 11 13 _ (omega arith) fits (
              Ensures-bind
                (u16b_total (drop 11 (take 13 b))
                  (omega (arith, length-drop 11 (take 13 b), length-take 13 b)))
                λ n _.
                  Ensures-require (n + 13 == length b) 2 0 "invalid extended OPEN parameter length"
                    _ (λ _. rw (slice_from_lem b 13 fits) (holds tt)) refl))
          refl)
      (λ _.
        Ensures-require (legacy + 10 == length b) 2 0 "invalid OPEN parameter length" _
          (λ _. rw (slice_from_lem b 10 h) (holds tt)) refl)

module _ {Net : Type 0} where
  -- What a negotiated session owes to the configuration.
  pub record IsNegotiated (c : Config Net) (p : Peer) (n : Negotiated) : Type 0 where
    pub router_id_nonzero : valid_router_id n.router_id ≡ true
    pub router_id_distinct : (c.asn ≢ p.remote_asn) ⊎ (n.router_id ≢ c.router_id)
    pub hold-le : n.hold ≤ p.hold_time_secs
    pub hold_range : (n.hold ≡ 0) ⊎ (3 ≤ n.hold)
    pub internal_iff : (n.internal ≡ true) ↔ (c.asn ≡ p.remote_asn)
    pub v4_enabled : (n.ipv4 ≡ false) ⊎ (p.ipv4 ≡ true)
    pub v6_enabled : (n.ipv6 ≡ false) ⊎ (p.ipv6 ≡ true)
    pub some_family : (n.ipv4 ≡ true) ⊎ (n.ipv6 ≡ true)

  negotiate_total :
      (old_asn hold : ℕ) (id : Ipv4Addr) (s : Capabilities) (c : Config Net) (p : Peer)
      → (p.hold_time_secs ≡ 0) ⊎ (3 ≤ p.hold_time_secs)
      → (hold == 0 || leb 3 hold) ≡ true
      → (valid_router_id id && (not (c.asn == p.remote_asn) || not (same id c.router_id))) ≡ true
      → Ensures (IsFault 2) (IsNegotiated c p) (negotiate old_asn hold id s c p)
  unfolding negotiate
  negotiate_total old_asn hold id s c p hp hh hid =
      of_Returns (negotiate old_asn hold id s c p) (ground (arith, same_iff id c.router_id))

  -- On any bytes `parse_open` returns: a session that respects the configuration, or a protocol
  -- error with code 2. It neither panics nor runs out of fuel.
  pub parse_open_total :
      (b : List ℕ) (c : Config Net) (p : Peer)
      → (p.hold_time_secs ≡ 0) ⊎ (3 ≤ p.hold_time_secs)
      → Ensures (IsFault 2) (IsNegotiated c p) (parse_open b c p)
  unfolding parse_open
  parse_open_total b c p hp =
      Ensures-require (leb 10 (length b)) 2 0 "short OPEN" _
        (λ long.
          let ten = leb→le 10 (length b) long in
          Ensures-index b 0 (omega arith) λ version _.
            Ensures-if (not (version == 4)) (λ _. rejected refl)
              λ _. Ensures-bind (u16_field_total b 1 3 refl (omega arith)) λ old_asn _.
                Ensures-bind (u16_field_total b 3 5 refl (omega arith)) λ hold _.
                  Ensures-require (hold == 0 || leb 3 hold) 2 6 "unacceptable hold time" _
                    (λ hold_ok. Ensures-index b 5 (omega arith) λ i _.
                      Ensures-index b 6 (omega arith) λ j _. Ensures-index b 7 (omega arith) λ k _.
                        Ensures-index b 8 (omega arith) λ l _.
                          Ensures-require _ 2 3 "invalid or duplicate router ID" _
                            (λ id_ok. Ensures-index b 9 (omega arith) λ legacy _.
                              Ensures-bind (parameter_block_total b legacy ten) λ params _.
                                Ensures-bind
                                  (parameters_total (length params) (is_extended b legacy) params
                                    no_capabilities (omega arith))
                                  λ s _.
                                    negotiate_total old_asn hold (ipv4 i j k l) s c p hp hold_ok
                                      id_ok)
                            refl)
                    refl)
        refl
