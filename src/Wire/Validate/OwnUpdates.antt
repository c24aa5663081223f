-- ===== src/Wire/Validate/OwnUpdates.antt =====
-- Every UPDATE that the encoder writes fits a message and passes the validator without complaint.
use ubgp.Base.{
  none, ℕ, ◌+◌, ◌-◌, ◌≤◌, ◌<◌, ◌≡◌, ◌⊎◌, refl, ap, sym, ◌∙◌, Bool, true, false, List, [], ◌∷◌, ◌++◌,
  length, some, Option, All, ok, slice, slice_from, ◌>>=◌, arith, if◌then◌else◌, ltb, ◌==◌, u16_be,
  as_u16, be_u16, Bool-cases, inl, inr, append_assoc, length-append, ◌/◌, ◌%◌, le→leb, is_empty,
}
use ubgp.Base.Slices.{slice_middle, slice_from-append}
use ubgp.Net.Addr.{Ipv4Addr, ipv4, Ipv6Addr, octets_v6}
use ubgp.Net.IpNet.{IpNet, IpNetLaws}
use ubgp.Config.{Config, Peer, valid_v4}
use ubgp.Wire.Frame.{u16b}
use ubgp.Wire.Open.{Negotiated, is_some}
use ubgp.Wire.Update.{attr, link_local_octets}
use ubgp.Wire.Update.Nlri.{batch_bytes}
use ubgp.Wire.Validate.{
  validate_nlri, Scan, scan_start, attribute, attributes, mark_seen, conclude, validate_update,
  flags_match, valid, multiprotocol, reach_start,
}
use ubgp.Wire.Validate.Accepts.{validate_nlri-batch, attr_flags}
use ubgp.Wire.Validate.Announced.{announced, marked, attributes-announced, attributes-marks}

-- The three sections of a body behind their lengths.
abbrev pub assemble : List ℕ → List ℕ → List ℕ → List ℕ
assemble withdrawn attrs tail =
    u16_be (as_u16 (length withdrawn))
    ++ (withdrawn ++ (u16_be (as_u16 (length attrs)) ++ (attrs ++ tail)))

u16_read : (n : ℕ) → n < 65536 → be_u16 (as_u16 n / 256 % 256) (as_u16 n % 256) ≡ n
u16_read n h = omega arith

-- What its readers cut out of such a body.
pub record Sections (withdrawn attrs tail : List ℕ) (b : List ℕ) : Type 0 where
  pub size : length b ≡ 4 + length withdrawn + length attrs + length tail
  pub w_read : u16b b ≡ ok (length withdrawn)
  pub field : slice b 2 (2 + length withdrawn) ≡ ok withdrawn
  pub a_read : (slice_from b (2 + length withdrawn) >>= u16b) ≡ ok (length attrs)
  pub between : slice b (4 + length withdrawn) (4 + length withdrawn + length attrs) ≡ ok attrs
  pub behind : slice_from b (4 + length withdrawn + length attrs) ≡ ok tail

pub assemble-Sections :
    (withdrawn attrs tail : List ℕ)
    → length withdrawn < 65536
    → length attrs < 65536
    → Sections withdrawn attrs tail (assemble withdrawn attrs tail)
assemble-Sections withdrawn attrs tail hw ha =
    let w_field = u16_be (as_u16 (length withdrawn)) in
    let a_field = u16_be (as_u16 (length attrs)) in
    let front : List ℕ = w_field ++ withdrawn in
    let rest : List ℕ = a_field ++ (attrs ++ tail) in
    record {
      size = omega (arith, length-append withdrawn rest, length-append attrs tail);
      w_read = ap ok (u16_read (length withdrawn) hw);
      field = slice_middle w_field withdrawn rest 2 (2 + length withdrawn) refl (omega arith);
      a_read =
          rw (slice_from-append front rest (2 + length withdrawn) (omega arith))
            (ap ok (u16_read (length attrs) ha));
      between =
          ap (λ x. slice x (4 + length withdrawn) (4 + length withdrawn + length attrs))
            (sym (append_assoc front a_field (attrs ++ tail)))
          ∙ slice_middle (front ++ a_field) attrs tail (4 + length withdrawn)
              (4 + length withdrawn + length attrs) (omega (arith, length-append front a_field))
              (omega (arith, length-append front a_field));
      behind =
          ap (λ x. slice_from x (4 + length withdrawn + length attrs))
            (sym (append_assoc front (a_field ++ attrs) tail))
          ∙ slice_from-append (front ++ (a_field ++ attrs)) tail
              (4 + length withdrawn + length attrs)
              (omega (arith, length-append front (a_field ++ attrs)));
    }

validate_update-Sections :
    (withdrawn attrs tail b : List ℕ) (n : Negotiated)
    → Sections withdrawn attrs tail b
    → validate_nlri (length withdrawn) withdrawn 32 ≡ ok tt
    → validate_nlri (length tail) tail 32 ≡ ok tt
    → validate_update b n ≡ (attributes (length attrs) n attrs scan_start >>= conclude n tail)
unfolding validate_update
validate_update-Sections withdrawn attrs tail b n s nw nt = rw (
  le→leb 4 (length b) (omega (arith, s.size)),
  s.w_read,
  le→leb (length withdrawn + 4) (length b) (omega (arith, s.size)),
  s.field,
  nw,
  s.a_read,
  le→leb (length withdrawn + length attrs + 4) (length b) (omega (arith, s.size)),
  s.behind,
  nt,
  s.between,
)

validate_update-assemble :
    (withdrawn attrs tail : List ℕ) (n : Negotiated)
    → length withdrawn < 65536
    → length attrs < 65536
    → validate_nlri (length withdrawn) withdrawn 32 ≡ ok tt
    → validate_nlri (length tail) tail 32 ≡ ok tt
    → validate_update (assemble withdrawn attrs tail) n
      ≡ (attributes (length attrs) n attrs scan_start >>= conclude n tail)
validate_update-assemble withdrawn attrs tail n hw ha =
    validate_update-Sections withdrawn attrs tail (assemble withdrawn attrs tail) n
      (assemble-Sections withdrawn attrs tail hw ha)

filled : (xs : List ℕ) → 1 ≤ length xs → is_empty xs ≡ false
filled [] h = absurd (omega arith)
filled (x ∷ xs) h = refl

abbrev pub size_of : Bool → ℕ
size_of b = if b then 32 else 16

pub length-hops :
    (hop : Ipv6Addr) (link : Option Ipv6Addr)
    → length (octets_v6 hop ++ (link_local_octets link ++ 0 ∷ [])) ≡ size_of (is_some link) + 1
length-hops hop none = refl
length-hops hop (some a) = refl

sizes_16_32 : (b : Bool) → (size_of b ≡ 16) ⊎ (size_of b ≡ 32)
sizes_16_32 true = inr refl
sizes_16_32 false = inl refl

pub length-attr :
    (flags kind : ℕ) (body : List ℕ)
    → (3 + length body ≤ length (attr flags kind body))
      × (length (attr flags kind body) ≤ 4 + length body)
length-attr flags kind body = ground arith

-- Each section by itself.
module _ {Net : Type 0} ⦃ops : IpNet Net⦄ (laws : IpNetLaws ops) (c : Config Net) (p : Peer)
    (n : Negotiated) where
  open ops use {addr, prefix_len, network}

  pub withdraw_v4 :
      (ps : List Net)
      → length (batch_bytes ps) ≤ 3400
      → All (λ q. prefix_len q ≤ 32) ps
      → validate_update (assemble (batch_bytes ps) [] []) n ≡ ok valid
  unfolding attributes conclude validate_nlri
  withdraw_v4 ps short fit =
      validate_update-assemble (batch_bytes ps) [] [] n (omega arith) (omega arith)
        (validate_nlri-batch laws _ ps 32 (omega arith) fit) refl
      ∙ ground arith

  optional_flags : (body : List ℕ) → flags_match (attr_flags 0x80 body) (some 0x80) ≡ true
  optional_flags body = elim (Bool-cases (ltb 255 (length body))) [
    | inl long ↦ rw long refl
    | inr short ↦ rw short refl
  ]

  -- MP_UNREACH of a batch.
  unreach_fine :
      (ps : List Net) (whole : List ℕ) (flags l : ℕ)
      → flags_match flags (some 0x80) ≡ true
      → 3 ≤ l
      → All (λ q. prefix_len q ≤ 128) ps
      → attribute n flags 15 l (0 ∷ 2 ∷ 1 ∷ batch_bytes ps) whole scan_start
        ≡ ok (mark_seen 15 scan_start)
  unfolding attribute multiprotocol slice_from
  unreach_fine ps whole flags l good long fit =
      ground (arith, validate_nlri-batch laws (length (batch_bytes ps)) ps 128 (omega arith) fit)

  pub withdraw_v6 :
      (ps : List Net)
      → length (batch_bytes ps) ≤ 3400
      → All (λ q. prefix_len q ≤ 128) ps
      → validate_update (assemble [] (attr 0x80 15 (0 ∷ 2 ∷ 1 ∷ batch_bytes ps) ++ []) []) n
        ≡ ok valid
  unfolding attributes conclude validate_nlri
  withdraw_v6 ps short fit =
      let unreach : List ℕ = attr 0x80 15 (0 ∷ 2 ∷ 1 ∷ batch_bytes ps) ++ [] in
      validate_update-assemble [] unreach [] n (omega arith)
        (ground (arith, length-append (attr 0x80 15 (0 ∷ 2 ∷ 1 ∷ batch_bytes ps)) [])) refl refl
      ∙ ap (λ r. r >>= conclude n [])
          (attributes-marks (length unreach) n 0x80 15 (0 ∷ 2 ∷ 1 ∷ batch_bytes ps) [] scan_start
            (ground arith) (refl, refl) (omega arith)
            (unreach_fine ps _ _ _ (optional_flags (0 ∷ 2 ∷ 1 ∷ batch_bytes ps)) (omega arith) fit))
      ∙ ground arith

  -- MP_REACH of a batch, behind next hops of `size` bytes and a reserved byte.
  reach_fine :
      (ps : List Net) (hops whole : List ℕ) (flags size l : ℕ)
      → flags_match flags (some 0x80) ≡ true
      → (size ≡ 16) ⊎ (size ≡ 32)
      → length hops ≡ size + 1
      → l ≡ size + 5 + length (batch_bytes ps)
      → 1 ≤ length (batch_bytes ps)
      → All (λ q. prefix_len q ≤ 128) ps
      → attribute n flags 14 l (0 ∷ 2 ∷ 1 ∷ size ∷ (hops ++ batch_bytes ps)) whole scan_start
        ≡ ok (record (mark_seen 14 scan_start) { mp_reach = true })
  unfolding attribute multiprotocol reach_start
  reach_fine ps hops whole flags size l good sizes e el some_bytes fit =
      let cut =
        slice_from-append (0 ∷ 2 ∷ 1 ∷ size ∷ hops) (batch_bytes ps) (5 + size) (omega arith) in
      ground
        (arith, cut, validate_nlri-batch laws (length (batch_bytes ps)) ps 128 (omega arith) fit)

  pub length-announced :
      (is_v6 : Bool) (hop : Ipv4Addr)
      → (7 ≤ length (announced n c p is_v6 hop)) × (length (announced n c p is_v6 hop) ≤ 50)
  length-announced is_v6 hop = ground arith

  conclude-announced :
      (is_v6 mp : Bool) (tail : List ℕ) (s : Scan)
      → n.internal ≡ (c.asn == p.remote_asn)
      → s.action ≡ valid
      → (is_empty tail ≡ false) × (is_v6 ≡ false) ⊎ (is_empty tail ≡ true) × (s.mp_reach ≡ true)
      → conclude n tail (marked n c p is_v6 s) ≡ ok valid
  unfolding conclude
  conclude-announced is_v6 mp tail s inside e h = ground arith

  pub announce_v6 :
      (ps : List Net) (hop : Ipv6Addr)
      → n.internal ≡ (c.asn == p.remote_asn)
      → 1 ≤ length (batch_bytes ps)
      → length (batch_bytes ps) ≤ 3400
      → All (λ q. prefix_len q ≤ 128) ps
      → let size : ℕ = size_of (is_some p.next_hop_v6_link_local) in
        let hops = octets_v6 hop ++ (link_local_octets p.next_hop_v6_link_local ++ 0 ∷ []) in
        let reach = attr 0x80 14 (0 ∷ 2 ∷ 1 ∷ size ∷ (hops ++ batch_bytes ps)) in
        validate_update (assemble [] (reach ++ announced n c p true (ipv4 0 0 0 0)) []) n ≡ ok valid
  unfolding validate_nlri
  announce_v6 ps hop inside some_bytes short fit =
      let size : ℕ = size_of (is_some p.next_hop_v6_link_local) in
      let hops = octets_v6 hop ++ (link_local_octets p.next_hop_v6_link_local ++ 0 ∷ []) in
      let reach = attr 0x80 14 (0 ∷ 2 ∷ 1 ∷ size ∷ (hops ++ batch_bytes ps)) in
      let behind = announced n c p true (ipv4 0 0 0 0) in
      let s : Scan = record (mark_seen 14 scan_start) { mp_reach = true } in
      let size_ok = sizes_16_32 (is_some p.next_hop_v6_link_local) in
      let l : length (hops ++ batch_bytes ps) ≡ size + 1 + length (batch_bytes ps) =
        omega
          (arith, length-append hops (batch_bytes ps), length-hops hop p.next_hop_v6_link_local) in
      let total = length-append reach behind in
      let parts = length-attr 0x80 14 (0 ∷ 2 ∷ 1 ∷ size ∷ (hops ++ batch_bytes ps)) in
      let more = length-announced true (ipv4 0 0 0 0) in
      validate_update-assemble [] (reach ++ behind) [] n (omega arith) omega arith refl refl
      ∙ ap (λ r. r >>= conclude n [])
          (attributes-marks (length (reach ++ behind)) n 0x80 14
              (0 ∷ 2 ∷ 1 ∷ size ∷ (hops ++ batch_bytes ps)) behind scan_start (omega arith)
              (refl, refl) (omega arith)
              (reach_fine ps hops _ _ size _
                (optional_flags (0 ∷ 2 ∷ 1 ∷ size ∷ (hops ++ batch_bytes ps))) size_ok
                (length-hops hop p.next_hop_v6_link_local) (omega arith) some_bytes fit)
            ∙ attributes-announced n c p true (ipv4 0 0 0 0) (length (reach ++ behind) - 1) s inside
                (inl refl) (omega arith) refl refl refl refl refl)
      ∙ conclude-announced true true [] s inside refl (inr (refl, refl))

  pub announce_v4 :
      (ps : List Net) (hop : Ipv4Addr)
      → n.internal ≡ (c.asn == p.remote_asn)
      → valid_v4 hop ≡ true
      → 1 ≤ length (batch_bytes ps)
      → length (batch_bytes ps) ≤ 3400
      → All (λ q. prefix_len q ≤ 32) ps
      → validate_update (assemble [] (announced n c p false hop) (batch_bytes ps)) n ≡ ok valid
  unfolding validate_nlri
  announce_v4 ps hop inside good some_bytes short fit =
      let attrs = announced n c p false hop in
      let more = length-announced false hop in
      validate_update-assemble [] attrs (batch_bytes ps) n (omega arith) (omega arith) refl
        (validate_nlri-batch laws _ ps 32 (omega arith) fit)
      ∙ ap (λ r. r >>= conclude n (batch_bytes ps))
          (attributes-announced n c p false hop (length attrs) scan_start inside (inr good)
            (omega arith) refl refl refl refl refl)
      ∙ conclude-announced false true (batch_bytes ps) scan_start inside refl
          (inl (filled (batch_bytes ps) some_bytes, refl))
