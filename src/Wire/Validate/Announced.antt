-- ===== src/Wire/Validate/Announced.antt =====
-- The attributes of an announcement, as the validator sees them one after the other.
use ubgp.Base.{
  ◌⊎◌, ℕ, suc, ◌-◌, ◌≤◌, ◌<◌, ◌≡◌, refl, ap, ◌∙◌, Bool, true, false, not, ◌&&◌, List, [], ◌∷◌, ◌++◌,
  length, ok, slice_from, arith, if◌then◌else◌, ltb, ◌==◌, u32_be, Bool-cases, inl, inr,
}
use ubgp.Net.Addr.{Ipv4Addr, octets_v4}
use ubgp.Config.{Config, Peer, valid_v4}
use ubgp.Wire.Open.{Negotiated}
use ubgp.Wire.Update.{attr, as_path}
use ubgp.Wire.Validate.{validate_path, is_ok, Scan, attribute, attributes, valid_value, mark_seen}
use ubgp.Wire.Validate.Accepts.{attributes-attr, attr_flags, IsPlain}

-- An attribute that `attribute` accepts costs one unit of fuel.
pub attributes-marks :
    (fuel : ℕ) (n : Negotiated) (flags kind : ℕ) (body rest : List ℕ) (s : Scan) {s' : Scan}
    → 1 ≤ fuel
    → IsPlain flags
    → length body < 65536
    → attribute n (attr_flags flags body) kind (length body) body (attr flags kind body) s ≡ ok s'
    → attributes fuel n (attr flags kind body ++ rest) s ≡ attributes (fuel - 1) n rest s'
attributes-marks fuel n flags kind body rest s one plain fits fine =
    let e : fuel ≡ suc (fuel - 1) = omega arith in
    ap (λ f. attributes f n (attr flags kind body ++ rest) s) e
    ∙ attributes-attr (fuel - 1) n flags kind body rest s plain fits
    ∙ rw fine

fuel_left : (b : Bool) (f k : ℕ) → suc k ≤ f → k ≤ (if b then f - 1 else f)
fuel_left b f k h = ground arith

still_new :
    (b : Bool) (k j : ℕ) (s : Scan)
    → s.seen j ≡ false
    → (j == k) ≡ false
    → (if b then mark_seen k s else s).seen j ≡ false
still_new true k j s h e = rw e h
still_new false k j s h e = h

module _ (n : Negotiated) where
  origin_fine :
      (whole : List ℕ) (s : Scan)
      → s.seen 1 ≡ false
      → attribute n 0x40 1 1 (2 ∷ []) whole s ≡ ok (mark_seen 1 s)
  unfolding attribute valid_value
  origin_fine whole s new = ground arith

  local_pref_fine :
      (a b c d : ℕ) (whole : List ℕ) (s : Scan)
      → n.internal ≡ true
      → s.seen 5 ≡ false
      → attribute n 0x40 5 4 (a ∷ b ∷ c ∷ d ∷ []) whole s ≡ ok (mark_seen 5 s)
  unfolding attribute valid_value
  local_pref_fine a b c d whole s inside new = ground arith

  next_hop_fine :
      (a : Ipv4Addr) (whole : List ℕ) (s : Scan)
      → valid_v4 a ≡ true
      → s.seen 3 ≡ false
      → attribute n 0x40 3 4 (octets_v4 a) whole s ≡ ok (mark_seen 3 s)
  unfolding attribute valid_value
  next_hop_fine a whole s good new = ground arith

  attributes-next_hop :
      (is_v6 : Bool) (hop : Ipv4Addr) (fuel : ℕ) (s : Scan)
      → (is_v6 ≡ true) ⊎ (valid_v4 hop ≡ true)
      → 1 ≤ fuel
      → s.seen 3 ≡ false
      → attributes fuel n (if is_v6 then [] else attr 0x40 3 (octets_v4 hop)) s
        ≡ ok (if is_v6 then s else mark_seen 3 s)
  unfolding attributes
  attributes-next_hop true hop fuel s good one new = refl
  attributes-next_hop false hop fuel s (inl e) one new = cc
  attributes-next_hop false hop fuel s (inr good) one new =
      attributes-marks fuel n 0x40 3 (octets_v4 hop) [] s one (refl, refl) (omega arith)
        (next_hop_fine hop _ s good new)

  segment_fine : (a b c d : ℕ) → validate_path 6 (2 ∷ 1 ∷ a ∷ b ∷ c ∷ d ∷ []) 4 ≡ ok tt
  unfolding validate_path slice_from
  segment_fine a b c d = refl

  as4_fine :
      (a b c d : ℕ) (whole : List ℕ) (s : Scan)
      → n.asn4 ≡ false
      → s.seen 17 ≡ false
      → attribute n 0xc0 17 6 (2 ∷ 1 ∷ a ∷ b ∷ c ∷ d ∷ []) whole s ≡ ok (mark_seen 17 s)
  unfolding attribute valid_value
  as4_fine a b c d whole s old new = ground (arith, segment_fine a b c d)

  module _ {Net : Type 0} (c : Config Net) (p : Peer) where
    path_valid :
        is_ok (validate_path (length (as_path c p n)) (as_path c p n) (if n.asn4 then 4 else 2))
        ≡ ok true
    unfolding validate_path slice_from
    path_valid = elim (Bool-cases (c.asn == p.remote_asn)) [
      | inl inside ↦ rw inside
      | inr outside ↦ elim (Bool-cases n.asn4) [
        | inl wide ↦ rw (outside, wide)
        | inr narrow ↦ rw (outside, narrow)
      ]
    ]

    path_flags : attr_flags 0x40 (as_path c p n) ≡ 0x40
    path_flags = elim (Bool-cases (c.asn == p.remote_asn)) [
      | inl inside ↦ rw inside
      | inr outside ↦ elim (Bool-cases n.asn4) [
        | inl wide ↦ rw (outside, wide)
        | inr narrow ↦ rw (outside, narrow)
      ]
    ]

    pub length-as_path : length (as_path c p n) ≤ 6
    length-as_path = ground arith

    path_fine :
        (whole : List ℕ) (s : Scan)
        → s.seen 2 ≡ false
        → attribute n
            (attr_flags 0x40 (as_path c p n))
            2
            (length (as_path c p n))
            (as_path c p n)
            whole
            s
          ≡ ok (mark_seen 2 s)
    unfolding attribute valid_value
    path_fine whole s new = rw path_flags (ground (arith, path_valid))

    -- AS4_PATH is written only to a peer without four-octet ASNs, LOCAL_PREF only inside the AS.
    abbrev pub has_as4 : Bool
    has_as4 = not n.asn4 && ltb 65535 c.asn && not (c.asn == p.remote_asn)

    abbrev pub has_local_pref : Bool
    has_local_pref = c.asn == p.remote_asn

    -- The state behind the attributes of an announcement.
    abbrev pub marked : Bool → Scan → Scan
    marked is_v6 s =
        let s2 = mark_seen 2 (mark_seen 1 s) in
        let s3 = if has_as4 then mark_seen 17 s2 else s2 in
        let s4 = if has_local_pref then mark_seen 5 s3 else s3 in
        if is_v6 then s4 else mark_seen 3 s4

    attributes-optional :
        (b : Bool) (fuel flags kind : ℕ) (body rest : List ℕ) (s : Scan)
        → 1 ≤ fuel
        → IsPlain flags
        → length body < 65536
        → (b ≡ true
            → attribute n (attr_flags flags body) kind (length body) body (attr flags kind body) s
              ≡ ok (mark_seen kind s))
        → attributes fuel n ((if b then attr flags kind body else []) ++ rest) s
          ≡ attributes (if b then fuel - 1 else fuel) n rest (if b then mark_seen kind s else s)
    attributes-optional true fuel flags kind body rest s one plain fits fine =
        attributes-marks fuel n flags kind body rest s one plain fits (fine refl)
    attributes-optional false fuel flags kind body rest s one plain fits fine = refl

    -- The attributes of `announce_attrs`, with the next hop `hop`.
    abbrev pub announced : Bool → Ipv4Addr → List ℕ
    announced is_v6 hop =
        attr 0x40 1 (2 ∷ [])
        ++ (attr 0x40 2 (as_path c p n)
            ++ ((if has_as4 then attr 0xc0 17 (2 ∷ 1 ∷ u32_be c.asn) else [])
                ++ ((if has_local_pref then attr 0x40 5 (u32_be 100) else [])
                    ++ (if is_v6 then [] else attr 0x40 3 (octets_v4 hop)))))

    pub attributes-announced :
        (is_v6 : Bool) (hop : Ipv4Addr) (fuel : ℕ) (s : Scan)
        → n.internal ≡ (c.asn == p.remote_asn)
        → (is_v6 ≡ true) ⊎ (valid_v4 hop ≡ true)
        → 5 ≤ fuel
        → s.seen 1 ≡ false
        → s.seen 2 ≡ false
        → s.seen 3 ≡ false
        → s.seen 5 ≡ false
        → s.seen 17 ≡ false
        → attributes fuel n (announced is_v6 hop) s ≡ ok (marked is_v6 s)
    attributes-announced is_v6 hop fuel s inside good enough new1 new2 new3 new5 new17 =
        let s1 = mark_seen 1 s in
        let s2 = mark_seen 2 s1 in
        let f3 : ℕ = if has_as4 then fuel - 1 - 1 - 1 else fuel - 1 - 1 in
        let s3 : Scan = if has_as4 then mark_seen 17 s2 else s2 in
        let f4 : ℕ = if has_local_pref then f3 - 1 else f3 in
        let s4 : Scan = if has_local_pref then mark_seen 5 s3 else s3 in
        let hop_attr : List ℕ = if is_v6 then [] else attr 0x40 3 (octets_v4 hop) in
        let pref_attr : List ℕ = if has_local_pref then attr 0x40 5 (u32_be 100) else [] in
        let as4_attr : List ℕ = if has_as4 then attr 0xc0 17 (2 ∷ 1 ∷ u32_be c.asn) else [] in
        attributes-marks fuel n 0x40 1 (2 ∷ [])
          (attr 0x40 2 (as_path c p n) ++ (as4_attr ++ (pref_attr ++ hop_attr))) s (omega arith)
          (refl, refl) (omega arith) (origin_fine _ s new1)
        ∙ attributes-marks (fuel - 1) n 0x40 2 (as_path c p n) (as4_attr ++ (pref_attr ++ hop_attr))
            s1 (omega arith) (refl, refl) (omega (arith, length-as_path)) (path_fine _ s1 new2)
        ∙ attributes-optional has_as4 (fuel - 1 - 1) 0xc0 17 (2 ∷ 1 ∷ u32_be c.asn)
            (pref_attr ++ hop_attr) s2 (omega arith) (refl, refl) (omega arith)
            (λ on. as4_fine _ _ _ _ _ s2 (ground arith) new17)
        ∙ attributes-optional has_local_pref f3 0x40 5 (u32_be 100) hop_attr s3
            (fuel_left has_as4 (fuel - 1 - 1) 1 (omega arith)) (refl, refl) (omega arith)
            (λ on. local_pref_fine _ _ _ _ _ s3 (inside ∙ on) (still_new has_as4 17 5 s2 new5 refl))
        ∙ attributes-next_hop is_v6 hop f4 s4 good
            (fuel_left has_local_pref f3 1 (fuel_left has_as4 (fuel - 1 - 1) 2 (omega arith)))
            (still_new has_local_pref 5 3 s3 (still_new has_as4 17 3 s2 new3 refl) refl)
