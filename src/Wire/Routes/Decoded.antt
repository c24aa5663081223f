-- ===== src/Wire/Routes/Decoded.antt =====
-- The decoder of NLRI on the bytes of a batch.
use ubgp.Base.{
  ℕ, zero, suc, ◌+◌, ◌-◌, ◌≤◌, ◌≡◌, refl, ap, sym, ◌∙◌, Bool, true, false, some, List, [], ◌∷◌,
  ◌++◌, map, length, take, drop, replicate, All, ok, slice_lem, arith, if◌then◌else◌, length-append,
  length-take, take-append-drop, append_assoc, le→not-ltb, le→leb,
}
use ubgp.Base.Slices.{slice_middle, slice_from-append}
use ubgp.Net.Addr.{IpAddr, v4, v6, is_ipv6, octets, octets_v4}
use ubgp.Net.IpNet.{IpNet, IpNetLaws, div_ceil8, width}
use ubgp.Wire.Update.Nlri.{prefix_bytes, batch_bytes, octets_suffice}
use ubgp.Wire.Validate.OwnUpdates.{Sections}
use ubgp.Wire.Routes.{
  reached, attribute_routes, update_prefixes, decoded, address_of, padded, buffer,
}

-- Zeros, as far as the buffer of `append` goes.
abbrev zeros : ℕ → List ℕ
zeros n = replicate n 0

zeros-add : (n m : ℕ) → zeros (n + m) ≡ zeros n ++ zeros m
zeros-add zero m = let e : zero + m ≡ m = omega arith in ap zeros e
zeros-add (suc n) m =
    let e : suc n + m ≡ suc (n + m) = omega arith in ap zeros e ∙ ap (λ t. 0 ∷ t) (zeros-add n m)

-- The octets behind a prefix are zero, so the octets that are sent determine the address.
address_of-take :
    (a : IpAddr) (k : ℕ)
    → k ≤ length (octets a)
    → drop k (octets a) ≡ zeros (length (octets a) - k)
    → address_of (is_ipv6 a) (padded (take k (octets a)) k) ≡ a
address_of-take (v6 x) k room blank =
    ap (λ l. address_of true (take k (octets (v6 x)) ++ l)) (sym blank)
    ∙ ap (address_of true) (take-append-drop k (octets (v6 x)))
address_of-take (v4 x) k room blank =
    let split : zeros (16 - k) ≡ zeros (4 - k) ++ zeros 12 =
      (let e : 16 - k ≡ 4 - k + 12 = omega arith in ap zeros e ∙ zeros-add (4 - k) 12) in
    ap (λ l. address_of false (take k (octets_v4 x) ++ l))
      (split ∙ ap (λ l. l ++ zeros 12) (sym blank))
    ∙ ap (address_of false)
        (sym (append_assoc (take k (octets_v4 x)) (drop k (octets_v4 x)) (zeros 12)))
    ∙ ap (λ l. address_of false (l ++ zeros 12)) (take-append-drop k (octets_v4 x))

width_of_family :
    (a : IpAddr) (is_v6 : Bool) → is_ipv6 a ≡ is_v6 → width a ≡ (if is_v6 then 128 else 32)
width_of_family (v4 x) is_v6 h = rw (← h)
width_of_family (v6 x) is_v6 h = rw (← h)

module _ {Net : Type 0} ⦃ops : IpNet Net⦄ (laws : IpNetLaws ops) where
  open ops use {addr, prefix_len, network, trunc, new}

  new-address_of :
      (p : Net) (is_v6 : Bool)
      → is_ipv6 (addr p) ≡ is_v6
      → let k = div_ceil8 (prefix_len p) in
        new (address_of is_v6 (padded (take k (octets (network p))) k)) (prefix_len p)
        ≡ some (trunc p)
  new-address_of p is_v6 same =
      let k = div_ceil8 (prefix_len p) in
      let family : is_v6 ≡ is_ipv6 (network p) = sym (laws.is_ipv6-network p ∙ same) in
      ap (λ b. new (address_of b (padded (take k (octets (network p))) k)) (prefix_len p)) family
      ∙ ap (λ a. new a (prefix_len p))
          (address_of-take (network p) k (octets_suffice laws p) (laws.network_zeros p))
      ∙ laws.new-network p

  -- The bytes of a batch of one family are decoded to its prefixes without their host bits.
  pub decoded-batch :
      (fuel : ℕ) (ps : List Net) (is_v6 : Bool)
      → length (batch_bytes ps) ≤ fuel
      → All (λ p. is_ipv6 (addr p) ≡ is_v6) ps
      → decoded fuel (batch_bytes ps) is_v6 ≡ ok (map trunc ps)
  unfolding decoded
  decoded-batch fuel [] is_v6 h a = refl
  decoded-batch zero (p ∷ ps) is_v6 h a = absurd (omega arith)
  decoded-batch (suc fuel) (p ∷ ps) is_v6 h (same, a) =
      let k : ℕ = div_ceil8 (prefix_len p) in
      let head : List ℕ = take k (octets (network p)) in
      let n : k ≡ length head =
        omega (arith, length-take k (octets (network p)), octets_suffice laws p) in
      let room : length (batch_bytes (p ∷ ps)) ≡ suc (length head + length (batch_bytes ps)) =
        omega (arith, length-append head (batch_bytes ps)) in
      let narrow : prefix_len p ≤ (if is_v6 then 128 else 32) =
        rw (← width_of_family (addr p) is_v6 same) (laws.prefix_len-le p) in
      let small : k ≤ 16 = ground arith in
      rw (
        le→not-ltb (if is_v6 then 128 else 32) (prefix_len p) narrow,
        le→not-ltb (length (batch_bytes (p ∷ ps))) (k + 1) (omega arith),
        slice_middle (prefix_len p ∷ []) head (batch_bytes ps) 1 (1 + k) refl (omega arith),
        slice_lem buffer 0 k (omega arith) (omega arith),
        new-address_of p is_v6 same,
        slice_from-append (prefix_bytes p) (batch_bytes ps) (1 + k) (omega arith),
        decoded-batch fuel ps is_v6 (omega arith) a,
        laws.trunc-trunc p,
      )

  -- MP_REACH of a batch, behind next hops of `size` bytes and a reserved byte.
  pub reached-batch :
      (ps : List Net) (hops : List ℕ) (size : ℕ)
      → length hops ≡ size + 1
      → All (λ p. is_ipv6 (addr p) ≡ true) ps
      → let body : List ℕ = 0 ∷ 2 ∷ 1 ∷ size ∷ (hops ++ batch_bytes ps) in
        reached 14 (length body) body ≡ ok (map trunc ps)
  unfolding reached
  reached-batch ps hops size e same =
      let body : List ℕ = 0 ∷ 2 ∷ 1 ∷ size ∷ (hops ++ batch_bytes ps) in
      let l = length-append hops (batch_bytes ps) in
      rw
        (
          le→leb 5 (length body) (omega arith),
          le→leb (5 + size) (length body) (omega arith),
          slice_from-append (0 ∷ 2 ∷ 1 ∷ size ∷ hops) (batch_bytes ps) (5 + size) (omega arith),
        )
        (decoded-batch (length (batch_bytes ps)) ps true (omega arith) same)

module _ {Net : Type 0} ⦃ops : IpNet Net⦄ where
  -- `update_prefixes` on a body with these sections.
  pub update_prefixes-Sections :
      (withdrawn attrs tail b : List ℕ) {plain routes : List Net}
      → Sections withdrawn attrs tail b
      → decoded (length tail) tail false ≡ ok plain
      → attribute_routes (length attrs) attrs ≡ ok routes
      → update_prefixes b ≡ ok (plain ++ routes)
  unfolding update_prefixes
  update_prefixes-Sections withdrawn attrs tail b s plain routes = rw (
    le→not-ltb (length b) 4 (omega (arith, s.size)),
    s.w_read,
    le→not-ltb (length b) (length withdrawn + 4) (omega (arith, s.size)),
    s.a_read,
    le→not-ltb (length b) (length withdrawn + length attrs + 4) (omega (arith, s.size)),
    s.behind,
    plain,
    s.between,
    routes,
  )
