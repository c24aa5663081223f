-- ===== src/Wire/Update/Nlri.antt =====
-- The packed prefixes of a batch: which bytes `nlri` writes, and how many.
use ubgp.Base.{
  ℕ, ◌*◌, ◌≤◌, ◌≡◌, refl, ◌∙◌, Bool, List, [], ◌∷◌, ◌++◌, length, take, All, length-append,
  length-take, ok, slice_lem, arith, if◌then◌else◌,
}
use ubgp.Net.Addr.{IpAddr, v4, v6, is_ipv6, octets}
use ubgp.Net.IpNet.{IpNet, IpNetLaws, width, div_ceil8}
use ubgp.Wire.Update.{nlri, nlris}

length-octets : (a b : IpAddr) → is_ipv6 a ≡ is_ipv6 b → 8 * length (octets a) ≡ width b
length-octets (v4 x) (v4 y) h = refl
length-octets (v4 x) (v6 y) h = cc
length-octets (v6 x) (v4 y) h = cc
length-octets (v6 x) (v6 y) h = refl

length_of :
    (a : IpAddr) (is_v6 : Bool) → is_ipv6 a ≡ is_v6 → length (octets a) ≡ (if is_v6 then 16 else 4)
length_of (v4 x) is_v6 h = rw (← h)
length_of (v6 x) is_v6 h = rw (← h)

module _ {Net : Type 0} ⦃ops : IpNet Net⦄ where
  open ops use {addr, prefix_len, network}

  -- The bytes of one prefix, and of a batch.
  abbrev pub prefix_bytes : Net → List ℕ
  prefix_bytes p = prefix_len p ∷ take (div_ceil8 (prefix_len p)) (octets (network p))

  abbrev pub batch_bytes : List Net → List ℕ
  batch_bytes [] = []
  batch_bytes (p ∷ ps) = prefix_bytes p ++ batch_bytes ps

module _ {Net : Type 0} ⦃ops : IpNet Net⦄ (laws : IpNetLaws ops) where
  open ops use {addr, prefix_len, network}

  pub octets_suffice : (p : Net) → div_ceil8 (prefix_len p) ≤ length (octets (network p))
  octets_suffice p =
      omega
        (arith, laws.prefix_len-le p, length-octets (network p) (addr p) (laws.is_ipv6-network p))

  nlri-bytes : (p : Net) → nlri p ≡ ok (prefix_bytes p)
  unfolding nlri
  nlri-bytes p =
      rw (
        slice_lem (octets (network p)) 0 (div_ceil8 (prefix_len p)) (omega arith)
          (octets_suffice p))

  -- `nlri` never cuts past the address, so a batch is always encoded.
  pub nlris-bytes : (ps : List Net) → nlris ps ≡ ok (batch_bytes ps)
  unfolding nlris
  nlris-bytes [] = refl
  nlris-bytes (p ∷ ps) = rw (nlri-bytes p, nlris-bytes ps)

  length-prefix :
      (is_v6 : Bool) (p : Net)
      → is_ipv6 (addr p) ≡ is_v6
      → length (prefix_bytes p) ≤ (if is_v6 then 17 else 5)
  length-prefix is_v6 p h = ground (
    arith,
    length-take (div_ceil8 (prefix_len p)) (octets (network p)),
    length_of (network p) is_v6 (laws.is_ipv6-network p ∙ h),
  )

  -- An IPv4 prefix takes at most 5 bytes, an IPv6 prefix at most 17.
  pub length-batch_bytes :
      (is_v6 : Bool) (ps : List Net)
      → All (λ p. is_ipv6 (addr p) ≡ is_v6) ps
      → length (batch_bytes ps) ≤ (if is_v6 then 17 else 5) * length ps
  length-batch_bytes is_v6 [] h = omega arith
  length-batch_bytes is_v6 (p ∷ ps) h =
      rw (length-append (prefix_bytes p) (batch_bytes ps))
        (grind (arith, length-prefix is_v6 p h.0, length-batch_bytes is_v6 ps h.1))
