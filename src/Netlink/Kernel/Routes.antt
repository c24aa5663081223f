-- ===== src/Netlink/Kernel/Routes.antt =====
-- `route` on the messages that the kernel writes.
use ubgp.Base.{
  ℕ, ◌*◌, ◌≤◌, ◌≡◌, ◌≢◌, ◌⊎◌, refl, ap, Bool, true, false, not, ◌&&◌, ◌||◌, Option, none, some,
  List, [], ◌∷◌, ◌++◌, length, replicate, ◌==◌, le→leb, any, Bool-cases, inl, inr, if◌then◌else◌,
  ok, bit_and, unwrap_or, arith, append-nil, Result,
}
use ubgp.Base.Slices.{slice_from-append}
use ubgp.Wire.Open.{is_some}
use ubgp.Net.Addr.{Ipv4Addr, Ipv6Addr, v4, v6, ipv4_from, ipv6_from}
use ubgp.Net.IpNet.{IpNet, IpNetLaws, width}
use ubgp.Netlink.Message.{route, route_prefix}
use ubgp.Netlink.Snapshot.{u32_ne}
use ubgp.Netlink.Kernel.Words.{u32n-u32_ne}
use ubgp.Netlink.Kernel.Attributes.{
  scan, dst_in, IsSized, last_value-IsSized, route_attributes-scan,
}
use ubgp.Netlink.Kernel.{
  KernelRoute, route_bytes, attributes_bytes, IsWritten, octets_of, address_in, dst_of, table_of,
  table_in, prefix_of, truncated, last_value,
}

-- The zeros behind an IPv4 address do not count.
ipv4_from-append : (d rest : List ℕ) → length d ≡ 4 → ipv4_from (d ++ rest) ≡ ipv4_from d
ipv4_from-append [] rest h = absurd (omega arith)
ipv4_from-append (a ∷ []) rest h = absurd (omega arith)
ipv4_from-append (a ∷ b ∷ []) rest h = absurd (omega arith)
ipv4_from-append (a ∷ b ∷ c ∷ []) rest h = absurd (omega arith)
ipv4_from-append (a ∷ b ∷ c ∷ d ∷ l) rest h = refl

-- The address in the array, whose length the family gives.
address-dst_in :
    (is_v4 : Bool) (d : Option (List ℕ))
    → let octets : ℕ = if is_v4 then 4 else 16 in
      let zeros : List ℕ = replicate 16 0 in
      IsSized octets d
      → (if octets == 4 then v4 (ipv4_from (dst_in octets d)) else v6 (ipv6_from (dst_in octets d)))
        ≡ (if is_v4 then v4 (ipv4_from (unwrap_or d zeros)) else v6 (ipv6_from (unwrap_or d zeros)))
address-dst_in true none h = refl
address-dst_in true (some d) h = ap v4 (ipv4_from-append d (replicate 12 0) h)
address-dst_in false none h = refl
address-dst_in false (some d) h = ap (λ l. v6 (ipv6_from l)) (append-nil d)

width-if :
    (b : Bool) (x : Ipv4Addr) (y : Ipv6Addr)
    → width (if b then v4 x else v6 y) ≡ (if b then 4 else 16) * 8
width-if true x y = refl
width-if false x y = refl

width-address : (family : ℕ) (l : List ℕ) → width (address_in family l) ≡ octets_of family * 8
width-address family l = width-if (family == 2) (ipv4_from l) (ipv6_from l)

||_true : (b : Bool) → (b || true) ≡ true
||_true true = refl
||_true false = refl

has_dst : (len : ℕ) (d : Option (List ℕ)) → (len ≡ 0) ⊎ (d ≢ none) → (len == 0 || is_some d) ≡ true
has_dst len none (inl e) = rw e refl
has_dst len none (inr h) = absurd (h refl)
has_dst len (some d) h = ||_true (len == 0)

module _ {Net : Type 0} ⦃ops : IpNet Net⦄ where
  open ops use {new, trunc}

  -- The early returns of `route`.
  gates :
      (v4_family v6_family unicast any_source no_clone wanted : Bool) (rest : Result (Option Net))
      (o : Option Net)
      → (((v4_family || v6_family) && (unicast && (any_source && no_clone))) ≡ true
          → rest ≡ ok (if wanted then o else none))
      → (if not v4_family && not v6_family
          then ok none
          else if not unicast || not any_source || not no_clone
          then ok none
          else rest)
        ≡ ok (
            if ((v4_family || v6_family) && (unicast && (any_source && no_clone))) && wanted
            then o
            else none)
  gates true b true true true w rest o h = h refl
  gates true b true true false w rest o h = refl
  gates true b true false f w rest o h = refl
  gates true b false s f w rest o h = refl
  gates false true true true true w rest o h = h refl
  gates false true true true false w rest o h = refl
  gates false true true false f w rest o h = refl
  gates false true false s f w rest o h = refl
  gates false false t s f w rest o h = refl

  -- What follows the loop.
  route_prefix-scan :
      (laws : IpNetLaws ops) (family len table : ℕ) (t d : Option (List ℕ)) (tables : List ℕ)
      → IsSized (octets_of family) d
      → len ≤ octets_of family * 8
      → (len ≡ 0) ⊎ (d ≢ none)
      → route_prefix (octets_of family) len tables (scan (octets_of family) table t d)
        ≡ ok (
            if any (λ x. x == table_in table t) tables
            then truncated (new (address_in family (unwrap_or d (replicate 16 0))) len)
            else none)
  unfolding route_prefix
  route_prefix-scan laws family len table t d tables sized fits given =
      let address = address_in family (unwrap_or d (replicate 16 0)) in
      let (net, made) =
        laws.new_ok address len
          (omega (arith, width-address family (unwrap_or d (replicate 16 0)))) in
      rw (has_dst len d given, address-dst_in (family == 2) d sized, made)
        (elim (Bool-cases (any (λ x. x == table_in table t) tables)) [
          | inl selected ↦ rw selected refl
          | inr other ↦ rw other refl
        ])

  -- From the message in which the kernel describes a route, with its attributes in any order and
  -- of any types, `route` gets nothing unless it is a unicast route of IPv4 or IPv6 that is for any
  -- source, is no clone and is in one of the tables, and then its destination prefix without host
  -- bits.
  pub route-route_bytes :
      (laws : IpNetLaws ops) (r : KernelRoute) (tables : List ℕ)
      → IsWritten r
      → route {Net = Net} (route_bytes r) tables ≡ ok (prefix_of tables r)
  unfolding route
  route-route_bytes laws r tables w =
      let head =
        r.family ∷ r.dst_len ∷ r.src_len ∷ r.tos ∷ r.table ∷ r.protocol ∷ r.scope ∷ r.type ∷ [] in
      let attrs = attributes_bytes r.attributes in
      rw
        (
          le→leb 12 (length (route_bytes r)) (omega arith),
          slice_from-append head (u32_ne r.flags ++ attrs) 8 refl,
          slice_from-append (head ++ u32_ne r.flags) attrs 12 refl,
          u32n-u32_ne r.flags attrs (omega (arith, w.flags_fit)),
        )
        (gates (r.family == 2) (r.family == 10) (r.type == 1) (r.src_len == 0)
          (bit_and r.flags 0x200 == 0) (any (λ t. t == table_of r) tables) _ _
          λ plain.
            rw
              (
                le→leb r.dst_len (octets_of r.family * 8) (w.dst_len plain),
                route_attributes-scan (length attrs) (octets_of r.family) r.table r.attributes
                    (w.attributes plain) (omega arith),
              )
              (route_prefix-scan laws r.family r.dst_len r.table (last_value 15 none r.attributes)
                (dst_of r) tables
                (last_value-IsSized (octets_of r.family) r.attributes none (w.attributes plain) tt)
                (w.dst_len plain) (w.dst plain)))
