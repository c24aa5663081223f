-- ===== src/Wire/Validate/Accepted.antt =====
-- What `update` writes for a batch fits a message and is valid.
use ubgp.Base.{
  ℕ, ◌≤◌, ◌≡◌, ◌⊎◌, refl, Bool, true, false, List, [], ◌∷◌, ◌++◌, length, some, All, all, ok, ◌>>=◌,
  arith, if◌then◌else◌, ◌==◌, inl, inr, length-append, le→leb,
}
use ubgp.Net.Addr.{Ipv4Addr, ipv4, Ipv6Addr, is_ipv6, octets_v6, IpAddr, v4, v6}
use ubgp.Net.IpNet.{IpNet, IpNetLaws, width}
use ubgp.Config.{Config, Peer, valid_v4, nh4, nh6}
use ubgp.Wire.Frame.{frame, update_kind}
use ubgp.Wire.Open.{Negotiated, is_some}
use ubgp.Wire.Update.{
  attr, update, update_body, mp_head, announce_attrs, link_local_octets, same_family,
}
use ubgp.Wire.Update.Nlri.{batch_bytes, nlris-bytes, length-batch_bytes}
use ubgp.Wire.Validate.{validate_update, valid}
use ubgp.Wire.Validate.Announced.{announced}
use ubgp.Wire.Validate.OwnUpdates.{
  assemble, withdraw_v4, withdraw_v6, announce_v4, announce_v6, length-announced, length-attr,
  length-hops, size_of,
}

-- The peer has a next hop of the family that can be announced.
abbrev pub HasNextHop : Bool → Peer → Type 0
HasNextHop true p = (a : Ipv6Addr) × (nh6 p ≡ some a)
HasNextHop false p = (a : Ipv4Addr) × (nh4 p ≡ some a) × (valid_v4 a ≡ true)

same_reflexive : (b : Bool) → same_family b b ≡ true
same_reflexive true = refl
same_reflexive false = refl

pub size_of_le : (b : Bool) → size_of b ≤ 32
size_of_le b = ground arith

width_of :
    {is_v6 : Bool} {len : ℕ} (a : IpAddr)
    → len ≤ width a
    → is_ipv6 a ≡ is_v6
    → len ≤ (if is_v6 then 128 else 32)
width_of (v4 x) h e = rw (← e) h
width_of (v6 x) h e = rw (← e) h

module _ {Net : Type 0} ⦃ops : IpNet Net⦄ where
  open ops use {addr, prefix_len, network}

  all-same_family :
      (is_v6 : Bool) (ps : List Net)
      → All (λ q. is_ipv6 (addr q) ≡ is_v6) ps
      → all (λ q. same_family (is_ipv6 (addr q)) is_v6) ps ≡ true
  all-same_family is_v6 [] h = refl
  all-same_family true (p ∷ ps) h = rw (h.0, all-same_family true ps h.1) refl
  all-same_family false (p ∷ ps) h = rw (h.0, all-same_family false ps h.1) refl

module _ {Net : Type 0} ⦃ops : IpNet Net⦄ (laws : IpNetLaws ops) where
  open ops use {addr, prefix_len, network}

  within :
      (is_v6 : Bool) (ps : List Net)
      → All (λ q. is_ipv6 (addr q) ≡ is_v6) ps
      → All (λ q. prefix_len q ≤ (if is_v6 then 128 else 32)) ps
  within is_v6 [] h = tt
  within is_v6 (p ∷ ps) h = (width_of (addr p) (laws.prefix_len-le p) h.0, within is_v6 ps h.1)

  some_bytes : (ps : List Net) → 1 ≤ length ps → 1 ≤ length (batch_bytes ps)
  some_bytes [] h = h
  some_bytes (p ∷ ps) h = omega arith

  module _ (c : Config Net) (p : Peer) (n : Negotiated) where
    pub update-body :
        (ps : List Net) (is_v6 withdraw : Bool)
        → 1 ≤ length ps
        → length ps ≤ 200
        → All (λ q. is_ipv6 (addr q) ≡ is_v6) ps
        → update c p n ps withdraw
          ≡ (update_body c p n is_v6 (batch_bytes ps) withdraw >>= frame update_kind)
    unfolding update
    update-body [] is_v6 withdraw some_prefix few same = absurd (omega arith)
    update-body (q ∷ qs) is_v6 withdraw some_prefix few same =
        let others : all (λ r. same_family (is_ipv6 (addr r)) (is_ipv6 (addr q))) qs ≡ true =
          rw same.0 (all-same_family is_v6 qs same.1) in
        rw (
          le→leb (length (q ∷ qs)) 200 few,
          nlris-bytes laws (q ∷ qs),
          others,
          same.0,
          same_reflexive is_v6,
        )

    -- The four kinds of batch.
    pub body_accepted :
        (ps : List Net) (is_v6 withdraw : Bool)
        → n.internal ≡ (c.asn == p.remote_asn)
        → 1 ≤ length ps
        → length ps ≤ 200
        → All (λ q. is_ipv6 (addr q) ≡ is_v6) ps
        → (withdraw ≡ true) ⊎ HasNextHop is_v6 p
        → (body : List ℕ) × (update_body c p n is_v6 (batch_bytes ps) withdraw ≡ ok body)
          × (4 ≤ length body)
          × (length body ≤ 4000)
          × (validate_update body n ≡ ok valid)
    unfolding update_body mp_head announce_attrs
    body_accepted ps false true inside some_prefix few same hop =
        let short = length-batch_bytes laws false ps same in
        (
          assemble (batch_bytes ps) [] [],
          refl,
          omega (arith, length-append (batch_bytes ps) (0 ∷ 0 ∷ [])),
          omega (arith, length-append (batch_bytes ps) (0 ∷ 0 ∷ [])),
          withdraw_v4 laws c p n ps (omega arith) (within false ps same),
        )
    body_accepted ps true true inside some_prefix few same hop =
        let short = length-batch_bytes laws true ps same in
        let unreach = attr 0x80 15 (0 ∷ 2 ∷ 1 ∷ batch_bytes ps) in
        let parts = length-attr 0x80 15 (0 ∷ 2 ∷ 1 ∷ batch_bytes ps) in
        (
          assemble [] (unreach ++ []) [],
          refl,
          omega arith,
          omega (arith, length-append (unreach ++ []) [], length-append unreach []),
          withdraw_v6 laws c p n ps (omega arith) (within true ps same),
        )
    body_accepted ps true false inside some_prefix few same (inl never) = cc
    body_accepted ps false false inside some_prefix few same (inl never) = cc
    body_accepted ps true false inside some_prefix few same (inr (a, e)) =
        let short = length-batch_bytes laws true ps same in
        let hops = octets_v6 a ++ (link_local_octets p.next_hop_v6_link_local ++ 0 ∷ []) in
        let head =
          0 ∷ 2 ∷ 1 ∷ size_of (is_some p.next_hop_v6_link_local) ∷ (hops ++ batch_bytes ps) in
        let behind = announced n c p true (ipv4 0 0 0 0) in
        let parts = length-attr 0x80 14 head in
        let more = length-announced laws c p n true (ipv4 0 0 0 0) in
        let l = length-hops a p.next_hop_v6_link_local in
        let sizes = size_of_le (is_some p.next_hop_v6_link_local) in
        (
          assemble [] (attr 0x80 14 head ++ behind) [],
          rw e refl,
          omega arith,
          omega (
            arith,
            length-append (attr 0x80 14 head ++ behind) [],
            length-append (attr 0x80 14 head) behind,
            length-append hops (batch_bytes ps),
          ),
          announce_v6 laws c p n ps a inside (some_bytes ps some_prefix) (omega arith)
              (within true ps same),
        )
    body_accepted ps false false inside some_prefix few same (inr (a, e, good)) =
        let short = length-batch_bytes laws false ps same in
        let attrs = announced n c p false a in
        let more = length-announced laws c p n false a in
        (
          assemble [] attrs (batch_bytes ps),
          rw e refl,
          omega arith,
          omega (arith, length-append attrs (batch_bytes ps)),
          announce_v4 laws c p n ps a inside good (some_bytes ps some_prefix) (omega arith)
              (within false ps same),
        )
