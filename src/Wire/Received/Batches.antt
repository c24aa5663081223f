-- ===== src/Wire/Received/Batches.antt =====
-- What a peer reads from the UPDATE of a batch.
use ubgp.Base.{
  ℕ, ◌≤◌, ◌<◌, ◌≡◌, refl, ap, ◌∙◌, Bool, true, false, List, [], ◌∷◌, ◌++◌, map, length, All, ok,
  if◌then◌else◌, arith, u32_be, append-nil, length-append,
}
use ubgp.Base.Slices.{slice_from-append}
use ubgp.Net.Addr.{Ipv4Addr, Ipv6Addr, ipv4, is_ipv6, octets_v4, octets_v6}
use ubgp.Net.IpNet.{IpNet, IpNetLaws}
use ubgp.Config.{Config, Peer}
use ubgp.Wire.Open.{Negotiated, is_some}
use ubgp.Wire.Update.{attr, as_path, link_local_octets}
use ubgp.Wire.Update.Nlri.{batch_bytes}
use ubgp.Wire.Validate.Announced.{announced, has_as4, has_local_pref, length-as_path}
use ubgp.Wire.Validate.OwnUpdates.{
  assemble, Sections, assemble-Sections, length-announced, length-attr, length-hops, size_of,
}
use ubgp.Wire.Validate.Accepted.{size_of_le}
use ubgp.Wire.Routes.{decoded, update_prefixes}
use ubgp.Wire.Routes.Decoded.{decoded-batch, reached-batch, update_prefixes-Sections}
use ubgp.Wire.Routes.Rounds.{reached_other, routes-nil}
use ubgp.Wire.Received.{unreached, attribute_list, withdrawn_prefixes}
use ubgp.Wire.Received.Own.{Reads, Reads-nil, Reads-attr, Reads-optional}

module _ {Net : Type 0} ⦃ops : IpNet Net⦄ where
  withdrawn_prefixes-Sections :
      (withdrawn attrs tail b : List ℕ) (l : List (ℕ × List ℕ)) {plain routes : List Net}
      → Sections withdrawn attrs tail b
      → decoded (length withdrawn) withdrawn false ≡ ok plain
      → attribute_list (length attrs) attrs ≡ ok l
      → unreached l ≡ ok routes
      → withdrawn_prefixes b ≡ ok (plain ++ routes)
  unfolding withdrawn_prefixes
  withdrawn_prefixes-Sections withdrawn attrs tail b l s plain listed routes =
      rw (s.w_read, s.field, plain, s.a_read, s.between, listed, routes)

  -- What a peer reads: the routes withdrawn, and the routes announced.
  pub record IsRead (withdrawn announced : List Net) (body : List ℕ) : Type 0 where
    pub withdraws : withdrawn_prefixes body ≡ ok withdrawn
    pub announces : update_prefixes body ≡ ok announced

  -- The attributes of an announcement have no routes.
  others : (n : Negotiated) (c : Config Net) (p : Peer) → Bool → Ipv4Addr → List (ℕ × List ℕ)
  others n c p is_v6 hop =
      let last = if is_v6 then [] else (3, octets_v4 hop) ∷ [] in
      let pref = if has_local_pref n c p then (5, u32_be 100) ∷ last else last in
      (1, 2 ∷ [])
      ∷ (2, as_path c p n)
      ∷ (if has_as4 n c p then (17, 2 ∷ 1 ∷ u32_be c.asn) ∷ pref else pref)

  Reads-next_hop :
      (is_v6 : Bool) (hop : Ipv4Addr)
      → Reads {Net = Net} 1
          (if is_v6 then [] else attr 0x40 3 (octets_v4 hop))
          (if is_v6 then [] else (3, octets_v4 hop) ∷ [])
          []
  Reads-next_hop true hop =
      let none_read : Reads {Net = Net} 0 [] [] [] = Reads-nil in
      record {
        listed = λ fuel room. none_read.listed fuel (omega arith);
        reaches = λ fuel room. none_read.reaches fuel (omega arith);
      }
  Reads-next_hop false hop =
      Reads-attr 0 0x40 3 (octets_v4 hop) [] (refl, refl) (omega arith)
        (reached_other 3 (octets_v4 hop) refl) Reads-nil

  Reads-announced :
      (n : Negotiated) (c : Config Net) (p : Peer) (is_v6 : Bool) (hop : Ipv4Addr)
      → Reads {Net = Net} 5 (announced n c p is_v6 hop) (others n c p is_v6 hop) []
  unfolding others
  Reads-announced n c p is_v6 hop =
      Reads-attr 4 0x40 1 (2 ∷ []) _ (refl, refl) (omega arith) (reached_other 1 (2 ∷ []) refl)
        (Reads-attr 3 0x40 2 (as_path c p n) _ (refl, refl) (omega (arith, length-as_path n c p))
          (reached_other 2 (as_path c p n) refl)
          (Reads-optional (has_as4 n c p) 2 0xc0 17 (2 ∷ 1 ∷ u32_be c.asn) _ (refl, refl)
            (omega arith) refl
            (Reads-optional (has_local_pref n c p) 1 0x40 5 (u32_be 100) _ (refl, refl)
              (omega arith) refl (Reads-next_hop is_v6 hop))))

  unreached-others :
      (n : Negotiated) (c : Config Net) (p : Peer) (is_v6 : Bool) (hop : Ipv4Addr)
      → unreached {Net = Net} (others n c p is_v6 hop) ≡ ok []
  unfolding others unreached
  unreached-others n c p is_v6 hop = ground arith

module _ {Net : Type 0} ⦃ops : IpNet Net⦄ (laws : IpNetLaws ops) (c : Config Net) (p : Peer)
    (n : Negotiated) where
  open ops use {addr, trunc}

  nothing : decoded {Net = Net} 0 [] false ≡ ok []
  nothing = decoded-batch laws 0 [] false (omega arith) tt

  pub IsRead-withdraw_v4 :
      (ps : List Net)
      → length (batch_bytes ps) ≤ 3400
      → All (λ q. is_ipv6 (addr q) ≡ false) ps
      → IsRead (map trunc ps) [] (assemble (batch_bytes ps) [] [])
  unfolding attribute_list unreached
  IsRead-withdraw_v4 ps short same =
      let s = assemble-Sections (batch_bytes ps) [] [] (omega arith) (omega arith) in
      let plain = decoded-batch laws (length (batch_bytes ps)) ps false (omega arith) same in
      record {
        withdraws =
            withdrawn_prefixes-Sections (batch_bytes ps) [] [] _ [] s plain refl refl
            ∙ ap ok (append-nil (map trunc ps));
        announces = update_prefixes-Sections (batch_bytes ps) [] [] _ s nothing (routes-nil 0);
      }

  pub IsRead-withdraw_v6 :
      (ps : List Net)
      → length (batch_bytes ps) ≤ 3400
      → All (λ q. is_ipv6 (addr q) ≡ true) ps
      → IsRead (map trunc ps) [] (assemble [] (attr 0x80 15 (0 ∷ 2 ∷ 1 ∷ batch_bytes ps) ++ []) [])
  unfolding unreached
  IsRead-withdraw_v6 ps short same =
      let value : List ℕ = 0 ∷ 2 ∷ 1 ∷ batch_bytes ps in
      let attrs : List ℕ = attr 0x80 15 value ++ [] in
      let room : (1 ≤ length attrs) × (length attrs < 65536) =
        omega (arith, length-attr 0x80 15 value, length-append (attr 0x80 15 value) []) in
      let s = assemble-Sections [] attrs [] (omega arith) room.1 in
      let reads =
        Reads-attr 0 0x80 15 value [] (refl, refl) (omega arith)
          (reached_other {Net = Net} 15 value refl) Reads-nil in
      record {
        withdraws =
            withdrawn_prefixes-Sections [] attrs [] _ ((15, value) ∷ []) s nothing
              (reads.listed (length attrs) room.0)
              (rw
                (
                  slice_from-append (0 ∷ 2 ∷ 1 ∷ []) (batch_bytes ps) 3 refl,
                  decoded-batch laws (length (batch_bytes ps)) ps true (omega arith) same,
                )
                (ap ok (append-nil (map trunc ps))));
        announces =
            update_prefixes-Sections [] attrs [] _ s nothing (reads.reaches (length attrs) room.0);
      }

  pub IsRead-announce_v4 :
      (ps : List Net) (hop : Ipv4Addr)
      → length (batch_bytes ps) ≤ 3400
      → All (λ q. is_ipv6 (addr q) ≡ false) ps
      → IsRead [] (map trunc ps) (assemble [] (announced n c p false hop) (batch_bytes ps))
  IsRead-announce_v4 ps hop short same =
      let attrs : List ℕ = announced n c p false hop in
      let bound = length-announced laws c p n false hop in
      let s = assemble-Sections [] attrs (batch_bytes ps) (omega arith) (omega (arith, bound.1)) in
      let reads = Reads-announced n c p false hop in
      let room : 5 ≤ length attrs = omega (arith, bound.0) in
      record {
        withdraws =
            withdrawn_prefixes-Sections [] attrs (batch_bytes ps) _ (others n c p false hop) s
              nothing (reads.listed (length attrs) room) (unreached-others n c p false hop);
        announces =
            update_prefixes-Sections [] attrs (batch_bytes ps) _ s
              (decoded-batch laws (length (batch_bytes ps)) ps false (omega arith) same)
              (reads.reaches (length attrs) room)
            ∙ ap ok (append-nil (map trunc ps));
      }

  pub IsRead-announce_v6 :
      (ps : List Net) (hop : Ipv6Addr)
      → length (batch_bytes ps) ≤ 3400
      → All (λ q. is_ipv6 (addr q) ≡ true) ps
      → let size : ℕ = size_of (is_some p.next_hop_v6_link_local) in
        let hops = octets_v6 hop ++ (link_local_octets p.next_hop_v6_link_local ++ 0 ∷ []) in
        let reach = attr 0x80 14 (0 ∷ 2 ∷ 1 ∷ size ∷ (hops ++ batch_bytes ps)) in
        IsRead [] (map trunc ps) (assemble [] (reach ++ announced n c p true (ipv4 0 0 0 0)) [])
  unfolding unreached
  IsRead-announce_v6 ps hop short same =
      let size : ℕ = size_of (is_some p.next_hop_v6_link_local) in
      let hops = octets_v6 hop ++ (link_local_octets p.next_hop_v6_link_local ++ 0 ∷ []) in
      let value : List ℕ = 0 ∷ 2 ∷ 1 ∷ size ∷ (hops ++ batch_bytes ps) in
      let behind : List ℕ = announced n c p true (ipv4 0 0 0 0) in
      let attrs : List ℕ = attr 0x80 14 value ++ behind in
      let bound = length-announced laws c p n true (ipv4 0 0 0 0) in
      let hops_size = length-hops hop p.next_hop_v6_link_local in
      let small : length value ≤ 3500 = omega (
        arith,
        length-append hops (batch_bytes ps),
        hops_size,
        size_of_le (is_some p.next_hop_v6_link_local),
      ) in
      let room : (6 ≤ length attrs) × (length attrs < 65536) =
        omega
          (arith, length-attr 0x80 14 value, length-append (attr 0x80 14 value) behind, bound) in
      let s = assemble-Sections [] attrs [] (omega arith) room.1 in
      let reads =
        Reads-attr 5 0x80 14 value behind (refl, refl) (omega arith)
          (reached-batch laws ps hops size hops_size same)
          (Reads-announced n c p true (ipv4 0 0 0 0)) in
      record {
        withdraws =
            withdrawn_prefixes-Sections [] attrs [] _
              ((14, value) ∷ others n c p true (ipv4 0 0 0 0)) s nothing
              (reads.listed (length attrs) room.0) (unreached-others n c p true (ipv4 0 0 0 0));
        announces =
            update_prefixes-Sections [] attrs [] _ s nothing (reads.reaches (length attrs) room.0)
            ∙ ap ok (append-nil (map trunc ps));
      }
