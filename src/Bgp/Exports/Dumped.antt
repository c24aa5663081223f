-- ===== src/Bgp/Exports/Dumped.antt =====
-- The whole way, from the messages of the kernel to the table of a peer that reads the packets.
use ubgp.Base.{
  ℕ, ◌+◌, ◌*◌, ◌≤◌, ◌≡◌, inl, inr, refl, ap, ◌∙◌, true, ◌&&◌, ◌==◌, Option, none, some, List, [],
  ◌∷◌, ◌++◌, Str, All, any, contains, length, ok, Bool-cases,
}
use ubgp.Base.Ensures.{Ensures-ok}
use ubgp.Net.IpNet.{IpNet, IpNetLaws, eq_of_net}
use ubgp.Config.{Acl, Config, Peer, find_acl}
use ubgp.Config.Permits.{permits}
use ubgp.Config.Validate.{validate}
use ubgp.Netlink.Filter.{filter_exports}
use ubgp.Netlink.Filter.Held.{filter_exports-All}
use ubgp.Netlink.Snapshot.{Pass, snapshot}
use ubgp.Netlink.Kernel.{KernelRoute, is_plain, table_of, destination, truncated, prefix_of}
use ubgp.Netlink.Kernel.Dumps.{IsDumped, FamiliesAnswered, finds, with_routes, insert_found}
use ubgp.Netlink.Kernel.Collected.{snapshot-with_routes, snapshot-Collects}
use ubgp.Wire.Open.{Negotiated}
use ubgp.Bgp.Exports.{exports-offered}
use ubgp.Bgp.Plan.{enabled}
use ubgp.Bgp.Plan.Sendable.{HasNextHops}
use ubgp.Bgp.Plan.Converges.{size}
use ubgp.Bgp.Transmit.{Transmitter, is_waiting, start, run}
use ubgp.Bgp.Transmit.Settles.{alone, transmit-settles}
use ubgp.Bgp.Table.{read_all}
use ubgp.Bgp.Table.Trunc.{AreTrunc, IsTruncEvent}
use ubgp.Bgp.Table.Follows.{transmit-table}

module _ {Net : Type 0} ⦃ops : IpNet Net⦄ (laws : IpNetLaws ops) where
  open ops use {trunc}

  alone-IsTruncEvent : (times : List (ℕ × ℕ)) → All IsTruncEvent (alone {Net = Net} times)
  alone-IsTruncEvent [] = tt
  alone-IsTruncEvent (t ∷ times) = (tt, alone-IsTruncEvent times)

  insert_found-AreTrunc :
      (o : Option Net) (s : List Net) → AreTrunc s → AreTrunc (insert_found (truncated o) s)
  insert_found-AreTrunc none s h = h
  insert_found-AreTrunc (some q) s h = elim (Bool-cases (contains s (trunc q))) [
    | inl held ↦ rw held h
    | inr new ↦ rw new (laws.trunc-trunc q, h)
  ]

  with_routes-AreTrunc :
      (tables : List ℕ) (rs : List KernelRoute) (s : List Net)
      → AreTrunc s
      → AreTrunc (with_routes tables rs s)
  with_routes-AreTrunc tables [] s h = h
  with_routes-AreTrunc tables (r ∷ rs) s h =
      let wanted = is_plain r && any (λ t. t == table_of r) tables in
      with_routes-AreTrunc tables rs (insert_found (prefix_of tables r) s)
        (elim (Bool-cases wanted) [
          | inl chosen ↦ rw chosen (insert_found-AreTrunc (ops.new (destination r) r.dst_len) s h)
          | inr other ↦ rw other h
        ])

  module _ (c : Config Net) (front : List Peer) (p : Peer) (behind : List Peer) (n : Negotiated)
      (port : ℕ) (sendto : List ℕ → Option ℕ)
      (sends : (b : List ℕ) → sendto b ≡ some (length b)) where
    -- What a peer has behind the packets of the transmitter that starts with the exports.
    pub record Reached (routes : List KernelRoute) (x : Net) (r : List (List ℕ) × Transmitter Net)
        : Type 0 where
      pub waits : is_waiting r.1.phase ≡ true
      pub table : List Net
      pub read : read_all n r.0 [] ≡ ok table
      pub acl : Acl Net
      pub named : find_acl p.export_acl c.acls ≡ some acl
      pub shown : contains table x ≡ (
          any (λ k. finds x (prefix_of c.kernel.tables k)) routes && permits acl x && enabled n x)

    -- When `validate` has accepted the configuration, and the kernel takes each request of
    -- `snapshot` whole and answers it with the routes of `routes`, in any number of datagrams of any
    -- size, while the passes are before the deadline and bring at most 128 datagrams each and no
    -- notification, and the routes have at most `max_prefixes` prefixes: a session of one of its
    -- peers that is internal exactly when the ASNs are equal and whose families have next hops, and
    -- that starts with the exports of this snapshot and a plan of m prefixes, is waiting behind
    -- 4 m + 4 steps without another event. A peer that reads the packets that it has written then
    -- has exactly the prefixes of the plain unicast routes of the selected tables that its ACL
    -- permits and whose family is negotiated.
    pub snapshot-Reached :
        (seq : ℕ) {seq' : ℕ} {routes : List KernelRoute} {ps rest : List Pass}
        (exports : List (Str × List Net)) (now : ℕ) (times : List (ℕ × ℕ)) (x : Net)
        → validate c ≡ ok tt
        → c.peers ≡ front ++ (p ∷ behind)
        → n.internal ≡ (c.asn == p.remote_asn)
        → HasNextHops n p
        → FamiliesAnswered c port seq seq' routes ps rest
        → All IsDumped routes
        → length (with_routes {Net = Net} c.kernel.tables routes []) ≤ c.kernel.max_prefixes
        → filter_exports c (snapshot c sendto true [] seq [] ps).1.dump.prefixes ≡ ok exports
        → 4 * size (start c p n now exports).plan + 4 ≤ length times
        → (r : List (List ℕ) × Transmitter Net) × (run c p n (alone times) (start c p n now exports)
            ≡ ok r)
          × Reached routes x r
    unfolding run start
    snapshot-Reached seq {routes = routes} {ps = ps} exports now times x valid peers inside hops
          answered dumped room filtered enough =
        let prefixes = (snapshot c sendto true [] seq [] ps).1.dump.prefixes in
        let (again, still, held) =
          snapshot-with_routes laws c port sendto sends seq answered dumped room in
        let (succeeds, unchanged, collected) =
          snapshot-Collects laws c port sendto sends seq answered dumped room in
        let (acl, named, permitted) =
          exports-offered c front behind p prefixes exports valid peers filtered in
        let (r, ran, waits, target) =
          transmit-settles laws c p n inside hops now exports [] [] (start c p n now exports) times
            x refl refl refl refl enough in
        let (table, read, same_table, told) =
          Ensures-ok
            (transmit-table laws c p n inside hops now exports (alone times) x
              (filter_exports-All (λ q. trunc q ≡ q) c prefixes
                (rw held (with_routes-AreTrunc c.kernel.tables routes [] tt)) exports filtered)
              (alone-IsTruncEvent times))
            ran in
        (
          r,
          ran,
          record {
            waits = waits;
            table = table;
            read = read;
            acl = acl;
            named = named;
            shown =
                ap (λ t. contains t x) same_table
                ∙ target
                ∙ ap (λ b. b && enabled n x)
                    (permitted x ∙ ap (λ b. b && permits acl x) (collected x));
          },
        )
