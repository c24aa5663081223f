-- ===== src/Wire/Received/Updates.antt =====
-- `update` of src/wire.rs as its reader sees it.
use ubgp.Base.{
  ℕ, ◌≤◌, ◌+◌, ◌≡◌, ◌⊎◌, inl, inr, subst, ap, ◌∙◌, Bool, true, false, List, [], ◌++◌, map, length,
  All, ok, ◌>>=◌, ◌==◌, if◌then◌else◌, arith, le→leb,
}
use ubgp.Base.Ensures.{same_value}
use ubgp.Net.Addr.{is_ipv6}
use ubgp.Net.IpNet.{IpNet, IpNetLaws}
use ubgp.Config.{Config, Peer}
use ubgp.Wire.Frame.{frame, read_frame, update_kind}
use ubgp.Wire.Frame.RoundTrip.{read_frame-frame}
use ubgp.Wire.Open.{Negotiated}
use ubgp.Wire.Update.{update, update_body, mp_head, announce_attrs}
use ubgp.Wire.Update.Nlri.{batch_bytes, length-batch_bytes}
use ubgp.Wire.Validate.{validate_update, valid}
use ubgp.Wire.Validate.Accepted.{HasNextHop, update-body, body_accepted}
use ubgp.Wire.Received.Batches.{
  IsRead, IsRead-withdraw_v4, IsRead-withdraw_v6, IsRead-announce_v4, IsRead-announce_v6,
}

module _ {Net : Type 0} ⦃ops : IpNet Net⦄ (laws : IpNetLaws ops) (c : Config Net) (p : Peer)
    (n : Negotiated) where
  open ops use {addr, trunc}

  body-IsRead :
      (ps : List Net) (is_v6 withdraw : Bool) (body : List ℕ)
      → length ps ≤ 200
      → All (λ q. is_ipv6 (addr q) ≡ is_v6) ps
      → (withdraw ≡ true) ⊎ HasNextHop is_v6 p
      → update_body c p n is_v6 (batch_bytes ps) withdraw ≡ ok body
      → IsRead (if withdraw then map trunc ps else []) (if withdraw then [] else map trunc ps) body
  unfolding update_body mp_head announce_attrs
  body-IsRead ps false true body few same hop e =
      let short = length-batch_bytes laws false ps same in
      subst (IsRead (map trunc ps) []) (same_value e)
        (IsRead-withdraw_v4 laws c p n ps (omega arith) same)
  body-IsRead ps true true body few same hop e =
      let short = length-batch_bytes laws true ps same in
      subst (IsRead (map trunc ps) []) (same_value e)
        (IsRead-withdraw_v6 laws c p n ps (omega arith) same)
  body-IsRead ps true false body few same (inl never) e = cc
  body-IsRead ps false false body few same (inl never) e = cc
  body-IsRead ps true false body few same (inr (a, hop)) e =
      let short = length-batch_bytes laws true ps same in
      subst (IsRead [] (map trunc ps)) (same_value (rw hop at e))
        (IsRead-announce_v6 laws c p n ps a (omega arith) same)
  body-IsRead ps false false body few same (inr (a, hop, good)) e =
      let short = length-batch_bytes laws false ps same in
      subst (IsRead [] (map trunc ps)) (same_value (rw hop at e))
        (IsRead-announce_v4 laws c p n ps a (omega arith) same)

  -- For a batch of 1 to 200 prefixes of one family, a peer with a next hop of the family (which a
  -- withdrawal does not need) and a session that is internal exactly when the ASNs are equal,
  -- `update` succeeds, a reader gets back an UPDATE that a validator finds valid, and what it reads
  -- from it is exactly the batch without host bits, in its order: all of it withdrawn and nothing
  -- announced, or the other way round.
  pub update-IsRead :
      (ps : List Net) (is_v6 withdraw : Bool)
      → n.internal ≡ (c.asn == p.remote_asn)
      → 1 ≤ length ps
      → length ps ≤ 200
      → All (λ q. is_ipv6 (addr q) ≡ is_v6) ps
      → (withdraw ≡ true) ⊎ HasNextHop is_v6 p
      → (body : List ℕ) × ((rest : List ℕ)
          → (update c p n ps withdraw >>= λ packet. read_frame (packet ++ rest))
            ≡ ok ((update_kind, body), rest))
        × (validate_update body n ≡ ok valid)
        × IsRead
            (if withdraw then map trunc ps else [])
            (if withdraw then [] else map trunc ps)
            body
  update-IsRead ps is_v6 withdraw inside some_prefix few same hop =
      let (body, e, low, high, good) =
        body_accepted laws c p n ps is_v6 withdraw inside some_prefix few same hop in
      (
        body,
        (λ rest.
            ap (λ r. r >>= λ packet. read_frame (packet ++ rest))
              (update-body laws c p n ps is_v6 withdraw some_prefix few same
                ∙ ap (λ r. r >>= frame update_kind) e)
            ∙ read_frame-frame update_kind body rest (omega arith)
                (le→leb 23 (length body + 19) (omega arith))),
        good,
        body-IsRead ps is_v6 withdraw body few same hop e,
      )
