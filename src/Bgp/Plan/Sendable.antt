-- ===== src/Bgp/Plan/Sendable.antt =====
-- Every batch that a plan gives can be sent.
use ubgp.Base.{
  ℕ, ◌≤◌, ◌≡◌, ◌⊎◌, inl, inr, refl, sym, subst, Bool, true, false, not, ◌&&◌, ◌||◌, ◌==◌, some,
  List, [], ◌∷◌, ◌++◌, map, if◌then◌else◌, length, All, contains, ok, ◌>>=◌, arith, Bool-cases,
  All-append, &&_parts,
}
use ubgp.Base.Sets.{filter}
use ubgp.Net.Addr.{is_ipv6}
use ubgp.Net.IpNet.{IpNet, IpNetLaws, eq_of_net}
use ubgp.Config.{Config, Peer}
use ubgp.Wire.Frame.{read_frame, update_kind}
use ubgp.Wire.Open.{Negotiated}
use ubgp.Wire.Update.{update}
use ubgp.Wire.Validate.{validate_update, valid}
use ubgp.Wire.Validate.Accepted.{HasNextHop}
use ubgp.Wire.Received.Batches.{IsRead}
use ubgp.Wire.Received.Updates.{update-IsRead}
use ubgp.Bgp.Plan.{Plan, new_plan, next_batch, enabled}
use ubgp.Bgp.Plan.Batch.{IsBatch, IsNext, next_batch-IsNext}

pub off_on : {b : Bool} → b ≡ false → b ≡ true → ⊥
off_on h k = cc

hop_or_withdraw : {A B C : Type 0} → A ⊎ B → (B → C) → A ⊎ C
hop_or_withdraw (inl a) f = inl a
hop_or_withdraw (inr b) f = inr (f b)

-- The next hops of the families that a session has.
abbrev pub HasNextHops : Negotiated → Peer → Type 0
HasNextHops n p = ((n.ipv4 ≡ false) ⊎ HasNextHop false p) × ((n.ipv6 ≡ false) ⊎ HasNextHop true p)

module _ {A : Type 0} (P : A → Type 0) where
  All-filter : (f : A → Bool) (xs : List A) → ((a : A) → f a ≡ true → P a) → All P (filter f xs)
  All-filter f [] h = tt
  All-filter f (x ∷ xs) h = elim (Bool-cases (f x)) [
    | inl keep ↦ rw keep (h x keep, All-filter f xs h)
    | inr lose ↦ rw lose (All-filter f xs h)
  ]

  pub All-filter_keeps : (f : A → Bool) (xs : List A) → All P xs → All P (filter f xs)
  All-filter_keeps f [] h = tt
  All-filter_keeps f (x ∷ xs) h = elim (Bool-cases (f x)) [
    | inl keep ↦ rw keep (h.0, All-filter_keeps f xs h.1)
    | inr lose ↦ rw lose (All-filter_keeps f xs h.1)
  ]

  pub All-parts : (xs ys : List A) → All P (xs ++ ys) → All P xs × All P ys
  All-parts [] ys h = (tt, h)
  All-parts (x ∷ xs) ys h = let (a, b) = All-parts xs ys h.1 in ((h.0, a), b)

module _ {Net : Type 0} ⦃ops : IpNet Net⦄ where
  open ops use {addr}

  -- Only prefixes of the session's families are announced.
  abbrev pub IsSendable : Negotiated → Plan Net → Type 0
  IsSendable n plan = All (λ q. enabled n q ≡ true) plan.additions

  -- A plan starts sendable.
  pub new_plan-IsSendable :
      (advertised desired replay : List Net) (n : Negotiated)
      → IsSendable n (new_plan advertised desired n replay)
  unfolding new_plan
  new_plan-IsSendable advertised desired replay n =
      let chosen =
        All-filter (λ q. enabled n q ≡ true)
          (λ q. enabled n q && (contains replay q || not (contains advertised q))) desired
          (λ q h. (&&_parts (enabled n q) _ h).0) in
      All-append (λ q. enabled n q ≡ true) _ _ (All-filter_keeps _ _ _ chosen)
        (All-filter_keeps _ _ _ chosen)

  next-IsSendable :
      (n : Negotiated) (plan plan' : Plan Net) (w : Bool) (batch : List Net)
      → IsBatch plan w batch plan'
      → IsSendable n plan
      → IsSendable n plan' × ((w ≡ true) ⊎ All (λ q. enabled n q ≡ true) batch)
  next-IsSendable n plan plan' true batch b h =
      (subst (All (λ q. enabled n q ≡ true)) (sym b.kept) h, inl refl)
  next-IsSendable n plan plan' false batch b h =
      let (sent, left) =
        All-parts (λ q. enabled n q ≡ true) batch plan'.additions
          (subst (All (λ q. enabled n q ≡ true)) b.taken h) in
      (left, inr sent)

  next_hop_of :
      (n : Negotiated) (p : Peer) (is_v6 : Bool) (batch : List Net)
      → HasNextHops n p
      → 1 ≤ length batch
      → All (λ q. is_ipv6 (addr q) ≡ is_v6) batch
      → All (λ q. enabled n q ≡ true) batch
      → HasNextHop is_v6 p
  next_hop_of n p is_v6 [] hops one same on = absurd (omega arith)
  next_hop_of n p true (q ∷ qs) hops one same on = elim (hops.1) [
    | inl off ↦ absurd (off_on off (rw same.0 at on.0))
    | inr hop ↦ hop
  ]
  next_hop_of n p false (q ∷ qs) hops one same on = elim (hops.0) [
    | inl off ↦ absurd (off_on off (rw same.0 at on.0))
    | inr hop ↦ hop
  ]

module _ {Net : Type 0} ⦃ops : IpNet Net⦄ (laws : IpNetLaws ops) where
  open ops use {trunc}

  -- In a session that is internal exactly when the ASNs are equal and whose families have next
  -- hops, each batch of a plan that announces only the session's families makes an UPDATE that a
  -- reader gets back and a validator finds valid, with exactly the routes of the batch withdrawn or
  -- announced, and the rest of the plan is again such a plan.
  pub next_batch-update :
      (c : Config Net) (p : Peer) (n : Negotiated) (plan plan' : Plan Net) (withdraw : Bool)
      (batch : List Net)
      → n.internal ≡ (c.asn == p.remote_asn)
      → HasNextHops n p
      → IsSendable n plan
      → next_batch plan ≡ some ((withdraw, batch), plan')
      → IsSendable n plan'
        × (body : List ℕ) × ((rest : List ℕ)
            → (update c p n batch withdraw >>= λ packet. read_frame (packet ++ rest))
              ≡ ok ((update_kind, body), rest))
        × (validate_update body n ≡ ok valid)
        × IsRead
            (if withdraw then map trunc batch else [])
            (if withdraw then [] else map trunc batch)
            body
  next_batch-update c p n plan plan' withdraw batch inside hops sendable e =
      let b : IsBatch plan withdraw batch plan' = subst (IsNext plan) e (next_batch-IsNext plan) in
      let (left, enabled_batch) = next-IsSendable n plan plan' withdraw batch b sendable in
      let (is_v6, same) = b.one_family in
      let (body, reads, accepted, routes) =
        update-IsRead laws c p n batch is_v6 withdraw inside b.nonempty b.bounded same (
          hop_or_withdraw enabled_batch
            (λ on. next_hop_of n p is_v6 batch hops b.nonempty same on)) in
      (left, body, reads, accepted, routes)
