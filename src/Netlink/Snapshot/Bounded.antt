-- ===== src/Netlink/Snapshot/Bounded.antt =====
-- What a dump collects stays within its bounds, on every reply.
use ubgp.Base.{
  ◌==◌, ◌&&◌, not, ℕ, zero, suc, ◌≤◌, ◌≡◌, true, false, Option, none, some, List, [], ◌∷◌, length,
  leb, contains, All, arith, Checked, Bool-cases, inl, inr, leb→le,
}
use ubgp.Base.Sets.{insert}
use ubgp.Base.Ensures.{
  ensure-Checks, Checks, holds, rejected, Ensures-weaken, Ensures-if, Ensures-bind,
}
use ubgp.Net.IpNet.{IpNet, IpNetLaws, eq_of_net}
use ubgp.Config.{Config}
use ubgp.Netlink.Message.{Message}
use ubgp.Netlink.Message.Ending.{Ends, fine, failing, Ends-attempt, Ends-if, Ends-Checks}
use ubgp.Netlink.Message.Total.{
  messages_total, IsRoute, route_total, dump_status_total, error_code_total, Ensures-ensure,
}
use ubgp.Netlink.Events.{Arrival, Received, would_block, interrupted, failed, datagram, recv}
use ubgp.Netlink.Snapshot.{
  Dump, add_prefix, dump_error, dump_message, reply_round, reply_rounds, with_state,
}

abbrev pub Any : {S : Type 0} → S → Type 0
Any s = Unit

module _ {Net : Type 0} ⦃ops : IpNet Net⦄ where
  -- No element twice.
  abbrev pub Distinct : List Net → Type 0
  Distinct [] = Unit
  Distinct (x ∷ xs) = (contains xs x ≡ false) × Distinct xs

  abbrev pub InBounds : Config Net → List Net → Type 0
  InBounds c prefixes =
      (length prefixes ≤ c.kernel.max_prefixes)
      × Distinct prefixes
      × All (λ n. ops.trunc n ≡ n) prefixes

  insert-Distinct : (n : Net) (ns : List Net) → Distinct ns → Distinct (insert n ns)
  insert-Distinct n ns h = elim (Bool-cases (contains ns n)) [
    | inl held ↦ rw held h
    | inr new ↦ rw new (new, h)
  ]

  insert-All : (P : Net → Type 0) (n : Net) (ns : List Net) → P n → All P ns → All P (insert n ns)
  insert-All P n ns h hs = elim (Bool-cases (contains ns n)) [
    | inl held ↦ rw held hs
    | inr new ↦ rw new (h, hs)
  ]

module _ {Net : Type 0} ⦃ops : IpNet Net⦄ (laws : IpNetLaws ops) (c : Config Net) where
  abbrev pub DumpInBounds : Dump Net → Type 0
  DumpInBounds d = InBounds c d.prefixes

  Checks-with_state :
      {r : Checked} {d : Dump Net}
      → Ends DumpInBounds Any r d
      → Checks DumpInBounds (with_state c (r, d))
  Checks-with_state (fine h) = holds h
  Checks-with_state (failing h) = rejected tt

  add_prefix-Ends :
      (payload : List ℕ) (found : Option Net) (d : Dump Net)
      → IsRoute laws payload found
      → DumpInBounds d
      → Ends DumpInBounds Any (add_prefix c found d).0 (add_prefix c found d).1
  unfolding add_prefix
  add_prefix-Ends payload none d h bounds = fine bounds
  add_prefix-Ends payload (some n) d h bounds =
      let prefixes = insert n d.prefixes in
      Ends-Checks DumpInBounds Any (ensure-Checks (leb (length prefixes) c.kernel.max_prefixes) _)
        (λ few. (
          leb→le (length prefixes) _ few,
          insert-Distinct n d.prefixes bounds.1,
          insert-All _ n d.prefixes h.0 bounds.2,
        ))
        tt

  dump_error-Ends :
      (payload : List ℕ) (d : Dump Net)
      → DumpInBounds d
      → Ends DumpInBounds Any (dump_error c payload d).0 (dump_error c payload d).1
  unfolding dump_error
  dump_error-Ends payload d bounds =
      Ends-attempt DumpInBounds Any (error_code_total payload _) tt λ code h.
        Ends-if DumpInBounds Any (code == 4294967294 && not d.saw_route) (fine bounds)
          (Ends-Checks DumpInBounds Any (ensure-Checks (code == 0) _) (λ u. bounds) tt)

  dump_message-Ends :
      (seq : ℕ) (m : Message) (d : Dump Net)
      → DumpInBounds d
      → Ends DumpInBounds Any (dump_message c seq m d).0 (dump_message c seq m d).1
  unfolding dump_message
  dump_message-Ends seq m d bounds =
      let E = DumpInBounds in
      Ends-attempt E Any {P = Any}
        (Ensures-ensure (m.seq == seq) _ _ λ e. Ensures-weaken (ensure-Checks _ _) λ u h. tt) tt
        λ u h.
          Ends-if E Any (m.kind == 3)
            (Ends-attempt E Any (dump_status_total m.payload d.saw_route) tt λ u' h'. fine bounds)
            (Ends-if E Any (m.kind == 2) (dump_error-Ends m.payload d bounds) (
              Ends-if E Any (m.kind == 4) (failing tt) (
                Ends-if E Any (m.kind == 24)
                  (Ends-attempt E Any (route_total laws m.payload c.kernel.tables) tt
                    λ found is_route.
                      add_prefix-Ends m.payload found (record d { saw_route = true }) is_route
                        bounds)
                  (fine bounds))))

  reply_round-Checks :
      (seq : ℕ) (r : Received) (d : Dump Net)
      → DumpInBounds d
      → Checks (λ x. DumpInBounds x.1) (reply_round c seq r d)
  unfolding reply_round
  reply_round-Checks seq would_block d bounds = holds bounds
  reply_round-Checks seq interrupted d bounds = holds bounds
  reply_round-Checks seq failed d bounds = rejected tt
  reply_round-Checks seq (datagram []) d bounds = rejected tt
  reply_round-Checks seq (datagram (b ∷ bs)) d bounds =
      Ensures-bind {R = DumpInBounds}
        (Checks-with_state (
          messages_total (dump_message c seq) DumpInBounds Any (length (b ∷ bs)) (b ∷ bs) d
            (dump_message-Ends seq) (λ s h. tt) (omega arith) bounds))
        λ d' bounds'. holds bounds'

  pub reply_rounds-Checks :
      (n seq : ℕ) (queue : List Arrival) (d : Dump Net)
      → DumpInBounds d
      → Checks (λ x. DumpInBounds x.0) (reply_rounds c n seq queue d)
  unfolding reply_rounds
  reply_rounds-Checks zero seq queue d bounds = holds bounds
  reply_rounds-Checks (suc n) seq [] d bounds = holds bounds
  reply_rounds-Checks (suc n) seq (a ∷ queue) d bounds =
      Ensures-bind (reply_round-Checks seq (recv a) d bounds) λ (on, d') bounds'.
        Ensures-if on (λ e. reply_rounds-Checks n seq queue d' bounds') (λ e. holds bounds')
