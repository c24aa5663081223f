-- ===== src/Netlink/Snapshot/Whole.antt =====
-- What the replies to one request come to, message by message, for the callback of `snapshot` and
-- the loop around it in src/netlink.rs.
use ubgp.Base.{
  ◌==◌, ◌&&◌, ◌||◌, not, ℕ, zero, suc, ◌≡◌, ◌≢◌, ◌⊎◌, inl, inr, refl, Bool, true, false, Option,
  none, some, List, [], ◌∷◌, length, leb, leb→le, arith, Result, Checked, ◌∙◌, ap, String, ◌>>◌, ok,
  ensure, Bool-cases, bit_and, if◌then◌else◌,
}
use ubgp.Base.Sets.{insert}
use ubgp.Base.Ensures.{
  ensure-Checks, Checks, holds, rejected, Ensures-weaken, Ensures-if, Ensures-bind,
}
use ubgp.Net.IpNet.{IpNet, IpNetLaws, eq_of_net}
use ubgp.Config.{Config}
use ubgp.Netlink.Message.{Message, u32n, route, dump_status}
use ubgp.Netlink.Message.Ending.{Ends, fine, failing, Ends-attempt, Ends-Checks}
use ubgp.Netlink.Message.Total.{messages_total, route_total, u32n_total, Ensures-ensure}
use ubgp.Netlink.Events.{Arrival, Received, would_block, interrupted, failed, datagram, recv}
use ubgp.Netlink.Snapshot.{
  Dump, add_prefix, dump_error, dump_message, reply_round, reply_rounds, with_state,
}
use ubgp.Netlink.Snapshot.Bounded.{Any}

-- What returns, with the equation.
pub Checks-eq :
    {A : Type 0} {P : A → Type 0} {r : Result A} → Checks P r → Checks (λ a. (r ≡ ok a) × P a) r
Checks-eq (holds h) = holds (refl, h)
Checks-eq (rejected h) = rejected h

module _ {S : Type 0} (I J : S → Type 0) where
  pub Ends-cases :
      (b : Bool) {x y : Checked × S}
      → (b ≡ true → Ends I J x.0 x.1)
      → (b ≡ false → Ends I J y.0 y.1)
      → Ends I J (if b then x else y).0 (if b then x else y).1
  Ends-cases true hx hy = hx refl
  Ends-cases false hx hy = hy refl

-- -ENOENT in two's complement.
abbrev no_entry : ℕ
no_entry = 4_294_967_294

-- A status word that is 0 or missing, or -ENOENT when there was no route.
abbrev pub IsStatus : List ℕ → Bool → Type 0
IsStatus payload had_route =
    (payload ≡ []) ⊎ (u32n payload ≡ ok 0) ⊎ ((u32n payload ≡ ok no_entry) × (had_route ≡ false))

module _ {Net : Type 0} ⦃ops : IpNet Net⦄ (c : Config Net) (seq : ℕ) where
  -- A message of the dump with this sequence number, which the kernel has not flagged as
  -- interrupted: NLM_F_DUMP_INTR is 16.
  abbrev pub IsPart : Message → Type 0
  IsPart m = (m.seq ≡ seq) × (bit_and m.flags 16 ≡ 0)

  -- The messages of one dump, one after the other, which started with the prefixes `before`:
  -- whether it is complete, whether it had a route, and the prefixes that it leaves. An overrun has
  -- no rule, since no dump goes on behind it.
  pub data Told (before : List Net) : Bool → Bool → List Net → Type 0 where
    requested : Told before false false before
    done :
        {complete had_route : Bool} {prefixes : List Net} (m : Message)
        → Told before complete had_route prefixes
        → IsPart m
        → m.kind ≡ 3
        → IsStatus m.payload had_route
        → Told before true had_route prefixes
    no_such_table :
        {complete had_route : Bool} {prefixes : List Net} (m : Message)
        → Told before complete had_route prefixes
        → IsPart m
        → m.kind ≡ 2
        → u32n m.payload ≡ ok no_entry
        → had_route ≡ false
        → Told before true had_route prefixes
    acknowledged :
        {complete had_route : Bool} {prefixes : List Net} (m : Message)
        → Told before complete had_route prefixes
        → IsPart m
        → m.kind ≡ 2
        → u32n m.payload ≡ ok 0
        → Told before complete had_route prefixes
    skipped :
        {complete had_route : Bool} {prefixes : List Net} (m : Message)
        → Told before complete had_route prefixes
        → IsPart m
        → m.kind ≡ 24
        → route {Net = Net} m.payload c.kernel.tables ≡ ok none
        → Told before complete true prefixes
    added :
        {complete had_route : Bool} {prefixes : List Net} (m : Message) (prefix : Net)
        → Told before complete had_route prefixes
        → IsPart m
        → m.kind ≡ 24
        → route {Net = Net} m.payload c.kernel.tables ≡ ok (some prefix)
        → Told before complete true (insert prefix prefixes)
    other :
        {complete had_route : Bool} {prefixes : List Net} (m : Message)
        → Told before complete had_route prefixes
        → IsPart m
        → (m.kind ≢ 2) × (m.kind ≢ 3) × (m.kind ≢ 4) × (m.kind ≢ 24)
        → Told before complete had_route prefixes

status_lem :
    (payload : List ℕ) (code : ℕ) (had_route : Bool)
    → u32n payload ≡ ok code
    → (code == 0 || code == no_entry && not had_route) ≡ true
    → IsStatus payload had_route
status_lem payload code had_route e h = elim (Bool-cases (code == 0)) [
  | inl z ↦ let is_zero : code ≡ 0 = ground arith in inr (inl (e ∙ ap ok is_zero))
  | inr nz ↦
      let is_code : code ≡ no_entry = ground arith in
      let unseen : had_route ≡ false = ground arith in inr (inr (e ∙ ap ok is_code, unseen))
]

dump_status-IsStatus :
    (payload : List ℕ) (had_route : Bool)
    → Checks (λ u. IsStatus payload had_route) (dump_status payload had_route)
unfolding dump_status
dump_status-IsStatus [] had_route = holds (inl refl)
dump_status-IsStatus (b ∷ bs) had_route = Ensures-ensure (leb 4 (length (b ∷ bs))) _ _ λ enough.
    Ensures-bind (Checks-eq (u32n_total (b ∷ bs) (leb→le 4 (length (b ∷ bs)) enough)))
      λ code (e, h).
        Ensures-weaken (ensure-Checks (code == 0 || code == no_entry && not had_route) _)
          λ u k. status_lem (b ∷ bs) code had_route e k

error_code-eq :
    (payload : List ℕ) (text : String)
    → Checks (λ code. u32n payload ≡ ok code) (ensure (leb 4 (length payload)) text >> u32n payload)
error_code-eq payload text =
    Ensures-ensure (leb 4 (length payload)) _ _
      λ long. Ensures-weaken (Checks-eq (u32n_total payload (leb→le 4 _ long))) λ code (e, h). e

module _ {Net : Type 0} ⦃ops : IpNet Net⦄ (laws : IpNetLaws ops) (c : Config Net) (seq : ℕ)
    (before : List Net) where
  -- The state of the callback is what the messages so far come to.
  abbrev pub Follows : Dump Net → Type 0
  Follows d = Told c seq before d.done d.saw_route d.prefixes

  dump_error-Follows :
      (m : Message) (d : Dump Net)
      → Follows d
      → IsPart c seq m
      → m.kind ≡ 2
      → Ends Follows Any (dump_error c m.payload d).0 (dump_error c m.payload d).1
  unfolding dump_error
  dump_error-Follows m d told part kind =
      Ends-attempt Follows Any (error_code-eq m.payload _) tt λ code e.
        Ends-cases Follows Any (code == 4294967294 && not d.saw_route)
          (λ k.
            let is_code : code ≡ 4294967294 = ground arith in
            let unseen : d.saw_route ≡ false = ground arith in
            fine (no_such_table m told part kind (e ∙ ap ok is_code) unseen))
          λ k.
            Ends-Checks Follows Any (ensure-Checks (code == 0) _)
              (λ z.
                let is_zero : code ≡ 0 = ground arith in
                acknowledged m told part kind (e ∙ ap ok is_zero))
              tt

  add_prefix-Follows :
      (m : Message) (found : Option Net) (d : Dump Net)
      → Follows d
      → IsPart c seq m
      → m.kind ≡ 24
      → route {Net = Net} m.payload c.kernel.tables ≡ ok found
      → Ends Follows Any
          (add_prefix c found (record d { saw_route = true })).0
          (add_prefix c found (record d { saw_route = true })).1
  unfolding add_prefix
  add_prefix-Follows m none d told part kind e = fine (skipped m told part kind e)
  add_prefix-Follows m (some prefix) d told part kind e =
      Ends-Checks Follows Any (ensure-Checks _ _) (λ few. added m prefix told part kind e) tt

  dump_message-Follows :
      (m : Message) (d : Dump Net)
      → Follows d
      → Ends Follows Any (dump_message c seq m d).0 (dump_message c seq m d).1
  unfolding dump_message
  dump_message-Follows m d told =
      Ends-attempt Follows Any {P = λ u. IsPart c seq m}
        (Ensures-ensure (m.seq == seq) _ _ λ same_seq.
          Ensures-weaken (ensure-Checks (bit_and m.flags 16 == 0) _)
            λ u whole. (ground arith, ground arith))
        tt
        λ u part.
          Ends-cases Follows Any (m.kind == 3)
            (λ k.
              Ends-attempt Follows Any (dump_status-IsStatus m.payload d.saw_route) tt
                λ u' status. fine (done m told part (ground arith) status))
            λ not3.
              Ends-cases Follows Any (m.kind == 2)
                (λ k. dump_error-Follows m d told part (ground arith))
                λ not2.
                  Ends-cases Follows Any (m.kind == 4) (λ k. failing tt)
                    λ not4.
                      Ends-cases Follows Any (m.kind == 24)
                        (λ k.
                          Ends-attempt Follows Any
                            (Checks-eq (route_total laws m.payload c.kernel.tables)) tt
                            λ found (e, h). add_prefix-Follows m found d told part (ground arith) e)
                        λ not24. fine (
                          other m told part
                            (ground arith, ground arith, ground arith, ground arith))

  Checks-Follows :
      {r : Checked} {d : Dump Net} → Ends Follows Any r d → Checks Follows (with_state c (r, d))
  Checks-Follows (fine h) = holds h
  Checks-Follows (failing h) = rejected tt

  reply_round-Follows :
      (r : Received) (d : Dump Net) → Follows d → Checks (λ x. Follows x.1) (reply_round c seq r d)
  unfolding reply_round
  reply_round-Follows would_block d told = holds told
  reply_round-Follows interrupted d told = holds told
  reply_round-Follows failed d told = rejected tt
  reply_round-Follows (datagram []) d told = rejected tt
  reply_round-Follows (datagram (b ∷ bs)) d told =
      Ensures-bind {R = Follows}
        (Checks-Follows (
          messages_total (dump_message c seq) Follows Any (length (b ∷ bs)) (b ∷ bs) d
            dump_message-Follows (λ s h. tt) (omega arith) told))
        λ d' told'. holds told'

  pub reply_rounds-Follows :
      (n : ℕ) (queue : List Arrival) (d : Dump Net)
      → Follows d
      → Checks (λ x. Follows x.0) (reply_rounds c n seq queue d)
  unfolding reply_rounds
  reply_rounds-Follows zero queue d told = holds told
  reply_rounds-Follows (suc n) [] d told = holds told
  reply_rounds-Follows (suc n) (a ∷ queue) d told =
      Ensures-bind (reply_round-Follows (recv a) d told) λ (on, d') told'.
        Ensures-if on (λ e. reply_rounds-Follows n queue d' told') (λ e. holds told')
