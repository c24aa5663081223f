-- ===== src/Netlink/Message/Ending.antt =====
-- How a call ends that may leave the captured state changed behind an error.
use ubgp.Base.{
  Bool, true, false, Error, Result, Checked, ok, err, panic, out_of_fuel, if◌then◌else◌,
}
use ubgp.Base.Ensures.{Checks, holds, rejected}
use ubgp.Netlink.Message.{attempt}

-- A call that returns: with a state that meets `I`, or with an error and a state that meets `J`.
pub data Ends {S : Type 0} (I J : S → Type 0) : Checked → S → Type 0 where
  fine : {s : S} → I s → Ends I J (ok tt) s
  failing : {e : Error} {s : S} → J s → Ends I J (err e) s

module _ {S : Type 0} (I J : S → Type 0) where
  pub Ends-attempt :
      {A : Type 0} {P : A → Type 0} {r : Result A} {s : S} {k : A → Checked × S}
      → Checks P r
      → J s
      → ((a : A) → P a → Ends I J (k a).0 (k a).1)
      → Ends I J (attempt r s k).0 (attempt r s k).1
  Ends-attempt (holds {a} h) j next = next a h
  Ends-attempt (rejected h) j next = failing j

  pub Ends-then :
      {I' : S → Type 0} {r : Checked} {s : S} {k : Checked × S}
      → Ends I' J r s
      → (I' s → Ends I J k.0 k.1)
      → Ends I J (attempt r s (λ done. k)).0 (attempt r s (λ done. k)).1
  Ends-then (fine i) next = next i
  Ends-then (failing j) next = failing j

  -- The same with a continuation that is given the state.
  pub Ends-onto :
      {I' : S → Type 0} {r : Checked × S} {k : S → Checked × S}
      → Ends I' J r.0 r.1
      → ((s : S) → I' s → Ends I J (k s).0 (k s).1)
      → Ends I J (attempt r.0 r.1 (λ done. k r.1)).0 (attempt r.0 r.1 (λ done. k r.1)).1
  Ends-onto {r = (ok u, s)} (fine i) next = next s i
  Ends-onto {r = (err e, s)} (failing j) next = failing j
  Ends-onto {r = (panic, s)} h next = elim h [ ]
  Ends-onto {r = (out_of_fuel, s)} h next = elim h [ ]

  pub Ends-if :
      (b : Bool) {x y : Checked × S}
      → Ends I J x.0 x.1
      → Ends I J y.0 y.1
      → Ends I J (if b then x else y).0 (if b then x else y).1
  Ends-if true hx hy = hx
  Ends-if false hx hy = hy

  pub Ends-weaken :
      {I' : S → Type 0} {r : Checked} {s : S}
      → Ends I' J r s
      → ((s' : S) → I' s' → I s')
      → Ends I J r s
  Ends-weaken (fine {s} i) weaker = fine (weaker s i)
  Ends-weaken (failing j) weaker = failing j

  -- A check in front of a result.
  pub Ends-Checks :
      {P : Unit {0} → Type 0} {r : Checked} {s : S} → Checks P r → (P tt → I s) → J s → Ends I J r s
  Ends-Checks (holds h) i j = fine (i h)
  Ends-Checks (rejected h) i j = failing j
