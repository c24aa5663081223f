-- ===== src/Netlink/Message/Success.antt =====
-- What holds of the state that a call leaves when it succeeds.
use ubgp.Base.{
  ◌≡◌, refl, Bool, true, false, Result, Checked, ok, err, panic, out_of_fuel, if◌then◌else◌,
}
use ubgp.Base.Ensures.{Checks, holds, rejected}
use ubgp.Netlink.Message.{attempt}
use ubgp.Netlink.Message.Ending.{Ends, fine, failing}

-- What holds of the state when a call has succeeded.
module _ {S : Type 0} (I : S → Type 0) where
  abbrev pub OnSuccess : Checked × S → Type 0
  OnSuccess (ok u, s) = I s
  OnSuccess (err e, s) = Unit
  OnSuccess (panic, s) = Unit
  OnSuccess (out_of_fuel, s) = Unit

  pub On-attempt :
      {A : Type 0} (r : Result A) (s : S) (k : A → Checked × S)
      → ((a : A) → r ≡ ok a → OnSuccess (k a))
      → OnSuccess (attempt r s k)
  On-attempt (ok a) s k next = next a refl
  On-attempt (err e) s k next = tt
  On-attempt panic s k next = tt
  On-attempt out_of_fuel s k next = tt

  pub On-Checks :
      {A : Type 0} {P : A → Type 0} {r : Result A} (s : S) (k : A → Checked × S)
      → Checks P r
      → ((a : A) → P a → OnSuccess (k a))
      → OnSuccess (attempt r s k)
  On-Checks s k (holds {a} h) next = next a h
  On-Checks s k (rejected h) next = tt

  pub On-if :
      (b : Bool) (x y : Checked × S)
      → (b ≡ true → OnSuccess x)
      → OnSuccess y
      → OnSuccess (if b then x else y)
  On-if true x y hx hy = hx refl
  On-if false x y hx hy = hy

  pub On-check : (r : Checked) (s : S) → I s → OnSuccess (r, s)
  On-check (ok u) s h = h
  On-check (err e) s h = tt
  On-check panic s h = tt
  On-check out_of_fuel s h = tt

pub On-then :
    {S : Type 0} (I I' : S → Type 0) (r : Checked) (s : S) (k : Checked × S)
    → OnSuccess I' (r, s)
    → (I' s → OnSuccess I k)
    → OnSuccess I (attempt r s (λ u. k))
On-then I I' (ok u) s k h next = next h
On-then I I' (err e) s k h next = tt
On-then I I' panic s k h next = tt
On-then I I' out_of_fuel s k h next = tt

pub OnSuccess-weaken :
    {S : Type 0} (I I' : S → Type 0) (r : Checked × S)
    → OnSuccess I r
    → ((s : S) → I s → I' s)
    → OnSuccess I' r
OnSuccess-weaken I I' (ok u, s) h weaker = weaker s h
OnSuccess-weaken I I' (err e, s) h weaker = tt
OnSuccess-weaken I I' (panic, s) h weaker = tt
OnSuccess-weaken I I' (out_of_fuel, s) h weaker = tt

pub Ends-OnSuccess :
    {S : Type 0} {I J I' : S → Type 0} {r : Checked} {s : S}
    → Ends I J r s
    → OnSuccess I' (r, s)
    → Ends (λ s'. I s' × I' s') J r s
Ends-OnSuccess (fine h) k = fine (h, k)
Ends-OnSuccess (failing h) k = failing h
