-- ===== src/Base/Ensures.antt =====
-- A postcondition: the call returned, with a value that meets `P` or an error that meets `Q`.
use ubgp.Base.{
  String, ensure, ℕ, ◌≤◌, ◌<◌, ◌≡◌, ◌≢◌, refl, subst, Bool, true, false, List, [], ◌∷◌, Error,
  Result, ok, err, panic, out_of_fuel, ◌>>=◌, index, slice, slice_lem, slice_from, slice_from_lem,
  length, take, drop, if◌then◌else◌, zero, suc, arith,
}

pub data Ensures {ℓ} {A : Type ℓ} (Q : Error → Type 0) (P : A → Type 0) : Result A → Type ℓ where
  holds : {a : A} → P a → Ensures Q P (ok a)
  rejected : {e : Error} → Q e → Ensures Q P (err e)

-- The same by recursion, in the form that tactics compute with.
abbrev pub Returns {ℓ} : {A : Type ℓ} → (Error → Type 0) → (A → Type 0) → Result A → Type 0
Returns Q P (ok a) = P a
Returns Q P (err e) = Q e
Returns Q P panic = ⊥
Returns Q P out_of_fuel = ⊥

-- A value with this property, or an error of whatever kind.
abbrev pub Checks {ℓ} : {A : Type ℓ} → (A → Type 0) → Result A → Type ℓ
Checks P r = Ensures (λ e. Unit) P r

pub Ensures-weaken {ℓ} :
    {A : Type ℓ} {Q : Error → Type 0} {P R : A → Type 0} {r : Result A}
    → Ensures Q P r
    → ((a : A) → P a → R a)
    → Ensures Q R r
Ensures-weaken (holds {a} h) k = holds (k a h)
Ensures-weaken (rejected h) k = rejected h

pub Ensures-Checks :
    {A : Type 0} {Q : Error → Type 0} {P : A → Type 0} {r : Result A} → Ensures Q P r → Checks P r
Ensures-Checks (holds h) = holds h
Ensures-Checks (rejected h) = rejected tt

module _ {ℓ} {A : Type ℓ} {Q : Error → Type 0} {P : A → Type 0} where
  pub of_Returns : (r : Result A) → Returns Q P r → Ensures Q P r
  of_Returns (ok a) h = holds h
  of_Returns (err e) h = rejected h
  of_Returns panic h = absurd h
  of_Returns out_of_fuel h = absurd h

  pub Ensures-ok : {r : Result A} {a : A} → Ensures Q P r → r ≡ ok a → P a
  Ensures-ok (holds h) e = subst P (cc) h
  Ensures-ok (rejected h) e = cc

  pub Ensures-err : {r : Result A} {x : Error} → Ensures Q P r → r ≡ err x → Q x
  Ensures-err (holds h) e = cc
  Ensures-err (rejected h) e = subst Q (cc) h

  pub Ensures-panic : {r : Result A} → Ensures Q P r → r ≢ panic
  Ensures-panic (holds h) e = cc
  Ensures-panic (rejected h) e = cc

  pub Ensures-if :
      (b : Bool) {x y : Result A}
      → (b ≡ true → Ensures Q P x)
      → (b ≡ false → Ensures Q P y)
      → Ensures Q P (if b then x else y)
  Ensures-if true hx hy = hx refl
  Ensures-if false hx hy = hy refl

pub Ensures-both :
    {A : Type 0} {Q : Error → Type 0} {P R : A → Type 0} {r : Result A}
    → Ensures Q P r
    → Ensures Q R r
    → Ensures Q (λ a. P a × R a) r
Ensures-both (holds h) k = holds (h, Ensures-ok k refl)
Ensures-both (rejected h) k = rejected h

module _ {ℓ κ} {A : Type ℓ} {B : Type κ} {Q : Error → Type 0} {P : B → Type 0} where
  pub Ensures-bind :
      {R : A → Type 0} {r : Result A} {f : A → Result B}
      → Ensures Q R r
      → ((a : A) → R a → Ensures Q P (f a))
      → Ensures Q P (r >>= f)
  Ensures-bind (holds {a} h) k = k a h
  Ensures-bind (rejected h) k = rejected h

  pub Ensures-index :
      (b : List A) (i : ℕ) {f : A → Result B}
      → i < length b
      → ((x : A) → index b i ≡ ok x → Ensures Q P (f x))
      → Ensures Q P (index b i >>= f)
  Ensures-index [] i h k = absurd (omega arith)
  Ensures-index (x ∷ xs) zero h k = k x refl
  Ensures-index (x ∷ xs) (suc i) h k = Ensures-index xs i (omega arith) k

  pub Ensures-slice :
      (b : List A) (lo hi : ℕ) (f : List A → Result B)
      → lo ≤ hi
      → hi ≤ length b
      → Ensures Q P (f (drop lo (take hi b)))
      → Ensures Q P (slice b lo hi >>= f)
  Ensures-slice b lo hi f h k e = rw (slice_lem b lo hi h k) e

  pub Ensures-slice_from :
      (b : List A) (lo : ℕ) (f : List A → Result B)
      → lo ≤ length b
      → Ensures Q P (f (drop lo b))
      → Ensures Q P (slice_from b lo >>= f)
  Ensures-slice_from b lo f h e = rw (slice_from_lem b lo h) e

pub ensure-Checks : (b : Bool) (text : String) → Checks (λ u. b ≡ true) (ensure b text)
ensure-Checks true text = holds refl
ensure-Checks false text = rejected tt

-- A call whose continuation returns has returned.
pub bind_ok :
    {A B : Type 0} (m : Result A) (f : A → Result B) {b : B}
    → (m >>= f) ≡ ok b
    → (a : A) × (m ≡ ok a)
bind_ok (ok a) f h = (a, refl)
bind_ok (err e) f h = cc
bind_ok panic f h = cc
bind_ok out_of_fuel f h = cc

pub same_value : {A : Type 0} {x y : A} → ◌≡◌ {A = Result A} (ok x) (ok y) → x ≡ y
same_value h = cc
