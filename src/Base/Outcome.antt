-- ===== src/Base/Outcome.antt =====
-- What a Rust call can end in: a value, an error value, or a panic. Slices index and cut with
-- the bounds checks that the compiler inserts.
use Prim.Native.Nat.{ℕ, zero, suc, ◌≤◌}
use Prim.Native.String.{String}
use mathlib.Core.Path.{◌≡◌}
use mathlib.Core.Bool.{Bool, true, false, ◌&&◌}
use mathlib.Core.List.{List, [], ◌∷◌}
use mathlib.Core.Option.{Option, none, some}
use ubgp.Base.Tests.{leb, le→leb, if◌then◌else◌}
use ubgp.Base.Lists.{length, take, drop}

pub record ProtocolError : Type 0 where
  pub code : ℕ
  pub subcode : ℕ
  pub error_data : List ℕ
  pub reason : String

-- An `anyhow::Error`: one that downcasts to `ProtocolError`, an I/O error, or a plain message.
pub data Error : Type 0 where
  protocol : ProtocolError → Error
  unexpected_eof : Error
  message : String → Error

-- `out_of_fuel` is no outcome of the program: a loop of the model used up its fuel.
pub data Result {ℓ} (A : Type ℓ) : Type ℓ where
  ok : A → Result A
  err : Error → Result A
  panic out_of_fuel : Result A

-- `Result<()>`
abbrev pub Checked : Type 0
Checked = Result (Unit {0})

infixl 5 ◌>>=◌ ◌>>◌
abbrev pub ◌>>=◌ {ℓ κ} : {A : Type ℓ} {B : Type κ} → Result A → (A → Result B) → Result B
ok a >>= f = f a
err e >>= f = err e
panic >>= f = panic
out_of_fuel >>= f = out_of_fuel

abbrev pub ◌>>◌ {ℓ} : {B : Type ℓ} → Result (Unit {0}) → Result B → Result B
m >> k = m >>= λ _. k

-- `anyhow::ensure!`
abbrev pub ensure : Bool → String → Result (Unit {0})
ensure true text = ok tt
ensure false text = err (message text)

-- `assert!`
abbrev pub assert : Bool → Result (Unit {0})
assert true = ok tt
assert false = panic

module _ {ℓ} {A : Type ℓ} where
  -- `Option::expect`
  abbrev pub expect : Option A → Result A
  expect none = panic
  expect (some a) = ok a

  -- `b[i]`
  abbrev pub index : List A → ℕ → Result A
  index [] i = panic
  index (x ∷ xs) zero = ok x
  index (x ∷ xs) (suc i) = index xs i

  -- `&b[lo..hi]`
  unfoldable pub slice : List A → ℕ → ℕ → Result (List A)
  slice b lo hi = if leb lo hi && leb hi (length b) then ok (drop lo (take hi b)) else panic

  -- `&b[lo..]`
  unfoldable pub slice_from : List A → ℕ → Result (List A)
  slice_from b lo = if leb lo (length b) then ok (drop lo b) else panic

  pub slice_lem :
      (b : List A) (lo hi : ℕ) → lo ≤ hi → hi ≤ length b → slice b lo hi ≡ ok (drop lo (take hi b))
  unfolding slice
  slice_lem b lo hi h k = rw (le→leb lo hi h, le→leb hi (length b) k)

  pub slice_from_lem : (b : List A) (lo : ℕ) → lo ≤ length b → slice_from b lo ≡ ok (drop lo b)
  unfolding slice_from
  slice_from_lem b lo h = rw (le→leb lo (length b) h)

abbrev pub unwrap_or {ℓ} : {A : Type ℓ} → Option A → A → A
unwrap_or none a = a
unwrap_or (some x) a = x
