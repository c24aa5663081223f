-- ===== src/Wire/Faults.antt =====
-- Which errors the codec may return, and the rule for `require`.
use ubgp.Base.{
  panic, out_of_fuel, ok, err, index, if◌then◌else◌, ◌==◌, ◌⊎◌, ℕ, ◌≡◌, refl, List, [], ◌∷◌, ◌+◌,
  ◌≤◌, length, take, drop, slice, slice_from, ◌>>=◌, arith, length-drop, length-take, Bool, true,
  false, String, Error, protocol, unexpected_eof, message, Result, ◌>>◌,
}
use ubgp.Base.Ensures.{
  Ensures, holds, rejected, Ensures-slice, Ensures-slice_from, Ensures-if, Ensures-index,
}
use ubgp.Wire.Frame.{require, protocol_error, u16b}

-- A `ProtocolError` with this code.
abbrev pub IsFault : ℕ → Error → Type 0
IsFault code (protocol e) = e.code ≡ code
IsFault code unexpected_eof = ⊥
IsFault code (message text) = ⊥

pub Ensures-require :
    {A : Type 0} {Q : Error → Type 0} {P : A → Type 0} (b : Bool) (code subcode : ℕ)
    (reason : String) (k : Result A)
    → (b ≡ true → Ensures Q P k)
    → Q (protocol_error code subcode [] reason)
    → Ensures Q P (require b code subcode reason >> k)
Ensures-require true code subcode reason k h q = h refl
Ensures-require false code subcode reason k h q = rejected q

module _ {Q : Error → Type 0} where
  pub u16b_total : (l : List ℕ) → 2 ≤ length l → Ensures Q (λ _. Unit {0}) (u16b l)
  u16b_total [] h = absurd (omega arith)
  u16b_total (a ∷ []) h = absurd (omega arith)
  u16b_total (a ∷ b ∷ l) h = holds tt

  -- A two-byte field of a long enough list.
  pub u16_field_total :
      (b : List ℕ) (lo hi : ℕ)
      → hi ≡ lo + 2
      → hi ≤ length b
      → Ensures Q (λ _. Unit {0}) (slice b lo hi >>= u16b)
  u16_field_total b lo hi e h = Ensures-slice b lo hi u16b (omega arith) h (
      u16b_total (drop lo (take hi b))
        (omega (arith, length-drop lo (take hi b), length-take hi b)))

  pub u16_from_total :
      (b : List ℕ) (lo : ℕ)
      → lo + 2 ≤ length b
      → Ensures Q (λ _. Unit {0}) (slice_from b lo >>= u16b)
  u16_from_total b lo h =
      Ensures-slice_from b lo u16b (omega arith)
        (u16b_total (drop lo b) (omega (arith, length-drop lo b)))

bind-ok {ℓ} : {A : Type ℓ} (m : Result A) → (m >>= ok) ≡ m
bind-ok (ok a) = refl
bind-ok (err e) = refl
bind-ok panic = refl
bind-ok out_of_fuel = refl

-- The length field of an attribute, of one or two bytes.
pub length_total :
    {Q : Error → Type 0} (attrs : List ℕ) (h : ℕ)
    → (h ≡ 3) ⊎ (h ≡ 4)
    → h ≤ length attrs
    → Ensures Q (λ _. Unit {0}) (if h == 4 then (slice_from attrs 2 >>= u16b) else index attrs 2)
length_total attrs h e fits =
    Ensures-if (h == 4) (λ four. u16_from_total attrs 2 (ground arith))
      (λ _. rw (← bind-ok (index attrs 2)) (Ensures-index attrs 2 (omega arith) λ _ _. holds tt))
