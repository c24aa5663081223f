-- ===== src/Base/Slices.antt =====
-- Indexing and cutting a concatenation.
use ubgp.Base.{
  ℕ, zero, suc, ◌+◌, ◌≡◌, ap, List, [], ◌∷◌, ◌++◌, length, take, drop, take-append, drop-append,
  length-append, ok, index, slice, slice_lem, slice_from, slice_from_lem, arith, ◌∙◌,
}

module _ {ℓ} {A : Type ℓ} where
  drop-take-append :
      (xs ys zs : List A) (n : ℕ)
      → n ≡ length xs
      → (m : ℕ) → m ≡ length xs + length ys
      → drop n (take m (xs ++ (ys ++ zs))) ≡ ys
  drop-take-append [] ys zs zero h m k = take-append m ys zs (omega arith)
  drop-take-append [] ys zs (suc n) h m k = absurd (omega arith)
  drop-take-append (x ∷ xs) ys zs zero h m k = absurd (omega arith)
  drop-take-append (x ∷ xs) ys zs (suc n) h zero k = absurd (omega arith)
  drop-take-append (x ∷ xs) ys zs (suc n) h (suc m) k =
      drop-take-append xs ys zs n (omega arith) m (omega arith)

  pub slice_middle :
      (xs ys zs : List A) (lo hi : ℕ)
      → lo ≡ length xs
      → hi ≡ length xs + length ys
      → slice (xs ++ (ys ++ zs)) lo hi ≡ ok ys
  slice_middle xs ys zs lo hi h k =
      slice_lem (xs ++ (ys ++ zs)) lo hi (omega arith)
        (omega (arith, length-append xs (ys ++ zs), length-append ys zs))
      ∙ ap ok (drop-take-append xs ys zs lo h hi k)

  pub slice_from-append :
      (xs ys : List A) (lo : ℕ) → lo ≡ length xs → slice_from (xs ++ ys) lo ≡ ok ys
  slice_from-append xs ys lo h =
      slice_from_lem (xs ++ ys) lo (omega (arith, length-append xs ys))
      ∙ ap ok (drop-append lo xs ys h)

  pub index-append :
      (xs ys : List A) (i j : ℕ) → i ≡ length xs + j → index (xs ++ ys) i ≡ index ys j
  index-append [] ys i j h = ap (index ys) (omega arith)
  index-append (x ∷ xs) ys zero j h = absurd (omega arith)
  index-append (x ∷ xs) ys (suc i) j h = index-append xs ys i j (omega arith)
