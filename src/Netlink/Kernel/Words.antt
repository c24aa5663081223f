-- ===== src/Netlink/Kernel/Words.antt =====
-- Words in the native byte order, and padding.
use ubgp.Base.{
  ℕ, ◌+◌, ◌-◌, ◌%◌, ◌<◌, ◌≡◌, refl, ap, ◌∙◌, List, [], ◌∷◌, ◌++◌, length, le→leb, ok, arith,
  append_assoc, length-append, length-replicate, slice, slice_from, sym,
}
use ubgp.Base.Slices.{slice_from-append}
use ubgp.Netlink.Message.{align, u32n}
use ubgp.Netlink.Snapshot.{u32_ne}
use ubgp.Netlink.Kernel.{padding, word}

pub u32n-word : (b rest : List ℕ) → length b ≡ 4 → u32n (b ++ rest) ≡ ok (word b)
unfolding slice
u32n-word [] rest four = absurd (omega arith)
u32n-word (a ∷ []) rest four = absurd (omega arith)
u32n-word (a ∷ b ∷ []) rest four = absurd (omega arith)
u32n-word (a ∷ b ∷ c ∷ []) rest four = absurd (omega arith)
u32n-word (a ∷ b ∷ c ∷ d ∷ []) rest four =
    rw (le→leb 4 (length (a ∷ b ∷ c ∷ d ∷ rest)) (omega arith)) (ap ok (omega arith))
u32n-word (a ∷ b ∷ c ∷ d ∷ e ∷ l) rest four = absurd (omega arith)

pub u32n-u32_ne : (n : ℕ) (rest : List ℕ) → n < 4294967296 → u32n (u32_ne n ++ rest) ≡ ok n
u32n-u32_ne n rest fits = u32n-word (u32_ne n) rest refl ∙ ap ok (omega arith)

pub length-padded :
    (head value rest : List ℕ) (n : ℕ)
    → n ≡ length head + length value
    → length (head ++ (value ++ (padding n ++ rest))) ≡ align n + length rest
length-padded head value rest n h = omega (
  arith,
  length-append head (value ++ (padding n ++ rest)),
  length-append value (padding n ++ rest),
  length-append (padding n) rest,
  length-replicate {A = ℕ} ((4 - n % 4) % 4) 0,
)

-- What follows the padding.
pub slice_from-padded :
    (head value rest : List ℕ) (n : ℕ)
    → n ≡ length head + length value
    → slice_from (head ++ (value ++ (padding n ++ rest))) (align n) ≡ ok rest
slice_from-padded head value rest n h =
    let front = head ++ (value ++ padding n) in
    let size : align n ≡ length front = omega (
      arith,
      length-append head (value ++ padding n),
      length-append value (padding n),
      length-replicate {A = ℕ} ((4 - n % 4) % 4) 0,
    ) in
    ap (λ l. slice_from (head ++ l) (align n)) (sym (append_assoc value (padding n) rest))
    ∙ ap (λ l. slice_from l (align n)) (sym (append_assoc head (value ++ padding n) rest))
    ∙ slice_from-append front rest (align n) size
