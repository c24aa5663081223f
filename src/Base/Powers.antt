-- ===== src/Base/Powers.antt =====
-- The powers of two of the back-offs.
use ubgp.Base.{ℕ, ◌≤◌, ◌≡◌, ◌⊎◌, inl, inr, ◌^◌, arith}

one_to_five : (k : ℕ) → 1 ≤ k → k ≤ 5 → (k ≡ 1) ⊎ (k ≡ 2) ⊎ (k ≡ 3) ⊎ (k ≡ 4) ⊎ (k ≡ 5)
one_to_five k low high = ground arith

pub power_range : (k : ℕ) → 1 ≤ k → k ≤ 5 → (2 ≤ 2 ^ k) × (2 ^ k ≤ 32)
power_range k low high = elim (one_to_five k low high) [
  | inl e ↦ rw e (omega arith, omega arith)
  | inr (inl e) ↦ rw e (omega arith, omega arith)
  | inr (inr (inl e)) ↦ rw e (omega arith, omega arith)
  | inr (inr (inr (inl e))) ↦ rw e (omega arith, omega arith)
  | inr (inr (inr (inr e))) ↦ rw e (omega arith, omega arith)
]
