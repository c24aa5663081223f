-- ===== src/Netlink/Freshness/Bounded.antt =====
-- Stale exports do not outlive the limit.
use ubgp.Base.{
  Bool-cases, ap, ◌∙◌, le→leb, ℕ, ◌-◌, ◌+◌, ◌≤◌, ◌≡◌, ◌⊎◌, inl, inr, refl, true, false, not, ◌&&◌,
  some, List, [], ◌∷◌, All, Eq, arith,
}
use ubgp.Netlink.Freshness.{
  Freshness, get_or_insert, invalidate, overdue, expire, Change, invalidated, expired, republished,
  apply, apply_all,
}

module _ {Exports : Type 0} ⦃eq : Eq Exports⦄ (no_exports : Exports) (limit : ℕ) where
  -- After a withdrawal nothing is published.
  abbrev pub IsWithdrawn : Freshness Exports → Type 0
  IsWithdrawn s = (s.withdrawn ≡ false) ⊎ (s.published ≡ no_exports)

  apply-IsWithdrawn :
      (c : Change Exports) (s : Freshness Exports)
      → IsWithdrawn s
      → IsWithdrawn (apply no_exports limit c s)
  unfolding apply
  apply-IsWithdrawn (invalidated now) s h = h
  apply-IsWithdrawn (expired now) s h = ground arith
  apply-IsWithdrawn (republished now changed exports) s h = inl refl

  apply_all-IsWithdrawn :
      (cs : List (Change Exports)) (s : Freshness Exports)
      → IsWithdrawn s
      → IsWithdrawn (apply_all no_exports limit cs s)
  unfolding apply_all
  apply_all-IsWithdrawn [] s h = h
  apply_all-IsWithdrawn (c ∷ cs) s h =
      apply_all-IsWithdrawn cs (apply no_exports limit c s) (apply-IsWithdrawn c s h)

  -- The changes that a stale period consists of: no snapshot is published.
  abbrev pub IsStale : Change Exports → Type 0
  IsStale (invalidated now) = Unit
  IsStale (expired now) = Unit
  IsStale (republished now changed exports) = ⊥

  pub expire-dirty :
      (now : ℕ) (s : Freshness Exports)
      → (expire no_exports now limit s).dirty_since ≡ s.dirty_since
  unfolding expire
  expire-dirty now s = elim (Bool-cases (not s.withdrawn && overdue s.dirty_since now limit)) [
    | inl fires ↦ rw fires refl
    | inr waits ↦ rw waits refl
  ]

  stays_dirty :
      (cs : List (Change Exports)) (s : Freshness Exports) (start : ℕ)
      → All IsStale cs
      → s.dirty_since ≡ some start
      → (apply_all no_exports limit cs s).dirty_since ≡ some start
  unfolding apply_all apply
  stays_dirty [] s start stale e = e
  stays_dirty (invalidated now ∷ cs) s start stale e =
      stays_dirty cs (invalidate now s) start stale.1 (ap (λ d. get_or_insert d now) e)
  stays_dirty (expired now ∷ cs) s start stale e =
      stays_dirty cs (expire no_exports now limit s) start stale.1 (expire-dirty now s ∙ e)
  stays_dirty (republished now changed exports ∷ cs) s start stale e = absurd stale.0

  -- Once the state is invalidated at `start`, the check of the watchdog at `start + limit` or later
  -- leaves nothing published, whatever invalidations and checks come in between.
  pub expire-bounded :
      (cs : List (Change Exports)) (s : Freshness Exports) (start now : ℕ)
      → IsWithdrawn s
      → s.dirty_since ≡ some start
      → All IsStale cs
      → start + limit ≤ now
      → (expire no_exports now limit (apply_all no_exports limit cs s)).published ≡ no_exports
  unfolding expire
  expire-bounded cs s start now h e stale late =
      let still = stays_dirty cs s start stale e in
      let w = apply_all-IsWithdrawn cs s h in
      let due : overdue (apply_all no_exports limit cs s).dirty_since now limit ≡ true =
        rw still (le→leb limit (now - start) (omega arith)) in
      elim (Bool-cases (apply_all no_exports limit cs s).withdrawn) [
        | inl already ↦ elim w [ inl never ↦ cc | inr empty ↦ rw already empty ]
        | inr pending ↦ rw (pending, due) refl
      ]
