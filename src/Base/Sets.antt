-- ===== src/Base/Sets.antt =====
-- A `HashSet` as the list of what it holds: its order is the set's order of iteration, which the
-- program leaves open and no theorem relies on.
use ubgp.Base.{
  Eq, same, same_iff, contains, ◌≡◌, refl, sym, ap, ◌∙◌, Bool, true, false, not, ◌&&◌, ◌||◌, List,
  [], ◌∷◌, ◌++◌, if◌then◌else◌, Bool-cases, inl, inr,
}

abbrev pub filter {ℓ} : {A : Type ℓ} → (A → Bool) → List A → List A
filter f [] = []
filter f (x ∷ xs) = if f x then x ∷ filter f xs else filter f xs

pub no_and : (b : Bool) → (b && false) ≡ false
no_and true = refl
no_and false = refl

module _ {A : Type 0} ⦃eq : Eq A⦄ where
  -- `HashSet::remove` and `HashSet::insert`
  abbrev pub remove : A → List A → List A
  remove a s = filter (λ x. not (same a x)) s

  abbrev pub insert : A → List A → List A
  insert a s = if contains s a then s else a ∷ s

  -- The tests of the sets that these build.
  pub contains-append :
      (xs ys : List A) (a : A) → contains (xs ++ ys) a ≡ (contains xs a || contains ys a)
  contains-append [] ys a = refl
  contains-append (x ∷ xs) ys a = elim (Bool-cases (same x a)) [
    | inl here ↦ rw here refl
    | inr other ↦ rw other (contains-append xs ys a)
  ]

  -- The test of a filter at an element that equals one of the list.
  moved : (f : A → Bool) (x a : A) → same x a ≡ true → f x ≡ f a
  moved f x a h = ap f ((same_iff x a).0 h)

  pub contains-filter :
      (f : A → Bool) (xs : List A) (a : A) → contains (filter f xs) a ≡ (contains xs a && f a)
  contains-filter f [] a = refl
  contains-filter f (x ∷ xs) a = elim (Bool-cases (f x)) [
    | inl keep ↦ elim (Bool-cases (same x a)) [
      | inl here ↦ rw (keep, here, ← moved f x a here, keep) refl
      | inr other ↦ rw (keep, other) (contains-filter f xs a)
    ]
    | inr lose ↦ elim (Bool-cases (same x a)) [
      | inl here ↦
          rw (lose, here, contains-filter f xs a, ← moved f x a here, lose) (no_and (contains xs a))
      | inr other ↦ rw (lose, other) (contains-filter f xs a)
    ]
  ]

  pub contains-insert :
      (b : A) (s : List A) (a : A) → contains (insert b s) a ≡ (same b a || contains s a)
  contains-insert b s a = elim (Bool-cases (contains s b)) [
    | inl held ↦ elim (Bool-cases (same b a)) [
      | inl here ↦ rw (held, here) (sym (moved (contains s) b a here) ∙ held)
      | inr other ↦ rw (held, other) refl
    ]
    | inr new ↦ rw new refl
  ]

  pub contains-remove :
      (b : A) (s : List A) (a : A) → contains (remove b s) a ≡ (contains s a && not (same b a))
  contains-remove b s a = contains-filter (λ x. not (same b x)) s a
