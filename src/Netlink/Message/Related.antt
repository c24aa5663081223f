-- ===== src/Netlink/Message/Related.antt =====
-- Two walks over one datagram whose callbacks agree.
use ubgp.Base.{
  ℕ, zero, suc, ◌≡◌, refl, Bool, true, false, List, [], ◌∷◌, length, ◌==◌, if◌then◌else◌, Result,
  Checked, ok, err, panic, out_of_fuel,
}
use ubgp.Netlink.Message.{Message, messages, attempt, first_message, behind_padding}

module _ {S T : Type 0} (R : S → T → Type 0) where
  -- The same outcome, in states that correspond.
  abbrev pub Agree : Checked × S → Checked × T → Type 0
  Agree p q = (p.0 ≡ q.0) × R p.1 q.1

  Agree-attempt :
      {A : Type 0} (r : Result A) {s : S} {t : T} {k : A → Checked × S} {l : A → Checked × T}
      → R s t
      → ((a : A) → Agree (k a) (l a))
      → Agree (attempt r s k) (attempt r t l)
  Agree-attempt (ok a) h next = next a
  Agree-attempt (err e) h next = (refl, h)
  Agree-attempt panic h next = (refl, h)
  Agree-attempt out_of_fuel h next = (refl, h)

  Agree-if :
      (b : Bool) {x x' : Checked × S} {y y' : Checked × T}
      → Agree x y
      → Agree x' y'
      → Agree (if b then x else x') (if b then y else y')
  Agree-if true h k = h
  Agree-if false h k = k

  module _ (f : Message → S → Checked × S) (g : Message → T → Checked × T) where
    pub messages-Agree :
        (fuel : ℕ) (bytes : List ℕ) (s : S) (t : T)
        → ((m : Message) (s' : S) (t' : T) → R s' t' → Agree (f m s') (g m t'))
        → R s t
        → Agree (messages f fuel bytes s) (messages g fuel bytes t)
    unfolding messages
    messages-Agree fuel [] s t step h = (refl, h)
    messages-Agree zero (b ∷ bs) s t step h = (refl, h)
    messages-Agree (suc fuel) (b ∷ bs) s t step h =
        Agree-attempt (first_message (b ∷ bs)) h λ (m, len).
          let (e, h') = step m s t h in
          rw e (
            Agree-attempt (g m t).0 h' λ done.
              Agree-if (len == length (b ∷ bs)) (refl, h')
                (Agree-attempt (behind_padding (b ∷ bs) len) h'
                  λ rest. messages-Agree fuel rest (f m s).1 (g m t).1 step h'))
