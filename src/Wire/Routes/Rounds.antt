-- ===== src/Wire/Routes/Rounds.antt =====
-- The loop of `update_prefixes` over attributes that `attr` wrote.
use ubgp.Base.{
  ℕ, suc, ◌+◌, ◌<◌, ◌≡◌, refl, true, false, List, [], ◌∷◌, ◌++◌, length, ltb, ◌==◌, ok, arith,
  be_u16, Bool-cases, inl, inr, not-ltb→le, length-append, bit_and, bit_or, ◌/◌, ◌%◌, le→not-ltb,
}
use ubgp.Base.Slices.{slice_middle, slice_from-append}
use ubgp.Net.IpNet.{IpNet, eq_of_net}
use ubgp.Wire.Update.{attr}
use ubgp.Wire.Routes.{reached, attribute_routes}
use ubgp.Wire.Validate.Accepts.{IsPlain}

module _ {Net : Type 0} ⦃ops : IpNet Net⦄ where
  -- One round of the loop of `update_prefixes` on an attribute that `attr` wrote.
  routes-short :
      (fuel flags kind : ℕ) (body rest : List ℕ) {found routes : List Net}
      → (bit_and flags 0x10 == 0) ≡ true
      → reached kind (length body) body ≡ ok found
      → attribute_routes fuel rest ≡ ok routes
      → attribute_routes (suc fuel) (flags ∷ kind ∷ length body ∷ (body ++ rest))
        ≡ ok (found ++ routes)
  unfolding attribute_routes
  routes-short fuel flags kind body rest plain found routes =
      let head : List ℕ = flags ∷ kind ∷ length body ∷ [] in
      let size : length (head ++ (body ++ rest)) ≡ 3 + length body + length rest =
        omega (arith, length-append body rest) in
      rw (
        plain,
        le→not-ltb (length (head ++ (body ++ rest))) 3 (omega arith),
        le→not-ltb (length (head ++ (body ++ rest))) (3 + length body) (omega arith),
        slice_middle head body rest 3 (3 + length body) refl (omega arith),
        slice_from-append (head ++ body) rest (3 + length body) (omega arith),
        found,
        routes,
      )

  routes-long :
      (fuel flags kind : ℕ) (body rest : List ℕ) {found routes : List Net}
      → (bit_and flags 0x10 == 0) ≡ false
      → length body < 65536
      → reached kind (length body) body ≡ ok found
      → attribute_routes fuel rest ≡ ok routes
      → attribute_routes
          (suc fuel)
          (flags ∷ kind ∷ length body / 256 % 256 ∷ length body % 256 ∷ (body ++ rest))
        ≡ ok (found ++ routes)
  unfolding attribute_routes
  routes-long fuel flags kind body rest extended fits found routes =
      let head : List ℕ = flags ∷ kind ∷ length body / 256 % 256 ∷ length body % 256 ∷ [] in
      let size : length (head ++ (body ++ rest)) ≡ 4 + length body + length rest =
        omega (arith, length-append body rest) in
      let read : be_u16 (length body / 256 % 256) (length body % 256) ≡ length body = omega arith in
      rw (
        extended,
        le→not-ltb (length (head ++ (body ++ rest))) 3 (omega arith),
        le→not-ltb (length (head ++ (body ++ rest))) 4 (omega arith),
        slice_from-append (flags ∷ kind ∷ [])
            (length body / 256 % 256 ∷ length body % 256 ∷ (body ++ rest)) 2 refl,
        read,
        le→not-ltb (length (head ++ (body ++ rest))) (4 + length body) (omega arith),
        slice_middle head body rest 4 (4 + length body) refl (omega arith),
        slice_from-append (head ++ body) rest (4 + length body) (omega arith),
        found,
        routes,
      )

  pub routes-attr :
      (fuel flags kind : ℕ) (body rest : List ℕ) {found routes : List Net}
      → IsPlain flags
      → length body < 65536
      → reached kind (length body) body ≡ ok found
      → attribute_routes fuel rest ≡ ok routes
      → attribute_routes (suc fuel) (attr flags kind body ++ rest) ≡ ok (found ++ routes)
  routes-attr fuel flags kind body rest (plain, extended) fits found routes =
      elim (Bool-cases (ltb 255 (length body))) [
        | inl long ↦
            let word : length body % 65536 ≡ length body = omega arith in
            rw (long, word)
              (routes-long fuel (bit_or flags 0x10) kind body rest extended fits found routes)
        | inr short ↦
            let byte : length body % 256 ≡ length body =
              omega (arith, not-ltb→le 255 (length body) short) in
            rw (short, byte) (routes-short fuel (bit_or flags 0) kind body rest plain found routes)
      ]

  pub routes-nil : (fuel : ℕ) → attribute_routes {Net = Net} fuel [] ≡ ok []
  unfolding attribute_routes
  routes-nil fuel = refl

  -- Only MP_REACH has reachable routes.
  pub reached_other :
      (kind : ℕ) (body : List ℕ)
      → (kind == 14) ≡ false
      → reached {Net = Net} kind (length body) body ≡ ok []
  unfolding reached
  reached_other kind body other = rw other refl
