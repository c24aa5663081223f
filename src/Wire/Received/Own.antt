-- ===== src/Wire/Received/Own.antt =====
-- The attributes that the program writes, as a peer reads them.
use ubgp.Base.{
  ℕ, suc, ◌+◌, ◌-◌, ◌≤◌, ◌<◌, ◌≡◌, refl, ap, ◌∙◌, Bool, true, false, List, [], ◌∷◌, ◌++◌, length,
  ltb, ◌==◌, if◌then◌else◌, ok, arith, be_u16, Bool-cases, inl, inr, not-ltb→le, ◌/◌, ◌%◌,
}
use ubgp.Base.Slices.{slice_middle, slice_from-append}
use ubgp.Net.IpNet.{IpNet, eq_of_net}
use ubgp.Wire.Update.{attr}
use ubgp.Wire.Routes.{reached, attribute_routes}
use ubgp.Wire.Routes.Rounds.{routes-nil, routes-attr, reached_other}
use ubgp.Wire.Validate.Accepts.{IsPlain}
use ubgp.Wire.Received.{first_attribute, attribute_list}

first_attribute-attr :
    (flags kind : ℕ) (body rest : List ℕ)
    → IsPlain flags
    → length body < 65536
    → first_attribute (attr flags kind body ++ rest) ≡ ok ((kind, body), rest)
unfolding first_attribute
first_attribute-attr flags kind body rest (plain, extended) fits =
    elim (Bool-cases (ltb 255 (length body))) [
      | inl long ↦
          let word : length body % 65536 ≡ length body = omega arith in
          let head : List ℕ = length body / 256 % 256 ∷ length body % 256 ∷ [] in
          let read : be_u16 (length body / 256 % 256) (length body % 256) ≡ length body =
            omega arith in
          rw (
            long,
            word,
            extended,
            read,
            slice_middle head body rest 2 (2 + length body) refl (omega arith),
            slice_from-append (head ++ body) rest (2 + length body) (omega arith),
          )
      | inr short ↦
          let byte : length body % 256 ≡ length body =
            omega (arith, not-ltb→le 255 (length body) short) in
          rw (
            short,
            byte,
            plain,
            slice_middle (length body ∷ []) body rest 1 (1 + length body) refl (omega arith),
            slice_from-append (length body ∷ body) rest (1 + length body) (omega arith),
          )
    ]

list-attr :
    (fuel flags kind : ℕ) (body rest : List ℕ) {l : List (ℕ × List ℕ)}
    → IsPlain flags
    → length body < 65536
    → attribute_list fuel rest ≡ ok l
    → attribute_list (suc fuel) (attr flags kind body ++ rest) ≡ ok ((kind, body) ∷ l)
unfolding attribute_list
list-attr fuel flags kind body rest plain fits listed =
    rw (first_attribute-attr flags kind body rest plain fits, listed)

module _ {Net : Type 0} ⦃ops : IpNet Net⦄ where
  -- With this much fuel, the bytes are this list of attributes, and the routes that
  -- `update_prefixes` finds in them are these.
  pub record Reads (k : ℕ) (bs : List ℕ) (l : List (ℕ × List ℕ)) (routes : List Net) : Type 0 where
    pub listed : (fuel : ℕ) → k ≤ fuel → attribute_list fuel bs ≡ ok l
    pub reaches : (fuel : ℕ) → k ≤ fuel → attribute_routes fuel bs ≡ ok routes

  pub Reads-nil : Reads 0 [] [] []
  unfolding attribute_list
  Reads-nil = record { listed = λ fuel h. refl; reaches = λ fuel h. routes-nil fuel }

  pub Reads-attr :
      (k flags kind : ℕ) (body rest : List ℕ) {found routes : List Net} {l : List (ℕ × List ℕ)}
      → IsPlain flags
      → length body < 65536
      → reached kind (length body) body ≡ ok found
      → Reads k rest l routes
      → Reads (suc k) (attr flags kind body ++ rest) ((kind, body) ∷ l) (found ++ routes)
  Reads-attr k flags kind body rest plain fits found h = record {
    listed = λ fuel room.
        let e : fuel ≡ suc (fuel - 1) = omega arith in
        ap (λ f. attribute_list f (attr flags kind body ++ rest)) e
        ∙ list-attr (fuel - 1) flags kind body rest plain fits (h.listed (fuel - 1) (omega arith));
    reaches = λ fuel room.
        let e : fuel ≡ suc (fuel - 1) = omega arith in
        ap (λ f. attribute_routes f (attr flags kind body ++ rest)) e
        ∙ routes-attr (fuel - 1) flags kind body rest plain fits found
            (h.reaches (fuel - 1) (omega arith));
  }

  -- An attribute that is written under a condition and has no routes.
  pub Reads-optional :
      (b : Bool) (k flags kind : ℕ) (body rest : List ℕ) {routes : List Net} {l : List (ℕ × List ℕ)}
      → IsPlain flags
      → length body < 65536
      → (kind == 14) ≡ false
      → Reads k rest l routes
      → Reads
          (suc k)
          ((if b then attr flags kind body else []) ++ rest)
          (if b then (kind, body) ∷ l else l)
          routes
  Reads-optional true k flags kind body rest plain fits other h =
      Reads-attr k flags kind body rest plain fits (reached_other kind body other) h
  Reads-optional false k flags kind body rest plain fits other h = record {
    listed = λ fuel room. h.listed fuel (omega arith);
    reaches = λ fuel room. h.reaches fuel (omega arith);
  }
