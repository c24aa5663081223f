-- ===== src/Wire/Received.antt =====
-- What a peer reads from an UPDATE that it finds valid, after RFC 4271 and RFC 4760: an independent
-- description, by which the messages of the program are judged. It shares with the program only
-- the decoder of NLRI and the reachable routes of `update_prefixes` in src/wire.rs.
pub mod Own
pub mod Batches
pub mod Updates
use ubgp.Base.{
  ℕ, zero, suc, ◌+◌, Bool, true, false, not, ◌&&◌, ◌||◌, List, [], ◌∷◌, ◌++◌, length, leb, ◌==◌,
  if◌then◌else◌, message, Result, ok, err, out_of_fuel, ensure, index, slice, slice_from, ◌>>=◌,
  ◌>>◌, bit_and, be_u16,
}
use ubgp.Net.IpNet.{IpNet, eq_of_net}
use ubgp.Wire.Frame.{u16b}
use ubgp.Wire.Routes.{decoded, update_prefixes}

-- The first attribute, its type and its value, and what follows it.
pub first_attribute : List ℕ → Result ((ℕ × List ℕ) × List ℕ)
first_attribute (flags ∷ kind ∷ more) =
    if bit_and flags 0x10 == 0
    then (do
      l ← index more 0
      value ← slice more 1 (1 + l)
      behind ← slice_from more (1 + l)
      ok ((kind, value), behind))
    else (do
      l ← u16b more
      value ← slice more 2 (2 + l)
      behind ← slice_from more (2 + l)
      ok ((kind, value), behind))
first_attribute short = err (message "truncated attribute")

-- The attributes, in their order.
pub attribute_list : ℕ → List ℕ → Result (List (ℕ × List ℕ))
attribute_list fuel [] = ok []
attribute_list zero (b ∷ bs) = out_of_fuel
attribute_list (suc fuel) (b ∷ bs) = do
  (first, behind) ← first_attribute (b ∷ bs)
  rest ← attribute_list fuel behind
  ok (first ∷ rest)

module _ {Net : Type 0} ⦃ops : IpNet Net⦄ where
  -- MP_UNREACH_NLRI of a unicast family.
  pub unreached : List (ℕ × List ℕ) → Result (List Net)
  unreached [] = ok []
  unreached ((kind, value) ∷ rest) =
      let others = unreached rest in
      if kind == 15
      then (do
        afi ← u16b value
        routes ← slice_from value 3
        found ← decoded (length routes) routes (afi == 2)
        more ← others
        ok (found ++ more))
      else others

  -- The routes that an UPDATE withdraws.
  pub withdrawn_prefixes : List ℕ → Result (List Net)
  withdrawn_prefixes b = do
    w ← u16b b
    field ← slice b 2 (2 + w)
    plain ← decoded (length field) field false
    a ← slice_from b (2 + w) >>= u16b
    attrs ← slice b (4 + w) (4 + w + a)
    found ← attribute_list (length attrs) attrs
    routes ← unreached found
    ok (plain ++ routes)
