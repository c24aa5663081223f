-- ===== src/Wire/Routes/Total.antt =====
-- `update_prefixes` returns on any bytes.
use ubgp.Base.{
  ◌≡◌, refl, ℕ, zero, suc, ◌+◌, ◌≤◌, Bool, true, false, not, ◌&&◌, ◌||◌, List, [], ◌∷◌, length,
  drop, take, leb, ltb, ◌==◌, if◌then◌else◌, Result, ◌>>=◌, bit_and, arith, length-drop,
  length-take, expect, not-ltb→le,
}
use ubgp.Base.Ensures.{
  Ensures, holds, Ensures-if, Ensures-bind, Ensures-index, Ensures-slice, Ensures-slice_from,
}
use ubgp.Net.Addr.{IpAddr}
use ubgp.Net.IpNet.{IpNet, IpNetLaws, div_ceil8, width}
use ubgp.Wire.Faults.{u16b_total, u16_from_total, length_total}
use ubgp.Wire.Routes.{
  decoded, reached, attribute_routes, update_prefixes, address_of, padded, buffer,
}

-- A value, and no error.
abbrev Fine {ℓ} : {A : Type ℓ} → Result A → Type ℓ
Fine r = Ensures (λ e. ⊥) (λ a. Unit {0}) r

module _ {Net : Type 0} ⦃ops : IpNet Net⦄ (laws : IpNetLaws ops) where
  open ops use {new, trunc}

  width-address_of :
      (is_v6 : Bool) (bytes : List ℕ) → width (address_of is_v6 bytes) ≡ (if is_v6 then 128 else 32)
  width-address_of true bytes = refl
  width-address_of false bytes = refl

  Ensures-expect :
      {B : Type 0} (ip : IpAddr) (len : ℕ) {f : Net → Result B}
      → len ≤ width ip
      → ((net : Net) → Fine (f net))
      → Fine (expect (new ip len) >>= f)
  Ensures-expect ip len h k = let (net, e) = laws.new_ok ip len h in rw e (k net)

  fits :
      (is_v6 : Bool) (bits : ℕ) (c : Bool)
      → (ltb (if is_v6 then 128 else 32) bits || c) ≡ false
      → (bits ≤ (if is_v6 then 128 else 32)) × (c ≡ false)
  fits is_v6 bits c h = ground arith

  decoded_total :
      (fuel : ℕ) (b : List ℕ) (is_v6 : Bool)
      → length b ≤ fuel
      → Fine (decoded {Net = Net} fuel b is_v6)
  unfolding decoded
  decoded_total fuel [] is_v6 h = holds tt
  decoded_total zero (bits ∷ bs) is_v6 h = absurd (omega arith)
  decoded_total (suc fuel) (bits ∷ bs) is_v6 h =
      let size = div_ceil8 bits in
      let b = bits ∷ bs in
      Ensures-if (ltb (if is_v6 then 128 else 32) bits || ltb (length b) (size + 1)) (λ _. holds tt)
        λ good.
          let (narrow, room) = fits is_v6 bits (ltb (length b) (size + 1)) good in
          let size_fits : size + 1 ≤ length b = not-ltb→le (length b) (size + 1) room in
          let small : size ≤ 16 = ground arith in
          let bytes = padded (drop 1 (take (1 + size) b)) size in
          Ensures-slice b 1 (1 + size) _ (omega arith) (omega arith) (
            Ensures-slice buffer 0 size _ (omega arith) (omega arith) (
              Ensures-expect (address_of is_v6 bytes) bits
                (rw (width-address_of is_v6 bytes) narrow)
                λ net. Ensures-slice_from b (1 + size) _ (omega arith) (
                  Ensures-bind
                    (decoded_total fuel (drop (1 + size) b) is_v6
                      (omega (arith, length-drop (1 + size) b)))
                    λ rest _. holds tt)))

  reached_total :
      (kind l : ℕ) (body : List ℕ) → l ≡ length body → Fine (reached {Net = Net} kind l body)
  unfolding reached
  reached_total kind l body e =
      Ensures-if (kind == 14 && leb 5 l)
        (λ long.
          let five : 5 ≤ length body = ground arith in
          Ensures-index body 2 (omega arith) λ safi _.
            Ensures-if (safi == 1)
              (λ _. Ensures-index body 3 (omega arith) λ hop_size _.
                Ensures-bind (u16b_total body (omega arith)) λ afi _.
                  Ensures-if (leb (5 + hop_size) l && (afi == 1 || afi == 2))
                    (λ inside.
                      let room : 5 + hop_size ≤ length body = ground arith in
                      Ensures-slice_from body (5 + hop_size) _ room
                        (decoded_total _ (drop (5 + hop_size) body) (afi == 2) (omega arith)))
                    (λ _. holds tt))
              (λ _. holds tt))
        (λ _. holds tt)

  attribute_routes_total :
      (fuel : ℕ) (b : List ℕ) → length b ≤ fuel → Fine (attribute_routes {Net = Net} fuel b)
  unfolding attribute_routes
  attribute_routes_total fuel [] h = holds tt
  attribute_routes_total zero (b ∷ bs) h = absurd (omega arith)
  attribute_routes_total (suc fuel) (b ∷ bs) le =
      let attrs = b ∷ bs in
      Ensures-if (ltb (length attrs) 3) (λ _. holds tt)
        λ long. Ensures-index attrs 1 (omega (arith, not-ltb→le (length attrs) 3 long)) λ kind _.
          let h : ℕ = if not (bit_and b 0x10 == 0) then 4 else 3 in
          Ensures-if (ltb (length attrs) h) (λ _. holds tt)
            λ header.
              let fit = not-ltb→le (length attrs) h header in
              Ensures-bind (length_total attrs h (ground arith) fit) λ l _.
                Ensures-if (ltb (length attrs) (h + l)) (λ _. holds tt)
                  λ whole.
                    let room = not-ltb→le (length attrs) (h + l) whole in
                    Ensures-slice attrs h (h + l) _ (omega arith) room (
                      Ensures-bind
                        (reached_total kind l (drop h (take (h + l) attrs)) (
                          omega
                            (arith, length-drop h (take (h + l) attrs), length-take (h + l) attrs)))
                        λ found _. Ensures-slice_from attrs (h + l) _ room (
                          Ensures-bind
                            (attribute_routes_total fuel (drop (h + l) attrs)
                              (ground (arith, length-drop (h + l) attrs)))
                            λ rest _. holds tt))

  -- `update_prefixes` returns a list of prefixes whatever the bytes: it neither panics nor fails,
  -- and its loops stop.
  pub update_prefixes_total :
      (b : List ℕ) → Ensures (λ e. ⊥) (λ routes. Unit {0}) (update_prefixes {Net = Net} b)
  unfolding update_prefixes
  update_prefixes_total b =
      Ensures-if (ltb (length b) 4) (λ _. holds tt)
        λ long.
          let four = not-ltb→le (length b) 4 long in
          Ensures-bind (u16b_total b (omega arith)) λ w _.
            Ensures-if (ltb (length b) (w + 4)) (λ _. holds tt)
              λ inside.
                let room = not-ltb→le (length b) (w + 4) inside in
                Ensures-bind (u16_from_total b (2 + w) (omega arith)) λ a _.
                  Ensures-if (ltb (length b) (w + a + 4)) (λ _. holds tt)
                    λ within.
                      let fit = not-ltb→le (length b) (w + a + 4) within in
                      Ensures-slice_from b (4 + w + a) _ (omega arith) (
                        Ensures-bind (decoded_total _ (drop (4 + w + a) b) false (omega arith))
                          λ plain _.
                            Ensures-slice b (4 + w) (4 + w + a) _ (omega arith) (omega arith) (
                              Ensures-bind
                                (attribute_routes_total _ (drop (4 + w) (take (4 + w + a) b))
                                  (omega arith))
                                λ routes _. holds tt))
