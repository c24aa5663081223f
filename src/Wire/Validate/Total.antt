-- ===== src/Wire/Validate/Total.antt =====
-- `validate_update` on any bytes: it returns, never panics, and every error is an UPDATE error.
use ubgp.Base.{
  ℕ, zero, suc, ◌+◌, ◌*◌, ◌%◌, ◌≤◌, ◌≡◌, refl, Bool, not, ◌&&◌, ◌||◌, List, [], ◌∷◌, length, take,
  drop, leb, ltb, ◌==◌, if◌then◌else◌, Result, Checked, ok, arith, length-drop, length-take, leb→le,
  not-ltb→le, bit_and, &&_parts, ltb→lt,
}
use ubgp.Base.Ensures.{
  Ensures, holds, rejected, of_Returns, Ensures-bind, Ensures-index, Ensures-slice,
  Ensures-slice_from, Ensures-if,
}
use ubgp.Net.IpNet.{div_ceil8}
use ubgp.Wire.Faults.{length_total, IsFault, Ensures-require, u16b_total, u16_from_total}
use ubgp.Wire.Open.{Negotiated}
use ubgp.Wire.Validate.{
  validate_nlri, validate_path, Scan, is_mp, is_discarded, is_ok, valid_value, reach_start,
  multiprotocol, attribute, attributes, conclude, validate_update,
}

abbrev Fine {ℓ} : {A : Type ℓ} → Result A → Type ℓ
Fine = Ensures (IsFault 3) (λ _. Unit)

pub validate_nlri_total :
    (fuel : ℕ) (b : List ℕ) (bits : ℕ) → length b ≤ fuel → Fine (validate_nlri fuel b bits)
unfolding validate_nlri
validate_nlri_total fuel [] bits h = holds tt
validate_nlri_total zero (b ∷ bs) bits h = absurd (omega arith)
validate_nlri_total (suc fuel) (b ∷ bs) bits h =
    Ensures-require (leb b bits && ltb (div_ceil8 b) (length (b ∷ bs))) 3 10 "invalid NLRI" _
      (λ good.
        let room = ltb→lt (div_ceil8 b) (length (b ∷ bs)) (&&_parts (leb b bits) _ good).1 in
        Ensures-slice_from (b ∷ bs) (div_ceil8 b + 1) _ (omega arith) (
          validate_nlri_total fuel (drop (div_ceil8 b + 1) (b ∷ bs)) bits
            (omega (arith, length-drop (div_ceil8 b + 1) (b ∷ bs)))))
      refl

validate_path_total :
    (fuel : ℕ) (b : List ℕ) (width : ℕ) → length b ≤ fuel → Fine (validate_path fuel b width)
unfolding validate_path
validate_path_total fuel [] width h = holds tt
validate_path_total zero (b ∷ bs) width h = absurd (omega arith)
validate_path_total (suc fuel) (b ∷ bs) width h =
    Ensures-require (leb 2 (length (b ∷ bs)) && leb 1 b && leb b 4) 3 11 "invalid AS_PATH segment" _
      (λ good.
        Ensures-index (b ∷ bs) 1 (leb→le 2 (length (b ∷ bs)) (ground (arith, good))) λ count _.
          Ensures-require (ltb 0 count) 3 11 "invalid AS_PATH segment" _
            (λ some_as.
              Ensures-require (leb (2 + width * count) (length (b ∷ bs))) 3 11 "truncated AS_PATH" _
                (λ room.
                  let fits = leb→le (2 + width * count) (length (b ∷ bs)) room in
                  Ensures-slice_from (b ∷ bs) (2 + width * count) _ fits (
                    validate_path_total fuel (drop (2 + width * count) (b ∷ bs)) width
                      (omega (arith, length-drop (2 + width * count) (b ∷ bs)))))
                refl)
            refl)
      refl

is_ok_total : (r : Checked) → Fine r → Fine (is_ok r)
is_ok_total _ (holds h) = holds tt
is_ok_total _ (rejected h) = holds tt

valid_value_total :
    (n : Negotiated) (flags kind l : ℕ) (body whole : List ℕ)
    → l ≡ length body
    → Fine (valid_value n flags kind l body whole)
unfolding valid_value
valid_value_total n flags kind l body whole h =
    Ensures-if (kind == 1)
      (λ _.
        Ensures-if (l == 1) (λ e. Ensures-index body 0 (ground arith) λ o _. holds tt)
          (λ _. holds tt))
      λ _.
        Ensures-if (kind == 2) (λ _. is_ok_total _ (validate_path_total _ body _ (omega arith)))
          λ _.
            Ensures-if (kind == 3)
              (λ _.
                Ensures-if (l == 4)
                  (λ e.
                    let four : 4 ≡ length body = ground arith in
                    Ensures-index body 0 (omega arith) λ _ _.
                      Ensures-index body 1 (omega arith) λ _ _.
                        Ensures-index body 2 (omega arith)
                          λ _ _. Ensures-index body 3 (omega arith) λ _ _. holds tt)
                  (λ _. holds tt))
              λ _.
                Ensures-if (kind == 4 || kind == 5 || kind == 9) (λ _. holds tt)
                  λ _.
                    Ensures-if (kind == 6) (λ _. holds tt)
                      λ _.
                        Ensures-if (kind == 7) (λ _. holds tt)
                          λ _.
                            Ensures-if (kind == 8 || kind == 10) (λ _. holds tt)
                              λ _.
                                Ensures-if (kind == 16) (λ _. holds tt)
                                  λ _.
                                    Ensures-if (kind == 17)
                                      (λ _.
                                        Ensures-if (leb 6 l && l % 2 == 0)
                                          (λ _. is_ok_total _ (
                                            validate_path_total (length body) body 4 (omega arith)))
                                          (λ _. holds tt))
                                      λ _.
                                        Ensures-if (kind == 18) (λ _. holds tt)
                                          λ _.
                                            Ensures-if (kind == 32) (λ _. holds tt)
                                              λ _.
                                                Ensures-if (bit_and flags 0x80 == 0)
                                                  (λ _. rejected refl) (λ _. holds tt)

reach_start_total :
    (l afi safi : ℕ) (body : List ℕ)
    → l ≡ length body
    → Ensures (IsFault 3) (λ start. start ≤ l) (reach_start l afi safi body)
unfolding reach_start
reach_start_total l afi safi body h =
    Ensures-if (leb 5 l)
      (λ five. Ensures-index body 3 (omega (arith, leb→le 5 l five)) λ size _.
        Ensures-require (leb (size + 5) l) 3 9 "invalid MP_REACH next hop" _
          (λ room.
            Ensures-require _ 3 9 "invalid MP_REACH next-hop size" _
              (λ _. holds {a = 5 + size} (omega (arith, leb→le (size + 5) l room))) refl)
          refl)
      (λ _. rejected refl)

start_total :
    (kind l afi safi : ℕ) (body : List ℕ)
    → l ≡ length body
    → 3 ≤ l
    → Ensures
        (IsFault 3)
        (λ start. start ≤ l)
        (if kind == 14 then reach_start l afi safi body else ok 3)
start_total kind l afi safi body h three =
    Ensures-if (kind == 14) (λ _. reach_start_total l afi safi body h) (λ _. holds three)

multiprotocol_total :
    (flags_ok : Bool) (kind l : ℕ) (body : List ℕ) (s : Scan)
    → l ≡ length body
    → Fine (multiprotocol flags_ok kind l body s)
unfolding multiprotocol
multiprotocol_total flags_ok kind l body s h =
    Ensures-require flags_ok 3 9 "invalid multiprotocol attribute flags" _
      (λ _.
        Ensures-require (leb 3 l) 3 9 "short multiprotocol attribute" _
          (λ long.
            let three = leb→le 3 l long in
            Ensures-bind (u16b_total body (omega arith)) λ afi _.
              Ensures-index body 2 (omega arith) λ safi _.
                Ensures-bind (start_total kind l afi safi body h three) λ start inside.
                  Ensures-if (safi == 1 && (afi == 1 || afi == 2))
                    (λ _. Ensures-slice_from body start _ (omega arith) (
                      Ensures-bind (validate_nlri_total _ (drop start body) _ (omega arith))
                        λ _ _. holds tt))
                    (λ _. holds tt))
          refl)
      refl

attribute_total :
    (n : Negotiated) (flags kind l : ℕ) (body whole : List ℕ) (s : Scan)
    → l ≡ length body
    → Fine (attribute n flags kind l body whole s)
unfolding attribute
attribute_total n flags kind l body whole s h =
    Ensures-if (s.seen kind)
      (λ _.
        Ensures-require (not (is_mp kind)) 3 1 "duplicate multiprotocol attribute" _ (λ _. holds tt)
          refl)
      λ _.
        Ensures-if (is_discarded n kind) (λ _. holds tt)
          λ _.
            Ensures-if (is_mp kind) (λ _. multiprotocol_total _ kind l body _ h)
              λ _. Ensures-bind (valid_value_total n flags kind l body whole h) λ _ _. holds tt

attributes_total :
    (fuel : ℕ) (n : Negotiated) (attrs : List ℕ) (s : Scan)
    → length attrs ≤ fuel
    → Fine (attributes fuel n attrs s)
unfolding attributes
attributes_total fuel n [] s h = holds tt
attributes_total zero n (b ∷ bs) s h = absurd (omega arith)
attributes_total (suc fuel) n (b ∷ bs) s le =
    let attrs = b ∷ bs in
    Ensures-if (ltb (length attrs) 3) (λ _. holds tt)
      λ long. Ensures-index attrs 1 (omega (arith, not-ltb→le (length attrs) 3 long)) λ kind _.
        let h : ℕ = if not (bit_and b 0x10 == 0) then 4 else 3 in
        Ensures-if (ltb (length attrs) h)
          (λ _.
            Ensures-require (not (is_mp kind)) 3 9 "short multiprotocol attribute header" _
              (λ _. holds tt) refl)
          λ header.
            let fits = not-ltb→le (length attrs) h header in
            Ensures-bind (length_total attrs h (ground arith) fits) λ l _.
              Ensures-if (ltb (length attrs) (h + l))
                (λ _.
                  Ensures-require (not (is_mp kind)) 3 9 "truncated multiprotocol attribute" _
                    (λ _. holds tt) refl)
                λ whole.
                  let room = not-ltb→le (length attrs) (h + l) whole in
                  Ensures-slice attrs h (h + l) _ (omega arith) room (
                    Ensures-slice attrs 0 (h + l) _ (omega arith) room (
                      Ensures-bind
                        (attribute_total n b kind l (drop h (take (h + l) attrs)) _ s (
                          omega
                            (arith, length-drop h (take (h + l) attrs), length-take (h + l) attrs)))
                        λ s' _. Ensures-slice_from attrs (h + l) _ room (
                          attributes_total fuel n (drop (h + l) attrs) s'
                            (ground (arith, length-drop (h + l) attrs)))))

conclude_total : (n : Negotiated) (tail : List ℕ) (s : Scan) → Fine (conclude n tail s)
unfolding conclude
conclude_total n tail s = of_Returns (conclude n tail s) (ground arith)

-- On any bytes `validate_update` returns, with an action or with a protocol error of code 3. It
-- neither panics nor runs out of fuel.
pub validate_update_total :
    (b : List ℕ) (n : Negotiated) → Ensures (IsFault 3) (λ _. Unit) (validate_update b n)
unfolding validate_update
validate_update_total b n =
    Ensures-require (leb 4 (length b)) 3 1 "short UPDATE" _
      (λ long.
        let four = leb→le 4 (length b) long in
        Ensures-bind (u16b_total b (omega arith)) λ w _.
          Ensures-require (leb (w + 4) (length b)) 3 1 "invalid withdrawn length" _
            (λ room.
              let inside = leb→le (w + 4) (length b) room in
              Ensures-slice b 2 (2 + w) _ (omega arith) (omega arith) (
                Ensures-bind (validate_nlri_total _ (drop 2 (take (2 + w) b)) 32 (omega arith))
                  λ _ _. Ensures-bind (u16_from_total b (2 + w) (omega arith)) λ a _.
                    Ensures-require (leb (w + a + 4) (length b)) 3 1 "invalid attributes length" _
                      (λ fit.
                        let within = leb→le (w + a + 4) (length b) fit in
                        Ensures-slice_from b (4 + w + a) _ (omega arith) (
                          Ensures-bind (validate_nlri_total _ (drop (4 + w + a) b) 32 (omega arith))
                            λ _ _.
                              Ensures-slice b (4 + w) (4 + w + a) _ (omega arith) (omega arith) (
                                Ensures-bind
                                  (attributes_total _ n (drop (4 + w) (take (4 + w + a) b)) _
                                    (omega arith))
                                  λ s _. conclude_total n (drop (4 + w + a) b) s)))
                      refl))
            refl)
      refl
