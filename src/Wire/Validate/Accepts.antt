-- ===== src/Wire/Validate/Accepts.antt =====
-- The validator on what the encoder writes: NLRI, one attribute, AS_PATH.
use ubgp.Base.{
  ℕ, zero, suc, ◌+◌, ◌≤◌, ◌<◌, ◌≡◌, refl, true, false, List, [], ◌∷◌, ◌++◌, length, take, All,
  length-append, length-take, ok, ◌>>=◌, arith, if◌then◌else◌, ltb, ◌==◌, le→leb, le→not-ltb,
  lt→ltb, Bool-cases, inl, inr, not-ltb→le, bit_and, bit_or, ◌/◌, ◌%◌, be_u16,
}
use ubgp.Base.Slices.{slice_middle, slice_from-append}
use ubgp.Net.Addr.{octets}
use ubgp.Net.IpNet.{IpNet, IpNetLaws, div_ceil8}
use ubgp.Wire.Open.{Negotiated}
use ubgp.Wire.Update.{attr}
use ubgp.Wire.Update.Nlri.{prefix_bytes, batch_bytes, octets_suffice}
use ubgp.Wire.Validate.{validate_nlri, Scan, attribute, attributes}

module _ {Net : Type 0} ⦃ops : IpNet Net⦄ (laws : IpNetLaws ops) where
  open ops use {addr, prefix_len, network}

  pub validate_nlri-batch :
      (fuel : ℕ) (ps : List Net) (bits : ℕ)
      → length (batch_bytes ps) ≤ fuel
      → All (λ p. prefix_len p ≤ bits) ps
      → validate_nlri fuel (batch_bytes ps) bits ≡ ok tt
  unfolding validate_nlri
  validate_nlri-batch fuel [] bits h a = refl
  validate_nlri-batch zero (p ∷ ps) bits h a = absurd (omega arith)
  validate_nlri-batch (suc fuel) (p ∷ ps) bits h a =
      let head = take (div_ceil8 (prefix_len p)) (octets (network p)) in
      let n : div_ceil8 (prefix_len p) ≡ length head = omega (
        arith,
        length-take (div_ceil8 (prefix_len p)) (octets (network p)),
        octets_suffice laws p,
      ) in
      rw
        (
          le→leb (prefix_len p) bits a.0,
          lt→ltb (div_ceil8 (prefix_len p)) (length (prefix_bytes p ++ batch_bytes ps))
              (omega (arith, length-append head (batch_bytes ps))),
          slice_from-append (prefix_bytes p) (batch_bytes ps) (div_ceil8 (prefix_len p) + 1)
              (omega arith),
        )
        (validate_nlri-batch fuel ps bits (omega (arith, length-append head (batch_bytes ps))) a.1)

-- A header of three bytes, and one of four, in front of a value of the length that it states.
attributes-short :
    (fuel : ℕ) (n : Negotiated) (flags kind : ℕ) (body rest : List ℕ) (s : Scan)
    → (bit_and flags 0x10 == 0) ≡ true
    → attributes (suc fuel) n (flags ∷ kind ∷ length body ∷ (body ++ rest)) s ≡ (
        attribute n flags kind (length body) body (flags ∷ kind ∷ length body ∷ body) s >>= λ s'.
        attributes fuel n rest s')
unfolding attributes
attributes-short fuel n flags kind body rest s plain =
    let head : List ℕ = flags ∷ kind ∷ length body ∷ [] in
    let size : length (head ++ (body ++ rest)) ≡ 3 + length body + length rest =
      omega (arith, length-append body rest) in
    rw (
      plain,
      le→not-ltb (length (head ++ (body ++ rest))) 3 (omega arith),
      le→not-ltb (length (head ++ (body ++ rest))) (3 + length body) (omega arith),
      slice_middle head body rest 3 (3 + length body) refl (omega arith),
      slice_middle [] (head ++ body) rest 0 (3 + length body) refl (omega arith),
      slice_from-append (head ++ body) rest (3 + length body) (omega arith),
    )

attributes-long :
    (fuel : ℕ) (n : Negotiated) (flags kind : ℕ) (body rest : List ℕ) (s : Scan)
    → (bit_and flags 0x10 == 0) ≡ false
    → length body < 65536
    → attributes
        (suc fuel)
        n
        (flags ∷ kind ∷ length body / 256 % 256 ∷ length body % 256 ∷ (body ++ rest))
        s
      ≡ (attribute n flags kind
            (length body)
            body
            (flags ∷ kind ∷ length body / 256 % 256 ∷ length body % 256 ∷ body)
            s
          >>= λ s'. attributes fuel n rest s')
unfolding attributes
attributes-long fuel n flags kind body rest s extended fits =
    let head : List ℕ = flags ∷ kind ∷ length body / 256 % 256 ∷ length body % 256 ∷ [] in
    let size : length (head ++ (body ++ rest)) ≡ 4 + length body + length rest =
      omega (arith, length-append body rest) in
    let read : be_u16 (length body / 256 % 256) (length body % 256) ≡ length body = omega arith in
    rw (
      extended,
      le→not-ltb (length (head ++ (body ++ rest))) 3 (omega arith),
      le→not-ltb (length (head ++ (body ++ rest))) 4 (omega arith),
      slice_from-append (flags ∷ kind ∷ [])
          (length body / 256 % 256 ∷ length body % 256 ∷ (body ++ rest)) 2 refl,
      read,
      le→not-ltb (length (head ++ (body ++ rest))) (4 + length body) (omega arith),
      slice_middle head body rest 4 (4 + length body) refl (omega arith),
      slice_middle [] (head ++ body) rest 0 (4 + length body) refl (omega arith),
      slice_from-append (head ++ body) rest (4 + length body) (omega arith),
    )

abbrev pub attr_flags : ℕ → List ℕ → ℕ
attr_flags flags body = bit_or flags (if ltb 255 (length body) then 0x10 else 0)

-- The extended-length bit of `attr` agrees with the header that it writes.
abbrev pub IsPlain : ℕ → Type 0
IsPlain flags =
    ((bit_and (bit_or flags 0) 0x10 == 0) ≡ true)
    × ((bit_and (bit_or flags 0x10) 0x10 == 0) ≡ false)

-- One round of the loop on an attribute that `attr` wrote.
pub attributes-attr :
    (fuel : ℕ) (n : Negotiated) (flags kind : ℕ) (body rest : List ℕ) (s : Scan)
    → IsPlain flags
    → length body < 65536
    → attributes (suc fuel) n (attr flags kind body ++ rest) s ≡ (
        attribute n (attr_flags flags body) kind (length body) body (attr flags kind body) s
        >>= λ s'. attributes fuel n rest s')
attributes-attr fuel n flags kind body rest s plain fits =
    elim (Bool-cases (ltb 255 (length body))) [
      | inl long ↦
          let word : length body % 65536 ≡ length body = omega arith in
          rw (long, word) (attributes-long fuel n (bit_or flags 0x10) kind body rest s plain.1 fits)
      | inr short ↦
          let byte : length body % 256 ≡ length body =
            omega (arith, not-ltb→le 255 (length body) short) in
          rw (short, byte) (attributes-short fuel n (bit_or flags 0) kind body rest s plain.0)
    ]
