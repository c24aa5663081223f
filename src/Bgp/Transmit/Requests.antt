-- ===== src/Bgp/Transmit/Requests.antt =====
-- The requests for a refresh that are pending, and their families, for `Refresh` of src/bgp.rs.
use ubgp.Base.{
  ℕ, ◌≡◌, refl, sym, ◌∙◌, Bool, true, false, not, ◌&&◌, ◌||◌, List, [], ◌∷◌, bit_and, arith,
}
use ubgp.Bgp.Receive.{request}
use ubgp.Bgp.Transmit.{family_bits}

-- The requests of the peer since the last were taken, the newest first; `true` is IPv6.
unfoldable pub pend : List Bool → ℕ
pend [] = 0
pend (is_v6 ∷ asked) = request is_v6 (pend asked)

pub pend_none : pend [] ≡ 0
unfolding pend
pend_none = refl

-- Whether a family is among them.
pub asks : List Bool → Bool → Bool
asks [] is_v6 = false
asks (true ∷ asked) true = true
asks (false ∷ asked) false = true
asks (true ∷ asked) false = asks asked false
asks (false ∷ asked) true = asks asked true

-- A set of families: 1 for IPv4, and 2 for IPv6.
unfoldable pub bits : Bool → Bool → ℕ
bits false false = 0
bits true false = 1
bits false true = 2
bits true true = 3

request-bits :
    (is_v6 ipv4 ipv6 : Bool)
    → request is_v6 (bits ipv4 ipv6) ≡ bits (not is_v6 || ipv4) (is_v6 || ipv6)
unfolding bits
request-bits true true true = refl
request-bits true true false = refl
request-bits true false true = refl
request-bits true false false = refl
request-bits false true true = refl
request-bits false true false = refl
request-bits false false true = refl
request-bits false false false = refl

asks_cons :
    (is_v6 : Bool) (asked : List Bool)
    → (asks (is_v6 ∷ asked) false ≡ (not is_v6 || asks asked false))
      × (asks (is_v6 ∷ asked) true ≡ (is_v6 || asks asked true))
unfolding asks
asks_cons true asked = (refl, refl)
asks_cons false asked = (refl, refl)

pub pend-bits : (asked : List Bool) → pend asked ≡ bits (asks asked false) (asks asked true)
unfolding pend bits asks
pend-bits [] = refl
pend-bits (is_v6 ∷ asked) =
    rw
      (
        pend-bits asked,
        request-bits is_v6 (asks asked false) (asks asked true),
        (asks_cons is_v6 asked).0,
        (asks_cons is_v6 asked).1,
      )
      refl

bits_zero : (ipv4 ipv6 : Bool) → bits ipv4 ipv6 ≡ 0 → (ipv4 ≡ false) × (ipv6 ≡ false)
unfolding bits
bits_zero false false h = (refl, refl)
bits_zero true false h = absurd (omega (arith, h))
bits_zero false true h = absurd (omega (arith, h))
bits_zero true true h = absurd (omega (arith, h))

nothing_asked :
    (is_v6 : Bool) (asked : List Bool)
    → asks (is_v6 ∷ asked) false ≡ (not is_v6 || asks asked false)
    → asks (is_v6 ∷ asked) true ≡ (is_v6 || asks asked true)
    → asks (is_v6 ∷ asked) false ≡ false
    → asks (is_v6 ∷ asked) true ≡ false
    → is_v6 ∷ asked ≡ []
nothing_asked true asked e4 e6 n4 n6 = cc
nothing_asked false asked e4 e6 n4 n6 = cc

pub no_requests : (asked : List Bool) → pend asked ≡ 0 → asked ≡ []
no_requests [] h = refl
no_requests (is_v6 ∷ asked) h =
    let (none4, none6) = bits_zero _ _ (sym (pend-bits (is_v6 ∷ asked)) ∙ h) in
    nothing_asked is_v6 asked ((asks_cons is_v6 asked).0) ((asks_cons is_v6 asked).1) none4 none6

-- The families of the markers.
pub markers_due :
    (a b v4 v6 : Bool) → bit_and (bits a b) (family_bits v4 v6) ≡ bits (a && v4) (b && v6)
unfolding bits
markers_due true true true true = refl
markers_due true true true false = refl
markers_due true true false true = refl
markers_due true true false false = refl
markers_due true false true true = refl
markers_due true false true false = refl
markers_due true false false true = refl
markers_due true false false false = refl
markers_due false true true true = refl
markers_due false true true false = refl
markers_due false true false true = refl
markers_due false true false false = refl
markers_due false false true true = refl
markers_due false false true false = refl
markers_due false false false true = refl
markers_due false false false false = refl
