-- ===== src/Bgp/Choose/Agreement.antt =====
-- Both ends of a pair of connections keep the same one.
use ubgp.Base.{
  ap, ◌<◌, List, [], ◌∷◌, length, inl, inr, ℕ, ◌≡◌, ◌≢◌, ◌⊎◌, refl, ◌∙◌, Bool, true, false, not,
  ◌&&◌, ◌||◌, ltb, ◌==◌, arith,
}
use ubgp.Net.Addr.{Ipv4Addr, ipv4_from, octets_v4, lt_octets}
use ubgp.Config.{Config, Peer}
use ubgp.Wire.Open.{Negotiated}
use ubgp.Bgp.Choose.{prefer_incoming}

-- How two lists of octets can stand to each other.
data Order (xs ys : List ℕ) : Type 0 where
  below : lt_octets xs ys ≡ true → lt_octets ys xs ≡ false → Order xs ys
  above : lt_octets xs ys ≡ false → lt_octets ys xs ≡ true → Order xs ys
  equal : xs ≡ ys → lt_octets xs ys ≡ false → lt_octets ys xs ≡ false → Order xs ys

first_below :
    (x y : ℕ) (b d : Bool)
    → x < y
    → ((ltb x y || x == y && b) ≡ true) × ((ltb y x || y == x && d) ≡ false)
first_below x y b d h = ground arith

first_equal :
    (x y : ℕ) (b d : Bool) → x ≡ y → ((ltb x y || x == y && b) ≡ b) × ((ltb y x || y == x && d) ≡ d)
first_equal x y b d h = ground arith

cons-Order : (x y : ℕ) (xs ys : List ℕ) → x ≡ y → Order xs ys → Order (x ∷ xs) (y ∷ ys)
cons-Order x y xs ys e (below h k) =
    let parts = first_equal x y (lt_octets xs ys) (lt_octets ys xs) e in
    below (parts.0 ∙ h) (parts.1 ∙ k)
cons-Order x y xs ys e (above h k) =
    let parts = first_equal x y (lt_octets xs ys) (lt_octets ys xs) e in
    above (parts.0 ∙ h) (parts.1 ∙ k)
cons-Order x y xs ys e (equal f h k) =
    let parts = first_equal x y (lt_octets xs ys) (lt_octets ys xs) e in
    equal (cc) (parts.0 ∙ h) (parts.1 ∙ k)

ℕ-cases : (x y : ℕ) → (x < y) ⊎ ((x ≡ y) ⊎ (y < x))
ℕ-cases x y = ground arith

order : (xs ys : List ℕ) → length xs ≡ length ys → Order xs ys
order [] [] h = equal refl refl refl
order [] (y ∷ ys) h = absurd (omega arith)
order (x ∷ xs) [] h = absurd (omega arith)
order (x ∷ xs) (y ∷ ys) h = elim (ℕ-cases x y) [
  | inl less ↦
      let parts = first_below x y (lt_octets xs ys) (lt_octets ys xs) less in below parts.0 parts.1
  | inr (inl e) ↦ cons-Order x y xs ys e (order xs ys (omega arith))
  | inr (inr more) ↦
      let parts = first_below y x (lt_octets ys xs) (lt_octets xs ys) more in above parts.1 parts.0
]

abbrev less_pair : List ℕ → List ℕ → ℕ → ℕ → Bool
less_pair xs ys a b = lt_octets xs ys || not (lt_octets ys xs) && ltb a b

opposite : (a b : ℕ) → a ≢ b → (false || true && ltb a b) ≡ not (false || true && ltb b a)
opposite a b h = ground arith

decided :
    (xs ys : List ℕ) (a b : ℕ)
    → Order xs ys
    → (xs ≢ ys) ⊎ (a ≢ b)
    → less_pair xs ys a b ≡ not (less_pair ys xs b a)
decided xs ys a b (below h k) distinct = rw (h, k) refl
decided xs ys a b (above h k) distinct = rw (h, k) refl
decided xs ys a b (equal e h k) (inl other) = absurd (other e)
decided xs ys a b (equal e h k) (inr other) = rw (h, k) (opposite a b other)

same_octets : (a b : Ipv4Addr) → octets_v4 a ≡ octets_v4 b → a ≡ b
same_octets a b h = ap ipv4_from h

octets_differ :
    (x y : Ipv4Addr) (a b : ℕ) → (x ≢ y) ⊎ (a ≢ b) → (octets_v4 x ≢ octets_v4 y) ⊎ (a ≢ b)
octets_differ x y a b (inl other) = inl (λ e. other (same_octets x y e))
octets_differ x y a b (inr other) = inr other

module _ {Net : Type 0} where
  -- Two routers that know each other's ASN and router ID, one of which differs, prefer opposite
  -- directions: the connection that one end prefers as incoming is the other's outgoing one.
  pub prefer_incoming-agreement :
      (here there : Config Net) (to_there to_here : Peer) (n_here n_there : Negotiated)
      → to_there.remote_asn ≡ there.asn
      → to_here.remote_asn ≡ here.asn
      → n_here.router_id ≡ there.router_id
      → n_there.router_id ≡ here.router_id
      → (here.router_id ≢ there.router_id) ⊎ (here.asn ≢ there.asn)
      → prefer_incoming here to_there n_here ≡ not (prefer_incoming there to_here n_there)
  unfolding prefer_incoming
  prefer_incoming-agreement here there to_there to_here n_here n_there a b r s distinct =
      rw (a, b, r, s)
        (decided (octets_v4 here.router_id) (octets_v4 there.router_id) here.asn there.asn
          (order (octets_v4 here.router_id) (octets_v4 there.router_id) refl)
          (octets_differ here.router_id there.router_id here.asn there.asn distinct))
