-- ===== src/Bgp/Listeners/Routed.antt =====
-- Where the connections of a valid configuration go.
use ubgp.Base.{
  subst, ℕ, suc, ◌≡◌, refl, sym, ◌∙◌, ap, Bool, true, false, ◌&&◌, Option, none, some, List, [],
  ◌∷◌, Str, str_eq, same, same_iff, contains, All, if◌then◌else◌, Bool-cases, ◌↔◌, inl, inr, ok,
  arith,
}
use ubgp.Net.Addr.{IpAddr, ip_eq}
use ubgp.Net.IpNet.{IpNet}
use ubgp.Config.{Peer, Config}
use ubgp.Config.Validate.{validate, Endpoint, endpoint, endpoint_eq}
use ubgp.Config.Validate.Exact.{Distinct, validate-IsValidConfig}
use ubgp.Bgp.Listeners.{
  ListenerPeers, insert_peer, find_peer, Listeners, same_listener, insert_entry, find_listener,
  add_peers, route_to,
}

-- The peer's connections come from `remote` at the listener `key`.
abbrev pub is_from : IpAddr × Str → IpAddr → Peer → Bool
is_from key remote p = same_listener key (p.local_address, p.interface) && same remote p.address

-- The place of the first such peer, counted from `i`.
abbrev pub place_from : IpAddr × Str → IpAddr → ℕ → List Peer → Option ℕ
place_from key remote i [] = none
place_from key remote i (p ∷ ps) =
    if is_from key remote p then some i else place_from key remote (suc i) ps

find_peer-insert :
    (remote a : IpAddr) (i : ℕ) (peers : ListenerPeers)
    → find_peer remote (insert_peer a i peers)
      ≡ (if same remote a then some i else find_peer remote peers)
unfolding find_peer insert_peer
find_peer-insert remote a i [] = refl
find_peer-insert remote a i ((b, j) ∷ rest) =
    ground
      (arith, same_iff a b, same_iff remote a, same_iff remote b, find_peer-insert remote a i rest)

same_listener_iff : (k l : IpAddr × Str) → (same_listener k l ≡ true) ↔ (k ≡ l)
same_listener_iff k l = ground (arith, same_iff k.0 l.0, same_iff k.1 l.1)

others :
    (k l key : IpAddr × Str)
    → same_listener k l ≡ false
    → same_listener key l ≡ true
    → same_listener key k ≡ false
others k l key other met = elim (Bool-cases (same_listener key k)) [
  | inl both ↦
      let equal : k ≡ l =
        sym ((same_listener_iff key k).0 both) ∙ (same_listener_iff key l).0 met in
      let met' = (same_listener_iff k l).1 equal in cc
  | inr e ↦ e
]

-- Where a connection from `remote` at the listener `key` goes.
goes_to : IpAddr × Str → IpAddr → Listeners → Option ℕ
goes_to key remote listeners = find_peer remote (find_listener key listeners)

goes_to-insert :
    (key k : IpAddr × Str) (remote a : IpAddr) (i : ℕ) (listeners : Listeners)
    → goes_to key remote (insert_entry k a i listeners)
      ≡ (if same_listener key k && same remote a then some i else goes_to key remote listeners)
unfolding goes_to find_listener insert_entry find_peer
goes_to-insert key k remote a i [] =
    ground (arith, same_listener_iff key k, find_peer-insert remote a i [])
goes_to-insert key k remote a i ((l, peers) ∷ rest) = elim (Bool-cases (same_listener k l)) [
  | inl here ↦
      let equal : same_listener key k ≡ same_listener key l =
        ap (same_listener key) ((same_listener_iff k l).0 here) in
      elim (Bool-cases (same_listener key l)) [
        | inl met ↦ rw (here, equal, met) (find_peer-insert remote a i peers)
        | inr e ↦ rw (here, equal, e) refl
      ]
  | inr other ↦ elim (Bool-cases (same_listener key l)) [
    | inl met ↦ rw (other, met, others k l key other met) refl
    | inr e ↦ rw (other, e) (goes_to-insert key k remote a i rest)
  ]
]

-- The place of the last such peer, or `found` when there is none.
last_place : IpAddr × Str → IpAddr → ℕ → List Peer → Option ℕ → Option ℕ
last_place key remote i [] found = found
last_place key remote i (p ∷ ps) found =
    last_place key remote (suc i) ps (if is_from key remote p then some i else found)

goes_to-add_peers :
    (key : IpAddr × Str) (remote : IpAddr) (i : ℕ) (ps : List Peer) (listeners : Listeners)
    → goes_to key remote (add_peers i ps listeners)
      ≡ last_place key remote i ps (goes_to key remote listeners)
unfolding add_peers last_place
goes_to-add_peers key remote i [] listeners = refl
goes_to-add_peers key remote i (p ∷ ps) listeners =
    goes_to-add_peers key remote (suc i) ps _
    ∙ ap (last_place key remote (suc i) ps)
        (goes_to-insert key (p.local_address, p.interface) remote p.address i listeners)

-- No such peer.
Absent : IpAddr × Str → IpAddr → List Peer → Type 0
Absent key remote ps = All (λ p. is_from key remote p ≡ false) ps

last_place-Absent :
    (key : IpAddr × Str) (remote : IpAddr) (i : ℕ) (ps : List Peer) (found : Option ℕ)
    → Absent key remote ps
    → last_place key remote i ps found ≡ found
unfolding last_place Absent
last_place-Absent key remote i [] found h = refl
last_place-Absent key remote i (p ∷ ps) found (h, hs) =
    rw h (last_place-Absent key remote (suc i) ps found hs)

is_from_iff :
    (key : IpAddr × Str) (remote : IpAddr) (p : Peer)
    → (is_from key remote p ≡ true) ↔ (endpoint p ≡ (remote, key.0, key.1))
is_from_iff key remote p =
    ground
      (arith, same_iff key.0 p.local_address, same_iff key.1 p.interface, same_iff remote p.address)

Distinct-Absent :
    (key : IpAddr × Str) (remote : IpAddr) (seen : List Endpoint) (ps : List Peer)
    → contains seen (remote, key.0, key.1) ≡ true
    → Distinct seen ps
    → Absent key remote ps
unfolding Absent
Distinct-Absent key remote seen [] met h = tt
Distinct-Absent key remote seen (p ∷ ps) met (new, h) = (
  elim (Bool-cases (is_from key remote p)) [
    | inl here ↦
        let held =
          subst (λ e. contains seen e ≡ true) (sym ((is_from_iff key remote p).0 here)) met in
        cc
    | inr e ↦ e
  ],
  Distinct-Absent key remote (endpoint p ∷ seen) ps (ground arith) h,
)

contains_first : {e e' : Endpoint} (seen : List Endpoint) → e ≡ e' → contains (e ∷ seen) e' ≡ true
contains_first {e} {e'} seen h = rw ((same_iff e e').1 h) refl

last_place-place :
    (key : IpAddr × Str) (remote : IpAddr) (i : ℕ) (seen : List Endpoint) (ps : List Peer)
    → Distinct seen ps
    → last_place key remote i ps none ≡ place_from key remote i ps
unfolding last_place
last_place-place key remote i seen [] h = refl
last_place-place key remote i seen (p ∷ ps) (new, h) = elim (Bool-cases (is_from key remote p)) [
  | inl here ↦ rw here (
      last_place-Absent key remote (suc i) ps (some i) (
        Distinct-Absent key remote (endpoint p ∷ seen) ps
          (contains_first seen ((is_from_iff key remote p).0 here)) h))
  | inr e ↦ rw e (last_place-place key remote (suc i) (endpoint p ∷ seen) ps h)
]

module _ {Net : Type 0} ⦃ops : IpNet Net⦄ where
  -- In a configuration that `validate` has accepted, a connection goes to the one peer that has its
  -- remote address at this local address and interface, and to none when there is no such peer.
  pub route_to-place_from :
      (c : Config Net) (key : IpAddr × Str) (remote : IpAddr)
      → validate c ≡ ok tt
      → route_to c.peers key remote ≡ place_from key remote 0 c.peers
  unfolding goes_to find_listener find_peer
  route_to-place_from c key remote valid =
      goes_to-add_peers key remote 0 c.peers []
      ∙ last_place-place key remote 0 [] c.peers ((validate-IsValidConfig c).0 valid).endpoints
