-- ===== src/Bgp/Local/Owned.antt =====
-- What a successful check says of the addresses.
use ubgp.Base.{
  ◌≡◌, ◌⊎◌, inl, inr, refl, Bool, true, false, not, ◌||◌, Option, none, some, List, [], ◌∷◌,
  contains, same, same_iff, arith, Bool-cases,
}
use ubgp.Base.Ensures.{Checks, holds, rejected, Ensures-bind, ensure-Checks}
use ubgp.Net.Addr.{Ipv4Addr, Ipv6Addr, IpAddr, v4, v6, ip_eq, is_unicast_link_local}
use ubgp.Config.{Peer, nh4, nh6, or_else}
use ubgp.Config.Validate.{is_some_and, is_none_or}
use ubgp.Bgp.Local.{Interface, ips_of, link_local_of, find_link_local, check_local_addresses}

or_true : (b : Bool) → (b || true) ≡ true
or_true true = refl
or_true false = refl

-- A link-local address among these.
abbrev pub IsLinkLocal : List IpAddr → Option Ipv6Addr → Type 0
IsLinkLocal ips none = Unit
IsLinkLocal ips (some a) = (contains ips (v6 a) ≡ true) × (is_unicast_link_local a ≡ true)

-- The local address and the next hops of the families that are on are among these.
pub record Owned (ips : List IpAddr) (p : Peer) : Type 0 where
  pub local : contains ips p.local_address ≡ true
  pub hop_v4 : (p.ipv4 ≡ false) ⊎ ((a : Ipv4Addr) × (nh4 p ≡ some a) × (contains ips (v4 a) ≡ true))
  pub hop_v6 : (p.ipv6 ≡ false) ⊎ ((a : Ipv6Addr) × (nh6 p ≡ some a) × (contains ips (v6 a) ≡ true))
  pub hop_link_local :
      (p.next_hop_v6_link_local ≡ none)
      ⊎ ((a : Ipv6Addr) × (p.next_hop_v6_link_local ≡ some a) × (contains ips (v6 a) ≡ true))

abbrev pub OwnedOn : Option (List Interface) → Peer → Option Ipv6Addr → Type 0
OwnedOn none p found = ⊥
OwnedOn (some interfaces) p found =
    Owned (ips_of p.interface interfaces) p × IsLinkLocal (ips_of p.interface interfaces) found

IsLinkLocal-later :
    (a : IpAddr) (ips : List IpAddr) (found : Option Ipv6Addr)
    → IsLinkLocal ips found
    → IsLinkLocal (a ∷ ips) found
IsLinkLocal-later a ips none h = tt
IsLinkLocal-later a ips (some b) (held, local) = (rw held (or_true (same a (v6 b))), local)

first-IsLinkLocal :
    (a : IpAddr) (ips : List IpAddr) (found : Option Ipv6Addr)
    → IsLinkLocal ips found
    → IsLinkLocal (a ∷ ips) (or_else (link_local_of a) found)
first-IsLinkLocal (v4 a) ips found h = IsLinkLocal-later (v4 a) ips found h
first-IsLinkLocal (v6 a) ips found h = elim (Bool-cases (is_unicast_link_local a)) [
  | inl local ↦ rw local (rw ((same_iff (v6 a) (v6 a)).1 refl) refl, local)
  | inr e ↦ rw e (IsLinkLocal-later (v6 a) ips found h)
]

find_link_local-IsLinkLocal : (ips : List IpAddr) → IsLinkLocal ips (find_link_local ips)
unfolding find_link_local
find_link_local-IsLinkLocal [] = tt
find_link_local-IsLinkLocal (a ∷ ips) =
    first-IsLinkLocal a ips (find_link_local ips) (find_link_local-IsLinkLocal ips)

-- When the check succeeds, the local address and each next hop of a family that is on are
-- addresses of the peering interface, and what it returns is a link-local address of it.
pub check_local_addresses-Owned :
    (interfaces : Option (List Interface)) (p : Peer)
    → Checks (OwnedOn interfaces p) (check_local_addresses interfaces p)
unfolding check_local_addresses
check_local_addresses-Owned none p = rejected tt
check_local_addresses-Owned (some interfaces) p =
    let ips = ips_of p.interface interfaces in
    Ensures-bind (ensure-Checks (contains ips p.local_address) _) λ u local.
      Ensures-bind (ensure-Checks (not p.ipv4 || is_some_and (nh4 p) (λ a. contains ips (v4 a))) _)
        λ u' hop4.
          Ensures-bind
            (ensure-Checks (not p.ipv6 || is_some_and (nh6 p) (λ a. contains ips (v6 a))) _)
            λ u'' hop6.
              Ensures-bind
                (ensure-Checks (is_none_or p.next_hop_v6_link_local (λ a. contains ips (v6 a))) _)
                λ u3 hop. holds (
                  record {
                    local = local;
                    hop_v4 = ground arith;
                    hop_v6 = ground arith;
                    hop_link_local = ground arith;
                  },
                  find_link_local-IsLinkLocal ips,
                )
