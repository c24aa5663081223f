-- ===== src/Net/Addr.antt =====
-- std::net addresses: an IPv4 address is four octets, an IPv6 address sixteen.
use native.Mathlib.Decide.{ℕ_discrete}
use ubgp.Base.{
  ℕ, zero, suc, ◌/◌, Bool, true, false, ◌&&◌, ◌||◌, List, [], ◌∷◌, ◌==◌, ltb, leb, Eq, same, str_eq,
  all, ◌≡◌, refl,
}

pub record Ipv4Addr : Type 0 where
  pub a : ℕ
  pub b : ℕ
  pub c : ℕ
  pub d : ℕ

pub record Ipv6Addr : Type 0 where
  pub o0 : ℕ
  pub o1 : ℕ
  pub o2 : ℕ
  pub o3 : ℕ
  pub o4 : ℕ
  pub o5 : ℕ
  pub o6 : ℕ
  pub o7 : ℕ
  pub o8 : ℕ
  pub o9 : ℕ
  pub o10 : ℕ
  pub o11 : ℕ
  pub o12 : ℕ
  pub o13 : ℕ
  pub o14 : ℕ
  pub o15 : ℕ

pub data IpAddr : Type 0 where
  v4 : Ipv4Addr → IpAddr
  v6 : Ipv6Addr → IpAddr

pub record SocketAddr : Type 0 where
  pub ip : IpAddr
  pub port : ℕ

abbrev pub ipv4 : ℕ → ℕ → ℕ → ℕ → Ipv4Addr
ipv4 a b c d = record { a = a; b = b; c = c; d = d }

abbrev pub octets_v4 : Ipv4Addr → List ℕ
octets_v4 x = x.a ∷ x.b ∷ x.c ∷ x.d ∷ []

abbrev pub octets_v6 : Ipv6Addr → List ℕ
octets_v6 x =
    x.o0 ∷ x.o1 ∷ x.o2 ∷ x.o3 ∷ x.o4 ∷ x.o5 ∷ x.o6 ∷ x.o7 ∷ x.o8 ∷ x.o9 ∷ x.o10 ∷ x.o11 ∷ x.o12
    ∷ x.o13 ∷ x.o14 ∷ x.o15 ∷ []

abbrev pub octets : IpAddr → List ℕ
octets (v4 x) = octets_v4 x
octets (v6 x) = octets_v6 x

-- The octet at a place of an array that is long enough.
abbrev at : List ℕ → ℕ → ℕ
at [] i = 0
at (x ∷ xs) zero = x
at (x ∷ xs) (suc i) = at xs i

-- `Ipv4Addr::new(l[0], l[1], l[2], l[3])` and `Ipv6Addr::from([u8; 16])`, on a long enough list.
abbrev pub ipv4_from : List ℕ → Ipv4Addr
ipv4_from l = ipv4 (at l 0) (at l 1) (at l 2) (at l 3)

abbrev pub ipv6_from : List ℕ → Ipv6Addr
ipv6_from l = record {
  o0 = at l 0;
  o1 = at l 1;
  o2 = at l 2;
  o3 = at l 3;
  o4 = at l 4;
  o5 = at l 5;
  o6 = at l 6;
  o7 = at l 7;
  o8 = at l 8;
  o9 = at l 9;
  o10 = at l 10;
  o11 = at l 11;
  o12 = at l 12;
  o13 = at l 13;
  o14 = at l 14;
  o15 = at l 15;
}

abbrev pub is_ipv4 : IpAddr → Bool
is_ipv4 (v4 x) = true
is_ipv4 (v6 x) = false

abbrev pub is_ipv6 : IpAddr → Bool
is_ipv6 (v4 x) = false
is_ipv6 (v6 x) = true

abbrev all_zero : List ℕ → Bool
all_zero l = all (λ o. o == 0) l

abbrev pub is_unspecified_v4 : Ipv4Addr → Bool
is_unspecified_v4 x = all_zero (octets_v4 x)

-- 224.0.0.0/4
abbrev pub is_multicast_v4 : Ipv4Addr → Bool
is_multicast_v4 x = leb 224 x.a && leb x.a 239

abbrev pub broadcast : Ipv4Addr
broadcast = ipv4 255 255 255 255

abbrev pub is_unspecified_v6 : Ipv6Addr → Bool
is_unspecified_v6 x = all_zero (octets_v6 x)

-- ff00::/8
abbrev pub is_multicast_v6 : Ipv6Addr → Bool
is_multicast_v6 x = x.o0 == 255

-- fe80::/10
abbrev pub is_unicast_link_local : Ipv6Addr → Bool
is_unicast_link_local x = x.o0 == 254 && x.o1 / 64 == 2

-- 127.0.0.0/8 and ::1
abbrev pub is_loopback : IpAddr → Bool
is_loopback (v4 x) = x.a == 127
is_loopback (v6 x) =
    same {A = List ℕ} (octets_v6 x)
      (0 ∷ 0 ∷ 0 ∷ 0 ∷ 0 ∷ 0 ∷ 0 ∷ 0 ∷ 0 ∷ 0 ∷ 0 ∷ 0 ∷ 0 ∷ 0 ∷ 0 ∷ 1 ∷ [])

-- `<` on `Ipv4Addr`: the order of the octets, the first one first.
abbrev pub lt_octets : List ℕ → List ℕ → Bool
lt_octets [] ys = false
lt_octets (x ∷ xs) [] = false
lt_octets (x ∷ xs) (y ∷ ys) = ltb x y || x == y && lt_octets xs ys

unfoldable pub Ipv4Addr-discrete : Discrete Ipv4Addr
unfolding ℕ_discrete
Ipv4Addr-discrete = hlevel ℕ_discrete

unfoldable pub Ipv6Addr-discrete : Discrete Ipv6Addr
unfolding ℕ_discrete
Ipv6Addr-discrete = hlevel ℕ_discrete

unfoldable pub IpAddr-discrete : Discrete IpAddr
unfolding Ipv4Addr-discrete Ipv6Addr-discrete
IpAddr-discrete = hlevel (Ipv4Addr-discrete, Ipv6Addr-discrete)

instance abbrev pub ipv4_eq : Eq Ipv4Addr
ipv4_eq = record { decides = Ipv4Addr-discrete }

instance abbrev pub ip_eq : Eq IpAddr
ip_eq = record { decides = IpAddr-discrete }

ip_eq_runs : same (v4 (ipv4 1 2 3 4)) (v4 (ipv4 1 2 3 4)) ≡ true
unfolding IpAddr-discrete
ip_eq_runs = refl
