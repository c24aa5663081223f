-- ===== src/Net/IpNet/Concrete.antt =====
-- One implementation of the interface, which shows that its laws can be met.
use native.Mathlib.Decide.{ℕ_discrete}
use native.Mathlib.Nat.{zero-sub, sub-zero, suc-sub-suc}
use ubgp.Base.{
  ℕ, zero, suc, ◌-◌, ◌*◌, ◌/◌, ◌^◌, ◌≤◌, ◌≡◌, refl, ap, ◌∙◌, Bool, none, some, List, [], ◌∷◌,
  length, drop, replicate, min, leb, same, ◌==◌, if◌then◌else◌, arith, le→leb, str_eq, ◌&&◌,
}
use ubgp.Net.Addr.{
  IpAddr, v4, v6, is_ipv6, octets, octets_v4, octets_v6, ipv4_from, ipv6_from, IpAddr-discrete,
}
use ubgp.Net.IpNet.{IpNet, IpNetLaws, width, div_ceil8}

pub record Cidr : Type 0 where
  pub ip : IpAddr
  pub len : ℕ

unfoldable pub Cidr-discrete : Discrete Cidr
unfolding IpAddr-discrete ℕ_discrete
Cidr-discrete = hlevel (IpAddr-discrete, ℕ_discrete)

-- An octet, and a list of octets, with only the first `len` bits kept.
abbrev mask_octet : ℕ → ℕ → ℕ
mask_octet len o =
    if leb 8 len then o else if len == 0 then 0 else o / 2 ^ (8 - len) * 2 ^ (8 - len)

abbrev mask : ℕ → List ℕ → List ℕ
mask len [] = []
mask len (o ∷ os) = mask_octet len o ∷ mask (len - 8) os

abbrev mask_ip : ℕ → IpAddr → IpAddr
mask_ip len (v4 x) = v4 (ipv4_from (mask len (octets_v4 x)))
mask_ip len (v6 x) = v6 (ipv6_from (mask len (octets_v6 x)))

abbrev cidr_len : Cidr → ℕ
cidr_len n = min n.len (width n.ip)

abbrev cidr_trunc : Cidr → Cidr
cidr_trunc n = record { ip = mask_ip (cidr_len n) n.ip; len = cidr_len n }

abbrev cidr_contains : Cidr → Cidr → Bool
cidr_contains n m =
    leb (cidr_len n) (cidr_len m)
    && same {A = List ℕ} (mask (cidr_len n) (octets m.ip)) (octets (mask_ip (cidr_len n) n.ip))

instance abbrev pub cidr : IpNet Cidr
cidr = record {
  new = λ ip len. if leb len (width ip) then some (record { ip = ip; len = len }) else none;
  addr = λ n. n.ip;
  prefix_len = cidr_len;
  network = λ n. mask_ip (cidr_len n) n.ip;
  trunc = cidr_trunc;
  contains_net = cidr_contains;
  net_eq = record { decides = Cidr-discrete };
}

mask_zero : (os : List ℕ) → mask 0 os ≡ replicate (length os) 0
mask_zero [] = refl
mask_zero (o ∷ os) = ap (λ t. 0 ∷ t) (mask_zero os)

length-mask : (len : ℕ) (os : List ℕ) → length (mask len os) ≡ length os
length-mask len [] = refl
length-mask len (o ∷ os) = ap suc (length-mask (len - 8) os)

mask_zeros :
    (os : List ℕ) (len k : ℕ)
    → k ≡ div_ceil8 len
    → drop k (mask len os) ≡ replicate (length os - k) 0
mask_zeros [] len zero h = refl
mask_zeros [] len (suc k) h = rw (zero-sub)
mask_zeros (o ∷ os) len zero h =
    let e : len ≡ 0 = omega arith in rw (e, sub-zero) (mask_zero (o ∷ os))
mask_zeros (o ∷ os) len (suc k) h = rw (suc-sub-suc) (mask_zeros os (len - 8) k (omega arith))

floor_twice : (o p : ℕ) → o / p * p / p * p ≡ o / p * p
floor_twice o p = grind arith

mask-mask : (os : List ℕ) (len : ℕ) → mask len (mask len os) ≡ mask len os
mask-mask [] len = refl
mask-mask (o ∷ os) len = ground (arith, floor_twice o (2 ^ (8 - len)), mask-mask os (len - 8))

octets-mask_ip : (len : ℕ) (ip : IpAddr) → octets (mask_ip len ip) ≡ mask len (octets ip)
octets-mask_ip len (v4 x) = refl
octets-mask_ip len (v6 x) = refl

width-mask_ip : (len : ℕ) (ip : IpAddr) → width (mask_ip len ip) ≡ width ip
width-mask_ip len (v4 x) = refl
width-mask_ip len (v6 x) = refl

is_ipv6-mask_ip : (len : ℕ) (ip : IpAddr) → is_ipv6 (mask_ip len ip) ≡ is_ipv6 ip
is_ipv6-mask_ip len (v4 x) = refl
is_ipv6-mask_ip len (v6 x) = refl

mask_ip-mask_ip : (len : ℕ) (ip : IpAddr) → mask_ip len (mask_ip len ip) ≡ mask_ip len ip
mask_ip-mask_ip len (v4 x) = ap (λ l. v4 (ipv4_from l)) (mask-mask (octets_v4 x) len)
mask_ip-mask_ip len (v6 x) = ap (λ l. v6 (ipv6_from l)) (mask-mask (octets_v6 x) len)

min_le : (a w : ℕ) → min a w ≤ w
min_le a w = omega arith

cidr_zeros :
    (n : Cidr)
    → drop (div_ceil8 (cidr_len n)) (octets (mask_ip (cidr_len n) n.ip))
      ≡ replicate (length (octets (mask_ip (cidr_len n) n.ip)) - div_ceil8 (cidr_len n)) 0
cidr_zeros n =
    rw (octets-mask_ip (cidr_len n) n.ip, length-mask (cidr_len n) (octets n.ip))
      (mask_zeros (octets n.ip) (cidr_len n) (div_ceil8 (cidr_len n)) refl)

cidr_len-trunc : (n : Cidr) → cidr_len (cidr_trunc n) ≡ cidr_len n
cidr_len-trunc n = rw (width-mask_ip (cidr_len n) n.ip) (omega arith)

cidr_trunc-trunc : (n : Cidr) → cidr_trunc (cidr_trunc n) ≡ cidr_trunc n
cidr_trunc-trunc n = λ i. record { ip = masked i; len = cidr_len-trunc n i }
  where
    masked :
        mask_ip (cidr_len (cidr_trunc n)) (mask_ip (cidr_len n) n.ip) ≡ mask_ip (cidr_len n) n.ip
    masked =
        ap (λ k. mask_ip k (mask_ip (cidr_len n) n.ip)) (cidr_len-trunc n)
        ∙ mask_ip-mask_ip (cidr_len n) n.ip

pub cidr_laws : IpNetLaws cidr
cidr_laws = record {
  prefix_len-le = λ n. min_le n.len (width n.ip);
  is_ipv6-network = λ n. is_ipv6-mask_ip (cidr_len n) n.ip;
  network_zeros = cidr_zeros;
  new_ok = λ ip len h. (record { ip = ip; len = len }, rw (le→leb len (width ip) h));
  new-network = λ n. rw (width-mask_ip (cidr_len n) n.ip, le→leb _ _ (min_le n.len (width n.ip)));
  trunc-trunc = cidr_trunc-trunc;
}
