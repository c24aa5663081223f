-- ===== src/Net/IpNet.antt =====
-- The `ipnet` crate, which the program calls and does not contain: an address with a prefix
-- length. Its operations are an argument of the model, and what its documentation says of them
-- are the laws.
pub mod Concrete
use ubgp.Base.{
  ℕ, ◌+◌, ◌/◌, ◌-◌, ◌≤◌, ◌≡◌, Bool, true, Option, none, some, List, length, drop, replicate, Eq,
}
use ubgp.Net.Addr.{IpAddr, v4, v6, is_ipv6, octets}

pub record IpNet (Net : Type 0) : Type 0 where
  -- `IpNet::new`; `none` is its `PrefixLenError`.
  pub new : IpAddr → ℕ → Option Net
  pub addr : Net → IpAddr
  pub prefix_len : Net → ℕ
  pub network : Net → IpAddr
  pub trunc : Net → Net
  pub contains_net : Net → Net → Bool
  pub net_eq : Eq Net

-- `instance` for the sections that take the crate as an argument.
instance abbrev pub eq_of_net : {Net : Type 0} ⦃ops : IpNet Net⦄ → Eq Net
eq_of_net ⦃ops⦄ = ops.net_eq

-- 32 or 128
abbrev pub width : IpAddr → ℕ
width (v4 x) = 32
width (v6 x) = 128

-- `usize::div_ceil(8)`
abbrev pub div_ceil8 : ℕ → ℕ
div_ceil8 n = (n + 7) / 8

pub record IpNetLaws {Net : Type 0} (ops : IpNet Net) : Type 0 where
  pub prefix_len-le : (n : Net) → ops.prefix_len n ≤ width (ops.addr n)
  pub is_ipv6-network : (n : Net) → is_ipv6 (ops.network n) ≡ is_ipv6 (ops.addr n)
  -- All bits of the network address behind the prefix are zero, so its whole octets are.
  pub network_zeros :
      (n : Net)
      → let k = div_ceil8 (ops.prefix_len n) in
        drop k (octets (ops.network n)) ≡ replicate (length (octets (ops.network n)) - k) 0
  -- A prefix length up to the address width is accepted, a longer one refused.
  pub new_ok : (ip : IpAddr) (len : ℕ) → len ≤ width ip → (n : Net) × (ops.new ip len ≡ some n)
  pub new-network : (n : Net) → ops.new (ops.network n) (ops.prefix_len n) ≡ some (ops.trunc n)
  pub trunc-trunc : (n : Net) → ops.trunc (ops.trunc n) ≡ ops.trunc n
