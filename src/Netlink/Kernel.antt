-- ===== src/Netlink/Kernel.antt =====
-- What the kernel sends, as netlink(7) and rtnetlink(7) describe it: messages with a header, and
-- routes with attributes, each padded to a multiple of four bytes.
pub mod Words
pub mod Attributes
pub mod Routes
pub mod Datagrams
pub mod Dumps
pub mod Rounds
pub mod Answers
pub mod Collected
use ubgp.Base.{
  ℕ, ◌+◌, ◌-◌, ◌*◌, ◌%◌, ◌^◌, ◌≤◌, ◌<◌, ◌≡◌, ◌≢◌, ◌⊎◌, Bool, true, ◌&&◌, ◌||◌, Option, none, some,
  List, [], ◌∷◌, ◌++◌, length, replicate, any, All, ◌==◌, if◌then◌else◌, bit_and, unwrap_or,
}
use ubgp.Net.Addr.{IpAddr, v4, v6, ipv4_from, ipv6_from}
use ubgp.Net.IpNet.{IpNet}
use ubgp.Netlink.Message.{Message}
use ubgp.Netlink.Snapshot.{u16_ne, u32_ne}

-- What follows `n` bytes up to a multiple of four.
abbrev pub padding : ℕ → List ℕ
padding n = replicate ((4 - n % 4) % 4) 0

pub record Attribute : Type 0 where
  pub kind : ℕ
  pub value : List ℕ

abbrev pub attribute_bytes : Attribute → List ℕ
attribute_bytes a =
    u16_ne (4 + length a.value) ++ (u16_ne a.kind ++ (a.value ++ padding (4 + length a.value)))

abbrev pub attributes_bytes : List Attribute → List ℕ
attributes_bytes [] = []
attributes_bytes (a ∷ more) = attribute_bytes a ++ attributes_bytes more

-- A `struct nlmsghdr` to a port, and what follows it.
abbrev pub nlmsghdr : ℕ → Message → List ℕ
nlmsghdr port m =
    u32_ne (16 + length m.payload)
    ++ (u16_ne m.kind ++ (u16_ne m.flags ++ (u32_ne m.seq ++ u32_ne port)))

abbrev pub message_bytes : ℕ → Message → List ℕ
message_bytes port m = nlmsghdr port m ++ (m.payload ++ padding (16 + length m.payload))

abbrev pub datagram_bytes : ℕ → List Message → List ℕ
datagram_bytes port [] = []
datagram_bytes port (m ∷ ms) = message_bytes port m ++ datagram_bytes port ms

-- The fields fit their words.
pub record IsMessage (m : Message) : Type 0 where
  pub length_fits : 16 + length m.payload < 2 ^ 32
  pub kind_fits : m.kind < 65536
  pub flags_fit : m.flags < 65536
  pub seq_fits : m.seq < 2 ^ 32

-- A `struct rtmsg` and what follows it.
pub record KernelRoute : Type 0 where
  pub family : ℕ
  pub dst_len : ℕ
  pub src_len : ℕ
  pub tos : ℕ
  pub table : ℕ
  pub protocol : ℕ
  pub scope : ℕ
  pub type : ℕ
  pub flags : ℕ
  pub attributes : List Attribute

abbrev pub route_bytes : KernelRoute → List ℕ
route_bytes r =
    r.family
    ∷ r.dst_len
    ∷ r.src_len
    ∷ r.tos
    ∷ r.table
    ∷ r.protocol
    ∷ r.scope
    ∷ r.type
    ∷ (u32_ne r.flags ++ attributes_bytes r.attributes)

-- The type is in the lower 14 bits, below the flags for nested values and the byte order.
abbrev pub type_of : Attribute → ℕ
type_of a = bit_and a.kind 0x3fff

-- The value of the last attribute of a type, or what was found before it.
abbrev pub last_value : ℕ → Option (List ℕ) → List Attribute → Option (List ℕ)
last_value type found [] = found
last_value type found (a ∷ more) =
    last_value type (if type_of a == type then some a.value else found) more

-- RTA_DST and RTA_TABLE
abbrev pub dst_of : KernelRoute → Option (List ℕ)
dst_of r = last_value 1 none r.attributes

-- A word in the native byte order.
abbrev pub word : List ℕ → ℕ
word [] = 0
word (b ∷ bs) = b + 256 * word bs

-- The table of the attribute, or the one of the `rtmsg`, which has a byte for it.
abbrev pub table_in : ℕ → Option (List ℕ) → ℕ
table_in table none = table
table_in table (some value) = word value

abbrev pub table_of : KernelRoute → ℕ
table_of r = table_in r.table (last_value 15 none r.attributes)

-- AF_INET has the number 2, AF_INET6 the number 10.
abbrev pub octets_of : ℕ → ℕ
octets_of family = if family == 2 then 4 else 16

abbrev pub address_in : ℕ → List ℕ → IpAddr
address_in family octets = if family == 2 then v4 (ipv4_from octets) else v6 (ipv6_from octets)

-- The default route has no RTA_DST.
abbrev pub destination : KernelRoute → IpAddr
destination r = address_in r.family (unwrap_or (dst_of r) (replicate 16 0))

-- A unicast route of IPv4 or IPv6 that is for any source and no clone (RTM_F_CLONED).
abbrev pub is_plain : KernelRoute → Bool
is_plain r =
    (r.family == 2 || r.family == 10)
    && (r.type == 1 && (r.src_len == 0 && bit_and r.flags 0x200 == 0))

-- An attribute whose length fits, with an address of `octets` bytes, or a table of four.
pub record IsAttribute (octets : ℕ) (a : Attribute) : Type 0 where
  pub fits : 4 + length a.value < 65536
  pub kind_fits : a.kind < 65536
  pub address : type_of a ≡ 1 → length a.value ≡ octets
  pub table : type_of a ≡ 15 → length a.value ≡ 4

-- What the documentation says of the routes that the program reads.
pub record IsWritten (r : KernelRoute) : Type 0 where
  pub flags_fit : r.flags < 2 ^ 32
  pub attributes : is_plain r ≡ true → All (IsAttribute (octets_of r.family)) r.attributes
  pub dst_len : is_plain r ≡ true → r.dst_len ≤ octets_of r.family * 8
  pub dst : is_plain r ≡ true → (r.dst_len ≡ 0) ⊎ (dst_of r ≢ none)

module _ {Net : Type 0} ⦃ops : IpNet Net⦄ where
  open ops use {new, trunc}

  -- `Option::map` with `trunc`
  abbrev pub truncated : Option Net → Option Net
  truncated none = none
  truncated (some net) = some (trunc net)

  -- The prefix of a plain route of one of the tables, without host bits.
  abbrev pub prefix_of : List ℕ → KernelRoute → Option Net
  prefix_of tables r =
      if is_plain r && any (λ t. t == table_of r) tables
      then truncated (new (destination r) r.dst_len)
      else none
