-- ===== src/Netlink/Message.antt =====
-- Messages of src/netlink.rs: `align`, `u16n`, `u32n`, `messages`, `route` and `dump_status`.
-- The native byte order is taken to be little endian, as on the platforms that are packaged.
pub mod Ending
pub mod Total
pub mod Related
pub mod Success
use ubgp.Base.{
  ℕ, zero, suc, ◌+◌, ◌-◌, ◌*◌, ◌/◌, Bool, true, false, not, ◌&&◌, ◌||◌, Option, none, some, List,
  [], ◌∷◌, ◌++◌, length, is_empty, replicate, take, leb, ltb, ◌==◌, any, if◌then◌else◌, Error,
  message, Result, Checked, ok, err, panic, out_of_fuel, ensure, index, slice, slice_from, ◌>>=◌,
  ◌>>◌, bit_and, drop,
}
use ubgp.Net.Addr.{IpAddr, v4, v6, ipv4_from, ipv6_from}
use ubgp.Net.IpNet.{IpNet}

abbrev pub header_size : ℕ
header_size = 16

-- `(n + 3) & !3`
abbrev pub align : ℕ → ℕ
align n = (n + 3) / 4 * 4

abbrev pub u16n : List ℕ → Result ℕ
u16n b = do lo ← index b 0; hi ← index b 1; ok (lo + 256 * hi)

abbrev pub u32n : List ℕ → Result ℕ
u32n b = do
  bytes ← slice b 0 4
  b0 ← index bytes 0
  b1 ← index bytes 1
  b2 ← index bytes 2
  b3 ← index bytes 3
  ok (b0 + 256 * b1 + 65536 * b2 + 16777216 * b3)

pub record Message : Type 0 where
  pub kind : ℕ
  pub flags : ℕ
  pub seq : ℕ
  pub payload : List ℕ

-- The header of the first message, with its length.
unfoldable pub first_message : List ℕ → Result (Message × ℕ)
first_message bytes = do
  ensure (leb header_size (length bytes)) "short netlink header"
  len ← u32n bytes
  ensure (leb header_size len && leb len (length bytes)) "invalid netlink message length"
  kind ← slice_from bytes 4 >>= u16n
  flags ← slice_from bytes 6 >>= u16n
  seq ← slice_from bytes 8 >>= u32n
  payload ← slice bytes header_size len
  ok (record { kind = kind; flags = flags; seq = seq; payload = payload }, len)

-- What follows the message, behind its padding.
unfoldable pub behind_padding : List ℕ → ℕ → Result (List ℕ)
behind_padding bytes len = do
  ensure (leb (align len) (length bytes)) "short netlink padding"
  slice_from bytes (align len)

-- `?` where the state that a callback has captured outlives the error.
abbrev pub attempt {ℓ κ} :
    {A : Type ℓ} {S : Type κ} → Result A → S → (A → Checked × S) → Checked × S
attempt (ok a) s k = k a
attempt (err e) s k = (err e, s)
attempt panic s k = (panic, s)
attempt out_of_fuel s k = (out_of_fuel, s)

-- The callback's captured state is threaded through.
module _ {S : Type 0} (f : Message → S → Checked × S) where
  unfoldable pub messages : ℕ → List ℕ → S → Checked × S
  messages fuel [] s = (ok tt, s)
  messages zero (b ∷ bs) s = (out_of_fuel, s)
  messages (suc fuel) (b ∷ bs) s = attempt (first_message (b ∷ bs)) s (λ (m, len).
      let r = f m s in
      attempt r.0 r.1 (λ done.
        if len == length (b ∷ bs)
        then (ok tt, r.1)
        else attempt (behind_padding (b ∷ bs) len) r.1 (λ rest. messages fuel rest r.1)))

-- The locals of the loop over the attributes of a route.
pub record RouteScan : Type 0 where
  pub table : ℕ
  pub dst : List ℕ
  pub has_dst : Bool

-- The `match` on an attribute of `n` bytes.
unfoldable pub route_attribute : ℕ → ℕ → ℕ → List ℕ → RouteScan → Result RouteScan
route_attribute width kind n attrs s =
    if kind == 1
    then (do
      ensure (n == width + 4) "invalid RTA_DST"
      bytes ← slice attrs 4 n
      ok (record s { dst = bytes ++ replicate (16 - width) 0; has_dst = true }))
    else if kind == 15
    then (do
      ensure (n == 8) "invalid RTA_TABLE"
      table ← slice_from attrs 4 >>= u32n
      ok (record s { table = table }))
    else ok s

unfoldable pub route_attributes : ℕ → ℕ → List ℕ → RouteScan → Result RouteScan
route_attributes fuel width [] s = ok s
route_attributes zero width (b ∷ bs) s = out_of_fuel
route_attributes (suc fuel) width (b ∷ bs) s =
    let attrs = b ∷ bs in
    do
      ensure (leb 4 (length attrs)) "short route attribute"
      n ← u16n attrs
      ensure (leb 4 n && leb n (length attrs)) "invalid route attribute length"
      kind ← slice_from attrs 2 >>= u16n
      s' ← route_attribute width (bit_and kind 0x3fff) n attrs s
      if n == length attrs then ok s' else (do
        ensure (leb (align n) (length attrs)) "short route attribute padding"
        rest ← slice_from attrs (align n)
        route_attributes fuel width rest s')

-- `IpNet::new(..)?`
abbrev pub try_new {ℓ} : {A : Type ℓ} → Option A → Result A
try_new none = err (message "invalid prefix length")
try_new (some a) = ok a

module _ {Net : Type 0} ⦃ops : IpNet Net⦄ where
  open ops use {new, trunc}

  -- What follows the loop.
  unfoldable pub route_prefix : ℕ → ℕ → List ℕ → RouteScan → Result (Option Net)
  route_prefix width len tables s = do
    ensure (len == 0 || s.has_dst) "missing route destination"
    if not (any (λ t. t == s.table) tables) then ok none else (do
      let ip = if width == 4 then v4 (ipv4_from s.dst) else v6 (ipv6_from s.dst)
      net ← try_new (new ip len)
      ok (some (trunc net)))

  unfoldable pub route : List ℕ → List ℕ → Result (Option Net)
  route payload tables = do
    ensure (leb 12 (length payload)) "short rtmsg"
    family ← index payload 0
    if not (family == 2) && not (family == 10) then ok none else (do
      type ← index payload 7
      src_len ← index payload 2
      flags ← slice_from payload 8 >>= u32n
      if not (type == 1) || not (src_len == 0) || not (bit_and flags 0x200 == 0)
          then ok none
          else (do
            let width = if family == 2 then 4 else 16
            len ← index payload 1
            ensure (leb len (width * 8)) "invalid route prefix length"
            table ← index payload 4
            attrs ← slice_from payload 12
            s ←
                route_attributes (length attrs) width attrs
                  (record { table = table; dst = replicate 16 0; has_dst = false })
            route_prefix width len tables s))

-- The status word of a completed dump: 0, or -ENOENT in two's complement when no route was seen.
unfoldable pub dump_status : List ℕ → Bool → Checked
dump_status payload saw_route = if is_empty payload then ok tt else (do
  ensure (leb 4 (length payload)) "short netlink dump status"
  code ← u32n payload
  ensure (code == 0 || code == 4294967294 && not saw_route) "netlink dump failed")
