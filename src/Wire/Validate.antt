-- ===== src/Wire/Validate.antt =====
-- Validation of a received UPDATE in src/wire.rs: `validate_nlri`, `validate_path` and
-- `validate_update`. The array `seen` of 256 flags, which a byte indexes, is a function.
pub mod Total
pub mod Accepts
pub mod Announced
pub mod OwnUpdates
pub mod Accepted
use ubgp.Base.{
  ℕ, zero, suc, ◌+◌, ◌*◌, ◌%◌, Bool, true, false, not, ◌&&◌, ◌||◌, Option, none, some, List, [],
  ◌∷◌, length, is_empty, leb, ltb, ◌==◌, if◌then◌else◌, Result, Checked, ok, err, panic,
  out_of_fuel, index, slice, slice_from, ◌>>=◌, ◌>>◌, bit_and,
}
use ubgp.Net.Addr.{ipv4}
use ubgp.Net.IpNet.{div_ceil8}
use ubgp.Config.{valid_v4}
use ubgp.Wire.Frame.{protocol_error, require, u16b}
use ubgp.Wire.Open.{Negotiated}

pub validate_nlri : ℕ → List ℕ → ℕ → Checked
validate_nlri fuel [] bits = ok tt
validate_nlri zero (b ∷ bs) bits = out_of_fuel
validate_nlri (suc fuel) (b ∷ bs) bits = do
  let n = div_ceil8 b
  require (leb b bits && ltb n (length (b ∷ bs))) 3 10 "invalid NLRI"
  rest ← slice_from (b ∷ bs) (n + 1)
  validate_nlri fuel rest bits

pub validate_path : ℕ → List ℕ → ℕ → Checked
validate_path fuel [] width = ok tt
validate_path zero (b ∷ bs) width = out_of_fuel
validate_path (suc fuel) (b ∷ bs) width = do
  require (leb 2 (length (b ∷ bs)) && leb 1 b && leb b 4) 3 11 "invalid AS_PATH segment"
  count ← index (b ∷ bs) 1
  require (ltb 0 count) 3 11 "invalid AS_PATH segment"
  let len = 2 + width * count
  require (leb len (length (b ∷ bs))) 3 11 "truncated AS_PATH"
  rest ← slice_from (b ∷ bs) len
  validate_path fuel rest width

pub data UpdateAction : Type 0 where
  valid attribute_discard treat_as_withdraw : UpdateAction

-- `Ord::max` of the derived order.
abbrev pub worst : UpdateAction → UpdateAction → UpdateAction
worst valid b = b
worst attribute_discard valid = attribute_discard
worst attribute_discard b = b
worst treat_as_withdraw b = treat_as_withdraw

-- `action == TreatAsWithdraw`
abbrev pub is_withdraw : UpdateAction → Bool
is_withdraw treat_as_withdraw = true
is_withdraw valid = false
is_withdraw attribute_discard = false

-- The local variables of the loop over the attributes.
pub record Scan : Type 0 where
  pub seen : ℕ → Bool
  pub mp_reach : Bool
  pub action : UpdateAction

abbrev pub scan_start : Scan
scan_start = record { seen = λ k. false; mp_reach = false; action = valid }

abbrev pub mark_seen : ℕ → Scan → Scan
mark_seen kind s = record s { seen = λ k. if k == kind then true else s.seen k }

abbrev pub raise_to : UpdateAction → Scan → Scan
raise_to a s = record s { action = worst s.action a }

abbrev pub is_mp : ℕ → Bool
is_mp kind = kind == 14 || kind == 15

-- Attributes that are discarded whatever they hold.
abbrev pub is_discarded : Negotiated → ℕ → Bool
is_discarded n kind =
    n.asn4 && (kind == 17 || kind == 18) || not n.internal && (kind == 5 || kind == 9 || kind == 10)

abbrev pub expected_flags : ℕ → Option ℕ
expected_flags kind =
    if kind == 1 || kind == 2 || kind == 3 || kind == 5 || kind == 6
    then some 0x40
    else if kind == 4 || kind == 9 || kind == 10 || kind == 14 || kind == 15
    then some 0x80
    else if kind == 7 || kind == 8 || kind == 16 || kind == 17 || kind == 18 || kind == 32
    then some 0xc0
    else none

abbrev pub flags_match : ℕ → Option ℕ → Bool
flags_match flags none = true
flags_match flags (some expected) =
    bit_and flags 0xc0 == expected && (bit_and flags 0x20 == 0 || expected == 0xc0)

-- `is_ok()`; a panic is passed on.
abbrev pub is_ok : Checked → Result Bool
is_ok (ok u) = ok true
is_ok (err e) = ok false
is_ok panic = panic
is_ok out_of_fuel = out_of_fuel

-- The `match` on the attribute's type: whether its value is well formed. `whole` is the attribute
-- with its header.
pub valid_value : Negotiated → ℕ → ℕ → ℕ → List ℕ → List ℕ → Result Bool
valid_value n flags kind l body whole =
    if kind == 1
    then (if l == 1 then (do o ← index body 0; ok (leb o 2)) else ok false)
    else if kind == 2
    then is_ok (validate_path (length body) body (if n.asn4 then 4 else 2))
    else if kind == 3
    then (if l == 4
        then (do
          a ← index body 0
          b ← index body 1
          c ← index body 2
          d ← index body 3
          ok (valid_v4 (ipv4 a b c d)))
        else ok false)
    else if kind == 4 || kind == 5 || kind == 9
    then ok (l == 4)
    else if kind == 6
    then ok (l == 0)
    else if kind == 7
    then ok (l == (if n.asn4 then 8 else 6))
    else if kind == 8 || kind == 10
    then ok (not (l == 0) && l % 4 == 0)
    else if kind == 16
    then ok (not (l == 0) && l % 8 == 0)
    else if kind == 17
    then (if leb 6 l && l % 2 == 0 then is_ok (validate_path (length body) body 4) else ok false)
    else if kind == 18
    then ok (l == 8)
    else if kind == 32
    then ok (not (l == 0) && l % 12 == 0)
    else if bit_and flags 0x80 == 0
    then err (protocol_error 3 2 whole "unknown well-known attribute")
    else ok true

-- The next hop of MP_REACH: where its NLRI starts.
pub reach_start : ℕ → ℕ → ℕ → List ℕ → Result ℕ
reach_start l afi safi body =
    if leb 5 l
    then (do
      size ← index body 3
      require (leb (size + 5) l) 3 9 "invalid MP_REACH next hop"
      require
          (not (safi == 1 && (afi == 1 || afi == 2))
            || (if afi == 2 then size == 16 || size == 32 else size == 4))
          3 9 "invalid MP_REACH next-hop size"
      ok (5 + size))
    else err (protocol_error 3 9 [] "invalid MP_REACH next hop")

-- A multiprotocol attribute.
pub multiprotocol : Bool → ℕ → ℕ → List ℕ → Scan → Result Scan
multiprotocol flags_ok kind l body s = do
  require flags_ok 3 9 "invalid multiprotocol attribute flags"
  require (leb 3 l) 3 9 "short multiprotocol attribute"
  afi ← u16b body
  safi ← index body 2
  start ← if kind == 14 then reach_start l afi safi body else ok 3
  if safi == 1 && (afi == 1 || afi == 2)
      then (do
        routes ← slice_from body start
        validate_nlri (length routes) routes (if afi == 1 then 32 else 128)
        ok (record s { mp_reach = s.mp_reach || kind == 14 && ltb start l }))
      else ok s

-- One whole attribute. Every branch that does not fail goes on behind it.
pub attribute : Negotiated → ℕ → ℕ → ℕ → List ℕ → List ℕ → Scan → Result Scan
attribute n flags kind l body whole s =
    if s.seen kind
    then (do
      require (not (is_mp kind)) 3 1 "duplicate multiprotocol attribute"
      ok (raise_to attribute_discard s))
    else if is_discarded n kind
    then ok (raise_to attribute_discard (mark_seen kind s))
    else let flags_ok = flags_match flags (expected_flags kind) in
      if is_mp kind then multiprotocol flags_ok kind l body (mark_seen kind s) else (do
        fine ← valid_value n flags kind l body whole
        ok (
            if not flags_ok || not fine
            then raise_to
                (if kind == 6 || kind == 7 || kind == 17 || kind == 18
                  then attribute_discard
                  else treat_as_withdraw)
                (mark_seen kind s)
            else mark_seen kind s))

-- `action = TreatAsWithdraw; break`
abbrev pub broken : Scan → Scan
broken s = record s { action = treat_as_withdraw }

-- The `while` over the attributes. Each round takes three bytes at least.
pub attributes : ℕ → Negotiated → List ℕ → Scan → Result Scan
attributes fuel n [] s = ok s
attributes zero n (b ∷ bs) s = out_of_fuel
attributes (suc fuel) n (b ∷ bs) s =
    let attrs = b ∷ bs in
    if ltb (length attrs) 3 then ok (broken s) else (do
      flags ← index attrs 0
      kind ← index attrs 1
      let h = if not (bit_and flags 0x10 == 0) then 4 else 3
      if ltb (length attrs) h
          then (do
            require (not (is_mp kind)) 3 9 "short multiprotocol attribute header"
            ok (broken s))
          else (do
            l ← if h == 4 then (do field ← slice_from attrs 2; u16b field) else index attrs 2
            if ltb (length attrs) (h + l)
                then (do
                  require (not (is_mp kind)) 3 9 "truncated multiprotocol attribute"
                  ok (broken s))
                else (do
                  body ← slice attrs h (h + l)
                  whole ← slice attrs 0 (h + l)
                  s' ← attribute n flags kind l body whole s
                  rest ← slice_from attrs (h + l)
                  attributes fuel n rest s')))

-- The checks behind the loop: mandatory attributes, and whether recovery is safe.
pub conclude : Negotiated → List ℕ → Scan → Result UpdateAction
conclude n tail s =
    let reachable = not (is_empty tail) || s.mp_reach in
    let lacks_attribute = not (s.seen 1) || not (s.seen 2) || n.internal && not (s.seen 5) in
    let action = if reachable && lacks_attribute then treat_as_withdraw else s.action in
    let action' = if not (is_empty tail) && not (s.seen 3) then treat_as_withdraw else action in
    do
      require (not (is_withdraw action') || reachable) 3 1
          "cannot recover UPDATE without reachable NLRI"
      ok action'

pub validate_update : List ℕ → Negotiated → Result UpdateAction
validate_update b n = do
  require (leb 4 (length b)) 3 1 "short UPDATE"
  w ← u16b b
  require (leb (w + 4) (length b)) 3 1 "invalid withdrawn length"
  withdrawn ← slice b 2 (2 + w)
  validate_nlri (length withdrawn) withdrawn 32
  a ← slice_from b (2 + w) >>= u16b
  require (leb (w + a + 4) (length b)) 3 1 "invalid attributes length"
  tail ← slice_from b (4 + w + a)
  validate_nlri (length tail) tail 32
  attrs ← slice b (4 + w) (4 + w + a)
  s ← attributes (length attrs) n attrs scan_start
  conclude n tail s
