-- ===== src/Netlink/Message/Total.antt =====
-- The decoders on any bytes.
use ubgp.Base.{
  refl, true, false, Checked, slice_from, ◌∙◌, ap, ℕ, zero, suc, ◌+◌, ◌*◌, ◌≤◌, ◌≡◌, refl, Bool,
  true, false, not, ◌&&◌, ◌||◌, Option, none, some, List, [], ◌∷◌, length, leb, ◌==◌, any,
  if◌then◌else◌, Result, ok, ensure, index, slice, slice_from, ◌>>=◌, ◌>>◌, bit_and, drop, arith,
  length-drop, leb→le, String,
}
use ubgp.Base.Ensures.{
  ensure-Checks, Ensures-weaken, Checks, holds, rejected, Ensures-if, Ensures-bind, Ensures-index,
  Ensures-slice, Ensures-slice_from, of_Returns,
}
use ubgp.Net.Addr.{v4, v6, ipv4_from, ipv6_from}
use ubgp.Net.IpNet.{IpNet, IpNetLaws}
use ubgp.Netlink.Message.Ending.{Ends, fine, Ends-attempt, Ends-then, Ends-if}
use ubgp.Netlink.Message.{
  dump_status, first_message, behind_padding, Message, messages, header_size, align, u16n, u32n,
  RouteScan, route_attribute, route_attributes, route_prefix, route, try_new,
}

pub Ensures-ensure :
    {A : Type 0} {P : A → Type 0} (b : Bool) (text : String) (k : Result A)
    → (b ≡ true → Checks P k)
    → Checks P (ensure b text >> k)
Ensures-ensure true text k h = h refl
Ensures-ensure false text k h = rejected tt

u16n_total : (b : List ℕ) → 2 ≤ length b → Checks (λ _. Unit {0}) (u16n b)
u16n_total [] h = absurd (omega arith)
u16n_total (a ∷ []) h = absurd (omega arith)
u16n_total (a ∷ b ∷ l) h = holds tt

pub u32n_total : (b : List ℕ) → 4 ≤ length b → Checks (λ _. Unit {0}) (u32n b)
unfolding slice
u32n_total [] h = absurd (omega arith)
u32n_total (a ∷ []) h = absurd (omega arith)
u32n_total (a ∷ b ∷ []) h = absurd (omega arith)
u32n_total (a ∷ b ∷ c ∷ []) h = absurd (omega arith)
u32n_total (a ∷ b ∷ c ∷ d ∷ l) h = of_Returns (u32n (a ∷ b ∷ c ∷ d ∷ l)) (ground (arith))

u16n_from :
    (b : List ℕ) (lo : ℕ) → lo + 2 ≤ length b → Checks (λ _. Unit {0}) (slice_from b lo >>= u16n)
u16n_from b lo h =
    Ensures-slice_from b lo u16n (omega arith)
      (u16n_total (drop lo b) (omega (arith, length-drop lo b)))

u32n_from :
    (b : List ℕ) (lo : ℕ) → lo + 4 ≤ length b → Checks (λ _. Unit {0}) (slice_from b lo >>= u32n)
u32n_from b lo h =
    Ensures-slice_from b lo u32n (omega arith)
      (u32n_total (drop lo b) (omega (arith, length-drop lo b)))

align-le : (n k : ℕ) → k ≤ n → k ≤ align n
align-le n k h = omega arith

first_message_total :
    (bytes : List ℕ)
    → Checks (λ r. (header_size ≤ r.1) × (r.1 ≤ length bytes)) (first_message bytes)
unfolding first_message
first_message_total bytes = Ensures-ensure (leb header_size (length bytes)) _ _ λ long.
    let sixteen = leb→le header_size (length bytes) long in
    Ensures-bind (u32n_total bytes (omega arith)) λ len _.
      Ensures-ensure (leb header_size len && leb len (length bytes)) _ _ λ good.
        let low : header_size ≤ len = ground arith in
        let high : len ≤ length bytes = ground arith in
        Ensures-bind (u16n_from bytes 4 (omega arith)) λ kind _.
          Ensures-bind (u16n_from bytes 6 (omega arith)) λ flags _.
            Ensures-bind (u32n_from bytes 8 (omega arith))
              λ seq _. Ensures-slice bytes header_size len _ low high (holds (low, high))

-- What is left is shorter, behind a message that has a header.
behind_padding_total :
    (bytes : List ℕ) (len : ℕ)
    → header_size ≤ len
    → Checks (λ rest. length rest + header_size ≤ length bytes) (behind_padding bytes len)
unfolding behind_padding slice_from
behind_padding_total bytes len low = Ensures-ensure (leb (align len) (length bytes)) _ _ λ fits.
    let room = leb→le (align len) (length bytes) fits in
    rw fits (holds (omega (arith, length-drop (align len) bytes)))

module _ {S : Type 0} (f : Message → S → Checked × S) (I J : S → Type 0) where
  -- `messages` returns on any datagram when its callback does. What each call of the callback that
  -- succeeds keeps true of the state is true at the end, and what it implies and each call that
  -- fails leaves true is true after an error.
  pub messages_total :
      (fuel : ℕ) (bytes : List ℕ) (s : S)
      → ((m : Message) (s' : S) → I s' → Ends I J (f m s').0 (f m s').1)
      → ((s' : S) → I s' → J s')
      → length bytes ≤ fuel
      → I s
      → Ends I J (messages f fuel bytes s).0 (messages f fuel bytes s).1
  unfolding messages
  messages_total fuel [] s keeps weaker h i = fine i
  messages_total zero (b ∷ bs) s keeps weaker h i = absurd (omega arith)
  messages_total (suc fuel) (b ∷ bs) s keeps weaker h i =
      Ends-attempt I J (first_message_total (b ∷ bs)) (weaker s i) λ (m, len) (low, high).
        Ends-then I J (keeps m s i) λ kept. Ends-if I J (len == length (b ∷ bs)) (fine kept) (
          Ends-attempt I J (behind_padding_total (b ∷ bs) len low) (weaker _ kept)
            λ rest shorter. messages_total fuel rest (f m s).1 keeps weaker (omega arith) kept)

route_attribute_total :
    (width kind n : ℕ) (attrs : List ℕ) (s : RouteScan)
    → 4 ≤ n
    → n ≤ length attrs
    → Checks (λ _. Unit {0}) (route_attribute width kind n attrs s)
unfolding route_attribute
route_attribute_total width kind n attrs s low high =
    Ensures-if (kind == 1)
      (λ _. Ensures-ensure (n == width + 4) _ _ λ e. Ensures-slice attrs 4 n _ low high (holds tt))
      λ _.
        Ensures-if (kind == 15)
          (λ _. Ensures-ensure (n == 8) _ _ λ e.
            let eight : n ≡ 8 = ground arith in
            Ensures-bind (u32n_from attrs 4 (omega arith)) λ table _. holds tt)
          (λ _. holds tt)

route_attributes_total :
    (fuel width : ℕ) (attrs : List ℕ) (s : RouteScan)
    → length attrs ≤ fuel
    → Checks (λ _. Unit {0}) (route_attributes fuel width attrs s)
unfolding route_attributes
route_attributes_total fuel width [] s h = holds tt
route_attributes_total zero width (b ∷ bs) s h = absurd (omega arith)
route_attributes_total (suc fuel) width (b ∷ bs) s h =
    let attrs = b ∷ bs in
    Ensures-ensure (leb 4 (length attrs)) _ _ λ long.
      let four = leb→le 4 (length attrs) long in
      Ensures-bind (u16n_total attrs (omega arith)) λ n _.
        Ensures-ensure (leb 4 n && leb n (length attrs)) _ _ λ good.
          let low : 4 ≤ n = ground arith in
          let high : n ≤ length attrs = ground arith in
          Ensures-bind (u16n_from attrs 2 (omega arith)) λ kind _.
            Ensures-bind (route_attribute_total width (bit_and kind 0x3fff) n attrs s low high)
              λ s' _.
                Ensures-if (n == length attrs) (λ _. holds tt)
                  λ _. Ensures-ensure (leb (align n) (length attrs)) _ _ λ fits.
                    let room = leb→le (align n) (length attrs) fits in
                    Ensures-slice_from attrs (align n) _ room (
                      route_attributes_total fuel width (drop (align n) attrs) s'
                        (omega (arith, length-drop (align n) attrs)))

module _ {Net : Type 0} ⦃ops : IpNet Net⦄ (laws : IpNetLaws ops) where
  open ops use {new, trunc}

  -- A decoded prefix has no host bits, and came from an ordinary unicast route without a source.
  abbrev pub IsRoute : List ℕ → Option Net → Type 0
  IsRoute payload none = Unit
  IsRoute payload (some net) =
      (trunc net ≡ net) × (index payload 7 ≡ ok 1) × (index payload 2 ≡ ok 0)

  truncated :
      (payload : List ℕ) (found : Option Net)
      → index payload 7 ≡ ok 1
      → index payload 2 ≡ ok 0
      → Checks (IsRoute payload) (try_new found >>= λ net. ok (some (trunc net)))
  truncated payload none unicast no_source = rejected tt
  truncated payload (some net) unicast no_source = holds (laws.trunc-trunc net, unicast, no_source)

  route_prefix_total :
      (width len : ℕ) (tables payload : List ℕ) (s : RouteScan)
      → index payload 7 ≡ ok 1
      → index payload 2 ≡ ok 0
      → Checks (IsRoute payload) (route_prefix width len tables s)
  unfolding route_prefix
  route_prefix_total width len tables payload s unicast no_source =
      Ensures-ensure (len == 0 || s.has_dst) _ _ λ _.
        Ensures-if (not (any (λ t. t == s.table) tables)) (λ _. holds tt)
          λ _.
            truncated payload
              (new (if width == 4 then v4 (ipv4_from s.dst) else v6 (ipv6_from s.dst)) len) unicast
              no_source

  -- On any payload `route` returns, with an error, with no route, or with a prefix without host
  -- bits from a message of type unicast whose source prefix is empty.
  pub route_total : (payload tables : List ℕ) → Checks (IsRoute payload) (route payload tables)
  unfolding route
  route_total payload tables = Ensures-ensure (leb 12 (length payload)) _ _ λ long.
      let twelve = leb→le 12 (length payload) long in
      Ensures-index payload 0 (omega arith) λ family _.
        Ensures-if (not (family == 2) && not (family == 10)) (λ _. holds tt)
          λ _. Ensures-index payload 7 (omega arith) λ type type_at.
            Ensures-index payload 2 (omega arith) λ src_len src_at.
              Ensures-bind (u32n_from payload 8 (omega arith)) λ flags _.
                Ensures-if (not (type == 1) || not (src_len == 0) || not (bit_and flags 0x200 == 0))
                  (λ _. holds tt)
                  λ plain.
                    let one : type ≡ 1 = ground arith in
                    let zero_source : src_len ≡ 0 = ground arith in
                    let width : ℕ = if family == 2 then 4 else 16 in
                    Ensures-index payload 1 (omega arith) λ len _.
                      Ensures-ensure (leb len (width * 8)) _ _ λ _.
                        Ensures-index payload 4 (omega arith) λ table _.
                          Ensures-slice_from payload 12 _ (omega arith) (
                            Ensures-bind
                              (route_attributes_total _ width (drop 12 payload) _ (omega arith))
                              λ s _.
                                route_prefix_total width len tables payload s (type_at ∙ ap ok one)
                                  (src_at ∙ ap ok zero_source))

pub dump_status_total :
    (payload : List ℕ) (saw_route : Bool) → Checks (λ u. Unit {0}) (dump_status payload saw_route)
unfolding dump_status
dump_status_total [] saw_route = holds tt
dump_status_total (b ∷ bs) saw_route = Ensures-ensure (leb 4 (length (b ∷ bs))) _ _ λ long.
    Ensures-bind (u32n_total (b ∷ bs) (leb→le 4 _ long)) λ code h.
      Ensures-weaken (ensure-Checks (code == 0 || code == 4294967294 && not saw_route) _) λ u h'. tt

pub error_code_total :
    (payload : List ℕ) (text : String)
    → Checks (λ code. Unit {0}) (ensure (leb 4 (length payload)) text >> u32n payload)
error_code_total payload text =
    Ensures-ensure (leb 4 (length payload)) _ _ λ long. u32n_total payload (leb→le 4 _ long)
