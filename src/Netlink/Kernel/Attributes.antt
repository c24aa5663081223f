-- ===== src/Netlink/Kernel/Attributes.antt =====
-- The loop of `route` over attributes that the kernel writes.
use ubgp.Base.{
  ℕ, zero, suc, ◌+◌, ◌-◌, ◌*◌, ◌/◌, ◌%◌, ◌≤◌, ◌≡◌, refl, sym, ap, ◌∙◌, Bool, true, false, Option,
  none, some, List, [], ◌∷◌, ◌++◌, length, replicate, All, ◌==◌, ==_iff, le→leb, Bool-cases, inl,
  inr, if◌then◌else◌, ok, arith, append_assoc, slice_from, length-append,
}
use ubgp.Base.Slices.{slice_middle, slice_from-append}
use ubgp.Wire.Open.{is_some}
use ubgp.Netlink.Message.{RouteScan, route_attribute, route_attributes, align}
use ubgp.Netlink.Snapshot.{u16_ne}
use ubgp.Netlink.Kernel.Words.{u32n-word, length-padded, slice_from-padded}
use ubgp.Netlink.Kernel.{
  padding, Attribute, attribute_bytes, attributes_bytes, type_of, last_value, table_in, word,
  IsAttribute,
}

-- What an attribute changes.
abbrev note : ℕ → Attribute → RouteScan → RouteScan
note width a s =
    if type_of a == 1
    then record s { dst = a.value ++ replicate (16 - width) 0; has_dst = true }
    else if type_of a == 15
    then record s { table = word a.value }
    else s

abbrev note_all : ℕ → List Attribute → RouteScan → RouteScan
note_all width [] s = s
note_all width (a ∷ l) s = note_all width l (note width a s)

-- The header of an attribute.
abbrev header : Attribute → List ℕ
header a = u16_ne (4 + length a.value) ++ u16_ne a.kind

note-route_attribute :
    (width : ℕ) (a : Attribute) (rest : List ℕ) (s : RouteScan)
    → IsAttribute width a
    → route_attribute width (type_of a) (4 + length a.value) (header a ++ (a.value ++ rest)) s
      ≡ ok (note width a s)
unfolding route_attribute slice_from
note-route_attribute width a rest s h = elim (Bool-cases (type_of a == 1)) [
  | inl dst ↦
      let size = h.address ((==_iff (type_of a) 1).0 dst) in
      rw (
        dst,
        slice_middle (header a) a.value rest 4 (4 + length a.value) refl refl,
        size,
        (==_iff (4 + width) (width + 4)).1 (omega arith),
      )
  | inr other ↦ elim (Bool-cases (type_of a == 15)) [
    | inl table ↦
        let size = h.table ((==_iff (type_of a) 15).0 table) in
        rw (
          other,
          table,
          size,
          slice_from-append (header a) (a.value ++ rest) 4 refl,
          u32n-word a.value rest size,
        )
    | inr neither ↦ rw (other, neither)
  ]
]

route_attributes-empty :
    (fuel width : ℕ) (rest : List ℕ) (s : RouteScan)
    → length rest ≡ 0
    → route_attributes fuel width rest s ≡ ok s
unfolding route_attributes
route_attributes-empty fuel width [] s h = refl
route_attributes-empty fuel width (b ∷ bs) s h = absurd (omega arith)

route_attributes-attribute :
    (fuel width : ℕ) (a : Attribute) (rest : List ℕ) (s : RouteScan)
    → IsAttribute width a
    → route_attributes (suc fuel) width (attribute_bytes a ++ rest) s
      ≡ route_attributes fuel width rest (note width a s)
unfolding route_attributes
route_attributes-attribute fuel width a rest s h =
    let n = 4 + length a.value in
    let pad = padding n in
    let whole = header a ++ (a.value ++ (pad ++ rest)) in
    let size = length-padded (header a) a.value rest n refl in
    let read : n % 256 + 256 * (n / 256 % 256) ≡ n = omega (arith, h.fits) in
    let kind_read : a.kind % 256 + 256 * (a.kind / 256 % 256) ≡ a.kind =
      omega (arith, h.kind_fits) in
    rw
      (
        append_assoc a.value pad rest,
        le→leb 4 (length whole) (omega arith),
        read,
        le→leb n (length whole) (omega arith),
        slice_from-append (u16_ne n) (u16_ne a.kind ++ (a.value ++ (pad ++ rest))) 2 refl,
        kind_read,
        note-route_attribute width a (pad ++ rest) s h,
        le→leb 4 n (omega arith),
      )
      (elim (Bool-cases (n == length whole)) [
        | inl last ↦
            let full = (==_iff n (length whole)).0 last in
            rw last (sym (route_attributes-empty fuel width rest (note width a s) (omega arith)))
        | inr more ↦ rw (
          more,
          le→leb (align n) (length whole) (omega arith),
          slice_from-padded (header a) a.value rest n refl,
        )
      ])

route_attributes-bytes :
    (fuel width : ℕ) (l : List Attribute) (s : RouteScan)
    → All (IsAttribute width) l
    → length (attributes_bytes l) ≤ fuel
    → route_attributes fuel width (attributes_bytes l) s ≡ ok (note_all width l s)
unfolding route_attributes
route_attributes-bytes fuel width [] s h room = refl
route_attributes-bytes zero width (a ∷ l) s h room = absurd (omega arith)
route_attributes-bytes (suc fuel) width (a ∷ l) s h room =
    route_attributes-attribute fuel width a (attributes_bytes l) s h.0
    ∙ route_attributes-bytes fuel width l (note width a s) h.1 (
        omega (
          arith,
          room,
          length-append (a.value ++ padding (4 + length a.value)) (attributes_bytes l),
        ))

-- What the loop has found, in terms of the values it has met.
abbrev pub dst_in : ℕ → Option (List ℕ) → List ℕ
dst_in width none = replicate 16 0
dst_in width (some d) = d ++ replicate (16 - width) 0

abbrev pub scan : ℕ → ℕ → Option (List ℕ) → Option (List ℕ) → RouteScan
scan width table t d = record {
  table = table_in table t;
  dst = dst_in width d;
  has_dst = is_some d;
}

note-scan :
    (width table : ℕ) (a : Attribute) (t d : Option (List ℕ))
    → note width a (scan width table t d)
      ≡ scan width table
          (if type_of a == 15 then some a.value else t)
          (if type_of a == 1 then some a.value else d)
note-scan width table a t d = elim (Bool-cases (type_of a == 1)) [
  | inl dst ↦ rw (dst, (==_iff (type_of a) 1).0 dst)
  | inr other ↦ elim (Bool-cases (type_of a == 15)) [
    | inl found ↦ rw (other, found)
    | inr neither ↦ rw (other, neither)
  ]
]

note_all-scan :
    (width table : ℕ) (l : List Attribute) (t d : Option (List ℕ))
    → note_all width l (scan width table t d)
      ≡ scan width table (last_value 15 t l) (last_value 1 d l)
note_all-scan width table [] t d = refl
note_all-scan width table (a ∷ l) t d =
    ap (note_all width l) (note-scan width table a t d) ∙ note_all-scan width table l _ _

pub route_attributes-scan :
    (fuel width table : ℕ) (l : List Attribute)
    → All (IsAttribute width) l
    → length (attributes_bytes l) ≤ fuel
    → route_attributes fuel width (attributes_bytes l) (scan width table none none)
      ≡ ok (scan width table (last_value 15 none l) (last_value 1 none l))
route_attributes-scan fuel width table l h room =
    route_attributes-bytes fuel width l (scan width table none none) h room
    ∙ ap ok (note_all-scan width table l none none)

-- An address has the length of its family.
abbrev pub IsSized : ℕ → Option (List ℕ) → Type 0
IsSized width none = Unit
IsSized width (some d) = length d ≡ width

IsSized-if :
    (b : Bool) {width : ℕ} (d : Option (List ℕ)) (value : List ℕ)
    → (b ≡ true → length value ≡ width)
    → IsSized width d
    → IsSized width (if b then some value else d)
IsSized-if true d value size h = size refl
IsSized-if false d value size h = h

pub last_value-IsSized :
    (width : ℕ) (l : List Attribute) (d : Option (List ℕ))
    → All (IsAttribute width) l
    → IsSized width d
    → IsSized width (last_value 1 d l)
last_value-IsSized width [] d h k = k
last_value-IsSized width (a ∷ l) d h k =
    last_value-IsSized width l (if type_of a == 1 then some a.value else d) h.1
      (IsSized-if (type_of a == 1) d a.value (λ e. h.0.address ((==_iff (type_of a) 1).0 e)) k)
