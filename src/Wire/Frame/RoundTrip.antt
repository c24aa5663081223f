-- ===== src/Wire/Frame/RoundTrip.antt =====
-- What `frame` writes, `read_frame` reads back, and it reads nothing else.
use ubgp.Base.{
  ℕ, ◌+◌, ◌-◌, ◌≤◌, ◌≡◌, refl, min, as_u16, ◌/◌, ◌%◌, true, not, ◌&&◌, List, [], ◌∷◌, ◌++◌, length,
  take, append_assoc, same, str_eq, leb, if◌then◌else◌, ◌>>◌, sym, length-append, take-append,
  drop-append, Str-discrete, be_u16, ◌>>=◌, le→leb, length-take, ◌∙◌, Result, ok, err, arith,
}
use ubgp.Base.Slices.{slice_middle, index-append}
use ubgp.Wire.Frame.{
  max_message, frame, notification, read_exact, read_frame, valid_length, marker, protocol_error,
  require,
}

read_exact-append : (n : ℕ) (xs ys : List ℕ) → n ≡ length xs → read_exact n (xs ++ ys) ≡ ok (xs, ys)
unfolding read_exact
read_exact-append n xs ys h = rw (
  le→leb n (length (xs ++ ys)) (omega (arith, length-append xs ys)),
  take-append n xs ys h,
  drop-append n xs ys h,
)

valid_length-kind :
    (kind len : ℕ) → valid_length kind len ≡ true → (1 ≤ kind) × (kind ≤ 5) × (19 ≤ len)
valid_length-kind kind len h = ground arith

-- What `read_frame` does behind the first sixteen bytes.
abbrev pub after_marker : ℕ → ℕ → ℕ → List ℕ → Result ((ℕ × List ℕ) × List ℕ)
after_marker hi lo kind stream =
    let len = be_u16 hi lo in
    let field = hi ∷ lo ∷ [] in
    if not (leb 19 len && leb len max_message)
    then err (protocol_error 1 2 field "invalid message length")
    else if not (leb 1 kind && leb kind 5)
    then err (protocol_error 1 3 (kind ∷ []) "invalid message type")
    else if not (valid_length kind len)
    then err (protocol_error 1 2 field "invalid length for message type")
    else (read_exact (len - 19) stream >>= λ (body, rest). ok ((kind, body), rest))

pub read_frame_front :
    (front : List ℕ) (hi lo kind : ℕ) (stream : List ℕ)
    → length front ≡ 16
    → read_frame (front ++ hi ∷ lo ∷ kind ∷ stream)
      ≡ (require (same front marker) 1 1 "invalid marker" >> after_marker hi lo kind stream)
unfolding read_frame
read_frame_front front hi lo kind stream h =
    let tail : List ℕ = hi ∷ lo ∷ kind ∷ [] in
    rw (
      ← append_assoc front tail stream,
      read_exact-append 19 (front ++ tail) stream (omega (arith, length-append front tail)),
      slice_middle [] front tail 0 16 refl (omega arith),
      slice_middle front (hi ∷ lo ∷ []) (kind ∷ []) 16 18 (sym h) (omega arith),
      index-append front tail 18 2 (omega arith),
    )

marker-same : same marker marker ≡ true
unfolding Str-discrete
marker-same = refl

after_marker-append :
    (hi lo kind : ℕ) (body rest : List ℕ)
    → be_u16 hi lo ≡ length body + 19
    → length body + 19 ≤ max_message
    → valid_length kind (length body + 19) ≡ true
    → after_marker hi lo kind (body ++ rest) ≡ ok ((kind, body), rest)
after_marker-append hi lo kind body rest e fits valid = ground (
  arith,
  valid_length-kind kind (length body + 19) valid,
  read_exact-append (be_u16 hi lo - 19) body rest,
)

-- A message that `frame` builds and whose length suits its type is read back, and the stream is
-- left where the message ends.
pub read_frame-frame :
    (kind : ℕ) (body rest : List ℕ)
    → length body + 19 ≤ max_message
    → valid_length kind (length body + 19) ≡ true
    → (frame kind body >>= λ packet. read_frame (packet ++ rest)) ≡ ok ((kind, body), rest)
unfolding frame
read_frame-frame kind body rest fits valid =
    let n = length body + 19 in
    rw (le→leb n max_message fits) (
      read_frame_front marker _ _ kind (body ++ rest) refl
      ∙ rw marker-same (
          after_marker-append (as_u16 n / 256 % 256) (as_u16 n % 256) kind body rest (omega arith)
            fits valid))

-- What is left of the data of a NOTIFICATION when it is cut to the message limit.
abbrev pub kept : List ℕ → List ℕ
kept error_data = take (min (length error_data) (max_message - 21)) error_data

-- `notification` never panics, whatever the data, and a reader gets code, subcode and as much of
-- the data as fits a message.
pub read_frame-notification :
    (code subcode : ℕ) (error_data rest : List ℕ)
    → (notification code subcode error_data >>= λ packet. read_frame (packet ++ rest))
      ≡ ok ((3, code ∷ subcode ∷ kept error_data), rest)
unfolding notification
read_frame-notification code subcode error_data rest =
    read_frame-frame 3 (code ∷ subcode ∷ kept error_data) rest
      (omega (arith, length-take (min (length error_data) (max_message - 21)) error_data))
      (ground arith)
