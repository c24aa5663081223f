-- ===== src/Wire/Frame/Exact.antt =====
-- `read_frame` on any stream: it returns, with a frame or with a framing error.
use ubgp.Base.{
  ℕ, ◌+◌, ◌-◌, ◌≤◌, ◌<◌, ◌≡◌, refl, All-drop, IsByte, subst, same_iff, Bool-cases, inl, inr, leb→le,
  message, protocol, unexpected_eof, String, as_u16, ◌/◌, ◌%◌, Bool, true, false, List, [], ◌∷◌,
  ◌++◌, length, take, drop, same, str_eq, leb, ◌>>◌, sym, be_u16, ◌>>=◌, le→leb, length-take,
  length-drop, take-append-drop, ap, ◌∙◌, IsBytes, Error, Result, ok, err, arith,
}
use ubgp.Base.Ensures.{Ensures, rejected, of_Returns}
use ubgp.Wire.Frame.{max_message, frame, read_exact, read_frame, marker, require}
use ubgp.Wire.Frame.RoundTrip.{after_marker, read_frame_front}
use ubgp.Wire.Faults.{Ensures-require}

-- A stream with sixteen bytes in front and three behind them.
record HasHeader (stream : List ℕ) : Type 0 where
  front : List ℕ
  hi : ℕ
  lo : ℕ
  kind : ℕ
  tail : List ℕ
  sixteen : length front ≡ 16
  parts : stream ≡ front ++ hi ∷ lo ∷ kind ∷ tail
  cut : hi ∷ lo ∷ kind ∷ tail ≡ drop 16 stream

split_header : (stream : List ℕ) → 19 ≤ length stream → HasHeader stream
split_header stream h = three (drop 16 stream) refl
  where
    three : (l : List ℕ) → l ≡ drop 16 stream → HasHeader stream
    three (hi ∷ lo ∷ kind ∷ tail) e = record {
      front = take 16 stream;
      hi = hi;
      lo = lo;
      kind = kind;
      tail = tail;
      sixteen = omega (arith, length-take 16 stream);
      parts = rw e (sym (take-append-drop 16 stream));
      cut = e;
    }
    three (hi ∷ lo ∷ []) e = absurd (omega (arith, length-drop 16 stream, ap length e))
    three (hi ∷ []) e = absurd (omega (arith, length-drop 16 stream, ap length e))
    three [] e = absurd (omega (arith, length-drop 16 stream, ap length e))

read_frame_short :
    (stream : List ℕ) → leb 19 (length stream) ≡ false → read_frame stream ≡ err unexpected_eof
unfolding read_frame
read_frame_short stream h = rw h

after_marker_inv :
    (hi lo k : ℕ) (stream : List ℕ) {kind : ℕ} {body rest : List ℕ}
    → after_marker hi lo k stream ≡ ok ((kind, body), rest)
    → (k ≡ kind)
      × (stream ≡ body ++ rest)
      × (be_u16 hi lo ≡ length body + 19)
      × (be_u16 hi lo ≤ max_message)
unfolding read_exact
after_marker_inv hi lo k stream h =
    ground
      (arith, take-append-drop (be_u16 hi lo - 19) stream, length-take (be_u16 hi lo - 19) stream)

require-bind_inv :
    {A : Type 0} (b : Bool) (code subcode : ℕ) (reason : String) {m : Result A} {a : A}
    → (require b code subcode reason >> m) ≡ ok a
    → (b ≡ true) × (m ≡ ok a)
require-bind_inv true code subcode reason h = (refl, h)
require-bind_inv false code subcode reason h = cc

-- A header's length bytes are those of the length.
frame_of :
    (hi lo kind : ℕ) (body rest : List ℕ)
    → hi < 256
    → lo < 256
    → be_u16 hi lo ≡ length body + 19
    → be_u16 hi lo ≤ max_message
    → (frame kind body >>= λ packet. ok (packet ++ rest))
      ≡ ok (marker ++ hi ∷ lo ∷ kind ∷ (body ++ rest))
unfolding frame
frame_of hi lo kind body rest h l e fits =
    let top : as_u16 (length body + 19) / 256 % 256 ≡ hi = omega arith in
    let low : as_u16 (length body + 19) % 256 ≡ lo = omega arith in
    rw (le→leb (length body + 19) max_message (omega arith), top, low)

read_frame_inv :
    (front : List ℕ) (hi lo k : ℕ) (tail : List ℕ) (kind : ℕ) (body rest : List ℕ)
    → length front ≡ 16
    → hi < 256
    → lo < 256
    → read_frame (front ++ hi ∷ lo ∷ k ∷ tail) ≡ ok ((kind, body), rest)
    → (frame kind body >>= λ packet. ok (packet ++ rest)) ≡ ok (front ++ hi ∷ lo ∷ k ∷ tail)
read_frame_inv front hi lo k tail kind body rest sixteen bh bl h =
    let (marked, inner) =
      require-bind_inv (same front marker) 1 1 "invalid marker"
        (sym (read_frame_front front hi lo k tail sixteen) ∙ h) in
    let (kinds, parts, len, fits) = after_marker_inv hi lo k tail inner in
    rw ((same_iff front marker).0 marked, kinds, parts)
      (frame_of hi lo kind body rest bh bl len fits)

-- Whatever is read is a frame: an accepted stream of bytes is the frame of the type and body that
-- come back, followed by the stream that is left.
pub read_frame_exact :
    (stream : List ℕ) (kind : ℕ) (body rest : List ℕ)
    → IsBytes stream
    → read_frame stream ≡ ok ((kind, body), rest)
    → (frame kind body >>= λ packet. ok (packet ++ rest)) ≡ ok stream
read_frame_exact stream kind body rest bytes h = elim (Bool-cases (leb 19 (length stream))) [
  | inr short ↦ cc (read_frame_short stream short)
  | inl long ↦
      let d = split_header stream (leb→le 19 (length stream) long) in
      let octets = subst IsBytes (sym d.cut) (All-drop IsByte 16 stream bytes) in
      rw d.parts (
        read_frame_inv d.front d.hi d.lo d.kind d.tail kind body rest d.sixteen octets.0 octets.1.0
          (rw d.parts at h))
]

-- Framing faults are protocol errors with code 1, or the early end of the stream.
abbrev pub IsFrameError : Error → Type 0
IsFrameError (protocol e) = e.code ≡ 1
IsFrameError unexpected_eof = Unit
IsFrameError (message text) = ⊥

after_marker_total :
    (hi lo k : ℕ) (stream : List ℕ)
    → Ensures IsFrameError
        (λ r. (1 ≤ r.0.0) × (r.0.0 ≤ 5) × (length r.0.1 ≤ 4077))
        (after_marker hi lo k stream)
unfolding read_exact
after_marker_total hi lo k stream =
    of_Returns (after_marker hi lo k stream)
      (ground (arith, length-take (be_u16 hi lo - 19) stream))

-- On every stream `read_frame` returns. A value has a type from 1 to 5 and a body of at most 4077
-- bytes, and an error is a protocol error with code 1 or the early end of the stream.
pub read_frame_total :
    (stream : List ℕ)
    → Ensures IsFrameError
        (λ r. (1 ≤ r.0.0) × (r.0.0 ≤ 5) × (length r.0.1 ≤ 4077))
        (read_frame stream)
read_frame_total stream = elim (Bool-cases (leb 19 (length stream))) [
  | inr short ↦ rw (read_frame_short stream short) (rejected tt)
  | inl long ↦
      let d = split_header stream (leb→le 19 (length stream) long) in
      rw (d.parts, read_frame_front d.front d.hi d.lo d.kind d.tail d.sixteen)
        (Ensures-require (same d.front marker) 1 1 "invalid marker"
          (after_marker d.hi d.lo d.kind d.tail) (λ _. after_marker_total d.hi d.lo d.kind d.tail)
          refl)
]
