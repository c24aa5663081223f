-- ===== src/Wire/Frame.antt =====
-- Framing in src/wire.rs: `frame`, `notification` and `read_frame`. A reader is the list of the
-- bytes that are still to come, and its end is the end of the stream.
pub mod RoundTrip
pub mod Exact
use ubgp.Base.{
  ℕ, ◌+◌, ◌-◌, min, String, Bool, true, false, not, ◌&&◌, List, [], ◌∷◌, ◌++◌, length, take, drop,
  replicate, leb, ◌==◌, same, str_eq, if◌then◌else◌, ProtocolError, Error, protocol, unexpected_eof,
  Result, Checked, ok, err, assert, index, slice, ◌>>=◌, ◌>>◌, as_u16, u16_be, be_u16,
}

abbrev pub max_message : ℕ
max_message = 4096

abbrev pub max_update_prefixes : ℕ
max_update_prefixes = 200

abbrev pub keepalive : ℕ
keepalive = 4

abbrev pub update_kind : ℕ
update_kind = 2

abbrev pub route_refresh : ℕ
route_refresh = 5

abbrev pub protocol_error : ℕ → ℕ → List ℕ → String → Error
protocol_error code subcode error_data reason =
    protocol (record { code = code; subcode = subcode; error_data = error_data; reason = reason })

abbrev pub require : Bool → ℕ → ℕ → String → Checked
require true code subcode reason = ok tt
require false code subcode reason = err (protocol_error code subcode [] reason)

abbrev pub u16b : List ℕ → Result ℕ
u16b b = do hi ← index b 0; lo ← index b 1; ok (be_u16 hi lo)

abbrev marker : List ℕ
marker = replicate 16 255

unfoldable pub frame : ℕ → List ℕ → Result (List ℕ)
frame kind body = do
  assert (leb (length body + 19) max_message)
  ok (marker ++ u16_be (as_u16 (length body + 19)) ++ kind ∷ body)

unfoldable pub notification : ℕ → ℕ → List ℕ → Result (List ℕ)
unfolding frame
notification code subcode error_data =
    frame 3 (code ∷ subcode ∷ take (min (length error_data) (max_message - 21)) error_data)

-- `AsyncReadExt::read_exact`: the bytes and the stream behind them, or the error of an early end.
unfoldable pub read_exact : ℕ → List ℕ → Result (List ℕ × List ℕ)
read_exact n stream =
    if leb n (length stream) then ok (take n stream, drop n stream) else err unexpected_eof

abbrev pub valid_length : ℕ → ℕ → Bool
valid_length kind len =
    if kind == 1
    then leb 29 len
    else if kind == 2
    then leb 23 len
    else if kind == 3
    then leb 21 len
    else if kind == 4
    then len == 19
    else if kind == 5
    then len == 23
    else false

unfoldable pub read_frame : List ℕ → Result ((ℕ × List ℕ) × List ℕ)
unfolding read_exact slice
read_frame reader = do
  (header, reader') ← read_exact 19 reader
  found ← slice header 0 16
  require (same found marker) 1 1 "invalid marker"
  field ← slice header 16 18
  len ← u16b field
  if not (leb 19 len && leb len max_message)
      then err (protocol_error 1 2 field "invalid message length")
      else do
        kind ← index header 18
        if not (leb 1 kind && leb kind 5)
            then err (protocol_error 1 3 (kind ∷ []) "invalid message type")
            else if not (valid_length kind len)
            then err (protocol_error 1 2 field "invalid length for message type")
            else do (body, rest) ← read_exact (len - 19) reader'; ok ((kind, body), rest)
