-- ===== src/Management/Line.antt =====
-- `line` of src/management.rs: one command, read byte by byte, with the Telnet commands in between.
-- The stream is the list of the bytes to come, behind which it is closed or silent.
pub mod Bounds
pub mod Plain
use ubgp.Base.{
  ℕ, ◌+◌, Bool, true, false, not, ◌&&◌, ◌||◌, Option, none, some, List, [], ◌∷◌, ◌++◌, Str, length,
  leb, ltb, is_empty, ◌==◌, if◌then◌else◌, Result, Checked, ok, err, message, ensure, ◌>>=◌, ◌>>◌,
}

-- The state of the Telnet reader: text, behind IAC, behind IAC and an option command, in a
-- subnegotiation, behind IAC in a subnegotiation.
pub data Telnet : Type 0 where
  text command option subnegotiation subnegotiation_iac : Telnet

-- The locals of the loop.
pub record Scan : Type 0 where
  pub bytes : List ℕ
  pub state : Telnet
  pub option_command : ℕ
  pub wire_bytes : ℕ

-- What was written, and how many writes there were.
pub record Output (A : Type 0) : Type 0 where
  pub written : List A
  pub writes : ℕ

-- `Vec::pop`
abbrev pub pop : List ℕ → List ℕ
pop [] = []
pop (x ∷ []) = []
pop (x ∷ y ∷ ys) = x ∷ pop (y ∷ ys)

-- `String::from_utf8`: the ranges of the bytes that must follow a first byte.
abbrev any_byte : ℕ × ℕ
any_byte = (0x80, 0xbf)

unfoldable pub followers : ℕ → Option (List (ℕ × ℕ))
followers b =
    if leb b 0x7f
    then some []
    else if leb 0xc2 b && leb b 0xdf
    then some (any_byte ∷ [])
    else if b == 0xe0
    then some ((0xa0, 0xbf) ∷ any_byte ∷ [])
    else if b == 0xed
    then some ((0x80, 0x9f) ∷ any_byte ∷ [])
    else if leb 0xe1 b && leb b 0xef
    then some (any_byte ∷ any_byte ∷ [])
    else if b == 0xf0
    then some ((0x90, 0xbf) ∷ any_byte ∷ any_byte ∷ [])
    else if leb 0xf1 b && leb b 0xf3
    then some (any_byte ∷ any_byte ∷ any_byte ∷ [])
    else if b == 0xf4
    then some ((0x80, 0x8f) ∷ any_byte ∷ any_byte ∷ [])
    else none

unfoldable pub is_utf8 : List (ℕ × ℕ) → List ℕ → Bool
is_utf8 pending [] = is_empty pending
is_utf8 ((lo, hi) ∷ pending) (b ∷ bs) = leb lo b && leb b hi && is_utf8 pending bs
is_utf8 [] (b ∷ bs) = elim (followers b) [ none ↦ false | some pending ↦ is_utf8 pending bs ]

abbrev pub from_utf8 : List ℕ → Result Str
from_utf8 bytes = ensure (is_utf8 [] bytes) "invalid utf-8" >> ok bytes

-- What a round of the loop leads to: another round, or `return` with `skip_lf`.
pub data Next : Type 0 where
  again : Scan → Next
  finished : Bool → List ℕ → Next

-- The arm of the text.
unfoldable pub take_text : ℕ → Scan → Result Next
take_text b s =
    if b == 255
    then ok (again (record s { state = command }))
    else if b == 10
    then ok (finished false s.bytes)
    else if b == 13
    then ok (finished true s.bytes)
    else if b == 0
    then ok (again s)
    else if b == 8 || b == 127
    then ok (again (record s { bytes = pop s.bytes }))
    else if leb 32 b && leb b 126 || b == 9
    then (do
      let bytes = s.bytes ++ (b ∷ [])
      ensure (leb (length bytes) 512) "CLI command too long"
      ok (again (record s { bytes = bytes })))
    else ok (again s)

-- The arm behind IAC.
abbrev pub take_command : ℕ → Scan → Scan
take_command b s =
    let is_option = leb 251 b && leb b 254 in
    record s {
      option_command = if is_option then b else s.option_command;
      state = if is_option then option else if b == 250 then subnegotiation else text;
    }

-- The refusal of an option: DONT for WILL, WONT for DO.
abbrev pub refusal : ℕ → ℕ → List ℕ
refusal asked b =
    if asked == 251 then 255 ∷ 254 ∷ b ∷ [] else if asked == 253 then 255 ∷ 252 ∷ b ∷ [] else []

-- The command, `skip_lf`, the bytes that are left and what was written.
pub record Read : Type 0 where
  pub command_line : Option Str
  pub skip_lf_after : Bool
  pub rest : List ℕ
  pub output : Output ℕ

-- What follows a round: the next one, or the result.
unfoldable pub resume : (Scan → Output ℕ → Result Read) → List ℕ → Next × Output ℕ → Result Read
resume go input (again s, out) = go s out
resume go input (finished skip bytes, out) = do
  str ← from_utf8 bytes
  ok (record { command_line = some str; skip_lf_after = skip; rest = input; output = out })

-- `write`: `can_write` says which writes reach the client within the deadline.
module _ (can_write : ℕ → Bool) where
  unfoldable pub write : {A : Type 0} → List A → Output A → Result (Output A)
  write bytes out = do
    ensure (can_write out.writes) "CLI write timeout"
    ok (record { written = out.written ++ bytes; writes = out.writes + 1 })

  unfoldable pub refuse : ℕ → ℕ → Output ℕ → Result (Output ℕ)
  refuse asked b out = if asked == 251 || asked == 253 then write (refusal asked b) out else ok out

  -- The match on the state.
  unfoldable pub take_byte : Telnet → ℕ → Scan → Output ℕ → Result (Next × Output ℕ)
  take_byte text b s out = take_text b s >>= λ next. ok (next, out)
  take_byte command b s out = ok (again (take_command b s), out)
  take_byte option b s out =
      refuse s.option_command b out >>= λ out'. ok (again (record s { state = text }), out')
  take_byte subnegotiation b s out =
      ok (again (record s { state = if b == 255 then subnegotiation_iac else subnegotiation }), out)
  take_byte subnegotiation_iac b s out =
      ok (again (record s { state = if b == 240 then text else subnegotiation }), out)

  -- One round behind the read, with `skip_lf`.
  unfoldable pub round : ℕ → Bool → Scan → Output ℕ → Result (Next × Output ℕ)
  round b skip_lf s out = if skip_lf && (b == 10 || b == 0) then ok (again s, out) else (do
    let s' = record s { wire_bytes = s.wire_bytes + 1 }
    ensure (leb s'.wire_bytes 8192) "CLI input limit exceeded"
    take_byte s'.state b s' out)

  -- `closed` says whether the client closes the stream behind its last byte.
  unfoldable pub read : Bool → List ℕ → Bool → Scan → Output ℕ → Result Read
  read closed [] skip_lf s out = do
    ensure closed "CLI input timeout"
    ok (record { command_line = none; skip_lf_after = skip_lf; rest = []; output = out })
  read closed (b ∷ input) skip_lf s out =
      round b skip_lf s out >>= resume (read closed input false) input

  abbrev pub line : Bool → List ℕ → Bool → Output ℕ → Result Read
  line closed input skip_lf out =
      read closed input skip_lf
        (record { bytes = []; state = text; option_command = 0; wire_bytes = 0 }) out
