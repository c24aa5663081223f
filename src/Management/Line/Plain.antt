-- ===== src/Management/Line/Plain.antt =====
-- Reading a command that a client without Telnet options sends.
use ubgp.Base.{
  All-append, ℕ, ◌+◌, ◌≤◌, ◌≡◌, ap, refl, Bool, true, false, ◌&&◌, ◌||◌, some, List, [], ◌∷◌, ◌++◌,
  length, All, length-append, leb, ◌==◌, Result, ok, ◌>>=◌, arith, append_assoc, append-nil, le→leb,
}
use ubgp.Management.Line.{
  text, Scan, Output, is_utf8, followers, again, take_text, Read, take_byte, round, resume, read,
  line,
}
use ubgp.Management.Line.Bounds.{IsText, IsCommandLine}

followers_ascii : (b : ℕ) → IsText b → followers b ≡ some []
unfolding followers
followers_ascii b h = ground arith

is_utf8_ascii : (bytes : List ℕ) → All IsText bytes → is_utf8 [] bytes ≡ true
unfolding is_utf8
is_utf8_ascii [] h = refl
is_utf8_ascii (b ∷ bs) (h, hs) = rw (is_utf8, followers_ascii b h) (is_utf8_ascii bs hs)

take_text-text :
    (b : ℕ) (s : Scan)
    → IsText b
    → length s.bytes + 1 ≤ 512
    → take_text b s ≡ ok (again (record s { bytes = s.bytes ++ (b ∷ []) }))
unfolding take_text
take_text-text b s h few =
    let fits : leb (length (s.bytes ++ (b ∷ []))) 512 ≡ true =
      le→leb _ 512 (omega (arith, length-append s.bytes (b ∷ []))) in
    let e1 : (b == 255) ≡ false = ground arith in
    let e2 : (b == 10) ≡ false = ground arith in
    let e3 : (b == 13) ≡ false = ground arith in
    let e4 : (b == 0) ≡ false = ground arith in
    let e5 : (b == 8 || b == 127) ≡ false = ground arith in rw (e1, e2, e3, e4, e5, h, fits) refl

module _ (can_write : ℕ → Bool) where
  round-text :
      (b : ℕ) (skip_lf : Bool) (acc : List ℕ) (w : ℕ) (out : Output ℕ)
      → IsText b
      → length acc + 1 ≤ 512
      → w + 1 ≤ 8192
      → round can_write b skip_lf
          (record { bytes = acc; state = text; option_command = 0; wire_bytes = w })
          out
        ≡ ok (
          again (record {
            bytes = acc ++ (b ∷ []);
            state = text;
            option_command = 0;
            wire_bytes = w + 1;
          }),
          out,
        )
  unfolding round take_byte
  round-text b skip_lf acc w out h few small =
      let e : (skip_lf && (b == 10 || b == 0)) ≡ false = ground arith in
      rw (e, le→leb (w + 1) 8192 small)
        (ap (λ r. r >>= λ next. ok (next, out)) (take_text-text b _ h few))

  -- The result of reading this command.
  abbrev pub Gives : List ℕ → List ℕ → Output ℕ → Result Read → Type 0
  Gives chars rest out r =
      r ≡ ok (record { command_line = some chars; skip_lf_after = true; rest = rest; output = out })

  read-cr :
      (closed : Bool) (rest : List ℕ) (skip_lf : Bool) (acc : List ℕ) (w : ℕ) (out : Output ℕ)
      → All IsText acc
      → w + 1 ≤ 8192
      → Gives acc rest out (
          read can_write closed
            (13 ∷ rest)
            skip_lf
            (record { bytes = acc; state = text; option_command = 0; wire_bytes = w })
            out)
  unfolding read round take_byte take_text resume
  read-cr closed rest false acc w out ha small =
      rw (le→leb (w + 1) 8192 small, is_utf8_ascii acc ha) refl
  read-cr closed rest true acc w out ha small =
      rw (le→leb (w + 1) 8192 small, is_utf8_ascii acc ha) refl

  read-text :
      (closed : Bool) (chars rest : List ℕ) (skip_lf : Bool) (acc : List ℕ) (w : ℕ) (out : Output ℕ)
      → All IsText chars
      → All IsText acc
      → length acc + length chars ≤ 512
      → w + length chars + 1 ≤ 8192
      → Gives (acc ++ chars) rest out (
          read can_write closed
            (chars ++ (13 ∷ rest))
            skip_lf
            (record { bytes = acc; state = text; option_command = 0; wire_bytes = w })
            out)
  unfolding read resume
  read-text closed [] rest skip_lf acc w out hs ha few small =
      rw (append-nil acc) (read-cr closed rest skip_lf acc w out ha (omega arith))
  read-text closed (b ∷ chars) rest skip_lf acc w out (h, hs) ha few small =
      rw
        (
          round-text b skip_lf acc w out h (omega arith) (omega arith),
          ← append_assoc acc (b ∷ []) chars,
        )
        (read-text closed chars rest false (acc ++ (b ∷ [])) (w + 1) out hs
          (All-append IsText acc (b ∷ []) ha (h, tt)) (omega (arith, length-append acc (b ∷ [])))
          (omega arith))

  -- A command of at most 512 printable characters and tabs that ends in CR is read as it is, with
  -- or without the LF of the command before it, and what follows it is left.
  pub line-Gives :
      (closed : Bool) (chars rest : List ℕ) (skip_lf : Bool) (out : Output ℕ)
      → IsCommandLine chars
      → Gives chars rest out (line can_write closed (chars ++ (13 ∷ rest)) skip_lf out)
        × Gives chars rest out (line can_write closed (10 ∷ (chars ++ (13 ∷ rest))) true out)
  unfolding read round resume
  line-Gives closed chars rest skip_lf out (few, h) = (
    read-text closed chars rest skip_lf [] 0 out h tt (omega arith) (omega arith),
    read-text closed chars rest false [] 0 out h tt (omega arith) (omega arith),
  )
