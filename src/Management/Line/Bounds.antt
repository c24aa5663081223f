-- ===== src/Management/Line/Bounds.antt =====
-- What `line` returns and writes, on any bytes.
use ubgp.Base.{
  &&_parts, ◌-◌, ◌⊎◌, inl, inr, Bool-cases, ℕ, ◌+◌, ◌≤◌, ◌≡◌, ◌∙◌, ap, sym, refl, Bool, true, false,
  ◌&&◌, ◌||◌, Option, none, some, List, [], ◌∷◌, ◌++◌, Str, length, All, All-append, leb, ◌==◌,
  if◌then◌else◌, Result, arith, append_assoc, append-nil, leb→le,
}
use ubgp.Base.Ensures.{Checks, holds, Ensures-weaken, Ensures-if, Ensures-bind, ensure-Checks}
use ubgp.Management.Line.{
  Telnet, text, command, option, subnegotiation, subnegotiation_iac, Scan, Output, pop, from_utf8,
  Next, again, finished, take_text, refusal, Read, write, refuse, take_byte, round, read, resume,
  line,
}

-- A printable ASCII character or a tab.
abbrev pub IsText : ℕ → Type 0
IsText b = (leb 32 b && leb b 126 || b == 9) ≡ true

abbrev pub IsCommandLine : List ℕ → Type 0
IsCommandLine bytes = (length bytes ≤ 512) × All IsText bytes

abbrev pub IsResult : Option Str → Type 0
IsResult none = Unit
IsResult (some bytes) = IsCommandLine bytes

abbrev pub count_some : Option Str → ℕ
count_some none = 0
count_some (some bytes) = 1

-- Answers that refuse options: IAC, DONT or WONT, and the option.
pub data Refusals : List ℕ → Type 0 where
  none_made : Refusals []
  refused :
      (word b : ℕ) {rest : List ℕ}
      → (word ≡ 252) ⊎ (word ≡ 254)
      → Refusals rest
      → Refusals (255 ∷ word ∷ b ∷ rest)

-- What is written between these is refusals.
pub record AddsRefusals (before after : Output ℕ) : Type 0 where
  pub answers : List ℕ
  pub appended : after.written ≡ before.written ++ answers
  pub refusals : Refusals answers

no_answer : (out : Output ℕ) → AddsRefusals out out
no_answer out = record {
  answers = [];
  appended = sym (append-nil out.written);
  refusals = none_made;
}

Refusals-append : {xs ys : List ℕ} → Refusals xs → Refusals ys → Refusals (xs ++ ys)
Refusals-append none_made k = k
Refusals-append (refused word b which h) k = refused word b which (Refusals-append h k)

AddsRefusals-trans : {a b c : Output ℕ} → AddsRefusals a b → AddsRefusals b c → AddsRefusals a c
AddsRefusals-trans {a} h k = record {
  answers = h.answers ++ k.answers;
  appended =
      k.appended ∙ ap (λ l. l ++ k.answers) h.appended ∙ append_assoc a.written h.answers k.answers;
  refusals = Refusals-append h.refusals k.refusals;
}

length-pop : (xs : List ℕ) → length (pop xs) ≤ length xs
length-pop [] = omega arith
length-pop (x ∷ []) = omega arith
length-pop (x ∷ y ∷ ys) = omega (arith, length-pop (y ∷ ys))

All-pop : (xs : List ℕ) → All IsText xs → All IsText (pop xs)
All-pop [] h = tt
All-pop (x ∷ []) h = tt
All-pop (x ∷ y ∷ ys) h = (h.0, All-pop (y ∷ ys) h.1)

-- What a round keeps of the locals: a command so far, and the count of bytes.
Keeps : ℕ → Next → Type 0
Keeps w (again s) = IsCommandLine s.bytes × (s.wire_bytes ≡ w)
Keeps w (finished skip bytes) = IsCommandLine bytes

take_text-Keeps :
    (b : ℕ) (s : Scan) → IsCommandLine s.bytes → Checks (Keeps s.wire_bytes) (take_text b s)
unfolding take_text Keeps
take_text-Keeps b s h =
    Ensures-if (b == 255) (λ e. holds (h, refl))
      λ e1.
        Ensures-if (b == 10) (λ e. holds h)
          λ e2.
            Ensures-if (b == 13) (λ e. holds h)
              λ e3.
                Ensures-if (b == 0) (λ e. holds (h, refl))
                  λ e4.
                    Ensures-if (b == 8 || b == 127)
                      (λ e.
                        holds ((omega (arith, length-pop s.bytes, h.0), All-pop s.bytes h.1), refl))
                      λ e5.
                        Ensures-if (leb 32 b && leb b 126 || b == 9)
                          (λ is_text.
                            let bytes = s.bytes ++ (b ∷ []) in
                            Ensures-bind (ensure-Checks (leb (length bytes) 512) _) λ u few. holds (
                              (
                                leb→le (length bytes) 512 few,
                                All-append IsText s.bytes (b ∷ []) h.1 (is_text, tt),
                              ),
                              refl,
                            ))
                          (λ e. holds (h, refl))

refusal-Refusals : (asked b : ℕ) → Refusals (refusal asked b)
refusal-Refusals asked b = elim (Bool-cases (asked == 251)) [
  | inl will ↦ rw will (refused 254 b (inr refl) none_made)
  | inr e ↦ elim (Bool-cases (asked == 253)) [
    | inl asks ↦ rw (e, asks) (refused 252 b (inl refl) none_made)
    | inr e' ↦ rw (e, e') none_made
  ]
]

-- What a round leads to, behind what was written.
abbrev Rounds : ℕ → Output ℕ → Next × Output ℕ → Type 0
Rounds w out r = Keeps w r.0 × AddsRefusals out r.1

from_utf8-Checks : (bytes : List ℕ) → Checks (λ str. str ≡ bytes) (from_utf8 bytes)
from_utf8-Checks bytes = Ensures-bind (ensure-Checks _ _) λ u e. holds refl

module _ (can_write : ℕ → Bool) where
  refuse-AddsRefusals :
      (asked b : ℕ) (out : Output ℕ) → Checks (AddsRefusals out) (refuse can_write asked b out)
  unfolding refuse write
  refuse-AddsRefusals asked b out =
      Ensures-if (asked == 251 || asked == 253)
        (λ e. Ensures-bind (ensure-Checks (can_write out.writes) _) λ u h. holds (record {
          answers = refusal asked b;
          appended = refl;
          refusals = refusal-Refusals asked b;
        }))
        (λ e. holds (no_answer out))

  take_byte-Rounds :
      (state : Telnet) (b : ℕ) (s : Scan) (out : Output ℕ)
      → IsCommandLine s.bytes
      → Checks (Rounds s.wire_bytes out) (take_byte can_write state b s out)
  unfolding take_byte Keeps
  take_byte-Rounds text b s out h =
      Ensures-bind (take_text-Keeps b s h) λ next k. holds (k, no_answer out)
  take_byte-Rounds command b s out h = holds ((h, refl), no_answer out)
  take_byte-Rounds option b s out h =
      Ensures-bind (refuse-AddsRefusals s.option_command b out) λ out' k. holds ((h, refl), k)
  take_byte-Rounds subnegotiation b s out h = holds ((h, refl), no_answer out)
  take_byte-Rounds subnegotiation_iac b s out h = holds ((h, refl), no_answer out)

  -- The bytes that a reading may still take.
  abbrev left : Bool → Scan → ℕ
  left skip_lf s = 8192 - s.wire_bytes + (if skip_lf then 1 else 0)

  RoundIn : Bool → Scan → Output ℕ → Next × Output ℕ → Type 0
  RoundIn skip_lf s out (again s', out') =
      IsCommandLine s'.bytes × (1 + left false s' ≤ left skip_lf s) × AddsRefusals out out'
  RoundIn skip_lf s out (finished skip bytes, out') =
      IsCommandLine bytes × (1 ≤ left skip_lf s) × AddsRefusals out out'

  take_byte-RoundIn :
      (skip_lf : Bool) (s : Scan) (out : Output ℕ) (r : Next × Output ℕ)
      → s.wire_bytes + 1 ≤ 8192
      → Rounds (s.wire_bytes + 1) out r
      → RoundIn skip_lf s out r
  unfolding Keeps RoundIn
  take_byte-RoundIn skip_lf s out (again s', out') few ((bytes, count), answers) =
      (bytes, ground arith, answers)
  take_byte-RoundIn skip_lf s out (finished skip bytes, out') few (h, answers) =
      (h, omega arith, answers)

  round-RoundIn :
      (b : ℕ) (skip_lf : Bool) (s : Scan) (out : Output ℕ)
      → IsCommandLine s.bytes
      → Checks (RoundIn skip_lf s out) (round can_write b skip_lf s out)
  unfolding round RoundIn
  round-RoundIn b skip_lf s out h =
      Ensures-if (skip_lf && (b == 10 || b == 0))
        (λ e.
          let skipping = (&&_parts skip_lf _ e).0 in
          holds (h, rw skipping (omega arith), no_answer out))
        λ e.
          let s' = record s { wire_bytes = s.wire_bytes + 1 } in
          Ensures-bind (ensure-Checks (leb s'.wire_bytes 8192) _) λ u few.
            Ensures-weaken (take_byte-Rounds s'.state b s' out h)
              λ r k. take_byte-RoundIn skip_lf s out r (leb→le s'.wire_bytes 8192 few) k

  -- What a reading gives.
  pub record Reads (input : List ℕ) (n : ℕ) (out : Output ℕ) (r : Read) : Type 0 where
    pub is_command_line : IsResult r.command_line
    pub taken : length input ≤ length r.rest + n
    -- A command takes a byte.
    pub shorter : length r.rest + count_some r.command_line ≤ length input
    pub answers : AddsRefusals out r.output

  resume-Reads :
      (go : Scan → Output ℕ → Result Read) (b : ℕ) (input : List ℕ) (skip_lf : Bool) (s : Scan)
      (out : Output ℕ) (r : Next × Output ℕ)
      → RoundIn skip_lf s out r
      → ((s' : Scan) (out' : Output ℕ)
          → IsCommandLine s'.bytes
          → Checks (Reads input (left false s') out') (go s' out'))
      → Checks (Reads (b ∷ input) (left skip_lf s) out) (resume go input r)
  unfolding resume RoundIn
  resume-Reads go b input skip_lf s out (again s', out') (h, fewer, answers) next =
      Ensures-weaken (next s' out' h) λ r k. record {
        is_command_line = k.is_command_line;
        taken = omega (arith, k.taken, fewer);
        shorter = omega (arith, k.shorter);
        answers = AddsRefusals-trans answers k.answers;
      }
  resume-Reads go b input skip_lf s out (finished skip bytes, out') (h, fewer, answers) next =
      Ensures-bind {R = λ str. str ≡ bytes} (from_utf8-Checks bytes) λ str e. holds (record {
        is_command_line = rw e h;
        taken = omega (arith, fewer);
        shorter = omega arith;
        answers = answers;
      })

  read-Reads :
      (closed : Bool) (input : List ℕ) (skip_lf : Bool) (s : Scan) (out : Output ℕ)
      → IsCommandLine s.bytes
      → Checks (Reads input (left skip_lf s) out) (read can_write closed input skip_lf s out)
  unfolding read RoundIn
  read-Reads closed [] skip_lf s out h = Ensures-bind (ensure-Checks closed _) λ u e.
      holds (record {
        is_command_line = tt;
        taken = omega arith;
        shorter = omega arith;
        answers = no_answer out;
      })
  read-Reads closed (b ∷ input) skip_lf s out h =
      Ensures-bind (round-RoundIn b skip_lf s out h) λ r k.
        resume-Reads (read can_write closed input false) b input skip_lf s out r k
          λ s' out'. read-Reads closed input false s' out'

  -- From the start of a command, `line` does not panic on any bytes. What it returns is at most 512
  -- printable characters and tabs, it takes at most 8193 bytes, and all it writes is refusals of
  -- options.
  pub line-Reads :
      (closed : Bool) (input : List ℕ) (skip_lf : Bool) (out : Output ℕ)
      → Checks (Reads input 8193 out) (line can_write closed input skip_lf out)
  line-Reads closed input skip_lf out =
      Ensures-weaken (read-Reads closed input skip_lf _ out (omega arith, tt)) λ r k. record {
        is_command_line = k.is_command_line;
        taken = ground (arith, k.taken);
        shorter = k.shorter;
        answers = k.answers;
      }
