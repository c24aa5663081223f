-- ===== src/Config/Parse/Located.antt =====
-- Where the error of `Config::parse` is, and what it can reveal.
use ubgp.Base.{
  ℕ, zero, suc, ◌+◌, ◌-◌, ◌≡◌, min, refl, sym, ap, ◌∙◌, ◌⊎◌, inl, inr, Option, none, some, [], ◌∷◌,
  Str, length, if◌then◌else◌, take, unwrap_or, ok, slice_lem, arith, length-take, Bool-cases,
}
use ubgp.Config.Parse.{
  TomlError, Location, is_newline, count_newlines, last_newline, behind_newline, column_at, locate,
  parse, parsed,
}

-- An editor's position, which a byte moves.
abbrev pub advance : ℕ → Location → Location
advance b l =
    if is_newline b
    then record { line = l.line + 1; column = 1 }
    else record { line = l.line; column = l.column + 1 }

abbrev pub advance_all : Str → Location → Location
advance_all [] l = l
advance_all (b ∷ bs) l = advance_all bs (advance b l)

abbrev pub origin : Location
origin = record { line = 1; column = 1 }

-- The column behind `size` bytes, by the last newline in them and the column before.
abbrev column_after : Option ℕ → ℕ → ℕ → ℕ
column_after none column size = column + size
column_after (some n) column size = size - n

at_place :
    {x y v w : ℕ}
    → x ≡ y
    → v ≡ w
    → ◌≡◌ {A = Location} (record { line = x; column = v }) (record { line = y; column = w })
at_place h k = rw (h, k)

-- A byte in front.
column_after-advance :
    (o : Option ℕ) (b : ℕ) (l : Location) (size : ℕ)
    → column_after o (advance b l).column size
      ≡ column_after (behind_newline o (is_newline b)) l.column (suc size)
column_after-advance (some n) b l size = omega arith
column_after-advance none b l size = elim (Bool-cases (is_newline b)) [
  | inl ends ↦ rw ends (omega arith)
  | inr other ↦ rw other (omega arith)
]

count_newlines-advance :
    (bs : Str) (b : ℕ) (l : Location)
    → count_newlines bs + (advance b l).line ≡ count_newlines (b ∷ bs) + l.line
count_newlines-advance bs b l = elim (Bool-cases (is_newline b)) [
  | inl ends ↦ rw ends (omega arith)
  | inr other ↦ rw other refl
]

advance_all-location :
    (bs : Str) (l : Location)
    → advance_all bs l ≡ record {
      line = count_newlines bs + l.line;
      column = column_after (last_newline bs) l.column (length bs);
    }
advance_all-location [] l = at_place (omega arith) (omega arith)
advance_all-location (b ∷ bs) l =
    advance_all-location bs (advance b l)
    ∙ at_place (count_newlines-advance bs b l)
        (column_after-advance (last_newline bs) b l (length bs))

column_same :
    (o : Option ℕ) (start size : ℕ) → size ≡ start → column_at start o ≡ column_after o 1 size
column_same none start size h = omega arith
column_same (some n) start size h = omega arith

-- Where the crate's error starts.
abbrev pub start_of : Str → TomlError → ℕ
start_of text error = min (unwrap_or error.span_start 0) (length text)

locate-advance_all :
    (text : Str) (error : TomlError)
    → locate text error ≡ ok (advance_all (take (start_of text error) text) origin)
unfolding locate
locate-advance_all text error =
    let start = start_of text error in
    rw
      (
        slice_lem text 0 start (omega arith) (omega arith),
        advance_all-location (take start text) origin,
      )
      (ap ok (
        at_place refl (
          column_same (last_newline (take start text)) start (length (take start text))
            (omega (arith, length-take start text)))))

-- A text as far as its line ends go.
abbrev pub SameLines : Str → Str → Type 0
SameLines [] [] = Unit
SameLines [] (y ∷ ys) = ⊥
SameLines (x ∷ xs) [] = ⊥
SameLines (x ∷ xs) (y ∷ ys) = (is_newline x ≡ is_newline y) × SameLines xs ys

SameLines-length : (xs ys : Str) → SameLines xs ys → length xs ≡ length ys
SameLines-length [] [] h = refl
SameLines-length [] (y ∷ ys) h = absurd h
SameLines-length (x ∷ xs) [] h = absurd h
SameLines-length (x ∷ xs) (y ∷ ys) h = ap suc (SameLines-length xs ys h.1)

SameLines-advance_all :
    (k : ℕ) (xs ys : Str) (l : Location)
    → SameLines xs ys
    → advance_all (take k xs) l ≡ advance_all (take k ys) l
SameLines-advance_all zero xs ys l h = refl
SameLines-advance_all (suc k) [] [] l h = refl
SameLines-advance_all (suc k) [] (y ∷ ys) l h = absurd h
SameLines-advance_all (suc k) (x ∷ xs) [] l h = absurd h
SameLines-advance_all (suc k) (x ∷ xs) (y ∷ ys) l h =
    ap (λ s. advance_all (take k xs) s)
      (ap
        (λ b.
          if b
          then record { line = l.line + 1; column = 1 }
          else record { line = l.line; column = l.column + 1 })
        h.0)
    ∙ SameLines-advance_all k xs ys (advance y l) h.1

module _ {A : Type 0} (from_str : Str → TomlError ⊎ A) where
  -- When the crate refuses a text, `parse` does not panic and shows the line and column at which an
  -- editor stands that has read the text up to the start of the error, and it shows the same for
  -- any other text with the same lengths of lines that is refused at the same place: nothing else
  -- of the text, and nothing of the text of the crate's error, is shown.
  pub parse-advance_all :
      (text text' : Str) (error error' : TomlError)
      → from_str text ≡ inl error
      → from_str text' ≡ inl error'
      → error.span_start ≡ error'.span_start
      → SameLines text text'
      → (parse from_str text ≡ ok (inl (advance_all (take (start_of text error) text) origin)))
        × (parse from_str text' ≡ parse from_str text)
  unfolding parse parsed
  parse-advance_all text text' error error' refused refused' start lines =
      let size = SameLines-length text text' lines in
      let same_start : start_of text error ≡ start_of text' error' = rw (start, size) refl in
      rw (refused, refused', locate-advance_all text error, locate-advance_all text' error')
        (
          refl,
          ap (λ x. ok (inl x))
              (ap (λ k. advance_all (take k text') origin) (sym same_start)
                ∙ sym (SameLines-advance_all (start_of text error) text text' origin lines)),
        )
