-- ===== src/Config/Parse.antt =====
-- `Config::parse` of src/config.rs. The `toml` crate is a function from the text to a configuration
-- or to its error, of which the program only uses where it starts.
pub mod Located
use ubgp.Base.{
  ℕ, suc, ◌+◌, ◌-◌, min, ◌⊎◌, inl, inr, Bool, true, false, Option, none, some, List, [], ◌∷◌, Str,
  length, ◌==◌, if◌then◌else◌, unwrap_or, Result, ok, err, panic, out_of_fuel, ◌>>=◌, slice,
}

-- `toml::de::Error`: the start of its span, if it has one, and its own text.
pub record TomlError : Type 0 where
  pub span_start : Option ℕ
  pub rendered : Str

-- The numbers in the error that is shown; the rest of its text is fixed.
pub record Location : Type 0 where
  pub line : ℕ
  pub column : ℕ

abbrev pub is_newline : ℕ → Bool
is_newline b = b == 10

-- `iter().filter(..).count()`
abbrev pub count_newlines : Str → ℕ
count_newlines [] = 0
count_newlines (b ∷ bs) = if is_newline b then suc (count_newlines bs) else count_newlines bs

abbrev pub behind_newline : Option ℕ → Bool → Option ℕ
behind_newline (some n) here = some (suc n)
behind_newline none here = if here then some 0 else none

-- `iter().rposition(..)`
abbrev pub last_newline : Str → Option ℕ
last_newline [] = none
last_newline (b ∷ bs) = behind_newline (last_newline bs) (is_newline b)

-- `map_or(start + 1, |n| start - n)`
abbrev pub column_at : ℕ → Option ℕ → ℕ
column_at start none = start + 1
column_at start (some n) = start - n

-- The closure of `map_err`.
unfoldable pub locate : Str → TomlError → Result Location
locate text error =
    let start = min (unwrap_or error.span_start 0) (length text) in
    do
      before ← slice text 0 start
      ok (record {
        line = count_newlines before + 1;
        column = column_at start (last_newline before);
      })

module _ {A : Type 0} (from_str : Str → TomlError ⊎ A) where
  -- What the crate gives, its errors replaced.
  unfoldable pub parsed : Str → TomlError ⊎ A → Result (Location ⊎ A)
  parsed text (inl error) = locate text error >>= λ l. ok (inl l)
  parsed text (inr config) = ok (inr config)

  unfoldable pub parse : Str → Result (Location ⊎ A)
  parse text = parsed text (from_str text)
