-- ===== src/Base/Bytes.antt =====
-- Big-endian bytes of machine words.
use Prim.Native.Nat.{ℕ, ◌+◌, ◌*◌, ◌/◌, ◌%◌, ◌<◌}
use mathlib.Core.List.{List, [], ◌∷◌}
use ubgp.Base.Lists.{All}

abbrev pub IsByte : ℕ → Type 0
IsByte b = b < 256

abbrev pub IsBytes : List ℕ → Type 0
IsBytes = All IsByte

-- `as u8`, `as u16`
abbrev pub as_u8 : ℕ → ℕ
as_u8 n = n % 256

abbrev pub as_u16 : ℕ → ℕ
as_u16 n = n % 65536

abbrev pub u16_be : ℕ → List ℕ
u16_be n = n / 256 % 256 ∷ n % 256 ∷ []

abbrev pub u32_be : ℕ → List ℕ
u32_be n = n / 16777216 % 256 ∷ n / 65536 % 256 ∷ n / 256 % 256 ∷ n % 256 ∷ []

-- `u16::from_be_bytes` and `u32::from_be_bytes`
abbrev pub be_u16 : ℕ → ℕ → ℕ
be_u16 hi lo = hi * 256 + lo

abbrev pub be_u32 : ℕ → ℕ → ℕ → ℕ → ℕ
be_u32 a b c d = a * 16777216 + b * 65536 + c * 256 + d
