-- ===== src/Base/Words.antt =====
-- Bytes, and the big- and little-endian readings of words.
use Prim.Native.Nat.{ℕ, ◌+◌, ◌*◌, ◌/◌, ◌%◌, ◌<◌}
use mathlib.Core.List.{List, [], ◌∷◌}

abbrev pub IsByte : ℕ → Type 0
IsByte b = b < 256

-- `u16::from_be_bytes([a, b])` and `u32::from_le_bytes([a, b, c, d])`
abbrev pub u16_from_be : ℕ → ℕ → ℕ
u16_from_be a b = a * 256 + b

abbrev pub u32_from_le : ℕ → ℕ → ℕ → ℕ → ℕ
u32_from_le a b c d = a + b * 0x100 + c * 0x1_0000 + d * 0x100_0000

-- `(n as u16).to_be_bytes()`
abbrev pub u16_to_be : ℕ → List ℕ
u16_to_be n = (n / 256 % 256) ∷ (n % 256) ∷ []
