-- ===== src/Wire.antt =====
-- The bytes of encoding/binary for the fixed sizes that the protocol uses. A value is a number in
-- range, and an int32 (EncodingType) is the uint32 with the same bits.
pub mod RoundTrip
use avacadovnc.Common.{ℕ, zero, suc, ◌+◌, ◌*◌, ◌/◌, ◌%◌, ◌^◌, ◌<◌, List, [], ◌∷◌}

abbrev pub IsU8 : ℕ → Type 0
IsU8 n = n < 256

abbrev pub IsU16 : ℕ → Type 0
IsU16 n = n < 65536

abbrev pub IsU32 : ℕ → Type 0
IsU32 n = n < 4294967296

-- `uint16(n)` and `uint32(n)`.
abbrev pub u16 : ℕ → ℕ
u16 n = n % 65536

abbrev pub u32 : ℕ → ℕ
u32 n = n % 4294967296

-- The conversions of Go keep the low byte.
abbrev pub byte : ℕ → ℕ
byte n = n % 256

unfoldable pub be16 : ℕ → List ℕ
be16 n = byte (n / 256) ∷ byte n ∷ []

unfoldable pub be32 : ℕ → List ℕ
be32 n = byte (n / 16777216) ∷ byte (n / 65536) ∷ byte (n / 256) ∷ byte n ∷ []

unfoldable be_from : ℕ → List ℕ → ℕ
be_from acc [] = acc
be_from acc (b ∷ bs) = be_from (acc * 256 + b) bs

-- The value of big-endian and of little-endian bytes.
unfoldable pub be_value : List ℕ → ℕ
unfolding be_from
be_value bs = be_from 0 bs

unfoldable pub le_value : List ℕ → ℕ
le_value [] = 0
le_value (b ∷ bs) = b + 256 * le_value bs
