-- ===== src/Crc/Reference.antt =====
-- The definition that morelib/crc.c implements: CRC-32 of IEEE 802.3, one bit at a time.
use morelibc.Base.{ℕ, ◌/◌, ◌%◌, List, [], ◌∷◌, ◌==◌, if◌then◌else◌, bit_xor, not_u32}

-- The polynomial, its bits reversed.
abbrev pub polynomial : ℕ
polynomial = 0xedb88320

-- One bit leaves the register.
unfoldable pub shift : ℕ → ℕ
shift a = bit_xor (a / 2) (if a % 2 == 1 then polynomial else 0)

abbrev pub shift4 : ℕ → ℕ
shift4 a = shift (shift (shift (shift a)))

-- The bits of a byte go in, the lowest first.
unfoldable pub remainder : ℕ → List ℕ → ℕ
remainder a [] = a
remainder a (x ∷ bytes) = remainder (shift4 (shift4 (bit_xor a x))) bytes

unfoldable pub reference : ℕ → List ℕ → ℕ
reference crc bytes = not_u32 (remainder (not_u32 crc) bytes)
