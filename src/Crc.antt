-- ===== src/Crc.antt =====
-- `crc32` of morelib/crc.c, which works four bits at a time by a table.
mod Reference
mod Linear
mod Digits
mod Table
mod Residue
mod Tests
use morelibc.Base.{ℕ, ◌+◌, ◌*◌, ◌/◌, ◌%◌, ◌^◌, List, [], ◌∷◌, bit_and, bit_xor, get_or, not_u32}

-- `crctab`
abbrev pub crctab : List ℕ
crctab =
    0x00000000 ∷ 0x1db71064 ∷ 0x3b6e20c8 ∷ 0x26d930ac ∷ 0x76dc4190 ∷ 0x6b6b51f4 ∷ 0x4db26158
    ∷ 0x5005713c ∷ 0xedb88320 ∷ 0xf00f9344 ∷ 0xd6d6a3e8 ∷ 0xcb61b38c ∷ 0x9b64c2b0 ∷ 0x86d3d2d4
    ∷ 0xa00ae278 ∷ 0xbdbdf21c ∷ []

-- `(crc >> 4) ^ crctab[(crc ^ x) & 0xf]`
unfoldable pub nibble_step : ℕ → ℕ → ℕ
nibble_step crc x = bit_xor (crc / 2 ^ 4) (get_or crctab (bit_and (bit_xor crc x) 15) 0)

-- A round of the loop, for one byte.
unfoldable pub byte_step : ℕ → ℕ → ℕ
byte_step crc x = nibble_step (nibble_step crc x) (x / 2 ^ 4)

unfoldable pub crc_loop : ℕ → List ℕ → ℕ
crc_loop crc [] = crc
crc_loop crc (x ∷ buffer) = crc_loop (byte_step crc x) buffer

unfoldable pub crc32 : ℕ → List ℕ → ℕ
crc32 crc buffer = not_u32 (crc_loop (not_u32 crc) buffer)
