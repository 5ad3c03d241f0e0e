-- ===== src/Crc/Tests.antt =====
-- The check value of CRC-32 for morelib/crc.c.
use morelibc.Base.{le32, ℕ, ◌≡◌, refl, List, [], ◌∷◌, ◌++◌, arith}
use morelibc.Crc.{crc32, crc_loop, byte_step, nibble_step}
use morelibc.Crc.Reference.{reference}
use morelibc.Crc.Residue.{crc32-verify}
use morelibc.Crc.Table.{crc32_lem}

-- "123" and "456789"
abbrev digits_1_3 : List ℕ
digits_1_3 = 49 ∷ 50 ∷ 51 ∷ []

abbrev digits_4_9 : List ℕ
digits_4_9 = 52 ∷ 53 ∷ 54 ∷ 55 ∷ 56 ∷ 57 ∷ []

check_value : crc32 0 (digits_1_3 ++ digits_4_9) ≡ 0xcbf43926
unfolding crc32 crc_loop byte_step nibble_step
check_value = refl

crc32_lem_example : crc32 0 digits_4_9 ≡ reference 0 digits_4_9
crc32_lem_example =
    crc32_lem 0 digits_4_9 (omega arith)
      (omega arith, (omega arith, (omega arith, (omega arith, (omega arith, (omega arith, tt))))))

crc32-verify_example : crc32 0 (digits_4_9 ++ le32 (crc32 0 digits_4_9)) ≡ 0x2144df1c
crc32-verify_example = crc32-verify 0 digits_4_9 (omega arith)
