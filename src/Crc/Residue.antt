-- ===== src/Crc/Residue.antt =====
-- The verify value of `crc32` of morelib/crc.c, by which morelib/flash_env.c knows a valid block.
use mathlib.Core.Bool.{xor}
use morelibc.Base.{
  le32, ℕ, ◌+◌, ◌-◌, ◌*◌, ◌/◌, ◌%◌, ◌^◌, ◌<◌, ◌≡◌, refl, sym, ap, ap₂, ◌∙◌, List, ◌++◌, get_or,
  Bool, true, false, not, bit_xor, bit_xor-digit, test_bit, test_bit-xor, test_bit-not_u32,
  test_bit-zero, eq_of_bits, u32_mod, not_u32, arith,
}
use morelibc.Crc.{crctab, nibble_step, byte_step, crc_loop, crc32}
use morelibc.Crc.Reference.{shift, shift4}
use morelibc.Crc.Linear.{bit_xor-lt}
use morelibc.Crc.Digits.{bit_xor-zero}
use morelibc.Crc.Table.{first_nibble, nibble_step-lt, nibble_step-table, loop-lt, loop-append}

four_digits :
    (x0 x1 x2 x3 x4 d0 d1 d2 d3 : ℕ)
    → x0 ≡ x1 * 2 + d0 % 2
    → x1 ≡ x2 * 2 + d1 % 2
    → x2 ≡ x3 * 2 + d2 % 2
    → x3 ≡ x4 * 2 + d3 % 2
    → x0 % 16 ≡ d0 % 2 + 2 * (d1 % 2) + 4 * (d2 % 2) + 8 * (d3 % 2)
four_digits x0 x1 x2 x3 x4 d0 d1 d2 d3 e0 e1 e2 e3 = omega arith

low_nibble :
    (a b : ℕ)
    → bit_xor a b % 16
      ≡ (a % 2 + b % 2) % 2
        + 2 * ((a / 2 % 2 + b / 2 % 2) % 2)
        + 4 * ((a / 2 / 2 % 2 + b / 2 / 2 % 2) % 2)
        + 8 * ((a / 2 / 2 / 2 % 2 + b / 2 / 2 / 2 % 2) % 2)
low_nibble a b =
    four_digits _ _ _ _ _ (a % 2 + b % 2) (a / 2 % 2 + b / 2 % 2) (a / 2 / 2 % 2 + b / 2 / 2 % 2)
      (a / 2 / 2 / 2 % 2 + b / 2 / 2 / 2 % 2) (bit_xor-digit a b) (bit_xor-digit (a / 2) (b / 2))
      (bit_xor-digit (a / 2 / 2) (b / 2 / 2)) (bit_xor-digit (a / 2 / 2 / 2) (b / 2 / 2 / 2))

-- Only the low four bits of what goes in count.
nibble_step-low : (crc c d : ℕ) → c % 16 ≡ d % 16 → nibble_step crc c ≡ nibble_step crc d
nibble_step-low crc c d e =
    let e0 : c % 2 ≡ d % 2 = omega arith in
    let e1 : c / 2 % 2 ≡ d / 2 % 2 = omega arith in
    let e2 : c / 2 / 2 % 2 ≡ d / 2 / 2 % 2 = omega arith in
    let e3 : c / 2 / 2 / 2 % 2 ≡ d / 2 / 2 / 2 % 2 = omega arith in
    let same : bit_xor crc c % 16 ≡ bit_xor crc d % 16 =
      low_nibble crc c ∙ rw (e0, e1, e2, e3) (sym (low_nibble crc d)) in
    nibble_step-table crc c
    ∙ ap (λ i. bit_xor (crc / 16) (get_or crctab i 0)) same
    ∙ sym (nibble_step-table crc d)

abbrev shift8 : ℕ → ℕ
shift8 a = shift4 (shift4 a)

-- A word that is mixed in at once gives its lowest byte to the next eight shifts.
peel :
    (s c : ℕ)
    → s < u32_mod
    → c < u32_mod
    → shift8 (bit_xor s c) ≡ bit_xor (byte_step s (c % 256)) (c / 256)
unfolding byte_step
peel s c h k =
    ap shift4 (first_nibble s c h k)
    ∙ first_nibble (nibble_step s c) (c / 16) (nibble_step-lt s c h) (omega arith)
    ∙ ap₂ bit_xor
        (ap (λ n. nibble_step n (c / 16)) (nibble_step-low s c (c % 256) (omega arith))
          ∙ nibble_step-low (nibble_step s (c % 256)) (c / 16) (c % 256 / 16) (omega arith))
        (omega arith)

byte_step-lt : (crc x : ℕ) → crc < u32_mod → byte_step crc x < u32_mod
unfolding byte_step
byte_step-lt crc x h = nibble_step-lt (nibble_step crc x) (x / 2 ^ 4) (nibble_step-lt crc x h)

-- Four bytes one after the other are one word.
word_loop :
    (s c : ℕ)
    → s < u32_mod
    → c < u32_mod
    → crc_loop s (le32 c) ≡ shift8 (shift8 (shift8 (shift8 (bit_xor s c))))
unfolding crc_loop
word_loop s c h k =
    let s1 = byte_step s (c % 256) in
    let s2 = byte_step s1 (c / 256 % 256) in
    let s3 = byte_step s2 (c / 256 / 256 % 256) in
    let h1 = byte_step-lt s (c % 256) h in
    let h2 = byte_step-lt s1 (c / 256 % 256) h1 in
    let h3 = byte_step-lt s2 (c / 256 / 256 % 256) h2 in
    sym (
      ap (λ n. shift8 (shift8 (shift8 n))) (peel s c h k)
      ∙ ap (λ n. shift8 (shift8 n)) (peel s1 (c / 256) h1 (omega arith))
      ∙ ap shift8 (peel s2 (c / 256 / 256) h2 (omega arith))
      ∙ peel s3 (c / 256 / 256 / 256) h3 (omega arith)
      ∙ ap (bit_xor (byte_step s3 (c / 256 / 256 / 256 % 256))) (omega arith)
      ∙ bit_xor-zero (byte_step s3 (c / 256 / 256 / 256 % 256)))

xor-not : (b : Bool) → xor b (not b) ≡ true
unfolding xor
xor-not true = refl
xor-not false = refl

not_zero-bit : (i : ℕ) → i < 32 → test_bit (u32_mod - 1) i ≡ true
not_zero-bit i h = test_bit-not_u32 0 i (omega arith) h ∙ ap not (test_bit-zero i)

all_ones : (r : ℕ) → r < u32_mod → bit_xor r (not_u32 r) ≡ u32_mod - 1
all_ones r h = eq_of_bits 32 _ _ (bit_xor-lt 32 r (not_u32 r) h (omega arith)) (omega arith) λ i k.
    test_bit-xor r (not_u32 r) i
    ∙ ap (xor (test_bit r i)) (test_bit-not_u32 r i h k)
    ∙ xor-not (test_bit r i)
    ∙ sym (not_zero-bit i k)

constant : not_u32 (shift8 (shift8 (shift8 (shift8 (u32_mod - 1))))) ≡ 0x2144df1c
unfolding shift
constant = refl

-- A block that ends with the CRC-32 of what stands before it, lowest byte first, has the CRC-32
-- 0x2144DF1C, whatever it holds and from any 32-bit start.
pub crc32-verify :
    (crc : ℕ) (block : List ℕ)
    → crc < u32_mod
    → crc32 crc (block ++ le32 (crc32 crc block)) ≡ 0x2144df1c
unfolding crc32
crc32-verify crc block h =
    let r = crc_loop (not_u32 crc) block in
    let bound = loop-lt (not_u32 crc) block (omega arith) in
    ap not_u32 (
      loop-append (not_u32 crc) block (le32 (not_u32 r))
      ∙ word_loop r (not_u32 r) bound (omega arith)
      ∙ ap (λ n. shift8 (shift8 (shift8 (shift8 n)))) (all_ones r bound))
    ∙ constant
