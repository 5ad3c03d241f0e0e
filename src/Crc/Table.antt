-- ===== src/Crc/Table.antt =====
-- The table of morelib/crc.c holds four shifts of the register, so `crc32` is CRC-32.
use mathlib.Core.Bool.{xor}
use morelibc.Base.{
  ℕ, zero, suc, ◌*◌, ◌/◌, ◌%◌, ◌^◌, ◌<◌, ◌≡◌, refl, sym, ap, ap₂, ◌∙◌, List, [], ◌∷◌, ◌++◌, All,
  get_or, bit_and_mask, bit_xor, test_bit, test_bit-xor, eq_of_bits, Bool, true, false, u32_mod,
  not_u32, arith,
}
use morelibc.Crc.{crctab, nibble_step, byte_step, crc_loop, crc32}
use morelibc.Crc.Reference.{shift, shift4, remainder, reference}
use morelibc.Crc.Linear.{bit_xor-lt, shift4-lt, shift4-xor}
use morelibc.Crc.Digits.{xor-sixteenth, bit_xor-zero, join, shift4-high}

-- Each entry of the table is its index after four shifts.
crctab-entry : (r : ℕ) → r < 16 → get_or crctab r 0 ≡ shift4 r
unfolding shift
crctab-entry zero h = refl
crctab-entry (suc zero) h = refl
crctab-entry (suc (suc zero)) h = refl
crctab-entry (suc (suc (suc zero))) h = refl
crctab-entry (suc (suc (suc (suc zero)))) h = refl
crctab-entry (suc (suc (suc (suc (suc zero))))) h = refl
crctab-entry (suc (suc (suc (suc (suc (suc zero)))))) h = refl
crctab-entry (suc (suc (suc (suc (suc (suc (suc zero))))))) h = refl
crctab-entry (suc (suc (suc (suc (suc (suc (suc (suc zero)))))))) h = refl
crctab-entry (suc (suc (suc (suc (suc (suc (suc (suc (suc zero))))))))) h = refl
crctab-entry (suc (suc (suc (suc (suc (suc (suc (suc (suc (suc zero)))))))))) h = refl
crctab-entry (suc (suc (suc (suc (suc (suc (suc (suc (suc (suc (suc zero))))))))))) h = refl
crctab-entry (suc (suc (suc (suc (suc (suc (suc (suc (suc (suc (suc (suc zero)))))))))))) h = refl
crctab-entry (suc (suc (suc (suc (suc (suc (suc (suc (suc (suc (suc (suc (suc zero))))))))))))) h =
    refl
crctab-entry
      (suc (suc (suc (suc (suc (suc (suc (suc (suc (suc (suc (suc (suc (suc zero)))))))))))))) h =
    refl
crctab-entry
      (suc (suc (suc (suc (suc (suc (suc (suc (suc (suc (suc (suc (suc (suc (suc zero)))))))))))))))
      h =
    refl
crctab-entry
      (suc
        (suc (suc (suc (suc (suc (suc (suc (suc (suc (suc (suc (suc (suc (suc (suc r))))))))))))))))
      h =
    absurd (omega arith)

entry-lt : (r : ℕ) → r < 16 → get_or crctab r 0 < u32_mod
entry-lt r h = rw (crctab-entry r h) (shift4-lt r (omega arith))

swap : (a b c : Bool) → xor (xor a b) c ≡ xor (xor a c) b
unfolding xor
swap true true true = refl
swap true true false = refl
swap true false true = refl
swap true false false = refl
swap false true true = refl
swap false true false = refl
swap false false true = refl
swap false false false = refl

xor_swap :
    (a b c : ℕ)
    → a < u32_mod
    → b < u32_mod
    → c < u32_mod
    → bit_xor (bit_xor a b) c ≡ bit_xor (bit_xor a c) b
xor_swap a b c ha hb hc =
    eq_of_bits 32 _ _ (bit_xor-lt 32 _ c (bit_xor-lt 32 a b ha hb) hc)
      (bit_xor-lt 32 _ b (bit_xor-lt 32 a c ha hc) hb)
      λ i k.
        test_bit-xor (bit_xor a b) c i
        ∙ ap (λ d. xor d (test_bit c i)) (test_bit-xor a b i)
        ∙ swap (test_bit a i) (test_bit b i) (test_bit c i)
        ∙ sym (test_bit-xor (bit_xor a c) b i ∙ ap (λ d. xor d (test_bit b i)) (test_bit-xor a c i))

-- Four shifts by the table.
shift4_lem : (y : ℕ) → y < u32_mod → shift4 y ≡ bit_xor (y / 16) (get_or crctab (y % 16) 0)
shift4_lem y h =
    let split : y ≡ bit_xor (16 * (y / 16)) (y % 16) =
      omega (arith, join (y / 16) (y % 16) (omega arith)) in
    ap shift4 split
    ∙ shift4-xor (16 * (y / 16)) (y % 16) (omega arith) (omega arith)
    ∙ ap₂ bit_xor (shift4-high (y / 16)) (sym (crctab-entry (y % 16) (omega arith)))

pub nibble_step-table :
    (crc x : ℕ) → nibble_step crc x ≡ bit_xor (crc / 16) (get_or crctab (bit_xor crc x % 16) 0)
unfolding nibble_step
nibble_step-table crc x =
    ap (λ i. bit_xor (crc / 16) (get_or crctab i 0)) (bit_and_mask 4 (bit_xor crc x))

-- The first four bits of a byte: the others wait in the register.
pub first_nibble :
    (crc x : ℕ)
    → crc < u32_mod
    → x < u32_mod
    → shift4 (bit_xor crc x) ≡ bit_xor (nibble_step crc x) (x / 16)
first_nibble crc x h k =
    let entry = get_or crctab (bit_xor crc x % 16) 0 in
    shift4_lem (bit_xor crc x) (bit_xor-lt 32 crc x h (omega arith))
    ∙ ap (λ n. bit_xor n entry) (xor-sixteenth crc x)
    ∙ xor_swap (crc / 16) (x / 16) entry (omega arith) (omega arith)
        (entry-lt (bit_xor crc x % 16) (omega arith))
    ∙ ap (λ n. bit_xor n (x / 16)) (sym (nibble_step-table crc x))

last_nibble : (crc x : ℕ) → crc < u32_mod → x < 16 → shift4 (bit_xor crc x) ≡ nibble_step crc x
last_nibble crc x h k =
    shift4_lem (bit_xor crc x) (bit_xor-lt 32 crc x h (omega arith))
    ∙ ap (λ n. bit_xor n (get_or crctab (bit_xor crc x % 16) 0))
        (xor-sixteenth crc x ∙ ap (bit_xor (crc / 16)) (omega arith) ∙ bit_xor-zero (crc / 16))
    ∙ sym (nibble_step-table crc x)

pub nibble_step-lt : (crc x : ℕ) → crc < u32_mod → nibble_step crc x < u32_mod
nibble_step-lt crc x h =
    rw (nibble_step-table crc x)
      (bit_xor-lt 32 (crc / 16) _ (omega arith) (entry-lt (bit_xor crc x % 16) (omega arith)))

byte_step_lem :
    (crc x : ℕ) → crc < u32_mod → x < 2 ^ 8 → byte_step crc x ≡ shift4 (shift4 (bit_xor crc x))
unfolding byte_step
byte_step_lem crc x h k =
    sym (last_nibble (nibble_step crc x) (x / 16) (nibble_step-lt crc x h) (omega arith))
    ∙ ap shift4 (sym (first_nibble crc x h (omega arith)))

crc_loop_lem :
    (crc : ℕ) (buffer : List ℕ)
    → crc < u32_mod
    → All (λ x. x < 2 ^ 8) buffer
    → crc_loop crc buffer ≡ remainder crc buffer
unfolding crc_loop remainder
crc_loop_lem crc [] h b = refl
crc_loop_lem crc (x ∷ buffer) h b =
    let e = byte_step_lem crc x h b.0 in
    crc_loop_lem (byte_step crc x) buffer
      (rw e (shift4-lt _ (shift4-lt _ (bit_xor-lt 32 crc x h (omega (arith, b.0)))))) b.1
    ∙ ap (λ c. remainder c buffer) e

-- `crc32` computes CRC-32, which is defined bit by bit, of any bytes and from any 32-bit
-- start.
pub crc32_lem :
    (crc : ℕ) (buffer : List ℕ)
    → crc < u32_mod
    → All (λ x. x < 2 ^ 8) buffer
    → crc32 crc buffer ≡ reference crc buffer
unfolding crc32 reference
crc32_lem crc buffer h b = ap not_u32 (crc_loop_lem (not_u32 crc) buffer (omega arith) b)

pub loop-lt : (crc : ℕ) (buffer : List ℕ) → crc < u32_mod → crc_loop crc buffer < u32_mod
unfolding crc_loop byte_step
loop-lt crc [] h = h
loop-lt crc (x ∷ buffer) h =
    loop-lt (byte_step crc x) buffer
      (nibble_step-lt (nibble_step crc x) (x / 2 ^ 4) (nibble_step-lt crc x h))

pub loop-append :
    (crc : ℕ) (xs ys : List ℕ) → crc_loop crc (xs ++ ys) ≡ crc_loop (crc_loop crc xs) ys
unfolding crc_loop
loop-append crc [] ys = refl
loop-append crc (x ∷ xs) ys = loop-append (byte_step crc x) xs ys

-- From any 32-bit start, the checksum of a stream may be computed piece by piece: the result for the first piece, given as the
-- start for the second, leads to the checksum of the whole.
crc32-append :
    (crc : ℕ) (xs ys : List ℕ) → crc < u32_mod → crc32 (crc32 crc xs) ys ≡ crc32 crc (xs ++ ys)
unfolding crc32
crc32-append crc xs ys h =
    let r = crc_loop (not_u32 crc) xs in
    let back : not_u32 (not_u32 r) ≡ r = omega (arith, loop-lt (not_u32 crc) xs (omega arith)) in
    ap (λ n. not_u32 (crc_loop n ys)) back ∙ ap not_u32 (sym (loop-append (not_u32 crc) xs ys))
