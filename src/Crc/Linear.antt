-- ===== src/Crc/Linear.antt =====
-- The shift register of CRC-32, for morelib/crc.c, is linear.
use mathlib.Core.Bool.{xor}
use morelibc.Base.{
  ℕ, zero, suc, ◌/◌, ◌%◌, ◌^◌, ◌<◌, ◌≡◌, refl, sym, ap, ap₂, ◌∙◌, inl, inr, Bool, true, false,
  Bool-cases, ◌&&◌, ◌==◌, if◌then◌else◌, bit_xor, bit_xor-digit, test_bit, test_bit-xor,
  test_bit-zero, eq_of_bits, u32_mod, arith,
}
use native.Mathlib.Nat.{pow-suc}
use morelibc.Crc.Reference.{shift, shift4, polynomial}

pub bit_xor-lt : (w a b : ℕ) → a < 2 ^ w → b < 2 ^ w → bit_xor a b < 2 ^ w
bit_xor-lt zero zero zero p q = omega arith
bit_xor-lt zero zero (suc b) p q = absurd (omega arith)
bit_xor-lt zero (suc a) b p q = absurd (omega arith)
bit_xor-lt (suc w) a b p q = omega (
  arith,
  pow-suc 2 w,
  bit_xor-digit a b,
  bit_xor-lt w (a / 2) (b / 2) (omega (arith, pow-suc 2 w)) (omega (arith, pow-suc 2 w)),
)

pub shift-lt : (a : ℕ) → a < u32_mod → shift a < u32_mod
unfolding shift
shift-lt a h =
    bit_xor-lt 32 (a / 2) (if a % 2 == 1 then polynomial else 0) (omega arith) (ground arith)

-- A digit of the register after a shift.
shift-bit :
    (a i : ℕ)
    → test_bit (shift a) i ≡ xor (test_bit a (suc i)) (test_bit a 0 && test_bit polynomial i)
unfolding shift
shift-bit a i =
    test_bit-xor (a / 2) (if a % 2 == 1 then polynomial else 0) i ∙ elim (Bool-cases (a % 2 == 1)) [
      | inl e ↦ rw e refl
      | inr e ↦ rw e (ap (xor (test_bit (a / 2) i)) (test_bit-zero i))
    ]

exchange : (a b c d p : Bool) → xor (xor a b) (xor c d && p) ≡ xor (xor a (c && p)) (xor b (d && p))
unfolding xor
exchange true true true true true = refl
exchange true true true true false = refl
exchange true true true false true = refl
exchange true true true false false = refl
exchange true true false true true = refl
exchange true true false true false = refl
exchange true true false false true = refl
exchange true true false false false = refl
exchange true false true true true = refl
exchange true false true true false = refl
exchange true false true false true = refl
exchange true false true false false = refl
exchange true false false true true = refl
exchange true false false true false = refl
exchange true false false false true = refl
exchange true false false false false = refl
exchange false true true true true = refl
exchange false true true true false = refl
exchange false true true false true = refl
exchange false true true false false = refl
exchange false true false true true = refl
exchange false true false true false = refl
exchange false true false false true = refl
exchange false true false false false = refl
exchange false false true true true = refl
exchange false false true true false = refl
exchange false false true false true = refl
exchange false false true false false = refl
exchange false false false true true = refl
exchange false false false true false = refl
exchange false false false false true = refl
exchange false false false false false = refl

shift-xor :
    (a b : ℕ) → a < u32_mod → b < u32_mod → shift (bit_xor a b) ≡ bit_xor (shift a) (shift b)
shift-xor a b h k =
    eq_of_bits 32 (shift (bit_xor a b)) (bit_xor (shift a) (shift b))
      (shift-lt (bit_xor a b) (bit_xor-lt 32 a b h k))
      (bit_xor-lt 32 (shift a) (shift b) (shift-lt a h) (shift-lt b k))
      λ i m.
        shift-bit (bit_xor a b) i
        ∙ ap₂ (λ x y. xor x (y && test_bit polynomial i)) (test_bit-xor a b (suc i))
            (test_bit-xor a b 0)
        ∙ exchange (test_bit a (suc i)) (test_bit b (suc i)) (test_bit a 0) (test_bit b 0)
            (test_bit polynomial i)
        ∙ sym (ap₂ xor (shift-bit a i) (shift-bit b i))
        ∙ sym (test_bit-xor (shift a) (shift b) i)

pub shift4-lt : (a : ℕ) → a < u32_mod → shift4 a < u32_mod
shift4-lt a h = shift-lt _ (shift-lt _ (shift-lt _ (shift-lt a h)))

pub shift4-xor :
    (a b : ℕ) → a < u32_mod → b < u32_mod → shift4 (bit_xor a b) ≡ bit_xor (shift4 a) (shift4 b)
shift4-xor a b h k =
    ap (λ n. shift (shift (shift n))) (shift-xor a b h k)
    ∙ ap (λ n. shift (shift n)) (shift-xor (shift a) (shift b) (shift-lt a h) (shift-lt b k))
    ∙ ap shift (shift-xor _ _ (shift-lt _ (shift-lt a h)) (shift-lt _ (shift-lt b k)))
    ∙ shift-xor _ _ (shift-lt _ (shift-lt _ (shift-lt a h)))
        (shift-lt _ (shift-lt _ (shift-lt b k)))
