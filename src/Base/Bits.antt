-- ===== src/Base/Bits.antt =====
-- `&`, `|`, `^` and `~` digit by digit. The native operations mean `bitwise`, a recursion on a count
-- of digits for which the first number serves; here that count is dropped.
use Prim.Native.Nat.{
  ℕ, zero, suc, ◌+◌, ◌-◌, ◌*◌, ◌/◌, ◌%◌, ◌^◌, ◌≤◌, ◌<◌, min, max, bit_and, bit_or, bit_xor, digits,
  bitwise, differ, bit_and-bitwise, bit_or-bitwise, bit_xor-bitwise,
}
use mathlib.Core.Path.{◌≡◌, refl, ap, ◌∙◌}
use mathlib.Core.Bool.{Bool, false, not, xor, ◌&&◌, ◌||◌}
use native.Mathlib.Nat.{
  pow-suc, one-le-pow, mod-lt, mod-eq_of_lt, div-add-mod, mul-add-mod_self_left,
}
use native.Mathlib.Omega.{arith}
use morelibc.Base.Tests.{◌==◌}
use morelibc.Base.Words.{not_u32, u32_mod}

module _ (z : ℕ → ℕ) (f : ℕ → ℕ → ℕ) where
  spare_digit : (n a b : ℕ) → a ≤ n → digits z f (suc n) a b ≡ digits z f n a b
  spare_digit zero zero b h = refl
  spare_digit (suc n) zero b h = refl
  spare_digit zero (suc a) b h = absurd (omega arith)
  spare_digit (suc n) (suc a) b h =
      ap (λ d. d * 2 + f (suc a % 2) (b % 2)) (spare_digit n (suc a / 2) (b / 2) (omega arith))

  spare_digits : (k n a b : ℕ) → n ≡ k + a → digits z f n a b ≡ bitwise z f a b
  spare_digits zero n a b e = ap (λ j. digits z f j a b) (omega arith)
  spare_digits (suc k) zero a b e = absurd (omega arith)
  spare_digits (suc k) (suc n) a b e =
      spare_digit n a b (omega arith) ∙ spare_digits k n a b (omega arith)

  lowest_digit :
      (a b : ℕ)
      → bitwise z f (suc a) b ≡ bitwise z f (suc a / 2) (b / 2) * 2 + f (suc a % 2) (b % 2)
  lowest_digit a b =
      ap (λ d. d * 2 + f (suc a % 2) (b % 2))
        (spare_digits (a - suc a / 2) a (suc a / 2) (b / 2) (omega arith))

-- One equation for the lowest digit of each operation.
pub bit_and-digit : (a b : ℕ) → bit_and a b ≡ bit_and (a / 2) (b / 2) * 2 + min (a % 2) (b % 2)
bit_and-digit zero b = simp bit_and-bitwise (omega arith)
bit_and-digit (suc a) b = simp bit_and-bitwise (lowest_digit (λ d. 0) min a b)

pub bit_or-digit : (a b : ℕ) → bit_or a b ≡ bit_or (a / 2) (b / 2) * 2 + max (a % 2) (b % 2)
bit_or-digit zero b = simp bit_or-bitwise (omega arith)
bit_or-digit (suc a) b = simp bit_or-bitwise (lowest_digit (λ d. d) max a b)

differ-add : (a b : ℕ) → a < 2 → b < 2 → differ a b ≡ (a + b) % 2
differ-add zero b h k = omega arith
differ-add (suc zero) zero h k = refl
differ-add (suc zero) (suc zero) h k = refl
differ-add (suc zero) (suc (suc b)) h k = absurd (omega arith)
differ-add (suc (suc a)) b h k = absurd (omega arith)

pub bit_xor-digit : (a b : ℕ) → bit_xor a b ≡ bit_xor (a / 2) (b / 2) * 2 + (a % 2 + b % 2) % 2
bit_xor-digit zero b = simp bit_xor-bitwise (omega arith)
bit_xor-digit (suc a) b = omega (
  arith,
  bit_xor-bitwise (suc a) b,
  bit_xor-bitwise (suc a / 2) (b / 2),
  lowest_digit (λ d. d) differ a b,
  differ-add (suc a % 2) (b % 2) (omega arith) (omega arith),
)

-- The digit of weight `2 ^ i`.
abbrev pub test_bit : ℕ → ℕ → Bool
test_bit a zero = a % 2 == 1
test_bit a (suc i) = test_bit (a / 2) i

pub test_bit-and : (a b i : ℕ) → test_bit (bit_and a b) i ≡ test_bit a i && test_bit b i
test_bit-and a b zero = ground (arith, bit_and-digit a b)
test_bit-and a b (suc i) =
    ap (λ n. test_bit n i) (omega (arith, bit_and-digit a b)) ∙ test_bit-and (a / 2) (b / 2) i

pub test_bit-or : (a b i : ℕ) → test_bit (bit_or a b) i ≡ test_bit a i || test_bit b i
test_bit-or a b zero = ground (arith, bit_or-digit a b)
test_bit-or a b (suc i) =
    ap (λ n. test_bit n i) (omega (arith, bit_or-digit a b)) ∙ test_bit-or (a / 2) (b / 2) i

xor-half : (a b : ℕ) → bit_xor a b / 2 ≡ bit_xor (a / 2) (b / 2)
xor-half a b = omega (arith, bit_xor-digit a b)

pub test_bit-xor : (a b i : ℕ) → test_bit (bit_xor a b) i ≡ xor (test_bit a i) (test_bit b i)
unfolding xor
test_bit-xor a b zero = ground (arith, bit_xor-digit a b)
test_bit-xor a b (suc i) = ap (λ n. test_bit n i) (xor-half a b) ∙ test_bit-xor (a / 2) (b / 2) i

-- `~` on words of any width.
not_width : (w a i : ℕ) → a < 2 ^ w → i < w → test_bit (2 ^ w - 1 - a) i ≡ not (test_bit a i)
not_width zero a i h p = absurd (omega arith)
not_width (suc w) a zero h p = ground (arith, pow-suc 2 w, one-le-pow w 2)
not_width (suc w) a (suc i) h p =
    ap (λ n. test_bit n i) (omega (arith, pow-suc 2 w, one-le-pow w 2))
    ∙ not_width w (a / 2) i (omega (arith, pow-suc 2 w)) (omega arith)

pub test_bit-not_u32 :
    (a i : ℕ) → a < u32_mod → i < 32 → test_bit (not_u32 a) i ≡ not (test_bit a i)
test_bit-not_u32 a i = not_width 32 a i

-- A number with no digit set is 0, and two numbers with the same digits are equal.
pub test_bit-zero : (i : ℕ) → test_bit 0 i ≡ false
test_bit-zero zero = refl
test_bit-zero (suc i) = test_bit-zero i

pub eq_of_bits :
    (w a b : ℕ) → a < 2 ^ w → b < 2 ^ w → ((i : ℕ) → i < w → test_bit a i ≡ test_bit b i) → a ≡ b
eq_of_bits zero a b p q h = omega arith
eq_of_bits (suc w) a b p q h =
    let halves =
      eq_of_bits w (a / 2) (b / 2) (omega (arith, pow-suc 2 w)) (omega (arith, pow-suc 2 w))
        (λ i k. h (suc i) (omega arith)) in
    ground (arith, halves, h 0 (omega arith))

-- Bounds: the results of `&` and `|` have no more digits than their arguments.
pub bit_and-le : (w a b : ℕ) → a < 2 ^ w → bit_and a b ≤ a
bit_and-le zero zero b p = omega (arith, bit_and-bitwise 0 b)
bit_and-le zero (suc a) b p = absurd (omega arith)
bit_and-le (suc w) a b p =
    omega (arith, bit_and-digit a b, bit_and-le w (a / 2) (b / 2) (omega (arith, pow-suc 2 w)))

pub bit_or-lt : (w a b : ℕ) → a < 2 ^ w → b < 2 ^ w → bit_or a b < 2 ^ w
bit_or-lt zero zero zero p q = omega arith
bit_or-lt zero zero (suc b) p q = absurd (omega arith)
bit_or-lt zero (suc a) b p q = absurd (omega arith)
bit_or-lt (suc w) a b p q = omega (
  arith,
  pow-suc 2 w,
  bit_or-digit a b,
  bit_or-lt w (a / 2) (b / 2) (omega (arith, pow-suc 2 w)) (omega (arith, pow-suc 2 w)),
)

no_digits : (n a : ℕ) → a ≤ n → bit_and a 0 ≡ 0
no_digits n zero h = bit_and-bitwise 0 0
no_digits zero (suc a) h = absurd (omega arith)
no_digits (suc n) (suc a) h =
    omega (arith, bit_and-digit (suc a) 0, no_digits n (suc a / 2) (omega arith))

pub bit_and-zero : (a : ℕ) → bit_and a 0 ≡ 0
bit_and-zero a = no_digits a a (omega arith)

half-mod : (a m : ℕ) → 0 < m → a % (2 * m) ≡ a / 2 % m * 2 + a % 2
half-mod a m h =
    let r = a / 2 % m in
    let whole : a ≡ 2 * m * (a / 2 / m) + (r * 2 + a % 2) = omega (arith, div-add-mod (a / 2) m) in
    let small : r < m = mod-lt (a / 2) h in
    ap (λ n. n % (2 * m)) whole
    ∙ mul-add-mod_self_left (2 * m) (a / 2 / m) (r * 2 + a % 2)
    ∙ mod-eq_of_lt (omega arith)

-- A mask of `k` low bits is the remainder by `2 ^ k`.
pub bit_and_mask : (k a : ℕ) → bit_and a (2 ^ k - 1) ≡ a % 2 ^ k
bit_and_mask zero a = omega (arith, bit_and-zero a)
bit_and_mask (suc k) a =
    let half : (2 ^ suc k - 1) / 2 ≡ 2 ^ k - 1 = omega (arith, pow-suc 2 k, one-le-pow k 2) in
    let odd : (2 ^ suc k - 1) % 2 ≡ 1 = omega (arith, pow-suc 2 k, one-le-pow k 2) in
    let low = ap (bit_and (a / 2)) half ∙ bit_and_mask k (a / 2) in
    let double : 2 * 2 ^ k ≡ 2 ^ suc k = omega (arith, pow-suc 2 k) in
    bit_and-digit a (2 ^ suc k - 1)
    ∙ omega (arith, low, odd, half-mod a (2 ^ k) (omega (arith, one-le-pow k 2)))
    ∙ ap (λ m. a % m) double

or_no_digits : (n a : ℕ) → a ≤ n → bit_or a 0 ≡ a
or_no_digits n zero h = bit_or-bitwise 0 0
or_no_digits zero (suc a) h = absurd (omega arith)
or_no_digits (suc n) (suc a) h =
    omega (arith, bit_or-digit (suc a) 0, or_no_digits n (suc a / 2) (omega arith))

pub bit_or-zero : (a : ℕ) → bit_or a 0 ≡ a
bit_or-zero a = or_no_digits a a (omega arith)
