-- ===== src/Crc/Digits.antt =====
-- `^` on parts of a word, and shifts of words whose low bits are 0, for morelib/crc.c.
use morelibc.Base.{
  ℕ, zero, suc, ◌+◌, ◌*◌, ◌/◌, ◌%◌, ◌<◌, ◌≤◌, ◌≡◌, refl, ap, ap₂, ◌∙◌, bit_xor, bit_xor-digit,
  arith,
}
use morelibc.Crc.Reference.{shift, shift4}

pub xor-half : (a b : ℕ) → bit_xor a b / 2 ≡ bit_xor (a / 2) (b / 2)
xor-half a b = omega (arith, bit_xor-digit a b)

pub xor-sixteenth : (a b : ℕ) → bit_xor a b / 16 ≡ bit_xor (a / 16) (b / 16)
xor-sixteenth a b =
    let e : bit_xor a b / 16 ≡ bit_xor a b / 2 / 2 / 2 / 2 = omega arith in
    e
    ∙ ap (λ n. n / 2 / 2 / 2) (xor-half a b)
    ∙ ap (λ n. n / 2 / 2) (xor-half (a / 2) (b / 2))
    ∙ ap (λ n. n / 2) (xor-half (a / 2 / 2) (b / 2 / 2))
    ∙ xor-half (a / 2 / 2 / 2) (b / 2 / 2 / 2)
    ∙ ap₂ bit_xor (omega arith) (omega arith)

pub spread : (n a : ℕ) → a ≤ n → bit_xor a 0 ≡ a
spread n zero h = refl
spread zero (suc a) h = absurd (omega arith)
spread (suc n) (suc a) h =
    omega (arith, bit_xor-digit (suc a) 0, spread n (suc a / 2) (omega arith))

pub bit_xor-zero : (a : ℕ) → bit_xor a 0 ≡ a
bit_xor-zero a = spread a a (omega arith)

pub join_digit : (n r : ℕ) → bit_xor n (r / 2) ≡ n + r / 2 → bit_xor (2 * n) r ≡ 2 * n + r
join_digit n r e =
    let h : bit_xor ((2 * n) / 2) (r / 2) ≡ bit_xor n (r / 2) =
      ap (λ m. bit_xor m (r / 2)) (omega arith) in
    omega (arith, bit_xor-digit (2 * n) r, h, e)

pub join : (q r : ℕ) → r < 16 → bit_xor (16 * q) r ≡ 16 * q + r
join q r h =
    let z : bit_xor q (r / 2 / 2 / 2 / 2) ≡ bit_xor q 0 = ap (bit_xor q) (omega arith) in
    let all = join_digit (2 * (2 * (2 * q))) r (
      join_digit (2 * (2 * q)) (r / 2) (
        join_digit (2 * q) (r / 2 / 2)
          (join_digit q (r / 2 / 2 / 2) (omega (arith, z, bit_xor-zero q))))) in
    let e : bit_xor (16 * q) r ≡ bit_xor (2 * (2 * (2 * (2 * q)))) r =
      ap (λ n. bit_xor n r) (omega arith) in
    omega (arith, e, all)

pub shift-double : (n : ℕ) → shift (2 * n) ≡ n
unfolding shift
shift-double n =
    let e : (2 * n) % 2 ≡ 0 = omega arith in
    let h : (2 * n) / 2 ≡ n = omega arith in rw e (rw h (bit_xor-zero n))

pub shift4-high : (q : ℕ) → shift4 (16 * q) ≡ q
shift4-high q =
    let e : 16 * q ≡ 2 * (2 * (2 * (2 * q))) = omega arith in
    ap shift4 e
    ∙ ap (λ n. shift (shift (shift n))) (shift-double (2 * (2 * (2 * q))))
    ∙ ap (λ n. shift (shift n)) (shift-double (2 * (2 * q)))
    ∙ ap shift (shift-double (2 * q))
    ∙ shift-double q
