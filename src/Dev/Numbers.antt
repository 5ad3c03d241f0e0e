-- ===== src/Dev/Numbers.antt =====
-- Device numbers of morelib/include/morelib/dev.h are pairs of bytes, and a driver of morelib/dev.c has
-- all devices of its major number.
use morelibc.Base.{
  ℕ, ◌+◌, ◌*◌, ◌/◌, ◌%◌, ◌^◌, ◌<◌, ◌≡◌, refl, sym, ap, ap₂, ◌∙◌, List, [], ◌∷◌, ◌==◌, if◌then◌else◌,
  some, bit_or, bit_and_mask, bit_or-digit, bit_or-zero, arith,
}
use morelibc.Dev.{makedev, major, minor, Driver, finddev}

or_digit : (n r : ℕ) → bit_or n (r / 2) ≡ n + r / 2 → bit_or (2 * n) r ≡ 2 * n + r
or_digit n r e =
    let h : bit_or ((2 * n) / 2) (r / 2) ≡ bit_or n (r / 2) =
      ap (λ m. bit_or m (r / 2)) (omega arith) in
    omega (arith, bit_or-digit (2 * n) r, h, e)

-- A byte goes into the low eight bits of a number whose low eight bits are 0.
or_byte : (q r : ℕ) → r < 2 ^ 8 → bit_or (q * 2 ^ 8) r ≡ q * 2 ^ 8 + r
or_byte q r h =
    let z : bit_or q (r / 2 / 2 / 2 / 2 / 2 / 2 / 2 / 2) ≡ bit_or q 0 =
      ap (bit_or q) (omega arith) in
    let base : bit_or q (r / 2 / 2 / 2 / 2 / 2 / 2 / 2 / 2)
        ≡ q + r / 2 / 2 / 2 / 2 / 2 / 2 / 2 / 2 =
      omega (arith, z, bit_or-zero q) in
    let q1 = 2 * q in
    let q2 = 2 * q1 in
    let q3 = 2 * q2 in
    let q4 = 2 * q3 in
    let q5 = 2 * q4 in
    let q6 = 2 * q5 in
    let all = or_digit (2 * q6) r (
      or_digit q6 (r / 2) (
        or_digit q5 (r / 2 / 2) (
          or_digit q4 (r / 2 / 2 / 2) (
            or_digit q3 (r / 2 / 2 / 2 / 2) (
              or_digit q2 (r / 2 / 2 / 2 / 2 / 2) (
                or_digit q1 (r / 2 / 2 / 2 / 2 / 2 / 2)
                  (or_digit q (r / 2 / 2 / 2 / 2 / 2 / 2 / 2) base))))))) in
    let e : q * 2 ^ 8 ≡ 2 * (2 * q6) = omega arith in
    ap (λ n. bit_or n r) e ∙ all ∙ ap (λ n. n + r) (sym e)

makedev_lem : (maj min : ℕ) → makedev maj min ≡ maj % 2 ^ 8 * 2 ^ 8 + min % 2 ^ 8
unfolding makedev
makedev_lem maj min =
    ap₂ (λ a b. bit_or (a * 2 ^ 8) b) (bit_and_mask 8 maj) (bit_and_mask 8 min)
    ∙ or_byte (maj % 2 ^ 8) (min % 2 ^ 8) (omega arith)

major_lem : (dev : ℕ) → major dev ≡ dev / 2 ^ 8 % 2 ^ 8
unfolding major
major_lem dev = bit_and_mask 8 (dev / 2 ^ 8)

minor_lem : (dev : ℕ) → minor dev ≡ dev % 2 ^ 8
unfolding minor
minor_lem dev = bit_and_mask 8 dev

-- `makedev` and the pair of `major` and `minor` undo each other, for any two numbers up to their low
-- bytes, and for any 16-bit device number.
makedev-roundtrip :
    (maj min dev : ℕ)
    → dev < 2 ^ 16
    → (major (makedev maj min) ≡ maj % 2 ^ 8)
      × (minor (makedev maj min) ≡ min % 2 ^ 8)
      × (makedev (major dev) (minor dev) ≡ dev)
makedev-roundtrip maj min dev h = (
  omega (arith, major_lem (makedev maj min), makedev_lem maj min),
  omega (arith, minor_lem (makedev maj min), makedev_lem maj min),
  omega (arith, makedev_lem (major dev) (minor dev), major_lem dev, minor_lem dev),
)

same_driver : (drvs : List Driver) (a b : ℕ) → major a ≡ major b → finddev drvs a ≡ finddev drvs b
unfolding finddev
same_driver [] a b e = refl
same_driver (drv ∷ drvs) a b e =
    ap₂ (λ m rest. if major drv.dev == m then some drv else rest) e (same_driver drvs a b e)

-- The driver of a device does not depend on its minor number.
finddev-minor :
    (drvs : List Driver) (maj a b : ℕ) → finddev drvs (makedev maj a) ≡ finddev drvs (makedev maj b)
finddev-minor drvs maj a b = same_driver drvs (makedev maj a) (makedev maj b) (
    (makedev-roundtrip maj a 0 (omega arith)).0 ∙ sym ((makedev-roundtrip maj b 0 (omega arith)).0))
