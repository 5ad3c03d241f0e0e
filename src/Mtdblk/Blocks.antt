-- ===== src/Mtdblk/Blocks.antt =====
-- Positions of a device in blocks, for the divisions in morelib/mtdblk.c.
use native.Mathlib.Nat.{
  mod-lt, div-add-mod', div-eq_of_lt-le, add-mul, one-mul, mul-le-mul_right, div-lt_iff_lt-mul,
}
use morelibc.Base.{ℕ, ◌+◌, ◌-◌, ◌*◌, ◌/◌, ◌%◌, ◌≤◌, ◌<◌, ◌≡◌, sym, ap, arith}

module _ (a size : ℕ) where
  -- A position is its block's start and its offset there.
  pub split : a / size * size + a % size ≡ a
  split = div-add-mod' a size

  pub offset_of : (q : ℕ) → a / size ≡ q → a - q * size ≡ a % size
  offset_of q e = let h : a / size * size ≡ q * size = ap (λ n. n * size) e in omega (arith, split)

module _ (a size : ℕ) (h : 0 < size) where
  pub offset-lt : a % size < size
  offset-lt = mod-lt a h

  pub block_of : (q : ℕ) → q * size ≤ a → a < q * size + size → a / size ≡ q
  block_of q low high = div-eq_of_lt-le size low (omega (arith, add-mul q 1 size, one-mul size))

  pub block_below : (q : ℕ) → a / size ≡ q → (q * size ≤ a) × (a < q * size + size)
  block_below q e =
      let f : a / size * size ≡ q * size = ap (λ n. n * size) e in
      (omega (arith, split a size), omega (arith, split a size, offset-lt))

  pub block_end : (total : ℕ) → total % size ≡ 0 → a < total → a / size * size + size ≤ total
  block_end total whole lt =
      let less : a / size < total / size =
        (div-lt_iff_lt-mul h).1 (omega (arith, split total size)) in
      let le : (a / size + 1) * size ≤ total / size * size = mul-le-mul_right size (omega arith) in
      omega (arith, le, split total size, add-mul (a / size) 1 size, one-mul size)

module _ (a size : ℕ) (h : 0 < size) (k : ℕ) (lt : k < size - a % size) where
  pub same_block : (a + k) / size ≡ a / size
  same_block =
      block_of (a + k) size h (a / size) (omega (arith, split a size)) (omega (arith, split a size))

  pub same_offset : (a + k) % size ≡ a % size + k
  same_offset = omega (arith, sym (offset_of (a + k) size (a / size) same_block), split a size)
