-- ===== src/Ring/Invariant.antt =====
-- The invariant of a ring of morelib/ring.c whose size is `2 ^ k`, while no index has wrapped.
use native.Mathlib.Nat.{mod-lt, one-le-pow}
use morelibc.Base.{
  ℕ, ◌+◌, ◌-◌, ◌%◌, ◌^◌, ◌≤◌, ◌<◌, ◌≡◌, sym, ap, ◌∙◌, length, sub_u32, u32_mod, bit_and,
  bit_and_mask, arith,
}
use morelibc.Ring.{Ring, ring_at}

pub record IsValid (k : ℕ) (r : Ring) : Type 0 where
  pub sized : r.size ≡ 2 ^ k
  pub small : r.size < u32_mod
  pub storage : length r.buffer ≡ r.size
  pub ordered : r.read_index ≤ r.write_index
  pub within : r.write_index ≤ r.read_index + r.size
  pub word : r.write_index < u32_mod

pub size_pos : {k : ℕ} {r : Ring} → IsValid k r → 0 < r.size
size_pos {k} v = omega (arith, one-le-pow k 2)

-- `ring_at` is the index modulo the size, and the room to the end of the buffer.
pub ring_at_lem :
    {k : ℕ} {r : Ring} (i : ℕ) → IsValid k r → ring_at r i ≡ (i % r.size, r.size - i % r.size)
unfolding ring_at
ring_at_lem {k} {r} i v = ground (arith, mask, mod-lt i (size_pos v), size_pos v)
  where
    mask : bit_and i (sub_u32 r.size 1) ≡ i % r.size
    mask =
        ap (bit_and i) (omega (arith, size_pos v, v.sized))
        ∙ bit_and_mask k i
        ∙ ap (λ j. i % j) (sym v.sized)
