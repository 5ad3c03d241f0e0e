-- ===== src/Ring/Stall.antt =====
-- The end of the index range of morelib/ring.c. `ring_write` computes `read_index + size` in a
-- `size_t` and compares the write index with it; the sum wraps when the last `size` indices are
-- reached, after some 4 GiB of traffic.
use morelibc.Base.{
  ℕ, zero, suc, ◌+◌, ◌-◌, ◌≤◌, ◌≡◌, refl, ap, List, [], ◌∷◌, length, ltb-false, u32, u32_mod, arith,
}
use morelibc.Ring.{Ring, ring_write_loop, ring_write, ring_read, ring_write_count}
use morelibc.Ring.Contents.{contents, length-span}
use morelibc.Ring.Invariant.{IsValid}
use morelibc.Ring.Read.{ring_read_lem}

wrapped_loop :
    (fuel : ℕ) (r : Ring) (src : List ℕ) (m c : ℕ)
    → m ≤ r.write_index
    → ring_write_loop fuel r src m c ≡ (c, r)
unfolding ring_write_loop
wrapped_loop zero r src m c h = refl
wrapped_loop (suc fuel) r src m c h = rw (ltb-false r.write_index m h)

-- In a valid ring whose `read_index + size` does not fit a `size_t`, `ring_write` writes nothing
-- and changes nothing, whatever it is given, although `ring_write_count` reports the free room.
pub ring_write_stalled :
    {k : ℕ} {r : Ring} (src : List ℕ)
    → IsValid k r
    → u32_mod ≤ r.read_index + r.size
    → (ring_write r src ≡ (0, r)) × (ring_write_count r ≡ r.size - length (contents r))
unfolding ring_write ring_write_count
ring_write_stalled {k} {r} src v h = (
  wrapped_loop (length src) r src (u32 (r.read_index + r.size)) 0 (omega arith),
  omega (arith, length-span r.buffer r.size r.read_index (r.write_index - r.read_index)),
)

-- The calls of a client: bytes to write, or a number of bytes to read.
pub data Call : Type 0 where
  write : List ℕ → Call
  read : ℕ → Call

-- The bytes that a history of calls gets into the ring, in all.
pub accepted : Ring → List Call → ℕ
accepted r [] = 0
accepted r (write src ∷ calls) = let (n, r') = ring_write r src in n + accepted r' calls
accepted r (read size ∷ calls) = accepted (ring_read r size).1 calls

-- Such a ring does not recover by writes and reads: no history of `ring_write` and `ring_read`, without a
-- `ring_clear`, gets another byte into it.
pub stalled_forever :
    {k : ℕ} {r : Ring} (calls : List Call)
    → IsValid k r
    → u32_mod ≤ r.read_index + r.size
    → accepted r calls ≡ 0
unfolding accepted
stalled_forever [] v h = refl
stalled_forever {k} {r} (write src ∷ calls) v h =
    rw (ring_write_stalled src v h).0 (omega (arith, stalled_forever calls v h))
stalled_forever {k} {r} (read size ∷ calls) v h =
    let done = ring_read_lem size v in
    stalled_forever {r = (ring_read r size).1} calls done.2
      (omega (arith, ap (λ q. q.read_index + q.size) done.3))
