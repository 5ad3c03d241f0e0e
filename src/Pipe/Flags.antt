-- ===== src/Pipe/Flags.antt =====
-- The event flags of a pipe of morelib/pipe.c after a read and after a write.
use morelibc.Base.{
  ℕ, suc, ◌+◌, ◌-◌, ◌/◌, ◌<◌, ◌≤◌, ◌^◌, ◌≡◌, ◌≢◌, inl, inr, refl, sym, ap, ◌∙◌, Bool, true, false,
  not, ◌&&◌, ◌||◌, Bool-cases, ltb, ◌==◌, List, length, test_bit, u32_mod, arith,
}
use morelibc.Ring.{Ring, ring_read_count, ring_write_count}
use morelibc.Ring.Contents.{contents, length-span}
use morelibc.Ring.Invariant.{IsValid}
use morelibc.Poll.Bits.{notify-bit}
use morelibc.Pipe.{Pipe, in_events, out_events, after_read, after_write}

pub length-contents : (r : Ring) → length (contents r) ≡ r.write_index - r.read_index
length-contents r = length-span r.buffer r.size r.read_index (r.write_index - r.read_index)

pub ring_read_count_lem : {r : Ring} → IsValid 9 r → ring_read_count r ≡ length (contents r)
unfolding ring_read_count
ring_read_count_lem {r} v = omega (arith, length-contents r, v.ordered, v.word)

pub ring_write_count_lem :
    {r : Ring}
    → IsValid 9 r
    → r.read_index + 2 ^ 9 < u32_mod
    → ring_write_count r ≡ 2 ^ 9 - length (contents r)
unfolding ring_write_count
ring_write_count_lem {r} v h =
    omega (arith, length-contents r, v.ordered, v.word, v.sized, v.within)

pub true≢false : true ≢ false
true≢false e = absurd (cc e)

pub cleared : (b : Bool) → ((b && false) || false) ≡ false
cleared true = refl
cleared false = refl

pub nonzero : (xs : List ℕ) → (suc (length xs) == 0) ≡ false
nonzero xs = ground arith

pub nonzero_suc : (n : ℕ) → (suc n == 0) ≡ false
nonzero_suc n = ground arith

pub empty_of : {b : Bool} {n : ℕ} → b ≡ not (n == 0) → b ≡ false → n ≡ 0
empty_of e f = ground arith

-- The flags after a read that leaves `n` bytes, and after a write that leaves `n` bytes.
pub read-readable :
    {r : Ring} (pipe : Pipe)
    → IsValid 9 r
    → (test_bit pipe.reader.events 0 ≡ false → length (contents r) ≡ 0)
    → test_bit (after_read r pipe).reader.events 0 ≡ not (length (contents r) == 0)
unfolding after_read
read-readable {r} pipe v h = elim (Bool-cases (ring_read_count r == 0)) [
  | inl none_left ↦ rw none_left (
      notify-bit in_events 0 pipe.reader 0 (omega arith) (omega arith)
      ∙ ground (arith, none_left, ring_read_count_lem v))
  | inr some_left ↦ rw some_left (elim (Bool-cases (test_bit pipe.reader.events 0)) [
    | inl set ↦ set ∙ ground (arith, some_left, ring_read_count_lem v)
    | inr unset ↦ absurd (ground (arith, some_left, ring_read_count_lem v, h unset))
  ])
]

-- The writer's flag after a read, which leaves no more bytes than there were.
pub read-writable :
    {r : Ring} (pipe : Pipe) (n : ℕ)
    → IsValid 9 r
    → r.read_index + 2 ^ 9 < u32_mod
    → length (contents r) ≤ n
    → (test_bit pipe.writer.events 4 ≡ true → n < 2 ^ 9)
    → (test_bit (after_read r pipe).writer.events 4 ≡ true → length (contents r) < 2 ^ 9)
      × (length (contents r) ≤ 384 → test_bit (after_read r pipe).writer.events 4 ≡ true)
unfolding after_read
read-writable {r} pipe n v h less w = elim (Bool-cases (ltb (ring_write_count r) (r.size / 4))) [
  | inl little ↦ rw little (
    (λ set. omega (arith, w set, less)),
    λ quarter. absurd (ground (arith, little, ring_write_count_lem v h, v.sized)),
  )
  | inr much ↦ rw much (
    (λ set. ground (arith, much, ring_write_count_lem v h, v.sized)),
    λ quarter. notify-bit 0 out_events pipe.writer 4 (omega arith) (omega arith) ∙ ground arith,
  )
]

pub write-readable :
    (r : Ring) (pipe : Pipe) (count n : ℕ)
    → length (contents r) ≡ n + count
    → test_bit pipe.reader.events 0 ≡ not (n == 0)
    → test_bit (after_write count r pipe).reader.events 0 ≡ not (length (contents r) == 0)
unfolding after_write
write-readable r pipe count n e w = elim (Bool-cases (count == 0)) [
  | inl nothing ↦ rw nothing (w ∙ ap (λ m. not (m == 0)) (ground (arith, e, nothing)))
  | inr something ↦ rw something (
      notify-bit 0 in_events pipe.reader 0 (omega arith) (omega arith)
      ∙ ground (arith, e, something))
]

pub write-writable :
    {r : Ring} (pipe : Pipe) (count n : ℕ)
    → IsValid 9 r
    → r.read_index + 2 ^ 9 < u32_mod
    → n ≤ length (contents r)
    → (n ≤ 384 → test_bit pipe.writer.events 4 ≡ true)
    → (test_bit (after_write count r pipe).writer.events 4 ≡ true → length (contents r) < 2 ^ 9)
      × (length (contents r) ≤ 384 → test_bit (after_write count r pipe).writer.events 4 ≡ true)
unfolding after_write
write-writable {r} pipe count n v h more w = elim (Bool-cases (ring_write_count r == 0)) [
  | inl full ↦ rw full (
    (λ set. absurd (
        true≢false (
          sym set
          ∙ (notify-bit out_events 0 pipe.writer 4 (omega arith) (omega arith)
              ∙ cleared (test_bit pipe.writer.events 4))))),
    λ quarter. absurd (ground (arith, full, ring_write_count_lem v h)),
  )
  | inr room ↦
      rw room (
        (λ set. ground (arith, room, ring_write_count_lem v h)),
        λ quarter. w (omega (arith, more)),
      )
]
