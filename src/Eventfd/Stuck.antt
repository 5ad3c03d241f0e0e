-- ===== src/Eventfd/Stuck.antt =====
-- Where the event flags of morelib/eventfd.c do not follow the counter.
use morelibc.Base.{
  ℕ, ◌+◌, ◌-◌, ◌<◌, ◌≤◌, ◌≡◌, inl, inr, refl, ◌∙◌, true, false, ltb, ◌==◌, if◌then◌else◌, test_bit,
  u64_mod, u64, not_u64, err, eagain, arith,
}
use morelibc.Poll.{pollin, pollout}
use morelibc.Eventfd.{Eventfd, put_value, eventfd_read, eventfd_write}
use morelibc.Eventfd.Run.{Run-Kept}
use morelibc.Eventfd.Steps.{Run, eventfd_write-cases}
use morelibc.Poll.Bits.{notify-bit}

kept_pollout :
    (value : ℕ) (s : Eventfd)
    → value < u64_mod - 1
    → test_bit s.base.events 4 ≡ true
    → test_bit (put_value value s).base.events 4 ≡ true
unfolding put_value
kept_pollout value s h set =
    notify-bit (if not_u64 value == 0 then pollout else 0) pollin s.base 4 (ground arith)
      (omega arith)
    ∙ ground (arith, set)

write_keeps_pollout :
    {s : Eventfd} {i o : ℕ}
    → Run s i o
    → (size new_value : ℕ) → test_bit s.base.events 4 ≡ true
    → test_bit (eventfd_write size new_value s).1.base.events 4 ≡ true
write_keeps_pollout {s = s} r size new_value h =
    elim (eventfd_write-cases size new_value s (omega (arith, (Run-Kept r).0.bounded))) [
      | inl (e, failed) ↦ rw failed h
      | inr (done, fits) ↦ rw done (kept_pollout (s.value + new_value) s fits h)
    ]

full_refuses :
    (size new_value : ℕ) (s : Eventfd)
    → 8 ≤ size
    → 0 < new_value
    → s.value ≡ u64_mod - 2
    → eventfd_write size new_value s ≡ (err eagain, s)
unfolding eventfd_write
full_refuses size new_value s long some_value full =
    let e : ltb size 8 ≡ false = ground arith in
    let f : ltb new_value (not_u64 s.value) ≡ false = ground arith in rw (e, f) refl

fills :
    (size : ℕ) (s : Eventfd)
    → 8 ≤ size
    → s.value < u64_mod - 1
    → (eventfd_write size (u64_mod - 2 - s.value) s).1.value ≡ u64_mod - 2
unfolding eventfd_write put_value
fills size s long h =
    let e : ltb size 8 ≡ false = ground arith in
    let f : ltb (u64_mod - 2 - s.value) (not_u64 s.value) ≡ true = ground arith in
    rw (e, f) (omega arith)

-- In any run, a counter that shows POLLOUT and is filled up by a write shows POLLOUT still, although the
-- write of any value above 0 then fails with EAGAIN and changes nothing.
full_shows_pollout :
    {s : Eventfd} {i o : ℕ}
    → Run s i o
    → (size new_value : ℕ) → 8 ≤ size
    → 0 < new_value
    → test_bit s.base.events 4 ≡ true
    → let s' = (eventfd_write size (u64_mod - 2 - s.value) s).1 in
      (test_bit s'.base.events 4 ≡ true) × (eventfd_write size new_value s' ≡ (err eagain, s'))
full_shows_pollout {s = s} r size new_value long some_value set =
    let s' = (eventfd_write size (u64_mod - 2 - s.value) s).1 in
    (
      write_keeps_pollout r size (u64_mod - 2 - s.value) set,
      full_refuses size new_value s' long some_value (fills size s long (Run-Kept r).0.bounded),
    )

-- A write of 0 to a counter that is 0 makes it show POLLIN, and the read that this promises fails with
-- EAGAIN and leaves the flag as it is.
zero_write_readable :
    {s : Eventfd} {i o : ℕ}
    → Run s i o
    → (size : ℕ) → 8 ≤ size
    → s.value ≡ 0
    → let s' = (eventfd_write size 0 s).1 in
      (test_bit s'.base.events 0 ≡ true) × (eventfd_read size s' ≡ (err eagain, s'))
unfolding eventfd_write eventfd_read put_value
zero_write_readable {s = s} r size long empty =
    let e : ltb size 8 ≡ false = ground arith in
    let f : ltb 0 (not_u64 s.value) ≡ true = ground arith in
    let z : (u64 (s.value + 0) == 0) ≡ true = ground arith in
    rw (e, f)
      (
        notify-bit (if not_u64 (u64 (s.value + 0)) == 0 then pollout else 0) pollin s.base 0
              (ground arith) (omega arith)
            ∙ ground arith,
        rw z refl,
      )
