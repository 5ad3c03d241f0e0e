-- ===== src/Eventfd/Run.antt =====
-- Runs of an event counter of morelib/eventfd.c: reads and writes by any number of tasks, which wait as
-- in morelib/poll.c, in any order.
use morelibc.Base.{
  ℕ, ◌+◌, ◌<◌, ◌≡◌, ◌≢◌, inl, inr, sym, ap₂, ◌∙◌, true, ◌&&◌, bit_and, test_bit, All, All-map,
  arith,
}
use morelibc.Poll.{poll_waiter_add, poll_waiter_remove}
use morelibc.Poll.Bits.{disjoint-bit}
use morelibc.Poll.Wakeup.{no_lost_wakeup, IsAttentive, Reach-IsAttentive}
use morelibc.Poll.Wakeup
use morelibc.Eventfd.{Eventfd, eventfd_read, eventfd_write}
use morelibc.Eventfd.Steps.{
  taken, given, Run, start, read, write, wait, leave, IsValid, eventfd-IsValid, take_value-IsValid,
  put_value-IsValid, eventfd_read-cases, eventfd_write-cases, taken_value, given_value, started,
  true≢false,
}

-- What holds of a run: a valid state, and a value that is what was put in less what was taken out.
abbrev pub Kept : Eventfd → ℕ → ℕ → Type 0
Kept s i o = IsValid s × (i ≡ o + s.value)

read-Kept :
    (size : ℕ) (s : Eventfd) (i o : ℕ)
    → Kept s i o
    → Kept (eventfd_read size s).1 i (o + taken (eventfd_read size s).0)
read-Kept size s i o k = elim (eventfd_read-cases size s) [
  | inl (e, failed) ↦ rw failed (k.0, omega (arith, k.1))
  | inr (n, value, done, some_taken, split) ↦
      rw done (take_value-IsValid value (omega arith) k.0, omega (arith, k.1, taken_value value s))
]

write-Kept :
    (size new_value : ℕ) (s : Eventfd) (i o : ℕ)
    → Kept s i o
    → Kept
        (eventfd_write size new_value s).1
        (i + given new_value (eventfd_write size new_value s).0)
        o
write-Kept size new_value s i o k =
    elim (eventfd_write-cases size new_value s (omega (arith, k.0.bounded))) [
      | inl (e, failed) ↦ rw failed (k.0, omega (arith, k.1))
      | inr (written, fits) ↦ rw written (
        put_value-IsValid (s.value + new_value) fits k.0,
        omega (arith, k.1, given_value (s.value + new_value) s),
      )
    ]

-- In any run nothing is lost and nothing is made up: the initial value and all values that were written
-- add up to all values that were read and the value now, which is below its maximum.
pub Run-Kept : {s : Eventfd} {i o : ℕ} → Run s i o → Kept s i o
unfolding poll_waiter_add poll_waiter_remove
Run-Kept (start initval semaphore h) =
    (eventfd-IsValid initval semaphore h, started initval semaphore)
Run-Kept (read size r) = read-Kept size _ _ _ (Run-Kept r)
Run-Kept (write size new_value h r) = write-Kept size new_value _ _ _ (Run-Kept r)
Run-Kept (wait {s = s} id events h r) =
    let (v, e) = Run-Kept r in
    (
      record {
        bounded = v.bounded;
        file = Wakeup.Reach.add id events h v.file;
        readable = λ n. v.readable n;
      },
      e,
    )
Run-Kept (leave id r) =
    let (v, e) = Run-Kept r in
    (
      record {
        bounded = v.bounded;
        file = Wakeup.Reach.remove id v.file;
        readable = λ n. v.readable n;
      },
      e,
    )

-- In any run, while the counter is not 0, each task that waits to read it has been woken.
pub readers_woken :
    {s : Eventfd} {i o : ℕ}
    → Run s i o
    → s.value ≢ 0
    → All (λ desc. test_bit desc.events 0 ≡ true → 0 < desc.calls) s.base.waiters
readers_woken {s = s} r full =
    let v = (Run-Kept r).0 in
    All-map (λ desc. bit_and desc.events s.base.events ≢ 0 → 0 < desc.calls) _ s.base.waiters
      (λ desc called waits. called λ disjoint. true≢false (
        sym (ap₂ ◌&&◌ waits (v.readable full)) ∙ disjoint-bit desc.events s.base.events 0 disjoint))
      (no_lost_wakeup v.file)
