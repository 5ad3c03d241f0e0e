-- ===== src/Eventfd.antt =====
-- Event counters: `eventfd`, `eventfd_read` and `eventfd_write` of morelib/eventfd.c. The body of the
-- loop that a blocking call repeats after each wake-up is one step, which its critical section makes
-- atomic; the 8 bytes of the buffer are their 64-bit value.
mod Steps
mod Run
mod Stuck
mod Tests
use morelibc.Base.{
  ℕ, ◌+◌, ◌-◌, ◌%◌, ◌^◌, Bool, true, false, ltb, ◌==◌, if◌then◌else◌, bit_or, u64, not_u32, not_u64,
  Result, ok, err, einval, eagain,
}
use morelibc.Poll.{PollFile, pollin, pollout, poll_file_init, poll_file_notify}

-- `struct eventfd`, with the flag EFD_SEMAPHORE.
pub record Eventfd : Type 0 where
  pub base : PollFile
  pub value : ℕ
  pub semaphore : Bool

unfoldable pub eventfd : ℕ → Bool → Eventfd
eventfd initval semaphore = record {
  base =
      poll_file_init
        (bit_or (if initval == 0 then 0 else pollin) (if not_u32 initval == 0 then 0 else pollout));
  value = initval;
  semaphore = semaphore;
}

-- The counter after a read, and the notification that follows.
unfoldable pub take_value : ℕ → Eventfd → Eventfd
take_value value file = record file {
  value = value;
  base = poll_file_notify (if value == 0 then pollin else 0) pollout file.base;
}

-- `eventfd_read`: the value that is read.
unfoldable pub eventfd_read : ℕ → Eventfd → Result ℕ × Eventfd
eventfd_read size file =
    if ltb size 8
    then (err einval, file)
    else if file.value == 0
    then (err eagain, file)
    else if file.semaphore
    then (ok 1, take_value (file.value - 1) file)
    else (ok file.value, take_value 0 file)

unfoldable pub put_value : ℕ → Eventfd → Eventfd
put_value value file = record file {
  value = value;
  base = poll_file_notify (if not_u64 value == 0 then pollout else 0) pollin file.base;
}

-- `eventfd_write`: the number of bytes taken.
unfoldable pub eventfd_write : ℕ → ℕ → Eventfd → Result ℕ × Eventfd
eventfd_write size new_value file =
    if ltb size 8
    then (err einval, file)
    else if ltb new_value (not_u64 file.value)
    then (ok 8, put_value (u64 (file.value + new_value)) file)
    else (err eagain, file)
