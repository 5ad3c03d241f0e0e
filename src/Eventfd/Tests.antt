-- ===== src/Eventfd/Tests.antt =====
-- Runs of an event counter of morelib/eventfd.c.
use morelibc.Base.{◌+◌, ◌<◌, ◌≡◌, refl, true, false, test_bit, ok, err, eagain, All, arith}
use morelibc.Poll.{pollin, poll_waiter_init, poll_waiter_add}
use morelibc.Eventfd.{Eventfd, eventfd, take_value, put_value, eventfd_read, eventfd_write}
use morelibc.Eventfd.Run.{Kept, Run-Kept, readers_woken}
use morelibc.Eventfd.Steps.{Run, start, write, wait, given}

abbrev empty : Eventfd
empty = eventfd 0 false

abbrev waited : Eventfd
waited = record empty { base = poll_waiter_add (poll_waiter_init 5 pollin) empty.base }

abbrev written : Eventfd
written = (eventfd_write 8 7 waited).1

waited-Run : Run waited 0 0
waited-Run = wait 5 pollin (omega arith) (start 0 false (omega arith))

written-Run : Run written (0 + given 7 (eventfd_write 8 7 waited).0) 0
written-Run = write 8 7 (omega arith) waited-Run

-- What was written is read at once, and the next read finds nothing.
read_back :
    ((eventfd_read 8 written).0 ≡ ok 7)
    × ((eventfd_read 8 (eventfd_read 8 written).1).0 ≡ err eagain)
unfolding eventfd eventfd_read eventfd_write take_value put_value
read_back = (refl, refl)

written_value : written.value ≡ 7
unfolding eventfd eventfd_write put_value
written_value = refl

-- A semaphore gives its value out one by one.
one_by_one : (eventfd_read 8 (eventfd 3 true)).1.value ≡ 2
unfolding eventfd eventfd_read take_value
one_by_one = refl

Run-Kept_example : Kept written (0 + given 7 (eventfd_write 8 7 waited).0) 0
Run-Kept_example = Run-Kept written-Run

readers_woken_example :
    All (λ desc. test_bit desc.events 0 ≡ true → 0 < desc.calls) written.base.waiters
readers_woken_example = readers_woken written-Run (λ e. absurd (omega (arith, e, written_value)))
