-- ===== src/Poll/Tests.antt =====
-- A waiter for input, before and after input arrives, for morelib/poll.c.
use morelibc.Base.{◌<◌, ◌≡◌, ◌≢◌, refl, [], ◌∷◌, map, bit_and, All, arith}
use morelibc.Poll.{
  PollFile, pollin, pollout, poll_file_init, poll_waiter_init, notify_if, poll_waiter_add,
  poll_file_notify,
}
use morelibc.Poll.Wakeup.{start, add, notify, no_lost_wakeup}

abbrev waiting : PollFile
waiting = poll_waiter_add (poll_waiter_init 5 pollin) (poll_file_init pollout)

abbrev woken : PollFile
woken = poll_file_notify 0 pollin waiting

not_called_yet : map (λ desc. desc.calls) waiting.waiters ≡ 0 ∷ []
unfolding notify_if poll_waiter_add poll_waiter_init poll_file_init
not_called_yet = refl

called_once : map (λ desc. desc.calls) woken.waiters ≡ 1 ∷ []
unfolding notify_if poll_waiter_add poll_waiter_init poll_file_init poll_file_notify
called_once = refl

no_lost_wakeup_example :
    All (λ desc. bit_and desc.events woken.events ≢ 0 → 0 < desc.calls) woken.waiters
no_lost_wakeup_example = no_lost_wakeup (
    notify 0 pollin (omega arith) (omega arith)
      (add 5 pollin (omega arith) (start pollout (omega arith))))
