-- ===== src/Poll.antt =====
-- Event flags and waiters of pollable files: morelib/poll.c and morelib/include/morelib/poll.h. A waiter
-- is known by a number, its address; what its callback does is not modelled, only how often it is
-- called. The critical sections make each function one step.
pub mod Bits
pub mod Wakeup
mod Tests
use morelibc.Base.{
  ℕ, ◌+◌, ◌-◌, ◌%◌, ◌^◌, Bool, true, false, not, List, [], ◌∷◌, map, ◌==◌, if◌then◌else◌, bit_and,
  bit_or, not_u32,
}

abbrev pub pollin : ℕ
pollin = 1

abbrev pub pollout : ℕ
pollout = 16

-- POLLCOM: POLLERR, POLLHUP and POLLNVAL.
abbrev pub pollcom : ℕ
pollcom = 128 + 256 + 512

-- `struct poll_waiter`, with the number of calls of its callback since it was initialised.
pub record Waiter : Type 0 where
  pub id : ℕ
  pub events : ℕ
  pub calls : ℕ

-- The fields of `struct poll_file` that this code keeps.
pub record PollFile : Type 0 where
  pub waiters : List Waiter
  pub events : ℕ

unfoldable pub poll_file_init : ℕ → PollFile
poll_file_init events = record { waiters = []; events = events }

unfoldable pub poll_waiter_init : ℕ → ℕ → Waiter
poll_waiter_init id events = record { id = id; events = bit_or events pollcom; calls = 0 }

-- `if (desc->events & events) desc->notify(desc, …)`
unfoldable pub notify_if : ℕ → Waiter → Waiter
notify_if events desc =
    if bit_and desc.events events == 0 then desc else record desc { calls = desc.calls + 1 }

unfoldable pub poll_waiter_add : Waiter → PollFile → PollFile
poll_waiter_add desc file = record file { waiters = notify_if file.events desc ∷ file.waiters }

unfoldable pub remove_all : ℕ → List Waiter → List Waiter
remove_all id [] = []
remove_all id (desc ∷ descs) =
    let rest = remove_all id descs in if desc.id == id then rest else desc ∷ rest

unfoldable pub poll_waiter_remove : ℕ → PollFile → PollFile
poll_waiter_remove id file = record file { waiters = remove_all id file.waiters }

unfoldable pub notify_one : ℕ → ℕ → Waiter → Waiter
notify_one id events desc = if desc.id == id then notify_if events desc else desc

-- `poll_waiter_modify`, for a waiter that is registered: it is called if one of its events is set.
unfoldable pub poll_waiter_modify : ℕ → PollFile → PollFile
poll_waiter_modify id file = record file { waiters = map (notify_one id file.events) file.waiters }

-- `poll_file_notify_from_isr`, and `poll_file_notify`
unfoldable pub poll_file_notify : ℕ → ℕ → PollFile → PollFile
poll_file_notify clear_events set_events file =
    let new_events = bit_and (not_u32 file.events) set_events in
    record file {
      events = bit_or (bit_and file.events (not_u32 clear_events)) set_events;
      waiters = if new_events == 0 then file.waiters else map (notify_if new_events) file.waiters;
    }

unfoldable pub poll_file_poll : PollFile → ℕ
poll_file_poll file = file.events
