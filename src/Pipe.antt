-- ===== src/Pipe.antt =====
-- Pipes: morelib/pipe.c, over the ring of morelib/ring.c and the event flags of morelib/poll.c. The body
-- of the loop that a blocking call repeats after each wake-up is one step, which the pipe's mutex makes
-- atomic.
mod Run
mod Flags
mod Stream
mod Tests
use morelibc.Base.{
  ℕ, ◌+◌, ◌-◌, ◌/◌, Bool, true, false, not, ◌&&◌, Option, none, some, List, [], ◌∷◌, length, ltb,
  ◌==◌, if◌then◌else◌, Result, ok, err, eagain, epipe,
}
use morelibc.Ring.{
  Ring, ring_alloc, ring_free, ring_read, ring_write, ring_read_count, ring_write_count,
}
use morelibc.Poll.{PollFile, poll_file_init, poll_file_notify}

-- POLLIN | POLLRDNORM and POLLOUT | POLLWRNORM
abbrev pub in_events : ℕ
in_events = 1 + 2

abbrev pub out_events : ℕ
out_events = 16 + 32

-- `struct pipe`, with its two `struct pipe_file`s and whether it was freed.
pub record Pipe : Type 0 where
  pub ref_count : ℕ
  pub ring : Ring
  pub reader : PollFile
  pub writer : PollFile
  pub reader_closed : ℕ
  pub writer_closed : ℕ
  pub freed : Bool

-- The pipe that `pipe_pair` sets up, unless the ring has no buffer.
unfoldable pub fresh_pipe : Ring → Pipe
fresh_pipe ring = record {
  ref_count = 2;
  ring = ring;
  reader = poll_file_init 0;
  writer = poll_file_init out_events;
  reader_closed = 0;
  writer_closed = 0;
  freed = false;
}

unfoldable pub pipe_over : List ℕ → Ring → Option Pipe
pipe_over [] ring = none
pipe_over (b ∷ buffer) ring = some (fresh_pipe ring)

-- `pipe_pair`: whether `malloc` has a block for the pipe, and its block for the ring, are parameters.
unfoldable pub pipe_pair : Bool → (ℕ → List ℕ) → Option Pipe
pipe_pair has_block malloc =
    let ring = ring_alloc malloc 9 in if has_block then pipe_over ring.buffer ring else none

-- The notifications after a read: the writer has room again, the reader has nothing left.
unfoldable pub after_read : Ring → Pipe → Pipe
after_read ring pipe = record pipe {
  ring = ring;
  writer =
      if ltb (ring_write_count ring) (ring.size / 4)
      then pipe.writer
      else poll_file_notify 0 out_events pipe.writer;
  reader =
      if ring_read_count ring == 0 then poll_file_notify in_events 0 pipe.reader else pipe.reader;
}

unfoldable pub read_result : List ℕ → ℕ → ℕ → Result (List ℕ)
read_result out size writer_closed =
    if length out == 0 && not (size == 0) && (writer_closed == 0) then err eagain else ok out

-- `pipe_read`: the bytes that are read.
unfoldable pub pipe_read : ℕ → Pipe → Result (List ℕ) × Pipe
pipe_read size pipe =
    let (out, ring) = ring_read pipe.ring size in
    (read_result out size pipe.writer_closed, after_read ring pipe)

-- The notifications after a write: the reader has something, the writer has no room left.
unfoldable pub after_write : ℕ → Ring → Pipe → Pipe
after_write count ring pipe = record pipe {
  ring = ring;
  reader = if count == 0 then pipe.reader else poll_file_notify 0 in_events pipe.reader;
  writer =
      if ring_write_count ring == 0 then poll_file_notify out_events 0 pipe.writer else pipe.writer;
}

unfoldable pub write_result : ℕ → ℕ → Result ℕ
write_result count size = if count == 0 && not (size == 0) then err eagain else ok count

-- `pipe_write`: the number of bytes taken.
unfoldable pub pipe_write : List ℕ → Pipe → Result ℕ × Pipe
pipe_write buffer pipe =
    if not (pipe.reader_closed == 0)
    then (err epipe, pipe)
    else (let (count, ring) = ring_write pipe.ring buffer in
        (write_result count (length buffer), after_write count ring pipe))

-- The end of `pipe_close`: the last reference frees the pipe.
unfoldable pub drop_ref : Pipe → Pipe
drop_ref pipe =
    if pipe.ref_count == 1
    then record pipe { ref_count = 0; ring = ring_free pipe.ring; freed = true }
    else record pipe { ref_count = pipe.ref_count - 1 }

-- `pipe_close` of the read end, and of the write end.
unfoldable pub close_reader : Pipe → Pipe
close_reader pipe = drop_ref (record pipe { reader_closed = pipe.reader_closed + 1 })

unfoldable pub close_writer : Pipe → Pipe
close_writer pipe = drop_ref (record pipe { writer_closed = pipe.writer_closed + 1 })
