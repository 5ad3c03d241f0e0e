-- ===== src/Pipe/Tests.antt =====
-- A run of a pipe of morelib/pipe.c.
use morelibc.Base.{
  ℕ, ◌+◌, ◌<◌, ◌≤◌, ◌^◌, ◌≡◌, refl, true, false, not, ◌&&◌, ◌||◌, leb, ltb, ◌==◌, List, [], ◌∷◌,
  ◌++◌, length, replicate, length-replicate, test_bit, u32_mod, ok, err, eagain, epipe, some, load,
  store, arith,
}
use morelibc.Ring.{ring_alloc, ring_at, ring_read, ring_write, ring_read_loop, ring_write_loop}
use morelibc.Ring.Contents.{contents}
use morelibc.Pipe.{
  Pipe, pipe_pair, pipe_over, fresh_pipe, pipe_read, read_result, pipe_write, write_result,
  after_write, close_reader, close_writer, drop_ref,
}
use morelibc.Pipe.Run.{Run, start, write, taken}
use morelibc.Pipe.Stream.{pipe_delivers, pipe_flags}

abbrev malloc : ℕ → List ℕ
malloc n = replicate n 0

abbrev new : Pipe
new = fresh_pipe (ring_alloc malloc 9)

abbrev hello : List ℕ
hello = 104 ∷ 101 ∷ 108 ∷ 108 ∷ 111 ∷ []

abbrev written : Pipe
written = (pipe_write hello new).1

made : pipe_pair true malloc ≡ some new
unfolding pipe_pair pipe_over ring_alloc
made = refl

written-Run : Run written ([] ++ taken hello (pipe_write hello new).0) []
written-Run = write hello (start malloc new (length-replicate {A = ℕ} (2 ^ 9) 0) made)

all_taken : (pipe_write hello new).0 ≡ ok 5
unfolding pipe_write write_result ring_write ring_write_loop ring_at fresh_pipe ring_alloc
all_taken = refl

first_two : (pipe_read 2 written).0 ≡ ok (104 ∷ 101 ∷ [])
unfolding pipe_read read_result pipe_write after_write ring_write ring_write_loop ring_at fresh_pipe
    ring_alloc ring_read ring_read_loop load store
first_two = refl

-- An empty pipe is waited for, and at its end once the writer has closed.
nothing_yet : (pipe_read 2 new).0 ≡ err eagain
unfolding pipe_read read_result ring_at fresh_pipe ring_alloc ring_read ring_read_loop
nothing_yet = refl

end_of_file : (pipe_read 2 (close_writer new)).0 ≡ ok []
unfolding pipe_read read_result ring_at fresh_pipe ring_alloc ring_read ring_read_loop close_writer
    drop_ref
end_of_file = refl

broken_pipe : (pipe_write hello (close_reader new)).0 ≡ err epipe
unfolding pipe_write fresh_pipe close_reader drop_ref
broken_pipe = refl

freed_by_second : (close_writer (close_reader new)).freed ≡ true
unfolding fresh_pipe close_reader close_writer drop_ref
freed_by_second = refl

short : length ([] ++ taken hello (pipe_write hello new).0) + 2 ^ 9 < u32_mod
unfolding pipe_write write_result ring_write ring_write_loop ring_at fresh_pipe ring_alloc
short = omega arith

pipe_delivers_example :
    ([] ++ taken hello (pipe_write hello new).0 ≡ [] ++ contents written.ring)
    × (length (contents written.ring) ≤ 2 ^ 9)
pipe_delivers_example = pipe_delivers written-Run short

pipe_flags_example :
    (test_bit written.reader.events 0 ≡ not (length (contents written.ring) == 0))
    × (test_bit written.writer.events 4 || ltb 384 (length (contents written.ring)) ≡ true)
    × (test_bit written.writer.events 4 && leb 512 (length (contents written.ring)) ≡ false)
pipe_flags_example = pipe_flags written-Run short
