-- ===== src/Pipe/Run.antt =====
-- Runs of a pipe of morelib/pipe.c, and what holds in them.
use morelibc.Base.{
  ℕ, ◌<◌, ◌≤◌, ◌^◌, ◌≡◌, true, not, ◌==◌, List, [], ◌++◌, length, take, test_bit, Result, ok, err,
  some,
}
use morelibc.Ring.Contents.{contents}
use morelibc.Ring.Invariant.{IsValid}
use morelibc.Pipe.{Pipe, pipe_pair, pipe_read, pipe_write}

-- The bytes that a write took, and that a read gave.
abbrev pub taken : List ℕ → Result ℕ → List ℕ
taken buffer (ok count) = take count buffer
taken buffer (err e) = []

abbrev pub given : Result (List ℕ) → List ℕ
given (ok out) = out
given (err e) = []

-- Runs of a pipe until an end is closed: with all bytes that writes took, and all that reads gave.
pub data Run : Pipe → List ℕ → List ℕ → Type 0 where
  start :
      (malloc : ℕ → List ℕ) (pipe : Pipe)
      → length (malloc (2 ^ 9)) ≡ 2 ^ 9
      → pipe_pair true malloc ≡ some pipe
      → Run pipe [] []
  read :
      {pipe : Pipe} {i o : List ℕ} (size : ℕ)
      → Run pipe i o
      → Run (pipe_read size pipe).1 i (o ++ given (pipe_read size pipe).0)
  write :
      {pipe : Pipe} {i o : List ℕ} (buffer : List ℕ)
      → Run pipe i o
      → Run (pipe_write buffer pipe).1 (i ++ taken buffer (pipe_write buffer pipe).0) o

-- What holds of a run. The reader shows POLLIN when there are bytes; the writer shows POLLOUT only if
-- there is room, and whenever a quarter of the ring is free.
pub record Keeps (pipe : Pipe) (i o : List ℕ) : Type 0 where
  pub valid : IsValid 9 pipe.ring
  pub stream : i ≡ o ++ contents pipe.ring
  pub index : pipe.ring.read_index ≡ length o
  pub reader_open : pipe.reader_closed ≡ 0
  pub writer_open : pipe.writer_closed ≡ 0
  pub readable : test_bit pipe.reader.events 0 ≡ not (length (contents pipe.ring) == 0)
  pub writable : test_bit pipe.writer.events 4 ≡ true → length (contents pipe.ring) < 2 ^ 9
  pub roomy : length (contents pipe.ring) ≤ 384 → test_bit pipe.writer.events 4 ≡ true
