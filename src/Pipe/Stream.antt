-- ===== src/Pipe/Stream.antt =====
-- A pipe of morelib/pipe.c is a stream: what is read is what was written, in order, and its event flags
-- follow what it holds.
use morelibc.Base.{
  ℕ, zero, suc, ◌+◌, ◌<◌, ◌≤◌, ◌^◌, ◌≡◌, inl, inr, refl, sym, ap, ◌∙◌, true, false, not, ◌&&◌, ◌||◌,
  Bool-cases, ltb, ◌==◌, leb, subst, List, [], ◌∷◌, ◌++◌, append_assoc, length, length-append, take,
  length-take, test_bit, u32_mod, some, arith,
}
use morelibc.Ring.{Ring, ring_alloc, ring_read, ring_write}
use morelibc.Ring.Contents.{contents}
use morelibc.Ring.Read.{ring_read_lem}
use morelibc.Ring.Write.{ring_write_lem}
use morelibc.Poll.{poll_file_init}
use morelibc.Pipe.{
  Pipe, pipe_pair, pipe_over, fresh_pipe, after_read, read_result, pipe_read, after_write,
  write_result, pipe_write,
}
use morelibc.Pipe.Run.{taken, given, Run, Keeps, start, read, write}
use morelibc.Pipe.Flags.{
  length-contents, nonzero, nonzero_suc, empty_of, read-readable, read-writable, write-readable,
  write-writable,
}

-- What `pipe_read` and `pipe_write` give to `Run` is what the ring gave and took.
given-read_result : (out : List ℕ) (size closed : ℕ) → given (read_result out size closed) ≡ out
unfolding read_result
given-read_result [] size closed = elim (Bool-cases (not (size == 0) && (closed == 0))) [
  | inl e ↦ rw e refl
  | inr e ↦ rw e refl
]
given-read_result (x ∷ xs) size closed = rw (nonzero xs) refl

taken-write_result :
    (buffer : List ℕ) (count : ℕ)
    → taken buffer (write_result count (length buffer)) ≡ take count buffer
unfolding write_result
taken-write_result buffer zero = elim (Bool-cases (not (length buffer == 0))) [
  | inl e ↦ rw e refl
  | inr e ↦ rw e refl
]
taken-write_result buffer (suc count) = rw (nonzero_suc count) refl

pipe_read-Keeps :
    (size : ℕ) {pipe : Pipe} {i o : List ℕ}
    → length i + 2 ^ 9 < u32_mod
    → Keeps pipe i o
    → Keeps (pipe_read size pipe).1 i (o ++ given (pipe_read size pipe).0)
unfolding pipe_read after_read
pipe_read-Keeps size {pipe} {i} {o} h v =
    let (out, ring) = ring_read pipe.ring size in
    let (n, split, valid, moved) = ring_read_lem size v.valid in
    let all_out = given-read_result out size pipe.writer_closed in
    let held = ap length split ∙ length-append out (contents ring) in
    let total = ap length v.stream ∙ length-append o (contents pipe.ring) in
    let index = ap (λ r. r.read_index) moved ∙ ap (λ m. m + length out) v.index in
    let flags =
      read-writable pipe (length (contents pipe.ring)) valid (omega (arith, index, total, held, h))
        (omega (arith, held)) v.writable in
    rw all_out (record {
      valid = valid;
      stream = v.stream ∙ ap (λ l. o ++ l) split ∙ sym (append_assoc o out (contents ring));
      index = index ∙ sym (length-append o out);
      reader_open = v.reader_open;
      writer_open = v.writer_open;
      readable = read-readable pipe valid λ unset. omega (arith, held, empty_of (v.readable) unset);
      writable = flags.0;
      roomy = flags.1;
    })

written :
    (buffer : List ℕ) (pipe : Pipe)
    → pipe.reader_closed ≡ 0
    → let (count, ring) = ring_write pipe.ring buffer in
      pipe_write buffer pipe ≡ (write_result count (length buffer), after_write count ring pipe)
unfolding pipe_write
written buffer pipe e =
    let f : not (pipe.reader_closed == 0) ≡ false = ground (arith, e) in rw f refl

pipe_write-Keeps :
    (buffer : List ℕ) {pipe : Pipe} {i o : List ℕ}
    → length i + length (taken buffer (pipe_write buffer pipe).0) + 2 ^ 9 < u32_mod
    → Keeps pipe i o
    → Keeps (pipe_write buffer pipe).1 (i ++ taken buffer (pipe_write buffer pipe).0) o
unfolding after_write
pipe_write-Keeps buffer {pipe} {i} {o} h v =
    let (count, ring) = ring_write pipe.ring buffer in
    let total = ap length v.stream ∙ length-append o (contents pipe.ring) in
    let (n, appended, valid, index, size) =
      ring_write_lem buffer v.valid (omega (arith, total, v.index, v.valid.sized, h)) in
    let all_in = taken-write_result buffer count in
    let e = written buffer pipe v.reader_open in
    let held = ap length appended ∙ length-append (contents pipe.ring) (take count buffer) in
    let sum = length-take count buffer in
    let flags =
      write-writable pipe count (length (contents pipe.ring)) valid
        (omega (arith, index, v.index, total, h)) (omega (arith, held)) v.roomy in
    rw e (
      rw all_in (record {
        valid = valid;
        stream =
            ap (λ l. l ++ take count buffer) v.stream
            ∙ append_assoc o (contents pipe.ring) (take count buffer)
            ∙ ap (λ l. o ++ l) (sym appended);
        index = index ∙ v.index;
        reader_open = v.reader_open;
        writer_open = v.writer_open;
        readable =
            write-readable ring pipe count (length (contents pipe.ring))
              (omega (arith, held, sum, n)) v.readable;
        writable = flags.0;
        roomy = flags.1;
      }))

some-injective : {p q : Pipe} → some p ≡ some q → p ≡ q
some-injective e = cc e

pipe_over-some :
    (buffer : List ℕ) (ring : Ring)
    → length buffer ≡ 2 ^ 9
    → pipe_over buffer ring ≡ some (fresh_pipe ring)
unfolding pipe_over
pipe_over-some [] ring e = absurd (omega arith)
pipe_over-some (b ∷ buffer) ring e = refl

new_pipe :
    (malloc : ℕ → List ℕ)
    → length (malloc (2 ^ 9)) ≡ 2 ^ 9
    → pipe_pair true malloc ≡ some (fresh_pipe (ring_alloc malloc 9))
unfolding pipe_pair ring_alloc
new_pipe malloc block = pipe_over-some (malloc (2 ^ 9)) _ block

pipe_pair-Keeps :
    (malloc : ℕ → List ℕ) (pipe : Pipe)
    → length (malloc (2 ^ 9)) ≡ 2 ^ 9
    → pipe_pair true malloc ≡ some pipe
    → Keeps pipe [] []
unfolding fresh_pipe ring_alloc poll_file_init
pipe_pair-Keeps malloc pipe block made =
    subst (λ p. Keeps p [] []) (some-injective (sym (new_pipe malloc block) ∙ made))
      (record {
        valid = record {
          sized = refl;
          small = omega arith;
          storage = block;
          ordered = omega arith;
          within = omega arith;
          word = omega arith;
        };
        stream = refl;
        index = refl;
        reader_open = refl;
        writer_open = refl;
        readable = refl;
        writable = λ set. omega arith;
        roomy = λ quarter. refl;
      })

-- A run grows what was written.
Run-Keeps :
    {pipe : Pipe} {i o : List ℕ} → Run pipe i o → length i + 2 ^ 9 < u32_mod → Keeps pipe i o
Run-Keeps (start malloc pipe block made) h = pipe_pair-Keeps malloc pipe block made
Run-Keeps (read size r) h = pipe_read-Keeps size h (Run-Keeps r h)
Run-Keeps (write {pipe = pipe} {i = i} buffer r) h =
    let now = length-append i (taken buffer (pipe_write buffer pipe).0) in
    pipe_write-Keeps buffer (omega (arith, now, h)) (Run-Keeps r (omega (arith, now, h)))

-- A pipe delivers a stream: in any run of reads and writes, as long as the bytes written do not reach
-- 4 GB less the size of the ring, the bytes that were read are a beginning of the bytes that were
-- written, in order, and the pipe holds the rest, 512 bytes at most.
pub pipe_delivers :
    {pipe : Pipe} {i o : List ℕ}
    → Run pipe i o
    → length i + 2 ^ 9 < u32_mod
    → (i ≡ o ++ contents pipe.ring) × (length (contents pipe.ring) ≤ 2 ^ 9)
pipe_delivers {pipe} r h =
    let v = Run-Keeps r h in
    (v.stream, omega (arith, length-contents pipe.ring, v.valid.within, v.valid.sized))

-- The flags of a pipe follow what it holds, in the same runs: the read end shows POLLIN exactly when
-- there is a byte; the write end shows POLLOUT only while there is room, and always when a quarter of
-- the ring, 128 bytes, is free.
pub pipe_flags :
    {pipe : Pipe} {i o : List ℕ}
    → Run pipe i o
    → length i + 2 ^ 9 < u32_mod
    → (test_bit pipe.reader.events 0 ≡ not (length (contents pipe.ring) == 0))
      × (test_bit pipe.writer.events 4 || ltb 384 (length (contents pipe.ring)) ≡ true)
      × (test_bit pipe.writer.events 4 && leb 512 (length (contents pipe.ring)) ≡ false)
pipe_flags {pipe} r h =
    let v = Run-Keeps r h in
    (
      v.readable,
      ground (arith, v.roomy),
      elim (Bool-cases (test_bit pipe.writer.events 4)) [
        | inl set ↦ rw set (ground (arith, v.writable set))
        | inr unset ↦ rw unset refl
      ],
    )
