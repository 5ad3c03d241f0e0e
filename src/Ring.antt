-- ===== src/Ring.antt =====
-- morelib/ring.c and morelib/include/morelib/ring.h: a byte ring over a power-of-two buffer.
-- The indices are free-running `size_t` words; an access takes them modulo the size.
pub mod Contents
pub mod Invariant
pub mod Write
pub mod Read
mod Chr
mod Stall
mod Tests
use morelibc.Base.{
  ℕ, zero, suc, ◌+◌, ◌-◌, ◌^◌, ◌%◌, min, bit_and, ◌&&◌, Option, none, some, List, [], ◌∷◌, ◌++◌,
  length, get_or, set, take, drop, ltb, ◌==◌, if◌then◌else◌, u32, store, load, sub_u32,
}

-- `ring_t`. A NULL buffer is the empty list: a block of `malloc` has at least one byte here.
pub record Ring : Type 0 where
  pub buffer : List ℕ
  pub size : ℕ
  pub read_index : ℕ
  pub write_index : ℕ

-- `malloc` is a parameter: the block that it returns for a size, [] for NULL.
unfoldable pub ring_alloc : (ℕ → List ℕ) → ℕ → Ring
ring_alloc malloc log2_size = record {
  buffer = malloc (u32 (2 ^ log2_size));
  size = u32 (2 ^ log2_size);
  read_index = 0;
  write_index = 0;
}

unfoldable pub ring_free : Ring → Ring
ring_free r = record r { buffer = [] }

-- `ring_at`: the offset in the buffer, and the bytes from there to its end.
unfoldable pub ring_at : Ring → ℕ → ℕ × ℕ
ring_at r index = let offset = bit_and index (sub_u32 r.size 1) in (offset, sub_u32 r.size offset)

unfoldable pub ring_write_count : Ring → ℕ
ring_write_count r = sub_u32 (u32 (r.read_index + r.size)) r.write_index

unfoldable pub ring_read_count : Ring → ℕ
ring_read_count r = sub_u32 r.write_index r.read_index

unfoldable pub ring_clear : Ring → Ring
ring_clear r = record r { read_index = 0; write_index = 0 }

-- The loop of `ring_write`. A round moves a byte at least, so the caller's `buffer_size` rounds
-- are enough.
unfoldable pub ring_write_loop : ℕ → Ring → List ℕ → ℕ → ℕ → ℕ × Ring
ring_write_loop zero r src max_index write_count = (write_count, r)
ring_write_loop (suc fuel) r src max_index write_count =
    let (offset, room) = ring_at r r.write_index in
    let n = min (min room (sub_u32 max_index r.write_index)) (length src - write_count) in
    let r' : Ring = record r {
      buffer = store r.buffer offset (take n (drop write_count src));
      write_index = u32 (r.write_index + n);
    } in
    let rest = ring_write_loop fuel r' src max_index (write_count + n) in
    if ltb r.write_index max_index && ltb write_count (length src) then rest else (write_count, r)

-- `ring_write`: the count written, and the new ring. `src` holds `buffer_size` bytes.
unfoldable pub ring_write : Ring → List ℕ → ℕ × Ring
ring_write r src = ring_write_loop (length src) r src (u32 (r.read_index + r.size)) 0

-- The loop of `ring_read`: `out` is what was copied to the caller so far.
unfoldable pub ring_read_loop : ℕ → Ring → ℕ → ℕ → List ℕ → List ℕ × Ring
ring_read_loop zero r buffer_size max_index out = (out, r)
ring_read_loop (suc fuel) r buffer_size max_index out =
    let (offset, room) = ring_at r r.read_index in
    let read_count = length out in
    let n = min (min room (sub_u32 max_index r.read_index)) (buffer_size - read_count) in
    let r' : Ring = record r { read_index = u32 (r.read_index + n) } in
    let rest = ring_read_loop fuel r' buffer_size max_index (out ++ load r.buffer offset n) in
    if ltb r.read_index max_index && ltb read_count buffer_size then rest else (out, r)

-- `ring_read`: the bytes copied out, whose number is what the function returns, and the new ring.
unfoldable pub ring_read : Ring → ℕ → List ℕ × Ring
ring_read r buffer_size = ring_read_loop buffer_size r buffer_size r.write_index []

-- `memchr`: the position of a byte.
unfoldable pub memchr : List ℕ → ℕ → Option ℕ
memchr [] ch = none
memchr (x ∷ xs) ch =
    if x == ch then some 0 else elim (memchr xs ch) [ none ↦ none | some i ↦ some (suc i) ]

-- The loop of `ring_chr`; `none` is its -1.
unfoldable pub ring_chr_loop : ℕ → Ring → ℕ → ℕ → ℕ → Option ℕ
ring_chr_loop zero r ch max_size count = none
ring_chr_loop (suc fuel) r ch max_size count =
    let (offset, room) = ring_at r (u32 (r.read_index + count)) in
    let n = min room (max_size - count) in
    let rest = ring_chr_loop fuel r ch max_size (count + n) in
    if ltb count max_size
    then elim (memchr (load r.buffer offset n) ch) [ some i ↦ some (count + i) | none ↦ rest ]
    else none

-- `memchr` takes its byte as `unsigned char`.
unfoldable pub ring_chr : Ring → ℕ → ℕ → Option ℕ
ring_chr r ch buffer_size =
    let max_size = min buffer_size (sub_u32 r.write_index r.read_index) in
    ring_chr_loop max_size r (ch % 2 ^ 8) max_size 0
