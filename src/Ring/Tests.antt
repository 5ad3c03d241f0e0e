-- ===== src/Ring/Tests.antt =====
-- Runs of morelib/ring.c at small rings, and the theorems about it at concrete inputs.
use morelibc.Base.{store, load, ◌+◌, ◌-◌, ◌^◌, ◌≡◌, refl, some, [], ◌∷◌, ◌++◌, length, arith}
use morelibc.Ring.{
  Ring, ring_alloc, ring_at, ring_write_count, ring_write_loop, ring_write, ring_read_loop,
  ring_read, memchr, ring_chr,
}
use morelibc.Ring.Contents.{contents}
use morelibc.Ring.Invariant.{IsValid}
use morelibc.Ring.Write.{ring_write_lem}
use morelibc.Ring.Read.{ring_read_lem}
use morelibc.Ring.Chr.{ring_chr_lem}
use morelibc.Ring.Stall.{ring_write_stalled, write, read, accepted, stalled_forever}

-- Four bytes; 7 and 8 stand round the end of the buffer.
abbrev wrapped : Ring
wrapped = record { buffer = 8 ∷ 0 ∷ 0 ∷ 7 ∷ []; size = 4; read_index = 3; write_index = 5 }

-- The same after 2 ^ 32 - 3 bytes.
abbrev worn : Ring
worn = record {
  buffer = 0 ∷ 0 ∷ 0 ∷ 0 ∷ [];
  size = 4;
  read_index = 2 ^ 32 - 3;
  write_index = 2 ^ 32 - 3;
}

alloc_zeroed :
    ring_alloc (λ n. 0 ∷ 0 ∷ []) 1
    ≡ record { buffer = 0 ∷ 0 ∷ []; size = 2; read_index = 0; write_index = 0 }
unfolding ring_alloc
alloc_zeroed = refl

write_wrapped :
    ring_write wrapped (1 ∷ 2 ∷ 3 ∷ [])
    ≡ (2, record { buffer = 8 ∷ 1 ∷ 2 ∷ 7 ∷ []; size = 4; read_index = 3; write_index = 7 })
unfolding ring_write ring_write_loop ring_at store
write_wrapped = refl

read_wrapped : (ring_read wrapped 9).0 ≡ 7 ∷ 8 ∷ []
unfolding ring_read ring_read_loop ring_at load
read_wrapped = refl

wrapped-IsValid : IsValid 2 wrapped
wrapped-IsValid = omega arith

worn-IsValid : IsValid 2 worn
worn-IsValid = omega arith

ring_write_lem_example :
    ((ring_write wrapped (1 ∷ 2 ∷ 3 ∷ [])).0 ≡ 2)
    × (contents (ring_write wrapped (1 ∷ 2 ∷ 3 ∷ [])).1 ≡ 7 ∷ 8 ∷ 1 ∷ 2 ∷ [])
    × IsValid 2 (ring_write wrapped (1 ∷ 2 ∷ 3 ∷ [])).1
    × ((ring_write wrapped (1 ∷ 2 ∷ 3 ∷ [])).1.read_index ≡ 3)
    × ((ring_write wrapped (1 ∷ 2 ∷ 3 ∷ [])).1.size ≡ 4)
unfolding ring_write ring_write_loop ring_at store
ring_write_lem_example = ring_write_lem (1 ∷ 2 ∷ 3 ∷ []) wrapped-IsValid (omega arith)

ring_read_lem_example :
    (length (ring_read wrapped 1).0 ≡ 1)
    × (7 ∷ 8 ∷ [] ≡ (ring_read wrapped 1).0 ++ contents (ring_read wrapped 1).1)
    × IsValid 2 (ring_read wrapped 1).1
    × ((ring_read wrapped 1).1 ≡ record wrapped { read_index = 3 + length (ring_read wrapped 1).0 })
ring_read_lem_example = ring_read_lem 1 wrapped-IsValid

ring_chr_lem_example : ring_chr wrapped 264 9 ≡ some 1
unfolding memchr
ring_chr_lem_example = ring_chr_lem 264 9 wrapped-IsValid

ring_write_stalled_example :
    (ring_write worn (1 ∷ 2 ∷ []) ≡ (0, worn)) × (ring_write_count worn ≡ 4)
ring_write_stalled_example = ring_write_stalled (1 ∷ 2 ∷ []) worn-IsValid (omega arith)

stalled_forever_example : accepted worn (write (1 ∷ []) ∷ read 4 ∷ write (2 ∷ []) ∷ []) ≡ 0
stalled_forever_example =
    stalled_forever (write (1 ∷ []) ∷ read 4 ∷ write (2 ∷ []) ∷ []) worn-IsValid (omega arith)
