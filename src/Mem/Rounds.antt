-- ===== src/Mem/Rounds.antt =====
-- Writes and reads through morelib/mem.c.
use morelibc.Base.{
  ℕ, suc, ◌+◌, ◌^◌, ◌≤◌, ◌<◌, ◌≡◌, refl, ap, ap₂, ◌∙◌, Bool, false, List, [], ◌∷◌, ◌++◌, arith,
  length, length-append, leb, ◌==◌, if◌then◌else◌, u32, u32_mod, Result, ok,
}
use morelibc.Mem.{
  counted, Device, dev_mem, seek_set, MemFile, Memory, read_bytes, write_bytes, mem_lseek,
  mem_pread, mem_read, mem_write, seek_to,
}

-- No byte in front of a block is written, unless the block wraps.
write_bytes-before :
    (mem : Memory) (addr : ℕ) (xs : List ℕ) (a : ℕ)
    → addr + length xs ≤ u32_mod
    → a < addr
    → write_bytes mem addr xs a ≡ mem a
unfolding write_bytes
write_bytes-before mem addr [] a h lt = refl
write_bytes-before mem addr (x ∷ []) a h lt = ground arith
write_bytes-before mem addr (x ∷ y ∷ ys) a h lt =
    write_bytes-before (λ b. if b == addr then x else mem b) (u32 (addr + 1)) (y ∷ ys) a
      (omega arith) (omega arith)
    ∙ ground arith

read-write :
    (mem : Memory) (addr : ℕ) (xs : List ℕ)
    → addr + length xs ≤ u32_mod
    → read_bytes (write_bytes mem addr xs) addr (length xs) ≡ xs
unfolding read_bytes write_bytes
read-write mem addr [] h = refl
read-write mem addr (x ∷ []) h = ap (λ c. c ∷ []) (ground arith)
read-write mem addr (x ∷ y ∷ ys) h =
    let next = addr + 1 in
    let here = λ (a : ℕ). if a == addr then x else mem a in
    ap
      (λ a.
        write_bytes here a (y ∷ ys) addr
        ∷ read_bytes (write_bytes here a (y ∷ ys)) a (length (y ∷ ys)))
      (omega arith)
    ∙ ap₂ (λ c cs. c ∷ cs)
        (write_bytes-before here next (y ∷ ys) addr (omega arith) (omega arith) ∙ ground arith)
        (read-write here next (y ∷ ys) (omega arith))

write-append :
    (mem : Memory) (addr : ℕ) (xs ys : List ℕ)
    → addr < u32_mod
    → write_bytes mem addr (xs ++ ys)
      ≡ write_bytes (write_bytes mem addr xs) (u32 (addr + length xs)) ys
unfolding write_bytes
write-append mem addr [] ys h = ap (λ a. write_bytes mem a ys) (omega arith)
write-append mem addr (x ∷ xs) ys h =
    let here = λ (b : ℕ). if b == addr then x else mem b in
    let next : u32 (u32 (addr + 1) + length xs) ≡ u32 (addr + suc (length xs)) = omega arith in
    write-append here (u32 (addr + 1)) xs ys (omega arith)
    ∙ ap (λ a. write_bytes (write_bytes here (u32 (addr + 1)) xs) a ys) next

-- The device whose file reads and writes the memory.
abbrev pub mem_at : ℕ → MemFile
mem_at ptr = record { dev = dev_mem; ptr = ptr }

-- A block of less than 2 GB that `write` puts at the offset of a descriptor of /dev/mem, below 2 ^ 31, is what
-- `pread` finds there, and what `read` finds after a seek back to it, unless the block reaches the end of the
-- memory; each returns its length, and the offset is behind it then.
pub mem_write-mem_pread :
    (mem : Memory) (ptr : ℕ) (buffer : List ℕ) (board_random : ℕ → Bool → Result (List ℕ))
    → ptr < 2 ^ 31
    → length buffer < 2 ^ 31
    → ptr + length buffer < u32_mod
    → let (count, (mem', file')) = mem_write mem (mem_at ptr) buffer in
      (count ≡ counted (length buffer))
      × (mem_pread mem' file' (length buffer) ptr ≡ (counted (length buffer), buffer))
      × (mem_lseek file' ptr seek_set ≡ (ok ptr, mem_at ptr))
      × (mem_read board_random mem' (mem_lseek file' ptr seek_set).1 (length buffer)
          ≡ ((counted (length buffer), buffer), file'))
      × (file'.ptr ≡ ptr + length buffer)
unfolding mem_write mem_pread mem_read mem_lseek
mem_write-mem_pread mem ptr buffer board_random low short fits =
    let round = read-write mem ptr buffer (omega arith) in
    let low' : leb (2 ^ 31) ptr ≡ false = ground arith in
    let short' : leb (2 ^ 31) (length buffer) ≡ false = ground arith in
    (
      rw short' refl,
      rw short' (ap (λ l. (counted (length buffer), l)) round),
      rw (low', seek_to) refl,
      rw (low', seek_to, short')
          (ap (λ l. ((counted (length buffer), l), mem_at (u32 (ptr + length buffer)))) round),
      omega arith,
    )

-- Two writes one after the other are one write of both blocks.
mem_write-append :
    (mem : Memory) (dev : Device) (ptr : ℕ) (xs ys : List ℕ)
    → ptr < u32_mod
    → let file : MemFile = record { dev = dev; ptr = ptr } in
      (mem_write mem file (xs ++ ys)).1
      ≡ (let (count, (mem', file')) = mem_write mem file xs in (mem_write mem' file' ys).1)
unfolding mem_write
mem_write-append mem dev_mem ptr xs ys h =
    ap₂ (λ m p. (m, mem_at p)) (write-append mem ptr xs ys h) (omega (arith, length-append xs ys))
mem_write-append mem _ ptr xs ys h = refl
