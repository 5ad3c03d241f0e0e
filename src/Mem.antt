-- ===== src/Mem.antt =====
-- The memory devices: morelib/mem.c and the default of morelib/random.c. Memory is a function from 32-bit
-- addresses to bytes; `off_t` is `long`, a 32-bit word that is negative from 2 ^ 31 on. What is read is the
-- list of the bytes; the count is returned as an `int`.
mod Rounds
mod Tests
use morelibc.Base.{
  ℕ, zero, suc, ◌+◌, ◌^◌, Bool, true, false, List, [], ◌∷◌, length, replicate, leb, ◌==◌,
  if◌then◌else◌, u32, Result, ok, err, Errno, einval, enodev, enospc, enosys, espipe, enomem,
}

-- The numbers of `enum` in morelib/dev.h that mem.c knows, and any other device.
pub data Device : Type 0 where
  dev_mem dev_null dev_zero dev_full dev_random dev_urandom other_dev : Device

pub data Whence : Type 0 where
  seek_set seek_cur other_whence : Whence

-- `struct mem_file`
pub record MemFile : Type 0 where
  pub dev : Device
  pub ptr : ℕ

abbrev pub Memory : Type 0
Memory = ℕ → ℕ

-- `memcpy(buffer, addr, n)` and `memcpy(addr, bytes)`.
unfoldable pub read_bytes : Memory → ℕ → ℕ → List ℕ
read_bytes mem addr zero = []
read_bytes mem addr (suc n) = mem addr ∷ read_bytes mem (u32 (addr + 1)) n

unfoldable pub write_bytes : Memory → ℕ → List ℕ → Memory
write_bytes mem addr [] = mem
write_bytes mem addr (x ∷ xs) =
    write_bytes (λ a. if a == addr then x else mem a) (u32 (addr + 1)) xs

-- The default of `getrandom`, which a board may replace.
unfoldable pub getrandom : ℕ → Bool → Result (List ℕ)
getrandom size is_random = err enosys

abbrev pub is_negative : ℕ → Bool
is_negative offset = leb (2 ^ 31) offset

-- What the transfers return as an `int`: a count, a negative number, which leaves `errno` as it is, or -1 with
-- `errno` set.
pub data Count : Type 0 where
  counted : (n : ℕ) → Count
  negative : (pattern : ℕ) → Count
  failed : (e : Errno) → Count

-- A `size_t` as an `int`.
abbrev pub as_int : ℕ → Count
as_int size = if is_negative size then negative size else counted size

-- The result of `getrandom`.
abbrev pub random_count : Result (List ℕ) → Count × List ℕ
random_count (ok bytes) = (as_int (length bytes), bytes)
random_count (err e) = (failed e, [])

abbrev pub seek_to : MemFile → ℕ → Result ℕ × MemFile
seek_to file offset =
    if is_negative offset then (err einval, file) else (ok offset, record file { ptr = offset })

unfoldable pub mem_lseek : MemFile → ℕ → Whence → Result ℕ × MemFile
mem_lseek file offset whence = elim file.dev [
  | dev_mem ↦ elim whence [
    | seek_set ↦ seek_to file offset
    | seek_cur ↦ seek_to file (u32 (offset + file.ptr))
    | other_whence ↦ (err einval, file)
  ]
  | _ ↦ (ok 0, file)
]

unfoldable pub mem_pread : Memory → MemFile → ℕ → ℕ → Count × List ℕ
mem_pread mem file size offset = elim file.dev [
  | dev_mem ↦ (as_int size, read_bytes mem offset size)
  | other_dev ↦ (failed enodev, [])
  | _ ↦ (failed espipe, [])
]

-- `getrandom` is the function of the board.
unfoldable pub mem_read :
    (ℕ → Bool → Result (List ℕ)) → Memory → MemFile → ℕ → (Count × List ℕ) × MemFile
mem_read board_random mem file size = elim file.dev [
  | dev_mem ↦
      ((as_int size, read_bytes mem file.ptr size), record file { ptr = u32 (file.ptr + size) })
  | dev_null ↦ ((counted 0, []), file)
  | dev_zero ↦ ((as_int size, replicate size 0), file)
  | dev_full ↦ ((as_int size, replicate size 0), file)
  | dev_random ↦ (random_count (board_random size true), file)
  | dev_urandom ↦ (random_count (board_random size false), file)
  | other_dev ↦ ((failed enodev, []), file)
]

unfoldable pub mem_pwrite : Memory → MemFile → List ℕ → ℕ → Count × Memory
mem_pwrite mem file buffer offset =
    if is_negative offset then (failed einval, mem) else elim file.dev [
      | dev_mem ↦ (as_int (length buffer), write_bytes mem offset buffer)
      | other_dev ↦ (failed enodev, mem)
      | _ ↦ (failed espipe, mem)
    ]

unfoldable pub mem_write : Memory → MemFile → List ℕ → Count × (Memory × MemFile)
mem_write mem file buffer = elim file.dev [
  | dev_mem ↦ (
    as_int (length buffer),
    (write_bytes mem file.ptr buffer, record file { ptr = u32 (file.ptr + length buffer) }),
  )
  | dev_full ↦ (failed enospc, (mem, file))
  | other_dev ↦ (failed enodev, (mem, file))
  | _ ↦ (as_int (length buffer), (mem, file))
]

-- `mem_open`: `has_room` is whether `calloc` succeeds.
unfoldable pub mem_open : Bool → Device → Result MemFile
mem_open has_room dev =
    let file = if has_room then ok (record { dev = dev; ptr = 0 }) else err enomem in
    elim dev [
      | dev_mem ↦ file
      | dev_null ↦ file
      | dev_zero ↦ file
      | dev_full ↦ file
      | _ ↦ err enodev
    ]
