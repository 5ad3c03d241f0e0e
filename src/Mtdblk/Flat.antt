-- ===== src/Mtdblk/Flat.antt =====
-- A flat file: what the calls on a block device of morelib/mtdblk.c do when cache and blocks are forgotten.
use morelibc.Base.{
  ℕ, ◌+◌, ◌-◌, ◌^◌, ◌≤◌, ◌<◌, min, Option, none, some, List, [], ◌∷◌, length, ltb, leb, ◌==◌, not,
  if◌then◌else◌, u32, Result, ok, err, einval, efbig, erofs, enomem,
}
use morelibc.Mtdblk.{Below, MtdblkFile, flush}
use morelibc.Mtdblk.Device
use morelibc.Mtdblk.Device.{SeekWhence, seek_set, seek_cur, seek_end, other_whence, blkroset}
use morelibc.Mtdblk.Transfer
use morelibc.Mtdblk.View.{bytes_at, overlay}

-- The calls, and what a call returns.
pub data Call : Type 0 where
  read : ℕ → Call
  pread : ℕ → ℕ → Call
  write : List ℕ → Call
  pwrite : List ℕ → ℕ → Call
  lseek : ℕ → SeekWhence → Call
  set_ro : ℕ → Call
  fsync : Call

pub data Outcome : Type 0 where
  bytes : Result (List ℕ) → Outcome
  count : Result ℕ → Outcome

-- An array of bytes with a position.
pub record Flat : Type 0 where
  pub size : ℕ
  pub pos : ℕ
  pub ro : ℕ
  pub data_at : ℕ → ℕ

abbrev pub flat_bytes : Flat → ℕ → ℕ → List ℕ
flat_bytes f size offset = bytes_at f.data_at offset (min size (f.size - offset))

abbrev pub flat_write : Flat → List ℕ → ℕ → Result ℕ × Flat
flat_write f buffer offset =
    if ltb f.size (offset + length buffer)
    then (err efbig, f)
    else if not (f.ro == 0)
    then (err erofs, f)
    else (ok (length buffer), record f { data_at = overlay f.data_at offset buffer })

abbrev pub flat_seek : Flat → ℕ → Result ℕ × Flat
flat_seek f target =
    if leb (2 ^ 31) target
    then (err einval, f)
    else if ltb f.size target
    then (err efbig, f)
    else (ok target, record f { pos = target })

abbrev pub seek_base : Flat → SeekWhence → Option ℕ
seek_base f seek_set = some 0
seek_base f seek_cur = some f.pos
seek_base f seek_end = some f.size
seek_base f other_whence = none

-- An error moves nothing.
abbrev pub moved : ℕ → Result ℕ → ℕ
moved offset (ok n) = offset + n
moved offset (err e) = offset

abbrev pub flat_call : Flat → Call → Outcome × Flat
flat_call f (read size) =
    (bytes (ok (flat_bytes f size f.pos)), record f { pos = f.pos + min size (f.size - f.pos) })
flat_call f (pread size offset) = (bytes (ok (flat_bytes f size offset)), f)
flat_call f (write buffer) =
    let (n, f1) = flat_write f buffer f.pos in (count n, record f1 { pos = moved f.pos n })
flat_call f (pwrite buffer offset) =
    if leb (2 ^ 31) offset
    then (count (err einval), f)
    else (let (n, f1) = flat_write f buffer offset in (count n, f1))
flat_call f (lseek pos whence) = elim (seek_base f whence) [
  | none ↦ (count (err einval), f)
  | some base ↦ let (n, f1) = flat_seek f (u32 (pos + base)) in (count n, f1)
]
flat_call f (set_ro ro) = (count (ok 0), record f { ro = ro })
flat_call f fsync = (count (ok 0), f)

-- Calls that stay within the words: no read from behind the end, no buffer of 2 GB.
abbrev pub FitsCall : ℕ → Call → Type 0
FitsCall size (read n) = Unit
FitsCall size (pread n offset) = offset ≤ size
FitsCall size (write buffer) = length buffer < 2 ^ 31
FitsCall size (pwrite buffer offset) = length buffer < 2 ^ 31
FitsCall size (lseek pos whence) = Unit
FitsCall size (set_ro ro) = Unit
FitsCall size fsync = Unit

abbrev pub IsWrite : Call → Type 0
IsWrite (write buffer) = Unit
IsWrite (pwrite buffer offset) = Unit
IsWrite _ = ⊥

-- A flat file gives these outcomes; a write may also be refused for want of memory.
pub data Follows : List Call → Flat → List Outcome → Flat → Type 0 where
  done : {f : Flat} → Follows [] f [] f
  served :
      {call : Call} {calls : List Call} {outs : List Outcome} {f g : Flat}
      → Follows calls (flat_call f call).1 outs g
      → Follows (call ∷ calls) f ((flat_call f call).0 ∷ outs) g
  refused :
      {call : Call} {calls : List Call} {outs : List Outcome} {f g : Flat}
      → IsWrite call
      → Follows calls f outs g
      → Follows (call ∷ calls) f (count (err enomem) ∷ outs) g

-- The same calls on the driver's file. An `fsync` has the count 0.
module _ {S : Type 0} (below : Below S) (vioctl : S → ℕ → Result ℕ × S) where
  unfoldable pub call_file : ℕ → MtdblkFile → Call → S → Option (Outcome × (MtdblkFile × S))
  call_file fuel file (read size) w = elim (Transfer.read below fuel file size w) [
    | none ↦ none
    | some (got, after) ↦ some (bytes got, after)
  ]
  call_file fuel file (pread size offset) w = elim (Transfer.pread below fuel file size offset w) [
    | none ↦ none
    | some (got, w1) ↦ some (bytes got, (file, w1))
  ]
  call_file fuel file (write buffer) w = elim (Transfer.write below fuel file buffer w) [
    | none ↦ none
    | some (n, after) ↦ some (count n, after)
  ]
  call_file fuel file (pwrite buffer offset) w =
      elim (Transfer.pwrite below fuel file buffer offset w) [
        | none ↦ none
        | some (n, after) ↦ some (count n, after)
      ]
  call_file fuel file (lseek pos whence) w =
      let (n, file1) = Device.lseek file pos whence in some (count n, (file1, w))
  call_file fuel file (set_ro ro) w =
      let (n, after) = Device.ioctl below vioctl file (blkroset ro) w in some (count n, after)
  call_file fuel file fsync w =
      let (flushed, after) = flush below file w in
      elim flushed [ err e ↦ some (count (err e), after) | ok _ ↦ some (count (ok 0), after) ]

  unfoldable pub call_all :
      ℕ → MtdblkFile → List Call → S → Option (List Outcome × (MtdblkFile × S))
  call_all fuel file [] w = some ([], (file, w))
  call_all fuel file (call ∷ calls) w = elim (call_file fuel file call w) [
    | none ↦ none
    | some (out, (file1, w1)) ↦ elim (call_all fuel file1 calls w1) [
      | none ↦ none
      | some (outs, after) ↦ some (out ∷ outs, after)
    ]
  ]
