-- ===== src/Loop.antt =====
-- Loop devices: morelib/loop.c and morelib/include/morelib/loop.h. A loop device passes its calls on to a
-- file that LOOP_SET_FD attaches. Before that, its pointer to the file is NULL, and a call that goes
-- through it is `none` here.
pub mod Counts
mod Tests
use morelibc.Base.{
  ℕ, ◌/◌, ◌^◌, Option, none, some, List, [], ◌∷◌, leb, ◌==◌, if◌then◌else◌, get_or, set, u32,
  Result, ok, err, erofs, enodev, enomem, enotsup,
}
use morelibc.Dev.{minor}
use morelibc.Vfs.Files.{Files, vfs_file_init, vfs_copy_file, vfs_acquire_file, release_if}
use morelibc.Vfs.Operations.{
  VfsFileVtable, is_below_zero, vfs_fstat, vfs_fsync, vfs_lseek, vfs_pread, vfs_pwrite, vfs_read,
  vfs_vioctl, vfs_write,
}

abbrev pub loop_num_devices : ℕ
loop_num_devices = 4

-- `struct loop_file`: `base` is the number of the device's own file.
pub record LoopFile : Type 0 where
  pub base : ℕ
  pub index : ℕ
  pub file : Option ℕ
  pub ro : ℕ

-- The requests of `loop_ioctl`.
pub data LoopRequest : Type 0 where
  loop_set_fd : (fd : ℕ) → LoopRequest
  loop_clr_fd : LoopRequest
  blkroset : (ro : ℕ) → LoopRequest
  blkroget blkgetsize blkflsbuf blksszget blkdiscard memgetinfo memerase : LoopRequest
  memwriteoob memreadoob memlock memunlock : LoopRequest
  other : (request : ℕ) → LoopRequest

-- `struct mtd_info`
pub record MtdInfo : Type 0 where
  pub mtd_type : ℕ
  pub flags : ℕ
  pub size : ℕ
  pub erasesize : ℕ
  pub writesize : ℕ
  pub oobsize : ℕ

-- MTD_ABSENT with MTD_CAP_RAM of morelib/mtd.h, in blocks of 512 bytes.
abbrev pub info_of_size : ℕ → MtdInfo
info_of_size size = record {
  mtd_type = 0;
  flags = 0x1c00;
  size = size;
  erasesize = 512;
  writesize = 512;
  oobsize = 0;
}

-- What a request that does not fail gives back: a number, or 0 and what it puts behind its pointer.
pub data Reply : Type 0 where
  returns : (ret : ℕ) → Reply
  gives : (value : ℕ) → Reply
  informs : (info : MtdInfo) → Reply

-- The size is an `int`: from 2^31 on it is negative, and is returned as it is.
unfoldable pub size_reply : (ℕ → Reply) → Result ℕ → Result Reply
size_reply value (err e) = err e
size_reply value (ok size) = ok (if is_below_zero size then returns size else value size)

unfoldable pub ioctl_reply : Result ℕ → Result Reply
ioctl_reply (err e) = err e
ioctl_reply (ok ret) = ok (returns ret)

unfoldable pub size_of_stat : Result ℕ → Result ℕ
size_of_stat (err e) = err e
size_of_stat (ok size) = ok (u32 size)

-- A call on `file->file`.
unfoldable pub on_target :
    {A D : Type 0} → LoopFile → (ℕ → D → Result A × D) → D → Option (Result A × D)
on_target l op d = elim l.file [ none ↦ none | some f ↦ some (op f d) ]

unfoldable pub attach : LoopFile → Result ℕ → Files → Result Reply × (LoopFile × Files)
attach l (err e) s = (err e, (l, s))
attach l (ok f) s = (ok (returns 0), (record l { file = some f }, release_if l.file s))

-- LOOP_SET_FD: the new file is acquired before the old one is released.
unfoldable pub set_fd : ℕ → LoopFile → Files → Result Reply × (LoopFile × Files)
set_fd fd l s = let (target, s1) = vfs_acquire_file fd 3 s in attach l target s1

-- The result of a request that goes to the attached file.
unfoldable pub with_reply :
    {D : Type 0}
    → (Result ℕ → Result Reply)
    → LoopFile
    → Files
    → Option (Result ℕ × D)
    → Option (Result Reply × (LoopFile × (Files × D)))
with_reply reply l s none = none
with_reply reply l s (some (ret, d)) = some (reply ret, (l, (s, d)))

-- The drivers of the files that may be attached.
module _ {D : Type 0} (driver : ℕ → VfsFileVtable D) where
  unfoldable pub loop_fsync : LoopFile → D → Option (Result ℕ × D)
  loop_fsync l d = on_target l (λ f. vfs_fsync (driver f)) d

  unfoldable pub loop_size : LoopFile → D → Option (Result ℕ × D)
  loop_size l d = elim (on_target l (λ f. vfs_fstat (driver f)) d) [
    | none ↦ none
    | some (ret, d1) ↦ some (size_of_stat ret, d1)
  ]

  unfoldable pub loop_lseek : ℕ → ℕ → LoopFile → D → Option (Result ℕ × D)
  loop_lseek pos whence l d = on_target l (λ f. vfs_lseek (driver f) pos whence) d

  unfoldable pub loop_pread : ℕ → ℕ → LoopFile → D → Option (Result (List ℕ) × D)
  loop_pread size offset l d = on_target l (λ f. vfs_pread (driver f) size offset) d

  unfoldable pub loop_read : ℕ → LoopFile → D → Option (Result (List ℕ) × D)
  loop_read size l d = on_target l (λ f. vfs_read (driver f) size) d

  unfoldable pub loop_pwrite : List ℕ → ℕ → LoopFile → D → Option (Result ℕ × D)
  loop_pwrite buffer offset l d =
      if l.ro == 0
      then on_target l (λ f. vfs_pwrite (driver f) buffer offset) d
      else some (err erofs, d)

  unfoldable pub loop_write : List ℕ → LoopFile → D → Option (Result ℕ × D)
  loop_write buffer l d =
      if l.ro == 0 then on_target l (λ f. vfs_write (driver f) buffer) d else some (err erofs, d)

  unfoldable pub loop_ioctl :
      LoopRequest → LoopFile → Files × D → Option (Result Reply × (LoopFile × (Files × D)))
  loop_ioctl (loop_set_fd fd) l (s, d) =
      let (ret, (l1, s1)) = set_fd fd l s in some (ret, (l1, (s1, d)))
  loop_ioctl loop_clr_fd l (s, d) =
      some (ok (returns 0), (record l { file = none }, (release_if l.file s, d)))
  loop_ioctl (blkroset ro) l w = some (ok (returns 0), (record l { ro = ro }, w))
  loop_ioctl blkroget l w = some (ok (gives l.ro), (l, w))
  loop_ioctl blkgetsize l (s, d) =
      with_reply (size_reply (λ size. gives (size / 2 ^ 9))) l s (loop_size l d)
  loop_ioctl blkflsbuf l w = some (ok (returns 0), (l, w))
  loop_ioctl blksszget l w = some (ok (gives 512), (l, w))
  loop_ioctl blkdiscard l w = some (ok (returns 0), (l, w))
  loop_ioctl memgetinfo l (s, d) =
      with_reply (size_reply (λ size. informs (info_of_size size))) l s (loop_size l d)
  loop_ioctl memerase l w = some (ok (returns 0), (l, w))
  loop_ioctl memwriteoob l w = some (err enotsup, (l, w))
  loop_ioctl memreadoob l w = some (err enotsup, (l, w))
  loop_ioctl memlock l w = some (err enotsup, (l, w))
  loop_ioctl memunlock l w = some (err enotsup, (l, w))
  loop_ioctl (other request) l (s, d) =
      with_reply ioctl_reply l s (on_target l (λ f. vfs_vioctl (driver f) request) d)

-- `loop_open` over `loop_files`; `calloc` is what calloc gives for a new file.
unfoldable pub loop_open :
    Option ℕ → ℕ → List (Option LoopFile) × Files → Result ℕ × (List (Option LoopFile) × Files)
loop_open calloc dev (loop_files, s) =
    let index = minor dev in
    if leb loop_num_devices index
    then (err enodev, (loop_files, s))
    else elim (get_or loop_files index none) [
      | some l ↦ (ok l.base, (loop_files, vfs_copy_file l.base s))
      | none ↦ elim calloc [
        | none ↦ (err enomem, (loop_files, s))
        | some base ↦
            let l : LoopFile = record { base = base; index = index; file = none; ro = 0 } in
            (ok base, (set loop_files index (some l), vfs_file_init base 2 s))
      ]
    ]

-- `loop_close`: the slot is emptied and the attached file released.
unfoldable pub loop_close :
    LoopFile → List (Option LoopFile) × Files → Result ℕ × (List (Option LoopFile) × Files)
loop_close l (loop_files, s) = (ok 0, (set loop_files l.index none, release_if l.file s))
