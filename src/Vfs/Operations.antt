-- ===== src/Vfs/Operations.antt =====
-- Reads, writes and the other operations on open files: morelib/vfs_file.c, and the calls of
-- morelib/unistd.c that pass a descriptor's file on to it. The functions of a driver work on a state `D`,
-- and may be missing.
mod Descriptors
pub mod Tests
use morelibc.Base.{
  ℕ, ◌^◌, Bool, Option, none, some, List, leb, if◌then◌else◌, Result, ok, err, einval, eisdir,
  enosys, espipe, enotty,
}
use morelibc.Vfs.Files.{Files, fread, fwrite, vfs_acquire_file, vfs_release_file}

-- `struct vfs_file_vtable`, the functions that are called here: the size is what `fstat` says of the file.
pub record VfsFileVtable (D : Type 0) : Type 0 where
  pub isatty : Bool
  pub isdir : Bool
  pub fstat : Option (D → Result ℕ × D)
  pub fsync : Option (D → Result ℕ × D)
  pub ftruncate : Option (D → ℕ → Result ℕ × D)
  pub lseek : Option (D → ℕ → ℕ → Result ℕ × D)
  pub pread : Option (D → ℕ → ℕ → Result (List ℕ) × D)
  pub pwrite : Option (D → List ℕ → ℕ → Result ℕ × D)
  pub ioctl : Option (D → ℕ → Result ℕ × D)
  pub read : Option (D → ℕ → Result (List ℕ) × D)
  pub write : Option (D → List ℕ → Result ℕ × D)

abbrev pub seek_cur : ℕ
seek_cur = 1

abbrev pub is_below_zero : ℕ → Bool
is_below_zero offset = leb (2 ^ 31) offset

module _ {D : Type 0} (file : VfsFileVtable D) where
  unfoldable pub vfs_fstat : D → Result ℕ × D
  vfs_fstat d = elim file.fstat [ some f ↦ f d | none ↦ (err enosys, d) ]

  unfoldable pub vfs_fsync : D → Result ℕ × D
  vfs_fsync d = elim file.fsync [ some f ↦ f d | none ↦ (ok 0, d) ]

  unfoldable pub vfs_ftruncate : ℕ → D → Result ℕ × D
  vfs_ftruncate length d =
      if is_below_zero length
      then (err einval, d)
      else elim file.ftruncate [ some f ↦ f d length | none ↦ (err enosys, d) ]

  unfoldable pub vfs_lseek : ℕ → ℕ → D → Result ℕ × D
  vfs_lseek offset whence d = elim file.lseek [
    | some f ↦ f d offset whence
    | none ↦ (err (if file.isdir then eisdir else espipe), d)
  ]

  unfoldable pub vfs_pread : ℕ → ℕ → D → Result (List ℕ) × D
  vfs_pread size offset d =
      let (pos, d1) = vfs_lseek 0 seek_cur d in
      elim pos [
        | err e ↦ (err e, d1)
        | ok _ ↦ if is_below_zero offset then (err einval, d1) else elim file.pread [
          | some f ↦ f d1 size offset
          | none ↦ (err (if file.isdir then eisdir else enosys), d1)
        ]
      ]

  unfoldable pub vfs_pwrite : List ℕ → ℕ → D → Result ℕ × D
  vfs_pwrite buffer offset d =
      let (pos, d1) = vfs_lseek 0 seek_cur d in
      elim pos [
        | err e ↦ (err e, d1)
        | ok _ ↦ if is_below_zero offset then (err einval, d1) else elim file.pwrite [
          | some f ↦ f d1 buffer offset
          | none ↦ (err (if file.isdir then eisdir else enosys), d1)
        ]
      ]

  unfoldable pub vfs_read : ℕ → D → Result (List ℕ) × D
  vfs_read size d = elim file.read [
    | some f ↦ f d size
    | none ↦ (err (if file.isdir then eisdir else enosys), d)
  ]

  -- The arguments that follow the request are part of it.
  unfoldable pub vfs_vioctl : ℕ → D → Result ℕ × D
  vfs_vioctl request d = elim file.ioctl [ some f ↦ f d request | none ↦ (err enotty, d) ]

  unfoldable pub vfs_write : List ℕ → D → Result ℕ × D
  vfs_write buffer d = elim file.write [
    | some f ↦ f d buffer
    | none ↦ (err (if file.isdir then eisdir else enosys), d)
  ]

-- The frame of the calls on a descriptor: its file is acquired, used and released.
unfoldable pub with_file {ℓ} :
    {A : Type ℓ} {D : Type 0} → ℕ → ℕ → (ℕ → D → Result A × D) → Files × D → Result A × (Files × D)
with_file fd flags op (s, d) =
    let (file, s1) = vfs_acquire_file fd flags s in
    elim file [
      | err e ↦ (err e, (s1, d))
      | ok f ↦ let (ret, d1) = op f d in (ret, (vfs_release_file f s1, d1))
    ]

-- The drivers of all files.
module _ {D : Type 0} (driver : ℕ → VfsFileVtable D) where
  unfoldable pub fstat : ℕ → Files × D → Result ℕ × (Files × D)
  fstat fd w = with_file fd 0 (λ f. vfs_fstat (driver f)) w

  unfoldable pub fsync : ℕ → Files × D → Result ℕ × (Files × D)
  fsync fd w = with_file fd 0 (λ f. vfs_fsync (driver f)) w

  unfoldable pub ftruncate : ℕ → ℕ → Files × D → Result ℕ × (Files × D)
  ftruncate fd length w = with_file fd fwrite (λ f. vfs_ftruncate (driver f) length) w

  unfoldable pub isatty : ℕ → Files × D → Result Bool × (Files × D)
  isatty fd w = with_file fd 0 (λ f d. (ok (driver f).isatty, d)) w

  unfoldable pub lseek : ℕ → ℕ → ℕ → Files × D → Result ℕ × (Files × D)
  lseek fd offset whence w = with_file fd 0 (λ f. vfs_lseek (driver f) offset whence) w

  unfoldable pub pread : ℕ → ℕ → ℕ → Files × D → Result (List ℕ) × (Files × D)
  pread fd size offset w = with_file fd fread (λ f. vfs_pread (driver f) size offset) w

  unfoldable pub pwrite : ℕ → List ℕ → ℕ → Files × D → Result ℕ × (Files × D)
  pwrite fd buffer offset w = with_file fd fwrite (λ f. vfs_pwrite (driver f) buffer offset) w

  unfoldable pub read : ℕ → ℕ → Files × D → Result (List ℕ) × (Files × D)
  read fd size w = with_file fd fread (λ f. vfs_read (driver f) size) w

  unfoldable pub write : ℕ → List ℕ → Files × D → Result ℕ × (Files × D)
  write fd buffer w = with_file fd fwrite (λ f. vfs_write (driver f) buffer) w
