-- ===== src/Vfs/Files.antt =====
-- The file descriptors of morelib/vfs.c, with `dup` and `dup2` of morelib/unistd.c. A file is known by
-- a number, its address; reference counts and flags of all files are functions. An `int` is its 32-bit
-- pattern: a negative descriptor is one of `2 ^ 31` at least.
pub mod Slots
pub mod References
mod Balance
pub mod Access
pub mod History
mod Tests
use morelibc.Base.{
  ℕ, zero, suc, ◌+◌, ◌-◌, ◌%◌, ◌^◌, Bool, true, false, ◌&&◌, Option, none, some, List, [], ◌∷◌,
  length, drop, get_or, set, replicate, ltb, ◌==◌, if◌then◌else◌, bit_and, bit_or, u32, not_u32,
  Result, ok, err, Errno, ebadf, enfile,
}
use morelibc.Vfs.Mounts.{update}

abbrev pub vfs_fd_max : ℕ
vfs_fd_max = 64

-- The access modes of <fcntl.h>.
abbrev pub o_accmode : ℕ
o_accmode = 3

abbrev pub fread : ℕ
fread = 1

abbrev pub fwrite : ℕ
fwrite = 2

-- `vfs_fd_table`, `vfs_tty`, and the files that were closed (or freed), the last first.
pub record Files : Type 0 where
  pub fds : List (Option ℕ)
  pub tty : Option ℕ
  pub refs : ℕ → ℕ
  pub flags : ℕ → ℕ
  pub closed : List ℕ

abbrev pub initial : Files
initial = record {
  fds = replicate vfs_fd_max none;
  tty = none;
  refs = λ f. 0;
  flags = λ f. 0;
  closed = [];
}

-- `vfs_file_init`
unfoldable pub vfs_file_init : ℕ → ℕ → Files → Files
vfs_file_init file flags s = record s {
  refs = update s.refs file 1;
  flags = update s.flags file flags;
}

unfoldable pub retain : ℕ → Files → Files
retain file s = record s { refs = update s.refs file (s.refs file + 1) }

-- `vfs_copy_file`
unfoldable pub vfs_copy_file : ℕ → Files → Files
vfs_copy_file file s = retain file s

-- `vfs_release_file`: the file is closed when its count reaches 0.
unfoldable pub vfs_release_file : ℕ → Files → Files
vfs_release_file file s =
    let ref_count = s.refs file in
    record s {
      refs = update s.refs file (ref_count - 1);
      closed = if ref_count == 1 then file ∷ s.closed else s.closed;
    }

unfoldable pub release_if : Option ℕ → Files → Files
release_if none s = s
release_if (some file) s = vfs_release_file file s

unfoldable pub retain_if : Option ℕ → Files → Files
retain_if none s = s
retain_if (some file) s = retain file s

-- The access mode of the flags turned into FREAD and FWRITE bits.
unfoldable pub fd_flags : ℕ → ℕ
fd_flags flags = bit_or (bit_and flags (not_u32 o_accmode)) (bit_and (u32 (flags + 1)) o_accmode)

-- `vfs_acquire_file`. (In the code the flags are read before the test for NULL.)
unfoldable pub vfs_acquire_file : ℕ → ℕ → Files → Result ℕ × Files
vfs_acquire_file fd flags s =
    if ltb fd vfs_fd_max
    then (elim (get_or s.fds fd none) [
      | none ↦ (err ebadf, s)
      | some file ↦
          if bit_and (fd_flags (s.flags file)) flags == flags
          then (ok file, retain file s)
          else (err ebadf, s)
    ])
    else (err ebadf, s)

-- The place of the first empty slot.
unfoldable pub first_empty : List (Option ℕ) → Option ℕ
first_empty [] = none
first_empty (none ∷ fds) = some 0
first_empty (some file ∷ fds) = elim (first_empty fds) [ none ↦ none | some i ↦ some (suc i) ]

-- `vfs_fd_next`: the first three descriptors are not given out.
unfoldable pub vfs_fd_next : List (Option ℕ) → Result ℕ
vfs_fd_next fds = elim (first_empty (drop 3 fds)) [ none ↦ err enfile | some i ↦ ok (i + 3) ]

unfoldable pub close : ℕ → Files → Result (Unit {0}) × Files
close fd s =
    if ltb fd vfs_fd_max
    then (elim (get_or s.fds fd none) [
      | none ↦ (err ebadf, s)
      | some file ↦ (ok tt, vfs_release_file file (record s { fds = set s.fds fd none }))
    ])
    else (err ebadf, s)

-- The part of `vfs_replace` after a descriptor is chosen.
unfoldable pub replace_at : ℕ → ℕ → Files → Files
replace_at fd file s =
    let s' = retain file s in
    release_if (get_or s.fds fd none) (record s' { fds = set s.fds fd (some file) })

-- `vfs_replace`: a negative descriptor asks for the next free one.
unfoldable pub vfs_replace : ℕ → ℕ → Files → Result ℕ × Files
vfs_replace fd file s =
    if ltb fd (2 ^ 31)
    then (if ltb fd vfs_fd_max then (ok fd, replace_at fd file s) else (err ebadf, s))
    else elim (vfs_fd_next s.fds) [ err e ↦ (err e, s) | ok fd' ↦ (ok fd', replace_at fd' file s) ]

unfoldable pub vfs_gettty : Files → Option ℕ × Files
vfs_gettty s = (s.tty, retain_if s.tty s)

unfoldable pub vfs_settty : Option ℕ → Files → Files
vfs_settty file s = let s' = retain_if file s in release_if s.tty (record s' { tty = file })

-- The tail of `dup` and `dup2`, with the file held.
unfoldable pub replace_release : ℕ → ℕ → Files → Result ℕ × Files
replace_release fd file s = let (ret, s') = vfs_replace fd file s in (ret, vfs_release_file file s')

unfoldable pub dup : ℕ → Files → Result ℕ × Files
dup oldfd s =
    let (file, s') = vfs_acquire_file oldfd 0 s in
    elim file [ err e ↦ (err e, s') | ok f ↦ replace_release (2 ^ 32 - 1) f s' ]

unfoldable pub dup2 : ℕ → ℕ → Files → Result ℕ × Files
dup2 oldfd newfd s =
    if ltb newfd vfs_fd_max
    then (let (file, s') = vfs_acquire_file oldfd 0 s in
        elim file [ err e ↦ (err e, s') | ok f ↦ replace_release newfd f s' ])
    else (err ebadf, s)
