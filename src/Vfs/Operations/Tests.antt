-- ===== src/Vfs/Operations/Tests.antt =====
-- Calls of morelib/unistd.c on a descriptor that is open for reading and writing: its file is a list of
-- bytes, which a write replaces.
use morelibc.Base.{
  Result, ℕ, ◌-◌, ◌^◌, ◌≡◌, refl, false, none, some, List, [], ◌∷◌, ok, err, ebadf, espipe, take,
  length,
}
use morelibc.Vfs.Files.{
  Files, initial, vfs_file_init, vfs_replace, vfs_acquire_file, vfs_release_file, fd_flags, retain,
  vfs_fd_next, first_empty, replace_at, release_if,
}
use morelibc.Vfs.Files.History.{start, init, replace, Reach-IsBalanced}
use morelibc.Vfs.Files.References.{IsBalanced, one_more}
use morelibc.Vfs.Operations.{
  pwrite, ftruncate, lseek, fsync, fstat, isatty, VfsFileVtable, with_file, vfs_read, vfs_write,
  vfs_pread, vfs_lseek, read, write, pread,
}
use morelibc.Vfs.Operations.Descriptors.{permitted}

abbrev pub plain : VfsFileVtable (List ℕ)
plain = record {
  isatty = false;
  isdir = false;
  fstat = some (λ bytes. (ok (length bytes), bytes));
  fsync = none;
  ftruncate = none;
  lseek = none;
  pread = none;
  pwrite = none;
  ioctl = none;
  read = some (λ bytes size. (ok (take size bytes), bytes));
  write = some (λ bytes buffer. (ok (length buffer), buffer));
}

abbrev pub opened : Files
opened = (vfs_replace (2 ^ 32 - 1) 7 (vfs_file_init 7 2 initial)).1

-- The opener holds its reference still.
pub opened-IsBalanced : IsBalanced opened (one_more (λ f. 0) 7)
opened-IsBalanced = Reach-IsBalanced (replace (2 ^ 32 - 1) 7 (init 7 2 refl start))

-- What was written is read; a file that cannot seek cannot be read at an offset; descriptor 4 is closed.
written_then_read :
    (read (λ f. plain) 3 2 (write (λ f. plain) 3 (1 ∷ 2 ∷ 3 ∷ []) (opened, [])).1).0
    ≡ ok (1 ∷ 2 ∷ [])
unfolding read write with_file vfs_read vfs_write vfs_acquire_file vfs_release_file fd_flags retain
    vfs_replace vfs_fd_next first_empty vfs_file_init replace_at release_if
written_then_read = refl

no_offset : (pread (λ f. plain) 3 2 0 (opened, [])).0 ≡ err espipe
unfolding pread with_file vfs_pread vfs_lseek vfs_acquire_file vfs_release_file fd_flags retain
    vfs_replace vfs_fd_next first_empty vfs_file_init replace_at release_if
no_offset = refl

not_open : (read (λ f. plain) 4 2 (opened, [])).0 ≡ err ebadf
unfolding read with_file vfs_acquire_file vfs_replace vfs_fd_next first_empty vfs_file_init
    replace_at release_if retain
not_open = refl

abbrev held_bytes : List ℕ
held_bytes = 5 ∷ 6 ∷ []

abbrev answer : {A : Type 0} → ℕ → (List ℕ → Result A × List ℕ) → Result A × (Files × List ℕ)
answer request op = permitted opened held_bytes 3 request (λ f. op)
