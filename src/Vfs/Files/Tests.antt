-- ===== src/Vfs/Files/Tests.antt =====
-- A run of the file operations of morelib/vfs.c: a file is opened read-only, installed and released, its
-- descriptor is duplicated and both are closed.
use morelibc.Base.{
  ◌+◌, ◌-◌, ◌%◌, ◌^◌, ◌≡◌, refl, none, some, [], ◌∷◌, get_or, ltb, ◌==◌, if◌then◌else◌, ok, err,
  ebadf, arith,
}
use morelibc.Vfs.Files.{
  Files, initial, vfs_fd_max, fread, fwrite, vfs_file_init, retain, vfs_release_file, release_if,
  fd_flags, vfs_acquire_file, first_empty, vfs_fd_next, close, replace_at, vfs_replace,
  replace_release, dup,
}
use morelibc.Vfs.Files.Slots.{holds, count_slots}
use morelibc.Vfs.Files.References.{IsBalanced, one_more}
use morelibc.Vfs.Files.Access.{permits, vfs_acquire_file_lem}
use morelibc.Vfs.Files.History.{Reach, start, init, replace, release_closes_last, Reach-IsBalanced}

abbrev created : Files
created = vfs_file_init 7 0 initial

abbrev installed : Files
installed = (vfs_replace (2 ^ 32 - 1) 7 created).1

abbrev opened : Files
opened = vfs_release_file 7 installed

installed-Reach : Reach installed (one_more (λ f. 0) 7)
installed-Reach = replace (2 ^ 32 - 1) 7 (init 7 0 refl start)

-- Descriptor 3 is given out, and reads only.
first_descriptor : (vfs_replace (2 ^ 32 - 1) 7 created).0 ≡ ok 3
unfolding vfs_replace vfs_fd_next first_empty vfs_file_init
first_descriptor = refl

-- The duplicate is descriptor 4, and closing both closes the file.
duplicated_then_closed : (close 4 (close 3 (dup 3 opened).1).1).1.closed ≡ 7 ∷ []
unfolding vfs_replace vfs_fd_next first_empty vfs_file_init replace_at release_if retain
    vfs_release_file close dup vfs_acquire_file fd_flags replace_release
duplicated_then_closed = refl

read_permitted : (vfs_acquire_file 3 fread opened).0 ≡ ok 7
unfolding vfs_replace vfs_fd_next first_empty vfs_file_init replace_at release_if retain
    vfs_release_file vfs_acquire_file fd_flags
read_permitted = refl

write_refused : (vfs_acquire_file 3 fwrite opened).0 ≡ err ebadf
unfolding vfs_replace vfs_fd_next first_empty vfs_file_init replace_at release_if retain
    vfs_release_file vfs_acquire_file fd_flags
write_refused = refl

vfs_acquire_file_lem_example : vfs_acquire_file 3 fwrite opened ≡ (
    if ltb 3 vfs_fd_max
    then (elim (get_or opened.fds 3 none) [
      | none ↦ (err ebadf, opened)
      | some file ↦
          if permits (opened.flags file % 4) fwrite
          then (ok file, retain file opened)
          else (err ebadf, opened)
    ])
    else (err ebadf, opened))
vfs_acquire_file_lem_example = vfs_acquire_file_lem 3 fwrite opened (omega arith)

Reach-IsBalanced_example : IsBalanced installed (one_more (λ f. 0) 7)
Reach-IsBalanced_example = Reach-IsBalanced installed-Reach

release_closes_last_example : (vfs_release_file 7 installed).closed ≡ (
    if count_slots 7 installed.fds + holds 7 installed.tty + one_more (λ f. 0) 7 7 == 1
    then 7 ∷ installed.closed
    else installed.closed)
release_closes_last_example = release_closes_last installed-Reach 7 (omega arith)
