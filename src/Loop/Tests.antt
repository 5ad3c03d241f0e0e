-- ===== src/Loop/Tests.antt =====
-- A loop device of morelib/loop.c over a file of bytes.
use morelibc.Base.{ℕ, ◌≡◌, refl, none, some, List, [], ◌∷◌, replicate, ok, err, erofs}
use morelibc.Loop.{
  LoopFile, loop_set_fd, blkroset, blkgetsize, loop_read, loop_write, loop_close, on_target,
}
use morelibc.Loop.Counts
use morelibc.Loop.Counts.{Call, call_all, call_all-loop_close}
use morelibc.Vfs.Files.{Files}
use morelibc.Vfs.Files.References.{IsBalanced}
use morelibc.Vfs.Operations.{vfs_read}
use morelibc.Vfs.Operations.Tests.{plain, opened, opened-IsBalanced}

abbrev empty : LoopFile
empty = record { base = 9; index = 0; file = none; ro = 0 }

abbrev attached : LoopFile
attached = record empty { file = some 7 }

-- Without a file, a read goes through the NULL pointer; a device that is read-only refuses to write.
read_unattached : loop_read (λ f. plain) 2 empty [] ≡ none
unfolding loop_read on_target
read_unattached = refl

read_attached :
    loop_read (λ f. plain) 2 attached (4 ∷ 5 ∷ 6 ∷ []) ≡ some (ok (4 ∷ 5 ∷ []), 4 ∷ 5 ∷ 6 ∷ [])
unfolding loop_read on_target vfs_read
read_attached = refl

write_refused :
    loop_write (λ f. plain) (1 ∷ []) (record attached { ro = 1 }) [] ≡ some (err erofs, [])
unfolding loop_write
write_refused = refl

-- The same file is attached again, through its descriptor.
abbrev calls : List Call
calls =
    Counts.write (1 ∷ 2 ∷ [])
    ∷ Counts.ioctl (loop_set_fd 3)
    ∷ Counts.ioctl blkgetsize
    ∷ Counts.ioctl (blkroset 1)
    ∷ Counts.write (3 ∷ [])
    ∷ Counts.read 2
    ∷ []

call_all-loop_close_example :
    (l1 : LoopFile) × (s1 : Files) × (d1 : List ℕ) × (call_all
        (λ f. plain)
        calls
        (attached, (opened, []))
      ≡ some (l1, (s1, d1)))
    × IsBalanced (loop_close l1 (replicate 4 none, s1)).1.1 (λ f. 0)
call_all-loop_close_example =
    call_all-loop_close (λ f. plain) calls attached 7 opened [] (λ f. 0) (replicate 4 none) refl
      opened-IsBalanced (refl, (refl, (refl, (refl, (refl, (refl, tt))))))
