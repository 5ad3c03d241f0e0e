-- ===== src/Loop/Counts.antt =====
-- The reference that a loop device of morelib/loop.c holds to its file.
use morelibc.Base.{
  ℕ, ◌+◌, ◌==◌, ◌≡◌, refl, sym, ◌/◌, ◌^◌, Option, none, some, List, [], ◌∷◌, Bool, true, false, inl,
  inr, Bool-cases, Result, ok, err, arith, All, subst, erofs, if◌then◌else◌,
}
use morelibc.Vfs.Files.{Files, vfs_acquire_file, release_if}
use morelibc.Vfs.Files.References.{
  IsBalanced, gains, vfs_acquire_file-IsBalanced, same_held, release_surplus,
}
use morelibc.Vfs.Files.Slots.{holds}
use morelibc.Vfs.Operations.{
  VfsFileVtable, vfs_fstat, vfs_vioctl, vfs_fsync, vfs_lseek, vfs_pread, vfs_pwrite, vfs_read,
  vfs_write,
}
use morelibc.Loop.{
  LoopFile, LoopRequest, loop_set_fd, loop_clr_fd, blkroset, blkroget, blkgetsize, blkflsbuf,
  blksszget, blkdiscard, memgetinfo, memerase, memwriteoob, memreadoob, memlock, memunlock, other,
  Reply, gives, informs, info_of_size, attach, set_fd, on_target, with_reply, size_reply,
  ioctl_reply, size_of_stat, loop_size, loop_fsync, loop_lseek, loop_pread, loop_read, loop_pwrite,
  loop_write, loop_ioctl, loop_close,
}

-- The calls on an open loop device.
pub data Call : Type 0 where
  ioctl : (request : LoopRequest) → Call
  fsync : Call
  lseek : (pos whence : ℕ) → Call
  pread : (size offset : ℕ) → Call
  read : (size : ℕ) → Call
  pwrite : (buffer : List ℕ) (offset : ℕ) → Call
  write : (buffer : List ℕ) → Call

-- The call detaches the file.
abbrev pub detaches : Call → Bool
detaches (ioctl loop_clr_fd) = true
detaches call = false

-- What a call that only goes to the attached file leaves.
unfoldable pub forget :
    {A D : Type 0} → LoopFile → Files → Option (Result A × D) → Option (LoopFile × (Files × D))
forget l s none = none
forget l s (some (ret, d)) = some (l, (s, d))

unfoldable pub forget_reply :
    {D : Type 0}
    → Option (Result Reply × (LoopFile × (Files × D)))
    → Option (LoopFile × (Files × D))
forget_reply none = none
forget_reply (some (ret, w)) = some w

module _ {D : Type 0} (driver : ℕ → VfsFileVtable D) where
  unfoldable pub call_one : Call → LoopFile × (Files × D) → Option (LoopFile × (Files × D))
  call_one (ioctl request) (l, w) = forget_reply (loop_ioctl driver request l w)
  call_one fsync (l, (s, d)) = forget l s (loop_fsync driver l d)
  call_one (lseek pos whence) (l, (s, d)) = forget l s (loop_lseek driver pos whence l d)
  call_one (pread size offset) (l, (s, d)) = forget l s (loop_pread driver size offset l d)
  call_one (read size) (l, (s, d)) = forget l s (loop_read driver size l d)
  call_one (pwrite buffer offset) (l, (s, d)) = forget l s (loop_pwrite driver buffer offset l d)
  call_one (write buffer) (l, (s, d)) = forget l s (loop_write driver buffer l d)

  unfoldable pub call_all : List Call → LoopFile × (Files × D) → Option (LoopFile × (Files × D))
  call_all [] w = some w
  call_all (call ∷ calls) w = elim (call_one call w) [ none ↦ none | some w1 ↦ call_all calls w1 ]

-- The references of the callers and of the device.
abbrev pub with_target : (ℕ → ℕ) → LoopFile → ℕ → ℕ
with_target held l f = held f + holds f l.file

-- The call went through, a file is attached, and the counts are right.
unfoldable pub IsAttached : {D : Type 0} → (ℕ → ℕ) → Option (LoopFile × (Files × D)) → Type 0
IsAttached held none = ⊥
IsAttached held (some (l, (s, d))) =
    IsBalanced s (with_target held l) × ((f : ℕ) × (l.file ≡ some f))

-- A reference that is given back to a file, if there is one.
pub release_if-IsBalanced :
    (o : Option ℕ) (s : Files) (held : ℕ → ℕ)
    → IsBalanced s (λ f. held f + holds f o)
    → IsBalanced (release_if o s) held
release_if-IsBalanced o s held v =
    release_surplus o s held v.sized (λ f. omega (arith, v.counted f))

attach_lem :
    {D : Type 0} (l : LoopFile) (d : D) (held : ℕ → ℕ) (f : ℕ) (target : Result ℕ) (s1 : Files)
    → l.file ≡ some f
    → IsBalanced s1 (gains (with_target held l) target)
    → let (ret, (l1, s2)) = attach l target s1 in IsAttached held (some (l1, (s2, d)))
unfolding attach IsAttached
attach_lem l d held f (err errno) s1 e v = (v, (f, e))
attach_lem l d held f (ok g) s1 e v = (
  release_if-IsBalanced l.file s1 (λ j. held j + holds j (some g)) (same_held (λ j. omega arith) v),
  (g, refl),
)

-- LOOP_SET_FD moves the device's reference from the old file to the new one, or keeps it on failure.
set_fd_lem :
    {D : Type 0} (fd : ℕ) (l : LoopFile) (s : Files) (d : D) (held : ℕ → ℕ) (f : ℕ)
    → l.file ≡ some f
    → IsBalanced s (with_target held l)
    → let (ret, (l1, s1)) = set_fd fd l s in IsAttached held (some (l1, (s1, d)))
unfolding set_fd
set_fd_lem fd l s d held f e v =
    let (target, s1) = vfs_acquire_file fd 3 s in
    attach_lem l d held f target s1 e (vfs_acquire_file-IsBalanced fd 3 v)

-- A call that goes to the attached file.
target_lem :
    {A D : Type 0} (op : ℕ → D → Result A × D) (l : LoopFile) (s : Files) (d : D) (held : ℕ → ℕ)
    → IsAttached held (some (l, (s, d)))
    → IsAttached held (forget l s (on_target l op d))
unfolding on_target forget IsAttached
target_lem op l s d held (v, (f, e)) =
    subst (λ o. IsAttached held (forget l s (elim o [ none ↦ none | some g ↦ some (op g d) ])))
      (sym e) (v, (f, e))

-- What is made of its result changes nothing else.
reply_lem :
    {D : Type 0} (reply : Result ℕ → Result Reply) (l : LoopFile) (s : Files) (held : ℕ → ℕ)
    (o : Option (Result ℕ × D))
    → IsAttached held (forget l s o)
    → IsAttached held (forget_reply (with_reply reply l s o))
unfolding with_reply forget forget_reply
reply_lem reply l s held none a = a
reply_lem reply l s held (some (ret, d)) a = a

stat_lem :
    {D : Type 0} (l : LoopFile) (s : Files) (held : ℕ → ℕ) (o : Option (Result ℕ × D))
    → IsAttached held (forget l s o)
    → IsAttached held
        (forget l s (elim o [ none ↦ none | some (ret, d) ↦ some (size_of_stat ret, d) ]))
unfolding forget
stat_lem l s held none a = a
stat_lem l s held (some (ret, d)) a = a

next_lem :
    {D : Type 0} (next : LoopFile × (Files × D) → Option (LoopFile × (Files × D))) (held : ℕ → ℕ)
    (o : Option (LoopFile × (Files × D)))
    → IsAttached held o
    → ((l : LoopFile) (s : Files) (d : D)
        → IsAttached held (some (l, (s, d)))
        → IsAttached held (next (l, (s, d))))
    → IsAttached held (elim o [ none ↦ none | some w ↦ next w ])
unfolding IsAttached
next_lem next held none a g = absurd a
next_lem next held (some (l, (s, d))) a g = g l s d a

module _ {D : Type 0} (driver : ℕ → VfsFileVtable D) where
  size_lem :
      (reply : Result ℕ → Result Reply) (l : LoopFile) (s : Files) (d : D) (held : ℕ → ℕ)
      → IsAttached held (some (l, (s, d)))
      → IsAttached held (forget_reply (with_reply reply l s (loop_size driver l d)))
  unfolding loop_size
  size_lem reply l s d held v =
      let stat : ℕ → D → Result ℕ × D = λ f. vfs_fstat (driver f) in
      reply_lem reply l s held (loop_size driver l d)
        (stat_lem l s held (on_target l stat d) (target_lem stat l s d held v))

  ioctl_lem :
      (request : LoopRequest) (l : LoopFile) (s : Files) (d : D) (held : ℕ → ℕ)
      → detaches (ioctl request) ≡ false
      → IsAttached held (some (l, (s, d)))
      → IsAttached held (forget_reply (loop_ioctl driver request l (s, d)))
  unfolding loop_ioctl forget_reply IsAttached
  ioctl_lem (loop_set_fd fd) l s d held h (v, (f, e)) = set_fd_lem fd l s d held f e v
  ioctl_lem loop_clr_fd l s d held h v = absurd (cc h)
  ioctl_lem (blkroset ro) l s d held h v = v
  ioctl_lem blkroget l s d held h v = v
  ioctl_lem blkgetsize l s d held h v =
      size_lem (size_reply (λ size. gives (size / 2 ^ 9))) l s d held v
  ioctl_lem blkflsbuf l s d held h v = v
  ioctl_lem blksszget l s d held h v = v
  ioctl_lem blkdiscard l s d held h v = v
  ioctl_lem memgetinfo l s d held h v =
      size_lem (size_reply (λ size. informs (info_of_size size))) l s d held v
  ioctl_lem memerase l s d held h v = v
  ioctl_lem memwriteoob l s d held h v = v
  ioctl_lem memreadoob l s d held h v = v
  ioctl_lem memlock l s d held h v = v
  ioctl_lem memunlock l s d held h v = v
  ioctl_lem (other request) l s d held h v =
      reply_lem ioctl_reply l s held (on_target l (λ f. vfs_vioctl (driver f) request) d)
        (target_lem (λ f. vfs_vioctl (driver f) request) l s d held v)

  guarded_lem :
      (op : ℕ → D → Result ℕ × D) (l : LoopFile) (s : Files) (d : D) (held : ℕ → ℕ)
      → IsAttached held (some (l, (s, d)))
      → IsAttached held (forget l s (if l.ro == 0 then on_target l op d else some (err erofs, d)))
  unfolding forget
  guarded_lem op l s d held v = elim (Bool-cases (l.ro == 0)) [
    | inl writable ↦ rw writable (target_lem op l s d held v)
    | inr fixed ↦ rw fixed v
  ]

  call_one_lem :
      (call : Call) (l : LoopFile) (s : Files) (d : D) (held : ℕ → ℕ)
      → detaches call ≡ false
      → IsAttached held (some (l, (s, d)))
      → IsAttached held (call_one driver call (l, (s, d)))
  unfolding call_one loop_fsync loop_lseek loop_pread loop_read loop_pwrite loop_write
  call_one_lem (ioctl request) l s d held h v = ioctl_lem request l s d held h v
  call_one_lem fsync l s d held h v = target_lem (λ f. vfs_fsync (driver f)) l s d held v
  call_one_lem (lseek pos whence) l s d held h v =
      target_lem (λ f. vfs_lseek (driver f) pos whence) l s d held v
  call_one_lem (pread size offset) l s d held h v =
      target_lem (λ f. vfs_pread (driver f) size offset) l s d held v
  call_one_lem (read size) l s d held h v = target_lem (λ f. vfs_read (driver f) size) l s d held v
  call_one_lem (pwrite buffer offset) l s d held h v =
      guarded_lem (λ f. vfs_pwrite (driver f) buffer offset) l s d held v
  call_one_lem (write buffer) l s d held h v =
      guarded_lem (λ f. vfs_write (driver f) buffer) l s d held v

  pub call_all-IsAttached :
      (calls : List Call) (l : LoopFile) (s : Files) (d : D) (held : ℕ → ℕ)
      → All (λ call. detaches call ≡ false) calls
      → IsAttached held (some (l, (s, d)))
      → IsAttached held (call_all driver calls (l, (s, d)))
  unfolding call_all IsAttached
  call_all-IsAttached [] l s d held h v = v
  call_all-IsAttached (call ∷ calls) l s d held (h, hs) v =
      next_lem (call_all driver calls) held (call_one driver call (l, (s, d)))
        (call_one_lem call l s d held h v)
        (λ l1 s1 d1 a. call_all-IsAttached calls l1 s1 d1 held hs a)

  reached :
      (held : ℕ → ℕ) (loop_files : List (Option LoopFile)) (o : Option (LoopFile × (Files × D)))
      → IsAttached held o
      → (l : LoopFile) × (s : Files) × (d : D) × (o ≡ some (l, (s, d)))
        × IsBalanced (loop_close l (loop_files, s)).1.1 held
  unfolding IsAttached loop_close
  reached held loop_files none a = absurd a
  reached held loop_files (some (l, (s, d))) (v, e) =
      (l, s, d, refl, release_if-IsBalanced l.file s held v)

  -- Once a file is attached to a loop device, in a descriptor table whose counts are right, the device's
  -- reference included, any calls but LOOP_CLR_FD go through without the NULL pointer, and when the device
  -- is closed then, the counts are right without its reference.
  pub call_all-loop_close :
      (calls : List Call) (l : LoopFile) (f : ℕ) (s : Files) (d : D) (held : ℕ → ℕ)
      (loop_files : List (Option LoopFile))
      → l.file ≡ some f
      → IsBalanced s (with_target held l)
      → All (λ call. detaches call ≡ false) calls
      → (l1 : LoopFile) × (s1 : Files) × (d1 : D) × (call_all driver calls (l, (s, d))
          ≡ some (l1, (s1, d1)))
        × IsBalanced (loop_close l1 (loop_files, s1)).1.1 held
  unfolding IsAttached
  call_all-loop_close calls l f s d held loop_files e v allowed =
      reached held loop_files (call_all driver calls (l, (s, d)))
        (call_all-IsAttached calls l s d held allowed (v, (f, e)))
