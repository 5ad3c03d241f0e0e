-- ===== src/Vfs/Files/History.antt =====
-- Runs of the file operations of morelib/vfs.c and of `dup` and `dup2` of morelib/unistd.c: any
-- sequence of calls by any number of callers, each of which gives back only references that it holds.
use morelibc.Base.{
  ℕ, zero, suc, ◌+◌, ◌<◌, ◌≡◌, refl, sym, ap, Option, none, ◌∷◌, replicate, ◌==◌, if◌then◌else◌,
  arith,
}
use morelibc.Vfs.Files.{
  Files, initial, vfs_fd_max, vfs_file_init, vfs_copy_file, vfs_release_file, vfs_acquire_file,
  close, vfs_replace, vfs_gettty, vfs_settty, dup, dup2,
}
use morelibc.Vfs.Files.Slots.{holds, count_slots}
use morelibc.Vfs.Files.Balance.{
  vfs_file_init-IsBalanced, close-IsBalanced, vfs_replace-IsBalanced, vfs_gettty-IsBalanced,
  vfs_settty-IsBalanced, dup-IsBalanced, dup2-IsBalanced,
}
use morelibc.Vfs.Files.References.{
  IsBalanced, one_more, one_less, gains, vfs_copy_file-IsBalanced, vfs_release_file-IsBalanced,
  vfs_acquire_file-IsBalanced,
}

-- The states that calls lead to, each with the references that callers hold.
pub data Reach : Files → (ℕ → ℕ) → Type 0 where
  start : Reach initial (λ f. 0)
  init :
      {s : Files} {held : ℕ → ℕ} (file flags : ℕ)
      → s.refs file ≡ 0
      → Reach s held
      → Reach (vfs_file_init file flags s) (one_more held file)
  copy :
      {s : Files} {held : ℕ → ℕ} (file : ℕ)
      → Reach s held
      → Reach (vfs_copy_file file s) (one_more held file)
  release :
      {s : Files} {held : ℕ → ℕ} (file : ℕ)
      → 0 < held file
      → Reach s held
      → Reach (vfs_release_file file s) (one_less held file)
  acquire :
      {s : Files} {held : ℕ → ℕ} (fd flags : ℕ)
      → Reach s held
      → Reach (vfs_acquire_file fd flags s).1 (gains held (vfs_acquire_file fd flags s).0)
  shut : {s : Files} {held : ℕ → ℕ} (fd : ℕ) → Reach s held → Reach (close fd s).1 held
  replace :
      {s : Files} {held : ℕ → ℕ} (fd file : ℕ) → Reach s held → Reach (vfs_replace fd file s).1 held
  gettty :
      {s : Files} {held : ℕ → ℕ}
      → Reach s held
      → Reach (vfs_gettty s).1 (λ f. held f + holds f s.tty)
  settty :
      {s : Files} {held : ℕ → ℕ} (file : Option ℕ) → Reach s held → Reach (vfs_settty file s) held
  duplicate : {s : Files} {held : ℕ → ℕ} (oldfd : ℕ) → Reach s held → Reach (dup oldfd s).1 held
  duplicate_to :
      {s : Files} {held : ℕ → ℕ} (oldfd newfd : ℕ)
      → Reach s held
      → Reach (dup2 oldfd newfd s).1 held

count_slots-replicate : (f n : ℕ) → count_slots f (replicate n none) ≡ 0
count_slots-replicate f zero = refl
count_slots-replicate f (suc n) = omega (arith, count_slots-replicate f n)

initial-IsBalanced : IsBalanced initial (λ f. 0)
initial-IsBalanced = record {
  sized = refl;
  counted = λ f. sym (count_slots-replicate f vfs_fd_max);
}

-- After any run, the reference count of every file is the number of descriptors that stand for it, and
-- one if it is the terminal, and the number of references that callers hold.
pub Reach-IsBalanced : {s : Files} {held : ℕ → ℕ} → Reach s held → IsBalanced s held
Reach-IsBalanced start = initial-IsBalanced
Reach-IsBalanced (init file flags new r) =
    vfs_file_init-IsBalanced file flags new (Reach-IsBalanced r)
Reach-IsBalanced (copy file r) = vfs_copy_file-IsBalanced file (Reach-IsBalanced r)
Reach-IsBalanced (release file h r) = vfs_release_file-IsBalanced file h (Reach-IsBalanced r)
Reach-IsBalanced (acquire fd flags r) = vfs_acquire_file-IsBalanced fd flags (Reach-IsBalanced r)
Reach-IsBalanced (shut fd r) = close-IsBalanced fd (Reach-IsBalanced r)
Reach-IsBalanced (replace fd file r) = vfs_replace-IsBalanced fd file (Reach-IsBalanced r)
Reach-IsBalanced (gettty r) = vfs_gettty-IsBalanced (Reach-IsBalanced r)
Reach-IsBalanced (settty file r) = vfs_settty-IsBalanced file (Reach-IsBalanced r)
Reach-IsBalanced (duplicate oldfd r) = dup-IsBalanced oldfd (Reach-IsBalanced r)
Reach-IsBalanced (duplicate_to oldfd newfd r) = dup2-IsBalanced oldfd newfd (Reach-IsBalanced r)

-- The files that a run reaches are open: a file that a descriptor stands for, or the terminal, or a
-- caller holds, has a reference count above 0.
referred :
    {s : Files} {held : ℕ → ℕ} (v : IsBalanced s held) (f : ℕ)
    → 0 < count_slots f s.fds + holds f s.tty + held f
    → 0 < s.refs f
referred v f h = omega (arith, v.counted f)

-- After any run, the release of a reference that a caller holds closes the file if it is the last
-- reference to it, with no descriptor and no terminal left, and closes nothing otherwise.
pub release_closes_last :
    {s : Files} {held : ℕ → ℕ}
    → Reach s held
    → (file : ℕ) → 0 < held file
    → (vfs_release_file file s).closed ≡ (
        if count_slots file s.fds + holds file s.tty + held file == 1
        then file ∷ s.closed
        else s.closed)
unfolding vfs_release_file
release_closes_last {s} r file h =
    ap (λ n. if n == 1 then file ∷ s.closed else s.closed) ((Reach-IsBalanced r).counted file)
