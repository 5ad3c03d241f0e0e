-- ===== src/Vfs/Operations/Descriptors.antt =====
-- The calls on a descriptor in morelib/unistd.c, and what they leave of the descriptor table of
-- morelib/vfs.c.
use morelibc.Base.{ℕ, ◌%◌, none, some, get_or, ltb, if◌then◌else◌, Result, ok, err, ebadf}
use morelibc.Vfs.Files.{Files, vfs_fd_max, vfs_release_file}
use morelibc.Vfs.Files.Access.{permits}

-- A call on a descriptor without its references: it runs the operation on the descriptor's file if there is
-- one and its access mode permits the request, and fails with EBADF otherwise.
abbrev pub permitted :
    {A D : Type 0} → Files → D → ℕ → ℕ → (ℕ → D → Result A × D) → Result A × (Files × D)
permitted s d fd request op =
    if ltb fd vfs_fd_max
    then (elim (get_or s.fds fd none) [
      | none ↦ (err ebadf, (s, d))
      | some f ↦
          if permits (s.flags f % 4) request
          then (let (ret, d1) = op f d in (ret, (s, d1)))
          else (err ebadf, (s, d))
    ])
    else (err ebadf, (s, d))

-- What `with_file` does with the outcome of the acquisition.
abbrev then_run :
    {A D : Type 0} → (ℕ → D → Result A × D) → D → Result ℕ × Files → Result A × (Files × D)
then_run op d (file, s1) = elim file [
  | err e ↦ (err e, (s1, d))
  | ok f ↦ let (ret, d1) = op f d in (ret, (vfs_release_file f s1, d1))
]
