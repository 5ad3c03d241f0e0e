-- ===== src/Vfs/Files/Balance.antt =====
-- Reference counts of morelib/vfs.c: the count of a file is the number of its descriptors, of the
-- terminal slot, and of the references that callers hold. Every operation keeps that.
use morelibc.Base.{
  ℕ, ◌+◌, ◌-◌, ◌≡◌, ap, ◌∙◌, inl, inr, Option, none, some, Option-cases, length-set, get_or, set,
  ltb, ◌==◌, ==_iff, subst, Bool-cases, drop, length-drop, ◌^◌, Result, arith,
}
use morelibc.Vfs.Files.{
  vfs_fd_next, Files, vfs_fd_max, retain_if, vfs_acquire_file, first_empty, close, vfs_replace,
  vfs_gettty, vfs_settty, replace_release, dup, dup2, vfs_file_init,
}
use morelibc.Vfs.Files.Slots.{holds, refs-retain_if, first_empty_lem}
use morelibc.Vfs.Files.References.{
  IsBalanced, one_more, same_held, Result-cases, kept, release_surplus, vfs_release_file-IsBalanced,
  release_some, gains, vfs_acquire_file-IsBalanced, slot_change, replace_at-IsBalanced,
}

-- `close` keeps the counts: the reference of the descriptor goes with it.
pub close-IsBalanced :
    (fd : ℕ) {s : Files} {held : ℕ → ℕ} → IsBalanced s held → IsBalanced (close fd s).1 held
unfolding close
close-IsBalanced fd {s} {held} v = elim (Bool-cases (ltb fd vfs_fd_max)) [
  | inr out ↦ rw out v
  | inl within ↦ elim (Option-cases (get_or s.fds fd none)) [
    | inl empty ↦ rw (within, empty) v
    | inr (file, hit) ↦
        rw (within, hit)
          (rw (release_some file _) (
            release_surplus (some file) (record s { fds = set s.fds fd none }) held
              (length-set s.fds fd none ∙ v.sized)
              λ f.
                omega
                  (arith, v.counted f, slot_change fd none v (ground arith) f, ap (holds f) hit)))
  ]
]

-- `vfs_replace` keeps the counts, with a descriptor of the caller's or a free one, and on failure.
pub vfs_replace-IsBalanced :
    (fd file : ℕ) {s : Files} {held : ℕ → ℕ}
    → IsBalanced s held
    → IsBalanced (vfs_replace fd file s).1 held
unfolding vfs_replace vfs_fd_next
vfs_replace-IsBalanced fd file {s} {held} v = elim (Bool-cases (ltb fd (2 ^ 31))) [
  | inl positive ↦ elim (Bool-cases (ltb fd vfs_fd_max)) [
    | inl within ↦ rw (positive, within) (replace_at-IsBalanced fd file v (ground arith))
    | inr out ↦ rw (positive, out) v
  ]
  | inr negative ↦ elim (Option-cases (first_empty (drop 3 s.fds))) [
    | inl full ↦ rw (negative, full) v
    | inr (i, free) ↦
        rw (negative, free)
          (replace_at-IsBalanced (i + 3) file v (
            omega (arith, v.sized, length-drop 3 s.fds, (first_empty_lem (drop 3 s.fds) i free).0)))
  ]
]

pub vfs_gettty-IsBalanced :
    {s : Files} {held : ℕ → ℕ}
    → IsBalanced s held
    → IsBalanced (vfs_gettty s).1 (λ f. held f + holds f s.tty)
unfolding vfs_gettty
vfs_gettty-IsBalanced {s} {held} v = record {
  sized = rw (kept s.tty s).0 v.sized;
  counted = λ f.
      rw ((kept s.tty s).0, (kept s.tty s).1)
        (omega (arith, refs-retain_if s.tty s f, v.counted f));
}

pub vfs_settty-IsBalanced :
    (o : Option ℕ) {s : Files} {held : ℕ → ℕ} → IsBalanced s held → IsBalanced (vfs_settty o s) held
unfolding vfs_settty
vfs_settty-IsBalanced o {s} {held} v =
    release_surplus s.tty (record (retain_if o s) { tty = o }) held (rw (kept o s).0 v.sized)
      λ f. rw (kept o s).0 (omega (arith, v.counted f, refs-retain_if o s f))

gained :
    {s : Files} (held : ℕ → ℕ) {r r' : Result ℕ}
    → r ≡ r'
    → IsBalanced s (gains held r)
    → IsBalanced s (gains held r')
gained {s} held = subst (λ r. IsBalanced s (gains held r))

replace_release-IsBalanced :
    (fd file : ℕ) {s : Files} (held : ℕ → ℕ)
    → IsBalanced s (one_more held file)
    → IsBalanced (replace_release fd file s).1 held
unfolding replace_release
replace_release-IsBalanced fd file held v =
    same_held (λ f. omega arith)
      (vfs_release_file-IsBalanced file (ground arith) (vfs_replace-IsBalanced fd file v))

-- `dup` keeps the counts.
pub dup-IsBalanced :
    (oldfd : ℕ) {s : Files} {held : ℕ → ℕ} → IsBalanced s held → IsBalanced (dup oldfd s).1 held
unfolding dup
dup-IsBalanced oldfd {s} {held} v =
    let v' = vfs_acquire_file-IsBalanced oldfd 0 v in
    elim (Result-cases (vfs_acquire_file oldfd 0 s).0) [
      | inl (e, refused) ↦ rw (refused, dup) (gained held refused v')
      | inr (f, acquired) ↦
          rw (acquired, dup)
            (replace_release-IsBalanced (2 ^ 32 - 1) f held (gained held acquired v'))
    ]

-- `dup2` keeps the counts.
pub dup2-IsBalanced :
    (oldfd newfd : ℕ) {s : Files} {held : ℕ → ℕ}
    → IsBalanced s held
    → IsBalanced (dup2 oldfd newfd s).1 held
unfolding dup2
dup2-IsBalanced oldfd newfd {s} {held} v =
    let v' = vfs_acquire_file-IsBalanced oldfd 0 v in
    elim (Bool-cases (ltb newfd vfs_fd_max)) [
      | inr out ↦ rw out v
      | inl within ↦ elim (Result-cases (vfs_acquire_file oldfd 0 s).0) [
        | inl (e, refused) ↦ rw within (rw refused (gained held refused v'))
        | inr (f, acquired) ↦
            rw within
              (rw acquired (replace_release-IsBalanced newfd f held (gained held acquired v')))
      ]
    ]

-- A new file has the one reference of its creator.
pub vfs_file_init-IsBalanced :
    (file flags : ℕ) {s : Files} {held : ℕ → ℕ}
    → s.refs file ≡ 0
    → IsBalanced s held
    → IsBalanced (vfs_file_init file flags s) (one_more held file)
unfolding vfs_file_init
vfs_file_init-IsBalanced file flags {s} {held} new v = record {
  sized = v.sized;
  counted = λ f. elim (Bool-cases (file == f)) [
    | inl e ↦ rw e (omega (arith, v.counted f, new, ap s.refs ((==_iff file f).0 e)))
    | inr e ↦ rw e (omega (arith, v.counted f))
  ];
}
