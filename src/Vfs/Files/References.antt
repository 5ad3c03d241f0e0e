-- ===== src/Vfs/Files/References.antt =====
-- Reference counts of morelib/vfs.c: the count of a file is the number of its descriptors, of the
-- terminal slot, and of the references that callers hold. Taking and giving back references keeps that.
use morelibc.Base.{
  ℕ, ◌+◌, ◌-◌, ◌≤◌, ◌<◌, ◌≡◌, refl, ◌∙◌, inl, inr, Option, none, some, Option-cases, length,
  length-set, get_or, set, ltb, ◌==◌, Bool-cases, bit_and, Result, ok, err, Errno, ◌⊎◌, arith,
}
use morelibc.Vfs.Files.{
  Files, vfs_fd_max, retain, vfs_copy_file, vfs_release_file, release_if, retain_if,
  vfs_acquire_file, fd_flags, replace_at,
}
use morelibc.Vfs.Files.Slots.{
  holds, count_slots, count_slots-set, refs-retain, refs-release, refs-release_if,
}

-- `held` says how many references to each file the callers hold.
pub record IsBalanced (s : Files) (held : ℕ → ℕ) : Type 0 where
  pub sized : length s.fds ≡ vfs_fd_max
  pub counted : (f : ℕ) → s.refs f ≡ count_slots f s.fds + holds f s.tty + held f

abbrev pub one_more : (ℕ → ℕ) → ℕ → ℕ → ℕ
one_more held file f = held f + holds f (some file)

abbrev pub one_less : (ℕ → ℕ) → ℕ → ℕ → ℕ
one_less held file f = held f - holds f (some file)

pub same_held :
    {s : Files} {held held' : ℕ → ℕ}
    → ((f : ℕ) → held f ≡ held' f)
    → IsBalanced s held
    → IsBalanced s held'
same_held same v = record { sized = v.sized; counted = λ f. omega (arith, v.counted f, same f) }

pub Result-cases : (r : Result ℕ) → ((e : Errno) × (r ≡ err e)) ⊎ ((a : ℕ) × (r ≡ ok a))
Result-cases (ok a) = inr (a, refl)
Result-cases (err e) = inl (e, refl)

pub holds-le-held : (held : ℕ → ℕ) (file f : ℕ) → 0 < held file → holds f (some file) ≤ held f
holds-le-held held file f h = ground arith

pub retained :
    (file : ℕ) (s : Files) → ((retain file s).fds ≡ s.fds) × ((retain file s).tty ≡ s.tty)
unfolding retain
retained file s = (refl, refl)

pub same_slots :
    (o : Option ℕ) (s : Files) → ((release_if o s).fds ≡ s.fds) × ((release_if o s).tty ≡ s.tty)
unfolding release_if vfs_release_file
same_slots none s = (refl, refl)
same_slots (some file) s = (refl, refl)

pub kept :
    (o : Option ℕ) (s : Files) → ((retain_if o s).fds ≡ s.fds) × ((retain_if o s).tty ≡ s.tty)
unfolding retain_if retain
kept none s = (refl, refl)
kept (some file) s = (refl, refl)

-- A reference too many, to what a slot held, is made good by its release.
pub release_surplus :
    (o : Option ℕ) (s : Files) (held : ℕ → ℕ)
    → length s.fds ≡ vfs_fd_max
    → ((f : ℕ) → s.refs f ≡ count_slots f s.fds + holds f s.tty + held f + holds f o)
    → IsBalanced (release_if o s) held
release_surplus o s held z c = record {
  sized = rw (same_slots o s).0 z;
  counted =
      λ f. rw ((same_slots o s).0, (same_slots o s).1) (omega (arith, refs-release_if o s f, c f));
}

pub retain-IsBalanced :
    (file : ℕ) {s : Files} {held : ℕ → ℕ}
    → IsBalanced s held
    → IsBalanced (retain file s) (one_more held file)
retain-IsBalanced file {s} {held} v = record {
  sized = rw (retained file s).0 v.sized;
  counted = λ f.
      rw ((retained file s).0, (retained file s).1)
        (omega (arith, refs-retain file s f, v.counted f));
}

-- `vfs_copy_file` gives its caller one more reference.
pub vfs_copy_file-IsBalanced :
    (file : ℕ) {s : Files} {held : ℕ → ℕ}
    → IsBalanced s held
    → IsBalanced (vfs_copy_file file s) (one_more held file)
unfolding vfs_copy_file
vfs_copy_file-IsBalanced file {s} v = retain-IsBalanced file v

pub vfs_release_file-IsBalanced :
    (file : ℕ) {s : Files} {held : ℕ → ℕ}
    → 0 < held file
    → IsBalanced s held
    → IsBalanced (vfs_release_file file s) (one_less held file)
unfolding vfs_release_file
vfs_release_file-IsBalanced file {s} {held} h v = record {
  sized = v.sized;
  counted = λ f. omega (arith, refs-release file s f, v.counted f, holds-le-held held file f h);
}

pub release_some : (file : ℕ) (s : Files) → vfs_release_file file s ≡ release_if (some file) s
unfolding release_if
release_some file s = refl

-- A result with the reference that comes with it.
abbrev pub gains : (ℕ → ℕ) → Result ℕ → ℕ → ℕ
gains held (ok file) f = held f + holds f (some file)
gains held (err e) f = held f

-- `vfs_acquire_file` gives the caller a reference to the file that it returns, and none on failure.
pub vfs_acquire_file-IsBalanced :
    (fd flags : ℕ) {s : Files} {held : ℕ → ℕ}
    → IsBalanced s held
    → let (r, s') = vfs_acquire_file fd flags s in IsBalanced s' (gains held r)
unfolding vfs_acquire_file
vfs_acquire_file-IsBalanced fd flags {s} {held} v = elim (Bool-cases (ltb fd vfs_fd_max)) [
  | inr out ↦ rw out v
  | inl within ↦ elim (Option-cases (get_or s.fds fd none)) [
    | inl empty ↦ rw (within, empty) v
    | inr (file, hit) ↦ elim (Bool-cases (bit_and (fd_flags (s.flags file)) flags == flags)) [
      | inl allowed ↦ rw (within, hit) (rw allowed (retain-IsBalanced file v))
      | inr refused ↦ rw (within, hit) (rw refused v)
    ]
  ]
]

pub slot_change :
    (fd : ℕ) (o : Option ℕ) {s : Files} {held : ℕ → ℕ}
    → IsBalanced s held
    → fd < vfs_fd_max
    → (f : ℕ)
    → count_slots f (set s.fds fd o) + holds f (get_or s.fds fd none)
      ≡ count_slots f s.fds + holds f o
slot_change fd o {s} v h f = count_slots-set f s.fds fd o (omega (arith, v.sized))

pub replace_at-IsBalanced :
    (fd file : ℕ) {s : Files} {held : ℕ → ℕ}
    → IsBalanced s held
    → fd < vfs_fd_max
    → IsBalanced (replace_at fd file s) held
unfolding replace_at
replace_at-IsBalanced fd file {s} {held} v h =
    release_surplus (get_or s.fds fd none)
      (record (retain file s) { fds = set s.fds fd (some file) }) held
      (length-set s.fds fd (some file) ∙ v.sized)
      λ f.
        rw (retained file s).1
          (omega (arith, v.counted f, refs-retain file s f, slot_change fd (some file) v h f))
