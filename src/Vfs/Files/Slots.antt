-- ===== src/Vfs/Files/Slots.antt =====
-- How often the descriptor table of morelib/vfs.c holds a file.
use morelibc.Base.{
  ℕ, zero, suc, ◌+◌, ◌-◌, ◌≤◌, ◌<◌, ◌≡◌, refl, ◌≢◌, Option, none, some, List, [], ◌∷◌, length,
  get_or, set, ◌==◌, if◌then◌else◌, arith,
}
use morelibc.Vfs.Files.{Files, retain, vfs_release_file, retain_if, release_if, first_empty}

-- One, if the slot holds the file.
abbrev pub holds : ℕ → Option ℕ → ℕ
holds f none = 0
holds f (some g) = if g == f then 1 else 0

abbrev pub count_slots : ℕ → List (Option ℕ) → ℕ
count_slots f [] = 0
count_slots f (o ∷ fds) = holds f o + count_slots f fds

pub count_slots-set :
    (f : ℕ) (fds : List (Option ℕ)) (i : ℕ) (o : Option ℕ)
    → i < length fds
    → count_slots f (set fds i o) + holds f (get_or fds i none) ≡ count_slots f fds + holds f o
count_slots-set f [] i o h = absurd (omega arith)
count_slots-set f (p ∷ fds) zero o h = omega arith
count_slots-set f (p ∷ fds) (suc i) o h = omega (arith, count_slots-set f fds i o (omega arith))

pub holds-le :
    (f : ℕ) (fds : List (Option ℕ)) (i : ℕ)
    → i < length fds
    → holds f (get_or fds i none) ≤ count_slots f fds
holds-le f [] i h = absurd (omega arith)
holds-le f (p ∷ fds) zero h = omega arith
holds-le f (p ∷ fds) (suc i) h = omega (arith, holds-le f fds i (omega arith))

pub refs-retain :
    (file : ℕ) (s : Files) (f : ℕ) → (retain file s).refs f ≡ s.refs f + holds f (some file)
unfolding retain
refs-retain file s f = ground arith

pub refs-release :
    (file : ℕ) (s : Files) (f : ℕ)
    → (vfs_release_file file s).refs f ≡ s.refs f - holds f (some file)
unfolding vfs_release_file
refs-release file s f = ground arith

pub refs-retain_if :
    (o : Option ℕ) (s : Files) (f : ℕ) → (retain_if o s).refs f ≡ s.refs f + holds f o
unfolding retain_if
refs-retain_if none s f = omega arith
refs-retain_if (some file) s f = refs-retain file s f

pub refs-release_if :
    (o : Option ℕ) (s : Files) (f : ℕ) → (release_if o s).refs f ≡ s.refs f - holds f o
unfolding release_if
refs-release_if none s f = omega arith
refs-release_if (some file) s f = refs-release file s f

taken :
    (f : ℕ) (fds : List (Option ℕ)) (i : ℕ)
    → ((j : ℕ) → j < i → get_or fds j none ≢ none)
    → (j : ℕ) → j < suc i
    → get_or (some f ∷ fds) j none ≢ none
taken f fds i n zero h = λ e. cc e
taken f fds i n (suc j) h = n j (omega arith)

-- The slot that `vfs_fd_next` finds is empty, and it is the first one.
pub first_empty_lem :
    (fds : List (Option ℕ)) (i : ℕ)
    → first_empty fds ≡ some i
    → (i < length fds) × (get_or fds i none ≡ none) × ((j : ℕ) → j < i → get_or fds j none ≢ none)
unfolding first_empty
first_empty_lem [] i e = cc
first_empty_lem (none ∷ fds) zero e = (omega arith, refl, λ j h. absurd (omega arith))
first_empty_lem (none ∷ fds) (suc i) e = absurd (ground arith)
first_empty_lem (some f ∷ fds) zero e = absurd (ground arith)
first_empty_lem (some f ∷ fds) (suc i) e =
    let (b, g, n) = first_empty_lem fds i (ground arith) in (omega arith, g, taken f fds i n)

-- A full table has no empty slot.
pub first_empty_full :
    (fds : List (Option ℕ)) (j : ℕ)
    → first_empty fds ≡ none
    → j < length fds
    → get_or fds j none ≢ none
unfolding first_empty
first_empty_full [] j e h = absurd (omega arith)
first_empty_full (none ∷ fds) j e h = absurd (cc e)
first_empty_full (some f ∷ fds) zero e h = λ p. cc p
first_empty_full (some f ∷ fds) (suc j) e h = first_empty_full fds j (ground arith) (omega arith)
