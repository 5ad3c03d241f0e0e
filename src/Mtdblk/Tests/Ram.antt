-- ===== src/Mtdblk/Tests/Ram.antt =====
-- A memory of 16 bytes in blocks of 4 under the block device of morelib/mtdblk.c.
use morelibc.Base.{
  ℕ, ◌+◌, ◌-◌, ◌≡◌, inl, inr, refl, ap, none, some, List, length, length-replicate, replicate, ◌==◌,
  Bool-cases, if◌then◌else◌, ok, arith,
}
use morelibc.Mtdblk.{Below}
use morelibc.Mtdblk.View.{Healthy, bytes_at, overlay}

-- The bytes, and how many pages the heap can still give.
abbrev pub World : Type 0
World = (ℕ → ℕ) × ℕ

abbrev pub ram : Below World
ram = record {
  erase = λ w start len. (ok tt, (overlay w.0 start (replicate len 255), w.1));
  pread = λ w len start. ok (bytes_at w.0 start len);
  pwrite = λ w page start. (ok (length page), (overlay w.0 start page, w.1));
  fsync = λ w. (ok tt, w);
  malloc = λ w len. if w.1 == 0 then (none, w) else (some (replicate len 0), (w.0, w.1 - 1));
  free = λ w. (w.0, w.1 + 1);
  now = λ w. 7;
}

pub erased_under :
    (d : ℕ → ℕ) (start len : ℕ) (page : List ℕ) (a : ℕ)
    → length page ≡ len
    → overlay (overlay d start (replicate len 255)) start page a ≡ overlay d start page a
erased_under d start len page a e = ground (arith, length-replicate {A = ℕ} len 255)

pub ram-allocates :
    (w : World) (n : ℕ) (page : List ℕ) → (ram.malloc w n).0 ≡ some page → length page ≡ n
ram-allocates w n page e = elim (Bool-cases (w.1 == 0)) [
  | inl h ↦ absurd (ground arith)
  | inr h ↦ ground (arith, length-replicate {A = ℕ} n 0)
]

pub ram-keeps : (w : World) (n : ℕ) → (ram.malloc w n).1.0 ≡ w.0
ram-keeps w n = elim (Bool-cases (w.1 == 0)) [ inl h ↦ rw h refl | inr h ↦ rw h refl ]

unfoldable pub ram-Healthy : Healthy ram 16 4
ram-Healthy = record {
  content = λ w. w.0;
  reads = λ w n start h. refl;
  erases = λ w start. refl;
  rewrites = λ w page start e h. (ap ok e, λ a. erased_under w.0 start 4 page a e);
  writes = λ w bytes start flat h. absurd (omega arith);
  syncs = λ w. (refl, refl);
  allocates = ram-allocates;
  keeps_malloc = ram-keeps;
  keeps_free = λ w. refl;
}

abbrev pub start : World
start = (λ a. a, 1)
