-- ===== src/Vfs/Path/Segments.antt =====
-- The loop of `vfs_expand_path` (morelib/vfs.c) is a run over the segments between the slashes.
use morelibc.Base.{
  ℕ, zero, suc, ◌≤◌, ◌<◌, ◌≡◌, refl, ap, ap₂, Option, store, inl, inr, List, [], ◌∷◌, ◌++◌, length,
  ◌==◌, if◌then◌else◌, Bool-cases, Result, ok, err, ◌>>=◌, arith,
}
use morelibc.Vfs.Path.{
  slash, strchrnul, Cursor, expand_step, expand_loop, start_relative, finish, vfs_expand_path,
}

abbrev pub cons_head : ℕ → List (List ℕ) → List (List ℕ)
cons_head x [] = (x ∷ []) ∷ []
cons_head x (s ∷ ss) = (x ∷ s) ∷ ss

-- The texts between the slashes of a path, empty ones included.
abbrev pub segments : List ℕ → List (List ℕ)
segments [] = [] ∷ []
segments (x ∷ xs) = if x == slash then [] ∷ segments xs else cons_head x (segments xs)

-- The steps for a list of segments.
unfoldable pub expand_segments : Cursor → List (List ℕ) → Result Cursor
expand_segments c [] = ok c
expand_segments c (s ∷ ss) = expand_step c s >>= λ c'. expand_segments c' ss

-- What `strchrnul` leaves: the segments after the first.
abbrev later : List ℕ → List (List ℕ)
later [] = []
later (_ ∷ path) = segments path

segments-strchrnul :
    (path : List ℕ) → segments path ≡ (strchrnul path slash).0 ∷ later (strchrnul path slash).1
unfolding strchrnul
segments-strchrnul [] = refl
segments-strchrnul (x ∷ path) = elim (Bool-cases (x == slash)) [
  | inl here ↦ rw here
  | inr on ↦ rw (on, segments-strchrnul path)
]

strchrnul_shorter : (path : List ℕ) → length (strchrnul path slash).1 ≤ length path
unfolding strchrnul
strchrnul_shorter [] = omega arith
strchrnul_shorter (x ∷ path) = ground (arith, strchrnul_shorter path)

pub expand_loop-segments :
    (fuel : ℕ) (c : Cursor) (path : List ℕ)
    → length path < fuel
    → expand_loop fuel c path ≡ expand_segments c (segments path)
unfolding expand_loop expand_segments
expand_loop-segments zero c path h = absurd (omega arith)
expand_loop-segments (suc fuel) c path h = rw (segments-strchrnul path) (
    go (expand_step c (strchrnul path slash).0) (strchrnul path slash).1 (strchrnul_shorter path)
      (λ c' p q. expand_loop-segments fuel c' p q))
  where
    go :
        (r : Result Cursor) (next : List ℕ)
        → length next ≤ length path
        → ((c' : Cursor) (p : List ℕ)
            → length p < fuel
            → expand_loop fuel c' p ≡ expand_segments c' (segments p))
        → (r >>= λ c'. elim next [ [] ↦ ok c' | _ ∷ path' ↦ expand_loop fuel c' path' ])
          ≡ (r >>= λ c'. expand_segments c' (later next))
    go (err e) next b ih = refl
    go (ok c') [] b ih = refl
    go (ok c') (_ ∷ p) b ih = ih c' p (omega arith)

-- A path followed by a slash and a text with no slash has one segment more.
pub segments-append : (path s : List ℕ) → segments (path ++ slash ∷ s) ≡ segments path ++ segments s
segments-append [] s = refl
segments-append (x ∷ path) s = elim (Bool-cases (x == slash)) [
  | inl here ↦ rw here (ap (λ l. [] ∷ l) (segments-append path s))
  | inr on ↦ rw (on, segments-append path s) (rw (segments-strchrnul path))
]

-- `vfs_expand_path` in terms of segments.
pub expand_path-segments :
    (cwd : Option (List ℕ)) (buf : List ℕ) (x : ℕ) (path : List ℕ)
    → vfs_expand_path cwd buf (x ∷ path) ≡ (
        (if x == slash
          then expand_segments (record { buf = store buf 0 (0 ∷ []); out = 0 }) (segments path)
          else expand_segments (start_relative cwd (store buf 0 (0 ∷ []))) (segments (x ∷ path)))
        >>= λ c. ok (finish c))
unfolding vfs_expand_path
expand_path-segments cwd buf x path =
    ap₂ (λ a b. (if x == slash then a else b) >>= λ c. ok (finish c))
      (expand_loop-segments (suc (length path)) _ path (omega arith))
      (expand_loop-segments (suc (suc (length path))) _ (x ∷ path) (omega arith))
