-- ===== src/Vfs/Path/DotDot.antt =====
-- A fault of `vfs_expand_path` (morelib/vfs.c). A ".." moves `out` back to the last slash that
-- `strrchr` sees in the buffer, and writes no NUL there: the next ".." sees the same slash again.
use morelibc.Base.{
  ℕ, ◌≡◌, refl, ap, ap₂, ◌∙◌, sym, Option, List, [], ◌∷◌, ◌++◌, ◌==◌, if◌then◌else◌, ok, ◌>>=◌,
  >>=-cong,
}
use morelibc.Vfs.Path.{dot, slash, strncmp, Cursor, expand_step, vfs_expand_path, finish}
use morelibc.Vfs.Path.Segments.{segments, expand_segments, segments-append, expand_path-segments}

abbrev pub dotdot : List ℕ
dotdot = dot ∷ dot ∷ []

dotdot_again :
    (c : Cursor) (ss : List (List ℕ))
    → expand_segments c (ss ++ dotdot ∷ dotdot ∷ []) ≡ expand_segments c (ss ++ dotdot ∷ [])
unfolding expand_segments expand_step strncmp
dotdot_again c [] = refl
dotdot_again c (s ∷ ss) = >>=-cong (expand_step c s) _ _ (λ c'. dotdot_again c' ss)

dotdot_segments :
    (c : Cursor) (path : List ℕ)
    → expand_segments c (segments (path ++ slash ∷ dot ∷ dot ∷ slash ∷ dot ∷ dot ∷ []))
      ≡ expand_segments c (segments (path ++ slash ∷ dot ∷ dot ∷ []))
dotdot_segments c path =
    ap (expand_segments c) (segments-append path (dot ∷ dot ∷ slash ∷ dot ∷ dot ∷ []))
    ∙ dotdot_again c (segments path)
    ∙ ap (expand_segments c) (sym (segments-append path (dot ∷ dot ∷ [])))

-- Whatever stands before it, a byte at least, the current directory and the buffer: a path that ends in "/../.."
-- expands to the same as the path that ends in one "/..".
pub dotdot_twice :
    (cwd : Option (List ℕ)) (buf : List ℕ) (x : ℕ) (path : List ℕ)
    → vfs_expand_path cwd buf (x ∷ path ++ slash ∷ dot ∷ dot ∷ slash ∷ dot ∷ dot ∷ [])
      ≡ vfs_expand_path cwd buf (x ∷ path ++ slash ∷ dot ∷ dot ∷ [])
dotdot_twice cwd buf x path =
    expand_path-segments cwd buf x (path ++ slash ∷ dot ∷ dot ∷ slash ∷ dot ∷ dot ∷ [])
    ∙ ap₂ (λ a b. (if x == slash then a else b) >>= λ c. ok (finish c)) (dotdot_segments _ path)
        (dotdot_segments _ (x ∷ path))
    ∙ sym (expand_path-segments cwd buf x (path ++ slash ∷ dot ∷ dot ∷ []))
