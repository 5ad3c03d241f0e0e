-- ===== src/Vfs/Path.antt =====
-- The path functions of morelib/vfs.c. A path is the list of the bytes before its NUL. The buffer of
-- `vfs_path_buffer_t` is the bytes from `begin = buf + 2` on; it is not initialised by its callers.
pub mod Prefix
mod Segments
mod Expand
mod Canonical
mod DotDot
mod Tests
use morelibc.Base.{
  ℕ, zero, suc, ◌+◌, Bool, true, false, ◌&&◌, ◌||◌, Option, none, some, List, [], ◌∷◌, ◌++◌, length,
  drop, get_or, ltb, ◌==◌, if◌then◌else◌, store, c_string, Result, ok, err, Errno, enoent,
  enametoolong, ◌>>=◌,
}

abbrev pub slash : ℕ
slash = b'/'

abbrev pub dot : ℕ
dot = b'.'

-- `strchrnul`: the bytes before the first `ch`, and the text from there on.
unfoldable pub strchrnul : List ℕ → ℕ → List ℕ × List ℕ
strchrnul [] ch = ([], [])
strchrnul (x ∷ xs) ch =
    let (before, next) = strchrnul xs ch in if x == ch then ([], x ∷ xs) else (x ∷ before, next)

-- `strncmp(a, b, n) == 0`.
unfoldable pub strncmp : List ℕ → List ℕ → ℕ → Bool
strncmp a b zero = true
strncmp [] [] (suc n) = true
strncmp [] (y ∷ b) (suc n) = false
strncmp (x ∷ a) [] (suc n) = false
strncmp (x ∷ a) (y ∷ b) (suc n) = x == y && strncmp a b n

-- `strrchr`: the place of the last `ch` before the first NUL of a block.
unfoldable pub strrchr : List ℕ → ℕ → Option ℕ
strrchr [] ch = none
strrchr (x ∷ xs) ch =
    let rest : Option ℕ = elim (strrchr xs ch) [
      | some i ↦ some (suc i)
      | none ↦ if x == ch then some 0 else none
    ] in
    if x == 0 then none else rest

-- `vfs_compare_path`: the rest of `path2` behind the mount point `path1`.
unfoldable pub vfs_compare_path : List ℕ → List ℕ → Option (List ℕ)
vfs_compare_path path1 path2 =
    let rest = drop (if get_or path1 1 0 == 0 then 0 else length path1) path2 in
    if strncmp path1 path2 (length path1)
    then (if get_or rest 0 0 == slash || get_or rest 0 0 == 0 then some rest else none)
    else none

-- The buffer, and `out` as an offset from `begin`.
pub record Cursor : Type 0 where
  pub buf : List ℕ
  pub out : ℕ

-- A round of the loop of `vfs_expand_path`, for the `len` bytes at `path`.
unfoldable pub expand_step : Cursor → List ℕ → Result Cursor
expand_step c segment =
    let len = length segment in
    let prev : ℕ = elim (strrchr c.buf slash) [ some i ↦ i | none ↦ 0 ] in
    if len == 0 || strncmp segment (dot ∷ []) len
    then ok c
    else if strncmp segment (dot ∷ dot ∷ []) len
    then ok (record c { out = prev })
    else if ltb (2 + c.out + len) 255
    then ok (record {
      buf = store (store c.buf c.out (slash ∷ 0 ∷ [])) (c.out + 1) segment;
      out = c.out + 1 + len;
    })
    else err enametoolong

-- The loop. Each round takes a byte of the path at least.
unfoldable pub expand_loop : ℕ → Cursor → List ℕ → Result Cursor
expand_loop zero c path = ok c
expand_loop (suc fuel) c path =
    let (segment, next) = strchrnul path slash in
    expand_step c segment >>= λ c'. elim next [ [] ↦ ok c' | _ ∷ path' ↦ expand_loop fuel c' path' ]

-- The string at `begin` once `*out = '\0'` is written, and "/" before it in an empty one.
unfoldable pub finish : Cursor → List ℕ
finish c = c_string (
    if c.out == 0
    then store (store c.buf 0 (slash ∷ 0 ∷ [])) 1 (0 ∷ [])
    else store c.buf c.out (0 ∷ []))

-- `stpcpy(out, vfs_cwd)`, if there is a current directory other than "/".
unfoldable pub start_relative : Option (List ℕ) → List ℕ → Cursor
start_relative none buf = record { buf = buf; out = 0 }
start_relative (some cwd) buf =
    if ltb 1 (length cwd)
    then record { buf = store buf 0 (cwd ++ 0 ∷ []); out = length cwd }
    else record { buf = buf; out = 0 }

-- `vfs_expand_path`: the current directory, the buffer that it is given and the path.
unfoldable pub vfs_expand_path : Option (List ℕ) → List ℕ → List ℕ → Result (List ℕ)
vfs_expand_path cwd buf [] = err enoent
vfs_expand_path cwd buf (x ∷ path) =
    let begun = store buf 0 (0 ∷ []) in
    let expanded =
      if x == slash
      then expand_loop (suc (length path)) (record { buf = begun; out = 0 }) path
      else expand_loop (suc (length (x ∷ path))) (start_relative cwd begun) (x ∷ path) in
    expanded >>= λ c. ok (finish c)
