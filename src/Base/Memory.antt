-- ===== src/Base/Memory.antt =====
-- Blocks of memory as lists of bytes, `memcpy` into and out of them, and C strings.
use Prim.Native.Char.{code}
use Prim.Native.String.{String}
use Prim.Native.Nat.{ℕ, zero, suc, ◌+◌, ◌*◌, ◌/◌, ◌%◌, ◌^◌, ◌≤◌}
use mathlib.Core.Path.{◌≡◌, refl, ap, ◌∙◌}
use mathlib.Core.Logic.{◌≢◌}
use mathlib.Core.List.{List, [], ◌∷◌, ◌++◌, append-nil, append_assoc}
use native.Mathlib.Omega.{arith}
use morelibc.Base.Tests.{◌==◌, if◌then◌else◌}
use morelibc.Base.Lists.{length, get_or, set, drop, length-set, length-append}

-- `memcpy(buf + off, bytes)`: a byte out of the block changes nothing.
unfoldable pub store : List ℕ → ℕ → List ℕ → List ℕ
store buf off [] = buf
store buf off (x ∷ xs) = store (set buf off x) (off + 1) xs

-- The `n` bytes at `buf + off`.
unfoldable pub load : List ℕ → ℕ → ℕ → List ℕ
load buf off zero = []
load buf off (suc n) = get_or buf off 0 ∷ load buf (off + 1) n

pub length-store : (buf : List ℕ) (off : ℕ) (xs : List ℕ) → length (store buf off xs) ≡ length buf
unfolding store
length-store buf off [] = refl
length-store buf off (x ∷ xs) = length-store (set buf off x) (off + 1) xs ∙ length-set buf off x

set-append :
    (ys : List ℕ) (i y x : ℕ) (zs : List ℕ)
    → i ≡ length ys
    → set (ys ++ y ∷ zs) i x ≡ (ys ++ x ∷ []) ++ zs
set-append [] zero y x zs e = refl
set-append [] (suc i) y x zs e = absurd (omega arith)
set-append (w ∷ ys) zero y x zs e = absurd (omega arith)
set-append (w ∷ ys) (suc i) y x zs e = ap (λ l. w ∷ l) (set-append ys i y x zs (omega arith))

-- A store behind a prefix keeps the prefix.
pub store-append :
    (xs ys zs : List ℕ) (i : ℕ)
    → i ≡ length ys
    → length xs ≤ length zs
    → store (ys ++ zs) i xs ≡ (ys ++ xs) ++ drop (length xs) zs
unfolding store
store-append [] ys zs i e h = rw append-nil
store-append (x ∷ xs) ys [] i e h = absurd (omega arith)
store-append (x ∷ xs) ys (z ∷ zs) i e h = rw (set-append ys i z x zs e) (
    store-append xs (ys ++ x ∷ []) zs (i + 1) (omega (arith, length-append ys (x ∷ [])))
      (omega arith)
    ∙ ap (λ l. l ++ drop (length xs) zs) (append_assoc ys (x ∷ []) xs))

-- The bytes before the first NUL.
unfoldable pub c_string : List ℕ → List ℕ
c_string [] = []
c_string (x ∷ xs) = if x == 0 then [] else x ∷ c_string xs

-- A text that a C string can hold.
abbrev pub NulFree : List ℕ → Type 0
NulFree [] = Unit {0}
NulFree (x ∷ xs) = (x ≢ 0) × NulFree xs

pub NulFree-append : (xs ys : List ℕ) → NulFree xs → NulFree ys → NulFree (xs ++ ys)
NulFree-append [] ys f g = g
NulFree-append (x ∷ xs) ys f g = (f.0, NulFree-append xs ys f.1 g)

pub c_string-append : (xs ys : List ℕ) → NulFree xs → c_string (xs ++ 0 ∷ ys) ≡ xs
unfolding c_string
c_string-append [] ys f = refl
c_string-append (x ∷ xs) ys f = ground (arith, c_string-append xs ys f.1)

-- A word as its four bytes in memory, the lowest first, and the word at the start of a block.
abbrev pub le32 : ℕ → List ℕ
le32 c = c % 256 ∷ c / 256 % 256 ∷ c / 256 / 256 % 256 ∷ c / 256 / 256 / 256 % 256 ∷ []

abbrev pub word_at : List ℕ → ℕ
word_at buf =
    get_or buf 0 0 + get_or buf 1 0 * 2 ^ 8 + get_or buf 2 0 * 2 ^ 16 + get_or buf 3 0 * 2 ^ 24

-- The bytes of a text literal, which is ASCII.
abbrev pub text : String → List ℕ
text String.[] = []
text (String.◌∷◌ c s) = code c ∷ text s
