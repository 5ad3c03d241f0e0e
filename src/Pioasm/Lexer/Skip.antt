-- ===== src/Pioasm/Lexer/Skip.antt =====
-- Blanks and comments of rp2/pioasm/pioasm_lexer.c.
use morelibc.Base.{
  ℕ, zero, suc, ◌+◌, ◌%◌, ◌^◌, ◌≤◌, ◌<◌, ◌≡◌, refl, Bool, true, false, ◌&&◌, ◌||◌, List, [], ◌∷◌,
  arith, length, drop, get_or, length-drop, ◌==◌, if◌then◌else◌,
}
use morelibc.Pioasm.Lexer.{
  Lexer, is_blank, skip_line, skip_block, skip_loop, skip_whitespace_and_comments,
}

-- A blank or the start of a comment.
unfoldable pub starts_gap : List ℕ → Bool
starts_gap pos =
    let c = get_or pos 0 0 in
    let next = get_or pos 1 0 in
    is_blank c || c == b';' || (c == b'/' && (next == b'/' || next == b'*'))

skip_line-length : (pos : List ℕ) → length (skip_line pos) ≤ length pos
unfolding skip_line
skip_line-length [] = omega arith
skip_line-length (c ∷ pos) = ground (arith, skip_line-length pos)

skip_block-length : (pos : List ℕ) (line : ℕ) → length (skip_block pos line).0 ≤ length pos
unfolding skip_block
skip_block-length [] line = omega arith
skip_block-length (c ∷ pos) line = ground (
  arith,
  length-drop 1 pos,
  skip_block-length pos (if c == b'\n' then (line + 1) % 2 ^ 16 else line),
)

-- The byte that starts a line comment is no newline.
skip_line-shorter :
    (pos : List ℕ)
    → get_or pos 0 0 == b';' || get_or pos 0 0 == b'/' ≡ true
    → length (skip_line pos) < length pos
unfolding skip_line
skip_line-shorter [] e = absurd (ground arith)
skip_line-shorter (c ∷ pos) e = ground (arith, skip_line-length pos)

pub skip_loop-length :
    (fuel : ℕ) (pos : List ℕ) (line : ℕ) → length (skip_loop fuel pos line).0 ≤ length pos
unfolding skip_loop
skip_loop-length zero pos line = omega arith
skip_loop-length (suc fuel) pos line = ground (
  arith,
  skip_loop-length fuel (drop 1 pos) line,
  length-drop 1 pos,
  skip_loop-length fuel (skip_line pos) line,
  skip_line-length pos,
  skip_loop-length fuel (skip_block (drop 2 pos) line).0 (skip_block (drop 2 pos) line).1,
  skip_block-length (drop 2 pos) line,
  length-drop 2 pos,
)

skip_loop-gap :
    (fuel : ℕ) (pos : List ℕ) (line : ℕ)
    → length pos ≤ fuel
    → starts_gap (skip_loop fuel pos line).0 ≡ false
unfolding skip_loop starts_gap
skip_loop-gap zero [] line h = refl
skip_loop-gap zero (c ∷ pos) line h = absurd (omega arith)
skip_loop-gap (suc fuel) [] line h = refl
skip_loop-gap (suc fuel) (c ∷ pos) line h = ground (
  arith,
  skip_loop-gap fuel pos line,
  skip_loop-gap fuel (skip_line (c ∷ pos)) line,
  skip_line-shorter (c ∷ pos),
  skip_loop-gap fuel (skip_block (drop 1 pos) line).0 (skip_block (drop 1 pos) line).1,
  skip_block-length (drop 1 pos) line,
  length-drop 1 pos,
)

-- The rounds that `skip_whitespace_and_comments` is given are enough: no blank and no comment is left in
-- front.
skip_whitespace_and_comments-gap :
    (p : Lexer) → starts_gap (skip_whitespace_and_comments p).pos ≡ false
unfolding skip_whitespace_and_comments
skip_whitespace_and_comments-gap p = skip_loop-gap (length p.pos) p.pos p.line (omega arith)
