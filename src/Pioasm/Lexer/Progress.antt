-- ===== src/Pioasm/Lexer/Progress.antt =====
-- How far each token of rp2/pioasm/pioasm_lexer.c moves `pos`.
use morelibc.Base.{
  c_string, ℕ, ◌+◌, ◌-◌, ◌*◌, ◌≤◌, ◌<◌, ◌≡◌, refl, ◌⊎◌, Bool, true, ◌||◌, none, some, List, [], ◌∷◌,
  ◌++◌, arith, length, drop, get_or, length-drop, ◌==◌, inl, inr, Option-cases, u32, All, ap,
}
use morelibc.Pioasm.Token.{Token, tok_eof}
use morelibc.Pioasm.Lexer.{
  Lexer, is_digit, is_alpha, is_word, find_keyword, skip_whitespace_and_comments, hex_digit,
  scan_hex, scan_binary, scan_decimal, span, scan_decimal_number, scan_number, scan_word,
  set_constant, scan_identifier, scan_directive, long_operators, short_operators, find_operator,
  scan_operator, scan_token, pioasm_lexer_next,
}
use morelibc.Pioasm.Lexer.Skip.{skip_loop-length}

scan_hex-length : (value : ℕ) (pos : List ℕ) → length (scan_hex value pos).1 ≤ length pos
unfolding scan_hex
scan_hex-length value [] = omega arith
scan_hex-length value (c ∷ pos) =
    ground (arith, scan_hex-length (u32 (value * 16 + hex_digit c)) pos)

scan_binary-length : (value : ℕ) (pos : List ℕ) → length (scan_binary value pos).1 ≤ length pos
unfolding scan_binary
scan_binary-length value [] = omega arith
scan_binary-length value (c ∷ pos) =
    ground (arith, scan_binary-length (u32 (value * 2 + (c - b'0'))) pos)

scan_decimal-length : (value : ℕ) (pos : List ℕ) → length (scan_decimal value pos).1 ≤ length pos
unfolding scan_decimal
scan_decimal-length value [] = omega arith
scan_decimal-length value (c ∷ pos) =
    ground (arith, scan_decimal-length (u32 (value * 10 + (c - b'0'))) pos)

span-length : (test : ℕ → Bool) (pos : List ℕ) → length (span test pos).1 ≤ length pos
unfolding span
span-length test [] = omega arith
span-length test (c ∷ pos) = ground (arith, span-length test pos)

-- A byte that passes the test is taken.
span-shorter :
    (test : ℕ → Bool) (c : ℕ) (pos : List ℕ)
    → test c ≡ true
    → length (span test (c ∷ pos)).1 ≤ length pos
unfolding span
span-shorter test c pos e = rw (e, span) (span-length test pos)

scan_decimal-shorter :
    (c : ℕ) (pos : List ℕ) → is_digit c ≡ true → length (scan_decimal 0 (c ∷ pos)).1 ≤ length pos
unfolding scan_decimal
scan_decimal-shorter c pos e =
    rw (e, scan_decimal) (scan_decimal-length (u32 (0 * 10 + (c - b'0'))) pos)

scan_number-shorter :
    (float_bits : ℕ → List ℕ → ℕ) (p : Lexer) (c : ℕ) (pos : List ℕ)
    → p.pos ≡ c ∷ pos
    → is_digit c ≡ true
    → length (scan_number float_bits p).pos < length p.pos
unfolding scan_number scan_decimal_number
scan_number-shorter float_bits p c pos e d = ground (
  arith,
  scan_decimal-shorter c pos d,
  scan_hex-length 0 (drop 1 pos),
  scan_binary-length 0 (drop 1 pos),
  length-drop 1 pos,
  span-length is_digit (drop 1 (scan_decimal 0 (c ∷ pos)).1),
  length-drop 1 (scan_decimal 0 (c ∷ pos)).1,
)

find_operator-length :
    (operators : List (List ℕ × Token)) (pos : List ℕ) (n : ℕ) (type : Token)
    → All (λ entry. 0 < length entry.0) operators
    → find_operator operators pos ≡ some (n, type)
    → 0 < n
unfolding find_operator
find_operator-length [] pos n type h e = absurd (cc e)
find_operator-length ((operator, t) ∷ operators) pos n type h e =
    ground (arith, h.0, find_operator-length operators pos n type h.1)

scan_word-length : (p : Lexer) → length (scan_word p).pos ≤ length p.pos
unfolding scan_word
scan_word-length p = span-length is_word p.pos

scan_word-shorter :
    (p : Lexer) (c : ℕ) (pos : List ℕ)
    → p.pos ≡ c ∷ pos
    → is_word c ≡ true
    → length (scan_word p).pos < length p.pos
unfolding scan_word
scan_word-shorter p c pos e w = rw e (omega (arith, span-shorter is_word c pos w))

set_constant-pos : (p : Lexer) → (set_constant p).pos ≡ p.pos
unfolding set_constant
set_constant-pos p = ground arith

scan_identifier-shorter :
    (p : Lexer) (c : ℕ) (pos : List ℕ)
    → p.pos ≡ c ∷ pos
    → is_word c ≡ true
    → length (scan_identifier p).pos < length p.pos
unfolding scan_identifier
scan_identifier-shorter p c pos e w =
    elim (Option-cases (find_keyword (c_string (scan_word p).value))) [
      | inl n ↦ rw (n, scan_identifier) (scan_word-shorter p c pos e w)
      | inr (type, n) ↦
          rw (n, scan_identifier)
            (omega (
              arith,
              ap length (set_constant-pos (record (scan_word p) { type = type })),
              scan_word-shorter p c pos e w,
            ))
    ]

scan_directive-shorter :
    (p : Lexer) (c : ℕ) (pos : List ℕ)
    → p.pos ≡ c ∷ pos
    → length (scan_directive p).1.pos < length p.pos
unfolding scan_directive
scan_directive-shorter p c pos e =
    ground (arith, scan_word-length (record p { pos = drop 1 p.pos }), length-drop 1 p.pos)

operators_nonempty : All (λ entry. 0 < length entry.0) (long_operators ++ short_operators)
operators_nonempty = omega arith

scan_operator-shorter :
    (p p' : Lexer) (c : ℕ) (pos : List ℕ)
    → p.pos ≡ c ∷ pos
    → scan_operator p ≡ (none, p')
    → length p'.pos < length p.pos
unfolding scan_operator
scan_operator-shorter p p' c pos e s =
    elim (Option-cases (find_operator (long_operators ++ short_operators) p.pos)) [
      | inl n ↦ ground (arith, n)
      | inr ((k, type), n) ↦ ground (
        arith,
        n,
        ap length e,
        length-drop k p.pos,
        find_operator-length (long_operators ++ short_operators) p.pos k type operators_nonempty n,
      )
    ]

is_word-start : (c : ℕ) → is_alpha c || c == b'_' ≡ true → is_word c ≡ true
unfolding is_word
is_word-start c h = ground arith

scan_token-shorter :
    (float_bits : ℕ → List ℕ → ℕ) (p p' : Lexer) (l : List ℕ)
    → p.pos ≡ l
    → scan_token float_bits p ≡ (none, p')
    → ((p'.type ≡ tok_eof) × (length p'.pos ≤ length p.pos)) ⊎ (length p'.pos < length p.pos)
unfolding scan_token
scan_token-shorter float_bits p p' [] e s = inl (ground (arith, ap length e))
scan_token-shorter float_bits p p' (c ∷ pos) e s = ground (
  arith,
  ap length e,
  length-drop 1 p.pos,
  scan_number-shorter float_bits p c pos e,
  scan_directive-shorter p c pos e,
  scan_identifier-shorter p c pos e,
  scan_operator-shorter p p' c pos e,
  is_word-start c,
  ap (λ l. get_or l 0 0) e,
)

-- A token is the end of the source, or it takes a byte at least.
pub pioasm_lexer_next-progress :
    (float_bits : ℕ → List ℕ → ℕ) (p p' : Lexer)
    → pioasm_lexer_next float_bits p ≡ (none, p')
    → (p'.type ≡ tok_eof) ⊎ (length p'.pos < length p.pos)
unfolding pioasm_lexer_next skip_whitespace_and_comments
pioasm_lexer_next-progress float_bits p p' s = ground (
  arith,
  scan_token-shorter float_bits _ p' _ refl s,
  skip_loop-length (length p.pos) p.pos p.line,
)

-- No token gives bytes back.
pub pioasm_lexer_next-length :
    (float_bits : ℕ → List ℕ → ℕ) (p p' : Lexer)
    → pioasm_lexer_next float_bits p ≡ (none, p')
    → length p'.pos ≤ length p.pos
unfolding pioasm_lexer_next skip_whitespace_and_comments
pioasm_lexer_next-length float_bits p p' s = ground (
  arith,
  scan_token-shorter float_bits _ p' _ refl s,
  skip_loop-length (length p.pos) p.pos p.line,
)
