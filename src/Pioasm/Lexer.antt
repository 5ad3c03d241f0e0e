-- ===== src/Pioasm/Lexer.antt =====
-- rp2/pioasm/pioasm_lexer.c: the tokens of the PIO assembler. The source is the list of its bytes, with
-- the NUL left out, and `pos` is what is left of it. The union in a token is its 16 bytes.
pub mod Skip
pub mod Progress
use morelibc.Base.{
  ℕ, zero, suc, ◌+◌, ◌-◌, ◌*◌, ◌^◌, ◌%◌, Bool, true, false, ◌&&◌, ◌||◌, Option, none, some, List,
  [], ◌∷◌, ◌++◌, map, length, get_or, set, take, drop, replicate, leb, ltb, ◌==◌, if◌then◌else◌,
  u32, store, c_string, le32, text,
}
use morelibc.Pioasm.Error.{Error, err_syntax, err_invalid_directive}
use morelibc.Pioasm.Token.{
  Token, code, is, Entry, keywords, directives, tok_and, tok_assign, tok_colon, tok_comma,
  tok_divide, tok_eof, tok_float, tok_id, tok_int, tok_lbracket, tok_lessthan, tok_lparen,
  tok_minus, tok_multiply, tok_newline, tok_not, tok_not_equal, tok_or, tok_plus, tok_post_dec,
  tok_rbracket, tok_reverse, tok_rparen, tok_shl, tok_shr, tok_xor,
}

-- `source`, `pos`, `line` and `token` of `pioasm_parser_t`. (`source` is only stored.)
pub record Lexer : Type 0 where
  pub pos : List ℕ
  pub line : ℕ
  pub type : Token
  pub value : List ℕ

abbrev pub max_symbol_name : ℕ
max_symbol_name = 16

abbrev pub within : ℕ → ℕ → ℕ → Bool
within lo hi c = leb lo c && leb c hi

-- <ctype.h> in the C locale.
unfoldable pub is_digit : ℕ → Bool
is_digit c = within b'0' b'9' c

unfoldable pub is_xdigit : ℕ → Bool
is_xdigit c = within b'0' b'9' c || within b'a' b'f' c || within b'A' b'F' c

unfoldable pub is_alpha : ℕ → Bool
is_alpha c = within b'a' b'z' c || within b'A' b'Z' c

unfoldable pub to_lower : ℕ → ℕ
to_lower c = if within b'A' b'Z' c then c + 32 else c

-- `isalnum(c) || c == '_'`
unfoldable pub is_word : ℕ → Bool
is_word c = is_alpha c || is_digit c || c == b'_'

unfoldable pub same_text : List ℕ → List ℕ → Bool
same_text [] [] = true
same_text [] (y ∷ ys) = false
same_text (x ∷ xs) [] = false
same_text (x ∷ xs) (y ∷ ys) = x == y && same_text xs ys

-- `find_keyword` and `find_directive`: the loop, over their tables.
unfoldable pub find_entry : List Entry → List ℕ → Option Token
find_entry [] name = none
find_entry (entry ∷ entries) name =
    if same_text (map to_lower name) entry.name then some entry.token else find_entry entries name

unfoldable pub find_keyword : List ℕ → Option Token
find_keyword = find_entry keywords

unfoldable pub find_directive : List ℕ → Option Token
find_directive = find_entry directives

-- `pioasm_lexer_init`
unfoldable pub pioasm_lexer_init : List ℕ → Lexer
pioasm_lexer_init source = record {
  pos = source;
  line = 1;
  type = tok_eof;
  value = replicate max_symbol_name 0;
}

abbrev pub is_blank : ℕ → Bool
is_blank c = c == b' ' || c == b'\t' || c == b'\r'

-- `while (*pos && *pos != '\n') pos++`
unfoldable pub skip_line : List ℕ → List ℕ
skip_line [] = []
skip_line (c ∷ pos) = elim (c == b'\n') [ true ↦ c ∷ pos | false ↦ skip_line pos ]

-- The rest of a block comment, its end included; `line` has 16 bits.
unfoldable pub skip_block : List ℕ → ℕ → List ℕ × ℕ
skip_block [] line = ([], line)
skip_block (c ∷ pos) line = elim (c == b'*' && get_or pos 0 0 == b'/') [
  | true ↦ (drop 1 pos, line)
  | false ↦ skip_block pos (if c == b'\n' then (line + 1) % 2 ^ 16 else line)
]

-- The loop of `skip_whitespace_and_comments`. A round takes a byte at least.
unfoldable pub skip_loop : ℕ → List ℕ → ℕ → List ℕ × ℕ
skip_loop zero pos line = (pos, line)
skip_loop (suc fuel) pos line =
    let c = get_or pos 0 0 in
    let next = get_or pos 1 0 in
    elim (is_blank c) [
      | true ↦ skip_loop fuel (drop 1 pos) line
      | false ↦ elim (c == b';' || (c == b'/' && next == b'/')) [
        | true ↦ skip_loop fuel (skip_line pos) line
        | false ↦ elim (c == b'/' && next == b'*') [
          | true ↦ let (pos', line') = skip_block (drop 2 pos) line in skip_loop fuel pos' line'
          | false ↦ (pos, line)
        ]
      ]
    ]

unfoldable pub skip_whitespace_and_comments : Lexer → Lexer
skip_whitespace_and_comments p =
    let (pos, line) = skip_loop (length p.pos) p.pos p.line in record p { pos = pos; line = line }

unfoldable pub hex_digit : ℕ → ℕ
hex_digit c =
    if within b'0' b'9' c
    then c - b'0'
    else if within b'a' b'f' c
    then c - b'a' + 10
    else c - b'A' + 10

-- The loops of `scan_number`; `unsigned long` has 32 bits.
unfoldable pub scan_hex : ℕ → List ℕ → ℕ × List ℕ
scan_hex value [] = (value, [])
scan_hex value (c ∷ pos) = elim (is_xdigit c) [
  | true ↦ scan_hex (u32 (value * 16 + hex_digit c)) pos
  | false ↦ (value, c ∷ pos)
]

unfoldable pub scan_binary : ℕ → List ℕ → ℕ × List ℕ
scan_binary value [] = (value, [])
scan_binary value (c ∷ pos) = elim (c == b'0' || c == b'1') [
  | true ↦ scan_binary (u32 (value * 2 + (c - b'0'))) pos
  | false ↦ (value, c ∷ pos)
]

unfoldable pub scan_decimal : ℕ → List ℕ → ℕ × List ℕ
scan_decimal value [] = (value, [])
scan_decimal value (c ∷ pos) = elim (is_digit c) [
  | true ↦ scan_decimal (u32 (value * 10 + (c - b'0'))) pos
  | false ↦ (value, c ∷ pos)
]

-- The bytes before the first that fails the test, and the others.
unfoldable pub span : (ℕ → Bool) → List ℕ → List ℕ × List ℕ
span test [] = ([], [])
span test (c ∷ pos) = elim (test c) [
  | true ↦ let (word, rest) = span test pos in (c ∷ word, rest)
  | false ↦ ([], c ∷ pos)
]

abbrev pub set_token : Token → ℕ × List ℕ → Lexer → Lexer
set_token type (value, pos) p = record p {
  pos = pos;
  type = type;
  value = store p.value 0 (le32 value);
}

-- The decimal branch of `scan_number`. `float_bits` is the float, as its bits, that the code computes
-- from the integer part and the digits behind the point.
unfoldable pub scan_decimal_number : (ℕ → List ℕ → ℕ) → Lexer → Lexer
scan_decimal_number float_bits p =
    let (value, pos) = scan_decimal 0 p.pos in
    let (digits, rest) = span is_digit (drop 1 pos) in
    if get_or pos 0 0 == b'.' && is_digit (get_or pos 1 0)
    then set_token tok_float (float_bits value digits, rest) p
    else set_token tok_int (value, pos) p

unfoldable pub scan_number : (ℕ → List ℕ → ℕ) → Lexer → Lexer
scan_number float_bits p =
    let zero_first = get_or p.pos 0 0 == b'0' in
    let next = get_or p.pos 1 0 in
    if zero_first && (next == b'x' || next == b'X')
    then set_token tok_int (scan_hex 0 (drop 2 p.pos)) p
    else if zero_first && (next == b'b' || next == b'B')
    then set_token tok_int (scan_binary 0 (drop 2 p.pos)) p
    else scan_decimal_number float_bits p

-- `scan_word`: 16 bytes are kept, with a NUL behind them if there is room.
unfoldable pub scan_word : Lexer → Lexer
scan_word p =
    let (word, pos) = span is_word p.pos in
    let kept = take max_symbol_name word in
    record p {
      pos = pos;
      value = store p.value 0 (if ltb (length kept) max_symbol_name then kept ++ 0 ∷ [] else kept);
    }

-- The words "one" and "zero" are numbers.
unfoldable pub set_constant : Lexer → Lexer
set_constant p =
    let name = map to_lower (c_string p.value) in
    if same_text name (text "one")
    then record p { value = store p.value 0 (le32 1) }
    else if same_text name (text "zero")
    then record p { value = store p.value 0 (le32 0) }
    else p

unfoldable pub scan_identifier : Lexer → Lexer
scan_identifier p =
    let p' = scan_word p in
    elim (find_keyword (c_string p'.value)) [
      | some type ↦ set_constant (record p' { type = type })
      | none ↦ record p' { type = tok_id }
    ]

unfoldable pub scan_directive : Lexer → Option Error × Lexer
scan_directive p =
    let p' = scan_word (record p { pos = drop 1 p.pos }) in
    elim (find_directive (c_string p'.value)) [
      | some type ↦ (none, record p' { type = type })
      | none ↦ (some err_invalid_directive, p')
    ]

-- The operators of two characters, and "−−" of two minus signs of three bytes each, with their lengths.
abbrev pub long_operators : List (List ℕ × Token)
long_operators =
    (text "::", tok_reverse)
    ∷ (text "--", tok_post_dec)
    ∷ (0xe2 ∷ 0x88 ∷ 0x92 ∷ 0xe2 ∷ 0x88 ∷ 0x92 ∷ [], tok_post_dec)
    ∷ (text "!=", tok_not_equal)
    ∷ (text "<<", tok_shl)
    ∷ (text ">>", tok_shr)
    ∷ []

-- The operators of one character.
abbrev pub short_operators : List (List ℕ × Token)
short_operators =
    (text ",", tok_comma)
    ∷ (text ":", tok_colon)
    ∷ (text "(", tok_lparen)
    ∷ (text ")", tok_rparen)
    ∷ (text "[", tok_lbracket)
    ∷ (text "]", tok_rbracket)
    ∷ (text "+", tok_plus)
    ∷ (text "-", tok_minus)
    ∷ (text "*", tok_multiply)
    ∷ (text "/", tok_divide)
    ∷ (text "|", tok_or)
    ∷ (text "&", tok_and)
    ∷ (text "^", tok_xor)
    ∷ (text "!", tok_not)
    ∷ (text "~", tok_not)
    ∷ (text "=", tok_assign)
    ∷ (text "<", tok_lessthan)
    ∷ []

-- The first operator that the source goes on with.
unfoldable pub find_operator : List (List ℕ × Token) → List ℕ → Option (ℕ × Token)
find_operator [] pos = none
find_operator ((operator, type) ∷ operators) pos =
    if same_text operator (take (length operator) pos)
    then some (length operator, type)
    else find_operator operators pos

unfoldable pub scan_operator : Lexer → Option Error × Lexer
scan_operator p = elim (find_operator (long_operators ++ short_operators) p.pos) [
  | some (n, type) ↦ (none, record p { pos = drop n p.pos; type = type })
  | none ↦ (some err_syntax, p)
]

-- `pioasm_lexer_next` behind blanks, comments and the reset of the text.
unfoldable pub scan_token : (ℕ → List ℕ → ℕ) → Lexer → Option Error × Lexer
scan_token float_bits p =
    let c = get_or p.pos 0 0 in
    if c == 0
    then (none, record p { type = tok_eof })
    else if c == b'\n'
    then (none, record p { pos = drop 1 p.pos; type = tok_newline; line = (p.line + 1) % 2 ^ 16 })
    else if is_digit c
    then (none, scan_number float_bits p)
    else if c == b'.'
    then scan_directive p
    else if is_alpha c || c == b'_'
    then (none, scan_identifier p)
    else scan_operator p

-- `pioasm_lexer_next`: none for PIOASM_OK.
unfoldable pub pioasm_lexer_next : (ℕ → List ℕ → ℕ) → Lexer → Option Error × Lexer
pioasm_lexer_next float_bits p =
    let p' = skip_whitespace_and_comments p in
    scan_token float_bits (record p' { value = set p'.value 0 0 })
