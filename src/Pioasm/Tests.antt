-- ===== src/Pioasm/Tests.antt =====
-- The assembler on short programs, and uses of its theorems.
use morelibc.Base.{
  le32, bit_or, c_string, ◌++◌, ℕ, ◌+◌, ◌*◌, ◌^◌, ◌%◌, ◌-◌, Bool, true, false, none, some, ◌≡◌, ◌⊎◌,
  ◌<◌, refl, arith, length, All, List, [], ◌∷◌, text,
}
use morelibc.Pioasm.Error.{err_syntax}
use morelibc.Pioasm.Target.{
  Major, Target, SrcDest, instr_jmp, instr_wait, instr_mov, instr_irq, pio_pins, pio_x, pio_y,
  pio_null, pio_pindirs, pio_exec_mov, pio_status, pio_pc, pio_isr, pio_osr, pio_exec_out,
}
use morelibc.Pioasm.Token.{tok_eof, tok_id, tok_int}
use morelibc.Pioasm.Lexer.{
  Lexer, scan_number, scan_decimal_number, scan_decimal, scan_token, skip_loop, skip_line,
  skip_block, is_digit, is_alpha, scan_operator, find_operator, same_text, pioasm_lexer_init,
  pioasm_lexer_next, skip_whitespace_and_comments,
}
use morelibc.Pioasm.Lexer.Progress.{pioasm_lexer_next-progress}
use morelibc.Pioasm.State.{Parser, ◌>>=◌, gets, modify, pure, done, out_of_fuel}
use morelibc.Pioasm.Symbols.{
  add_unresolved, find_symbol, resolve_symbol, resolve_loop, resolved_value, new_symbol, add_symbol,
  resolve_forward_references,
}
use morelibc.Pioasm.Symbols.Table.{add_symbol-find_symbol}
use morelibc.Pioasm.Symbols.Resolve.{IsResolved, resolve_forward_references_lem}
use morelibc.Pioasm.Assemble.{parser_init, pioasm_assemble}
use morelibc.Pioasm.Expr.{parse_id_or_symbol, parse_expression}
use morelibc.Pioasm.Ends.{IsLexable, remaining, HasEnded}
use morelibc.Pioasm.Ends.Lexable.{IsLexable-empty, IsLexable-step}
use morelibc.Pioasm.Ends.Expressions.{parse_expression-HasEnded}
use morelibc.Pioasm.Placeholder.{parse_id_or_symbol-placeholder}
use morelibc.Pioasm.Operands.{sideset_width, encode_sideset_value, encode_delay_sideset}
use morelibc.Pioasm.Widths.{encode_delay_sideset_lem}
use morelibc.Pioasm.Hang.{pioasm_assemble-hangs}
use morelibc.Pioasm.Invariant.{IsBounded}
use morelibc.Pioasm.Invariant.Programs.{pioasm_assemble-IsBounded}

abbrev major_bits : Major → ℕ
major_bits instr_jmp = 0
major_bits instr_wait = 0x2000
major_bits instr_mov = 0xa000
major_bits instr_irq = 0xc000

abbrev number : SrcDest → ℕ
number pio_pins = 0
number pio_x = 1
number pio_y = 2
number pio_null = 3
number pio_pindirs = 4
number pio_exec_mov = 4
number pio_status = 5
number pio_pc = 5
number pio_isr = 6
number pio_osr = 7
number pio_exec_out = 7

abbrev flag : Bool → ℕ
flag true = 1
flag false = 0

abbrev chip : Target
chip = record {
  float_bits = λ value digits. value;
  pico_pio_version = 1;
  src_dest = number;
  encode_instr_and_args = λ bits arg1 arg2. major_bits bits + arg1 * 32 + arg2 % 32;
  encode_instr_and_src_dest = λ bits dest value. major_bits bits + dest * 32 + value % 32;
  encode_delay = λ cycles. cycles * 256;
  encode_sideset = λ bits value. value * 2 ^ (13 - bits);
  encode_sideset_opt = λ bits value. 0x1000 + value * 2 ^ (12 - bits);
  encode_in = λ src count. 0x4000 + number src * 32 + count % 32;
  encode_out = λ dest count. 0x6000 + number dest * 32 + count % 32;
  encode_push = λ if_full block. 0x8000 + flag if_full * 64 + flag block * 32;
  encode_pull = λ if_empty block. 0x8080 + flag if_empty * 64 + flag block * 32;
  encode_set = λ dest value. 0xe000 + number dest * 32 + value;
  encode_nop = 0xa042;
}

abbrev blink : List ℕ
blink =
    text
      ".program b\n.side_set 1\nloop: set x, 3 side 1 [2]\n jmp x-- loop side 0\n jmp end side 0\nend: nop side 1\n"

pioasm_assemble-IsBounded_example : IsBounded (pioasm_assemble chip 20 blink).1
pioasm_assemble-IsBounded_example = pioasm_assemble-IsBounded chip 20 blink

pioasm_assemble-hangs_example : (pioasm_assemble chip 20 (text "\n@")).0 ≡ out_of_fuel
unfolding pioasm_lexer_next scan_token skip_whitespace_and_comments skip_loop is_digit is_alpha
    scan_operator find_operator same_text
pioasm_assemble-hangs_example = pioasm_assemble-hangs chip 20 (text "@") err_syntax refl

abbrev commented : Lexer
commented = pioasm_lexer_init (text " /* loop */ // more\n  nop")

abbrev lexed_once : Lexer
lexed_once = (pioasm_lexer_next chip.float_bits commented).1

pioasm_lexer_next-progress_example :
    (lexed_once.type ≡ tok_eof) ⊎ (length lexed_once.pos < length commented.pos)
unfolding pioasm_lexer_next scan_token skip_whitespace_and_comments skip_loop pioasm_lexer_init
    skip_block skip_line
pioasm_lexer_next-progress_example =
    pioasm_lexer_next-progress chip.float_bits commented lexed_once refl

abbrev waiting : Parser
waiting = record (parser_init []) {
  symbols = new_symbol (text "a") 0 true false false ∷ new_symbol (text "b") 9 true false true ∷ [];
  instructions = 0x0060 ∷ 0xa042 ∷ [];
  unresolved = record { instruction_index = 0; symbol_index = 1; is_relative = false } ∷ [];
}

abbrev labelled : Parser
labelled = (add_symbol (text "a") 7 true false waiting).1

add_symbol-find_symbol_example :
    ((i : ℕ) × (find_symbol labelled.symbols (text "a")
        ≡ some (i, new_symbol (text "a") 7 true false true)))
    × (find_symbol labelled.symbols (text "b") ≡ find_symbol waiting.symbols (text "b"))
unfolding same_text add_symbol ◌>>=◌ gets find_symbol resolve_symbol modify
add_symbol-find_symbol_example =
    add_symbol-find_symbol (text "a") (text "b") 7 true false waiting labelled refl refl

abbrev resolved : Parser
resolved = (resolve_forward_references waiting).1

resolve_forward_references_lem_example : All (IsResolved waiting resolved) waiting.unresolved
unfolding resolve_forward_references ◌>>=◌ gets resolve_loop resolved_value modify pure
resolve_forward_references_lem_example =
    resolve_forward_references_lem waiting resolved (tt, tt) refl

-- The lexer at the second `end` of "jmp end\n jmp end\n end:".
abbrev at_label : Lexer
at_label = record { pos = text "\n end:"; line = 2; type = tok_id; value = text "end" ++ 0 ∷ [] }

parse_id_or_symbol-placeholder_example :
    (parse_id_or_symbol chip
      (record (add_unresolved 0 (text "end") false (parser_init [])).1 { lexer = at_label })).0
    ≡ done (0, none)
unfolding find_symbol c_string parser_init
parse_id_or_symbol-placeholder_example =
    parse_id_or_symbol-placeholder chip 0 (text "end") false (parser_init []) at_label refl
      (omega arith) (omega arith) refl

-- One bit of side-set leaves four for the delay.
abbrev one_bit : Parser
one_bit = record (parser_init []) { sideset_bits = 1 }

encode_delay_sideset_lem_example :
    (encode_delay_sideset chip 99 (some 1) one_bit).0 ≡ done (bit_or 0x0f00 0x1000)
unfolding sideset_width parser_init encode_sideset_value
encode_delay_sideset_lem_example = encode_delay_sideset_lem chip one_bit 99 (some 1) (omega arith)

-- The lexer at the "1" of "1 + 2", and behind the "+".
abbrev at_one : Lexer
at_one = record { pos = text " + 2"; line = 1; type = tok_int; value = le32 1 }

abbrev at_plus : Lexer
at_plus = (pioasm_lexer_next chip.float_bits at_one).1

at_one-IsLexable : IsLexable chip at_one
unfolding pioasm_lexer_next scan_token skip_whitespace_and_comments skip_loop is_digit is_alpha
    scan_operator find_operator same_text scan_number scan_decimal_number scan_decimal skip_line
at_one-IsLexable =
    IsLexable-step chip at_one refl
      (IsLexable-step chip at_plus refl (IsLexable-empty chip _ refl) (IsLexable-empty chip _ refl))
      (IsLexable-empty chip _ refl)

abbrev sum : Parser
sum = record (parser_init []) { lexer = at_one }

parse_expression-HasEnded_example : HasEnded (parse_expression chip 20 sum).0
unfolding remaining
parse_expression-HasEnded_example =
    parse_expression-HasEnded chip 20 sum at_one-IsLexable (omega arith)
