-- ===== src/Pioasm/Assemble.antt =====
-- Labels, lines and whole programs: the end of rp2/pioasm/pioasm_parser.c and rp2/pioasm/pioasm.c.
use morelibc.Base.{
  ℕ, zero, suc, ◌-◌, Bool, true, false, none, some, List, [], ◌∷◌, length, ltb, if◌then◌else◌,
}
use morelibc.Pioasm.Error.{err_missing_program, err_syntax}
use morelibc.Pioasm.Token.{
  Token, is, tok_clock_div, tok_colon, tok_define, tok_dot_in, tok_dot_out, tok_dot_set, tok_eof,
  tok_fifo, tok_id, tok_in, tok_irq, tok_jmp, tok_lang_opt, tok_mov, tok_mov_status, tok_multiply,
  tok_newline, tok_nop, tok_origin, tok_out, tok_pio_version, tok_program, tok_public, tok_pull,
  tok_push, tok_set, tok_side_set, tok_wait, tok_word, tok_wrap, tok_wrap_target,
}
use morelibc.Pioasm.Lexer.{pioasm_lexer_init}
use morelibc.Pioasm.Target.{Target, set_in_shift, set_out_shift, set_clkdiv_int_frac}
use morelibc.Pioasm.State.{
  Parser, Outcome, done, failed, Action, pure, diverge, gets, modify, ◌>>=◌, ◌>>◌, set_error,
  advance, skip, check, expect,
}
use morelibc.Pioasm.Symbols.{add_symbol, resolve_forward_references}
use morelibc.Pioasm.Operands.{if_match, if_check}
use morelibc.Pioasm.Instructions.{parse_instruction}
use morelibc.Pioasm.Directives.{match_public, parse_name, parse_directive}

unfoldable pub is_instruction_token : Token → Bool
is_instruction_token tok_jmp = true
is_instruction_token tok_wait = true
is_instruction_token tok_in = true
is_instruction_token tok_out = true
is_instruction_token tok_push = true
is_instruction_token tok_pull = true
is_instruction_token tok_mov = true
is_instruction_token tok_irq = true
is_instruction_token tok_set = true
is_instruction_token tok_nop = true
is_instruction_token tok_word = true
is_instruction_token type = false

unfoldable pub is_directive_token : Token → Bool
is_directive_token tok_program = true
is_directive_token tok_define = true
is_directive_token tok_origin = true
is_directive_token tok_side_set = true
is_directive_token tok_wrap_target = true
is_directive_token tok_wrap = true
is_directive_token tok_pio_version = true
is_directive_token tok_clock_div = true
is_directive_token tok_fifo = true
is_directive_token tok_mov_status = true
is_directive_token tok_dot_in = true
is_directive_token tok_dot_out = true
is_directive_token tok_dot_set = true
is_directive_token tok_lang_opt = true
is_directive_token type = false

-- `if (p->wrap_target < 0) …; if (p->wrap < 0 && p->program.length > 0) …;`
unfoldable pub default_wrap : Parser → Parser
default_wrap p = record p {
  wrap_target = elim p.wrap_target [ some i ↦ some i | none ↦ some 0 ];
  wrap = elim p.wrap [
    | some i ↦ some i
    | none ↦ if ltb 0 (length p.instructions) then some (length p.instructions - 1) else none
  ];
}

-- `return p->error;`
unfoldable pub return_error : Action (Unit {0})
return_error p = (elim p.error [ none ↦ done tt | some (e, line) ↦ failed e ], p)

module _ (target : Target) where
  unfoldable pub parse_label : Action (Unit {0})
  parse_label = do
    has_program ← gets (λ p. p.has_program)
    if has_program
        then (do
          is_public ← match_public target
          name ← parse_name target
          expect target tok_colon
          address ← gets (λ p. length p.instructions)
          add_symbol name address true is_public)
        else set_error err_missing_program

  -- `while (match(p, TOK_NEWLINE)) {}`
  unfoldable pub skip_newlines : ℕ → Action (Unit {0})
  skip_newlines zero = diverge
  skip_newlines (suc fuel) = if_match target tok_newline (skip_newlines fuel) (pure tt)

  -- The lookahead of `parse_line`: is an identifier with a colon next, perhaps behind `public` or `*`? The
  -- lexer is set back, and an error of it is kept.
  unfoldable pub is_label_next : Action Bool
  is_label_next = do
    lexer ← gets (λ p. p.lexer)
    match_public target
    is_label ← if_check target tok_id (do skip target; check tok_colon) (pure false)
    modify (λ p. record p { lexer = lexer })
    pure is_label

  -- The lookahead, for a token that a label may start with.
  unfoldable pub starts_label : Action Bool
  starts_label = if_check target tok_id is_label_next (
      if_check target tok_public is_label_next
        (if_check target tok_multiply is_label_next (pure false)))

  module _ (fuel : ℕ) where
    -- The instruction at the current token, or `m`.
    unfoldable pub instruction_or : Action (Unit {0}) → Action (Unit {0})
    instruction_or m = do
      type ← gets (λ p. p.lexer.type)
      if is_instruction_token type then parse_instruction target fuel else m

    -- A line that is no directive.
    unfoldable pub parse_statement : Action (Unit {0})
    parse_statement = do
      is_label ← starts_label
      if is_label
          then (do parse_label; instruction_or (pure tt))
          else instruction_or (set_error err_syntax)

    unfoldable pub parse_line : Action (Unit {0})
    parse_line = do
      skip_newlines fuel
      type ← gets (λ p. p.lexer.type)
      if is type tok_eof
          then pure tt
          else if is_directive_token type
          then parse_directive target fuel
          else parse_statement

    -- The loop of `pioasm_parse`, of at most the given number of rounds.
    unfoldable pub parse_lines : ℕ → Action (Unit {0})
    parse_lines zero = diverge
    parse_lines (suc rounds) = do
      at_end ← check tok_eof
      error ← gets (λ p. p.error)
      if at_end then pure tt else elim error [
        | some first ↦ pure tt
        | none ↦ parse_line >> skip_newlines fuel >> parse_lines rounds
      ]

    unfoldable pub resolve_if_ok : Action (Unit {0})
    resolve_if_ok = do
      error ← gets (λ p. p.error)
      elim error [ none ↦ resolve_forward_references | some first ↦ pure tt ]

    unfoldable pub pioasm_parse : Action (Unit {0})
    pioasm_parse = do
      advance target
      parse_lines fuel
      resolve_if_ok
      modify default_wrap
      return_error

-- `parser_init` and `pioasm_lexer_init`, on the source without its NUL.
unfoldable pub parser_init : List ℕ → Parser
parser_init source = record {
  lexer = pioasm_lexer_init source;
  symbols = [];
  instructions = [];
  unresolved = [];
  name = [];
  origin = none;
  pio_version = 0;
  wrap_target = none;
  wrap = none;
  sm_config = set_clkdiv_int_frac 1 0 ∷ set_out_shift true false 0 ∷ set_in_shift true false 0 ∷ [];
  sideset_bits = 0;
  sideset_opt = false;
  has_program = false;
  error = none;
}

unfoldable pub pioasm_assemble : Target → ℕ → List ℕ → Outcome (Unit {0}) × Parser
pioasm_assemble target fuel source = pioasm_parse target fuel (parser_init source)
