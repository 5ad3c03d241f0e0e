-- ===== src/Pioasm/Instructions.antt =====
-- The instructions of rp2/pioasm/pioasm_parser.c.
use morelibc.Base.{
  ℕ, ◌-◌, ◌*◌, ◌^◌, Bool, true, false, ◌||◌, Option, none, some, List, length, ltb, if◌then◌else◌,
  bit_and, bit_or,
}
use morelibc.Pioasm.Error.{err_invalid_instruction, err_missing_program, err_value_out_of_range}
use morelibc.Pioasm.Token.{
  Token, tok_block, tok_clear, tok_ifempty, tok_iffull, tok_in, tok_int, tok_irq, tok_jmp, tok_mov,
  tok_noblock, tok_nop, tok_nowait, tok_out, tok_pull, tok_push, tok_set, tok_wait, tok_word,
}
use morelibc.Pioasm.Target.{Target, instr_jmp, instr_wait, instr_mov, instr_irq}
use morelibc.Pioasm.State.{
  Action, pure, gets, ◌>>=◌, ◌>>◌, set_error, skip, match, skip_optional_comma, uint_value,
  add_instruction,
}
use morelibc.Pioasm.Symbols.{add_unresolved}
use morelibc.Pioasm.Expr.{parse_value, parse_value_or_symbol}
use morelibc.Pioasm.Operands.{
  if_match, if_check, if_at_most, parse_delay_sideset, parse_jmp_condition, parse_irq_type,
  parse_rel, parse_wait_source, parse_in_out_target, parse_mov_target, parse_mov_op,
  parse_set_target, uint_polarity,
}

-- The end of `parse_jmp`: the forward reference of the instruction that was just added.
unfoldable pub refer : Option (List ℕ) → Action (Unit {0})
refer none = pure tt
refer (some name) = do
  index ← gets (λ p. length p.instructions - 1)
  add_unresolved index name false

module _ (target : Target) (fuel : ℕ) where
  -- The end of most instructions: delay and side-set are joined to `instr`.
  unfoldable pub finish : ℕ → Action (Unit {0})
  finish instr = do
    delay_sideset ← parse_delay_sideset target fuel
    add_instruction (bit_or instr delay_sideset)

  unfoldable pub parse_jmp : Action (Unit {0})
  parse_jmp = do
    cond ← parse_jmp_condition target
    skip_optional_comma target
    (address, symbol_name) ← parse_value_or_symbol target fuel
    finish (target.encode_instr_and_args instr_jmp cond address)
    refer symbol_name

  unfoldable pub parse_polarity : Action ℕ
  parse_polarity =
      if_check target tok_int (do value ← uint_value; skip target; pure (uint_polarity value))
        (pure 4)

  unfoldable pub parse_wait : Action (Unit {0})
  parse_wait = do
    polarity ← parse_polarity
    (src, index) ← parse_wait_source target fuel
    finish (target.encode_instr_and_args instr_wait (bit_or polarity src) index)

  -- `parse_value` for a number of bits.
  unfoldable pub parse_bit_count : Action ℕ
  parse_bit_count = do
    bit_count ← parse_value target fuel
    if ltb bit_count 1 || ltb 32 bit_count then set_error err_value_out_of_range else pure bit_count

  unfoldable pub parse_in : Action (Unit {0})
  parse_in = do
    src ← parse_in_out_target target true
    skip_optional_comma target
    bit_count ← parse_bit_count
    finish (target.encode_in src bit_count)

  unfoldable pub parse_out : Action (Unit {0})
  parse_out = do
    dest ← parse_in_out_target target false
    skip_optional_comma target
    bit_count ← parse_bit_count
    finish (target.encode_out dest bit_count)

  unfoldable pub parse_blocking : Action Bool
  parse_blocking =
      if_match target tok_block (pure true) (if_match target tok_noblock (pure false) (pure true))

  unfoldable pub parse_push : Action (Unit {0})
  parse_push = do
    if_full ← match target tok_iffull
    blocking ← parse_blocking
    finish (target.encode_push if_full blocking)

  unfoldable pub parse_pull : Action (Unit {0})
  parse_pull = do
    if_empty ← match target tok_ifempty
    blocking ← parse_blocking
    finish (target.encode_pull if_empty blocking)

  unfoldable pub parse_mov : Action (Unit {0})
  parse_mov = do
    dest ← parse_mov_target target false
    skip_optional_comma target
    op ← parse_mov_op target
    src ← parse_mov_target target true
    finish (
        target.encode_instr_and_src_dest instr_mov dest
          (bit_or (bit_and op 3 * 2 ^ 3) (bit_and src 7)))

  -- The values of `pioasm_irq_t`.
  unfoldable pub parse_irq_mode : Action ℕ
  parse_irq_mode = if_match target tok_clear (pure 2) (
      if_match target tok_wait (pure 1)
        (if_match target tok_nowait (pure 0) (if_match target tok_set (pure 0) (pure 0))))

  unfoldable pub parse_irq : Action (Unit {0})
  parse_irq = do
    irq_type ← parse_irq_type target
    mode ← parse_irq_mode
    irq_num ← parse_value target fuel
    if_at_most target 7 irq_num (do
      irq_type' ← parse_rel target irq_type
      finish (target.encode_instr_and_args instr_irq mode (bit_or (irq_type' * 2 ^ 3) irq_num)))

  unfoldable pub parse_set : Action (Unit {0})
  parse_set = do
    dest ← parse_set_target target
    skip_optional_comma target
    value ← parse_value target fuel
    if_at_most target 31 value (finish (target.encode_set dest value))

  unfoldable pub parse_nop : Action (Unit {0})
  parse_nop = finish target.encode_nop

  unfoldable pub parse_word : Action (Unit {0})
  parse_word = do
    value ← parse_value target fuel
    if_at_most target 0xffff value (add_instruction value)

  -- The switch of `parse_instruction`.
  unfoldable pub dispatch_instruction : Token → Action (Unit {0})
  dispatch_instruction tok_jmp = do skip target; parse_jmp
  dispatch_instruction tok_wait = do skip target; parse_wait
  dispatch_instruction tok_in = do skip target; parse_in
  dispatch_instruction tok_out = do skip target; parse_out
  dispatch_instruction tok_push = do skip target; parse_push
  dispatch_instruction tok_pull = do skip target; parse_pull
  dispatch_instruction tok_mov = do skip target; parse_mov
  dispatch_instruction tok_irq = do skip target; parse_irq
  dispatch_instruction tok_set = do skip target; parse_set
  dispatch_instruction tok_nop = do skip target; parse_nop
  dispatch_instruction tok_word = do skip target; parse_word
  dispatch_instruction type = set_error err_invalid_instruction

  unfoldable pub parse_instruction : Action (Unit {0})
  parse_instruction = do
    has_program ← gets (λ p. p.has_program)
    type ← gets (λ p. p.lexer.type)
    if has_program then dispatch_instruction type else set_error err_missing_program
