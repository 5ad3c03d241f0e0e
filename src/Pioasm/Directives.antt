-- ===== src/Pioasm/Directives.antt =====
-- The directives of rp2/pioasm/pioasm_parser.c.
use morelibc.Base.{
  ℕ, zero, suc, ◌-◌, ◌*◌, ◌%◌, ◌^◌, Bool, true, false, ◌&&◌, ◌||◌, Option, none, some, List, ◌∷◌,
  length, leb, ltb, ◌==◌, if◌then◌else◌, bit_and, bit_or,
}
use morelibc.Pioasm.Error.{
  Error, err_invalid_directive, err_pio_version, err_syntax, err_value_out_of_range,
}
use morelibc.Pioasm.Token.{
  Token, tok_auto, tok_clock_div, tok_define, tok_dot_in, tok_dot_out, tok_dot_set, tok_fifo,
  tok_float, tok_id, tok_int, tok_irq, tok_lang_opt, tok_left, tok_lessthan, tok_lparen, tok_manual,
  tok_mov_status, tok_multiply, tok_next, tok_optional, tok_origin, tok_pindirs, tok_pio_version,
  tok_prev, tok_program, tok_public, tok_putget, tok_right, tok_rp2040, tok_rp2350, tok_rx,
  tok_rxfifo, tok_set, tok_side_set, tok_tx, tok_txfifo, tok_txget, tok_txput, tok_txrx, tok_word,
  tok_wrap, tok_wrap_target,
}
use morelibc.Pioasm.Lexer.{skip_line, pioasm_lexer_next}
use morelibc.Pioasm.Target.{
  Target, ConfigCall, FifoJoin, StatusType, join_none, join_tx, join_rx, join_txget, join_txput,
  join_putget, status_tx_lessthan, status_rx_lessthan, status_irq_set, set_sideset, set_clkdiv,
  set_clkdiv_int_frac8, set_fifo_join, set_mov_status, set_in_shift, set_in_pin_count,
  set_out_shift, set_out_pin_count, set_set_pin_count,
}
use morelibc.Pioasm.State.{
  Outcome, done, failed, Action, pure, diverge, gets, modify, ◌>>=◌, ◌>>◌, set_error, skip, check,
  match, uint_value, str_value, max_instructions,
}
use morelibc.Pioasm.Symbols.{add_symbol}
use morelibc.Pioasm.Expr.{parse_value, parse_expression}
use morelibc.Pioasm.Operands.{if_match, if_check, if_version, if_at_most, sideset_width}
use morelibc.Pioasm.Instructions.{parse_instruction}

unfoldable pub configure : ConfigCall → Action (Unit {0})
configure call = modify (λ p. record p { sm_config = call ∷ p.sm_config })

-- `return err;` without `set_error`.
unfoldable pub returned : Option Error → Outcome (Unit {0})
returned none = done tt
returned (some e) = failed e

unfoldable pub parse_wrap_target_directive : Action (Unit {0})
parse_wrap_target_directive = modify (λ p. record p { wrap_target = some (length p.instructions) })

unfoldable pub parse_wrap_directive : Action (Unit {0})
parse_wrap_directive = modify (λ p. record p { wrap = some (length p.instructions - 1) })

module _ (target : Target) where
  unfoldable pub parse_program_directive : Action (Unit {0})
  parse_program_directive =
      if_check target tok_id
        (do
          name ← str_value
          modify (λ p. record p { name = name })
          skip target
          modify (λ p. record p { has_program = true }))
        (set_error err_syntax)

  unfoldable pub parse_lang_opt_directive : Action (Unit {0})
  unfolding returned
  parse_lang_opt_directive p =
      let (e, lexer) =
        pioasm_lexer_next target.float_bits (record p.lexer { pos = skip_line p.lexer.pos }) in
      (returned e, record p { lexer = lexer })

  -- `match(p, TOK_PUBLIC) || match(p, TOK_MULTIPLY)`
  unfoldable pub match_public : Action Bool
  match_public = if_match target tok_public (pure true) (match target tok_multiply)

  -- An identifier and what stands behind it.
  unfoldable pub parse_name : Action (List ℕ)
  parse_name =
      if_check target tok_id (do name ← str_value; skip target; pure name) (set_error err_syntax)

  -- `#if PICO_PIO_VERSION > 0`, else an error.
  unfoldable pub if_supported : {A : Type 0} → Action A → Action A
  if_supported m = if ltb 0 target.pico_pio_version then m else set_error err_pio_version

  unfoldable pub newer_join : FifoJoin → Action FifoJoin
  newer_join join = if_version target (if_supported (pure join))

  unfoldable pub parse_fifo_join : Action FifoJoin
  parse_fifo_join = if_match target tok_txrx (pure join_none) (
      if_match target tok_tx (pure join_tx) (
        if_match target tok_rx (pure join_rx) (
          if_match target tok_txget (newer_join join_txget) (
            if_match target tok_txput (newer_join join_txput)
              (if_match target tok_putget (newer_join join_putget) (set_error err_syntax))))))

  unfoldable pub parse_fifo_directive : Action (Unit {0})
  parse_fifo_directive = do fifo_join ← parse_fifo_join; configure (set_fifo_join fifo_join)

  unfoldable pub parse_direction : Action Bool
  parse_direction =
      if_match target tok_left (pure false) (if_match target tok_right (pure true) (pure true))

  unfoldable pub parse_autopush : Action Bool
  parse_autopush =
      if_match target tok_auto (pure true) (if_match target tok_manual (pure false) (pure false))

  -- The loop of `parse_sideset_directive`; the result is `sideset_pindirs`.
  unfoldable pub sideset_loop : ℕ → Bool → Action Bool
  sideset_loop zero sideset_pindirs = diverge
  sideset_loop (suc fuel) sideset_pindirs = do
    is_optional ← check tok_optional
    is_pindirs ← check tok_pindirs
    if is_optional || is_pindirs
        then (do
          if_match target tok_optional (modify (λ p. record p { sideset_opt = true })) (pure tt)
          pindirs ← if_match target tok_pindirs (pure true) (pure sideset_pindirs)
          sideset_loop fuel pindirs)
        else pure sideset_pindirs

  module _ (fuel : ℕ) where
    unfoldable pub parse_define_directive : Action (Unit {0})
    parse_define_directive = do
      is_public ← match_public
      name ← parse_name
      value ← parse_expression target fuel
      add_symbol name value false is_public

    unfoldable pub parse_origin_directive : Action (Unit {0})
    parse_origin_directive = do
      value ← parse_value target fuel
      if leb max_instructions value
          then set_error err_value_out_of_range
          else modify (λ p. record p { origin = some value })

    unfoldable pub parse_sideset_directive : Action (Unit {0})
    parse_sideset_directive = do
      bits ← parse_value target fuel
      if_at_most target 5 bits (do
        modify (λ p. record p { sideset_bits = bits; sideset_opt = false })
        sideset_pindirs ← sideset_loop fuel false
        width ← gets sideset_width
        opt ← gets (λ p. p.sideset_opt)
        configure (set_sideset width opt sideset_pindirs))

    unfoldable pub parse_pio_version : Action ℕ
    parse_pio_version =
        if_match target tok_rp2040 (pure 0)
          (if_match target tok_rp2350 (pure 1) (parse_value target fuel))

    unfoldable pub parse_pio_version_directive : Action (Unit {0})
    parse_pio_version_directive = do
      version ← parse_pio_version
      modify (λ p. record p { pio_version = version % 2 ^ 8 })

    unfoldable pub parse_clock_div_directive : Action (Unit {0})
    parse_clock_div_directive =
        if_check target tok_float (do fval ← uint_value; skip target; configure (set_clkdiv fval))
          (do val ← parse_value target fuel; configure (set_clkdiv_int_frac8 val 0))

    -- `irq_param` of `parse_mov_status_directive`.
    unfoldable pub parse_irq_param : Action ℕ
    parse_irq_param = if_match target tok_next (pure 2) (if_match target tok_prev (pure 1) (pure 0))

    -- A level behind "<".
    unfoldable pub parse_level : StatusType → Action (StatusType × ℕ)
    parse_level status_type =
        if_match target tok_lessthan
          (do status_n ← parse_value target fuel; pure (status_type, status_n))
          (set_error err_syntax)

    unfoldable pub parse_status_irq : Action (StatusType × ℕ)
    parse_status_irq = do
      irq_param ← parse_irq_param
      if_match target tok_set
          (do
            status_n ← parse_value target fuel
            pure (status_irq_set, bit_or (irq_param * 2 ^ 3) (bit_and status_n 7)))
          (set_error err_syntax)

    unfoldable pub parse_mov_status_directive : Action (Unit {0})
    parse_mov_status_directive = do
      (status_type, status_n) ← if_match target tok_txfifo (parse_level status_tx_lessthan) (
          if_match target tok_rxfifo (parse_level status_rx_lessthan)
            (if_match target tok_irq (if_supported parse_status_irq) (set_error err_syntax)))
      configure (set_mov_status status_type status_n)

    unfoldable pub parse_threshold : Action ℕ
    parse_threshold = if_check target tok_int (parse_value target fuel) (
        if_check target tok_id (parse_value target fuel)
          (if_check target tok_lparen (parse_value target fuel) (pure 32)))

    unfoldable pub parse_dot_in_directive : Action (Unit {0})
    parse_dot_in_directive = do
      count ← parse_value target fuel
      shift_right ← parse_direction
      autopush ← parse_autopush
      threshold ← parse_threshold
      configure (set_in_shift shift_right autopush (bit_and threshold 0x1f))
      version ← gets (λ p. p.pio_version)
      if version == 0 && ltb threshold 32
          then set_error err_value_out_of_range
          else if ltb 0 target.pico_pio_version
          then configure (set_in_pin_count count)
          else pure tt

    unfoldable pub parse_dot_out_directive : Action (Unit {0})
    parse_dot_out_directive = do
      count ← parse_value target fuel
      shift_right ← parse_direction
      autopull ← parse_autopush
      threshold ← parse_threshold
      configure (set_out_shift shift_right autopull (bit_and threshold 0x1f))
      configure (set_out_pin_count count)

    unfoldable pub parse_dot_set_directive : Action (Unit {0})
    parse_dot_set_directive = do
      count ← parse_value target fuel
      if_at_most target 5 count (configure (set_set_pin_count count))

    -- The switch of `parse_directive`.
    unfoldable pub dispatch_directive : Token → Action (Unit {0})
    dispatch_directive tok_program = do skip target; parse_program_directive
    dispatch_directive tok_define = do skip target; parse_define_directive
    dispatch_directive tok_origin = do skip target; parse_origin_directive
    dispatch_directive tok_side_set = do skip target; parse_sideset_directive
    dispatch_directive tok_wrap_target = do skip target; parse_wrap_target_directive
    dispatch_directive tok_wrap = do skip target; parse_wrap_directive
    dispatch_directive tok_pio_version = do skip target; parse_pio_version_directive
    dispatch_directive tok_clock_div = do skip target; parse_clock_div_directive
    dispatch_directive tok_fifo = do skip target; parse_fifo_directive
    dispatch_directive tok_mov_status = do skip target; parse_mov_status_directive
    dispatch_directive tok_dot_in = do skip target; parse_dot_in_directive
    dispatch_directive tok_dot_out = do skip target; parse_dot_out_directive
    dispatch_directive tok_dot_set = do skip target; parse_dot_set_directive
    dispatch_directive tok_lang_opt = do skip target; parse_lang_opt_directive
    dispatch_directive tok_word = parse_instruction target fuel
    dispatch_directive type = set_error err_invalid_directive

    unfoldable pub parse_directive : Action (Unit {0})
    parse_directive = do type ← gets (λ p. p.lexer.type); dispatch_directive type
