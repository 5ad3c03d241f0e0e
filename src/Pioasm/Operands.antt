-- ===== src/Pioasm/Operands.antt =====
-- Operands of instructions in rp2/pioasm/pioasm_parser.c: delay and side-set, conditions, sources and
-- destinations.
use morelibc.Base.{
  ℕ, zero, suc, ◌+◌, ◌*◌, ◌^◌, Bool, ◌&&◌, Option, none, some, ltb, ◌==◌, if◌then◌else◌, sub_u32,
  bit_or,
}
use morelibc.Pioasm.Error.{
  Error, err_delay_too_large, err_invalid_condition, err_invalid_operand, err_pio_version,
  err_sideset_too_wide, err_value_out_of_range,
}
use morelibc.Pioasm.Token.{
  Token, tok_exec, tok_gpio, tok_irq, tok_isr, tok_jmppin, tok_lbracket, tok_next, tok_not,
  tok_not_equal, tok_null, tok_osr, tok_osre, tok_pc, tok_pin, tok_pindirs, tok_pins, tok_plus,
  tok_post_dec, tok_prev, tok_rbracket, tok_rel, tok_reverse, tok_side, tok_status, tok_x, tok_y,
}
use morelibc.Pioasm.Target.{
  Target, SrcDest, pio_pins, pio_x, pio_y, pio_null, pio_pindirs, pio_exec_mov, pio_status, pio_pc,
  pio_isr, pio_osr, pio_exec_out,
}
use morelibc.Pioasm.State.{
  Parser, Action, pure, diverge, gets, modify, ◌>>=◌, ◌>>◌, note_error, set_error, check, expect,
  match, skip_optional_comma,
}
use morelibc.Pioasm.Expr.{shl, parse_value, parse_expression}

-- `sideset_bits` of `encode_delay_sideset`, with the bit that enables an optional side-set.
unfoldable pub sideset_width : Parser → ℕ
sideset_width p =
    if p.sideset_opt && ltb 0 p.sideset_bits then p.sideset_bits + 1 else p.sideset_bits

unfoldable pub delay_max : Parser → ℕ
delay_max p = sub_u32 (shl 1 (sub_u32 5 (sideset_width p))) 1

unfoldable pub sideset_max : Parser → ℕ
sideset_max p = if ltb 0 (sideset_width p) then sub_u32 (shl 1 p.sideset_bits) 1 else 0

-- `if (value > max) { set_error(p, e); value = max; }`: the function goes on.
unfoldable pub limit : Error → ℕ → ℕ → Action ℕ
limit e max value = if ltb max value then (do modify (note_error e); pure max) else pure value

-- `polarity` of `parse_wait`.
abbrev pub uint_polarity : ℕ → ℕ
uint_polarity value = if value == 0 then 0 else 4

module _ (target : Target) where
  unfoldable pub encode_sideset_value : ℕ → Parser → ℕ
  encode_sideset_value sideset p =
      if p.sideset_opt
      then target.encode_sideset_opt p.sideset_bits sideset
      else if ltb 0 p.sideset_bits
      then target.encode_sideset p.sideset_bits sideset
      else 0

  -- `sideset` is none if `!has_sideset`.
  unfoldable pub encode_delay_sideset : ℕ → Option ℕ → Action ℕ
  encode_delay_sideset delay sideset = do
    delay_limit ← gets delay_max
    sideset_limit ← gets sideset_max
    delay' ← limit err_delay_too_large delay_limit delay
    elim sideset [
      | none ↦ pure (target.encode_delay delay')
      | some value ↦ limit err_sideset_too_wide sideset_limit value >>= λ value'.
          gets (encode_sideset_value value') >>= λ bits.
          pure (bit_or (target.encode_delay delay') bits)
    ]

  -- `if (match(p, type)) …; else …`
  unfoldable pub if_match : {A : Type 0} → Token → Action A → Action A → Action A
  if_match type m n = do b ← match target type; if b then m else n

  -- `if (check(p, type)) …; else …`
  unfoldable pub if_check : {A : Type 0} → Token → Action A → Action A → Action A
  if_check type m n = do b ← check type; if b then m else n

  -- `if (p->program.pio_version < 1) return set_error(p, PIOASM_ERR_PIO_VERSION);`
  unfoldable pub if_version : {A : Type 0} → Action A → Action A
  if_version m = do
    version ← gets (λ p. p.pio_version)
    if ltb version 1 then set_error err_pio_version else m

  unfoldable pub if_at_most : {A : Type 0} → ℕ → ℕ → Action A → Action A
  if_at_most max value m = if ltb max value then set_error err_value_out_of_range else m

  -- The loop of `parse_delay_sideset`, and the encoding behind it.
  unfoldable pub delay_sideset_loop : ℕ → ℕ → Option ℕ → Action ℕ
  delay_sideset_loop zero delay sideset = diverge
  delay_sideset_loop (suc fuel) delay sideset =
      if_match tok_side
        (do value ← parse_value target fuel; delay_sideset_loop fuel delay (some value))
        (if_match tok_lbracket
          (do
            delay' ← parse_expression target fuel
            expect target tok_rbracket
            delay_sideset_loop fuel delay' sideset)
          (encode_delay_sideset delay sideset))

  unfoldable pub parse_delay_sideset : ℕ → Action ℕ
  parse_delay_sideset fuel = delay_sideset_loop fuel 0 none

  -- The values of `pioasm_condition_t`.
  unfoldable pub parse_jmp_condition : Action ℕ
  parse_jmp_condition =
      if_match tok_not
        (if_match tok_x (pure 1)
          (if_match tok_y (pure 3) (if_match tok_osre (pure 7) (set_error err_invalid_condition))))
        (if_match tok_x
          (if_match tok_post_dec (pure 2) (
            if_match tok_not_equal (if_match tok_y (pure 5) (set_error err_invalid_condition))
              (set_error err_invalid_condition)))
          (if_match tok_y (if_match tok_post_dec (pure 4) (set_error err_invalid_condition))
            (if_match tok_pin (pure 6) (pure 0))))

  -- The type of an interrupt that `prev` or `next` gives: 0 for neither.
  unfoldable pub parse_irq_type : Action ℕ
  parse_irq_type =
      if_match tok_prev (if_version (pure 1)) (if_match tok_next (if_version (pure 3)) (pure 0))

  -- `if (irq_type == 0 && match(p, TOK_REL)) { irq_type = 2; }`
  unfoldable pub parse_rel : ℕ → Action ℕ
  parse_rel irq_type = if irq_type == 0 then if_match tok_rel (pure 2) (pure 0) else pure irq_type

  -- The source, of `pioasm_wait_src_t`, and the index.
  unfoldable pub parse_wait_source : ℕ → Action (ℕ × ℕ)
  parse_wait_source fuel =
      if_match tok_gpio
        (do skip_optional_comma target; index ← parse_value target fuel; pure (0, index))
        (if_match tok_pin
          (do skip_optional_comma target; index ← parse_value target fuel; pure (1, index))
          (if_match tok_jmppin
            (if_version (
              if_match tok_plus (do index ← parse_value target fuel; pure (3, index))
                (pure (3, 0))))
            (if_match tok_irq
              (do
                irq_type ← parse_irq_type
                skip_optional_comma target
                index ← parse_value target fuel
                if_at_most 7 index
                    (do irq_type' ← parse_rel irq_type; pure (2, bit_or index (irq_type' * 2 ^ 3))))
              (set_error err_invalid_operand))))

  unfoldable pub parse_in_out_target : Bool → Action SrcDest
  parse_in_out_target is_in = if_match tok_pins (pure pio_pins) (
      if_match tok_x (pure pio_x) (
        if_match tok_y (pure pio_y) (
          if_match tok_null (pure pio_null) (
            if_match tok_pindirs (pure pio_pindirs) (
              if_match tok_isr (pure pio_isr) (
                if is_in
                then if_match tok_osr (pure pio_osr)
                    (if_match tok_status (pure pio_status) (set_error err_invalid_operand))
                else if_match tok_pc (pure pio_pc)
                    (if_match tok_exec (pure pio_exec_out) (set_error err_invalid_operand))))))))

  unfoldable pub parse_mov_target : Bool → Action ℕ
  parse_mov_target is_src = if_match tok_pins (pure (target.src_dest pio_pins)) (
      if_match tok_x (pure (target.src_dest pio_x)) (
        if_match tok_y (pure (target.src_dest pio_y)) (
          if_match tok_isr (pure (target.src_dest pio_isr)) (
            if_match tok_osr (pure (target.src_dest pio_osr)) (
              if is_src
              then if_match tok_null (pure (target.src_dest pio_null)) (
                  if_match tok_status (pure (target.src_dest pio_status))
                    (set_error err_invalid_operand))
              else if_match tok_exec (pure (target.src_dest pio_exec_mov)) (
                  if_match tok_pc (pure (target.src_dest pio_pc)) (
                    if_match tok_pindirs (if_version (pure (target.src_dest pio_pindirs)))
                      (set_error err_invalid_operand))))))))

  -- The values of `pioasm_mov_op_t`.
  unfoldable pub parse_mov_op : Action ℕ
  parse_mov_op = if_match tok_not (pure 1) (if_match tok_reverse (pure 2) (pure 0))

  unfoldable pub parse_set_target : Action SrcDest
  parse_set_target = if_match tok_pins (pure pio_pins) (
      if_match tok_x (pure pio_x) (
        if_match tok_y (pure pio_y)
          (if_match tok_pindirs (pure pio_pindirs) (set_error err_invalid_operand))))
