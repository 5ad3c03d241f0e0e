-- ===== src/Pioasm/Target.antt =====
-- What the assembler takes from outside rp2/pioasm: the encoders of <hardware/pio_instructions.h> and the
-- state machine configuration of <hardware/pio.h>, both of the pico SDK, and float arithmetic.
use morelibc.Base.{ℕ, Bool, List}

-- `enum pio_instr_bits`
pub data Major : Type 0 where
  instr_jmp instr_wait instr_mov instr_irq : Major

-- `enum pio_src_dest`
pub data SrcDest : Type 0 where
  pio_pins pio_x pio_y pio_null pio_pindirs pio_exec_mov : SrcDest
  pio_status pio_pc pio_isr pio_osr pio_exec_out : SrcDest

-- The functions of the SDK, the values of its enumerators, and `PICO_PIO_VERSION`, which it sets.
-- `float_bits` is the float that the lexer computes, as its bits.
pub record Target : Type 0 where
  pub float_bits : ℕ → List ℕ → ℕ
  pub pico_pio_version : ℕ
  pub src_dest : SrcDest → ℕ
  pub encode_instr_and_args : Major → ℕ → ℕ → ℕ
  pub encode_instr_and_src_dest : Major → ℕ → ℕ → ℕ
  pub encode_delay : ℕ → ℕ
  pub encode_sideset : ℕ → ℕ → ℕ
  pub encode_sideset_opt : ℕ → ℕ → ℕ
  pub encode_in : SrcDest → ℕ → ℕ
  pub encode_out : SrcDest → ℕ → ℕ
  pub encode_push : Bool → Bool → ℕ
  pub encode_pull : Bool → Bool → ℕ
  pub encode_set : SrcDest → ℕ → ℕ
  pub encode_nop : ℕ

-- `enum pio_fifo_join`
pub data FifoJoin : Type 0 where
  join_none join_tx join_rx join_txget join_txput join_putget : FifoJoin

-- `enum pio_mov_status_type`
pub data StatusType : Type 0 where
  status_tx_lessthan status_rx_lessthan status_irq_set : StatusType

-- The calls of `sm_config_set_…`, by which the assembler builds the configuration.
pub data ConfigCall : Type 0 where
  set_sideset : ℕ → Bool → Bool → ConfigCall
  set_clkdiv : ℕ → ConfigCall
  set_clkdiv_int_frac8 : ℕ → ℕ → ConfigCall
  set_clkdiv_int_frac : ℕ → ℕ → ConfigCall
  set_fifo_join : FifoJoin → ConfigCall
  set_mov_status : StatusType → ℕ → ConfigCall
  set_in_shift : Bool → Bool → ℕ → ConfigCall
  set_in_pin_count : ℕ → ConfigCall
  set_out_shift : Bool → Bool → ℕ → ConfigCall
  set_out_pin_count : ℕ → ConfigCall
  set_set_pin_count : ℕ → ConfigCall
