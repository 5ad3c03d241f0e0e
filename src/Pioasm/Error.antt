-- ===== src/Pioasm/Error.antt =====
-- The error codes of the PIO assembler, `pioasm_error_t` of rp2/pioasm/pioasm.h; PIOASM_OK is no error.
pub data Error : Type 0 where
  err_syntax err_undefined_symbol err_duplicate_symbol err_too_many_instructions : Error
  err_too_many_symbols err_invalid_value err_value_out_of_range err_invalid_instruction : Error
  err_invalid_operand err_invalid_condition err_invalid_directive err_missing_program : Error
  err_circular_reference err_pio_version err_sideset_too_wide err_delay_too_large : Error
