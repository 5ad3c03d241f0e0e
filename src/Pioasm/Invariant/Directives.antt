-- ===== src/Pioasm/Invariant/Directives.antt =====
-- Bounds of the parser of rp2/pioasm/pioasm_parser.c: the directives.
use morelibc.Base.{ℕ, ◌%◌, ◌^◌, ◌≡◌, false, some, arith, ltb, leb}
use morelibc.Pioasm.Error.{err_value_out_of_range}
use morelibc.Pioasm.Token.{Token, tok_eof}
use morelibc.Pioasm.Target.{Target, StatusType}
use morelibc.Pioasm.State.{modify}
use morelibc.Pioasm.State.Keeps.{Keeps, Keeps-bind, Keeps-modify, if-keeps}
use morelibc.Pioasm.Operands.{if_at_most}
use morelibc.Pioasm.Directives.{
  parse_define_directive, parse_origin_directive, parse_sideset_directive, parse_pio_version,
  parse_pio_version_directive, parse_clock_div_directive, parse_irq_param, parse_level,
  parse_status_irq, parse_mov_status_directive, parse_threshold, parse_dot_in_directive,
  parse_dot_out_directive, parse_dot_set_directive, dispatch_directive, parse_directive,
}
use morelibc.Pioasm.Invariant.{IsBounded}
use morelibc.Pioasm.Invariant.Primitives.{set_error-IsBounded}
use morelibc.Pioasm.Invariant.References.{add_symbol-IsBounded}
use morelibc.Pioasm.Invariant.Actions.{operand_rules, parse_value-IsBounded}
use morelibc.Pioasm.Invariant.Statements.{parse_instruction-IsBounded}
use morelibc.Pioasm.Invariant.Settings.{
  configure-IsBounded, parse_wrap_target_directive-IsBounded, parse_wrap_directive-IsBounded,
  parse_program_directive-IsBounded, parse_lang_opt_directive-IsBounded, match_public-IsBounded,
  parse_name-IsBounded, if_supported-IsBounded, parse_fifo_directive-IsBounded,
  parse_direction-IsBounded, parse_autopush-IsBounded, sideset_loop-IsBounded,
}

module _ (target : Target) (fuel : ℕ) where
  parse_define_directive-IsBounded : Keeps IsBounded (parse_define_directive target fuel)
  unfolding parse_define_directive
  parse_define_directive-IsBounded =
      search (operand_rules, match_public-IsBounded, parse_name-IsBounded, add_symbol-IsBounded)
        depth 9

  set_origin :
      (value : ℕ)
      → leb 32 value ≡ false
      → Keeps IsBounded (modify (λ p. record p { origin = some value }))
  set_origin value e = Keeps-modify _ λ p h. record {
    tables = h.tables;
    config = record {
      sideset = h.config.sideset;
      version = h.config.version;
      at_origin = ground arith;
      at_wrap_target = h.config.at_wrap_target;
      at_wrap = h.config.at_wrap;
    };
  }

  parse_origin_directive-IsBounded : Keeps IsBounded (parse_origin_directive target fuel)
  unfolding parse_origin_directive
  parse_origin_directive-IsBounded = Keeps-bind _ _ (parse_value-IsBounded target fuel) λ value.
      record {
        at = λ p h.
            if-keeps IsBounded (leb 32 value) _ _ p
              (λ e. (set_error-IsBounded err_value_out_of_range).at p h)
              (λ e. (set_origin value e).at p h);
      }

  set_bits :
      (bits : ℕ)
      → ltb 5 bits ≡ false
      → Keeps IsBounded (modify (λ p. record p { sideset_bits = bits; sideset_opt = false }))
  set_bits bits e = Keeps-modify _ λ p h. record {
    tables = h.tables;
    config = record {
      sideset = ground arith;
      version = h.config.version;
      at_origin = h.config.at_origin;
      at_wrap_target = h.config.at_wrap_target;
      at_wrap = h.config.at_wrap;
    };
  }

  parse_sideset_directive-IsBounded : Keeps IsBounded (parse_sideset_directive target fuel)
  unfolding parse_sideset_directive if_at_most
  parse_sideset_directive-IsBounded = Keeps-bind _ _ (parse_value-IsBounded target fuel) λ bits.
      record {
        at = λ p h.
            if-keeps IsBounded (ltb 5 bits) _ _ p
              (λ e. (set_error-IsBounded err_value_out_of_range).at p h)
              (λ e.
                (Keeps-bind _ _ (set_bits bits e) λ _.
                    search (operand_rules, sideset_loop-IsBounded, configure-IsBounded) depth 9).at
                  p h);
      }

  parse_pio_version-IsBounded : Keeps IsBounded (parse_pio_version target fuel)
  unfolding parse_pio_version
  parse_pio_version-IsBounded = search operand_rules

  set_version :
      (version : ℕ) → Keeps IsBounded (modify (λ p. record p { pio_version = version % 2 ^ 8 }))
  set_version version = Keeps-modify _ λ p h. record {
    tables = h.tables;
    config = record {
      sideset = h.config.sideset;
      version = omega arith;
      at_origin = h.config.at_origin;
      at_wrap_target = h.config.at_wrap_target;
      at_wrap = h.config.at_wrap;
    };
  }

  parse_pio_version_directive-IsBounded : Keeps IsBounded (parse_pio_version_directive target fuel)
  unfolding parse_pio_version_directive
  parse_pio_version_directive-IsBounded =
      search (operand_rules, parse_pio_version-IsBounded, set_version)

  parse_clock_div_directive-IsBounded : Keeps IsBounded (parse_clock_div_directive target fuel)
  unfolding parse_clock_div_directive
  parse_clock_div_directive-IsBounded = search (operand_rules, configure-IsBounded) depth 9

  parse_irq_param-IsBounded : Keeps IsBounded (parse_irq_param target fuel)
  unfolding parse_irq_param
  parse_irq_param-IsBounded = search operand_rules

  parse_level-IsBounded :
      (status_type : StatusType) → Keeps IsBounded (parse_level target fuel status_type)
  unfolding parse_level
  parse_level-IsBounded status_type = search operand_rules

  parse_status_irq-IsBounded : Keeps IsBounded (parse_status_irq target fuel)
  unfolding parse_status_irq
  parse_status_irq-IsBounded = search (operand_rules, parse_irq_param-IsBounded) depth 9

  parse_mov_status_directive-IsBounded : Keeps IsBounded (parse_mov_status_directive target fuel)
  unfolding parse_mov_status_directive
  parse_mov_status_directive-IsBounded =
      search
        (
          operand_rules, parse_level-IsBounded, parse_status_irq-IsBounded, if_supported-IsBounded,
          configure-IsBounded,
        )
        depth 12

  parse_threshold-IsBounded : Keeps IsBounded (parse_threshold target fuel)
  unfolding parse_threshold
  parse_threshold-IsBounded = search operand_rules

  parse_dot_in_directive-IsBounded : Keeps IsBounded (parse_dot_in_directive target fuel)
  unfolding parse_dot_in_directive
  parse_dot_in_directive-IsBounded =
      search
        (
          operand_rules, parse_direction-IsBounded, parse_autopush-IsBounded,
          parse_threshold-IsBounded, configure-IsBounded,
        )
        depth 16

  parse_dot_out_directive-IsBounded : Keeps IsBounded (parse_dot_out_directive target fuel)
  unfolding parse_dot_out_directive
  parse_dot_out_directive-IsBounded =
      search
        (
          operand_rules, parse_direction-IsBounded, parse_autopush-IsBounded,
          parse_threshold-IsBounded, configure-IsBounded,
        )
        depth 16

  parse_dot_set_directive-IsBounded : Keeps IsBounded (parse_dot_set_directive target fuel)
  unfolding parse_dot_set_directive
  parse_dot_set_directive-IsBounded = search (operand_rules, configure-IsBounded)

ruleset directive_rules = (
  operand_rules, parse_wrap_target_directive-IsBounded, parse_wrap_directive-IsBounded,
  parse_program_directive-IsBounded, parse_lang_opt_directive-IsBounded,
  parse_fifo_directive-IsBounded, parse_define_directive-IsBounded,
  parse_origin_directive-IsBounded, parse_sideset_directive-IsBounded,
  parse_pio_version_directive-IsBounded, parse_clock_div_directive-IsBounded,
  parse_mov_status_directive-IsBounded, parse_dot_in_directive-IsBounded,
  parse_dot_out_directive-IsBounded, parse_dot_set_directive-IsBounded, parse_instruction-IsBounded,
)

module _ (target : Target) (fuel : ℕ) where
  dispatch_directive-IsBounded :
      (type : Token) → Keeps IsBounded (dispatch_directive target fuel type)
  unfolding dispatch_directive
  dispatch_directive-IsBounded tok_eof = set_error-IsBounded _
  dispatch_directive-IsBounded _ = search directive_rules

  pub parse_directive-IsBounded : Keeps IsBounded (parse_directive target fuel)
  unfolding parse_directive
  parse_directive-IsBounded = search (operand_rules, dispatch_directive-IsBounded)
