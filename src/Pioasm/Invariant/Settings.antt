-- ===== src/Pioasm/Invariant/Settings.antt =====
-- Bounds of the parser of rp2/pioasm/pioasm_parser.c: the directives without a number.
use morelibc.Base.{ℕ, zero, suc, Bool, true, List, arith}
use morelibc.Pioasm.Target.{Target, ConfigCall, FifoJoin}
use morelibc.Pioasm.State.{Action, modify}
use morelibc.Pioasm.State.Keeps.{Keeps, Keeps-if, Keeps-modify}
use morelibc.Pioasm.Directives.{
  configure, parse_wrap_target_directive, parse_wrap_directive, parse_program_directive,
  parse_lang_opt_directive, match_public, parse_name, if_supported, newer_join, parse_fifo_join,
  parse_fifo_directive, parse_direction, parse_autopush, sideset_loop,
}
use morelibc.Pioasm.Invariant.{IsBounded}
use morelibc.Pioasm.Invariant.Primitives.{set_error-IsBounded}
use morelibc.Pioasm.Invariant.Actions.{operand_rules}

-- A change of the parser that leaves the bounded parts alone.
pub configure-IsBounded : (call : ConfigCall) → Keeps IsBounded (configure call)
unfolding configure
configure-IsBounded call = Keeps-modify _ λ p h. record { tables = h.tables; config = h.config }

pub parse_wrap_target_directive-IsBounded : Keeps IsBounded parse_wrap_target_directive
unfolding parse_wrap_target_directive
parse_wrap_target_directive-IsBounded = Keeps-modify _ λ p h. record {
  tables = h.tables;
  config = record {
    sideset = h.config.sideset;
    version = h.config.version;
    at_origin = h.config.at_origin;
    at_wrap_target = omega (arith, h.tables.instruction_count);
    at_wrap = h.config.at_wrap;
  };
}

pub parse_wrap_directive-IsBounded : Keeps IsBounded parse_wrap_directive
unfolding parse_wrap_directive
parse_wrap_directive-IsBounded = Keeps-modify _ λ p h. record {
  tables = h.tables;
  config = record {
    sideset = h.config.sideset;
    version = h.config.version;
    at_origin = h.config.at_origin;
    at_wrap_target = h.config.at_wrap_target;
    at_wrap = omega (arith, h.tables.instruction_count);
  };
}

module _ (target : Target) where
  set_name : (name : List ℕ) → Keeps IsBounded (modify (λ p. record p { name = name }))
  set_name name = Keeps-modify _ λ p h. record { tables = h.tables; config = h.config }

  set_has_program : Keeps IsBounded (modify (λ p. record p { has_program = true }))
  set_has_program = Keeps-modify _ λ p h. record { tables = h.tables; config = h.config }

  set_optional : Keeps IsBounded (modify (λ p. record p { sideset_opt = true }))
  set_optional = Keeps-modify _ λ p h. record { tables = h.tables; config = h.config }

  pub parse_program_directive-IsBounded : Keeps IsBounded (parse_program_directive target)
  unfolding parse_program_directive
  parse_program_directive-IsBounded = search (operand_rules, set_name, set_has_program) depth 9

  pub parse_lang_opt_directive-IsBounded : Keeps IsBounded (parse_lang_opt_directive target)
  unfolding parse_lang_opt_directive
  parse_lang_opt_directive-IsBounded = record {
    at = λ p h. record { tables = h.tables; config = h.config };
  }

  pub match_public-IsBounded : Keeps IsBounded (match_public target)
  unfolding match_public
  match_public-IsBounded = search operand_rules

  pub parse_name-IsBounded : Keeps IsBounded (parse_name target)
  unfolding parse_name
  parse_name-IsBounded = search operand_rules

  pub if_supported-IsBounded :
      {A : Type 0} (m : Action A) → Keeps IsBounded m → Keeps IsBounded (if_supported target m)
  unfolding if_supported
  if_supported-IsBounded m km = Keeps-if _ m _ km (set_error-IsBounded _)

  pub newer_join-IsBounded : (join : FifoJoin) → Keeps IsBounded (newer_join target join)
  unfolding newer_join
  newer_join-IsBounded join = search (operand_rules, if_supported-IsBounded)

  pub parse_fifo_join-IsBounded : Keeps IsBounded (parse_fifo_join target)
  unfolding parse_fifo_join
  parse_fifo_join-IsBounded = search (operand_rules, newer_join-IsBounded) depth 12

  pub parse_fifo_directive-IsBounded : Keeps IsBounded (parse_fifo_directive target)
  unfolding parse_fifo_directive
  parse_fifo_directive-IsBounded =
      search (operand_rules, parse_fifo_join-IsBounded, configure-IsBounded)

  pub parse_direction-IsBounded : Keeps IsBounded (parse_direction target)
  unfolding parse_direction
  parse_direction-IsBounded = search operand_rules

  pub parse_autopush-IsBounded : Keeps IsBounded (parse_autopush target)
  unfolding parse_autopush
  parse_autopush-IsBounded = search operand_rules

  pub sideset_loop-IsBounded :
      (fuel : ℕ) (pindirs : Bool) → Keeps IsBounded (sideset_loop target fuel pindirs)
  unfolding sideset_loop
  sideset_loop-IsBounded zero pindirs = search operand_rules
  sideset_loop-IsBounded (suc fuel) pindirs =
      search (operand_rules, set_optional, sideset_loop-IsBounded fuel) depth 12
