-- ===== src/Pioasm/Invariant/Programs.antt =====
-- Bounds of the parser of rp2/pioasm/pioasm_parser.c: whole programs.
use morelibc.Base.{
  ℕ, zero, suc, ◌-◌, ◌<◌, Option, none, some, List, arith, length, ltb, if◌then◌else◌, lt→ltb,
}
use morelibc.Pioasm.Token.{tok_eof, tok_newline}
use morelibc.Pioasm.Lexer.{Lexer}
use morelibc.Pioasm.Target.{Target}
use morelibc.Pioasm.State.{Action, modify}
use morelibc.Pioasm.State.Keeps.{
  Keeps, Keeps-modify, Keeps-pure, Keeps-bind, Keeps-check, Keeps-gets, Keeps-if, Keeps-elim,
}
use morelibc.Pioasm.Assemble.{
  default_wrap, return_error, parse_label, skip_newlines, is_label_next, starts_label,
  instruction_or, parse_statement, parse_line, parse_lines, resolve_if_ok, pioasm_parse,
  parser_init, pioasm_assemble,
}
use morelibc.Pioasm.Invariant.{IsBounded, FitsIn}
use morelibc.Pioasm.Invariant.References.{
  add_symbol-IsBounded, resolve_forward_references-IsBounded,
}
use morelibc.Pioasm.Invariant.Actions.{operand_rules, if_match-IsBounded}
use morelibc.Pioasm.Invariant.Statements.{parse_instruction-IsBounded}
use morelibc.Pioasm.Invariant.Settings.{match_public-IsBounded, parse_name-IsBounded}
use morelibc.Pioasm.Invariant.Directives.{parse_directive-IsBounded}

restore_lexer : (lexer : Lexer) → Keeps IsBounded (modify (λ p. record p { lexer = lexer }))
restore_lexer lexer = Keeps-modify _ λ p h. record { tables = h.tables; config = h.config }

FitsIn-or_first :
    (o : Option ℕ) → FitsIn 33 o → FitsIn 33 (elim o [ some i ↦ some i | none ↦ some 0 ])
FitsIn-or_first none h = omega arith
FitsIn-or_first (some i) h = h

FitsIn-or_last :
    (n : ℕ) (o : Option ℕ)
    → n < 33
    → FitsIn 32 o
    → FitsIn 32 (elim o [ some i ↦ some i | none ↦ if ltb 0 n then some (n - 1) else none ])
FitsIn-or_last zero none r h = tt
FitsIn-or_last (suc n) none r h = rw (lt→ltb 0 (suc n) (omega arith)) (omega arith)
FitsIn-or_last n (some i) r h = h

default_wrap-IsBounded : Keeps IsBounded (modify default_wrap)
unfolding default_wrap
default_wrap-IsBounded = Keeps-modify _ λ p h. record {
  tables = h.tables;
  config = record {
    sideset = h.config.sideset;
    version = h.config.version;
    at_origin = h.config.at_origin;
    at_wrap_target = FitsIn-or_first p.wrap_target h.config.at_wrap_target;
    at_wrap =
        FitsIn-or_last (length p.instructions) p.wrap (omega (arith, h.tables.instruction_count))
          h.config.at_wrap;
  };
}

return_error-IsBounded : Keeps IsBounded return_error
unfolding return_error
return_error-IsBounded = record { at = λ p h. h }

module _ (target : Target) where
  parse_label-IsBounded : Keeps IsBounded (parse_label target)
  unfolding parse_label
  parse_label-IsBounded =
      search (operand_rules, match_public-IsBounded, parse_name-IsBounded, add_symbol-IsBounded)
        depth 12

  skip_newlines-IsBounded : (fuel : ℕ) → Keeps IsBounded (skip_newlines target fuel)
  unfolding skip_newlines
  skip_newlines-IsBounded zero = search operand_rules
  skip_newlines-IsBounded (suc fuel) =
      if_match-IsBounded target tok_newline _ _ (skip_newlines-IsBounded fuel) (Keeps-pure tt)

  is_label_next-IsBounded : Keeps IsBounded (is_label_next target)
  unfolding is_label_next
  is_label_next-IsBounded = search (operand_rules, match_public-IsBounded, restore_lexer) depth 12

  starts_label-IsBounded : Keeps IsBounded (starts_label target)
  unfolding starts_label
  starts_label-IsBounded = search (operand_rules, is_label_next-IsBounded)

module _ (target : Target) (fuel : ℕ) where
  instruction_or-IsBounded :
      (m : Action (Unit {0})) → Keeps IsBounded m → Keeps IsBounded (instruction_or target fuel m)
  unfolding instruction_or
  instruction_or-IsBounded m km = search (operand_rules, parse_instruction-IsBounded)

  parse_statement-IsBounded : Keeps IsBounded (parse_statement target fuel)
  unfolding parse_statement
  parse_statement-IsBounded =
      search
        (operand_rules, parse_label-IsBounded, starts_label-IsBounded, instruction_or-IsBounded)
        depth 9

  parse_line-IsBounded : Keeps IsBounded (parse_line target fuel)
  unfolding parse_line
  parse_line-IsBounded =
      search
        (
          operand_rules, skip_newlines-IsBounded, parse_directive-IsBounded,
          parse_statement-IsBounded,
        )
        depth 9

  parse_lines-IsBounded : (rounds : ℕ) → Keeps IsBounded (parse_lines target fuel rounds)
  unfolding parse_lines
  parse_lines-IsBounded zero = search operand_rules
  parse_lines-IsBounded (suc rounds) = Keeps-bind _ _ (Keeps-check tok_eof) λ at_end.
      Keeps-bind _ _ (Keeps-gets _) λ error. Keeps-if at_end _ _ (Keeps-pure tt) (
        Keeps-elim error _ _
          (Keeps-bind _ _
            (Keeps-bind _ _ parse_line-IsBounded λ _. skip_newlines-IsBounded target fuel)
            (λ _. parse_lines-IsBounded rounds))
          (λ first. Keeps-pure tt))

  resolve_if_ok-IsBounded : Keeps IsBounded (resolve_if_ok target fuel)
  unfolding resolve_if_ok
  resolve_if_ok-IsBounded =
      Keeps-bind _ _ (Keeps-gets _)
        λ error. Keeps-elim error _ _ resolve_forward_references-IsBounded (λ first. Keeps-pure tt)

  pioasm_parse-IsBounded : Keeps IsBounded (pioasm_parse target fuel)
  unfolding pioasm_parse
  pioasm_parse-IsBounded =
      search
        (
          operand_rules, parse_lines-IsBounded, resolve_if_ok-IsBounded, default_wrap-IsBounded,
          return_error-IsBounded,
        )
        depth 9

parser_init-IsBounded : (source : List ℕ) → IsBounded (parser_init source)
unfolding parser_init
parser_init-IsBounded source = record {
  tables = record {
    instruction_count = omega arith;
    words = tt;
    symbol_count = omega arith;
    reference_count = omega arith;
    references = tt;
  };
  config = record {
    sideset = omega arith;
    version = omega arith;
    at_origin = tt;
    at_wrap_target = tt;
    at_wrap = tt;
  };
}

-- Whatever the source, the encoders of the SDK and the number of rounds, the assembler leaves at most 32
-- instructions, each of 16 bits, and at most 8 symbols and 8 forward references, each reference to an
-- instruction and a symbol that exist; the width of the side-set is at most 5, the version below 256, and
-- origin, wrap target and wrap, if set, are below 32, 33 and 32.
pub pioasm_assemble-IsBounded :
    (target : Target) (fuel : ℕ) (source : List ℕ)
    → IsBounded (pioasm_assemble target fuel source).1
unfolding pioasm_assemble
pioasm_assemble-IsBounded target fuel source =
    (pioasm_parse-IsBounded target fuel).at (parser_init source) (parser_init-IsBounded source)
