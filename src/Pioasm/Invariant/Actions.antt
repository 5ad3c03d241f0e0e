-- ===== src/Pioasm/Invariant/Actions.antt =====
-- Bounds of the parser of rp2/pioasm/pioasm_parser.c: tokens, expressions and operands.
use morelibc.Base.{ℕ, zero, suc, Bool, Option, none, some}
use morelibc.Pioasm.Error.{Error}
use morelibc.Pioasm.Token.{Token}
use morelibc.Pioasm.Target.{Target}
use morelibc.Pioasm.State.{Action, skip, expect, match, skip_optional_comma, uint_value, str_value}
use morelibc.Pioasm.State.Keeps.{
  Keeps, keeps_rules, Keeps-modify, Keeps-if, Keeps-diverge, Keeps-pure, Keeps-check, Keeps-gets,
  Keeps-bind,
}
use morelibc.Pioasm.Expr.{
  parse_int, parse_id, or_division_error, parse_primary, parse_expression_prec, expression_loop,
  parse_expression, parse_parenthesised, parse_value, parse_id_or_symbol, parse_value_or_symbol,
}
use morelibc.Pioasm.Operands.{
  limit, encode_delay_sideset, if_match, if_check, if_version, if_at_most, delay_sideset_loop,
  parse_delay_sideset, parse_jmp_condition, parse_irq_type, parse_rel, parse_wait_source,
  parse_in_out_target, parse_mov_target, parse_mov_op, parse_set_target,
}
use morelibc.Pioasm.Invariant.{IsBounded}
use morelibc.Pioasm.Invariant.Primitives.{
  set_error-IsBounded, note_error-IsBounded, advance-IsBounded,
}

limit-IsBounded : (e : Error) (max value : ℕ) → Keeps IsBounded (limit e max value)
unfolding limit
limit-IsBounded e max value =
    Keeps-if _ _ _ (Keeps-bind _ _ (Keeps-modify _ (note_error-IsBounded e)) (λ _. Keeps-pure max))
      (Keeps-pure value)

pub uint_value-IsBounded : Keeps IsBounded uint_value
unfolding uint_value
uint_value-IsBounded = search keeps_rules

pub str_value-IsBounded : Keeps IsBounded str_value
unfolding str_value
str_value-IsBounded = search keeps_rules

module _ (target : Target) where
  pub skip-IsBounded : Keeps IsBounded (skip target)
  unfolding skip
  skip-IsBounded = search (keeps_rules, advance-IsBounded)

  pub expect-IsBounded : (type : Token) → Keeps IsBounded (expect target type)
  unfolding expect
  expect-IsBounded type = search (keeps_rules, advance-IsBounded, set_error-IsBounded)

  pub match-IsBounded : (type : Token) → Keeps IsBounded (match target type)
  unfolding match
  match-IsBounded type = search (keeps_rules, skip-IsBounded)

  pub skip_optional_comma-IsBounded : Keeps IsBounded (skip_optional_comma target)
  unfolding skip_optional_comma
  skip_optional_comma-IsBounded = search (keeps_rules, match-IsBounded)

pub ruleset token_rules = (
  keeps_rules, set_error-IsBounded, advance-IsBounded, uint_value-IsBounded, str_value-IsBounded,
  skip-IsBounded, expect-IsBounded, match-IsBounded, skip_optional_comma-IsBounded,
)

module _ (target : Target) where
  pub parse_int-IsBounded : Keeps IsBounded (parse_int target)
  unfolding parse_int
  parse_int-IsBounded = search token_rules

  pub parse_id-IsBounded : Keeps IsBounded (parse_id target)
  unfolding parse_id
  parse_id-IsBounded = search token_rules

  or_division_error-IsBounded : (o : Option ℕ) → Keeps IsBounded (or_division_error target o)
  unfolding or_division_error
  or_division_error-IsBounded none = search token_rules
  or_division_error-IsBounded (some value) = search token_rules

  primary-Keeps :
      (fuel : ℕ)
      → Keeps IsBounded (parse_primary target fuel)
      → Keeps IsBounded (parse_expression_prec target fuel 1)
      → Keeps IsBounded (parse_primary target (suc fuel))
  unfolding parse_primary parse_expression_prec expression_loop
  primary-Keeps fuel primary prec =
      search (token_rules, parse_int-IsBounded, parse_id-IsBounded) depth 12

  -- All three functions, by induction on the fuel.
  expressions-IsBounded :
      (fuel : ℕ)
      → Keeps IsBounded (parse_primary target fuel)
        × ((min_prec : ℕ) → Keeps IsBounded (parse_expression_prec target fuel min_prec))
        × ((min_prec value : ℕ) → Keeps IsBounded (expression_loop target fuel min_prec value))
  unfolding parse_primary parse_expression_prec expression_loop
  expressions-IsBounded zero =
      (Keeps-diverge, λ min_prec. Keeps-diverge, λ min_prec value. Keeps-diverge)
  expressions-IsBounded (suc fuel) =
      let primary = (expressions-IsBounded fuel).0 in
      let prec = (expressions-IsBounded fuel).1 in
      let loop = (expressions-IsBounded fuel).2 in
      (
        primary-Keeps fuel primary (prec 1),
        λ min_prec. search (token_rules, primary, loop),
        λ min_prec value. search (token_rules, or_division_error-IsBounded, prec, loop) depth 12,
      )

  pub parse_expression-IsBounded : (fuel : ℕ) → Keeps IsBounded (parse_expression target fuel)
  unfolding parse_expression
  parse_expression-IsBounded fuel = (expressions-IsBounded fuel).1 1

  pub parse_parenthesised-IsBounded : (fuel : ℕ) → Keeps IsBounded (parse_parenthesised target fuel)
  unfolding parse_parenthesised
  parse_parenthesised-IsBounded fuel = search (token_rules, parse_expression-IsBounded)

  pub parse_value-IsBounded : (fuel : ℕ) → Keeps IsBounded (parse_value target fuel)
  unfolding parse_value
  parse_value-IsBounded fuel =
      search (token_rules, parse_int-IsBounded, parse_id-IsBounded, parse_parenthesised-IsBounded)

  pub parse_id_or_symbol-IsBounded : Keeps IsBounded (parse_id_or_symbol target)
  unfolding parse_id_or_symbol
  parse_id_or_symbol-IsBounded = search token_rules

  pub parse_value_or_symbol-IsBounded :
      (fuel : ℕ) → Keeps IsBounded (parse_value_or_symbol target fuel)
  unfolding parse_value_or_symbol
  parse_value_or_symbol-IsBounded fuel =
      search (token_rules, parse_id_or_symbol-IsBounded, parse_value-IsBounded)

module _ (target : Target) {A : Type 0} where
  pub if_match-IsBounded :
      (type : Token) (m n : Action A)
      → Keeps IsBounded m
      → Keeps IsBounded n
      → Keeps IsBounded (if_match target type m n)
  unfolding if_match
  if_match-IsBounded type m n km kn =
      Keeps-bind _ _ (match-IsBounded target type) (λ b. Keeps-if b m n km kn)

  pub if_check-IsBounded :
      (type : Token) (m n : Action A)
      → Keeps IsBounded m
      → Keeps IsBounded n
      → Keeps IsBounded (if_check target type m n)
  unfolding if_check
  if_check-IsBounded type m n km kn = Keeps-bind _ _ (Keeps-check type) (λ b. Keeps-if b m n km kn)

  pub if_version-IsBounded :
      (m : Action A) → Keeps IsBounded m → Keeps IsBounded (if_version target m)
  unfolding if_version
  if_version-IsBounded m km =
      Keeps-bind _ _ (Keeps-gets _) (λ version. Keeps-if _ _ m (set_error-IsBounded _) km)

  pub if_at_most-IsBounded :
      (max value : ℕ) (m : Action A)
      → Keeps IsBounded m
      → Keeps IsBounded (if_at_most target max value m)
  unfolding if_at_most
  if_at_most-IsBounded max value m km = Keeps-if _ _ m (set_error-IsBounded _) km

pub ruleset value_rules = (
  token_rules, parse_expression-IsBounded, parse_value-IsBounded, parse_value_or_symbol-IsBounded,
  if_match-IsBounded, if_check-IsBounded, if_version-IsBounded, if_at_most-IsBounded,
)

module _ (target : Target) where
  encode_delay_sideset-IsBounded :
      (delay : ℕ) (sideset : Option ℕ) → Keeps IsBounded (encode_delay_sideset target delay sideset)
  unfolding encode_delay_sideset
  encode_delay_sideset-IsBounded delay none = search (token_rules, limit-IsBounded) depth 9
  encode_delay_sideset-IsBounded delay (some sideset) =
      search (token_rules, limit-IsBounded) depth 9

  delay_sideset_loop-IsBounded :
      (fuel delay : ℕ) (sideset : Option ℕ)
      → Keeps IsBounded (delay_sideset_loop target fuel delay sideset)
  unfolding delay_sideset_loop
  delay_sideset_loop-IsBounded zero delay sideset = search token_rules
  delay_sideset_loop-IsBounded (suc fuel) delay sideset =
      search (value_rules, encode_delay_sideset-IsBounded, delay_sideset_loop-IsBounded fuel)

  pub parse_delay_sideset-IsBounded : (fuel : ℕ) → Keeps IsBounded (parse_delay_sideset target fuel)
  unfolding parse_delay_sideset
  parse_delay_sideset-IsBounded fuel = search delay_sideset_loop-IsBounded

  pub parse_jmp_condition-IsBounded : Keeps IsBounded (parse_jmp_condition target)
  unfolding parse_jmp_condition
  parse_jmp_condition-IsBounded = search value_rules depth 24

  pub parse_irq_type-IsBounded : Keeps IsBounded (parse_irq_type target)
  unfolding parse_irq_type
  parse_irq_type-IsBounded = search value_rules depth 24

  pub parse_rel-IsBounded : (irq_type : ℕ) → Keeps IsBounded (parse_rel target irq_type)
  unfolding parse_rel
  parse_rel-IsBounded irq_type = search value_rules depth 24

  pub parse_wait_source-IsBounded : (fuel : ℕ) → Keeps IsBounded (parse_wait_source target fuel)
  unfolding parse_wait_source
  parse_wait_source-IsBounded fuel =
      search (value_rules, parse_irq_type-IsBounded, parse_rel-IsBounded) depth 24

  pub parse_in_out_target-IsBounded :
      (is_in : Bool) → Keeps IsBounded (parse_in_out_target target is_in)
  unfolding parse_in_out_target
  parse_in_out_target-IsBounded is_in = search value_rules depth 24

  pub parse_mov_target-IsBounded :
      (is_src : Bool) → Keeps IsBounded (parse_mov_target target is_src)
  unfolding parse_mov_target
  parse_mov_target-IsBounded is_src = search value_rules depth 24

  pub parse_mov_op-IsBounded : Keeps IsBounded (parse_mov_op target)
  unfolding parse_mov_op
  parse_mov_op-IsBounded = search value_rules depth 24

  pub parse_set_target-IsBounded : Keeps IsBounded (parse_set_target target)
  unfolding parse_set_target
  parse_set_target-IsBounded = search value_rules depth 24

pub ruleset operand_rules = (
  value_rules, parse_delay_sideset-IsBounded, parse_jmp_condition-IsBounded,
  parse_irq_type-IsBounded, parse_rel-IsBounded, parse_wait_source-IsBounded,
  parse_in_out_target-IsBounded, parse_mov_target-IsBounded, parse_mov_op-IsBounded,
  parse_set_target-IsBounded,
)
