-- ===== src/Pioasm/Expr.antt =====
-- Values and expressions of rp2/pioasm/pioasm_parser.c. Recursion and loops take
-- fuel.
use morelibc.Base.{
  ℕ, zero, suc, ◌+◌, ◌*◌, ◌/◌, ◌%◌, ◌^◌, Option, none, some, List, leb, ltb, ◌==◌, if◌then◌else◌,
  u32, sub_u32, bit_and, bit_or, bit_xor,
}
use morelibc.Pioasm.Error.{err_syntax, err_invalid_value}
use morelibc.Pioasm.Token.{
  Token, is, tok_and, tok_divide, tok_id, tok_int, tok_lparen, tok_minus, tok_multiply, tok_or,
  tok_plus, tok_reverse, tok_rparen, tok_shl, tok_shr, tok_xor,
}
use morelibc.Pioasm.Target.{Target}
use morelibc.Pioasm.State.{
  Symbol, Action, pure, diverge, gets, ◌>>=◌, ◌>>◌, set_error, skip, check, expect, uint_value,
  str_value,
}
use morelibc.Pioasm.Symbols.{find_symbol}

unfoldable pub get_precedence : Token → ℕ
get_precedence tok_or = 1
get_precedence tok_xor = 1
get_precedence tok_and = 1
get_precedence tok_shl = 2
get_precedence tok_shr = 2
get_precedence tok_plus = 3
get_precedence tok_minus = 3
get_precedence tok_multiply = 4
get_precedence tok_divide = 4
get_precedence type = 0

-- The 32 rounds of the bit reversal of `parse_primary`.
unfoldable pub reverse_loop : ℕ → ℕ → ℕ → ℕ
reverse_loop zero v r = r
reverse_loop (suc n) v r = reverse_loop n (v / 2) (u32 (r * 2) + v % 2)

unfoldable pub reverse_bits : ℕ → ℕ
reverse_bits v = reverse_loop 32 v 0

-- `a << n` and `a >> n` by a register, of which the processor takes the low byte. (In C, a shift by 32 or
-- more is undefined.)
unfoldable pub shl : ℕ → ℕ → ℕ
shl a n = if ltb (n % 2 ^ 8) 32 then u32 (a * 2 ^ (n % 2 ^ 8)) else 0

unfoldable pub shr : ℕ → ℕ → ℕ
shr a n = if ltb (n % 2 ^ 8) 32 then a / 2 ^ (n % 2 ^ 8) else 0

-- The switch on the operator; none is a division by 0.
unfoldable pub apply_operator : Token → ℕ → ℕ → Option ℕ
apply_operator tok_plus a b = some (u32 (a + b))
apply_operator tok_minus a b = some (sub_u32 a b)
apply_operator tok_multiply a b = some (u32 (a * b))
apply_operator tok_divide a b = if b == 0 then none else some (a / b)
apply_operator tok_and a b = some (bit_and a b)
apply_operator tok_or a b = some (bit_or a b)
apply_operator tok_xor a b = some (bit_xor a b)
apply_operator tok_shl a b = some (shl a b)
apply_operator tok_shr a b = some (shr a b)
apply_operator type a b = some a

-- `sym ? sym->value : 0`
unfoldable pub symbol_value : Option (ℕ × Symbol) → ℕ
symbol_value none = 0
symbol_value (some (i, sym)) = sym.value

module _ (target : Target) where
  unfoldable pub parse_int : Action ℕ
  parse_int = do value ← uint_value; skip target; pure value

  unfoldable pub parse_id : Action ℕ
  parse_id = do
    name ← str_value
    sym ← gets (λ p. find_symbol p.symbols name)
    skip target
    pure (symbol_value sym)

  unfoldable pub or_division_error : Option ℕ → Action ℕ
  or_division_error none = set_error err_invalid_value
  or_division_error (some value) = pure value

  unfoldable mutual
    unfolding parse_int parse_id or_division_error

    pub parse_primary : ℕ → Action ℕ
    parse_primary zero = diverge
    parse_primary (suc fuel) = do
      type ← gets (λ p. p.lexer.type)
      if is type tok_minus
          then (do skip target; value ← parse_primary fuel; pure (sub_u32 0 value))
          else if is type tok_reverse
          then (do skip target; value ← parse_primary fuel; pure (reverse_bits value))
          else if is type tok_lparen
          then (do
            skip target
            value ← parse_expression_prec fuel 1
            expect target tok_rparen
            pure value)
          else if is type tok_int
          then parse_int
          else if is type tok_id
          then parse_id
          else set_error err_syntax

    pub parse_expression_prec : ℕ → ℕ → Action ℕ
    parse_expression_prec zero min_prec = diverge
    parse_expression_prec (suc fuel) min_prec = do
      value ← parse_primary fuel
      expression_loop fuel min_prec value

    -- The loop of `parse_expression_prec`.
    pub expression_loop : ℕ → ℕ → ℕ → Action ℕ
    expression_loop zero min_prec value = diverge
    expression_loop (suc fuel) min_prec value = do
      op ← gets (λ p. p.lexer.type)
      if leb min_prec (get_precedence op)
          then (do
            skip target
            rhs ← parse_expression_prec fuel (get_precedence op + 1)
            value' ← or_division_error (apply_operator op value rhs)
            expression_loop fuel min_prec value')
          else pure value

  unfoldable pub parse_expression : ℕ → Action ℕ
  parse_expression fuel = parse_expression_prec fuel 1

  -- An expression in parentheses, which are the current token and the last.
  unfoldable pub parse_parenthesised : ℕ → Action ℕ
  parse_parenthesised fuel = do
    skip target
    value ← parse_expression fuel
    expect target tok_rparen
    pure value

  unfoldable pub parse_value : ℕ → Action ℕ
  parse_value fuel = do
    type ← gets (λ p. p.lexer.type)
    if is type tok_int
        then parse_int
        else if is type tok_id
        then parse_id
        else if is type tok_lparen
        then parse_parenthesised fuel
        else set_error err_syntax

  -- An identifier, and its name if it is no symbol yet.
  unfoldable pub parse_id_or_symbol : Action (ℕ × Option (List ℕ))
  parse_id_or_symbol = do
    name ← str_value
    sym ← gets (λ p. find_symbol p.symbols name)
    skip target
    pure (symbol_value sym, elim sym [ none ↦ some name | some found ↦ none ])

  -- `parse_value_or_symbol`: the name stands for `is_symbol`.
  unfoldable pub parse_value_or_symbol : ℕ → Action (ℕ × Option (List ℕ))
  parse_value_or_symbol fuel = do
    is_id ← check tok_id
    if is_id then parse_id_or_symbol else (do value ← parse_value fuel; pure (value, none))
