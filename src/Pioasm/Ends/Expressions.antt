-- ===== src/Pioasm/Ends/Expressions.antt =====
-- Termination of the expressions of rp2/pioasm/pioasm_parser.c.
use morelibc.Base.{
  ℕ, zero, suc, ◌+◌, ◌*◌, ◌≤◌, ◌≡◌, refl, true, false, Option, none, some, arith, leb,
}
use morelibc.Pioasm.Token.{Token, is, tok_eof, tok_minus, tok_reverse, tok_lparen}
use morelibc.Pioasm.Target.{Target}
use morelibc.Pioasm.State.{Parser, gets, ◌>>=◌, continue, expect, uint_value, str_value}
use morelibc.Pioasm.Expr.{
  get_precedence, parse_int, parse_id, or_division_error, parse_primary, parse_expression_prec,
  expression_loop, parse_expression,
}
use morelibc.Pioasm.Ends.{IsLexable, remaining, HasEnded, Ends}
use morelibc.Pioasm.Ends.Rules.{
  ends_rules, Ends-bind, Ends-if, Ends-pure, Ends-set_error, if-Ends, EndsBelow, taken, on_token,
}

-- The end of the source is no operator.
operator-other :
    (type : Token) (min_prec : ℕ)
    → 1 ≤ min_prec
    → leb min_prec (get_precedence type) ≡ true
    → is type tok_eof ≡ false
unfolding get_precedence
operator-other tok_eof min_prec one e = absurd (ground arith)
operator-other _ min_prec one e = refl

module _ (target : Target) where
  expect-Ends : (n : ℕ) (type : Token) → Ends target n (expect target type)
  unfolding expect
  expect-Ends n type = search ends_rules

  parse_int-Ends : (n : ℕ) → Ends target n (parse_int target)
  unfolding parse_int uint_value
  parse_int-Ends n = search ends_rules

  parse_id-Ends : (n : ℕ) → Ends target n (parse_id target)
  unfolding parse_id str_value
  parse_id-Ends n = search ends_rules

  or_division_error-Ends : (n : ℕ) (o : Option ℕ) → Ends target n (or_division_error target o)
  unfolding or_division_error
  or_division_error-Ends n none = search ends_rules
  or_division_error-Ends n (some value) = search ends_rules

  expressions-Ends :
      (fuel n : ℕ)
      → (2 * n + 1 ≤ fuel → Ends target n (parse_primary target fuel))
        × ((min_prec : ℕ)
            → 1 ≤ min_prec
            → 2 * n + 2 ≤ fuel
            → Ends target n (parse_expression_prec target fuel min_prec))
        × ((min_prec value : ℕ)
            → 1 ≤ min_prec
            → 2 * n + 1 ≤ fuel
            → Ends target n (expression_loop target fuel min_prec value))
  unfolding parse_primary parse_expression_prec expression_loop gets ◌>>=◌ continue EndsBelow
  expressions-Ends zero n = (
    λ h. absurd (omega arith),
    λ m one h. absurd (omega arith),
    λ m v one h. absurd (omega arith),
  )
  expressions-Ends (suc fuel) n = (
    λ h. record {
      at = λ p r.
          on_token target n tok_minus _ _ p refl r
            (λ k lt.
              Ends-bind _ _ ((expressions-Ends fuel k).0 (omega arith))
                (λ value. search ends_rules))
            (on_token target n tok_reverse _ _ p refl r
              (λ k lt.
                Ends-bind _ _ ((expressions-Ends fuel k).0 (omega arith))
                  (λ value. search ends_rules))
              (on_token target n tok_lparen _ _ p refl r
                (λ k lt.
                  Ends-bind _ _ ((expressions-Ends fuel k).1 1 (omega arith) (omega arith))
                    (λ value. search (ends_rules, expect-Ends)))
                ((Ends-if _ _ _ (parse_int-Ends n)
                    (Ends-if _ _ _ (parse_id-Ends n) (Ends-set_error _))).at
                  p r)));
    },
    λ m one h.
        Ends-bind _ _ ((expressions-Ends fuel n).0 (omega arith))
          (λ value. (expressions-Ends fuel n).2 m value one (omega arith)),
    λ m v one h. record {
      at = λ p r.
          if-Ends target n (leb m (get_precedence p.lexer.type)) _ _ p
            (λ e. taken target n _ p r (operator-other p.lexer.type m one e) (λ k lt.
              Ends-bind _ _
                ((expressions-Ends fuel k).1 (get_precedence p.lexer.type + 1) (omega arith)
                  (omega arith))
                (λ rhs.
                  Ends-bind _ _ (or_division_error-Ends k _)
                    (λ value'. (expressions-Ends fuel k).2 m value' one (omega arith)))))
            (λ e. (Ends-pure v).at p r);
    },
  )

  parse_expression-Ends :
      (fuel n : ℕ) → 2 * n + 2 ≤ fuel → Ends target n (parse_expression target fuel)
  unfolding parse_expression
  parse_expression-Ends fuel n h = (expressions-Ends fuel n).1 1 (omega arith) h

-- If the lexer meets no error from its state on, neither behind any number of tokens nor behind skipped lines,
-- `parse_expression` returns, where the fuel is two rounds for each byte that the lexer has left, two for the
-- current token, if it is not the end of the source, and two more.
pub parse_expression-HasEnded :
    (target : Target) (fuel : ℕ) (p : Parser)
    → IsLexable target p.lexer
    → 2 * remaining p.lexer + 2 ≤ fuel
    → HasEnded (parse_expression target fuel p).0
parse_expression-HasEnded target fuel p lexable enough =
    ((parse_expression-Ends target fuel (remaining p.lexer) enough).at p
      record { lexable = lexable; bound = omega arith }).0
