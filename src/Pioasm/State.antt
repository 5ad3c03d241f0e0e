-- ===== src/Pioasm/State.antt =====
-- The parser's state, `pioasm_parser_t` of rp2/pioasm/pioasm.h, the actions on it, and the helpers at the
-- start of rp2/pioasm/pioasm_parser.c.
pub mod Keeps
use morelibc.Base.{
  ℕ, zero, suc, ◌+◌, ◌%◌, ◌^◌, Bool, true, false, Option, none, some, List, [], ◌∷◌, ◌++◌, length,
  ltb, if◌then◌else◌, c_string, word_at,
}
use morelibc.Pioasm.Error.{Error, err_syntax, err_too_many_instructions}
use morelibc.Pioasm.Token.{Token, is, tok_comma, tok_eof}
use morelibc.Pioasm.Lexer.{Lexer, pioasm_lexer_next}
use morelibc.Pioasm.Target.{Target, ConfigCall}

abbrev pub max_instructions : ℕ
max_instructions = 32

abbrev pub max_symbols : ℕ
max_symbols = 8

-- `pioasm_symbol_t`. (`resolve_in_progress` is always 0.)
pub record Symbol : Type 0 where
  pub name : List ℕ
  pub value : ℕ
  pub is_label : Bool
  pub is_public : Bool
  pub is_resolved : Bool

-- `pioasm_unresolved_t`
pub record Unresolved : Type 0 where
  pub instruction_index : ℕ
  pub symbol_index : ℕ
  pub is_relative : Bool

-- `pioasm_parser_t`. The used parts of the arrays are lists, so that the counts are their lengths;
-- `program.length` is the length of `instructions`. -1 is none. `sm_config` is the calls that set it,
-- the last first. `error` is the first error, with its line.
pub record Parser : Type 0 where
  pub lexer : Lexer
  pub symbols : List Symbol
  pub instructions : List ℕ
  pub unresolved : List Unresolved
  pub name : List ℕ
  pub origin : Option ℕ
  pub pio_version : ℕ
  pub wrap_target : Option ℕ
  pub wrap : Option ℕ
  pub sm_config : List ConfigCall
  pub sideset_bits : ℕ
  pub sideset_opt : Bool
  pub has_program : Bool
  pub error : Option (Error × ℕ)

-- How a function of the parser ends. `out_of_fuel` has no counterpart: the function has not returned
-- after as many rounds as it was given.
pub data Outcome {ℓ} (A : Type ℓ) : Type ℓ where
  done : A → Outcome A
  failed : Error → Outcome A
  out_of_fuel : Outcome A

abbrev pub Action {ℓ} : Type ℓ → Type ℓ
Action A = Parser → Outcome A × Parser

module _ {A : Type 0} where
  unfoldable pub pure : A → Action A
  pure a p = (done a, p)

  unfoldable pub diverge : Action A
  diverge p = (out_of_fuel, p)

  unfoldable pub gets : (Parser → A) → Action A
  gets f p = (done (f p), p)

unfoldable pub modify : (Parser → Parser) → Action (Unit {0})
modify f p = (done tt, f p)

module _ {A B : Type 0} where
  unfoldable pub continue : Outcome A → (A → Action B) → Action B
  continue (done a) f p = f a p
  continue (failed e) f p = (failed e, p)
  continue out_of_fuel f p = (out_of_fuel, p)

  -- `if (err != PIOASM_OK) return err;` stands between the two.
  infixl 10 ◌>>=◌ ◌>>◌
  unfoldable pub ◌>>=◌ : Action A → (A → Action B) → Action B
  unfolding continue
  ◌>>=◌ m f p = let (r, p') = m p in continue r f p'

  abbrev pub ◌>>◌ : Action A → Action B → Action B
  m >> n = m >>= λ _. n

-- A call whose error code is dropped.
unfoldable pub forget : Outcome (Unit {0}) → Outcome (Unit {0})
forget (done u) = done tt
forget (failed e) = done tt
forget out_of_fuel = out_of_fuel

unfoldable pub ignore : Action (Unit {0}) → Action (Unit {0})
unfolding forget
ignore m p = let (r, p') = m p in (forget r, p')

-- The first error is kept.
unfoldable pub note_error : Error → Parser → Parser
note_error e p = elim p.error [
  | none ↦ record p { error = some (e, p.lexer.line) }
  | some first ↦ p
]

-- `return set_error(p, e)`
unfoldable pub set_error : {A : Type 0} → Error → Action A
set_error e p = (failed e, note_error e p)

unfoldable pub lexed : Option Error → Action (Unit {0})
lexed none = pure tt
lexed (some e) = set_error e

unfoldable pub advance : Target → Action (Unit {0})
unfolding lexed
advance target p =
    let (e, lexer) = pioasm_lexer_next target.float_bits p.lexer in
    lexed e (record p { lexer = lexer })

-- `advance(p);`, which goes on after an error.
unfoldable pub skip : Target → Action (Unit {0})
skip target = ignore (advance target)

unfoldable pub check : Token → Action Bool
check type = gets (λ p. is p.lexer.type type)

unfoldable pub expect : Target → Token → Action (Unit {0})
expect target type = do b ← check type; if b then advance target else set_error err_syntax

unfoldable pub match : Target → Token → Action Bool
match target type = do b ← check type; if b then (do skip target; pure true) else pure false

unfoldable pub skip_optional_comma : Target → Action (Unit {0})
skip_optional_comma target = do match target tok_comma; pure tt

-- `p->token.uint_value`, and `p->token.str_value` as a string.
unfoldable pub uint_value : Action ℕ
uint_value = gets (λ p. word_at p.lexer.value)

unfoldable pub str_value : Action (List ℕ)
str_value = gets (λ p. c_string p.lexer.value)

unfoldable pub add_instruction : ℕ → Action (Unit {0})
add_instruction instr = do
  n ← gets (λ p. length p.instructions)
  if ltb n max_instructions
      then modify (λ p. record p { instructions = p.instructions ++ instr % 2 ^ 16 ∷ [] })
      else set_error err_too_many_instructions
