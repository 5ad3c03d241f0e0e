-- ===== src/Pioasm/Ends.antt =====
-- Termination of the parser, rp2/pioasm/pioasm_parser.c, by the bytes that are left.
mod Rules
pub mod Expressions
pub mod Lexable
use morelibc.Base.{
  ℕ, zero, suc, ◌+◌, ◌≤◌, ◌<◌, ◌≡◌, refl, Bool, true, false, Option, none, some, List, length,
  arith,
}
use morelibc.Pioasm.Error.{Error}
use morelibc.Pioasm.Token.{Token, is, tok_eof}
use morelibc.Pioasm.Lexer.{Lexer, skip_line, pioasm_lexer_next}
use morelibc.Pioasm.Target.{Target}
use morelibc.Pioasm.State.{Parser, Outcome, done, failed, out_of_fuel, Action}

-- The lexers that come after a lexer: behind the next token, or behind the rest of a line.
pub data Follows (target : Target) : Lexer → Lexer → Type 0 where
  here : (l : Lexer) → Follows target l l
  by_token :
      (l m : Lexer)
      → Follows target (pioasm_lexer_next target.float_bits l).1 m
      → Follows target l m
  by_line :
      (l m : Lexer) → Follows target (record l { pos = skip_line l.pos }) m → Follows target l m

-- No token that the lexer comes to from `l` is an error, also when lines are skipped on the way.
pub IsLexable : Target → Lexer → Type 0
IsLexable target l =
    (m : Lexer) → Follows target l m → (pioasm_lexer_next target.float_bits m).0 ≡ none

-- A bound of the number of tokens that can still be taken: the bytes left, and one for the current token.
unfoldable pub remaining : Lexer → ℕ
remaining l = elim (is l.type tok_eof) [ true ↦ length l.pos | false ↦ suc (length l.pos) ]

pub record Ready (target : Target) (n : ℕ) (l : Lexer) : Type 0 where
  pub lexable : IsLexable target l
  pub bound : remaining l ≤ n

pub HasEnded {ℓ} : {A : Type ℓ} → Outcome A → Type 0
HasEnded (done a) = Unit
HasEnded (failed e) = Unit
HasEnded out_of_fuel = ⊥

-- `m` ends, with no more tokens left than before.
pub record Ends {A : Type 0} (target : Target) (n : ℕ) (m : Action A) : Type 0 where
  pub at : (p : Parser) → Ready target n p.lexer → HasEnded (m p).0 × Ready target n (m p).1.lexer
