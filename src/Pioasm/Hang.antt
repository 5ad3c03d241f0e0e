-- ===== src/Pioasm/Hang.antt =====
-- The newline loops of rp2/pioasm/pioasm_parser.c, at an error of the lexer.
use morelibc.Base.{ℕ, zero, suc, ◌≡◌, refl, true, none, some, List, ◌∷◌, replicate, subst, sym, ap}
use morelibc.Pioasm.Error.{Error}
use morelibc.Pioasm.Token.{is, tok_eof, tok_newline}
use morelibc.Pioasm.Lexer.{
  Lexer, pioasm_lexer_next, pioasm_lexer_init, scan_token, skip_whitespace_and_comments, skip_loop,
}
use morelibc.Pioasm.Target.{Target}
use morelibc.Pioasm.State.{
  Parser, Outcome, done, out_of_fuel, Action, modify, ◌>>◌, continue, ◌>>=◌, check, gets, pure,
  advance, lexed, set_error, skip, ignore, forget, match, note_error, diverge,
}
use morelibc.Pioasm.Operands.{if_match}
use morelibc.Pioasm.Assemble.{
  skip_newlines, parse_line, parse_lines, pioasm_parse, resolve_if_ok, default_wrap, return_error,
  parser_init, pioasm_assemble,
}

-- The lexer at a newline token, on an input of which it knows no token.
pub IsStuck : Target → Lexer → Type 0
IsStuck target lexer =
    (e : Error) × (pioasm_lexer_next target.float_bits lexer ≡ (some e, lexer))
    × (lexer.type ≡ tok_newline)

module _ {A B : Type 0} where
  continue-out_of_fuel :
      (r : Outcome A) (f : A → Action B) (p : Parser)
      → r ≡ out_of_fuel
      → (continue r f p).0 ≡ out_of_fuel
  unfolding continue
  continue-out_of_fuel r f p e = rw e refl

  bind-out_of_fuel :
      (m : Action A) (f : A → Action B) (p : Parser)
      → (m p).0 ≡ out_of_fuel
      → ((m >>= f) p).0 ≡ out_of_fuel
  unfolding ◌>>=◌
  bind-out_of_fuel m f p e = continue-out_of_fuel (m p).0 f (m p).1 e

note_error-lexer : (e : Error) (p : Parser) → (note_error e p).lexer ≡ p.lexer
unfolding note_error
note_error-lexer e p =
    elim p.error
      as (λ o.
        (elim o as (λ _. Parser) [
          | none ↦ record p { error = some (e, p.lexer.line) }
          | some first ↦ p
        ]).lexer
        ≡ p.lexer) [ none ↦ refl | some first ↦ refl ]

module _ (target : Target) where
  match-stuck :
      (p : Parser) (e : Error)
      → pioasm_lexer_next target.float_bits p.lexer ≡ (some e, p.lexer)
      → is p.lexer.type tok_newline ≡ true
      → match target tok_newline p ≡ (done true, note_error e p)
  unfolding match check gets pure skip ignore forget advance lexed set_error ◌>>=◌ continue
  match-stuck p e h t = rw t (rw h refl)

  skip_newlines-stuck :
      (fuel : ℕ) (p : Parser)
      → IsStuck target p.lexer
      → (skip_newlines target fuel p).0 ≡ out_of_fuel
  unfolding skip_newlines if_match ◌>>=◌ continue diverge IsStuck
  skip_newlines-stuck zero p h = refl
  skip_newlines-stuck (suc fuel) p (e, h, t) =
      rw (match-stuck p e h (ap (λ type. is type tok_newline) t)) (
        skip_newlines-stuck fuel (note_error e p)
          (subst (IsStuck target) (sym (note_error-lexer e p)) (e, h, t)))

-- The lexer behind a newline at the start of the source.
abbrev pub after_newline : List ℕ → Lexer
after_newline rest = record { pos = rest; line = 2; type = tok_newline; value = replicate 16 0 }

module _ (target : Target) where
  first_token :
      (rest : List ℕ)
      → advance target (parser_init (b'\n' ∷ rest))
        ≡ (done tt, record (parser_init (b'\n' ∷ rest)) { lexer = after_newline rest })
  unfolding advance lexed pure parser_init pioasm_lexer_init pioasm_lexer_next scan_token
      skip_whitespace_and_comments skip_loop
  first_token rest = refl

  lines-stuck :
      (fuel rounds : ℕ) (p : Parser)
      → IsStuck target p.lexer
      → p.error ≡ none
      → (parse_lines target fuel rounds p).0 ≡ out_of_fuel
  unfolding parse_lines parse_line ◌>>=◌ continue check gets diverge IsStuck
  lines-stuck fuel zero p h none_yet = refl
  lines-stuck fuel (suc rounds) p h none_yet = rw (ap (λ type. is type tok_eof) h.2) (
      rw none_yet (
        let p' = record p { error = none } in
        bind-out_of_fuel (parse_line target fuel >> skip_newlines target fuel) _ p' (
          bind-out_of_fuel (parse_line target fuel) _ p' (
            bind-out_of_fuel (skip_newlines target fuel) _ p'
              (skip_newlines-stuck target fuel p' h)))))

  -- If the lexer fails behind a first newline and stays there, the assembler never returns, however many
  -- rounds it is given.
  pub pioasm_assemble-hangs :
      (fuel : ℕ) (rest : List ℕ) (e : Error)
      → pioasm_lexer_next target.float_bits (after_newline rest) ≡ (some e, after_newline rest)
      → (pioasm_assemble target fuel (b'\n' ∷ rest)).0 ≡ out_of_fuel
  unfolding pioasm_assemble pioasm_parse parser_init ◌>>=◌ continue IsStuck
  pioasm_assemble-hangs fuel rest e h = rw (first_token rest) (
      bind-out_of_fuel (parse_lines target fuel fuel)
        (λ _. resolve_if_ok target fuel >> (modify default_wrap >> return_error))
        (record (parser_init (b'\n' ∷ rest)) { lexer = after_newline rest })
        (lines-stuck fuel fuel _ (e, h, refl) refl))
