-- ===== src/Pioasm/Ends/Rules.antt =====
-- Termination of rp2/pioasm/pioasm_parser.c: a rule for each way to build an action.
use morelibc.Base.{
  ℕ, zero, suc, ◌≤◌, ◌<◌, ◌≡◌, refl, sym, ap, subst, Bool, true, false, Option, none, some, length,
  arith, inl, inr, Bool-cases, if◌then◌else◌,
}
use morelibc.Pioasm.Error.{Error}
use morelibc.Pioasm.Token.{Token, is, tok_eof}
use morelibc.Pioasm.Lexer.{Lexer, pioasm_lexer_next}
use morelibc.Pioasm.Lexer.Progress.{pioasm_lexer_next-progress, pioasm_lexer_next-length}
use morelibc.Pioasm.Target.{Target}
use morelibc.Pioasm.State.{
  Parser, Outcome, done, failed, out_of_fuel, Action, pure, gets, continue, ◌>>=◌, ◌>>◌, set_error,
  note_error, lexed, advance, skip, ignore, forget, check,
}
use morelibc.Pioasm.Ends.{here, by_token, IsLexable, remaining, Ready, HasEnded, Ends}

module _ {target : Target} {n : ℕ} {A : Type 0} where
  pub Ends-pure : (a : A) → Ends target n (pure a)
  unfolding pure HasEnded
  Ends-pure a = record { at = λ p h. (tt, h) }

  pub Ends-gets : (f : Parser → A) → Ends target n (gets f)
  unfolding gets HasEnded
  Ends-gets f = record { at = λ p h. (tt, h) }

  pub Ends-if :
      (b : Bool) (m k : Action A)
      → Ends target n m
      → Ends target n k
      → Ends target n (if b then m else k)
  Ends-if true m k em ek = em
  Ends-if false m k em ek = ek

module _ {target : Target} {n : ℕ} {A B : Type 0} where
  continue-Ends :
      (r : Outcome A) (f : A → Action B) (p : Parser)
      → HasEnded r
      → Ready target n p.lexer
      → ((a : A) → Ends target n (f a))
      → HasEnded (continue r f p).0 × Ready target n (continue r f p).1.lexer
  unfolding continue HasEnded
  continue-Ends (done a) f p e h k = (k a).at p h
  continue-Ends (failed e') f p e h k = (tt, h)
  continue-Ends out_of_fuel f p e h k = absurd e

  pub Ends-bind :
      (m : Action A) (f : A → Action B)
      → Ends target n m
      → ((a : A) → Ends target n (f a))
      → Ends target n (m >>= f)
  unfolding ◌>>=◌
  Ends-bind m f em ef = record {
    at = λ p h. let (e, h') = em.at p h in continue-Ends (m p).0 f (m p).1 e h' ef;
  }

module _ (target : Target) (l : Lexer) (h : IsLexable target l) where
  -- The lexer behind the next token.
  abbrev after : Lexer
  after = (pioasm_lexer_next target.float_bits l).1

  next-none : pioasm_lexer_next target.float_bits l ≡ (none, after)
  unfolding IsLexable
  next-none = ap (λ e. (e, after)) (h l (here l))

  after-IsLexable : IsLexable target after
  unfolding IsLexable
  after-IsLexable m f = h m (by_token l m f)

  after-remaining : remaining after ≤ length l.pos
  unfolding remaining
  after-remaining = elim (pioasm_lexer_next-progress target.float_bits l after next-none) [
    | inl ended ↦
        rw (ap (λ type. is type tok_eof) ended, remaining)
          (pioasm_lexer_next-length target.float_bits l after next-none)
    | inr shorter ↦ ground arith
  ]

-- One token further.
next-Ready :
    (target : Target) (n : ℕ) (l : Lexer)
    → Ready target n l
    → Ready target n (pioasm_lexer_next target.float_bits l).1
unfolding remaining
next-Ready target n l h = record {
  lexable = after-IsLexable target l h.lexable;
  bound = ground (arith, after-remaining target l h.lexable, h.bound);
}

-- A token that is not the end leaves fewer.
pub next-Ready-suc :
    (target : Target) (n : ℕ) (l : Lexer)
    → Ready target (suc n) l
    → is l.type tok_eof ≡ false
    → Ready target n (pioasm_lexer_next target.float_bits l).1
unfolding remaining
next-Ready-suc target n l h e = record {
  lexable = after-IsLexable target l h.lexable;
  bound = ground (arith, after-remaining target l h.lexable, h.bound, e);
}

pub Ready-weaken :
    (target : Target) (n m : ℕ) (l : Lexer) → n ≤ m → Ready target n l → Ready target m l
Ready-weaken target n m l le h = record { lexable = h.lexable; bound = omega (arith, h.bound) }

note_error-lexer : (e : Error) (p : Parser) → (note_error e p).lexer ≡ p.lexer
unfolding note_error
note_error-lexer e p =
    elim p.error
      as (λ o.
        (elim o as (λ _. Parser) [
          | none ↦ record p { error = some (e, p.lexer.line) }
          | some first ↦ p
        ]).lexer
        ≡ p.lexer) [ none ↦ refl | some first ↦ refl ]

forget-HasEnded : (r : Outcome (Unit {0})) → HasEnded r → HasEnded (forget r)
unfolding forget HasEnded
forget-HasEnded (done a) h = tt
forget-HasEnded (failed e) h = tt
forget-HasEnded out_of_fuel h = h

module _ {target : Target} {n : ℕ} where
  pub Ends-set_error : {A : Type 0} (e : Error) → Ends target n (set_error {A = A} e)
  unfolding set_error HasEnded
  Ends-set_error e = record {
    at = λ p h. (tt, subst (Ready target n) (sym (note_error-lexer e p)) h);
  }

  lexed-Ends : (e : Option Error) → Ends target n (lexed e)
  unfolding lexed
  lexed-Ends none = Ends-pure tt
  lexed-Ends (some e) = Ends-set_error e

  pub Ends-advance : Ends target n (advance target)
  unfolding advance
  Ends-advance = record { at = λ p h. (lexed-Ends _).at _ (next-Ready target n p.lexer h) }

  pub Ends-skip : Ends target n (skip target)
  unfolding skip ignore
  Ends-skip = record { at = λ p h. let (e, h') = Ends-advance.at p h in (forget-HasEnded _ e, h') }

  -- `advance(p);` at a token that is not the end.
  pub skip-Ready :
      (p : Parser)
      → Ready target (suc n) p.lexer
      → is p.lexer.type tok_eof ≡ false
      → HasEnded (skip target p).0 × Ready target n (skip target p).1.lexer
  unfolding skip ignore advance
  skip-Ready p h e =
      let (e', h') =
        (lexed-Ends (pioasm_lexer_next target.float_bits p.lexer).0).at _
          (next-Ready-suc target n p.lexer h e) in
      (forget-HasEnded _ e', h')

  pub Ends-check : (type : Token) → Ends target n (check type)
  unfolding check
  Ends-check type = Ends-gets _

pub ruleset ends_rules =
    (Ends-pure, Ends-gets, Ends-if, Ends-bind, Ends-set_error, Ends-advance, Ends-skip, Ends-check)

other_token : (a b : Token) → is a b ≡ true → is b tok_eof ≡ false → is a tok_eof ≡ false
other_token a b e h = ground arith

-- `m` ends from the state `p`.
abbrev pub EndsAt : {A : Type 0} → Target → ℕ → Action A → Parser → Type 0
EndsAt target n m p = HasEnded (m p).0 × Ready target n (m p).1.lexer

-- From every state with fewer tokens left.
unfoldable pub EndsBelow : {A : Type 0} → Target → ℕ → Action A → Type 0
EndsBelow target n m = (k : ℕ) → k < n → Ends target k m

module _ (target : Target) {A : Type 0} where
  -- What follows a token that is not the end has fewer tokens left.
  pub taken :
      (n : ℕ) (rest : Action A) (p : Parser)
      → Ready target n p.lexer
      → is p.lexer.type tok_eof ≡ false
      → EndsBelow target n rest
      → EndsAt target n (skip target >> rest) p
  unfolding ◌>>=◌ EndsBelow remaining
  taken zero rest p h e below = absurd (ground (arith, h.bound, e))
  taken (suc n) rest p h e below =
      let (e', h') = skip-Ready p h e in
      let (e'', h'') =
        continue-Ends (skip target p).0 (λ _. rest) (skip target p).1 e' h'
          (λ _. below n (omega arith)) in
      (e'', Ready-weaken target n (suc n) _ (omega arith) h'')

  pub on_token :
      (n : ℕ) (type : Token) (rest other : Action A) (p : Parser)
      → is type tok_eof ≡ false
      → Ready target n p.lexer
      → EndsBelow target n rest
      → EndsAt target n other p
      → EndsAt target n (if is p.lexer.type type then (skip target >> rest) else other) p
  on_token n type rest other p not_end h below otherwise =
      elim (Bool-cases (is p.lexer.type type)) [
        | inl e ↦ rw e (taken n rest p h (other_token p.lexer.type type e not_end) below)
        | inr e ↦ rw e otherwise
      ]

  pub if-Ends :
      (n : ℕ) (b : Bool) (m k : Action A) (p : Parser)
      → (b ≡ true → EndsAt target n m p)
      → (b ≡ false → EndsAt target n k p)
      → EndsAt target n (if b then m else k) p
  if-Ends n true m k p f g = f refl
  if-Ends n false m k p f g = g refl
