-- ===== src/Pioasm/Invariant/Primitives.antt =====
-- Bounds of the parser of rp2/pioasm/pioasm_parser.c: the actions that write its state.
use morelibc.Base.{
  ℕ, ◌%◌, ◌^◌, ◌<◌, Bool, Option, none, some, List, [], ◌∷◌, ◌++◌, arith, length, set, All-append,
  All-map, All-set, leb, ltb, ltb→lt, length-append, length-set,
}
use morelibc.Pioasm.Error.{
  Error, err_duplicate_symbol, err_too_many_instructions, err_too_many_symbols,
}
use morelibc.Pioasm.Target.{Target}
use morelibc.Pioasm.State.{
  Parser, Symbol, Unresolved, modify, note_error, set_error, lexed, advance, add_instruction,
}
use morelibc.Pioasm.State.Keeps.{
  Keeps, keeps_rules, Keeps-modify, Keeps-if, Keeps-gets-bind, if-keeps,
}
use morelibc.Pioasm.Symbols.{push_symbol, resolve_symbol}
use morelibc.Pioasm.Invariant.{IsInRange, TableBounds, IsBounded}

pub note_error-IsBounded : (e : Error) (p : Parser) → IsBounded p → IsBounded (note_error e p)
unfolding note_error
note_error-IsBounded e p h =
    elim p.error
      as (λ o.
        IsBounded
          (elim o [ none ↦ record p { error = some (e, p.lexer.line) } | some first ↦ p ])) [
            | none ↦ record { tables = h.tables; config = h.config }
            | some first ↦ h
          ]

pub set_error-IsBounded : {A : Type 0} (e : Error) → Keeps IsBounded (set_error {A = A} e)
unfolding set_error
set_error-IsBounded e = record { at = note_error-IsBounded e }

lexed-IsBounded : (e : Option Error) → Keeps IsBounded (lexed e)
unfolding lexed
lexed-IsBounded none = search keeps_rules
lexed-IsBounded (some e) = set_error-IsBounded e

pub advance-IsBounded : (target : Target) → Keeps IsBounded (advance target)
unfolding advance
advance-IsBounded target = record {
  at = λ p h. (lexed-IsBounded _).at _ record { tables = h.tables; config = h.config };
}

push_word :
    (w : ℕ) (ws : List ℕ) (symbols : List Symbol) (refs : List Unresolved)
    → length ws < 32
    → w < 2 ^ 16
    → TableBounds ws symbols refs
    → TableBounds (ws ++ w ∷ []) symbols refs
push_word w ws symbols refs room fits h = record {
  instruction_count = omega (arith, length-append ws (w ∷ []));
  words = All-append _ ws _ h.words (fits, tt);
  symbol_count = h.symbol_count;
  reference_count = h.reference_count;
  references =
      All-map _ _ refs
        (λ ref r. record {
          instruction_index = omega (arith, length-append ws (w ∷ []), r.instruction_index);
          symbol_index = r.symbol_index;
        })
        h.references;
}

pub push_symbol_lem :
    (sym : Symbol) (ws : List ℕ) (symbols : List Symbol) (refs : List Unresolved)
    → length symbols < 8
    → TableBounds ws symbols refs
    → TableBounds ws (symbols ++ sym ∷ []) refs
push_symbol_lem sym ws symbols refs room h = record {
  instruction_count = h.instruction_count;
  words = h.words;
  symbol_count = omega (arith, length-append symbols (sym ∷ []));
  reference_count = h.reference_count;
  references =
      All-map _ _ refs
        (λ ref r. record {
          instruction_index = r.instruction_index;
          symbol_index = omega (arith, length-append symbols (sym ∷ []), r.symbol_index);
        })
        h.references;
}

set_symbol :
    (i : ℕ) (sym : Symbol) (ws : List ℕ) (symbols : List Symbol) (refs : List Unresolved)
    → TableBounds ws symbols refs
    → TableBounds ws (set symbols i sym) refs
set_symbol i sym ws symbols refs h = record {
  instruction_count = h.instruction_count;
  words = h.words;
  symbol_count = omega (arith, length-set symbols i sym, h.symbol_count);
  reference_count = h.reference_count;
  references =
      All-map _ _ refs
        (λ ref r. record {
          instruction_index = r.instruction_index;
          symbol_index = omega (arith, length-set symbols i sym, r.symbol_index);
        })
        h.references;
}

pub push_ref :
    (ref : Unresolved) (ws : List ℕ) (symbols : List Symbol) (refs : List Unresolved)
    → length refs < 8
    → IsInRange ws symbols ref
    → TableBounds ws symbols refs
    → TableBounds ws symbols (refs ++ ref ∷ [])
push_ref ref ws symbols refs room r h = record {
  instruction_count = h.instruction_count;
  words = h.words;
  symbol_count = h.symbol_count;
  reference_count = omega (arith, length-append refs (ref ∷ []));
  references = All-append _ refs _ h.references (r, tt);
}

pub set_word :
    (i w : ℕ) (ws : List ℕ) (symbols : List Symbol) (refs : List Unresolved)
    → w < 2 ^ 16
    → TableBounds ws symbols refs
    → TableBounds (set ws i w) symbols refs
set_word i w ws symbols refs fits h = record {
  instruction_count = omega (arith, length-set ws i w, h.instruction_count);
  words = All-set _ ws i w fits h.words;
  symbol_count = h.symbol_count;
  reference_count = h.reference_count;
  references =
      All-map _ _ refs
        (λ ref r. record {
          instruction_index = omega (arith, length-set ws i w, r.instruction_index);
          symbol_index = r.symbol_index;
        })
        h.references;
}

pub add_instruction-IsBounded : (instr : ℕ) → Keeps IsBounded (add_instruction instr)
unfolding add_instruction modify
add_instruction-IsBounded instr = Keeps-gets-bind _ _ λ p h.
    if-keeps IsBounded (ltb (length p.instructions) 32) _ _ p
      (λ e. record {
        tables = push_word (instr % 2 ^ 16) _ _ _ (ltb→lt _ _ e) (omega arith) h.tables;
        config = h.config;
      })
      (λ e. (set_error-IsBounded err_too_many_instructions).at p h)

pub push_symbol-IsBounded : (s : Symbol) → Keeps IsBounded (push_symbol s)
unfolding push_symbol modify
push_symbol-IsBounded s = Keeps-gets-bind _ _ λ p h.
    if-keeps IsBounded (leb 8 (length p.symbols)) _ _ p
      (λ e. (set_error-IsBounded err_too_many_symbols).at p h)
      (λ e. record { tables = push_symbol_lem s _ _ _ (ground arith) h.tables; config = h.config })

pub resolve_symbol-IsBounded :
    (i : ℕ) (sym : Symbol) (value : ℕ) (is_label is_public : Bool)
    → Keeps IsBounded (resolve_symbol i sym value is_label is_public)
unfolding resolve_symbol
resolve_symbol-IsBounded i sym value is_label is_public =
    Keeps-if _ _ _ (set_error-IsBounded err_duplicate_symbol)
      (Keeps-modify _ λ p h. record { tables = set_symbol i _ _ _ _ h.tables; config = h.config })
