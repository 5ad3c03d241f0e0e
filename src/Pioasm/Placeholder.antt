-- ===== src/Pioasm/Placeholder.antt =====
-- A second forward reference to a label in rp2/pioasm/pioasm_parser.c.
use morelibc.Base.{
  ℕ, ◌<◌, ◌≡◌, refl, ap, ◌∙◌, Bool, true, false, Option, none, some, List, [], ◌∷◌, ◌++◌, arith,
  length, leb, c_string,
}
use morelibc.Pioasm.Error.{Error}
use morelibc.Pioasm.Lexer.{Lexer}
use morelibc.Pioasm.Target.{Target}
use morelibc.Pioasm.State.{
  Symbol, Parser, done, pure, gets, modify, ◌>>=◌, continue, advance, lexed, skip, ignore, forget,
  set_error, str_value,
}
use morelibc.Pioasm.Symbols.{
  find_symbol, new_symbol, push_symbol, push_unresolved, push_placeholder, add_unresolved,
}
use morelibc.Pioasm.Symbols.Table.{find_symbol-push, same_text_refl}
use morelibc.Pioasm.Expr.{symbol_value, parse_id_or_symbol}

module _ (target : Target) where
  lexed-done : (e : Option Error) (p : Parser) → forget (lexed e p).0 ≡ done tt
  unfolding lexed forget set_error pure
  lexed-done none p = refl
  lexed-done (some e) p = refl

  -- `skip` always goes on.
  skip-done : (p : Parser) → (skip target p).0 ≡ done tt
  unfolding skip ignore advance
  skip-done p = lexed-done _ _

  id_value :
      (p : Parser) (found : Option (ℕ × Symbol))
      → find_symbol p.symbols (c_string p.lexer.value) ≡ found
      → (parse_id_or_symbol target p).0
        ≡ done (
          symbol_value found,
          elim found as (λ _. Option (List ℕ)) [
            | none ↦ some (c_string p.lexer.value)
            | some x ↦ none
          ],
        )
  unfolding parse_id_or_symbol str_value gets ◌>>=◌ continue pure
  id_value p found e = rw (skip-done p) (
      ap
        (λ found. done (
          symbol_value found,
          elim found as (λ _. Option (List ℕ)) [
            | none ↦ some (c_string p.lexer.value)
            | some x ↦ none
          ],
        ))
        e)

placeholder-symbols :
    (index : ℕ) (name : List ℕ) (is_relative : Bool) (p : Parser)
    → find_symbol p.symbols name ≡ none
    → leb 8 (length p.unresolved) ≡ false
    → leb 8 (length p.symbols) ≡ false
    → (add_unresolved index name is_relative p).1.symbols
      ≡ p.symbols ++ new_symbol name 0 true false false ∷ []
unfolding add_unresolved push_placeholder push_symbol push_unresolved gets modify ◌>>=◌ continue
placeholder-symbols index name is_relative p n free room = rw (free, n, room) refl

-- A jump to a label that stands further on makes a reference. If the next name that is parsed as a jump's
-- address is that label again, still without an address, it is taken for a symbol with the address 0: its
-- name, by which a reference would be made, is not returned.
pub parse_id_or_symbol-placeholder :
    (target : Target) (index : ℕ) (name : List ℕ) (is_relative : Bool) (p : Parser) (lexer : Lexer)
    → find_symbol p.symbols name ≡ none
    → length p.unresolved < 8
    → length p.symbols < 8
    → c_string lexer.value ≡ name
    → (parse_id_or_symbol target
        (record (add_unresolved index name is_relative p).1 { lexer = lexer })).0
      ≡ done (0, none)
unfolding symbol_value
parse_id_or_symbol-placeholder target index name is_relative p lexer n free room same =
    let placeholder = new_symbol name 0 true false false in
    let known = placeholder-symbols index name is_relative p n (ground arith) (ground arith) in
    let found = find_symbol-push p.symbols placeholder name n (same_text_refl name) in
    id_value target (record (add_unresolved index name is_relative p).1 { lexer = lexer })
      (some (length p.symbols, placeholder))
      (ap (λ s. find_symbol s (c_string lexer.value)) known
        ∙ ap (find_symbol (p.symbols ++ placeholder ∷ [])) same
        ∙ found)
