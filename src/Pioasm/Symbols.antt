-- ===== src/Pioasm/Symbols.antt =====
-- The symbol table and the forward references of rp2/pioasm/pioasm_parser.c.
pub mod Table
pub mod Resolve
use morelibc.Base.{
  ℕ, zero, suc, ◌+◌, ◌*◌, Bool, true, false, ◌||◌, Option, none, some, List, [], ◌∷◌, ◌++◌, length,
  set, get_elem?, leb, if◌then◌else◌, bit_and, bit_or,
}
use morelibc.Pioasm.Error.{Error, err_duplicate_symbol, err_too_many_symbols, err_undefined_symbol}
use morelibc.Pioasm.Lexer.{same_text}
use morelibc.Pioasm.State.{
  Symbol, Unresolved, Parser, Action, pure, gets, modify, ◌>>=◌, ◌>>◌, set_error, max_symbols,
}

-- `find_symbol`: the first symbol of the name, with its index.
unfoldable pub find_symbol : List Symbol → List ℕ → Option (ℕ × Symbol)
find_symbol [] name = none
find_symbol (sym ∷ symbols) name =
    if same_text sym.name name
    then some (0, sym)
    else elim (find_symbol symbols name) [ none ↦ none | some (i, found) ↦ some (suc i, found) ]

abbrev pub new_symbol : List ℕ → ℕ → Bool → Bool → Bool → Symbol
new_symbol name value is_label is_public is_resolved = record {
  name = name;
  value = value;
  is_label = is_label;
  is_public = is_public;
  is_resolved = is_resolved;
}

-- A symbol behind the others, if there is room.
unfoldable pub push_symbol : Symbol → Action (Unit {0})
push_symbol sym = do
  count ← gets (λ p. length p.symbols)
  if leb max_symbols count
      then set_error err_too_many_symbols
      else modify (λ p. record p { symbols = p.symbols ++ sym ∷ [] })

-- The branch of `add_symbol` for a symbol that exists: it may be a placeholder.
unfoldable pub resolve_symbol : ℕ → Symbol → ℕ → Bool → Bool → Action (Unit {0})
resolve_symbol i sym value is_label is_public =
    if sym.is_resolved
    then set_error err_duplicate_symbol
    else modify (λ p. record p {
      symbols = set p.symbols i (new_symbol sym.name value is_label is_public true);
    })

unfoldable pub add_symbol : List ℕ → ℕ → Bool → Bool → Action (Unit {0})
add_symbol name value is_label is_public = do
  existing ← gets (λ p. find_symbol p.symbols name)
  elim existing [
    | some (i, sym) ↦ resolve_symbol i sym value is_label is_public
    | none ↦ push_symbol (new_symbol name value is_label is_public true)
  ]

unfoldable pub push_unresolved : ℕ → ℕ → Bool → Action (Unit {0})
push_unresolved instr_idx sym_index is_relative = modify (λ p. record p {
  unresolved =
      p.unresolved
      ++ record {
        instruction_index = instr_idx;
        symbol_index = sym_index;
        is_relative = is_relative;
      }
        ∷ [];
})

-- A reference to a new placeholder.
unfoldable pub push_placeholder : ℕ → List ℕ → Bool → Action (Unit {0})
push_placeholder instr_idx name is_relative = do
  sym_index ← gets (λ p. length p.symbols)
  push_symbol (new_symbol name 0 true false false)
  push_unresolved instr_idx sym_index is_relative

unfoldable pub add_unresolved : ℕ → List ℕ → Bool → Action (Unit {0})
add_unresolved instr_idx name is_relative = do
  count ← gets (λ p. length p.unresolved)
  found ← gets (λ p. find_symbol p.symbols name)
  if leb max_symbols count then set_error err_too_many_symbols else elim found [
    | some (sym_index, sym) ↦ push_unresolved instr_idx sym_index is_relative
    | none ↦ push_placeholder instr_idx name is_relative
  ]

-- `(instr & 0xFFE0) | (value & 0x1F)`
unfoldable pub patch : ℕ → ℕ → ℕ
patch instr value = bit_or (bit_and instr 0xffe0) (bit_and value 0x1f)

-- What a reference asks for: the index of its instruction and the address, if its symbol is resolved.
unfoldable pub resolved_value : List Symbol → Unresolved → Option ℕ
resolved_value symbols ref = elim (get_elem? symbols ref.symbol_index) [
  | none ↦ none
  | some sym ↦ if sym.is_resolved then some sym.value else none
]

unfoldable pub patch_at : ℕ → ℕ → List ℕ → List ℕ
patch_at i value instructions = elim (get_elem? instructions i) [
  | none ↦ instructions
  | some instr ↦ set instructions i (patch instr value)
]

-- The loop of `resolve_forward_references`.
unfoldable pub resolve_loop : List Unresolved → Action (Unit {0})
resolve_loop [] = pure tt
resolve_loop (ref ∷ refs) = do
  value ← gets (λ p. resolved_value p.symbols ref)
  elim value [
    | none ↦ set_error err_undefined_symbol
    | some v ↦
        modify (λ p. record p { instructions = patch_at ref.instruction_index v p.instructions })
        >> resolve_loop refs
  ]

unfoldable pub resolve_forward_references : Action (Unit {0})
resolve_forward_references = do refs ← gets (λ p. p.unresolved); resolve_loop refs
