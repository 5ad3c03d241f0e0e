-- ===== src/Pioasm/Invariant/References.antt =====
-- Bounds of the parser of rp2/pioasm/pioasm_parser.c: the forward references.
use morelibc.Base.{
  ℕ, ◌^◌, ◌<◌, ◌≡◌, Bool, true, false, some, List, [], ◌∷◌, arith, length, leb, inl, inr,
  Bool-cases, Option-cases, length-append, get_elem?, bit_or-lt, bit_and-le, bit_and_mask, All-get,
}
use morelibc.Pioasm.Error.{err_too_many_symbols, err_undefined_symbol}
use morelibc.Pioasm.State.{Parser, Symbol, Unresolved, gets, modify, ◌>>=◌, set_error, continue}
use morelibc.Pioasm.State.Keeps.{
  Keeps, keeps_rules, Keeps-modify, Keeps-elim, Keeps-bind, Keeps-gets, if-keeps,
}
use morelibc.Pioasm.Symbols.{
  find_symbol, new_symbol, push_symbol, add_symbol, push_unresolved, push_placeholder,
  add_unresolved, patch, patch_at, resolve_loop, resolve_forward_references,
}
use morelibc.Pioasm.Invariant.{TableBounds, IsBounded}
use morelibc.Pioasm.Invariant.Primitives.{
  note_error-IsBounded, set_error-IsBounded, push_ref, push_symbol_lem, set_word,
  push_symbol-IsBounded, resolve_symbol-IsBounded,
}

pub find_symbol-lt :
    (symbols : List Symbol) (name : List ℕ) (i : ℕ) (found : Symbol)
    → find_symbol symbols name ≡ some (i, found)
    → i < length symbols
unfolding find_symbol
find_symbol-lt [] name i found e = absurd (cc e)
find_symbol-lt (s ∷ symbols) name i found e = elim (Option-cases (find_symbol symbols name)) [
  | inl n ↦ ground arith
  | inr (f, n) ↦ ground (arith, find_symbol-lt symbols name f.0 f.1 n)
]

placeholder_keeps :
    (i : ℕ) (name : List ℕ) (r : Bool) (p : Parser)
    → IsBounded p
    → i < length p.instructions
    → length p.unresolved < 8
    → IsBounded (push_placeholder i name r p).1
unfolding push_placeholder gets ◌>>=◌ continue push_symbol push_unresolved modify set_error
placeholder_keeps i name r p h room free = elim (Bool-cases (leb 8 (length p.symbols))) [
  | inl e ↦ rw e (note_error-IsBounded err_too_many_symbols p h)
  | inr e ↦ rw e record {
    tables =
        push_ref _ _ _ _ free
          record {
            instruction_index = room;
            symbol_index =
                omega (arith, length-append p.symbols (new_symbol name 0 true false false ∷ []));
          }
          (push_symbol_lem _ _ _ _ (ground arith) h.tables);
    config = h.config;
  }
]

pub add_unresolved_keeps :
    (i : ℕ) (name : List ℕ) (r : Bool) (p : Parser)
    → IsBounded p
    → i < length p.instructions
    → IsBounded (add_unresolved i name r p).1
unfolding add_unresolved gets ◌>>=◌ continue push_unresolved modify
add_unresolved_keeps i name r p h room =
    if-keeps IsBounded (leb 8 (length p.unresolved)) _ _ p
      (λ e. (set_error-IsBounded err_too_many_symbols).at p h)
      (λ e. elim (Option-cases (find_symbol p.symbols name)) [
        | inl n ↦ rw n (placeholder_keeps i name r p h room (ground arith))
        | inr (s, n) ↦ rw n record {
          tables =
              push_ref _ _ _ _ (ground arith)
                record {
                  instruction_index = room;
                  symbol_index = find_symbol-lt p.symbols name s.0 s.1 n;
                }
                h.tables;
          config = h.config;
        }
      ])

pub add_symbol-IsBounded :
    (name : List ℕ) (value : ℕ) (is_label is_public : Bool)
    → Keeps IsBounded (add_symbol name value is_label is_public)
unfolding add_symbol
add_symbol-IsBounded name value is_label is_public = Keeps-bind _ _ (Keeps-gets _) λ existing.
    Keeps-elim existing _ _ (push_symbol-IsBounded _) (λ found. resolve_symbol-IsBounded _ _ _ _ _)

patch-lt : (instr value : ℕ) → instr < 2 ^ 16 → patch instr value < 2 ^ 16
unfolding patch
patch-lt instr value h =
    bit_or-lt 16 _ _ (omega (arith, bit_and-le 16 instr 0xffe0 h))
      (omega (arith, bit_and_mask 5 value))

patch_at-bounds :
    (i v : ℕ) (ws : List ℕ) (symbols : List Symbol) (refs : List Unresolved)
    → TableBounds ws symbols refs
    → TableBounds (patch_at i v ws) symbols refs
unfolding patch_at
patch_at-bounds i v ws symbols refs h = elim (Option-cases (get_elem? ws i)) [
  | inl n ↦ rw (n, patch_at) h
  | inr (w, n) ↦
      rw (n, patch_at) (set_word i (patch w v) _ _ _ (patch-lt w v (All-get _ ws i w n h.words)) h)
]

resolve_loop-IsBounded : (refs : List Unresolved) → Keeps IsBounded (resolve_loop refs)
unfolding resolve_loop
resolve_loop-IsBounded [] = search keeps_rules
resolve_loop-IsBounded (ref ∷ refs) = Keeps-bind _ _ (Keeps-gets _) λ value.
    Keeps-elim _ _ _ (set_error-IsBounded err_undefined_symbol) (λ v.
      Keeps-bind _ _
        (Keeps-modify _ λ p h. record {
          tables = patch_at-bounds ref.instruction_index v _ _ _ h.tables;
          config = h.config;
        })
        (λ _. resolve_loop-IsBounded refs))

pub resolve_forward_references-IsBounded : Keeps IsBounded resolve_forward_references
unfolding resolve_forward_references
resolve_forward_references-IsBounded = Keeps-bind _ _ (Keeps-gets _) resolve_loop-IsBounded
