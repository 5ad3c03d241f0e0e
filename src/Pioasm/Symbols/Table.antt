-- ===== src/Pioasm/Symbols/Table.antt =====
-- The symbol table of rp2/pioasm/pioasm_parser.c as a map from names to symbols.
use morelibc.Base.{
  ℕ, zero, suc, ◌≡◌, refl, sym, ap, ◌∙◌, Bool, true, false, Option, none, some, List, [], ◌∷◌, ◌++◌,
  arith, length, set, ==_refl, leb, if◌then◌else◌, inl, inr, Bool-cases, Option-cases,
}
use morelibc.Pioasm.Error.{err_duplicate_symbol, err_too_many_symbols}
use morelibc.Pioasm.Lexer.{same_text}
use morelibc.Pioasm.State.{
  Symbol, Parser, done, failed, Action, gets, modify, ◌>>=◌, continue, set_error,
}
use morelibc.Pioasm.Symbols.{find_symbol, new_symbol, push_symbol, resolve_symbol, add_symbol}

pub same_text_refl : (x : List ℕ) → same_text x x ≡ true
unfolding same_text
same_text_refl [] = refl
same_text_refl (c ∷ x) = rw (==_refl c) (same_text_refl x)

same_text→≡ : (x y : List ℕ) → same_text x y ≡ true → x ≡ y
unfolding same_text
same_text→≡ [] [] h = refl
same_text→≡ [] (d ∷ y) h = absurd (cc h)
same_text→≡ (c ∷ x) [] h = absurd (cc h)
same_text→≡ (c ∷ x) (d ∷ y) h = ground (arith, same_text→≡ x y)

pub find_symbol-push :
    (symbols : List Symbol) (new : Symbol) (name : List ℕ)
    → find_symbol symbols name ≡ none
    → same_text new.name name ≡ true
    → find_symbol (symbols ++ new ∷ []) name ≡ some (length symbols, new)
unfolding find_symbol
find_symbol-push [] new name n s = rw s refl
find_symbol-push (old ∷ symbols) new name n s = ground (arith, find_symbol-push symbols new name)

find_symbol-push_ne :
    (symbols : List Symbol) (new : Symbol) (name : List ℕ)
    → same_text new.name name ≡ false
    → find_symbol (symbols ++ new ∷ []) name ≡ find_symbol symbols name
unfolding find_symbol
find_symbol-push_ne [] new name s = rw s refl
find_symbol-push_ne (old ∷ symbols) new name s = rw (find_symbol-push_ne symbols new name s) refl

found_first :
    (first old : Symbol) (symbols : List Symbol) (name : List ℕ)
    → find_symbol (first ∷ symbols) name ≡ some (0, old)
    → (same_text first.name name ≡ true) × (first ≡ old)
unfolding find_symbol
found_first first old symbols name f = elim (Option-cases (find_symbol symbols name)) [
  | inl n ↦ ground (arith, n)
  | inr (x, n) ↦ ground (arith, n)
]

found_later :
    (first old : Symbol) (symbols : List Symbol) (name : List ℕ) (i : ℕ)
    → find_symbol (first ∷ symbols) name ≡ some (suc i, old)
    → (same_text first.name name ≡ false) × (find_symbol symbols name ≡ some (i, old))
unfolding find_symbol
found_later first old symbols name i f = elim (Option-cases (find_symbol symbols name)) [
  | inl n ↦ ground (arith, n)
  | inr (x, n) ↦ ground (arith, n)
]

find_symbol-set :
    (symbols : List Symbol) (new old : Symbol) (name : List ℕ) (i : ℕ)
    → find_symbol symbols name ≡ some (i, old)
    → new.name ≡ old.name
    → find_symbol (set symbols i new) name ≡ some (i, new)
unfolding find_symbol
find_symbol-set [] new old name i f e = absurd (cc f)
find_symbol-set (first ∷ symbols) new old name zero f e =
    let (t, same) = found_first first old symbols name f in
    rw (ap (λ x. same_text x name) (e ∙ sym (ap (λ s. s.name) same)) ∙ t) refl
find_symbol-set (first ∷ symbols) new old name (suc i) f e =
    let (t, f') = found_later first old symbols name i f in
    rw (t, find_symbol-set symbols new old name i f' e) refl

find_symbol-set_ne :
    (symbols : List Symbol) (new old : Symbol) (name other : List ℕ) (i : ℕ)
    → find_symbol symbols name ≡ some (i, old)
    → new.name ≡ old.name
    → same_text name other ≡ false
    → find_symbol (set symbols i new) other ≡ find_symbol symbols other
unfolding find_symbol
find_symbol-set_ne [] new old name other i f e s = absurd (cc f)
find_symbol-set_ne (first ∷ symbols) new old name other zero f e s =
    let (t, same) = found_first first old symbols name f in
    let first_name = same_text→≡ first.name name t in
    let new_name = e ∙ sym (ap (λ x. x.name) same) ∙ first_name in
    rw (ap (λ x. same_text x other) new_name ∙ s, ap (λ x. same_text x other) first_name ∙ s) refl
find_symbol-set_ne (first ∷ symbols) new old name other (suc i) f e s =
    let (t, f') = found_later first old symbols name i f in
    rw (find_symbol-set_ne symbols new old name other i f' e s) refl

found-name :
    (symbols : List Symbol) (s : Symbol) (name : List ℕ) (i : ℕ)
    → find_symbol symbols name ≡ some (i, s)
    → s.name ≡ name
unfolding find_symbol
found-name [] s name i f = absurd (cc f)
found-name (first ∷ symbols) s name zero f =
    let (t, same) = found_first first s symbols name f in
    ap (λ x. x.name) (sym same) ∙ same_text→≡ first.name name t
found-name (first ∷ symbols) s name (suc i) f =
    found-name symbols s name i (found_later first s symbols name i f).1

push_full :
    (new : Symbol) (p : Parser)
    → leb 8 (length p.symbols) ≡ true
    → (push_symbol new p).0 ≡ failed err_too_many_symbols
unfolding push_symbol gets modify set_error ◌>>=◌ continue
push_full new p full = rw full refl

push_fits :
    (new : Symbol) (p : Parser)
    → leb 8 (length p.symbols) ≡ false
    → (push_symbol new p).1.symbols ≡ p.symbols ++ new ∷ []
unfolding push_symbol gets modify set_error ◌>>=◌ continue
push_fits new p room = rw room refl

add_new :
    (name other : List ℕ) (value : ℕ) (is_label is_public : Bool) (p p' : Parser)
    → find_symbol p.symbols name ≡ none
    → same_text name other ≡ false
    → push_symbol (new_symbol name value is_label is_public true) p ≡ (done tt, p')
    → ((i : ℕ) × (find_symbol p'.symbols name
          ≡ some (i, new_symbol name value is_label is_public true)))
      × (find_symbol p'.symbols other ≡ find_symbol p.symbols other)
add_new name other value is_label is_public p p' n s e =
    let new = new_symbol name value is_label is_public true in
    elim (Bool-cases (leb 8 (length p.symbols))) [
      | inl full ↦ absurd (cc (sym (push_full new p full) ∙ ap (λ x. x.0) e))
      | inr room ↦
          let symbols = sym (ap (λ x. x.1.symbols) e) ∙ push_fits new p room in
          rw symbols (
            (length p.symbols, find_symbol-push p.symbols new name n (same_text_refl name)),
            find_symbol-push_ne p.symbols new other s,
          )
    ]

resolve_known :
    (i value : ℕ) (old : Symbol) (is_label is_public : Bool) (p : Parser)
    → old.is_resolved ≡ true
    → (resolve_symbol i old value is_label is_public p).0 ≡ failed err_duplicate_symbol
unfolding resolve_symbol modify set_error
resolve_known i value old is_label is_public p known = rw known refl

resolve_placeholder :
    (i value : ℕ) (old : Symbol) (is_label is_public : Bool) (p : Parser)
    → old.is_resolved ≡ false
    → (resolve_symbol i old value is_label is_public p).1.symbols
      ≡ set p.symbols i (new_symbol old.name value is_label is_public true)
unfolding resolve_symbol modify set_error
resolve_placeholder i value old is_label is_public p open_yet =
    ap
      (λ b.
        ((if b
            then set_error err_duplicate_symbol
            else modify (λ p. record p {
              symbols = set p.symbols i (new_symbol old.name value is_label is_public true);
            }))
          p).1.symbols)
      open_yet

add_known :
    (name other : List ℕ) (value i : ℕ) (old : Symbol) (is_label is_public : Bool) (p p' : Parser)
    → find_symbol p.symbols name ≡ some (i, old)
    → same_text name other ≡ false
    → resolve_symbol i old value is_label is_public p ≡ (done tt, p')
    → ((i : ℕ) × (find_symbol p'.symbols name
          ≡ some (i, new_symbol name value is_label is_public true)))
      × (find_symbol p'.symbols other ≡ find_symbol p.symbols other)
add_known name other value i old is_label is_public p p' n s e =
    let new = new_symbol name value is_label is_public true in
    let same = found-name p.symbols old name i n in
    elim (Bool-cases old.is_resolved) [
      | inl known ↦
          absurd (cc (sym (resolve_known i value old is_label is_public p known) ∙ ap (λ x. x.0) e))
      | inr room ↦
          let symbols =
            sym (ap (λ x. x.1.symbols) e)
            ∙ resolve_placeholder i value old is_label is_public p room
            ∙ ap (λ x. set p.symbols i (new_symbol x value is_label is_public true)) same in
          rw symbols (
            (i, find_symbol-set p.symbols new old name i n (sym same)),
            find_symbol-set_ne p.symbols new old name other i n (sym same) s,
          )
    ]

-- A symbol that was added is found under its name, with its value, and resolved; every other name finds what
-- it found before.
pub add_symbol-find_symbol :
    (name other : List ℕ) (value : ℕ) (is_label is_public : Bool) (p p' : Parser)
    → same_text name other ≡ false
    → add_symbol name value is_label is_public p ≡ (done tt, p')
    → ((i : ℕ) × (find_symbol p'.symbols name
          ≡ some (i, new_symbol name value is_label is_public true)))
      × (find_symbol p'.symbols other ≡ find_symbol p.symbols other)
unfolding add_symbol gets ◌>>=◌ continue
add_symbol-find_symbol name other value is_label is_public p p' s e =
    let new = new_symbol name value is_label is_public true in
    let branch = λ (o : Option (ℕ × Symbol)). elim o as (λ _. Action (Unit {0})) [
      | some (i, old) ↦ resolve_symbol i old value is_label is_public
      | none ↦ push_symbol new
    ] in
    elim (Option-cases (find_symbol p.symbols name)) [
      | inl n ↦
          add_new name other value is_label is_public p p' n s (sym (ap (λ o. branch o p) n) ∙ e)
      | inr (found, n) ↦
          add_known name other value found.0 found.1 is_label is_public p p' n s
            (sym (ap (λ o. branch o p) n) ∙ e)
    ]
