-- ===== src/Pioasm/Symbols/Resolve.antt =====
-- `resolve_forward_references` of rp2/pioasm/pioasm_parser.c.
use morelibc.Base.{
  ℕ, zero, suc, ◌+◌, ◌-◌, ◌*◌, ◌/◌, ◌%◌, ◌^◌, ◌<◌, ◌≡◌, ◌≢◌, refl, sym, ap, ◌∙◌, Option, none, some,
  List, [], ◌∷◌, arith, length, set, get_elem?, get_elem?-set_self, get_elem?-set_ne, inl, inr,
  Option-cases, bit_and, bit_or, bit_and-digit, bit_or-digit, bit_and_mask, bit_or-zero, All,
  All-map, Bool-cases, true,
}
use native.Mathlib.Nat.{pow-suc}
use morelibc.Pioasm.Error.{err_undefined_symbol}
use morelibc.Pioasm.State.{
  Symbol, Unresolved, Parser, done, Action, gets, modify, ◌>>=◌, ◌>>◌, continue, set_error, pure,
}
use morelibc.Pioasm.Symbols.{
  patch, resolved_value, patch_at, resolve_loop, resolve_forward_references,
}

-- `a` doubled and halved `k` times.
abbrev double : ℕ → ℕ → ℕ
double zero a = a
double (suc k) a = 2 * double k a

abbrev half : ℕ → ℕ → ℕ
half zero a = a
half (suc k) a = half k (a / 2)

two : (a : ℕ) → 2 * a / 2 ≡ a
two a = omega arith

none_left : (b : ℕ) → b < 2 ^ 0 → b ≡ 0
none_left b h = omega arith

or_even : (a b : ℕ) → bit_or (2 * a) b ≡ 2 * bit_or a (b / 2) + b % 2
or_even a b = omega (arith, bit_or-digit (2 * a) b, ap (λ x. bit_or x (b / 2)) (two a))

and_even : (a m : ℕ) → bit_and a (2 * m) ≡ 2 * bit_and (a / 2) m
and_even a m = omega (arith, bit_and-digit a (2 * m), ap (bit_and (a / 2)) (two m))

or_double : (k a b : ℕ) → b < 2 ^ k → bit_or (double k a) b ≡ double k a + b
or_double zero a b h = ap (bit_or a) (none_left b h) ∙ bit_or-zero a ∙ omega (arith, none_left b h)
or_double (suc k) a b h =
    omega (arith, or_even (double k a) b, or_double k a (b / 2) (omega (arith, pow-suc 2 k)))

and_double : (k a m : ℕ) → bit_and a (double k m) ≡ double k (bit_and (half k a) m)
and_double zero a m = refl
and_double (suc k) a m = omega (arith, and_even a (double k m), and_double k (a / 2) m)

-- A patch replaces the low five bits and keeps the others.
patch_lem : (instr value : ℕ) → instr < 2 ^ 16 → patch instr value ≡ instr / 32 * 32 + value % 32
unfolding patch
patch_lem instr value h =
    let q = bit_and (half 5 instr) (2 ^ 11 - 1) in
    let high = and_double 5 instr (2 ^ 11 - 1) in
    let low = bit_and_mask 5 value in
    let joined = or_double 5 q (value % 2 ^ 5) (omega arith) in
    ap (λ x. bit_or x (bit_and value 0x1f)) high
    ∙ ap (bit_or (double 5 q)) low
    ∙ omega (arith, joined, bit_and_mask 11 (half 5 instr))

-- The parser when a reference has been patched.
abbrev patched : Unresolved → ℕ → Parser → Parser
patched ref v p = record p { instructions = patch_at ref.instruction_index v p.instructions }

abbrev branch : Unresolved → List Unresolved → Option ℕ → Action (Unit {0})
branch ref refs value = elim value [
  | none ↦ set_error err_undefined_symbol
  | some v ↦ modify (patched ref v) >> resolve_loop refs
]

loop_step :
    (ref : Unresolved) (refs : List Unresolved) (p p' : Parser)
    → resolve_loop (ref ∷ refs) p ≡ (done tt, p')
    → (v : ℕ) × (resolved_value p.symbols ref ≡ some v)
      × (resolve_loop refs (patched ref v p) ≡ (done tt, p'))
unfolding resolve_loop gets modify set_error ◌>>=◌ continue
loop_step ref refs p p' e = elim (Option-cases (resolved_value p.symbols ref)) [
  | inl n ↦ absurd (cc (sym (ap (λ o. (branch ref refs o p).0) n) ∙ ap (λ x. x.0) e))
  | inr (v, n) ↦ (v, n, sym (ap (λ o. branch ref refs o p) n) ∙ e)
]

-- What a patch makes of the instruction at an index, if there is one.
abbrev pub patch_option : ℕ → Option ℕ → Option ℕ
patch_option v none = none
patch_option v (some w) = some (patch w v)

patch-none : (i v : ℕ) (ws : List ℕ) → get_elem? ws i ≡ none → patch_at i v ws ≡ ws
unfolding patch_at
patch-none i v ws n = rw (n, patch_at) refl

patch-some :
    (i v w : ℕ) (ws : List ℕ) → get_elem? ws i ≡ some w → patch_at i v ws ≡ set ws i (patch w v)
unfolding patch_at
patch-some i v w ws n = rw (n, patch_at) refl

some-lt : (ws : List ℕ) (i w : ℕ) → get_elem? ws i ≡ some w → i < length ws
some-lt [] i w e = absurd (cc e)
some-lt (x ∷ ws) zero w e = omega arith
some-lt (x ∷ ws) (suc i) w e = omega (arith, some-lt ws i w e)

patch_at_self :
    (i v : ℕ) (ws : List ℕ) → get_elem? (patch_at i v ws) i ≡ patch_option v (get_elem? ws i)
patch_at_self i v ws = elim (Option-cases (get_elem? ws i)) [
  | inl n ↦ ap (λ l. get_elem? l i) (patch-none i v ws n) ∙ n ∙ sym (ap (patch_option v) n)
  | inr (w, n) ↦
      ap (λ l. get_elem? l i) (patch-some i v w ws n)
      ∙ get_elem?-set_self ws i (patch w v) (some-lt ws i w n)
      ∙ sym (ap (patch_option v) n)
]

patch_at_other : (i j v : ℕ) (ws : List ℕ) → i ≢ j → get_elem? (patch_at i v ws) j ≡ get_elem? ws j
patch_at_other i j v ws h = elim (Option-cases (get_elem? ws i)) [
  | inl n ↦ ap (λ l. get_elem? l j) (patch-none i v ws n)
  | inr (w, n) ↦ ap (λ l. get_elem? l j) (patch-some i v w ws n) ∙ get_elem?-set_ne ws (patch w v) h
]

loop-other :
    (refs : List Unresolved) (p p' : Parser) (i : ℕ)
    → All (λ ref. ref.instruction_index ≢ i) refs
    → resolve_loop refs p ≡ (done tt, p')
    → get_elem? p'.instructions i ≡ get_elem? p.instructions i
unfolding resolve_loop pure
loop-other [] p p' i h e = ap (λ x. get_elem? x.1.instructions i) (sym e)
loop-other (ref ∷ refs) p p' i h e =
    let (v, n, rest) = loop_step ref refs p p' e in
    loop-other refs (patched ref v p) p' i h.1 rest
    ∙ patch_at_other ref.instruction_index i v p.instructions h.0

abbrev pub AreDistinct : List Unresolved → Type 0
AreDistinct [] = Unit
AreDistinct (ref ∷ refs) =
    All (λ other. other.instruction_index ≢ ref.instruction_index) refs × AreDistinct refs

-- The reference has a value, and the instruction is patched with it.
HasValue : Parser → Parser → Unresolved → Type 0
HasValue p p' ref =
    (v : ℕ) × (resolved_value p.symbols ref ≡ some v)
    × (get_elem? p'.instructions ref.instruction_index
        ≡ patch_option v (get_elem? p.instructions ref.instruction_index))

later-HasValue :
    (ref : Unresolved) (v : ℕ) (p p' : Parser) (refs : List Unresolved)
    → All (λ other. other.instruction_index ≢ ref.instruction_index) refs
    → All (HasValue (patched ref v p) p') refs
    → All (HasValue p p') refs
unfolding HasValue
later-HasValue ref v p p' [] h r = tt
later-HasValue ref v p p' (other ∷ refs) h ((w, n, g), r) = (
  (
    w,
    n,
    g
        ∙ ap (patch_option w) (
            patch_at_other ref.instruction_index other.instruction_index v p.instructions
              (λ e. h.0 (sym e))),
  ),
  later-HasValue ref v p p' refs h.1 r,
)

loop-HasValue :
    (refs : List Unresolved) (p p' : Parser)
    → AreDistinct refs
    → resolve_loop refs p ≡ (done tt, p')
    → All (HasValue p p') refs
unfolding HasValue
loop-HasValue [] p p' d e = tt
loop-HasValue (ref ∷ refs) p p' d e =
    let (v, n, rest) = loop_step ref refs p p' e in
    (
      (
        v,
        n,
        loop-other refs (patched ref v p) p' ref.instruction_index d.0 rest
            ∙ patch_at_self ref.instruction_index v p.instructions,
      ),
      later-HasValue ref v p p' refs d.0 (loop-HasValue refs (patched ref v p) p' d.1 rest),
    )

-- The reference's symbol is there and resolved, and the low five bits of its instruction are the symbol's
-- address, the others as before. No instruction is made where there was none.
pub record IsResolved (p p' : Parser) (ref : Unresolved) : Type 0 where
  pub symbol : Symbol
  pub found : get_elem? p.symbols ref.symbol_index ≡ some symbol
  pub has_address : symbol.is_resolved ≡ true
  pub patched_with :
      (instr : ℕ)
      → get_elem? p.instructions ref.instruction_index ≡ some instr
      → instr < 2 ^ 16
      → get_elem? p'.instructions ref.instruction_index ≡ some (instr / 32 * 32 + symbol.value % 32)
  pub outside :
      get_elem? p.instructions ref.instruction_index ≡ none
      → get_elem? p'.instructions ref.instruction_index ≡ none

resolved_value_lem :
    (symbols : List Symbol) (ref : Unresolved) (v : ℕ)
    → resolved_value symbols ref ≡ some v
    → (symbol : Symbol) × (get_elem? symbols ref.symbol_index ≡ some symbol)
      × (symbol.is_resolved ≡ true)
      × (symbol.value ≡ v)
unfolding resolved_value
resolved_value_lem symbols ref v e = elim (Option-cases (get_elem? symbols ref.symbol_index)) [
  | inl missing ↦ absurd (cc (rw (resolved_value, missing) at e))
  | inr (symbol, found) ↦ elim (Bool-cases symbol.is_resolved) [
    | inl known ↦ (symbol, found, known, cc (rw (resolved_value, found, known) at e))
    | inr unknown ↦ absurd (cc (rw (resolved_value, found, unknown) at e))
  ]
]

HasValue-IsResolved : (p p' : Parser) (ref : Unresolved) → HasValue p p' ref → IsResolved p p' ref
unfolding HasValue
HasValue-IsResolved p p' ref (v, e, g) =
    let (symbol, found, has_address, value) = resolved_value_lem p.symbols ref v e in
    record {
      symbol = symbol;
      found = found;
      has_address = has_address;
      patched_with = λ instr at small.
          g
          ∙ ap (patch_option v) at
          ∙ ap some (patch_lem instr v small ∙ ap (λ n. instr / 32 * 32 + n % 32) (sym value));
      outside = λ at. g ∙ ap (patch_option v) at;
    }

-- If no two references are to one instruction and `resolve_forward_references` succeeds, then every
-- reference's symbol is resolved, and its address stands in the low five bits of the instruction, a word of
-- 16 bits, whose other bits stay.
pub resolve_forward_references_lem :
    (p p' : Parser)
    → AreDistinct p.unresolved
    → resolve_forward_references p ≡ (done tt, p')
    → All (IsResolved p p') p.unresolved
unfolding resolve_forward_references gets ◌>>=◌ continue
resolve_forward_references_lem p p' d e =
    All-map (HasValue p p') (IsResolved p p') p.unresolved (HasValue-IsResolved p p')
      (loop-HasValue p.unresolved p p' d e)
