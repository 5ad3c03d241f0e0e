-- ===== src/Vfs/Path/Expand.antt =====
-- `vfs_expand_path` (morelib/vfs.c) on paths with no ".." segment: what it builds in the buffer.
use morelibc.Base.{
  ℕ, ◌+◌, ◌-◌, ◌≤◌, ◌<◌, ◌≡◌, refl, sym, ap, ap₂, ◌∙◌, inl, inr, Bool, true, false, ◌&&◌, ◌||◌,
  List, [], ◌∷◌, ◌++◌, append-nil, append_assoc, length, length-append, length-drop, drop, ltb,
  ◌==◌, if◌then◌else◌, Bool-cases, subst, ◌⊎◌, store, store-append, c_string, c_string-append,
  NulFree, Result, ok, err, enametoolong, arith,
}
use morelibc.Vfs.Path.{slash, dot, strncmp, Cursor, expand_step, finish}
use morelibc.Vfs.Path.Segments.{expand_segments}

-- The empty segment and ".".
abbrev pub is_skipped : List ℕ → Bool
is_skipped [] = true
is_skipped (x ∷ []) = x == dot
is_skipped (x ∷ y ∷ s) = false

abbrev pub is_dotdot : List ℕ → Bool
is_dotdot [] = false
is_dotdot (x ∷ []) = false
is_dotdot (x ∷ y ∷ []) = x == dot && y == dot
is_dotdot (x ∷ y ∷ z ∷ s) = false

abbrev pub NoDotDot : List (List ℕ) → Type 0
NoDotDot [] = Unit {0}
NoDotDot (s ∷ ss) = (is_dotdot s ≡ false) × NoDotDot ss

-- A slash before each segment that is kept.
abbrev pub joined : List (List ℕ) → List ℕ
joined [] = []
joined (s ∷ ss) = if is_skipped s then joined ss else slash ∷ s ++ joined ss

skipped_test : (s : List ℕ) → (length s == 0 || strncmp s (dot ∷ []) (length s)) ≡ is_skipped s
unfolding strncmp
skipped_test [] = refl
skipped_test (x ∷ []) = ground arith
skipped_test (x ∷ y ∷ s) = ground arith

dotdot_test :
    (s : List ℕ) → is_skipped s ≡ false → strncmp s (dot ∷ dot ∷ []) (length s) ≡ is_dotdot s
unfolding strncmp
dotdot_test [] e = cc
dotdot_test (x ∷ []) e = ground arith
dotdot_test (x ∷ y ∷ []) e = ground arith
dotdot_test (x ∷ y ∷ z ∷ s) e = ground arith

-- The buffer holds the text `a`, and `out` stands behind it.
pub record Holds (c : Cursor) (a : List ℕ) : Type 0 where
  pub rest : List ℕ
  pub text : c.buf ≡ a ++ rest
  pub out : c.out ≡ length a
  pub room : length a + length rest ≡ 254

skip_step : (c : Cursor) (s : List ℕ) → is_skipped s ≡ true → expand_step c s ≡ ok c
unfolding expand_step
skip_step c s e = rw (skipped_test s) (rw e)

abbrev grown : Cursor → List ℕ → Cursor
grown c s = record {
  buf = store (store c.buf c.out (slash ∷ 0 ∷ [])) (c.out + 1) s;
  out = c.out + 1 + length s;
}

keep_step :
    (c : Cursor) (s : List ℕ)
    → is_skipped s ≡ false
    → is_dotdot s ≡ false
    → expand_step c s
      ≡ (if ltb (2 + c.out + length s) 255 then ok (grown c s) else err enametoolong)
unfolding expand_step
keep_step c s e d = rw (skipped_test s, e, dotdot_test s e, d)

grown-Holds :
    (c : Cursor) (a s : List ℕ)
    → Holds c a
    → length a + 1 + length s ≤ 253
    → Holds (grown c s) (a ++ slash ∷ s)
grown-Holds c a s h f =
    let left = 0 ∷ drop 2 h.rest in
    let slashed : store c.buf c.out (slash ∷ 0 ∷ []) ≡ (a ++ slash ∷ []) ++ left =
      ap₂ (λ b o. store b o (slash ∷ 0 ∷ [])) h.text h.out
      ∙ store-append (slash ∷ 0 ∷ []) a h.rest (length a) refl (omega (arith, h.room))
      ∙ append_assoc a (slash ∷ 0 ∷ []) (drop 2 h.rest)
      ∙ sym (append_assoc a (slash ∷ []) left) in
    let many : length left ≡ 253 - length a = omega (arith, length-drop 2 h.rest, h.room) in
    record {
      rest = drop (length s) left;
      text =
          ap₂ (λ b o. store b o s) slashed (ap (λ j. j + 1) h.out)
          ∙ store-append s (a ++ slash ∷ []) left (length a + 1)
              (omega (arith, length-append a (slash ∷ []))) (omega arith)
          ∙ ap (λ l. l ++ drop (length s) left) (append_assoc a (slash ∷ []) s);
      out = omega (arith, h.out, length-append a (slash ∷ s));
      room = omega (arith, length-append a (slash ∷ s), length-drop (length s) left);
    }

-- What the run over the segments comes to.
abbrev pub Outcome : Result Cursor → List ℕ → Type 0
Outcome r a =
    ((length a ≤ 253) × ((c : Cursor) × (r ≡ ok c) × Holds c a))
    ⊎ ((253 < length a) × (r ≡ err enametoolong))

pub run-Outcome :
    (c : Cursor) (a : List ℕ) (ss : List (List ℕ))
    → Holds c a
    → length a ≤ 253
    → NoDotDot ss
    → Outcome (expand_segments c ss) (a ++ joined ss)
unfolding expand_segments
run-Outcome c a [] h l d =
    inl (omega (arith, ap (λ t. length t) (append-nil a)), (c, refl, rw append-nil h))
run-Outcome c a (s ∷ ss) h l d = elim (Bool-cases (is_skipped s)) [
  | inl skip ↦ rw (skip_step c s skip, skip) (run-Outcome c a ss h l d.1)
  | inr keep ↦
      rw (keep_step c s keep d.0, keep)
        (elim (Bool-cases (ltb (2 + c.out + length s) 255)) [
          | inl fits ↦ rw fits (
              let f : length a + 1 + length s ≤ 253 = ground (arith, h.out) in
              subst (λ t. Outcome (expand_segments (grown c s) ss) t)
                (append_assoc a (slash ∷ s) (joined ss))
                (run-Outcome (grown c s) (a ++ slash ∷ s) ss (grown-Holds c a s h f)
                  (omega (arith, length-append a (slash ∷ s))) d.1))
          | inr over ↦ rw over (
              inr (
                ground (
                  arith,
                  h.out,
                  length-append a (slash ∷ (s ++ joined ss)),
                  length-append s (joined ss),
                ),
                refl,
              ))
        ])
]

-- The empty text stands for the root.
abbrev pub rooted : List ℕ → List ℕ
rooted [] = slash ∷ []
rooted (x ∷ a) = x ∷ a

root_only :
    (r : List ℕ)
    → 2 ≤ length r
    → c_string (store (store r 0 (slash ∷ 0 ∷ [])) 1 (0 ∷ [])) ≡ slash ∷ []
unfolding store c_string
root_only [] h = absurd (omega arith)
root_only (x ∷ []) h = absurd (omega arith)
root_only (x ∷ y ∷ r) h = refl

pub finish-rooted :
    (c : Cursor) (a : List ℕ) → Holds c a → length a ≤ 253 → NulFree a → finish c ≡ rooted a
unfolding finish
finish-rooted c [] h l f =
    let empty : (c.out == 0) ≡ true = ground (arith, h.out) in
    rw empty (
      ap (λ b. c_string (store (store b 0 (slash ∷ 0 ∷ [])) 1 (0 ∷ []))) h.text
      ∙ root_only h.rest (omega (arith, h.room)))
finish-rooted c (x ∷ a) h l f =
    let more : (c.out == 0) ≡ false = ground (arith, h.out) in
    rw more (
      ap c_string (
        ap₂ (λ b o. store b o (0 ∷ [])) h.text h.out
        ∙ store-append (0 ∷ []) (x ∷ a) h.rest _ refl (omega (arith, h.room, l))
        ∙ append_assoc (x ∷ a) (0 ∷ []) (drop 1 h.rest))
      ∙ c_string-append (x ∷ a) (drop 1 h.rest) f)
