-- ===== src/Ring/Chr.antt =====
-- `ring_chr` of morelib/ring.c searches the bytes that the ring holds.
use native.Mathlib.Nat.{mod-lt, add-zero}
use morelibc.Base.{
  load, ℕ, zero, suc, ◌+◌, ◌-◌, ◌%◌, ◌^◌, ◌≤◌, ◌<◌, min, ◌≡◌, refl, sym, ap, ap₂, ◌∙◌, inl, inr,
  Option, none, some, Option-cases, List, [], ◌∷◌, ◌++◌, length, get_or, take, ltb, ◌==◌,
  Bool-cases, u32, sub_u32, arith,
}
use morelibc.Ring.{Ring, memchr, ring_chr_loop, ring_chr}
use morelibc.Ring.Contents.{contents, span, span_append, span-load, length-span}
use morelibc.Ring.Invariant.{IsValid, size_pos, ring_at_lem}

-- A position found `n` places on.
abbrev shift : ℕ → Option ℕ → Option ℕ
shift n none = none
shift n (some i) = some (n + i)

shift-shift : (a b c : ℕ) (o : Option ℕ) → c ≡ a + b → shift a (shift b o) ≡ shift c o
shift-shift a b c none e = refl
shift-shift a b c (some i) e = ap (λ (j : ℕ). some j) (omega arith)

shift-zero : (o : Option ℕ) → shift 0 o ≡ o
shift-zero none = refl
shift-zero (some i) = ap (λ (j : ℕ). some j) (omega arith)

-- A search of two parts goes to the second if the first has no match.
memchr-append_hit :
    (xs ys : List ℕ) (ch i : ℕ) → memchr xs ch ≡ some i → memchr (xs ++ ys) ch ≡ some i
unfolding memchr
memchr-append_hit [] ys ch i e = cc
memchr-append_hit (x ∷ xs) ys ch i e = elim (Bool-cases (x == ch)) [
  | inl here ↦ ground arith
  | inr there ↦ elim (Option-cases (memchr xs ch)) [
    | inl miss ↦ ground arith
    | inr (j, hit) ↦ ground (arith, memchr-append_hit xs ys ch j hit)
  ]
]

memchr-append_miss :
    (xs ys : List ℕ) (ch : ℕ)
    → memchr xs ch ≡ none
    → memchr (xs ++ ys) ch ≡ shift (length xs) (memchr ys ch)
unfolding memchr
memchr-append_miss [] ys ch e = sym (shift-zero (memchr ys ch))
memchr-append_miss (x ∷ xs) ys ch e = ground (arith, memchr-append_miss xs ys ch)

abbrev found : Ring → ℕ → ℕ → ℕ → Option ℕ
found r c n ch = memchr (span r.buffer r.size (r.read_index + c) n) ch

module _ (r : Ring) (c a b n ch : ℕ) (e : n ≡ a + b) where
  split :
      found r c n ch
      ≡ memchr
          (span r.buffer r.size (r.read_index + c) a
            ++ span r.buffer r.size (r.read_index + c + a) b)
          ch
  split = ap (λ l. memchr l ch) (span_append r.buffer r.size (r.read_index + c) a b n e)

  found_hit : (i : ℕ) → found r c a ch ≡ some i → found r c n ch ≡ some i
  found_hit i h = split ∙ memchr-append_hit (span r.buffer r.size (r.read_index + c) a) _ ch i h

  found_miss : found r c a ch ≡ none → found r c n ch ≡ shift a (found r (c + a) b ch)
  found_miss h =
      split
      ∙ memchr-append_miss (span r.buffer r.size (r.read_index + c) a) _ ch h
      ∙ ap₂ (λ k j. shift k (memchr (span r.buffer r.size j b) ch))
          (length-span r.buffer r.size (r.read_index + c) a) (omega arith)

found_empty : (r : Ring) (c n ch : ℕ) → n ≡ 0 → none ≡ shift c (found r c n ch)
unfolding memchr
found_empty r c zero ch e = refl
found_empty r c (suc n) ch e = absurd (omega arith)

loop-found :
    {k : ℕ} (fuel : ℕ) {r : Ring} (ch m c n : ℕ)
    → IsValid k r
    → m ≤ r.write_index - r.read_index
    → n ≡ m - c
    → n ≤ fuel
    → ring_chr_loop fuel r ch m c ≡ shift c (found r c n ch)
unfolding ring_chr_loop
loop-found zero {r} ch m c n v b e q = found_empty r c n ch (omega arith)
loop-found (suc fuel) {r} ch m c n v b e q = elim (Bool-cases (ltb c m)) [
  | inl go ↦
      let j = u32 (r.read_index + c) in
      let room = r.size - j % r.size in
      let a = min room (m - c) in
      let lt : c < m = ground arith in
      let word : j ≡ r.read_index + c = omega arith in
      let chunk : found r c a ch ≡ memchr (load r.buffer (j % r.size) a) ch =
        ap (λ l. memchr l ch)
          (span-load r.buffer r.size (r.read_index + c) (j % r.size) a (ap (λ i. i % r.size) word)
            (omega (arith, mod-lt j (size_pos v)))) in
      rw (ring_at_lem j v, go)
        (elim (Option-cases (memchr (load r.buffer (j % r.size) a) ch)) [
          | inl miss ↦ rw miss (
              rw (ring_at_lem j v) (
                loop-found fuel ch m (c + a) (n - a) v b (omega arith)
                  (omega (arith, mod-lt j (size_pos v)))
                ∙ sym (shift-shift c a (c + a) (found r (c + a) (n - a) ch) refl)
                ∙ ap (λ o. shift c o)
                    (sym (found_miss r c a (n - a) n ch (omega arith) (chunk ∙ miss)))))
          | inr (i, hit) ↦ rw hit (
              ap (λ o. shift c o)
                (sym (found_hit r c a (n - a) n ch (omega arith) i (chunk ∙ hit))))
        ])
  | inr stop ↦ rw stop (found_empty r c n ch (ground arith))
]

take-span : (buf : List ℕ) (size i t n : ℕ) → take t (span buf size i n) ≡ span buf size i (min t n)
take-span buf size i zero n = let e : 0 ≡ min 0 n = omega arith in ap (λ j. span buf size i j) e
take-span buf size i (suc t) zero =
    let e : 0 ≡ min (suc t) 0 = omega arith in ap (λ j. span buf size i j) e
take-span buf size i (suc t) (suc n) =
    let e : suc (min t n) ≡ min (suc t) (suc n) = omega arith in
    ap (λ l. get_or buf (i % size) 0 ∷ l) (take-span buf size (i + 1) t n)
    ∙ ap (λ j. span buf size i j) e

-- `ring_chr` finds the first place of the character among the bytes that the ring holds, no
-- further than `buffer_size`, and fails if it is not there.
pub ring_chr_lem :
    {k : ℕ} {r : Ring} (ch buffer_size : ℕ)
    → IsValid k r
    → ring_chr r ch buffer_size ≡ memchr (take buffer_size (contents r)) (ch % 2 ^ 8)
unfolding ring_chr
ring_chr_lem {k} {r} ch buffer_size v =
    let n = min buffer_size (r.write_index - r.read_index) in
    let m = min buffer_size (sub_u32 r.write_index r.read_index) in
    loop-found m (ch % 2 ^ 8) m 0 n v (omega arith) (omega arith) (omega arith)
    ∙ shift-zero (found r 0 n (ch % 2 ^ 8))
    ∙ ap (λ l. memchr l (ch % 2 ^ 8))
        (ap (λ i. span r.buffer r.size i n) (add-zero r.read_index)
          ∙ sym (take-span r.buffer r.size r.read_index buffer_size (r.write_index - r.read_index)))
