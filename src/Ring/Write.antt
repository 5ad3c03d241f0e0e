-- ===== src/Ring/Write.antt =====
-- `ring_write` of morelib/ring.c appends to the bytes that the ring holds.
use native.Mathlib.Nat.{mod-lt}
use morelibc.Base.{
  store, length-store, ℕ, zero, suc, ◌+◌, ◌-◌, ◌%◌, ◌≤◌, ◌<◌, min, ◌≡◌, refl, sym, ap, ap₂, ◌∙◌,
  inl, inr, List, ◌++◌, append-nil, append_assoc, length, take, drop, take_zero, take_split,
  drop-drop, length-take, length-drop, ltb, ◌&&◌, Bool-cases, u32, u32_mod, sub_u32, arith,
}
use morelibc.Ring.{Ring, ring_write_loop, ring_write}
use morelibc.Ring.Contents.{contents, span-store, length-span}
use morelibc.Ring.Invariant.{IsValid, size_pos, ring_at_lem}

-- A round of the loop, for any number `n` of bytes that the buffer, the ring and the source allow.
abbrev after_round : Ring → ℕ → List ℕ → Ring
after_round r n xs = record r {
  buffer = store r.buffer (r.write_index % r.size) xs;
  write_index = u32 (r.write_index + n);
}

module _ {k : ℕ} {r : Ring} (v : IsValid k r) (h : r.read_index + r.size < u32_mod) where
  round-IsValid :
      (n : ℕ) (xs : List ℕ)
      → n ≤ r.read_index + r.size - r.write_index
      → IsValid k (after_round r n xs)
  round-IsValid n xs f = ground (arith, length-store r.buffer (r.write_index % r.size) xs)

  contents-round :
      (n : ℕ) (xs : List ℕ)
      → length xs ≡ n
      → n ≤ r.read_index + r.size - r.write_index
      → n ≤ r.size - r.write_index % r.size
      → contents (after_round r n xs) ≡ contents r ++ xs
  contents-round n xs e f b =
      span-store r.buffer r.size r.read_index (r.write_index - r.read_index)
        (r.write_index % r.size) xs _ (omega arith) (omega arith)
        (ap (λ j. j % r.size) (omega arith)) (omega (arith, mod-lt r.write_index (size_pos v)))
        (omega arith)

-- What the loop has done when it stops, started at `r` with `c` bytes written.
record Wrote (k : ℕ) (r : Ring) (src : List ℕ) (c : ℕ) (out : ℕ × Ring) : Type 0 where
  valid : IsValid k out.1
  count : out.0 ≡ c + min (length src - c) (r.read_index + r.size - r.write_index)
  bytes :
      contents out.1
      ≡ contents r
        ++ take (min (length src - c) (r.read_index + r.size - r.write_index)) (drop c src)
  reader : (out.1.read_index ≡ r.read_index) × (out.1.size ≡ r.size)

stop-Wrote :
    {k : ℕ} {r : Ring} (v : IsValid k r) (src : List ℕ) (c : ℕ)
    → min (length src - c) (r.read_index + r.size - r.write_index) ≡ 0
    → Wrote k r src c (c, r)
stop-Wrote {k} {r} v src c e = record {
  valid = v;
  count = omega arith;
  bytes = rw (take_zero _ (drop c src) e, append-nil);
  reader = (refl, refl);
}

-- A round, and then the rest of the loop.
extend-Wrote :
    {k : ℕ} {r : Ring} (n : ℕ) (src : List ℕ) (c : ℕ) {out : ℕ × Ring}
    → IsValid k r
    → r.read_index + r.size < u32_mod
    → n ≤ r.read_index + r.size - r.write_index
    → n ≤ r.size - r.write_index % r.size
    → n ≤ length src - c
    → Wrote k (after_round r n (take n (drop c src))) src (c + n) out
    → Wrote k r src c out
extend-Wrote {k} {r} n src c v h f b l w =
    let rest = min (length src - (c + n)) (r.read_index + r.size - u32 (r.write_index + n)) in
    record {
      valid = w.valid;
      count = omega (arith, w.count);
      bytes =
          w.bytes
          ∙ ap₂ (λ xs t. xs ++ t)
              (contents-round v h n (take n (drop c src))
                (omega (arith, length-take n (drop c src), length-drop c src)) f b)
              refl
          ∙ append_assoc (contents r) (take n (drop c src)) _
          ∙ ap (λ t. contents r ++ t)
              (ap (λ t. take n (drop c src) ++ take rest t) (sym (drop-drop c n (c + n) src refl))
                ∙ take_split n rest (min (length src - c) (r.read_index + r.size - r.write_index))
                    (drop c src) (omega arith));
      reader = w.reader;
    }

loop-Wrote :
    {k : ℕ} (fuel : ℕ) {r : Ring} (src : List ℕ) (m c : ℕ)
    → IsValid k r
    → r.read_index + r.size < u32_mod
    → m ≡ r.read_index + r.size
    → c ≤ length src
    → length src - c ≤ fuel
    → Wrote k r src c (ring_write_loop fuel r src m c)
unfolding ring_write_loop
loop-Wrote zero {r} src m c v h e p q = stop-Wrote v src c (omega arith)
loop-Wrote (suc fuel) {r} src m c v h e p q =
    elim (Bool-cases (ltb r.write_index m && ltb c (length src))) [
      | inl go ↦
          rw (ring_at_lem r.write_index v, go)
            (let n =
                min (min (r.size - r.write_index % r.size) (sub_u32 m r.write_index))
                  (length src - c) in
              let lt : (r.write_index < m) × (c < length src) = ground arith in
              let f : n ≤ r.read_index + r.size - r.write_index = omega arith in
              let pos : 0 < n = omega (arith, mod-lt r.write_index (size_pos v)) in
              extend-Wrote n src c v h f (omega arith) (omega arith) (
                loop-Wrote fuel src m (c + n) (round-IsValid v h n (take n (drop c src)) f) h e
                  (omega arith) (omega arith)))
      | inr stop ↦ rw stop (stop-Wrote v src c (ground arith))
    ]

-- `ring_write` takes as many bytes as are offered and as there is room for, appends exactly those
-- to what the ring holds, and keeps the invariant, as long as `read_index + size` does not wrap.
pub ring_write_lem :
    {k : ℕ} {r : Ring} (src : List ℕ)
    → IsValid k r
    → r.read_index + r.size < u32_mod
    → let (n, r') = ring_write r src in
      (n ≡ min (length src) (r.size - length (contents r)))
      × (contents r' ≡ contents r ++ take n src)
      × IsValid k r'
      × (r'.read_index ≡ r.read_index)
      × (r'.size ≡ r.size)
unfolding ring_write
ring_write_lem {k} {r} src v h =
    let w =
      loop-Wrote (length src) src (u32 (r.read_index + r.size)) 0 v h (omega arith) (omega arith)
        (omega arith) in
    let held = length-span r.buffer r.size r.read_index (r.write_index - r.read_index) in
    (
      omega (arith, w.count, held),
      w.bytes ∙ ap (λ t. contents r ++ take t src) (omega (arith, w.count)),
      w.valid,
      w.reader.0,
      w.reader.1,
    )
