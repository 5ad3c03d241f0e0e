-- ===== src/Ring/Read.antt =====
-- `ring_read` of morelib/ring.c takes the oldest bytes out of what the ring holds.
use native.Mathlib.Nat.{mod-lt, add-zero}
use morelibc.Base.{
  ℕ, zero, suc, ◌+◌, ◌-◌, ◌%◌, ◌≤◌, ◌<◌, min, ◌≡◌, refl, sym, ap, ap₂, ◌∙◌, inl, inr, List, [],
  ◌++◌, append-nil, append_assoc, length, length-append, ltb, ◌&&◌, Bool-cases, sub_u32, arith,
}
use morelibc.Ring.{Ring, ring_read_loop, ring_read}
use morelibc.Ring.Contents.{contents, span, span_append, span-load, length-span}
use morelibc.Ring.Invariant.{IsValid, size_pos, ring_at_lem}

abbrev reads : Ring → ℕ → List ℕ
reads r n = span r.buffer r.size r.read_index n

abbrev after_read : Ring → ℕ → Ring
after_read r n = record r { read_index = r.read_index + n }

after_read-IsValid :
    {k : ℕ} {r : Ring} (n : ℕ)
    → IsValid k r
    → n ≤ r.write_index - r.read_index
    → IsValid k (after_read r n)
after_read-IsValid n v f = omega arith

reads-zero :
    (r : Ring) (t : ℕ) (out : List ℕ)
    → t ≡ 0
    → ◌≡◌ {A = List ℕ × Ring} (out, r) (out ++ reads r t, after_read r t)
reads-zero r t out e = rw (e, append-nil, add-zero)

-- A read of `n` bytes, and then one of `t`.
reads_then :
    (r : Ring) (n t u : ℕ) (out : List ℕ)
    → u ≡ n + t
    → ◌≡◌ {A = List ℕ × Ring}
        ((out ++ reads r n) ++ reads (after_read r n) t, after_read (after_read r n) t)
        (out ++ reads r u, after_read r u)
reads_then r n t u out e =
    ap₂ (λ l j. (l, record r { read_index = j }))
      (append_assoc out (reads r n) (reads (after_read r n) t)
        ∙ ap (λ l. out ++ l) (sym (span_append r.buffer r.size r.read_index n t u e)))
      (omega arith)

loop-reads :
    {k : ℕ} (fuel : ℕ) {r : Ring} (size m t : ℕ) (out : List ℕ)
    → IsValid k r
    → m ≡ r.write_index
    → t ≡ min (size - length out) (r.write_index - r.read_index)
    → size - length out ≤ fuel
    → ring_read_loop fuel r size m out ≡ (out ++ reads r t, after_read r t)
unfolding ring_read_loop
loop-reads zero {r} size m t out v e d q = reads-zero r t out (omega arith)
loop-reads (suc fuel) {r} size m t out v e d q =
    elim (Bool-cases (ltb r.read_index m && ltb (length out) size)) [
      | inl go ↦
          rw (ring_at_lem r.read_index v, go)
            (let n =
                min (min (r.size - r.read_index % r.size) (sub_u32 m r.read_index))
                  (size - length out) in
              let lt : (r.read_index < m) × (length out < size) = ground arith in
              let f : n ≤ r.write_index - r.read_index = omega arith in
              let grown : length (out ++ reads r n) ≡ length out + n =
                length-append out (reads r n)
                ∙ ap (λ j. length out + j) (length-span r.buffer r.size r.read_index n) in
              let pos : 0 < n = omega (arith, mod-lt r.read_index (size_pos v)) in
              ap₂ (λ j l. ring_read_loop fuel (record r { read_index = j }) size m (out ++ l))
                (omega arith)
                (sym (
                  span-load r.buffer r.size r.read_index (r.read_index % r.size) n refl
                    (omega (arith, mod-lt r.read_index (size_pos v)))))
              ∙ loop-reads fuel size m (t - n) (out ++ reads r n) (after_read-IsValid n v f) e
                  (omega arith) (omega arith)
              ∙ reads_then r n (t - n) t out (omega arith))
      | inr stop ↦ rw stop (reads-zero r t out (ground arith))
    ]

-- `ring_read` returns the oldest bytes, as many as are asked for and are there; what it returns and
-- what stays make up what the ring held, in order. It keeps the invariant, and moves no byte.
pub ring_read_lem :
    {k : ℕ} {r : Ring} (size : ℕ)
    → IsValid k r
    → let (out, r') = ring_read r size in
      (length out ≡ min size (length (contents r)))
      × (contents r ≡ out ++ contents r')
      × IsValid k r'
      × (r' ≡ record r { read_index = r.read_index + length out })
unfolding ring_read
ring_read_lem {k} {r} size v =
    let n = min size (r.write_index - r.read_index) in
    let held = length-span r.buffer r.size r.read_index in
    rw (loop-reads size size r.write_index n [] v refl (omega arith) (omega arith)) (
      omega (arith, held n, held (r.write_index - r.read_index)),
      span_append r.buffer r.size r.read_index n (r.write_index - (r.read_index + n)) _
          (omega arith),
      after_read-IsValid n v (omega arith),
      rw (held n),
    )
