-- ===== src/Ring/Contents.antt =====
-- The bytes that a ring of morelib/ring.c holds, as a list, and what `memcpy` does to it.
use native.Mathlib.Nat.{mod-add-mod, mod-eq_of_lt, mod-eq-sub-mod, mod-lt}
use morelibc.Base.{
  store, load, ℕ, zero, suc, ◌+◌, ◌-◌, ◌%◌, ◌≤◌, ◌<◌, ◌≡◌, refl, sym, ap, ap₂, ◌∙◌, ◌≢◌, List, [],
  ◌∷◌, ◌++◌, append-nil, append_assoc, length, get_or, set, length-set, get_or-set_self,
  get_or-set_ne, dec_lt, arith,
}
use morelibc.Ring.{Ring}

-- The `n` bytes from the free-running index `i` on.
abbrev pub span : List ℕ → ℕ → ℕ → ℕ → List ℕ
span buf size i zero = []
span buf size i (suc n) = get_or buf (i % size) 0 ∷ span buf size (i + 1) n

-- The bytes in a ring, the oldest first.
abbrev pub contents : Ring → List ℕ
contents r = span r.buffer r.size r.read_index (r.write_index - r.read_index)

pub length-span : (buf : List ℕ) (size i n : ℕ) → length (span buf size i n) ≡ n
length-span buf size i zero = refl
length-span buf size i (suc n) = ap suc (length-span buf size (i + 1) n)

pub span_append :
    (buf : List ℕ) (size i a b c : ℕ)
    → c ≡ a + b
    → span buf size i c ≡ span buf size i a ++ span buf size (i + a) b
span_append buf size i zero b c e = ap₂ (λ j k. span buf size j k) (omega arith) (omega arith)
span_append buf size i (suc a) b zero e = absurd (omega arith)
span_append buf size i (suc a) b (suc c) e =
    ap (λ l. get_or buf (i % size) 0 ∷ l)
      (span_append buf size (i + 1) a b c (omega arith)
        ∙ ap (λ j. span buf size (i + 1) a ++ span buf size j b) (omega arith))

-- The next index, unless the buffer ends.
mod-next : (i size off : ℕ) → off ≡ i % size → off + 1 < size → off + 1 ≡ (i + 1) % size
mod-next i size off e h =
    ground (arith, mod-add-mod i size 1, mod-eq_of_lt {n = off + 1} {m = size})

-- Fewer than `size` steps do not come back to the start.
add-mod-ne : (h d size : ℕ) → h < size → 0 < d → d < size → (h + d) % size ≢ h
add-mod-ne h d size a p q = elim (dec_lt (h + d) size) [
  | yes s ↦ omega (arith, mod-eq_of_lt s)
  | no s ↦ omega (
    arith,
    mod-eq-sub-mod {n = h + d} {m = size} (omega arith),
    mod-eq_of_lt {n = h + d - size} {m = size} (omega arith),
  )
]

mod-ne : (i d size : ℕ) → 0 < d → d < size → (i + d) % size ≢ i % size
mod-ne i d size p q e =
    add-mod-ne (i % size) d size (mod-lt i (omega arith)) p q (mod-add-mod i size d ∙ e)

-- A byte written past the span is not in it.
span-set :
    (buf : List ℕ) (size i n d off x : ℕ)
    → n ≤ d
    → d < size
    → off ≡ (i + d) % size
    → span (set buf off x) size i n ≡ span buf size i n
span-set buf size i zero d off x p q e = refl
span-set buf size i (suc n) d off x p q e =
    ap₂ ◌∷◌
      (get_or-set_ne buf x 0
        (λ (c : off ≡ i % size). mod-ne i d size (omega arith) q (omega arith)))
      (span-set buf size (i + 1) n (d - 1) off x (omega arith) (omega arith)
        (e ∙ ap (λ j. j % size) (omega arith)))

-- A byte written at the end of the span extends it.
span-set_end :
    (buf : List ℕ) (size i n off x m : ℕ)
    → size ≤ length buf
    → n < size
    → off ≡ (i + n) % size
    → m ≡ n + 1
    → span (set buf off x) size i m ≡ span buf size i n ++ x ∷ []
span-set_end buf size i n off x m s f e k =
    span_append (set buf off x) size i n 1 m k
    ∙ ap₂ (λ l b. l ++ b ∷ []) (span-set buf size i n n off x (omega arith) f e)
        (ap (λ j. get_or (set buf off x) j 0) (sym e)
          ∙ get_or-set_self buf off x 0 (omega (arith, mod-lt (i + n) {m = size} (omega arith))))

-- `memcpy` to the end of the span extends it by the bytes copied.
pub span-store :
    (buf : List ℕ) (size i n off : ℕ) (xs : List ℕ) (m : ℕ)
    → size ≤ length buf
    → n + length xs ≤ size
    → off ≡ (i + n) % size
    → off + length xs ≤ size
    → m ≡ n + length xs
    → span (store buf off xs) size i m ≡ span buf size i n ++ xs
unfolding store
span-store buf size i n off [] m s f e b k =
    ap (λ t. span buf size i t) (omega arith) ∙ sym (append-nil (span buf size i n))
span-store buf size i n off (x ∷ []) m s f e b k =
    span-set_end buf size i n off x m s (omega arith) e k
span-store buf size i n off (x ∷ y ∷ ys) m s f e b k =
    span-store (set buf off x) size i (n + 1) (off + 1) (y ∷ ys) m
      (omega (arith, length-set buf off x)) (omega arith)
      (mod-next (i + n) size off e (omega arith) ∙ ap (λ t. t % size) (omega arith)) (omega arith)
      (omega arith)
    ∙ ap (λ l. l ++ y ∷ ys) (span-set_end buf size i n off x (n + 1) s (omega arith) e refl)
    ∙ append_assoc (span buf size i n) (x ∷ []) (y ∷ ys)

-- What `memcpy` takes out before the end of the buffer is a span.
pub span-load :
    (buf : List ℕ) (size i off n : ℕ)
    → off ≡ i % size
    → off + n ≤ size
    → span buf size i n ≡ load buf off n
unfolding load
span-load buf size i off zero e b = refl
span-load buf size i off (suc zero) e b = rw e
span-load buf size i off (suc (suc n)) e b =
    ap₂ (λ j l. get_or buf j 0 ∷ l) (sym e)
      (span-load buf size (i + 1) (off + 1) (suc n) (mod-next i size off e (omega arith))
        (omega arith))
