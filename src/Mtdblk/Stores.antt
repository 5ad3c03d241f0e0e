-- ===== src/Mtdblk/Stores.antt =====
-- A store into a page of morelib/mtdblk.c, and what the file shows after it.
use morelibc.Base.{
  ℕ, zero, suc, ◌+◌, ◌-◌, ◌*◌, ◌/◌, ◌%◌, ◌≤◌, ◌<◌, ◌≡◌, ◌≢◌, inl, inr, refl, sym, ap, subst, ◌∙◌,
  true, false, ◌&&◌, some, List, [], ◌∷◌, ◌++◌, length, length-append, length-set, get_or,
  get_or-set_self, get_or-set_ne, set, store, length-store, ltb, leb, ◌==◌, ==_iff, ==_refl,
  Bool-cases, if◌then◌else◌, arith,
}
use morelibc.Mtdblk.{Entry, update}
use morelibc.Mtdblk.Blocks.{split, offset-lt, same_block}
use morelibc.Mtdblk.View.{overlay, slot, view, FitsPage, IsValid, update-IsValid}

get_or-append :
    (xs ys : List ℕ) (i : ℕ)
    → get_or (xs ++ ys) i 0
      ≡ (if ltb i (length xs) then get_or xs i 0 else get_or ys (i - length xs) 0)
get_or-append [] ys i = let e : i ≡ i - 0 = omega arith in ap (λ k. get_or ys k 0) e ∙ ground arith
get_or-append (x ∷ xs) ys zero = ground arith
get_or-append (x ∷ xs) ys (suc i) = get_or-append xs ys i ∙ ground arith

-- Two stores one after the other.
pub overlay-append :
    (d : ℕ → ℕ) (start : ℕ) (xs ys : List ℕ) (a : ℕ)
    → overlay (overlay d start xs) (start + length xs) ys a ≡ overlay d start (xs ++ ys) a
overlay-append d start xs ys a =
    rw (get_or-append xs ys (a - start), length-append xs ys) (ground arith)

pub overlay_congr :
    (d d' : ℕ → ℕ) (start : ℕ) (bytes : List ℕ) (a : ℕ)
    → d a ≡ d' a
    → overlay d start bytes a ≡ overlay d' start bytes a
overlay_congr d d' start bytes a e = ap (λ z. overlay (λ _. z) start bytes a) e

get_or-suc :
    (x : ℕ) (xs : List ℕ) (j off : ℕ)
    → off < j
    → get_or (x ∷ xs) (j - off) 0 ≡ get_or xs (j - (off + 1)) 0
get_or-suc x xs j off h =
    let e : j - off ≡ suc (j - (off + 1)) = omega arith in ap (λ k. get_or (x ∷ xs) k 0) e

get_or-store :
    (page : List ℕ) (off : ℕ) (bytes : List ℕ) (j : ℕ)
    → off + length bytes ≤ length page
    → get_or (store page off bytes) j 0 ≡ overlay (λ i. get_or page i 0) off bytes j
unfolding store
get_or-store page off [] j h = ground arith
get_or-store page off (x ∷ xs) j h =
    get_or-store (set page off x) (off + 1) xs j (omega (arith, length-set page off x))
    ∙ elim (Bool-cases (j == off)) [
      | inl e ↦
          let here = (==_iff j off).0 e in
          let start : j - off ≡ 0 = omega arith in
          let set_here = get_or-set_self page off x 0 (omega arith) in
          rw (here, set_here) (ground arith)
      | inr e ↦
          let there : off ≢ j = ground arith in
          rw (get_or-set_ne page {i = off} {j = j} x 0 there)
            (ground (arith, get_or-suc x xs j off))
    ]

-- Whether a position lies in a chunk that stays in one block.
chunk_block :
    (block_size offset n a : ℕ)
    → 0 < block_size
    → n ≤ block_size - offset % block_size
    → (leb offset a && ltb a (offset + n)) ≡ true
    → a / block_size ≡ offset / block_size
chunk_block bs offset n a pos le h =
    let e : offset + (a - offset) ≡ a = ground arith in
    ap (λ b. b / bs) (sym e) ∙ same_block offset bs pos (a - offset) (ground arith)

-- A test and a byte in the chunk, by position and by offset in the block.
chunk_offset :
    (block_size offset a : ℕ) (d e : ℕ) (chunk : List ℕ)
    → a / block_size ≡ offset / block_size
    → d ≡ e
    → overlay (λ _. d) (offset % block_size) chunk (a % block_size)
      ≡ overlay (λ _. e) offset chunk a
chunk_offset bs offset a d e chunk same h =
    let starts : a / bs * bs ≡ offset / bs * bs = ap (λ q. q * bs) same in
    let at : a % bs - offset % bs ≡ a - offset = omega (arith, split a bs, split offset bs) in
    rw at (ground (arith, split a bs, split offset bs))

module _ {size block_size : ℕ} {cache : ℕ → Entry} (v : IsValid size block_size cache) (offset : ℕ)
    (page : List ℕ) (d : ℕ → ℕ) (num : (cache (slot block_size offset)).num ≡ offset / block_size)
    (e : (cache (slot block_size offset)).page ≡ some page) where
  abbrev pub stored : List ℕ → Entry
  stored chunk = record (cache (slot block_size offset)) {
    page = some (store page (offset % block_size) chunk);
  }

  pub stored-IsValid :
      (chunk : List ℕ)
      → IsValid size block_size (update cache (slot block_size offset) (stored chunk))
  stored-IsValid chunk =
      let (len, home, room, big) =
        subst (FitsPage size block_size _ (cache (slot block_size offset)).num) e
          (v.placed (slot block_size offset)) in
      update-IsValid v (slot block_size offset) (stored chunk)
        (length-store page (offset % block_size) chunk ∙ len, home, room, big)

  pub stored-view :
      (chunk : List ℕ) (a : ℕ)
      → length chunk ≤ block_size - offset % block_size
      → view block_size (update cache (slot block_size offset) (stored chunk)) d a
        ≡ overlay (view block_size cache d) offset chunk a
  unfolding view
  stored-view chunk a le = elim (Bool-cases (a / block_size == offset / block_size)) [
    | inl here ↦
        let same = (==_iff (a / block_size) (offset / block_size)).0 here in
        let (len, _, _, _) =
          subst (FitsPage size block_size _ (cache (slot block_size offset)).num) e
            (v.placed (slot block_size offset)) in
        let off = offset % block_size in
        rw
          (
            same,
            ==_refl (slot block_size offset),
            num,
            same,
            e,
            same,
            ==_refl (offset / block_size),
          )
          (get_or-store page off chunk (a % block_size)
              (omega (arith, offset-lt offset block_size v.has_blocks))
            ∙ chunk_offset block_size offset a _ _ chunk same refl)
    | inr there ↦
        let outside : (leb offset a && ltb a (offset + length chunk)) ≡ false =
          elim (Bool-cases (leb offset a && ltb a (offset + length chunk))) [
            | inr f ↦ f
            | inl f ↦
                let same = chunk_block block_size offset (length chunk) a v.has_blocks le f in
                absurd (ground arith)
          ] in
        let apart : (offset / block_size == a / block_size) ≡ false = ground arith in
        elim (Bool-cases (slot block_size a == slot block_size offset)) [
          | inl g ↦
              let home = (==_iff (slot block_size a) (slot block_size offset)).0 g in
              rw (outside, home, ==_refl (slot block_size offset), num, apart, e, apart) refl
          | inr g ↦ rw (outside, g) refl
        ]
  ]
