-- ===== src/Mtdblk/View.antt =====
-- What the file of morelib/mtdblk.c shows: the byte at a position, from its page or from the device below,
-- and the documented behaviour of that device.
use morelibc.Base.{
  ℕ, zero, suc, ◌+◌, ◌-◌, ◌*◌, ◌/◌, ◌%◌, ◌^◌, ◌≤◌, ◌<◌, ◌≡◌, ◌≢◌, refl, sym, ap, subst, fun_ext,
  ◌∙◌, ◌&&◌, Option, none, some, inl, inr, Bool-cases, Option-cases, ==_iff, List, [], ◌∷◌, length,
  get_or, ltb, leb, ◌==◌, if◌then◌else◌, ok, arith,
}
use morelibc.Mtdblk.{Below, Entry, MtdblkFile, update, num_cache_entries}

-- The `n` bytes at `start`, and a store of bytes there.
unfoldable pub bytes_at : (ℕ → ℕ) → ℕ → ℕ → List ℕ
bytes_at d start zero = []
bytes_at d start (suc n) = d start ∷ bytes_at d (start + 1) n

abbrev pub overlay : (ℕ → ℕ) → ℕ → List ℕ → ℕ → ℕ
overlay d start bytes a =
    if leb start a && ltb a (start + length bytes) then get_or bytes (a - start) 0 else d a

-- A device without faults: what is read is what was written, where a block is erased before it is
-- written again. `malloc` may fail.
pub record Healthy {S : Type 0} (below : Below S) (size block_size : ℕ) : Type 0 where
  pub content : S → ℕ → ℕ
  pub reads :
      (w : S) (n start : ℕ)
      → start + n ≤ size
      → below.pread w n start ≡ ok (bytes_at (content w) start n)
  pub erases : (w : S) (start : ℕ) → (below.erase w start block_size).0 ≡ ok tt
  pub rewrites :
      (w : S) (page : List ℕ) (start : ℕ)
      → length page ≡ block_size
      → start + block_size ≤ size
      → let (r, w1) = below.pwrite (below.erase w start block_size).1 page start in
        (r ≡ ok block_size) × ((a : ℕ) → content w1 a ≡ overlay (content w) start page a)
  pub writes :
      (w : S) (bytes : List ℕ) (start : ℕ)
      → block_size ≤ 1
      → start + length bytes ≤ size
      → let (r, w1) = below.pwrite w bytes start in
        (r ≡ ok (length bytes)) × ((a : ℕ) → content w1 a ≡ overlay (content w) start bytes a)
  pub syncs : (w : S) → ((below.fsync w).0 ≡ ok tt) × (content (below.fsync w).1 ≡ content w)
  pub allocates :
      (w : S) (n : ℕ) (page : List ℕ) → (below.malloc w n).0 ≡ some page → length page ≡ n
  pub keeps_malloc : (w : S) (n : ℕ) → content (below.malloc w n).1 ≡ content w
  pub keeps_free : (w : S) → content (below.free w) ≡ content w

-- The byte at a position whose entry this is, where the device has `d`.
abbrev pub byte_of : ℕ → Entry → ℕ → ℕ → ℕ
byte_of block_size entry d a = elim entry.page [
  | none ↦ d
  | some page ↦ if entry.num == a / block_size then get_or page (a % block_size) 0 else d
]

abbrev pub slot : ℕ → ℕ → ℕ
slot block_size a = a / block_size % num_cache_entries

-- What a cache shows over a device.
unfoldable pub view : ℕ → (ℕ → Entry) → (ℕ → ℕ) → ℕ → ℕ
view block_size cache d a = byte_of block_size (cache (slot block_size a)) (d a) a

-- A page is a whole block of the device and stands in the entry of its number.
abbrev pub FitsPage : ℕ → ℕ → ℕ → ℕ → Option (List ℕ) → Type 0
FitsPage size block_size index num none = Unit {0}
FitsPage size block_size index num (some page) =
    (length page ≡ block_size)
    × (num % num_cache_entries ≡ index)
    × (num * block_size + block_size ≤ size)
    × (1 < block_size)

abbrev pub IsPlaced : ℕ → ℕ → ℕ → Entry → Type 0
IsPlaced size block_size index entry = FitsPage size block_size index entry.num entry.page

pub record IsValid (size block_size : ℕ) (cache : ℕ → Entry) : Type 0 where
  pub has_blocks : 0 < block_size
  pub whole : size % block_size ≡ 0
  pub fits : size < 2 ^ 31
  pub placed : (i : ℕ) → IsPlaced size block_size i (cache i)

module _ {size block_size : ℕ} {cache : ℕ → Entry} (v : IsValid size block_size cache) where
  pub update-IsValid :
      (index : ℕ) (entry : Entry)
      → IsPlaced size block_size index entry
      → IsValid size block_size (update cache index entry)
  update-IsValid index entry h = record {
    has_blocks = v.has_blocks;
    whole = v.whole;
    fits = v.fits;
    placed = λ i. elim (Bool-cases (i == index)) [
      | inl e ↦ rw (e, (==_iff i index).0 e) h
      | inr e ↦ rw e (v.placed i)
    ];
  }

  -- A change of one entry and of the device below it.
  pub view-update :
      (index : ℕ) (entry : Entry) (d d' : ℕ → ℕ)
      → ((a : ℕ)
          → slot block_size a ≡ index
          → byte_of block_size entry (d' a) a ≡ byte_of block_size (cache index) (d a) a)
      → ((a : ℕ) → slot block_size a ≢ index → d' a ≡ d a)
      → (a : ℕ) → view block_size (update cache index entry) d' a ≡ view block_size cache d a
  unfolding view
  view-update index entry d d' here there a = elim (Bool-cases (slot block_size a == index)) [
    | inl e ↦ let f = (==_iff (slot block_size a) index).0 e in rw e (here a f ∙ rw f refl)
    | inr e ↦ rw e (rw (there a (ground arith)) refl)
  ]

  -- An entry shows nothing at a position of another slot.
  pub byte_of-elsewhere :
      (index d a : ℕ) → slot block_size a ≢ index → byte_of block_size (cache index) d a ≡ d
  byte_of-elsewhere index d a ne = elim (Option-cases (cache index).page) [
    | inl e ↦ rw e refl
    | inr (page, e) ↦
        let (_, home, _, _) =
          subst (FitsPage size block_size index (cache index).num) e (v.placed index) in
        elim (Bool-cases ((cache index).num == a / block_size)) [
          | inl hit ↦ absurd (
              ne (ap (λ n. n % num_cache_entries) (sym ((==_iff _ (a / block_size)).0 hit)) ∙ home))
          | inr miss ↦ rw (e, miss) refl
        ]
  ]

  -- A device without blocks shows through.
  pub byte_of-flat : (index d a : ℕ) → block_size ≤ 1 → byte_of block_size (cache index) d a ≡ d
  byte_of-flat index d a flat = elim (Option-cases (cache index).page) [
    | inl e ↦ rw (e, byte_of) refl
    | inr (page, e) ↦
        let (_, _, _, big) =
          subst (FitsPage size block_size index (cache index).num) e (v.placed index) in
        absurd (omega arith)
  ]

pub update-update :
    (cache : ℕ → Entry) (index : ℕ) (e e' : Entry)
    → update (update cache index e) index e' ≡ update cache index e'
update-update cache index e e' =
    fun_ext (λ j. elim (Bool-cases (j == index)) [ inl h ↦ rw h refl | inr h ↦ rw h refl ])

pub update_self : (cache : ℕ → Entry) (index : ℕ) → update cache index (cache index) ≡ cache
update_self cache index = fun_ext (λ j. elim (Bool-cases (j == index)) [
  | inl h ↦ rw (h, (==_iff j index).0 h) refl
  | inr h ↦ rw h refl
])

module _ {S : Type 0} {below : Below S} (file : MtdblkFile)
    (m : Healthy below file.size file.block_size) where
  -- A state that differs from the file's in the cache and in the device, and shows the same bytes.
  pub record Shows (w : S) (out : MtdblkFile × S) : Type 0 where
    pub cache : ℕ → Entry
    pub tick : ℕ
    pub same : out.0 ≡ record file { cache = cache; next_tick = tick }
    pub valid : IsValid file.size file.block_size cache
    pub bytes :
        (a : ℕ)
        → view file.block_size cache (m.content out.1) a
          ≡ view file.block_size file.cache (m.content w) a

  unfoldable pub Shows-refl :
      IsValid file.size file.block_size file.cache → (w : S) → Shows w (file, w)
  Shows-refl v w = record {
    cache = file.cache;
    tick = file.next_tick;
    same = refl;
    valid = v;
    bytes = λ a. refl;
  }
