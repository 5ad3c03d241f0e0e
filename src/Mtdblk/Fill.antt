-- ===== src/Mtdblk/Fill.antt =====
-- A page that gets a block's bytes in `mtdblk_get_page` of morelib/mtdblk.c.
use native.Mathlib.Nat.{mod-lt}
use morelibc.Base.{
  ℕ, zero, suc, ◌+◌, ◌*◌, ◌/◌, ◌%◌, ◌^◌, ◌≤◌, ◌<◌, ◌≡◌, ◌≢◌, inl, inr, refl, sym, ap, ◌∙◌, true,
  false, some, List, [], ◌∷◌, length, drop, get_or, store, store-append, append-nil, ◌++◌, ltb,
  ◌==◌, ==_iff, ==_refl, Bool-cases, u32, ok, arith,
}
use morelibc.Mtdblk.{Below, Entry, MtdblkFile, update, set_entry, touch, fill_page}
use morelibc.Mtdblk.Blocks.{split}
use morelibc.Mtdblk.View.{Healthy, bytes_at, byte_of, update-update, update_self}

pub length-bytes_at : (d : ℕ → ℕ) (start n : ℕ) → length (bytes_at d start n) ≡ n
unfolding bytes_at
length-bytes_at d start zero = refl
length-bytes_at d start (suc n) = ap suc (length-bytes_at d (start + 1) n)

get_or-bytes_at :
    (d : ℕ → ℕ) (start n k : ℕ) → k < n → get_or (bytes_at d start n) k 0 ≡ d (start + k)
unfolding bytes_at
get_or-bytes_at d start zero k h = absurd (omega arith)
get_or-bytes_at d start (suc n) zero h = ap d (omega arith)
get_or-bytes_at d start (suc n) (suc k) h =
    get_or-bytes_at d (start + 1) n k (omega arith) ∙ ap d (omega arith)

drop_all : (xs : List ℕ) (n : ℕ) → length xs ≤ n → drop n xs ≡ []
drop_all [] zero h = refl
drop_all [] (suc n) h = refl
drop_all (x ∷ xs) zero h = absurd (omega arith)
drop_all (x ∷ xs) (suc n) h = drop_all xs n (omega arith)

store_whole : (page bytes : List ℕ) → length bytes ≡ length page → store page 0 bytes ≡ bytes
store_whole page bytes e =
    store-append bytes [] page 0 refl (omega arith)
    ∙ ap (λ l. bytes ++ l) (drop_all page (length bytes) (omega arith))
    ∙ append-nil bytes

-- The tick of an entry that was just set.
pub touch-set_entry :
    (file : MtdblkFile) (index : ℕ) (entry : Entry)
    → (tick : ℕ) × (next : ℕ) × (touch (set_entry file index entry) index ≡ record file {
      cache = update file.cache index (record entry { tick = tick });
      next_tick = next;
    })
unfolding touch set_entry
touch-set_entry file index entry = elim (Bool-cases (ltb entry.tick file.next_tick)) [
  | inl h ↦
      let next = u32 (file.next_tick + 1) in
      (
        next,
        next,
        rw (==_refl index, h)
            (ap (λ c. record file { cache = c; next_tick = next })
              (update-update file.cache index entry (record entry { tick = next }))),
      )
  | inr h ↦ (entry.tick, file.next_tick, rw (==_refl index, h) refl)
]

-- The entry of a block whose page holds what the device has.
abbrev pub loaded : (ℕ → ℕ) → ℕ → ℕ → ℕ → Entry
loaded d block_size page_num tick = record {
  num = page_num;
  page = some (bytes_at d (page_num * block_size) block_size);
  tick = tick;
}

pub byte_of-loaded :
    (d : ℕ → ℕ) (block_size page_num tick a : ℕ)
    → 0 < block_size
    → byte_of block_size (loaded d block_size page_num tick) (d a) a ≡ d a
byte_of-loaded d bs page_num tick a pos = elim (Bool-cases (page_num == a / bs)) [
  | inl h ↦ rw h (
      get_or-bytes_at d (page_num * bs) bs (a % bs) (omega (arith, mod-lt a pos))
      ∙ ap d (ap (λ q. q * bs + a % bs) ((==_iff page_num (a / bs)).0 h) ∙ split a bs))
  | inr h ↦ rw h refl
]

abbrev pub with_cache : MtdblkFile → (ℕ → Entry) → ℕ → MtdblkFile
with_cache file cache next = record file { cache = cache; next_tick = next }

-- A call for the page that the entry holds already changes its tick at most.
pub fill_page_hit :
    {S : Type 0} (below : Below S) (file : MtdblkFile) (index page_num : ℕ) (page : List ℕ) (w : S)
    → ((file.cache index).num == page_num) ≡ true
    → (tick : ℕ) × (next : ℕ) × (fill_page below file index page_num page w ≡ (
      ok index,
      (
        with_cache file (update file.cache index (record (file.cache index) { tick = tick })) next,
        w,
      ),
    ))
unfolding fill_page set_entry
fill_page_hit below file index page_num page w h =
    let (tick, next, touched) = touch-set_entry file index (file.cache index) in
    let same : record file { cache = update file.cache index (file.cache index) } ≡ file =
      ap (λ c. record file { cache = c }) (update_self file.cache index) in
    let moved = ap (λ f. touch f index) (sym same) ∙ touched in
    (tick, next, rw (h, fill_page) (ap (λ f. (ok index, (f, w))) moved))

module _ {S : Type 0} {below : Below S} (file : MtdblkFile)
    (m : Healthy below file.size file.block_size) (fits : file.size < 2 ^ 31) where
  pub fill_page_lem :
      (index page_num : ℕ) (page : List ℕ) (w : S)
      → (file.cache index).num ≢ page_num
      → length page ≡ file.block_size
      → page_num * file.block_size + file.block_size ≤ file.size
      → (tick : ℕ) × (next : ℕ) × (fill_page below file index page_num page w ≡ (
        ok index,
        (
          record file {
            cache = update file.cache index (loaded (m.content w) file.block_size page_num tick);
            next_tick = next;
          },
          w,
        ),
      ))
  unfolding fill_page
  fill_page_lem index page_num page w ne len room =
      let bs = file.block_size in
      let bytes = bytes_at (m.content w) (page_num * bs) bs in
      let start : u32 (page_num * bs) ≡ page_num * bs = omega arith in
      let read : below.pread w bs (u32 (page_num * bs)) ≡ ok bytes =
        ap (below.pread w bs) start ∙ m.reads w bs (page_num * bs) room in
      let differs : ((file.cache index).num == page_num) ≡ false = ground arith in
      let whole = store_whole page bytes (length-bytes_at (m.content w) _ bs ∙ sym len) in
      let (tick, next, touched) =
        touch-set_entry file index (loaded (m.content w) bs page_num (file.cache index).tick) in
      (tick, next, rw (fill_page, differs, read, whole, touched) refl)
