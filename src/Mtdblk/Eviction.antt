-- ===== src/Mtdblk/Eviction.antt =====
-- Which page `mtdblk_evict_page` of morelib/mtdblk.c takes, and what a failed write back loses.
use morelibc.Base.{
  ℕ, zero, suc, ◌+◌, ◌-◌, ◌*◌, ◌/◌, ◌%◌, ◌<◌, ◌≡◌, ap, ◌∙◌, inl, inr, refl, false, ◌&&◌, none, some,
  List, ltb, ◌==◌, Bool-cases, Option-cases, u32, not_u32, Result-cases, arith,
}
use morelibc.Mtdblk.{
  Below, Entry, MtdblkFile, is_cached, num_cache_entries, set_entry, set_page, first_page,
  oldest_page, put_page, evict_page, new_page, touch, fill_page, get_page,
}

-- No tick was ever set.
pub record IsUnticked (file : MtdblkFile) : Type 0 where
  pub next : file.next_tick ≡ 0
  pub ticks : (i : ℕ) → (file.cache i).tick ≡ 0

oldest_page-first :
    (cache : ℕ → Entry) (oldest index n : ℕ)
    → ((i : ℕ) → (cache i).tick ≡ 0)
    → oldest_page cache oldest index n ≡ oldest
unfolding oldest_page
oldest_page-first cache oldest index zero h = refl
oldest_page-first cache oldest index (suc n) h =
    let younger : (is_cached (cache index).page && ltb (cache index).tick (cache oldest).tick)
        ≡ false =
      ground (arith, h index, h oldest) in
    rw younger (oldest_page-first cache oldest (index + 1) n h)

-- `n` entries from `index` on, the first page of which is `k` entries further.
first_page-first :
    (cache : ℕ → Entry) (first : ℕ) (page : List ℕ) (n index k : ℕ)
    → index + k ≡ first
    → k < n
    → ((i : ℕ) → i < first → (cache i).page ≡ none)
    → (cache first).page ≡ some page
    → first_page cache index n ≡ some first
unfolding first_page
first_page-first cache first page zero index k e h empty full = absurd (omega arith)
first_page-first cache first page (suc n) index zero e h empty full =
    let here : (cache index).page ≡ some page = ap (λ i. (cache i).page) (omega arith) ∙ full in
    rw (first_page, here) (ap some (omega arith))
first_page-first cache first page (suc n) index (suc k) e h empty full =
    rw (first_page, empty index (omega arith))
      (first_page-first cache first page n (index + 1) k (omega arith) (omega arith) empty full)

set_entry-IsUnticked :
    (file : MtdblkFile) (index : ℕ) (entry : Entry)
    → entry.tick ≡ 0
    → IsUnticked file
    → IsUnticked (set_entry file index entry)
unfolding set_entry
set_entry-IsUnticked file index entry e h = record {
  next = h.next;
  ticks = λ i. elim (Bool-cases (i == index)) [
    | inl here ↦ rw here e
    | inr there ↦ rw there (h.ticks i)
  ];
}

touch-IsUnticked : (file : MtdblkFile) (index : ℕ) → IsUnticked file → IsUnticked (touch file index)
unfolding touch
touch-IsUnticked file index h =
    let old : ltb (file.cache index).tick file.next_tick ≡ false =
      ground (arith, h.ticks index, h.next) in
    rw old h

module _ {S : Type 0} (below : Below S) where
  fill_page-IsUnticked :
      (file : MtdblkFile) (index page_num : ℕ) (page : List ℕ) (w : S)
      → IsUnticked file
      → IsUnticked (fill_page below file index page_num page w).1.0
  unfolding fill_page set_page
  fill_page-IsUnticked file index page_num page w h =
      elim (Bool-cases ((file.cache index).num == page_num)) [
        | inl hit ↦ rw (fill_page, hit) (touch-IsUnticked file index h)
        | inr miss ↦
            elim (Result-cases (below.pread w file.block_size (u32 (page_num * file.block_size)))) [
              | inl (bytes, got) ↦
                  rw (fill_page, miss, got)
                    (touch-IsUnticked _ index (set_entry-IsUnticked file index _ (h.ticks index) h))
              | inr (e, failed) ↦
                  rw (fill_page, miss, failed) (set_entry-IsUnticked file index _ (h.ticks index) h)
            ]
      ]

  evict_page-IsUnticked :
      (file : MtdblkFile) (w : S) → IsUnticked file → IsUnticked (evict_page below file w).1.0
  unfolding evict_page set_page
  evict_page-IsUnticked file w h = elim (Option-cases (first_page file.cache 0 num_cache_entries)) [
    | inl none_cached ↦ rw (evict_page, none_cached) h
    | inr (first, e) ↦
        let young =
          oldest_page-first file.cache first (first + 1) (num_cache_entries - (first + 1))
            h.ticks in
        elim (Option-cases (file.cache first).page) [
          | inl empty ↦ rw (evict_page, e, young, empty) h
          | inr (page, full) ↦
              rw (evict_page, e, young, full, young)
                (set_entry-IsUnticked file first _ (h.ticks first) h)
        ]
  ]

  new_page-IsUnticked :
      (file : MtdblkFile) (w : S) → IsUnticked file → IsUnticked (new_page below file w).1.0
  unfolding new_page
  new_page-IsUnticked file w h = elim (Option-cases (below.malloc w file.block_size).0) [
    | inl none_left ↦
        rw (new_page, none_left) (evict_page-IsUnticked file (below.malloc w file.block_size).1 h)
    | inr (page, got) ↦ rw (new_page, got) h
  ]

  get_page-keeps :
      (file : MtdblkFile) (pos : ℕ) (w : S)
      → IsUnticked file
      → IsUnticked (get_page below file pos w).1.0
  unfolding get_page
  get_page-keeps file pos w h =
      let page_num = pos / file.block_size in
      let index = page_num % num_cache_entries in
      let fill = fill_page-IsUnticked file index page_num in
      elim (Option-cases (file.cache index).page) [
        | inr (old, e) ↦ elim (Bool-cases ((file.cache index).num == page_num)) [
          | inl hit ↦ rw (get_page, e, hit) (fill old w h)
          | inr miss ↦ rw (get_page, e, miss) (fill old (put_page below file index old w).1 h)
        ]
        | inl empty ↦
            let file1 = (new_page below file w).1.0 in
            let given = new_page-IsUnticked file w h in
            elim (Result-cases (new_page below file w).0) [
              | inr (e, failed) ↦ rw (get_page, empty, failed) given
              | inl (page, got) ↦
                  let entry = record (file1.cache index) {
                    num = not_u32 page_num;
                    page = some page;
                  } in
                  rw (get_page, empty, got)
                    (fill_page-IsUnticked (set_entry file1 index entry) index page_num page _
                      (set_entry-IsUnticked file1 index entry (given.ticks index) given))
            ]
      ]

  -- From a file whose ticks are all 0, as `mtdblk_open` makes it, `mtdblk_get_page` makes one whose ticks are
  -- all 0; and `mtdblk_evict_page` takes the page of the first entry that has one,
  -- when none of the entries in front of it has one, whatever was used last.
  pub evict_page-first :
      (file : MtdblkFile) (pos : ℕ) (w : S) (first : ℕ) (page : List ℕ)
      → IsUnticked file
      → first < num_cache_entries
      → ((i : ℕ) → i < first → (file.cache i).page ≡ none)
      → (file.cache first).page ≡ some page
      → IsUnticked (get_page below file pos w).1.0
        × (evict_page below file w ≡ (
          (put_page below file first page w).0,
          (set_page file first none, (put_page below file first page w).1),
        ))
  unfolding evict_page
  evict_page-first file pos w first page h within empty full =
      let e =
        first_page-first file.cache first page num_cache_entries 0 first (omega arith) within empty
          full in
      let young =
        oldest_page-first file.cache first (first + 1) (num_cache_entries - (first + 1)) h.ticks in
      (get_page-keeps file pos w h, rw (evict_page, e, young, full, young) refl)
