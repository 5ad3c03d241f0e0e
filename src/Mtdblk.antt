-- ===== src/Mtdblk.antt =====
-- The block devices over flash: morelib/mtdblk.c. A write-back cache of erase blocks stands before the
-- MTD file. `size_t` and `off_t` have 32 bits, and an `off_t` is negative from 2 ^ 31 on. What the driver
-- calls (the MTD file, the heap, the clock) is a parameter that works on a state `S`.
pub mod Transfer
pub mod Device
mod Blocks
pub mod View
pub mod Page
pub mod Fill
pub mod Fetch
pub mod Position
pub mod Reads
pub mod Stores
pub mod Ready
pub mod Rounds
pub mod Writes
pub mod Flush
pub mod Flat
pub mod Refine
pub mod Answers
pub mod Runs
pub mod Eviction
pub mod Discard
pub mod Lost
mod Tests
use morelibc.Base.{
  ℕ, zero, suc, ◌+◌, ◌-◌, ◌*◌, ◌/◌, ◌%◌, Bool, true, false, ◌&&◌, not, Option, none, some, List,
  ltb, ◌==◌, if◌then◌else◌, u32, not_u32, store, Result, ok, err, enomem, Errno,
}

-- `vfs_ioctl` with MEMERASE, `vfs_pread`, `vfs_pwrite` and `vfs_fsync` on the MTD file, `malloc`, `free`
-- and `clock_gettime`. A block that `malloc` gives has some bytes in it.
pub record Below (S : Type 0) : Type 0 where
  pub erase : S → ℕ → ℕ → Result (Unit {0}) × S
  pub pread : S → ℕ → ℕ → Result (List ℕ)
  pub pwrite : S → List ℕ → ℕ → Result ℕ × S
  pub fsync : S → Result (Unit {0}) × S
  pub malloc : S → ℕ → Option (List ℕ) × S
  pub free : S → S
  pub now : S → ℕ

-- `struct mtdblk_cache_entry`
pub record Entry : Type 0 where
  pub num : ℕ
  pub page : Option (List ℕ)
  pub tick : ℕ

abbrev pub num_cache_entries : ℕ
num_cache_entries = 16

-- `struct mtdblk_file`, the cache as a function from its indices.
pub record MtdblkFile : Type 0 where
  pub index : ℕ
  pub size : ℕ
  pub block_size : ℕ
  pub pos : ℕ
  pub ro : ℕ
  pub cache : ℕ → Entry
  pub next_tick : ℕ
  pub mtime : ℕ

abbrev pub is_cached : Option (List ℕ) → Bool
is_cached none = false
is_cached (some page) = true

abbrev pub update : (ℕ → Entry) → ℕ → Entry → ℕ → Entry
update cache index entry = λ j. if j == index then entry else cache j

-- `file->cache[index] = entry`
unfoldable pub set_entry : MtdblkFile → ℕ → Entry → MtdblkFile
set_entry file index entry = record file { cache = update file.cache index entry }

unfoldable pub set_page : MtdblkFile → ℕ → Option (List ℕ) → MtdblkFile
unfolding set_entry
set_page file index page = set_entry file index (record (file.cache index) { page = page })

-- The end of `mtdblk_get_page`: the tick.
unfoldable pub touch : MtdblkFile → ℕ → MtdblkFile
touch file index =
    let entry = file.cache index in
    if ltb entry.tick file.next_tick
    then (record (set_entry file index (record entry { tick = u32 (file.next_tick + 1) })) {
      next_tick = u32 (file.next_tick + 1);
    })
    else file

-- The loops of `mtdblk_evict_page`, over the `n` entries from `index` on.
unfoldable pub first_page : (ℕ → Entry) → ℕ → ℕ → Option ℕ
first_page cache index zero = none
first_page cache index (suc n) =
    if is_cached (cache index).page then some index else first_page cache (index + 1) n

unfoldable pub oldest_page : (ℕ → Entry) → ℕ → ℕ → ℕ → ℕ
oldest_page cache oldest index zero = oldest
oldest_page cache oldest index (suc n) =
    let older = is_cached (cache index).page && ltb (cache index).tick (cache oldest).tick in
    oldest_page cache (if older then index else oldest) (index + 1) n

-- `mtdblk_find_page`: the index of the entry that holds the position, and the bytes that follow in the
-- block.
unfoldable pub find_page : MtdblkFile → ℕ → Option ℕ × ℕ
find_page file pos =
    if ltb 1 file.block_size
    then (let page_num = pos / file.block_size in
        let entry = file.cache (page_num % num_cache_entries) in
        (
          if is_cached entry.page && entry.num == page_num
              then some (page_num % num_cache_entries)
              else none,
          file.block_size - pos % file.block_size,
        ))
    else (none, not_u32 0)

module _ {S : Type 0} (below : Below S) where
  -- `mtdblk_put_page`, with the entry's page, which is not NULL
  unfoldable pub put_page : MtdblkFile → ℕ → List ℕ → S → Result (List ℕ) × S
  put_page file index page w =
      let start = u32 ((file.cache index).num * file.block_size) in
      let (erased, w1) = below.erase w start file.block_size in
      elim erased [
        | err e ↦ (err e, w1)
        | ok _ ↦
            let (written, w2) = below.pwrite w1 page start in
            elim written [ err e ↦ (err e, w2) | ok _ ↦ (ok page, w2) ]
      ]

  -- `mtdblk_evict_page`: the page that the cache gives up.
  unfoldable pub evict_page : MtdblkFile → S → Result (List ℕ) × (MtdblkFile × S)
  evict_page file w = elim (first_page file.cache 0 num_cache_entries) [
    | none ↦ (err enomem, (file, w))
    | some first ↦
        let oldest = oldest_page file.cache first (first + 1) (num_cache_entries - (first + 1)) in
        elim (file.cache oldest).page [
          | none ↦ (err enomem, (file, w))
          | some page ↦
              let (put, w1) = put_page file oldest page w in (put, (set_page file oldest none, w1))
        ]
  ]

  -- A page for an entry that has none.
  unfoldable pub new_page : MtdblkFile → S → Result (List ℕ) × (MtdblkFile × S)
  new_page file w =
      let (block, w1) = below.malloc w file.block_size in
      elim block [ some page ↦ (ok page, (file, w1)) | none ↦ evict_page file w1 ]

  -- The second half of `mtdblk_get_page`: `page` is what the entry holds, and gets the block's bytes.
  unfoldable pub fill_page : MtdblkFile → ℕ → ℕ → List ℕ → S → Result ℕ × (MtdblkFile × S)
  fill_page file index page_num page w =
      if not ((file.cache index).num == page_num)
      then elim (below.pread w file.block_size (u32 (page_num * file.block_size))) [
        | err e ↦ (err e, (set_page file index none, below.free w))
        | ok bytes ↦
            let entry = record (file.cache index) {
              num = page_num;
              page = some (store page 0 bytes);
            } in
            (ok index, (touch (set_entry file index entry) index, w))
      ]
      else (ok index, (touch file index, w))

  -- `mtdblk_get_page`: the entry that now holds the position. A failed write of the old page is
  -- ignored.
  unfoldable pub get_page : MtdblkFile → ℕ → S → Result ℕ × (MtdblkFile × S)
  get_page file pos w =
      let page_num = pos / file.block_size in
      let index = page_num % num_cache_entries in
      elim (file.cache index).page [
        | none ↦
            let (got, (file1, w1)) = new_page file w in
            elim got [
              | err e ↦ (err e, (file1, w1))
              | ok page ↦
                  let entry = record (file1.cache index) {
                    num = not_u32 page_num;
                    page = some page;
                  } in
                  fill_page (set_entry file1 index entry) index page_num page w1
            ]
        | some page ↦
            if (file.cache index).num == page_num
            then fill_page file index page_num page w
            else fill_page file index page_num page (put_page file index page w).1
      ]

  -- The loop of `mtdblk_flush`, over the `n` entries from `index` on; `failed` is the `errno` of the last page
  -- that was not written, if `ret` is -1.
  unfoldable pub flush_loop :
      MtdblkFile → ℕ → ℕ → Option Errno → S → Option Errno × (MtdblkFile × S)
  flush_loop file index zero failed w = (failed, (file, w))
  flush_loop file index (suc n) failed w = elim (file.cache index).page [
    | none ↦ flush_loop file (index + 1) n failed w
    | some page ↦
        let (put, w1) = put_page file index page w in
        elim put [
          | err e ↦ flush_loop file (index + 1) n (some e) w1
          | ok _ ↦ flush_loop (set_page file index none) (index + 1) n failed (below.free w1)
        ]
  ]

  unfoldable pub flush : MtdblkFile → S → Result (Unit {0}) × (MtdblkFile × S)
  flush file w =
      let (failed, (file1, w1)) = flush_loop file 0 num_cache_entries none w in
      let (synced, w2) = below.fsync w1 in
      elim synced [
        | err e ↦ (err e, (file1, w2))
        | ok _ ↦ (elim failed [ none ↦ ok tt | some e ↦ err e ], (file1, w2))
      ]
