-- ===== src/Mtdblk/Lost.antt =====
-- A write back that fails in `mtdblk_get_page` of morelib/mtdblk.c.
use morelibc.Base.{
  ℕ, ◌*◌, ◌/◌, ◌%◌, ◌≡◌, ◌≢◌, refl, false, some, List, store, ◌==◌, ==_refl, u32, Errno, ok, err,
  arith,
}
use morelibc.Mtdblk.{Below, MtdblkFile, num_cache_entries, put_page, fill_page, get_page}
use morelibc.Mtdblk.Fill.{touch-set_entry}

module _ {S : Type 0} (below : Below S) (file : MtdblkFile) where
  -- When the entry holds another block's page, the erase of that block fails and the new block can be read,
  -- `mtdblk_get_page` succeeds: the entry holds the new block, and the old page is gone and was not written.
  pub get_page-loses :
      (pos : ℕ) (w : S) (old bytes : List ℕ) (e : Errno)
      → let page_num = pos / file.block_size in
        let index = page_num % num_cache_entries in
        let start = u32 ((file.cache index).num * file.block_size) in
        (file.cache index).page ≡ some old
        → (file.cache index).num ≢ page_num
        → (below.erase w start file.block_size).0 ≡ err e
        → below.pread
            (below.erase w start file.block_size).1
            file.block_size
            (u32 (page_num * file.block_size))
          ≡ ok bytes
        → let (got, (file1, w1)) = get_page below file pos w in
          (got ≡ ok index)
          × ((file1.cache index).num ≡ page_num)
          × ((file1.cache index).page ≡ some (store old 0 bytes))
          × (w1 ≡ (below.erase w start file.block_size).1)
  unfolding get_page put_page fill_page
  get_page-loses pos w old bytes e cached other failed got =
      let page_num = pos / file.block_size in
      let index = page_num % num_cache_entries in
      let differs : ((file.cache index).num == page_num) ≡ false = ground arith in
      let entry = record (file.cache index) { num = page_num; page = some (store old 0 bytes) } in
      let (tick, next, touched) = touch-set_entry file index entry in
      rw (get_page, cached, fill_page, differs, put_page, failed, got, touched)
        (refl, rw (==_refl index) refl, rw (==_refl index) refl, rw (put_page, failed) refl)
