-- ===== src/Mtdblk/Fetch.antt =====
-- `mtdblk_get_page` of morelib/mtdblk.c: a block gets its page.
use morelibc.Base.{
  ℕ, ◌*◌, ◌/◌, ◌<◌, ◌≡◌, ◌≢◌, ◌⊎◌, inl, inr, refl, sym, ap, subst, ◌∙◌, none, some, List, ◌==◌,
  ==_iff, ==_refl, Bool-cases, Option-cases, not_u32, Result, ok, err, enomem, arith,
}
use morelibc.Mtdblk.{
  Below, Entry, MtdblkFile, update, num_cache_entries, set_entry, put_page, new_page, get_page,
}
use morelibc.Mtdblk.Blocks.{block_end}
use morelibc.Mtdblk.Page.{put_page_lem, Evicts, evict_page_lem}
use morelibc.Mtdblk.View.{
  Healthy, bytes_at, byte_of, slot, view, FitsPage, IsValid, update-IsValid, view-update,
  byte_of-elsewhere, update-update, Shows,
}
use morelibc.Mtdblk.Fill.{
  length-bytes_at, with_cache, loaded, byte_of-loaded, fill_page_hit, fill_page_lem,
}

module _ {S : Type 0} {below : Below S} (file : MtdblkFile)
    (m : Healthy below file.size file.block_size)
    (v : IsValid file.size file.block_size file.cache) where
  new_page_lem : (w : S) → Evicts file m v w (new_page below file w)
  unfolding new_page
  new_page_lem w = elim (Option-cases (below.malloc w file.block_size).0) [
    | inl none_left ↦
        let e = evict_page_lem file m v (below.malloc w file.block_size).1 in
        rw (new_page, none_left)
          (record {
            shows = record {
              cache = e.shows.cache;
              tick = e.shows.tick;
              same = e.shows.same;
              valid = e.shows.valid;
              bytes = λ a.
                  e.shows.bytes a
                  ∙ ap (λ d. view file.block_size file.cache d a)
                      (m.keeps_malloc w file.block_size);
            };
            stays = e.stays;
            result = e.result;
          })
    | inr (page, got) ↦
        rw (new_page, got)
          (record {
            shows = record {
              cache = file.cache;
              tick = file.next_tick;
              same = refl;
              valid = v;
              bytes = λ a.
                  ap (λ d. view file.block_size file.cache d a) (m.keeps_malloc w file.block_size);
            };
            stays = λ i h. h;
            result = inl (page, refl, m.allocates w file.block_size page got);
          })
  ]

  -- What a call for the page of a position does: the entry holds the block, or no page is to be had.
  pub record Fetches (w : S) (pos : ℕ) (out : Result ℕ × (MtdblkFile × S)) : Type 0 where
    pub shows : Shows file m w out.1
    pub result :
        ((out.0 ≡ ok (slot file.block_size pos))
          × ((shows.cache (slot file.block_size pos)).num ≡ pos / file.block_size)
          × ((page : List ℕ) × ((shows.cache (slot file.block_size pos)).page ≡ some page)))
        ⊎ ((out.0 ≡ err enomem) × ((i : ℕ) → i < num_cache_entries → (file.cache i).page ≡ none))

  module _ (pos : ℕ) (w : S) (in_file : pos < file.size) (big : 1 < file.block_size) where
    -- The block is loaded over a cache `before` that shows what the file shows.
    loaded-Fetches :
        (before : ℕ → Entry) (w0 w1 : S) (tick next : ℕ)
        → IsValid file.size file.block_size before
        → ((a : ℕ)
            → view file.block_size before (m.content w0) a
              ≡ view file.block_size file.cache (m.content w) a)
        → ((a : ℕ)
            → m.content w1 a
              ≡ byte_of file.block_size (before (slot file.block_size pos)) (m.content w0 a) a)
        → Fetches w pos (
          ok (slot file.block_size pos),
          (
            with_cache file
                (update before
                  (slot file.block_size pos)
                  (loaded (m.content w1) file.block_size (pos / file.block_size) tick))
                next,
            w1,
          ),
        )
    loaded-Fetches before w0 w1 tick next v0 shown stored =
        let bs = file.block_size in
        let index = slot bs pos in
        let page_num = pos / bs in
        let entry = loaded (m.content w1) bs page_num tick in
        let bytes = bytes_at (m.content w1) (page_num * bs) bs in
        record {
          shows = record {
            cache = update before index entry;
            tick = next;
            same = refl;
            valid = update-IsValid v0 index entry (
              length-bytes_at (m.content w1) (page_num * bs) bs,
              refl,
              block_end pos bs v.has_blocks file.size v.whole in_file,
              big,
            );
            bytes = λ a.
                view-update v0 index entry (m.content w0) (m.content w1)
                  (λ b e. byte_of-loaded (m.content w1) bs page_num tick b v.has_blocks ∙ stored b)
                  (λ b ne. stored b ∙ byte_of-elsewhere v0 index (m.content w0 b) b ne) a
                ∙ shown a;
          };
          result = inl (refl, rw (==_refl index) refl, (bytes, rw (==_refl index) refl));
        }

    fetch_cached :
        (page : List ℕ)
        → (file.cache (slot file.block_size pos)).page ≡ some page
        → Fetches w pos (get_page below file pos w)
    unfolding get_page
    fetch_cached page e =
        let bs = file.block_size in
        let page_num = pos / bs in
        let index = slot bs pos in
        elim (Bool-cases ((file.cache index).num == page_num)) [
          | inl hit ↦
              let (tick, next, done) = fill_page_hit below file index page_num page w hit in
              let entry = record (file.cache index) { tick = tick } in
              rw (get_page, e, hit, done)
                (record {
                  shows = record {
                    cache = update file.cache index entry;
                    tick = next;
                    same = refl;
                    valid = update-IsValid v index entry (v.placed index);
                    bytes =
                        view-update v index entry (m.content w) (m.content w) (λ a _. refl)
                          (λ a _. refl);
                  };
                  result = inl (
                    refl,
                    rw (==_refl index) ((==_iff _ page_num).0 hit),
                    (page, rw (==_refl index) e),
                  );
                })
          | inr miss ↦
              let w1 = (put_page below file index page w).1 in
              let (_, stored) = put_page_lem file m v index page w e in
              let (len, _, _, _) =
                subst (FitsPage file.size bs index (file.cache index).num) e (v.placed index) in
              let room = block_end pos bs v.has_blocks file.size v.whole in_file in
              let (tick, next, done) =
                fill_page_lem file m v.fits index page_num page w1 (ground arith) len room in
              rw (get_page, e, miss, done)
                (loaded-Fetches file.cache w w1 tick next v (λ a. refl) stored)
        ]

    fetch_new :
        (file.cache (slot file.block_size pos)).page ≡ none
        → Fetches w pos (get_page below file pos w)
    unfolding get_page set_entry
    fetch_new e =
        let bs = file.block_size in
        let page_num = pos / bs in
        let index = slot bs pos in
        let room = block_end pos bs v.has_blocks file.size v.whole in_file in
        let (got, (file1, w1)) = new_page below file w in
        let given = new_page_lem w in
        let before = given.shows.cache in
        let same = given.shows.same in
        elim given.result [
          | inr (none_left, empty) ↦
              rw (get_page, e, none_left)
                (record { shows = given.shows; result = inr (refl, empty) })
          | inl (page, got_page, len) ↦
              let entry = record (before index) { num = not_u32 page_num; page = some page } in
              let file2 = set_entry (with_cache file before given.shows.tick) index entry in
              let none_here : (before index).page ≡ none =
                ap (λ f. (f.cache index).page) (sym same) ∙ given.stays index e in
              let differs : (file2.cache index).num ≢ page_num = rw (==_refl index) (omega arith) in
              let (tick, next, done) =
                fill_page_lem file2 m v.fits index page_num page w1 differs len room in
              rw (get_page, e, got_page, same, done, update-update)
                (loaded-Fetches before w1 w1 tick next given.shows.valid given.shows.bytes
                  (λ a. rw (none_here, byte_of) refl))
        ]

    -- Over a device without faults, for a position in the device and a valid cache, `mtdblk_get_page` leaves a
    -- valid cache and what the file shows as it is; the entry of the position's block then holds that block, or
    -- the call fails with ENOMEM, when no page is cached.
    pub get_page_lem : Fetches w pos (get_page below file pos w)
    get_page_lem = elim (Option-cases (file.cache (slot file.block_size pos)).page) [
      | inl e ↦ fetch_new e
      | inr (page, e) ↦ fetch_cached page e
    ]
