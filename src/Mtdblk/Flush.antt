-- ===== src/Mtdblk/Flush.antt =====
-- `mtdblk_flush` of morelib/mtdblk.c.
use morelibc.Base.{
  ℕ, zero, suc, ◌+◌, ◌≤◌, ◌<◌, ◌≡◌, inl, inr, refl, sym, ap, subst, ltb, ◌∙◌, true, none, ◌==◌,
  ==_iff, Bool-cases, Option-cases, Option, Errno, Result, ok, arith,
}
use morelibc.Mtdblk.{
  Below, Entry, MtdblkFile, num_cache_entries, set_entry, set_page, put_page, flush_loop, flush,
}
use morelibc.Mtdblk.Page.{put_page_lem, drop-Shows}
use morelibc.Mtdblk.View.{Healthy, byte_of, slot, view, FitsPage, IsValid, Shows, Shows-refl}

-- What the loop leaves of the entries from `index` on.
record Flushes {S : Type 0} {below : Below S} (file : MtdblkFile)
    (m : Healthy below file.size file.block_size) (w : S) (index n : ℕ) (failed : Option Errno)
    (out : Option Errno × (MtdblkFile × S)) : Type 0 where
  shows : Shows file m w out.1
  worked : out.0 ≡ failed
  cleared : (i : ℕ) → index ≤ i → i < index + n → (shows.cache i).page ≡ none
  stays : (i : ℕ) → (file.cache i).page ≡ none → (shows.cache i).page ≡ none

beyond-empty :
    (size block_size : ℕ) (cache : ℕ → Entry) (i : ℕ)
    → IsValid size block_size cache
    → num_cache_entries ≤ i
    → (cache i).page ≡ none
beyond-empty size block_size cache i v h = elim (Option-cases (cache i).page) [
  | inl e ↦ e
  | inr (page, e) ↦
      let (_, home, _, _) = subst (FitsPage size block_size i (cache i).num) e (v.placed i) in
      absurd (omega arith)
]

module _ {S : Type 0} {below : Below S} where
  flush_loop_lem :
      (n : ℕ) (file : MtdblkFile) (m : Healthy below file.size file.block_size) (index : ℕ)
      (failed : Option Errno) (w : S)
      → IsValid file.size file.block_size file.cache
      → Flushes file m w index n failed (flush_loop below file index n failed w)
  unfolding flush_loop Shows-refl drop-Shows set_page set_entry
  flush_loop_lem zero file m index failed w v = record {
    shows = Shows-refl file m v w;
    worked = refl;
    cleared = λ i low high. absurd (omega arith);
    stays = λ i e. e;
  }
  flush_loop_lem (suc n) file m index failed w v = elim (Option-cases (file.cache index).page) [
    | inl e ↦
        let rest = flush_loop_lem n file m (index + 1) failed w v in
        rw (flush_loop, e)
          (record {
            shows = rest.shows;
            worked = rest.worked;
            cleared = λ i low high. elim (Bool-cases (i == index)) [
              | inl here ↦
                  rest.stays i (ap (λ j. (file.cache j).page) ((==_iff i index).0 here) ∙ e)
              | inr later ↦ rest.cleared i (ground arith) (omega arith)
            ];
            stays = rest.stays;
          })
    | inr (page, e) ↦
        let (put, written) = put_page_lem file m v index page w e in
        let w1 = (put_page below file index page w).1 in
        let w2 = below.free w1 in
        let dropped =
          drop-Shows file m v index w w2 (λ a. ap (λ d. d a) (m.keeps_free w1) ∙ written a) in
        let file2 = set_page file index none in
        let rest = flush_loop_lem n file2 m (index + 1) failed w2 dropped.valid in
        let gone : (i : ℕ) → (i == index) ≡ true → (file2.cache i).page ≡ none =
          λ i here. rw here refl in
        rw (flush_loop, e, put)
          (record {
            shows = record {
              cache = rest.shows.cache;
              tick = rest.shows.tick;
              same = rest.shows.same;
              valid = rest.shows.valid;
              bytes = λ a. rest.shows.bytes a ∙ dropped.bytes a;
            };
            worked = rest.worked;
            cleared = λ i low high. elim (Bool-cases (i == index)) [
              | inl here ↦ rest.stays i (gone i here)
              | inr later ↦ rest.cleared i (ground arith) (omega arith)
            ];
            stays = λ i h. rest.stays i (elim (Bool-cases (i == index)) [
              | inl here ↦ gone i here
              | inr later ↦ rw later h
            ]);
          })
  ]

  -- What is on the device is what the file shows, and the cache is empty.
  pub record Flushed (file : MtdblkFile) (m : Healthy below file.size file.block_size) (w : S)
      (out : Result (Unit {0}) × (MtdblkFile × S)) : Type 0 where
    pub worked : out.0 ≡ ok tt
    pub shows : Shows file m w out.1
    pub empty : (i : ℕ) → (shows.cache i).page ≡ none
    pub content : (a : ℕ) → m.content out.1.1 a ≡ view file.block_size file.cache (m.content w) a

  -- Over a device without faults and from a valid cache, `mtdblk_flush` succeeds and empties the cache; the file
  -- shows the same bytes, and the device holds them.
  pub flush_lem :
      (file : MtdblkFile) (m : Healthy below file.size file.block_size) (w : S)
      → IsValid file.size file.block_size file.cache
      → Flushed file m w (flush below file w)
  unfolding flush view
  flush_lem file m w v =
      let f = flush_loop_lem num_cache_entries file m 0 none w v in
      let w1 = (flush_loop below file 0 num_cache_entries none w).1.1 in
      let (synced, kept) = m.syncs w1 in
      let bytes : (a : ℕ)
          → view file.block_size f.shows.cache (m.content (below.fsync w1).1) a
            ≡ view file.block_size file.cache (m.content w) a =
        λ a. ap (λ d. view file.block_size f.shows.cache d a) kept ∙ f.shows.bytes a in
      let empty : (i : ℕ) → (f.shows.cache i).page ≡ none = λ i.
        elim (Bool-cases (ltb i num_cache_entries)) [
          | inl low ↦ f.cleared i (omega arith) (ground arith)
          | inr high ↦
              beyond-empty file.size file.block_size f.shows.cache i f.shows.valid (ground arith)
        ] in
      rw (flush, synced, f.worked)
        (record {
          worked = refl;
          shows = record {
            cache = f.shows.cache;
            tick = f.shows.tick;
            same = f.shows.same;
            valid = f.shows.valid;
            bytes = bytes;
          };
          empty = empty;
          content = λ a. sym (rw (empty (slot file.block_size a), byte_of) refl) ∙ bytes a;
        })
