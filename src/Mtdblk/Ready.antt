-- ===== src/Mtdblk/Ready.antt =====
-- What `mtdblk_rwrite` of morelib/mtdblk.c has for a position before it writes there.
use morelibc.Base.{
  ℕ, ◌+◌, ◌/◌, ◌≤◌, ◌<◌, ◌≡◌, ◌⊎◌, inl, inr, refl, Option, none, some, List, length, ltb,
  Bool-cases, ltb→lt, Result, ok, err, enomem, arith,
}
use morelibc.Mtdblk.{Below, Entry, MtdblkFile, num_cache_entries}
use morelibc.Mtdblk.Fetch.{get_page_lem}
use morelibc.Mtdblk.Transfer.{WriteOutcome, page_for_write}
use morelibc.Mtdblk.View.{Healthy, overlay, slot, view, IsValid, Shows, Shows-refl}
use morelibc.Mtdblk.Position.{find_page_lem}
use morelibc.Mtdblk.Fill.{with_cache}

abbrev pub IsEmpty : (ℕ → Entry) → Type 0
IsEmpty cache = (i : ℕ) → i < num_cache_entries → (cache i).page ≡ none

-- A page can be had without the heap: some entry has one, or none is needed.
abbrev pub IsWarm : ℕ → (ℕ → Entry) → Type 0
IsWarm block_size cache =
    (block_size ≤ 1)
    ⊎ ((i : ℕ) × (i < num_cache_entries) × ((page : List ℕ) × ((cache i).page ≡ some page)))

pub IsWarm-IsEmpty :
    (block_size : ℕ) (cache : ℕ → Entry)
    → 1 < block_size
    → IsWarm block_size cache
    → IsEmpty cache
    → ⊥
IsWarm-IsEmpty block_size cache big (inl flat) empty = absurd (omega arith)
IsWarm-IsEmpty block_size cache big (inr (i, lt, (page, e))) empty = absurd (cc (e, empty i lt))

module _ {S : Type 0} {below : Below S} (file : MtdblkFile)
    (m : Healthy below file.size file.block_size) where
  abbrev pub shown : S → ℕ → ℕ
  shown w = view file.block_size file.cache (m.content w)

  -- All the bytes of a buffer are in.
  pub record Wrote (w : S) (buffer : List ℕ) (offset : ℕ) (out : Option (WriteOutcome S))
      : Type 0 where
    pub cache : ℕ → Entry
    pub tick : ℕ
    pub world : S
    pub same : out ≡ some (ok tt, (with_cache file cache tick, (offset + length buffer, world)))
    pub valid : IsValid file.size file.block_size cache
    pub bytes :
        (a : ℕ) → view file.block_size cache (m.content world) a ≡ overlay (shown w) offset buffer a

  -- What stands ready for a position: its page, the device itself, or nothing for want of memory.
  pub record Ready (w : S) (offset : ℕ) (out : Result (Option ℕ) × (MtdblkFile × S)) : Type 0 where
    pub shows : Shows file m w out.1
    pub result :
        ((1 < file.block_size)
          × (out.0 ≡ ok (some (slot file.block_size offset)))
          × ((shows.cache (slot file.block_size offset)).num ≡ offset / file.block_size)
          × ((page : List ℕ) × ((shows.cache (slot file.block_size offset)).page ≡ some page)))
        ⊎ ((file.block_size ≤ 1) × (out.0 ≡ ok none))
        ⊎ ((1 < file.block_size) × (out.0 ≡ err enomem) × IsEmpty file.cache)

  module _ (v : IsValid file.size file.block_size file.cache) where
    pub page_for_write_lem :
        (offset : ℕ) (w : S)
        → offset < file.size
        → Ready w offset (page_for_write below file offset w)
    unfolding page_for_write Shows-refl
    page_for_write_lem offset w in_file = elim (find_page_lem file v offset) [
      | inl (big, found, _, num, page) ↦
          rw (found, page_for_write)
            (record { shows = Shows-refl file m v w; result = inl (big, refl, num, page) })
      | inr (missing, _, _, _) ↦ elim (Bool-cases (ltb 1 file.block_size)) [
        | inr flat ↦
            rw (missing, flat, page_for_write)
              (record { shows = Shows-refl file m v w; result = inr (inl (ground arith, refl)) })
        | inl big ↦
            let lt = ltb→lt 1 file.block_size big in
            let got = get_page_lem file m v offset w in_file lt in
            elim got.result [
              | inl (done, num, page) ↦
                  rw (missing, big, done, page_for_write)
                    (record { shows = got.shows; result = inl (lt, refl, num, page) })
              | inr (failed, empty) ↦
                  rw (missing, big, failed, page_for_write)
                    (record { shows = got.shows; result = inr (inr (lt, refl, empty)) })
            ]
      ]
    ]
