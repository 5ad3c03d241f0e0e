-- ===== src/Mtdblk/Tests.antt =====
-- A block device of 16 bytes in blocks of 4 over a memory, with room for one page in the heap, for
-- morelib/mtdblk.c.
mod Ram
use morelibc.Base.{
  ℕ, ◌+◌, ◌-◌, ◌*◌, ◌/◌, ◌^◌, ◌≡◌, ◌⊎◌, inl, inr, refl, ap, ◌&&◌, Option, none, some, List, [], ◌∷◌,
  length, length-replicate, replicate, store, load, leb, ◌==◌, min, ==_iff, Bool-cases,
  if◌then◌else◌, Result, ok, err, einval, eio, enomem, erofs, arith,
}
use morelibc.Mtdblk.{
  Below, Entry, MtdblkFile, num_cache_entries, set_page, set_entry, first_page, oldest_page,
  find_page, put_page, evict_page, new_page, touch, fill_page, get_page, flush_loop, flush,
}
use morelibc.Mtdblk.Device.{
  Table, file_init, open_file, close_file, discard, discard_loop, seek_from, ioctl, seek_set, fstat,
}
use morelibc.Mtdblk.Device
use morelibc.Mtdblk.Discard.{discard-view}
use morelibc.Mtdblk.Eviction.{IsUnticked, evict_page-first}
use morelibc.Mtdblk.Fetch.{Fetches, get_page_lem}
use morelibc.Mtdblk.Flat
use morelibc.Mtdblk.Flat.{Call, Outcome, bytes, count, Flat, Follows, FitsCall, call_file, call_all}
use morelibc.Mtdblk.Flush.{Flushed, flush_lem}
use morelibc.Mtdblk.Reads.{rread_lem}
use morelibc.Mtdblk.Runs.{file_init-call_all-close_file}
use morelibc.Mtdblk.Transfer.{read_loop, rread, page_for_write, write_page, write_loop, rwrite}
use morelibc.Mtdblk.Transfer
use morelibc.Mtdblk.View.{Healthy, bytes_at, overlay, view, IsValid}
use morelibc.Mtdblk.Writes.{write_loop_lem}
use morelibc.Mtdblk.Rounds.{NoMemory}
use morelibc.Mtdblk.Ready.{Wrote}
use morelibc.Mtdblk.Lost.{get_page-loses}
use morelibc.Mtdblk.Tests.Ram.{World, ram, start, ram-Healthy}

program : Unit {0}
unfolding set_page set_entry first_page oldest_page find_page put_page evict_page new_page touch
    fill_page get_page flush_loop flush file_init read_loop rread page_for_write write_page
    write_loop rwrite Transfer.read Transfer.write Transfer.pread Transfer.pwrite seek_from
    Device.lseek ioctl call_file call_all bytes_at view store load
program = tt

abbrev vioctl : World → ℕ → Result ℕ × World
vioctl w request = (err einval, w)

abbrev get_info : World → ℕ → Result (ℕ × ℕ)
get_info w index = ok (16, 4)

abbrev table : Table
table = record { files = λ _. none; ref_counts = λ _. 0 }

abbrev fresh : MtdblkFile
fresh = record {
  index = 0;
  size = 16;
  block_size = 4;
  pos = 0;
  ro = 0;
  cache = λ _. record { num = 0; page = none; tick = 0 };
  next_tick = 0;
  mtime = 0;
}

-- A write over a block's end, which evicts the first page for the second block.
abbrev calls : List Call
calls =
    Flat.pwrite (50 ∷ 51 ∷ 52 ∷ []) 3
    ∷ Flat.lseek 2 seek_set
    ∷ Flat.read 5
    ∷ Flat.write (1 ∷ [])
    ∷ Flat.pread 100 14
    ∷ Flat.set_ro 1
    ∷ Flat.write (9 ∷ [])
    ∷ Flat.fsync
    ∷ []

abbrev outs : List Outcome
outs =
    count (ok 3)
    ∷ count (ok 2)
    ∷ bytes (ok (2 ∷ 50 ∷ 51 ∷ 52 ∷ 6 ∷ []))
    ∷ count (ok 1)
    ∷ bytes (ok (14 ∷ 15 ∷ []))
    ∷ count (ok 0)
    ∷ count (err erofs)
    ∷ count (ok 0)
    ∷ []

abbrev outcomes : Option (List Outcome × (MtdblkFile × World)) → List Outcome
outcomes none = []
outcomes (some (os, after)) = os

calls_run : outcomes (call_all ram vioctl 16 fresh calls start) ≡ outs
unfolding program
calls_run = refl

file_init-call_all-close_file_example :
    (file : MtdblkFile) × (outs : List Outcome) × (after : MtdblkFile × World) × (flat : Flat)
    × (file_init get_info 0 start ≡ ok file)
    × (call_all ram vioctl 16 file calls start ≡ some (outs, after))
    × Follows calls (record { size = 16; pos = 0; ro = 0; data_at = λ a. a }) outs flat
    × ((close_file ram table after.0 after.1).0 ≡ ok tt)
    × ((a : ℕ) → (close_file ram table after.0 after.1).1.1.0 a ≡ flat.data_at a)
unfolding ram-Healthy close_file
file_init-call_all-close_file_example =
    file_init-call_all-close_file vioctl get_info table 0 16 4 ram-Healthy calls 16 start refl
      (omega arith) refl (omega arith) (omega arith)
      (omega arith, (tt, (tt, (omega arith, (omega arith, (tt, (omega arith, (tt, tt))))))))

-- Block 1 is cached, with a byte changed; block 5 of a larger device shares its entry.
abbrev one_page : Entry
one_page = record { num = 1; page = some (4 ∷ 99 ∷ 6 ∷ 7 ∷ []); tick = 0 }

abbrev empty_entry : Entry
empty_entry = record { num = 0; page = none; tick = 0 }

abbrev dirty : MtdblkFile
dirty = record fresh { cache = λ i. if i == 1 then one_page else empty_entry }

dirty-IsValid : IsValid 16 4 dirty.cache
dirty-IsValid = record {
  has_blocks = omega arith;
  whole = refl;
  fits = omega arith;
  placed = λ i. elim (Bool-cases (i == 1)) [
    | inl e ↦ rw (e, (==_iff i 1).0 e) (refl, refl, omega arith, omega arith)
    | inr e ↦ rw e tt
  ];
}

flush_lem_example : Flushed dirty ram-Healthy start (flush ram dirty start)
flush_lem_example = flush_lem dirty ram-Healthy start dirty-IsValid

-- The heap is empty, so that the page of block 1 is evicted for block 2.
get_page_lem_example :
    Fetches dirty ram-Healthy dirty-IsValid (start.0, 0) 9 (get_page ram dirty 9 (start.0, 0))
get_page_lem_example =
    get_page_lem dirty ram-Healthy dirty-IsValid 9 (start.0, 0) (omega arith) (omega arith)

write_loop_lem_example :
    Wrote fresh ram-Healthy
      (start.0, 0)
      (1 ∷ 2 ∷ [])
      3
      (write_loop ram fresh 2 (1 ∷ 2 ∷ []) 3 (start.0, 0))
    ⊎ NoMemory fresh ram-Healthy (start.0, 0) 3 (write_loop ram fresh 2 (1 ∷ 2 ∷ []) 3 (start.0, 0))
write_loop_lem_example =
    write_loop_lem 2 fresh ram-Healthy (1 ∷ 2 ∷ []) 3 (start.0, 0)
      (record { has_blocks = omega arith; whole = refl; fits = omega arith; placed = λ i. tt })
      (omega arith) (omega arith)

refused :
    write_loop ram fresh 2 (1 ∷ 2 ∷ []) 3 (start.0, 0)
    ≡ some (err enomem, (fresh, (3, (start.0, 0))))
unfolding program
refused = refl

dirty-IsUnticked : IsUnticked dirty
dirty-IsUnticked = record {
  next = refl;
  ticks = λ i. elim (Bool-cases (i == 1)) [ inl e ↦ rw e refl | inr e ↦ rw e refl ];
}

first_dirty : first_page dirty.cache 0 num_cache_entries ≡ some 1
unfolding first_page
first_dirty = refl

evict_page-first_example :
    IsUnticked (get_page ram dirty 9 start).1.0
    × (evict_page ram dirty start ≡ (
      (put_page ram dirty 1 (4 ∷ 99 ∷ 6 ∷ 7 ∷ []) start).0,
      (set_page dirty 1 none, (put_page ram dirty 1 (4 ∷ 99 ∷ 6 ∷ 7 ∷ []) start).1),
    ))
evict_page-first_example =
    evict_page-first ram dirty 9 start 1 (4 ∷ 99 ∷ 6 ∷ 7 ∷ []) dirty-IsUnticked (omega arith)
      (λ i h. ap (λ j. (dirty.cache j).page) (let e : i ≡ 0 = omega arith in e)) refl

discard-view_example :
    IsValid 16 4 (discard dirty 2 10).cache
    × (view 4 (discard dirty 2 10).cache start.0 5 ≡ (
        if leb 2 (5 / 4 * 4) && leb (5 / 4 * 4 + 4) (2 + 10)
        then start.0 5
        else view 4 dirty.cache start.0 5))
discard-view_example = discard-view dirty dirty-IsValid 2 10 (omega arith) start.0 5

-- A device whose erase fails, over a file with a page of block 1.
abbrev broken : Below World
broken = record ram { erase = λ w start len. (err eio, w) }

abbrev larger : MtdblkFile
larger = record dirty { size = 128 }

get_page-loses_example :
    let (got, (file1, w1)) = get_page broken larger 70 start in
    (got ≡ ok 1)
    × ((file1.cache 1).num ≡ 17)
    × ((file1.cache 1).page ≡ some (store (4 ∷ 99 ∷ 6 ∷ 7 ∷ []) 0 (bytes_at start.0 68 4)))
    × (w1 ≡ start)
get_page-loses_example =
    get_page-loses broken larger 70 start (4 ∷ 99 ∷ 6 ∷ 7 ∷ []) (bytes_at start.0 68 4) eio refl
      (omega arith) refl refl

sought : Device.lseek fresh (2 ^ 32 - 4) Device.seek_end ≡ (ok 12, record fresh { pos = 12 })
unfolding program
sought = refl
