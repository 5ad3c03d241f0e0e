-- ===== src/Mtdblk/Device.antt =====
-- The other operations of morelib/mtdblk.c: flush, seek, the ioctl requests, open and close.
use morelibc.Base.{
  ℕ, zero, suc, ◌+◌, ◌-◌, ◌/◌, ◌^◌, bit_or, Bool, ◌&&◌, Option, none, some, ltb, leb, ◌==◌,
  if◌then◌else◌, u32, u64, Result, ok, err, einval, efbig, enodev, enomem,
}
use morelibc.Mtdblk.{Below, MtdblkFile, num_cache_entries, is_cached, set_page, flush}

pub data SeekWhence : Type 0 where
  seek_set seek_cur seek_end other_whence : SeekWhence

-- `pos` is moved by `base` and tested.
unfoldable pub seek_from : MtdblkFile → ℕ → ℕ → Result ℕ × MtdblkFile
seek_from file base pos =
    let target = u32 (pos + base) in
    if leb (2 ^ 31) target
    then (err einval, file)
    else if ltb file.size target
    then (err efbig, file)
    else (ok target, record file { pos = target })

unfoldable pub lseek : MtdblkFile → ℕ → SeekWhence → Result ℕ × MtdblkFile
unfolding seek_from
lseek file pos whence = elim whence [
  | seek_set ↦ seek_from file 0 pos
  | seek_cur ↦ seek_from file file.pos pos
  | seek_end ↦ seek_from file file.size pos
  | other_whence ↦ (err einval, file)
]

-- The requests of `mtdblk_ioctl`; the MTD file's own are refused, and any other is passed on to it.
pub data Request : Type 0 where
  blkroset : ℕ → Request
  blkroget blkgetsize blkflsbuf blksszget : Request
  blkdiscard : ℕ → ℕ → Request
  mem_request : Request
  other_request : ℕ → Request

-- BLKDISCARD, over the `n` entries from `index` on: the blocks from `begin` to `end` lose their pages,
-- which are not freed.
unfoldable pub discard_loop : MtdblkFile → ℕ → ℕ → ℕ → ℕ → MtdblkFile
discard_loop file begin end index zero = file
discard_loop file begin end index (suc n) =
    let entry = file.cache index in
    let hit = is_cached entry.page && (leb begin entry.num && ltb entry.num end) in
    discard_loop (if hit then set_page file index none else file) begin end (index + 1) n

unfoldable pub discard : MtdblkFile → ℕ → ℕ → MtdblkFile
discard file start len =
    discard_loop file (u32 (u64 (start + file.block_size - 1) / file.block_size))
      (u32 (u64 (start + len) / file.block_size)) 0 num_cache_entries

module _ {S : Type 0} (below : Below S) (vioctl : S → ℕ → Result ℕ × S) where
  -- The result, or the number that the request asks for.
  unfoldable pub ioctl : MtdblkFile → Request → S → Result ℕ × (MtdblkFile × S)
  unfolding discard
  ioctl file (blkroset ro) w = (ok 0, (record file { ro = ro }, w))
  ioctl file blkroget w = (ok file.ro, (file, w))
  ioctl file blkgetsize w = (ok (file.size / 2 ^ 9), (file, w))
  ioctl file blkflsbuf w =
      let (flushed, after) = flush below file w in
      elim flushed [ err e ↦ (err e, after) | ok _ ↦ (ok 0, after) ]
  ioctl file blksszget w = (ok 512, (file, w))
  ioctl file (blkdiscard start len) w = (ok 0, (discard file start len, w))
  ioctl file mem_request w = (err einval, (file, w))
  ioctl file (other_request request) w = let (answer, w1) = vioctl w request in (answer, (file, w1))

-- `mtdblk_fstat`: `st_rdev` with the number of DEV_MTDBLK0, and `st_mtim`.
unfoldable pub fstat : ℕ → MtdblkFile → ℕ × ℕ
fstat dev_mtdblk0 file = (bit_or dev_mtdblk0 file.index, file.mtime)

-- The device table of the driver, and what it finds below: `opendev` and MEMGETINFO give the size and the
-- erase size of a device.
abbrev pub num_devices : ℕ
num_devices = 4

pub record Table : Type 0 where
  pub files : ℕ → Option MtdblkFile
  pub ref_counts : ℕ → ℕ

abbrev pub put_file : Table → ℕ → Option MtdblkFile → ℕ → Table
put_file table index file count = record {
  files = λ j. if j == index then file else table.files j;
  ref_counts = λ j. if j == index then count else table.ref_counts j;
}

-- `mtdblk_file_init` of a file from `calloc`
unfoldable pub file_init : {S : Type 0} → (S → ℕ → Result (ℕ × ℕ)) → ℕ → S → Result MtdblkFile
file_init get_info index w = elim (get_info w index) [
  | err e ↦ err e
  | ok (size, erase_size) ↦ ok (record {
    index = index;
    size = size;
    block_size = erase_size;
    pos = 0;
    ro = 0;
    cache = λ _. record { num = 0; page = none; tick = 0 };
    next_tick = 0;
    mtime = 0;
  })
]

-- `mtdblk_open`: the index of the file, which a second `open` shares.
unfoldable pub open_file :
    {S : Type 0} → (S → ℕ → Result (ℕ × ℕ)) → Bool → Table → ℕ → S → Result ℕ × Table
unfolding file_init
open_file get_info has_room table index w =
    if leb num_devices index then (err enodev, table) else elim (table.files index) [
      | some file ↦ (ok index, put_file table index (some file) (table.ref_counts index + 1))
      | none ↦
          if has_room
          then elim (file_init get_info index w) [
            | err e ↦ (err e, table)
            | ok file ↦ (ok index, put_file table index (some file) 1)
          ]
          else (err enomem, table)
    ]

-- `mtdblk_close`, which the last release of the file calls.
unfoldable pub close_file :
    {S : Type 0} → Below S → Table → MtdblkFile → S → Result (Unit {0}) × (Table × S)
close_file below table file w =
    let (flushed, (_, w1)) = flush below file w in (flushed, (put_file table file.index none 0, w1))
