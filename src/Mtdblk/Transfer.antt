-- ===== src/Mtdblk/Transfer.antt =====
-- Reads and writes through the page cache of morelib/mtdblk.c. The loops run on fuel; what is read is the
-- list of the bytes.
use morelibc.Base.{
  ℕ, zero, suc, ◌+◌, ◌-◌, ◌%◌, ◌^◌, min, Option, none, some, List, [], ◌++◌, length, take, drop,
  ltb, leb, ◌==◌, not, if◌then◌else◌, u32, sub_u32, load, store, Result, ok, err, efbig, erofs,
  einval,
}
use morelibc.Mtdblk.{Below, Entry, MtdblkFile, set_entry, find_page, get_page}

-- The bytes that an entry holds at an offset, and a store into them.
abbrev pub page_of : Entry → List ℕ
page_of entry = elim entry.page [ none ↦ [] | some page ↦ page ]

unfoldable pub write_page : MtdblkFile → ℕ → ℕ → List ℕ → MtdblkFile
unfolding set_entry
write_page file index offset bytes =
    let entry = file.cache index in
    set_entry file index (record entry { page = some (store (page_of entry) offset bytes) })

-- The outcome of a loop: the bytes read or the error, the offset and the state; none without fuel.
abbrev pub ReadOutcome : Type 0 → Type 0
ReadOutcome S = Result (List ℕ) × (ℕ × S)

abbrev pub WriteOutcome : Type 0 → Type 0
WriteOutcome S = Result (Unit {0}) × (MtdblkFile × (ℕ × S))

abbrev pub after_bytes {ℓ} :
    {S : Type ℓ} → List ℕ → Option (Result (List ℕ) × S) → Option (Result (List ℕ) × S)
after_bytes bytes none = none
after_bytes bytes (some (err e, s)) = some (err e, s)
after_bytes bytes (some (ok rest, s)) = some (ok (bytes ++ rest), s)

module _ {S : Type 0} (below : Below S) where
  -- The loop of `mtdblk_rread`.
  unfoldable pub read_loop : MtdblkFile → ℕ → ℕ → ℕ → S → Option (ReadOutcome S)
  read_loop file zero remaining offset w =
      if remaining == 0 then some (ok [], (offset, w)) else none
  read_loop file (suc fuel) remaining offset w =
      let rest = read_loop file fuel in
      if remaining == 0
      then some (ok [], (offset, w))
      else (let (page, len) = find_page file offset in
          let n = min len remaining in
          elim page [
            | some index ↦
                after_bytes (load (page_of (file.cache index)) (offset % file.block_size) n)
                  (rest (remaining - n) (u32 (offset + n)) w)
            | none ↦ elim (below.pread w n offset) [
              | err e ↦ some (err e, (offset, w))
              | ok bytes ↦
                  after_bytes bytes
                    (rest (sub_u32 remaining (length bytes)) (u32 (offset + length bytes)) w)
            ]
          ])

  unfoldable pub rread : ℕ → MtdblkFile → ℕ → ℕ → S → Option (ReadOutcome S)
  rread fuel file size offset w = read_loop file fuel (min size (sub_u32 file.size offset)) offset w

  unfoldable pub pread : ℕ → MtdblkFile → ℕ → ℕ → S → Option (Result (List ℕ) × S)
  pread fuel file size offset w = elim (rread fuel file size offset w) [
    | none ↦ none
    | some out ↦ some (out.0, out.1.1)
  ]

  unfoldable pub read : ℕ → MtdblkFile → ℕ → S → Option (Result (List ℕ) × (MtdblkFile × S))
  read fuel file size w = elim (rread fuel file size file.pos w) [
    | none ↦ none
    | some out ↦ some (out.0, (record file { pos = out.1.0 }, out.1.1))
  ]

  -- A position without a page gets one, unless the device has no blocks.
  unfoldable pub page_for_write : MtdblkFile → ℕ → S → Result (Option ℕ) × (MtdblkFile × S)
  page_for_write file offset w = elim (find_page file offset).0 [
    | some index ↦ (ok (some index), (file, w))
    | none ↦
        if ltb 1 file.block_size
        then (let (got, after) = get_page below file offset w in
            elim got [ err e ↦ (err e, after) | ok index ↦ (ok (some index), after) ])
        else (ok none, (file, w))
  ]

  -- The loop of `mtdblk_rwrite`; the bytes that remain are the buffer.
  unfoldable pub write_loop : MtdblkFile → ℕ → List ℕ → ℕ → S → Option (WriteOutcome S)
  write_loop file zero buffer offset w =
      if length buffer == 0 then some (ok tt, (file, (offset, w))) else none
  write_loop file (suc fuel) buffer offset w =
      if length buffer == 0
      then some (ok tt, (file, (offset, w)))
      else (let (page, (file1, w1)) = page_for_write file offset w in
          let n = min (find_page file offset).1 (length buffer) in
          elim page [
            | err e ↦ some (err e, (file1, (offset, w1)))
            | ok (some index) ↦
                write_loop (write_page file1 index (offset % file.block_size) (take n buffer)) fuel
                  (drop n buffer) (u32 (offset + n)) w1
            | ok none ↦
                let (written, w2) = below.pwrite w1 (take n buffer) offset in
                elim written [
                  | err e ↦ some (err e, (file1, (offset, w2)))
                  | ok len ↦ write_loop file1 fuel (drop len buffer) (u32 (offset + len)) w2
                ]
          ])

  -- `mtdblk_rwrite`: the count or the error.
  unfoldable pub rwrite :
      ℕ → MtdblkFile → List ℕ → ℕ → S → Option (Result ℕ × (MtdblkFile × (ℕ × S)))
  rwrite fuel file buffer offset w =
      if ltb file.size (u32 (offset + length buffer))
      then some (err efbig, (file, (offset, w)))
      else if not (file.ro == 0)
      then some (err erofs, (file, (offset, w)))
      else elim (write_loop (record file { mtime = below.now w }) fuel buffer offset w) [
        | none ↦ none
        | some (err e, after) ↦ some (err e, after)
        | some (ok _, after) ↦ some (ok (length buffer), after)
      ]

  unfoldable pub pwrite : ℕ → MtdblkFile → List ℕ → ℕ → S → Option (Result ℕ × (MtdblkFile × S))
  pwrite fuel file buffer offset w =
      if leb (2 ^ 31) offset
      then some (err einval, (file, w))
      else elim (rwrite fuel file buffer offset w) [
        | none ↦ none
        | some (count, (file1, (_, w1))) ↦ some (count, (file1, w1))
      ]

  unfoldable pub write : ℕ → MtdblkFile → List ℕ → S → Option (Result ℕ × (MtdblkFile × S))
  write fuel file buffer w = elim (rwrite fuel file buffer file.pos w) [
    | none ↦ none
    | some (count, (file1, (offset, w1))) ↦ some (count, (record file1 { pos = offset }, w1))
  ]
