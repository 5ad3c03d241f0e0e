-- ===== src/Mtdblk/Answers.antt =====
-- The calls on a block device of morelib/mtdblk.c, one by one: reads, BLKROSET and `fsync` here, writes and
-- seeks in the children.
pub mod Writes
pub mod Seeks
use morelibc.Base.{
  ℕ, zero, suc, ◌+◌, ◌-◌, ◌%◌, ◌^◌, ◌≤◌, ◌<◌, min, ◌≡◌, ◌⊎◌, inl, inr, refl, sym, ap, ap₂, subst,
  ◌∙◌, Bool, true, false, not, Option, none, some, List, [], ◌∷◌, length, ltb, leb, ◌==◌,
  Bool-cases, if◌then◌else◌, u32, Result, ok, err, einval, efbig, erofs, enomem, arith, All,
}
use morelibc.Mtdblk.{Below, Entry, MtdblkFile, flush}
use morelibc.Mtdblk.Device.{
  SeekWhence, seek_set, seek_cur, seek_end, other_whence, seek_from, ioctl, blkroset,
}
use morelibc.Mtdblk.Device
use morelibc.Mtdblk.Flat.{
  Call, lseek, set_ro, fsync, Outcome, bytes, count, Flat, flat_bytes, flat_write, flat_seek,
  seek_base, moved, flat_call, FitsCall, IsWrite, Follows, call_file, call_all,
}
use morelibc.Mtdblk.Flat
use morelibc.Mtdblk.Flush.{flush_lem}
use morelibc.Mtdblk.Reads.{rread_lem, bytes_at_congr}
use morelibc.Mtdblk.Refine.{flat_of, with_state, Holds, Holds_same, Serves, rwrite_lem}
use morelibc.Mtdblk.Transfer
use morelibc.Mtdblk.Transfer.{rwrite, rread}
use morelibc.Mtdblk.View.{Healthy, bytes_at, overlay, view, IsValid, Shows}

module _ {S : Type 0} {below : Below S} (vioctl : S → ℕ → Result ℕ × S) (file : MtdblkFile)
    (m : Healthy below file.size file.block_size) where
  -- The outcome of a call is a flat file's, or a write is refused for want of memory.
  pub record Answers (f : Flat) (call : Call) (out : Option (Outcome × (MtdblkFile × S)))
      : Type 0 where
    pub outcome : Outcome
    pub after : MtdblkFile × S
    pub same : out ≡ some (outcome, after)
    pub result :
        ((outcome ≡ (flat_call f call).0) × Holds file m (flat_call f call).1 after)
        ⊎ (IsWrite call × (outcome ≡ count (err enomem)) × Holds file m f after)

  module _ (d : ℕ → ℕ) (w : S) (v : IsValid file.size file.block_size file.cache)
      (in_file : file.pos ≤ file.size)
      (agree : (a : ℕ) → view file.block_size file.cache (m.content w) a ≡ d a) (fuel : ℕ)
      (enough : file.size ≤ fuel) where
    rread_flat :
        (size offset : ℕ)
        → offset ≤ file.size
        → rread below fuel file size offset w
          ≡ some (
            ok (flat_bytes (flat_of file d) size offset),
            (offset + min size (file.size - offset), w),
          )
    rread_flat size offset le =
        rread_lem file v m fuel size offset w le (omega arith)
        ∙ ap (λ l. some (ok l, (offset + min size (file.size - offset), w)))
            (bytes_at_congr _ d offset _ (λ k _. agree (offset + k)))

    pub read_lem :
        (size : ℕ)
        → Answers
            (flat_of file d)
            (Flat.read size)
            (call_file below vioctl fuel file (Flat.read size) w)
    unfolding call_file Transfer.read
    read_lem size =
        let n = min size (file.size - file.pos) in
        rw (call_file, Transfer.read, rread_flat size file.pos in_file)
          (record {
            outcome = bytes (ok (flat_bytes (flat_of file d) size file.pos));
            after = (record file { pos = file.pos + n }, w);
            same = refl;
            result = inl (
              refl,
              record {
                cache = file.cache;
                next_tick = file.next_tick;
                pos = file.pos + n;
                ro = file.ro;
                mtime = file.mtime;
                same = refl;
                valid = v;
                in_file = omega arith;
                is_flat = refl;
                data_at = agree;
              },
            );
          })

    pub pread_lem :
        (size offset : ℕ)
        → offset ≤ file.size
        → Answers
            (flat_of file d)
            (Flat.pread size offset)
            (call_file below vioctl fuel file (Flat.pread size offset) w)
    unfolding call_file Transfer.pread
    pread_lem size offset le =
        rw (call_file, Transfer.pread, rread_flat size offset le)
          (record {
            outcome = bytes (ok (flat_bytes (flat_of file d) size offset));
            after = (file, w);
            same = refl;
            result = inl (refl, Holds_same file m d w v in_file agree);
          })

    pub set_ro_lem :
        (ro : ℕ)
        → Answers (flat_of file d) (set_ro ro) (call_file below vioctl fuel file (set_ro ro) w)
    unfolding call_file ioctl
    set_ro_lem ro = record {
      outcome = count (ok 0);
      after = (record file { ro = ro }, w);
      same = refl;
      result = inl (
        refl,
        record {
          cache = file.cache;
          next_tick = file.next_tick;
          pos = file.pos;
          ro = ro;
          mtime = file.mtime;
          same = refl;
          valid = v;
          in_file = in_file;
          is_flat = refl;
          data_at = agree;
        },
      );
    }

    pub fsync_lem : Answers (flat_of file d) fsync (call_file below vioctl fuel file fsync w)
    unfolding call_file
    fsync_lem =
        let f = flush_lem file m w v in
        rw (call_file, f.worked)
          (record {
            outcome = count (ok 0);
            after = (flush below file w).1;
            same = refl;
            result = inl (
              refl,
              record {
                cache = f.shows.cache;
                next_tick = f.shows.tick;
                pos = file.pos;
                ro = file.ro;
                mtime = file.mtime;
                same = f.shows.same;
                valid = f.shows.valid;
                in_file = in_file;
                is_flat = refl;
                data_at = λ a. f.shows.bytes a ∙ agree a;
              },
            );
          })
