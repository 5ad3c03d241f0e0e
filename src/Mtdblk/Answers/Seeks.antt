-- ===== src/Mtdblk/Answers/Seeks.antt =====
-- `mtdblk_lseek` of morelib/mtdblk.c.
use morelibc.Base.{
  ℕ, ◌+◌, ◌^◌, ◌≤◌, ◌≡◌, inl, inr, refl, sym, ap, subst, ◌∙◌, some, ltb, leb, Bool-cases, u32,
  Result, err, einval, arith,
}
use morelibc.Mtdblk.{Below, MtdblkFile}
use morelibc.Mtdblk.Device.{
  SeekWhence, seek_set, seek_cur, seek_end, other_whence, seek_from, ioctl, blkroset,
}
use morelibc.Mtdblk.Device
use morelibc.Mtdblk.Flat.{Call, lseek, count, flat_seek, flat_call, call_file}
use morelibc.Mtdblk.Refine.{flat_of, Holds, Holds_same}
use morelibc.Mtdblk.View.{Healthy, view, IsValid}
use morelibc.Mtdblk.Answers.{Answers}

module _ {S : Type 0} {below : Below S} (vioctl : S → ℕ → Result ℕ × S) (file : MtdblkFile)
    (m : Healthy below file.size file.block_size) where
  module _ (d : ℕ → ℕ) (w : S) (v : IsValid file.size file.block_size file.cache)
      (in_file : file.pos ≤ file.size)
      (agree : (a : ℕ) → view file.block_size file.cache (m.content w) a ≡ d a) (fuel : ℕ)
      (enough : file.size ≤ fuel) where
    seek_lem :
        (pos base : ℕ)
        → let (n, file1) = seek_from file base pos in
          (n ≡ (flat_seek (flat_of file d) (u32 (pos + base))).0)
          × Holds file m (flat_seek (flat_of file d) (u32 (pos + base))).1 (file1, w)
    unfolding seek_from
    seek_lem pos base =
        let target = u32 (pos + base) in
        elim (Bool-cases (leb (2 ^ 31) target)) [
          | inl negative ↦ rw (negative, seek_from) (refl, Holds_same file m d w v in_file agree)
          | inr positive ↦ elim (Bool-cases (ltb file.size target)) [
            | inl big ↦ rw (positive, big, seek_from) (refl, Holds_same file m d w v in_file agree)
            | inr fits ↦
                rw (positive, fits, seek_from)
                  (
                    refl,
                    record {
                      cache = file.cache;
                      next_tick = file.next_tick;
                      pos = target;
                      ro = file.ro;
                      mtime = file.mtime;
                      same = refl;
                      valid = v;
                      in_file = ground arith;
                      is_flat = refl;
                      data_at = agree;
                    },
                  )
          ]
        ]

    seek_Answers :
        (pos base : ℕ) (call : Call)
        → flat_call (flat_of file d) call
          ≡ (let (n, f1) = flat_seek (flat_of file d) (u32 (pos + base)) in (count n, f1))
        → Answers vioctl file m
            (flat_of file d)
            call
            (let (n, file1) = seek_from file base pos in some (count n, (file1, w)))
    seek_Answers pos base call e =
        let (n, h) = seek_lem pos base in
        record {
          outcome = count (seek_from file base pos).0;
          after = ((seek_from file base pos).1, w);
          same = refl;
          result = inl (
            ap count n ∙ sym (ap (λ p. p.0) e),
            subst (λ p. Holds file m p.1 ((seek_from file base pos).1, w)) (sym e) h,
          );
        }

    pub lseek_lem :
        (pos : ℕ) (whence : SeekWhence)
        → Answers vioctl file m
            (flat_of file d)
            (lseek pos whence)
            (call_file below vioctl fuel file (lseek pos whence) w)
    unfolding call_file Device.lseek
    lseek_lem pos seek_set = seek_Answers pos 0 (lseek pos seek_set) refl
    lseek_lem pos seek_cur = seek_Answers pos file.pos (lseek pos seek_cur) refl
    lseek_lem pos seek_end = seek_Answers pos file.size (lseek pos seek_end) refl
    lseek_lem pos other_whence = record {
      outcome = count (err einval);
      after = (file, w);
      same = refl;
      result = inl (refl, Holds_same file m d w v in_file agree);
    }
