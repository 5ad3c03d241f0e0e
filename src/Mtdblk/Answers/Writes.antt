-- ===== src/Mtdblk/Answers/Writes.antt =====
-- `mtdblk_pwrite` and `mtdblk_write` of morelib/mtdblk.c.
use morelibc.Base.{
  ℕ, ◌^◌, ◌≤◌, ◌<◌, ◌≡◌, inl, inr, refl, sym, ap, subst, ◌∙◌, List, length, leb, Bool-cases, Result,
  err, einval, arith,
}
use morelibc.Mtdblk.{Below, MtdblkFile}
use morelibc.Mtdblk.Flat.{
  Call, lseek, set_ro, fsync, Outcome, bytes, count, Flat, flat_bytes, flat_write, flat_seek,
  seek_base, moved, flat_call, FitsCall, IsWrite, Follows, call_file, call_all,
}
use morelibc.Mtdblk.Flat
use morelibc.Mtdblk.Refine.{flat_of, Holds, Holds_same, rwrite_lem}
use morelibc.Mtdblk.Transfer
use morelibc.Mtdblk.Transfer.{rwrite, rread}
use morelibc.Mtdblk.View.{Healthy, view, IsValid}
use morelibc.Mtdblk.Answers.{Answers}

module _ {S : Type 0} {below : Below S} (file : MtdblkFile)
    (m : Healthy below file.size file.block_size) where
  -- A new position.
  Holds_moved :
      (f : Flat) (after : MtdblkFile) (w : S) (next : ℕ)
      → next ≤ file.size
      → Holds file m f (after, w)
      → Holds file m (record f { pos = next }) (record after { pos = next }, w)
  Holds_moved f after w next le h =
      let move : MtdblkFile → MtdblkFile = λ g. record g { pos = next } in
      let move_flat : Flat → Flat = λ g. record g { pos = next } in
      record {
        cache = h.cache;
        next_tick = h.next_tick;
        pos = next;
        ro = h.ro;
        mtime = h.mtime;
        same = ap move h.same;
        valid = h.valid;
        in_file = le;
        is_flat = ap move_flat h.is_flat;
        data_at = h.data_at;
      }

  flat_write-moved :
      (d : ℕ → ℕ) (buffer : List ℕ)
      → file.pos ≤ file.size
      → moved file.pos (flat_write (flat_of file d) buffer file.pos).0 ≤ file.size
  flat_write-moved d buffer le = ground arith

module _ {S : Type 0} {below : Below S} (vioctl : S → ℕ → Result ℕ × S) (file : MtdblkFile)
    (m : Healthy below file.size file.block_size) where
  module _ (d : ℕ → ℕ) (w : S) (v : IsValid file.size file.block_size file.cache)
      (in_file : file.pos ≤ file.size)
      (agree : (a : ℕ) → view file.block_size file.cache (m.content w) a ≡ d a) (fuel : ℕ)
      (enough : file.size ≤ fuel) where
    pub pwrite_lem :
        (buffer : List ℕ) (offset : ℕ)
        → length buffer < 2 ^ 31
        → Answers vioctl file m
            (flat_of file d)
            (Flat.pwrite buffer offset)
            (call_file below vioctl fuel file (Flat.pwrite buffer offset) w)
    unfolding call_file Transfer.pwrite
    pwrite_lem buffer offset small = elim (Bool-cases (leb (2 ^ 31) offset)) [
      | inl negative ↦
          rw (call_file, Transfer.pwrite, negative)
            (record {
              outcome = count (err einval);
              after = (file, w);
              same = refl;
              result = inl (rw negative refl, rw negative (Holds_same file m d w v in_file agree));
            })
      | inr positive ↦
          let s = rwrite_lem file m d w v in_file agree fuel buffer offset (ground arith) enough in
          rw (call_file, Transfer.pwrite, positive, s.same)
            (record {
              outcome = count s.result;
              after = (s.after, s.world);
              same = refl;
              result = elim s.outcome [
                | inl (e, h) ↦ inl (rw (positive, e) refl, rw positive h)
                | inr (e, h) ↦ inr (tt, ap count e, h)
              ];
            })
    ]

    pub write_lem :
        (buffer : List ℕ)
        → length buffer < 2 ^ 31
        → Answers vioctl file m
            (flat_of file d)
            (Flat.write buffer)
            (call_file below vioctl fuel file (Flat.write buffer) w)
    unfolding call_file Transfer.write
    write_lem buffer small =
        let s =
          rwrite_lem file m d w v in_file agree fuel buffer file.pos (omega (arith, v.fits))
            enough in
        rw (call_file, Transfer.write, s.same)
          (record {
            outcome = count s.result;
            after = (record s.after { pos = s.next }, s.world);
            same = refl;
            result = elim s.outcome [
              | inl (e, h) ↦
                  let (n, f1) = flat_write (flat_of file d) buffer file.pos in
                  let to = s.next_pos ∙ ap (moved file.pos) e in
                  let le = flat_write-moved file m d buffer in_file in
                  inl (
                    ap count e,
                    subst
                        (λ p.
                          Holds file m (record f1 { pos = moved file.pos n })
                            (record s.after { pos = p }, s.world))
                        (sym to) (Holds_moved file m f1 s.after s.world (moved file.pos n) le h),
                  )
              | inr (e, h) ↦
                  let to = s.next_pos ∙ ap (moved file.pos) e in
                  inr (
                    tt,
                    ap count e,
                    subst (λ p. Holds file m (flat_of file d) (record s.after { pos = p }, s.world))
                        (sym to)
                        (Holds_moved file m (flat_of file d) s.after s.world file.pos in_file h),
                  )
            ];
          })
