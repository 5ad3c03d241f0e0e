-- ===== src/Mtdblk/Runs.antt =====
-- Reads, writes, seeks, syncs and BLKROSET on a block device of morelib/mtdblk.c, from `open` to `close`.
use morelibc.Base.{
  ℕ, ◌%◌, ◌^◌, ◌≤◌, ◌<◌, ◌≡◌, inl, inr, refl, sym, subst, ◌∙◌, Option, none, some, List, [], ◌∷◌,
  All, Result, ok, arith,
}
use morelibc.Mtdblk.{Below, MtdblkFile}
use morelibc.Mtdblk.Answers.{Answers, read_lem, pread_lem, set_ro_lem, fsync_lem}
use morelibc.Mtdblk.Answers.Seeks.{lseek_lem}
use morelibc.Mtdblk.Answers.Writes.{write_lem, pwrite_lem}
use morelibc.Mtdblk.Device.{Table, file_init, close_file}
use morelibc.Mtdblk.Flat
use morelibc.Mtdblk.Flat.{
  Call, lseek, set_ro, fsync, Outcome, count, Flat, flat_call, FitsCall, Follows, call_file,
  call_all,
}
use morelibc.Mtdblk.Flush.{flush_lem}
use morelibc.Mtdblk.Refine.{flat_of, with_state, Holds}
use morelibc.Mtdblk.View.{Healthy, view, IsValid}

module _ {S : Type 0} {below : Below S} (vioctl : S → ℕ → Result ℕ × S) where
  call_lem :
      (file : MtdblkFile) (m : Healthy below file.size file.block_size) (d : ℕ → ℕ) (w : S)
      (fuel : ℕ) (call : Call)
      → IsValid file.size file.block_size file.cache
      → file.pos ≤ file.size
      → ((a : ℕ) → view file.block_size file.cache (m.content w) a ≡ d a)
      → file.size ≤ fuel
      → FitsCall file.size call
      → Answers vioctl file m (flat_of file d) call (call_file below vioctl fuel file call w)
  call_lem file m d w fuel (Flat.read size) v le agree enough fit =
      read_lem vioctl file m d w v le agree fuel enough size
  call_lem file m d w fuel (Flat.pread size offset) v le agree enough fit =
      pread_lem vioctl file m d w v le agree fuel enough size offset fit
  call_lem file m d w fuel (Flat.write buffer) v le agree enough fit =
      write_lem vioctl file m d w v le agree fuel enough buffer fit
  call_lem file m d w fuel (Flat.pwrite buffer offset) v le agree enough fit =
      pwrite_lem vioctl file m d w v le agree fuel enough buffer offset fit
  call_lem file m d w fuel (lseek pos whence) v le agree enough fit =
      lseek_lem vioctl file m d w v le agree fuel enough pos whence
  call_lem file m d w fuel (set_ro ro) v le agree enough fit =
      set_ro_lem vioctl file m d w v le agree fuel enough ro
  call_lem file m d w fuel fsync v le agree enough fit =
      fsync_lem vioctl file m d w v le agree fuel enough

  -- The outcomes of a sequence of calls, and the flat file after it.
  pub record Runs (file : MtdblkFile) (m : Healthy below file.size file.block_size) (f : Flat)
      (calls : List Call) (out : Option (List Outcome × (MtdblkFile × S))) : Type 0 where
    pub outs : List Outcome
    pub after : MtdblkFile × S
    pub flat : Flat
    pub same : out ≡ some (outs, after)
    pub follows : Follows calls f outs flat
    pub holds : Holds file m flat after

  -- The rest of the calls, from the state that the first one left.
  after_call :
      (file : MtdblkFile) (m : Healthy below file.size file.block_size) (f g : Flat) (fuel : ℕ)
      (call : Call) (calls : List Call) (out : Outcome) (after : MtdblkFile × S) (w : S)
      → call_file below vioctl fuel file call w ≡ some (out, after)
      → ((outs : List Outcome) (end : Flat)
          → Follows calls g outs end
          → Follows (call ∷ calls) f (out ∷ outs) end)
      → (h : Holds file m g after)
      → Runs (with_state file h.cache h.next_tick h.pos h.ro h.mtime) m g calls (
          call_all below vioctl fuel
            (with_state file h.cache h.next_tick h.pos h.ro h.mtime)
            calls
            after.1)
      → Runs file m f (call ∷ calls) (call_all below vioctl fuel file (call ∷ calls) w)
  unfolding call_all
  after_call file m f g fuel call calls out after w done step h rest =
      let k = rest.holds in
      record {
        outs = out ∷ rest.outs;
        after = rest.after;
        flat = rest.flat;
        same = rw (call_all, done, h.same, rest.same) refl;
        follows = step rest.outs rest.flat rest.follows;
        holds = record {
          cache = k.cache;
          next_tick = k.next_tick;
          pos = k.pos;
          ro = k.ro;
          mtime = k.mtime;
          same = k.same;
          valid = k.valid;
          in_file = k.in_file;
          is_flat = k.is_flat;
          data_at = k.data_at;
        };
      }

  call_all_lem :
      (calls : List Call) (file : MtdblkFile) (m : Healthy below file.size file.block_size)
      (f : Flat) (w : S) (fuel : ℕ)
      → IsValid file.size file.block_size file.cache
      → file.pos ≤ file.size
      → f ≡ flat_of file f.data_at
      → ((a : ℕ) → view file.block_size file.cache (m.content w) a ≡ f.data_at a)
      → file.size ≤ fuel
      → All (FitsCall file.size) calls
      → Runs file m f calls (call_all below vioctl fuel file calls w)
  unfolding call_all
  call_all_lem [] file m f w fuel v le is_flat agree enough fit = record {
    outs = [];
    after = (file, w);
    flat = f;
    same = refl;
    follows = Follows.done;
    holds = record {
      cache = file.cache;
      next_tick = file.next_tick;
      pos = file.pos;
      ro = file.ro;
      mtime = file.mtime;
      same = refl;
      valid = v;
      in_file = le;
      is_flat = is_flat;
      data_at = agree;
    };
  }
  call_all_lem (call ∷ calls) file m f w fuel v le is_flat agree enough fit =
      let a =
        subst (λ g. Answers vioctl file m g call (call_file below vioctl fuel file call w))
          (sym is_flat) (call_lem file m f.data_at w fuel call v le agree enough fit.0) in
      elim a.result [
        | inl (e, h) ↦
            after_call file m f (flat_call f call).1 fuel call calls a.outcome a.after w a.same
              (λ outs end rest.
                subst (λ o. Follows (call ∷ calls) f (o ∷ outs) end) (sym e) (Follows.served rest))
              h
              (call_all_lem calls (with_state file h.cache h.next_tick h.pos h.ro h.mtime) m
                (flat_call f call).1 a.after.1 fuel h.valid h.in_file h.is_flat h.data_at enough
                fit.1)
        | inr (is_write, e, h) ↦
            after_call file m f f fuel call calls a.outcome a.after w a.same
              (λ outs end rest.
                subst (λ o. Follows (call ∷ calls) f (o ∷ outs) end) (sym e)
                  (Follows.refused is_write rest))
              h
              (call_all_lem calls (with_state file h.cache h.next_tick h.pos h.ro h.mtime) m f
                a.after.1 fuel h.valid h.in_file h.is_flat h.data_at enough fit.1)
      ]

-- Over a device without faults, of less than 2 GB in whole blocks, with fuel for its size, a file is opened,
-- any sequence of read, pread, write, pwrite, lseek, fsync and BLKROSET is called, none with an offset to pread
-- from behind the end or 2 GB and more to write, and the file is closed.
-- Then the calls return the outcomes of a flat file over the device's bytes, but for writes refused with
-- ENOMEM, which change nothing; the close succeeds, and the device holds the flat file's bytes.
pub file_init-call_all-close_file :
    {S : Type 0} {below : Below S} (vioctl : S → ℕ → Result ℕ × S)
    (get_info : S → ℕ → Result (ℕ × ℕ)) (table : Table) (index size block_size : ℕ)
    (m : Healthy below size block_size) (calls : List Call) (fuel : ℕ) (w : S)
    → get_info w index ≡ ok (size, block_size)
    → 0 < block_size
    → size % block_size ≡ 0
    → size < 2 ^ 31
    → size ≤ fuel
    → All (FitsCall size) calls
    → (file : MtdblkFile) × (outs : List Outcome) × (after : MtdblkFile × S) × (flat : Flat)
      × (file_init get_info index w ≡ ok file)
      × (call_all below vioctl fuel file calls w ≡ some (outs, after))
      × Follows calls (record { size = size; pos = 0; ro = 0; data_at = m.content w }) outs flat
      × ((close_file below table after.0 after.1).0 ≡ ok tt)
      × ((a : ℕ) → m.content (close_file below table after.0 after.1).1.1 a ≡ flat.data_at a)
unfolding file_init close_file view
file_init-call_all-close_file vioctl get_info table index size bs m calls fuel w e pos whole small
      enough fit =
    let file : MtdblkFile = record {
      index = index;
      size = size;
      block_size = bs;
      pos = 0;
      ro = 0;
      cache = λ _. record { num = 0; page = none; tick = 0 };
      next_tick = 0;
      mtime = 0;
    } in
    let v : IsValid size bs file.cache = record {
      has_blocks = pos;
      whole = whole;
      fits = small;
      placed = λ _. tt;
    } in
    let r =
      call_all_lem vioctl calls file m (flat_of file (m.content w)) w fuel v (omega arith) refl
        (λ a. refl) enough fit in
    let h = r.holds in
    let after = with_state file h.cache h.next_tick h.pos h.ro h.mtime in
    let f = flush_lem after m r.after.1 h.valid in
    (
      file,
      r.outs,
      r.after,
      r.flat,
      rw (file_init, e) refl,
      r.same,
      r.follows,
      rw h.same f.worked,
      λ a. rw h.same (f.content a ∙ h.data_at a),
    )
