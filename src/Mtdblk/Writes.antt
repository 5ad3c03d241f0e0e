-- ===== src/Mtdblk/Writes.antt =====
-- `mtdblk_rwrite` of morelib/mtdblk.c.
use morelibc.Base.{
  ℕ, zero, suc, ◌+◌, ◌≤◌, min, ◌≡◌, ◌⊎◌, inl, inr, refl, ap, false, some, List, [], ◌∷◌, length,
  ◌==◌, ok, arith,
}
use morelibc.Mtdblk.{Below, MtdblkFile, find_page}
use morelibc.Mtdblk.Transfer.{page_for_write, write_loop}
use morelibc.Mtdblk.View.{Healthy, IsValid}
use morelibc.Mtdblk.Ready.{IsWarm, IsWarm-IsEmpty, Wrote, page_for_write_lem}
use morelibc.Mtdblk.Position.{find_page_len, find_page_pos}
use morelibc.Mtdblk.Fill.{with_cache}
use morelibc.Mtdblk.Rounds.{NoMemory, Rest, page_round, device_round}

module _ {S : Type 0} {below : Below S} (file : MtdblkFile)
    (m : Healthy below file.size file.block_size) where
  write_round :
      (v : IsValid file.size file.block_size file.cache) (fuel : ℕ) (x : ℕ) (xs : List ℕ)
      (offset : ℕ) (w : S)
      → length (x ∷ xs) ≤ suc fuel
      → offset + length (x ∷ xs) ≤ file.size
      → Rest file m fuel
      → Wrote file m w (x ∷ xs) offset (write_loop below file (suc fuel) (x ∷ xs) offset w)
        ⊎ NoMemory file m w offset (write_loop below file (suc fuel) (x ∷ xs) offset w)
  unfolding write_loop
  write_round v fuel x xs offset w enough room rest =
      let buffer = x ∷ xs in
      let n = min (find_page file offset).1 (length buffer) in
      let ready = page_for_write_lem file m v offset w (omega arith) in
      let s = ready.shows in
      let w1 = (page_for_write below file offset w).1.1 in
      let go : (length buffer == 0) ≡ false = ground arith in
      let pos = find_page_pos file v offset in
      elim ready.result [
        | inl (big, page, num, (bytes, e)) ↦
            let len = find_page_len file v offset big in
            rw (go, page, s.same)
              (inl (
                page_round file m fuel x xs offset n w w1 s.cache s.tick s.valid s.bytes
                  (omega arith) (omega arith) enough room rest bytes (omega arith) num e))
        | inr (inl (flat, device)) ↦
            let (done, more) =
              device_round file m fuel x xs offset n w w1 s.cache s.tick s.valid s.bytes
                (omega arith) (omega arith) enough room rest flat in
            rw (go, device, done, s.same) (inl more)
        | inr (inr (big, failed, empty)) ↦
            rw (go, failed)
              (inr (record {
                after = (page_for_write below file offset w).1;
                same = refl;
                shows = ready.shows;
                big = big;
                empty = empty;
              }))
      ]

  write_nothing :
      IsValid file.size file.block_size file.cache
      → (offset : ℕ) (w : S) → Wrote file m w [] offset (some (ok tt, (file, (offset, w))))
  write_nothing v offset w = record {
    cache = file.cache;
    tick = file.next_tick;
    world = w;
    same = ap (λ e. some (ok tt, (file, (e, w)))) (omega arith);
    valid = v;
    bytes = λ a. ground arith;
  }

module _ {S : Type 0} {below : Below S} where
  -- With a page at hand the loop writes all the bytes.
  write_loop_warm :
      (fuel : ℕ) (file : MtdblkFile) (m : Healthy below file.size file.block_size) (buffer : List ℕ)
      (offset : ℕ) (w : S)
      → IsValid file.size file.block_size file.cache
      → IsWarm file.block_size file.cache
      → length buffer ≤ fuel
      → offset + length buffer ≤ file.size
      → Wrote file m w buffer offset (write_loop below file fuel buffer offset w)
  unfolding write_loop
  write_loop_warm zero file m [] offset w v warm enough room = write_nothing file m v offset w
  write_loop_warm zero file m (x ∷ xs) offset w v warm enough room = absurd (omega arith)
  write_loop_warm (suc fuel) file m [] offset w v warm enough room = write_nothing file m v offset w
  write_loop_warm (suc fuel) file m (x ∷ xs) offset w v warm enough room =
      let rest : Rest file m fuel =
        λ cache tick. write_loop_warm fuel (with_cache file cache tick) m in
      elim (write_round file m v fuel x xs offset w enough room rest) [
        | inl done ↦ done
        | inr failed ↦
            absurd (IsWarm-IsEmpty file.block_size file.cache failed.big warm failed.empty)
      ]

  -- Over a device without faults, with fuel for the buffer, and inside the device, the loop of a write either
  -- writes the whole buffer, so that the file shows it over what it showed before, or it fails with ENOMEM at
  -- the first byte, when no page is cached, and the file shows what it showed before.
  pub write_loop_lem :
      (fuel : ℕ) (file : MtdblkFile) (m : Healthy below file.size file.block_size) (buffer : List ℕ)
      (offset : ℕ) (w : S)
      → IsValid file.size file.block_size file.cache
      → length buffer ≤ fuel
      → offset + length buffer ≤ file.size
      → Wrote file m w buffer offset (write_loop below file fuel buffer offset w)
        ⊎ NoMemory file m w offset (write_loop below file fuel buffer offset w)
  unfolding write_loop
  write_loop_lem zero file m [] offset w v enough room = inl (write_nothing file m v offset w)
  write_loop_lem zero file m (x ∷ xs) offset w v enough room = absurd (omega arith)
  write_loop_lem (suc fuel) file m [] offset w v enough room = inl (write_nothing file m v offset w)
  write_loop_lem (suc fuel) file m (x ∷ xs) offset w v enough room =
      write_round file m v fuel x xs offset w enough room
        (λ cache tick. write_loop_warm fuel (with_cache file cache tick) m)
