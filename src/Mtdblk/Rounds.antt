-- ===== src/Mtdblk/Rounds.antt =====
-- A round of the loop of `mtdblk_rwrite` in morelib/mtdblk.c.
use morelibc.Base.{
  ℕ, suc, ◌+◌, ◌-◌, ◌/◌, ◌%◌, ◌≤◌, ◌<◌, ◌≡◌, inl, inr, refl, sym, ap, ◌∙◌, Option, some, List, ◌∷◌,
  length, store, take, drop, take-append-drop, length-take, length-drop, ==_refl, u32, ok, err,
  enomem, arith,
}
use morelibc.Mtdblk.{Below, Entry, MtdblkFile, update}
use morelibc.Mtdblk.Stores.{overlay_congr, overlay-append, stored, stored-IsValid, stored-view}
use morelibc.Mtdblk.Transfer.{WriteOutcome, page_of, write_page, write_loop}
use morelibc.Mtdblk.View.{Healthy, overlay, slot, view, IsValid, byte_of-flat, Shows}
use morelibc.Mtdblk.Ready.{IsEmpty, IsWarm, shown, Wrote}
use morelibc.Mtdblk.Fill.{with_cache}

module _ {S : Type 0} {below : Below S} (file : MtdblkFile)
    (m : Healthy below file.size file.block_size) where
  -- A chunk of the buffer, and then the rest.
  Wrote-chunk :
      (w w1 : S) (buffer : List ℕ) (offset n o : ℕ) (cache : ℕ → Entry) (tick : ℕ)
      {out : Option (WriteOutcome S)}
      → n ≤ length buffer
      → o ≡ offset + n
      → ((a : ℕ)
          → view file.block_size cache (m.content w1) a
            ≡ overlay (shown file m w) offset (take n buffer) a)
      → Wrote (with_cache file cache tick) m w1 (drop n buffer) o out
      → Wrote file m w buffer offset out
  Wrote-chunk w w1 buffer offset n o cache tick le eo chunk rest =
      let len : length (take n buffer) ≡ n = omega (arith, length-take n buffer) in
      let next : o ≡ offset + length (take n buffer) = omega arith in
      let last : o + length (drop n buffer) ≡ offset + length buffer =
        omega (arith, length-drop n buffer) in
      record {
        cache = rest.cache;
        tick = rest.tick;
        world = rest.world;
        same =
            rest.same
            ∙ ap (λ e. some (ok tt, (with_cache file rest.cache rest.tick, (e, rest.world)))) last;
        valid = rest.valid;
        bytes = λ a.
            rest.bytes a
            ∙ overlay_congr (shown (with_cache file cache tick) m w1)
                (overlay (shown file m w) offset (take n buffer)) o (drop n buffer) a (chunk a)
            ∙ ap
                (λ s. overlay (overlay (shown file m w) offset (take n buffer)) s (drop n buffer) a)
                next
            ∙ overlay-append (shown file m w) offset (take n buffer) (drop n buffer) a
            ∙ ap (λ b. overlay (shown file m w) offset b a) (take-append-drop n buffer);
      }

  -- A write for which there is no page: nothing is written.
  pub record NoMemory (w : S) (offset : ℕ) (out : Option (WriteOutcome S)) : Type 0 where
    pub after : MtdblkFile × S
    pub same : out ≡ some (err enomem, (after.0, (offset, after.1)))
    pub shows : Shows file m w after
    pub big : 1 < file.block_size
    pub empty : IsEmpty file.cache

  -- What the rest of the loop does, once there is a page.
  abbrev pub Rest : ℕ → Type 0
  Rest fuel =
      (cache : ℕ → Entry) (tick : ℕ) (buffer : List ℕ) (offset : ℕ) (w : S)
      → IsValid file.size file.block_size cache
      → IsWarm file.block_size cache
      → length buffer ≤ fuel
      → offset + length buffer ≤ file.size
      → Wrote (with_cache file cache tick) m w buffer offset
          (write_loop below (with_cache file cache tick) fuel buffer offset w)

  -- The rounds by where the bytes go; `n` of them do.
  module _ (fuel : ℕ) (x : ℕ) (xs : List ℕ) (offset n : ℕ) (w w1 : S) (before : ℕ → Entry)
      (tick : ℕ) (v : IsValid file.size file.block_size before)
      (shows : (a : ℕ) → view file.block_size before (m.content w1) a ≡ shown file m w a)
      (some_bytes : 0 < n) (le : n ≤ length (x ∷ xs)) (enough : length (x ∷ xs) ≤ suc fuel)
      (room : offset + length (x ∷ xs) ≤ file.size) (rest : Rest fuel) where
    pub page_round :
        (bytes : List ℕ)
        → n ≤ file.block_size - offset % file.block_size
        → (before (slot file.block_size offset)).num ≡ offset / file.block_size
        → (before (slot file.block_size offset)).page ≡ some bytes
        → Wrote file m w (x ∷ xs) offset (
            write_loop below
              (write_page
                (with_cache file before tick)
                (slot file.block_size offset)
                (offset % file.block_size)
                (take n (x ∷ xs)))
              fuel
              (drop n (x ∷ xs))
              (u32 (offset + n))
              w1)
    unfolding write_page
    page_round bytes in_block num e =
        let buffer = x ∷ xs in
        let index = slot file.block_size offset in
        let o = u32 (offset + n) in
        let chunk = take n buffer in
        let len : length chunk ≤ file.block_size - offset % file.block_size =
          omega (arith, length-take n buffer) in
        let after = update before index (stored v offset bytes (m.content w1) num e chunk) in
        let more =
          rest after tick (drop n buffer) o w1
            (stored-IsValid v offset bytes (m.content w1) num e chunk)
            (inr (
              index,
              omega arith,
              (store bytes (offset % file.block_size) chunk, rw (==_refl index) refl),
            ))
            (omega (arith, length-drop n buffer)) (omega (arith, v.fits, length-drop n buffer)) in
        rw (write_page, page_of, e)
          (Wrote-chunk w w1 buffer offset n o after tick le (omega (arith, v.fits))
            (λ a.
              stored-view v offset bytes (m.content w1) num e chunk a len
              ∙ overlay_congr (view file.block_size before (m.content w1)) (shown file m w) offset
                  chunk a (shows a))
            more)

    pub device_round :
        file.block_size ≤ 1
        → let (written, w2) = below.pwrite w1 (take n (x ∷ xs)) offset in
          (written ≡ ok n)
          × Wrote file m w (x ∷ xs) offset (
              write_loop below
                (with_cache file before tick)
                fuel
                (drop n (x ∷ xs))
                (u32 (offset + n))
                w2)
    unfolding view
    device_round flat =
        let buffer = x ∷ xs in
        let o = u32 (offset + n) in
        let chunk = take n buffer in
        let len : length chunk ≡ n = omega (arith, length-take n buffer) in
        let (done, content) = m.writes w1 chunk offset flat (omega arith) in
        let w2 = (below.pwrite w1 chunk offset).1 in
        let through = λ (d a : ℕ). byte_of-flat v (slot file.block_size a) d a flat in
        (
          done ∙ ap ok len,
          Wrote-chunk w w2 buffer offset n o before tick le (omega (arith, v.fits))
              (λ a.
                through (m.content w2 a) a
                ∙ content a
                ∙ overlay_congr (m.content w1) (shown file m w) offset chunk a
                    (sym (through (m.content w1 a) a) ∙ shows a))
              (rest before tick (drop n buffer) o w2 v (inl flat)
                (omega (arith, length-drop n buffer))
                (omega (arith, v.fits, length-drop n buffer))),
        )
