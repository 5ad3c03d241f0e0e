-- ===== src/Mtdblk/Refine.antt =====
-- The driver's file of morelib/mtdblk.c as a flat file.
use morelibc.Base.{
  ℕ, ◌+◌, ◌^◌, ◌≤◌, ◌<◌, ◌≡◌, ◌⊎◌, inl, inr, refl, ◌∙◌, not, Option, some, List, length, ltb, ◌==◌,
  Bool-cases, u32, Result, ok, err, efbig, erofs, enomem, arith,
}
use morelibc.Mtdblk.{Below, Entry, MtdblkFile}
use morelibc.Mtdblk.Flat.{Flat, flat_write, moved}
use morelibc.Mtdblk.Transfer.{rwrite}
use morelibc.Mtdblk.View.{Healthy, view, IsValid}
use morelibc.Mtdblk.Writes.{write_loop_lem}
use morelibc.Mtdblk.Stores.{overlay_congr}
use morelibc.Mtdblk.Fill.{with_cache}

-- What the driver's file is when cache and blocks are forgotten.
abbrev pub flat_of : MtdblkFile → (ℕ → ℕ) → Flat
flat_of file d = record { size = file.size; pos = file.pos; ro = file.ro; data_at = d }

-- The size and the block size never change, so that a later file has the same device.
abbrev pub with_state : MtdblkFile → (ℕ → Entry) → ℕ → ℕ → ℕ → ℕ → MtdblkFile
with_state file cache next pos ro mtime = record file {
  cache = cache;
  next_tick = next;
  pos = pos;
  ro = ro;
  mtime = mtime;
}

module _ {S : Type 0} {below : Below S} (file : MtdblkFile)
    (m : Healthy below file.size file.block_size) where
  -- A later state of the file, which holds the bytes of a flat file.
  pub record Holds (f : Flat) (out : MtdblkFile × S) : Type 0 where
    pub cache : ℕ → Entry
    pub next_tick : ℕ
    pub pos : ℕ
    pub ro : ℕ
    pub mtime : ℕ
    pub same : out.0 ≡ with_state file cache next_tick pos ro mtime
    pub valid : IsValid file.size file.block_size cache
    pub in_file : pos ≤ file.size
    pub is_flat : f ≡ flat_of (with_state file cache next_tick pos ro mtime) f.data_at
    pub data_at : (a : ℕ) → view file.block_size cache (m.content out.1) a ≡ f.data_at a

  -- What `mtdblk_rwrite` does, whatever the buffer.
  pub record Serves (d : ℕ → ℕ) (buffer : List ℕ) (offset : ℕ)
      (out : Option (Result ℕ × (MtdblkFile × (ℕ × S)))) : Type 0 where
    pub result : Result ℕ
    pub after : MtdblkFile
    pub world : S
    pub next : ℕ
    pub same : out ≡ some (result, (after, (next, world)))
    pub next_pos : next ≡ moved offset result
    pub outcome :
        ((result ≡ (flat_write (flat_of file d) buffer offset).0)
          × Holds (flat_write (flat_of file d) buffer offset).1 (after, world))
        ⊎ ((result ≡ err enomem) × Holds (flat_of file d) (after, world))

  module _ (d : ℕ → ℕ) (w : S) (v : IsValid file.size file.block_size file.cache)
      (in_file : file.pos ≤ file.size)
      (agree : (a : ℕ) → view file.block_size file.cache (m.content w) a ≡ d a) where
    unfoldable pub Holds_same : Holds (flat_of file d) (file, w)
    Holds_same = record {
      cache = file.cache;
      next_tick = file.next_tick;
      pos = file.pos;
      ro = file.ro;
      mtime = file.mtime;
      same = refl;
      valid = v;
      in_file = in_file;
      is_flat = refl;
      data_at = agree;
    }

    pub rwrite_lem :
        (fuel : ℕ) (buffer : List ℕ) (offset : ℕ)
        → offset + length buffer < 2 ^ 32
        → file.size ≤ fuel
        → Serves d buffer offset (rwrite below fuel file buffer offset w)
    unfolding rwrite
    rwrite_lem fuel buffer offset small enough =
        let sum : u32 (offset + length buffer) ≡ offset + length buffer = omega arith in
        elim (Bool-cases (ltb file.size (offset + length buffer))) [
          | inl big ↦
              rw (sum, big)
                (record {
                  result = err efbig;
                  after = file;
                  world = w;
                  next = offset;
                  same = refl;
                  next_pos = refl;
                  outcome = inl (rw big refl, rw big Holds_same);
                })
          | inr fits ↦ elim (Bool-cases (not (file.ro == 0))) [
            | inl protected ↦
                rw (sum, fits, protected)
                  (record {
                    result = err erofs;
                    after = file;
                    world = w;
                    next = offset;
                    same = refl;
                    next_pos = refl;
                    outcome = inl (rw (fits, protected) refl, rw (fits, protected) Holds_same);
                  })
            | inr writable ↦
                let stamped = record file { mtime = below.now w } in
                let room : offset + length buffer ≤ file.size = ground arith in
                elim (write_loop_lem fuel stamped m buffer offset w v (omega arith) room) [
                  | inl wrote ↦
                      rw (sum, fits, writable, wrote.same)
                        (record {
                          result = ok (length buffer);
                          after = with_cache stamped wrote.cache wrote.tick;
                          world = wrote.world;
                          next = offset + length buffer;
                          same = refl;
                          next_pos = refl;
                          outcome = inl (
                            rw (fits, writable) refl,
                            rw (fits, writable)
                                (record {
                                  cache = wrote.cache;
                                  next_tick = wrote.tick;
                                  pos = file.pos;
                                  ro = file.ro;
                                  mtime = below.now w;
                                  same = refl;
                                  valid = wrote.valid;
                                  in_file = in_file;
                                  is_flat = refl;
                                  data_at = λ a.
                                      wrote.bytes a
                                      ∙ overlay_congr
                                          (view file.block_size file.cache (m.content w)) d offset
                                          buffer a (agree a);
                                }),
                          );
                        })
                  | inr failed ↦
                      rw (sum, fits, writable, failed.same)
                        (record {
                          result = err enomem;
                          after = failed.after.0;
                          world = failed.after.1;
                          next = offset;
                          same = refl;
                          next_pos = refl;
                          outcome = inr (
                            refl,
                            record {
                              cache = failed.shows.cache;
                              next_tick = failed.shows.tick;
                              pos = file.pos;
                              ro = file.ro;
                              mtime = below.now w;
                              same = failed.shows.same;
                              valid = failed.shows.valid;
                              in_file = in_file;
                              is_flat = refl;
                              data_at = λ a. failed.shows.bytes a ∙ agree a;
                            },
                          );
                        })
                ]
          ]
        ]
