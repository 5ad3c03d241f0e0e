-- ===== src/Mtdblk/Reads.antt =====
-- What `mtdblk_rread` of morelib/mtdblk.c gives.
use morelibc.Base.{
  ℕ, zero, suc, ◌+◌, ◌-◌, ◌/◌, ◌%◌, ◌≤◌, ◌<◌, min, ◌≡◌, inl, inr, refl, sym, ap, ap₂, subst, ◌∙◌,
  false, none, some, List, [], ◌∷◌, ◌++◌, get_or, load, ◌==◌, ==_refl, u32, sub_u32, ok, arith,
}
use morelibc.Mtdblk.{Below, MtdblkFile, find_page}
use morelibc.Mtdblk.Blocks.{offset-lt, same_block, same_offset}
use morelibc.Mtdblk.Transfer.{page_of, after_bytes, read_loop, rread}
use morelibc.Mtdblk.View.{Healthy, bytes_at, slot, view, IsValid}
use morelibc.Mtdblk.Position.{InPage, InNoPage, find_page_lem}
use morelibc.Mtdblk.Fill.{length-bytes_at}

bytes_at-append :
    (d : ℕ → ℕ) (start n k : ℕ)
    → bytes_at d start n ++ bytes_at d (start + n) k ≡ bytes_at d start (n + k)
unfolding bytes_at
bytes_at-append d start zero k = ap₂ (bytes_at d) (omega arith) (omega arith)
bytes_at-append d start (suc n) k =
    ap (λ l. d start ∷ l)
      (ap (λ s. bytes_at d (start + 1) n ++ bytes_at d s k) (omega arith)
        ∙ bytes_at-append d (start + 1) n k)
    ∙ ap (bytes_at d start) (let e : suc (n + k) ≡ suc n + k = omega arith in e)

pub bytes_at_congr :
    (d d' : ℕ → ℕ) (start n : ℕ)
    → ((k : ℕ) → k < n → d (start + k) ≡ d' (start + k))
    → bytes_at d start n ≡ bytes_at d' start n
unfolding bytes_at
bytes_at_congr d d' start zero h = refl
bytes_at_congr d d' start (suc n) h =
    ap₂ (λ x l. x ∷ l) (subst (λ a. d a ≡ d' a) (omega arith) (h 0 (omega arith)))
      (bytes_at_congr d d' (start + 1) n
        (λ k lt. subst (λ a. d a ≡ d' a) (omega arith) (h (suc k) (omega arith))))

load-bytes_at :
    (buf : List ℕ) (off : ℕ) (d : ℕ → ℕ) (start n : ℕ)
    → ((k : ℕ) → k < n → get_or buf (off + k) 0 ≡ d (start + k))
    → load buf off n ≡ bytes_at d start n
unfolding load bytes_at
load-bytes_at buf off d start zero h = refl
load-bytes_at buf off d start (suc n) h =
    ap₂ (λ x l. x ∷ l)
      (ap (λ i. get_or buf i 0) (omega arith) ∙ h 0 (omega arith) ∙ ap d (omega arith))
      (load-bytes_at buf (off + 1) d (start + 1) n (λ k lt.
        ap (λ i. get_or buf i 0) (omega arith) ∙ h (suc k) (omega arith) ∙ ap d (omega arith)))

module _ (file : MtdblkFile) (v : IsValid file.size file.block_size file.cache) where
  page_bytes :
      (a n : ℕ) (d : ℕ → ℕ)
      → InPage file v a
      → n ≤ file.block_size - a % file.block_size
      → load (page_of (file.cache (slot file.block_size a))) (a % file.block_size) n
        ≡ bytes_at (view file.block_size file.cache d) a n
  unfolding view
  page_bytes a n d (_, _, _, num, (page, e)) le =
      load-bytes_at _ (a % file.block_size) (view file.block_size file.cache d) a n (λ k lt.
        let block = same_block a file.block_size v.has_blocks k (omega arith) in
        let offset = same_offset a file.block_size v.has_blocks k (omega arith) in
        rw (block, e, num, block, ==_refl (a / file.block_size), offset) refl)

  device_bytes :
      (a n : ℕ) (d : ℕ → ℕ)
      → InNoPage file v a
      → n ≤ (find_page file a).1
      → bytes_at d a n ≡ bytes_at (view file.block_size file.cache d) a n
  unfolding view
  device_bytes a n d (_, _, _, shown) le =
      bytes_at_congr d (view file.block_size file.cache d) a n
        (λ k lt. sym (shown (d (a + k)) k (omega arith)))

  module _ {S : Type 0} {below : Below S} (m : Healthy below file.size file.block_size) where
    abbrev bytes_of : S → ℕ → ℕ → List ℕ
    bytes_of w = bytes_at (view file.block_size file.cache (m.content w))

    step_page :
        (fuel k offset : ℕ) (w : S)
        → InPage file v offset
        → let n = min (find_page file offset).1 (suc k) in
          read_loop below file (suc fuel) (suc k) offset w
          ≡ after_bytes
              (load
                (page_of (file.cache (slot file.block_size offset)))
                (offset % file.block_size)
                n)
              (read_loop below file fuel (suc k - n) (u32 (offset + n)) w)
    unfolding read_loop
    step_page fuel k offset w (_, found, _, _, _) =
        let go : (suc k == 0) ≡ false = ground arith in rw (go, found) refl

    step_device :
        (fuel k offset : ℕ) (w : S)
        → (find_page file offset).0 ≡ none
        → offset + suc k ≤ file.size
        → let n = min (find_page file offset).1 (suc k) in
          read_loop below file (suc fuel) (suc k) offset w
          ≡ after_bytes
              (bytes_at (m.content w) offset n)
              (read_loop below file fuel (sub_u32 (suc k) n) (u32 (offset + n)) w)
    unfolding read_loop
    step_device fuel k offset w missing room =
        let go : (suc k == 0) ≡ false = ground arith in
        let n = min (find_page file offset).1 (suc k) in
        let got = m.reads w n offset (omega arith) in
        rw (go, missing, got, length-bytes_at (m.content w) offset n) refl

    -- A chunk of `n` bytes, and then the rest of the loop.
    read_on :
        (fuel remaining offset n r o : ℕ) (w : S) (chunk : List ℕ)
        → chunk ≡ bytes_of w offset n
        → n ≤ remaining
        → read_loop below file fuel r o w ≡ some (ok (bytes_of w o r), (o + r, w))
        → r ≡ remaining - n
        → o ≡ offset + n
        → after_bytes chunk (read_loop below file fuel r o w)
          ≡ some (ok (bytes_of w offset remaining), (offset + remaining, w))
    read_on fuel remaining offset n r o w chunk is_chunk le rest er eo =
        let joined : chunk ++ bytes_of w o r ≡ bytes_of w offset remaining =
          ap₂ (λ l s. l ++ bytes_of w s r) is_chunk eo
          ∙ bytes_at-append _ offset n r
          ∙ ap (bytes_of w offset) (omega arith) in
        ap (after_bytes chunk) rest
        ∙ ap₂ (λ l e. some (ok l, (e, w))) joined
            (let e : o + r ≡ offset + remaining = omega arith in e)

    read_loop_lem :
        (fuel remaining offset : ℕ) (w : S)
        → remaining ≤ fuel
        → offset + remaining ≤ file.size
        → read_loop below file fuel remaining offset w
          ≡ some (ok (bytes_of w offset remaining), (offset + remaining, w))
    unfolding read_loop bytes_at
    read_loop_lem zero zero offset w enough room = ap (λ e. some (ok [], (e, w))) (omega arith)
    read_loop_lem zero (suc k) offset w enough room = absurd (omega arith)
    read_loop_lem (suc fuel) zero offset w enough room =
        ap (λ e. some (ok [], (e, w))) (omega arith)
    read_loop_lem (suc fuel) (suc k) offset w enough room = elim (find_page_lem file v offset) [
      | inl here ↦
          let n = min (find_page file offset).1 (suc k) in
          let len = here.2 in
          let pos = offset-lt offset file.block_size v.has_blocks in
          step_page fuel k offset w here
          ∙ read_on fuel (suc k) offset n (suc k - n) (u32 (offset + n)) w _
              (page_bytes offset n (m.content w) here (omega arith)) (omega arith)
              (read_loop_lem fuel (suc k - n) (u32 (offset + n)) w (omega arith)
                (omega (arith, v.fits)))
              refl (omega (arith, v.fits))
      | inr here ↦
          let n = min (find_page file offset).1 (suc k) in
          let some_bytes = here.1 in
          step_device fuel k offset w here.0 room
          ∙ read_on fuel (suc k) offset n (sub_u32 (suc k) n) (u32 (offset + n)) w _
              (device_bytes offset n (m.content w) here (omega arith)) (omega arith)
              (read_loop_lem fuel (sub_u32 (suc k) n) (u32 (offset + n)) w (omega (arith, v.fits))
                (omega (arith, v.fits)))
              (omega (arith, v.fits)) (omega (arith, v.fits))
    ]

    -- `mtdblk_rread` in the device gives what the file shows, up to the end of the device.
    pub rread_lem :
        (fuel size offset : ℕ) (w : S)
        → offset ≤ file.size
        → file.size - offset ≤ fuel
        → let n = min size (file.size - offset) in
          rread below fuel file size offset w ≡ some (ok (bytes_of w offset n), (offset + n, w))
    unfolding rread
    rread_lem fuel size offset w in_file enough =
        let e : sub_u32 file.size offset ≡ file.size - offset = omega (arith, v.fits) in
        rw e
          (read_loop_lem fuel (min size (file.size - offset)) offset w (omega arith) (omega arith))
