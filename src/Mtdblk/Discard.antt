-- ===== src/Mtdblk/Discard.antt =====
-- BLKDISCARD of morelib/mtdblk.c.
use morelibc.Base.{
  ℕ, zero, suc, ◌+◌, ◌-◌, ◌*◌, ◌/◌, ◌^◌, ◌≤◌, ◌<◌, ◌≡◌, inl, inr, refl, sym, ap, ap₂, ◌↔◌, subst,
  ◌∙◌, Bool, true, false, ◌&&◌, Option, none, some, List, ltb, leb, ◌==◌, ==_iff, ==_refl,
  Bool-cases, if◌then◌else◌, u32, u64, arith,
}
use native.Mathlib.Nat.{div-le_self, le-div_iff_mul-le, div-lt_iff_lt-mul, add-mul, one-mul}
use morelibc.Mtdblk.{Entry, MtdblkFile, is_cached, num_cache_entries, set_entry, set_page}
use morelibc.Mtdblk.Device.{discard_loop, discard}
use morelibc.Mtdblk.View.{byte_of, slot, view, IsPlaced, IsValid}

module _ (begin end : ℕ) where
  abbrev in_range : ℕ → Bool
  in_range num = leb begin num && ltb num end

  -- An entry after the loop has passed it.
  abbrev without : Entry → Entry
  without entry =
      if is_cached entry.page && in_range entry.num then record entry { page = none } else entry

  -- A round.
  abbrev cleared : MtdblkFile → ℕ → MtdblkFile
  cleared file index =
      if is_cached (file.cache index).page && in_range (file.cache index).num
      then set_page file index none
      else file

  cleared-entry :
      (file : MtdblkFile) (index i : ℕ)
      → (cleared file index).cache i ≡ (if i == index then without (file.cache i) else file.cache i)
  unfolding set_page set_entry
  cleared-entry file index i =
      let hit = is_cached (file.cache index).page && in_range (file.cache index).num in
      elim (Bool-cases (i == index)) [
        | inl here ↦
            let e = (==_iff i index).0 here in
            elim (Bool-cases hit) [
              | inl yes_hit ↦ rw (here, e, yes_hit, ==_refl index) refl
              | inr no_hit ↦ rw (here, e, no_hit) refl
            ]
        | inr there ↦ elim (Bool-cases hit) [
          | inl yes_hit ↦ rw (there, yes_hit, there) refl
          | inr no_hit ↦ rw (there, no_hit) refl
        ]
      ]

  discard_loop-entry :
      (n : ℕ) (file : MtdblkFile) (index i : ℕ)
      → (discard_loop file begin end index n).cache i
        ≡ (if leb index i && ltb i (index + n) then without (file.cache i) else file.cache i)
  unfolding discard_loop
  discard_loop-entry zero file index i = ground arith
  discard_loop-entry (suc n) file index i =
      discard_loop-entry n (cleared file index) (index + 1) i ∙ elim (Bool-cases (i == index)) [
        | inl here ↦
            let out : (leb (index + 1) i && ltb i (index + 1 + n)) ≡ false = ground arith in
            let here_in : (leb index i && ltb i (index + suc n)) ≡ true = ground arith in
            rw (out, here_in) (cleared-entry file index i ∙ rw here refl)
        | inr there ↦
            let same : (leb (index + 1) i && ltb i (index + 1 + n))
                ≡ (leb index i && ltb i (index + suc n)) =
              ground arith in
            let kept : (cleared file index).cache i ≡ file.cache i =
              cleared-entry file index i ∙ rw there refl in
            rw (same, kept) refl
      ]

module _ (begin end block_size : ℕ) where
  byte_of-without_page :
      (num : ℕ) (page : Option (List ℕ)) (tick d a : ℕ)
      → let entry : Entry = record { num = num; page = page; tick = tick } in
        byte_of block_size (without begin end entry) d a
        ≡ (if in_range begin end (a / block_size) then d else byte_of block_size entry d a)
  byte_of-without_page num none tick d a = ground arith
  byte_of-without_page num (some page) tick d a = ground arith

  byte_of-without :
      (entry : Entry) (d a : ℕ)
      → byte_of block_size (without begin end entry) d a
        ≡ (if in_range begin end (a / block_size) then d else byte_of block_size entry d a)
  byte_of-without entry = byte_of-without_page entry.num entry.page entry.tick

  without-IsPlaced :
      (size : ℕ) (entry : Entry) (index : ℕ)
      → IsPlaced size block_size index entry
      → IsPlaced size block_size index (without begin end entry)
  without-IsPlaced size entry index h =
      elim (Bool-cases (is_cached entry.page && in_range begin end entry.num)) [
        | inl out ↦ rw out tt
        | inr kept ↦ rw kept h
      ]

leb_congr : (a b c d : ℕ) → (a ≤ b) ↔ (c ≤ d) → leb a b ≡ leb c d
leb_congr a b c d e = ground arith

ltb_congr : (a b c d : ℕ) → (a < b) ↔ (c ≤ d) → ltb a b ≡ leb c d
ltb_congr a b c d e = ground arith

-- The blocks of a range of bytes: those that lie in it.
module _ (block_size start len q : ℕ) (pos : 0 < block_size)
    (small : start + len + block_size < 2 ^ 32) where
  abbrev first_block : ℕ
  first_block = u32 (u64 (start + block_size - 1) / block_size)

  abbrev end_block : ℕ
  end_block = u32 (u64 (start + len) / block_size)

  in_range-bytes :
      in_range first_block end_block q
      ≡ (leb start (q * block_size) && leb (q * block_size + block_size) (start + len))
  in_range-bytes =
      let a = start + block_size - 1 in
      let first : first_block ≡ a / block_size =
        ap (λ n. u32 (n / block_size)) (let e : u64 a ≡ a = omega arith in e)
        ∙ (let e : u32 (a / block_size) ≡ a / block_size =
              omega (arith, div-le_self a block_size) in
            e) in
      let end : end_block ≡ (start + len) / block_size =
        ap (λ n. u32 (n / block_size)) (let e : u64 (start + len) ≡ start + len = omega arith in e)
        ∙ (let e : u32 ((start + len) / block_size) ≡ (start + len) / block_size =
              omega (arith, div-le_self (start + len) block_size) in
            e) in
      let next : (q + 1) * block_size ≡ q * block_size + block_size =
        add-mul q 1 block_size ∙ ap (λ n. q * block_size + n) (one-mul block_size) in
      let low : (a / block_size ≤ q) ↔ (start ≤ q * block_size) = (
        λ h. omega (arith, next, (div-lt_iff_lt-mul {x = a} {y = q + 1} pos).0 (omega arith)),
        λ h.
            let f = (div-lt_iff_lt-mul {x = a} {y = q + 1} pos).1 (omega (arith, next)) in
            omega arith,
      ) in
      let high : (q < (start + len) / block_size) ↔ (q * block_size + block_size ≤ start + len) = (
        λ h.
            omega
              (arith, next, (le-div_iff_mul-le {x = q + 1} {y = start + len} pos).0 (omega arith)),
        λ h.
            let f = (le-div_iff_mul-le {x = q + 1} {y = start + len} pos).1 (omega (arith, next)) in
            omega arith,
      ) in
      rw (first, end)
        (ap₂ ◌&&◌ (leb_congr (a / block_size) q start (q * block_size) low) (
          ltb_congr q ((start + len) / block_size) (q * block_size + block_size) (start + len)
            high))

module _ (file : MtdblkFile) (v : IsValid file.size file.block_size file.cache) (start len : ℕ)
    (small : start + len + file.block_size < 2 ^ 32) where
  -- From a valid cache, when the range and a block more end below 2 ^ 32, BLKDISCARD leaves a valid cache; the
  -- bytes of a block that lies in the range are the device's again, and all other bytes stay.
  pub discard-view :
      (d : ℕ → ℕ) (a : ℕ)
      → IsValid file.size file.block_size (discard file start len).cache
        × (view file.block_size (discard file start len).cache d a ≡ (
            if leb start (a / file.block_size * file.block_size)
              && leb (a / file.block_size * file.block_size + file.block_size) (start + len)
            then d a
            else view file.block_size file.cache d a))
  unfolding discard view
  discard-view d a =
      let bs = file.block_size in
      let begin = first_block bs start len 0 v.has_blocks small in
      let end = end_block bs start len 0 v.has_blocks small in
      let after = λ (i : ℕ). discard_loop-entry begin end num_cache_entries file 0 i in
      let i = slot bs a in
      let all : (leb 0 i && ltb i (0 + num_cache_entries)) ≡ true = ground arith in
      (
        record {
          has_blocks = v.has_blocks;
          whole = v.whole;
          fits = v.fits;
          placed = λ k.
              subst (IsPlaced file.size bs k) (sym (after k))
                (elim (Bool-cases (leb 0 k && ltb k (0 + num_cache_entries))) [
                  | inl t ↦
                      rw t (without-IsPlaced begin end bs file.size (file.cache k) k (v.placed k))
                  | inr t ↦ rw t (v.placed k)
                ]);
        },
        ap (λ e. byte_of bs e (d a) a) (after i)
            ∙ rw all (byte_of-without begin end bs (file.cache i) (d a) a)
            ∙ ap (λ t. if t then d a else byte_of bs (file.cache i) (d a) a)
                (in_range-bytes bs start len (a / bs) v.has_blocks small),
      )
