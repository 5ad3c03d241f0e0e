-- ===== src/Mtdblk/Position.antt =====
-- Where a position stands for `mtdblk_find_page` of morelib/mtdblk.c.
use morelibc.Base.{
  ℕ, ◌+◌, ◌-◌, ◌/◌, ◌%◌, ◌<◌, ◌≡◌, ◌⊎◌, inl, inr, refl, sym, ap, ◌∙◌, false, ◌&&◌, none, some, List,
  ltb, ◌==◌, ==_iff, Bool-cases, ltb→lt, Option-cases, arith,
}
use morelibc.Mtdblk.{MtdblkFile, is_cached, find_page}
use morelibc.Mtdblk.Blocks.{offset-lt, same_block}
use morelibc.Mtdblk.Page.{cached-page}
use morelibc.Mtdblk.View.{byte_of, slot, IsValid, byte_of-flat}

module _ (file : MtdblkFile) (v : IsValid file.size file.block_size file.cache) where
  -- Where a position stands: in a page, up to the end of its block, or in no page for some bytes.
  abbrev pub InPage : ℕ → Type 0
  InPage a =
      (1 < file.block_size)
      × ((find_page file a).0 ≡ some (slot file.block_size a))
      × ((find_page file a).1 ≡ file.block_size - a % file.block_size)
      × ((file.cache (slot file.block_size a)).num ≡ a / file.block_size)
      × ((page : List ℕ) × ((file.cache (slot file.block_size a)).page ≡ some page))

  abbrev pub InNoPage : ℕ → Type 0
  InNoPage a =
      ((find_page file a).0 ≡ none)
      × (0 < (find_page file a).1)
      × ((1 < file.block_size) → (find_page file a).1 ≡ file.block_size - a % file.block_size)
      × ((d k : ℕ)
          → k < (find_page file a).1
          → byte_of file.block_size (file.cache (slot file.block_size (a + k))) d (a + k) ≡ d)

  not_cached-shows :
      (a d : ℕ)
      → (is_cached (file.cache (slot file.block_size a)).page
          && (file.cache (slot file.block_size a)).num == a / file.block_size)
        ≡ false
      → byte_of file.block_size (file.cache (slot file.block_size a)) d a ≡ d
  not_cached-shows a d h = elim (Option-cases (file.cache (slot file.block_size a)).page) [
    | inl e ↦ rw (e, byte_of) refl
    | inr (page, e) ↦
        let miss : ((file.cache (slot file.block_size a)).num == a / file.block_size) ≡ false =
          ap (λ o. is_cached o && (file.cache (slot file.block_size a)).num == a / file.block_size)
            (sym e)
          ∙ h in
        rw (e, miss) refl
  ]

  pub find_page_lem : (a : ℕ) → InPage a ⊎ InNoPage a
  unfolding find_page
  find_page_lem a =
      let bs = file.block_size in
      let entry = file.cache (slot bs a) in
      elim (Bool-cases (ltb 1 bs)) [
        | inr flat ↦ inr (
            rw flat (
              refl,
              omega arith,
              λ big. absurd (ground arith),
              λ d k _. byte_of-flat v _ d (a + k) (ground arith),
            ))
        | inl big ↦ elim (Bool-cases (is_cached entry.page && entry.num == a / bs)) [
          | inl hit ↦
              let (page, e) = cached-page entry.page (ground arith) in
              inl (
                ltb→lt 1 bs big,
                rw (big, hit) refl,
                rw big refl,
                (==_iff entry.num (a / bs)).0 (ground arith),
                (page, e),
              )
          | inr miss ↦
              let pos = v.has_blocks in
              inr (
                rw (big, miss)
                  (
                    refl,
                    omega (arith, offset-lt a bs pos),
                    λ _. refl,
                    λ d k lt. not_cached-shows (a + k) d (rw (same_block a bs pos k lt) miss),
                  ))
        ]
      ]

  pub find_page_pos : (a : ℕ) → 0 < (find_page file a).1
  find_page_pos a = elim (find_page_lem a) [
    | inl (_, _, len, _, _) ↦ omega (arith, len, offset-lt a file.block_size v.has_blocks)
    | inr (_, pos, _, _) ↦ pos
  ]

  pub find_page_len :
      (a : ℕ) → 1 < file.block_size → (find_page file a).1 ≡ file.block_size - a % file.block_size
  find_page_len a big = elim (find_page_lem a) [
    | inl (_, _, len, _, _) ↦ len
    | inr (_, _, len, _) ↦ len big
  ]
