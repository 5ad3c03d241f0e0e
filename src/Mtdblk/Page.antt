-- ===== src/Mtdblk/Page.antt =====
-- A page that morelib/mtdblk.c writes back, and the page that it evicts.
use morelibc.Base.{
  ℕ, zero, suc, ◌+◌, ◌-◌, ◌*◌, ◌/◌, ◌≤◌, ◌<◌, ◌≡◌, ◌⊎◌, inl, inr, refl, sym, ap, subst, ◌∙◌, true,
  ◌&&◌, Option, none, some, List, length, ltb, leb, ◌==◌, ==_iff, Bool-cases, if◌then◌else◌,
  Option-cases, u32, Result, ok, err, enomem, arith,
}
use morelibc.Mtdblk.{
  Below, Entry, MtdblkFile, is_cached, update, num_cache_entries, set_entry, set_page, first_page,
  oldest_page, put_page, evict_page,
}
use morelibc.Mtdblk.Blocks.{block_below, block_of, offset_of}
use morelibc.Mtdblk.View.{
  Healthy, overlay, byte_of, FitsPage, IsValid, update-IsValid, view-update, byte_of-elsewhere,
  Shows, Shows-refl,
}

-- A block's bytes over the device, by position and by block.
overlay-block :
    (block_size num a d : ℕ) (page : List ℕ)
    → 0 < block_size
    → length page ≡ block_size
    → overlay (λ _. d) (num * block_size) page a
      ≡ byte_of block_size (record { num = num; page = some page; tick = 0 }) d a
overlay-block block_size num a d page pos e = elim (Bool-cases (num == a / block_size)) [
  | inl hit ↦
      let q : a / block_size ≡ num = sym ((==_iff num (a / block_size)).0 hit) in
      let below = block_below a block_size pos num q in
      let at = offset_of a block_size num q in rw (hit, at) (ground arith)
  | inr miss ↦
      elim (Bool-cases (leb (num * block_size) a && ltb a (num * block_size + length page))) [
        | inl in_block ↦
            let q = block_of a block_size pos num (ground arith) (ground arith) in
            absurd (ground arith)
        | inr out ↦ rw (miss, out) refl
      ]
]

module _ {S : Type 0} {below : Below S} (file : MtdblkFile)
    (m : Healthy below file.size file.block_size)
    (v : IsValid file.size file.block_size file.cache) where
  pub put_page_lem :
      (index : ℕ) (page : List ℕ) (w : S)
      → (file.cache index).page ≡ some page
      → let (put, w1) = put_page below file index page w in
        (put ≡ ok page)
        × ((a : ℕ) → m.content w1 a ≡ byte_of file.block_size (file.cache index) (m.content w a) a)
  unfolding put_page
  put_page_lem index page w e =
      let num = (file.cache index).num in
      let bs = file.block_size in
      let (len, _, room, _) = subst (FitsPage file.size bs index num) e (v.placed index) in
      let start : u32 (num * bs) ≡ num * bs = omega (arith, v.fits) in
      let (done, stored) = m.rewrites w page (u32 (num * bs)) len (omega arith) in
      rw (m.erases w (u32 (num * bs)), done, put_page)
        (
          refl,
          λ a.
              stored a
              ∙ ap (λ n. overlay (m.content w) n page a) start
              ∙ overlay-block bs num a (m.content w a) page v.has_blocks len
              ∙ rw e refl,
        )

first_page-cached :
    (cache : ℕ → Entry) (index n i : ℕ)
    → first_page cache index n ≡ some i
    → is_cached (cache i).page ≡ true
unfolding first_page
first_page-cached cache index zero i e = absurd (cc e)
first_page-cached cache index (suc n) i e = elim (Bool-cases (is_cached (cache index).page)) [
  | inl h ↦ ground arith
  | inr h ↦ first_page-cached cache (index + 1) n i (ground arith)
]

first_page-empty :
    (cache : ℕ → Entry) (index n i : ℕ)
    → first_page cache index n ≡ none
    → index ≤ i
    → i < index + n
    → (cache i).page ≡ none
unfolding first_page
first_page-empty cache index zero i e low high = absurd (omega arith)
first_page-empty cache index (suc n) i e low high =
    elim (Bool-cases (is_cached (cache index).page)) [
      | inl h ↦ absurd (ground arith)
      | inr h ↦ elim (Bool-cases (i == index)) [
        | inl here ↦ elim (Option-cases (cache i).page) [
          | inl none_here ↦ none_here
          | inr (page, some_here) ↦ absurd (ground arith)
        ]
        | inr later ↦
            first_page-empty cache (index + 1) n i (ground arith) (ground arith) (omega arith)
      ]
    ]

oldest_page-cached :
    (cache : ℕ → Entry) (oldest index n : ℕ)
    → is_cached (cache oldest).page ≡ true
    → is_cached (cache (oldest_page cache oldest index n)).page ≡ true
unfolding oldest_page
oldest_page-cached cache oldest index zero h = h
oldest_page-cached cache oldest index (suc n) h =
    let older = is_cached (cache index).page && ltb (cache index).tick (cache oldest).tick in
    oldest_page-cached cache (if older then index else oldest) (index + 1) n
      (elim (Bool-cases older) [ inl e ↦ rw e (ground arith) | inr e ↦ rw e h ])

pub cached-page : (o : Option (List ℕ)) → is_cached o ≡ true → (page : List ℕ) × (o ≡ some page)
cached-page none e = absurd (cc e)
cached-page (some page) e = (page, refl)

module _ {S : Type 0} {below : Below S} (file : MtdblkFile)
    (m : Healthy below file.size file.block_size)
    (v : IsValid file.size file.block_size file.cache) where
  -- A page that is written back and dropped changes nothing that the file shows.
  unfoldable pub drop-Shows :
      (index : ℕ) (w w1 : S)
      → ((a : ℕ) → m.content w1 a ≡ byte_of file.block_size (file.cache index) (m.content w a) a)
      → Shows file m w (set_page file index none, w1)
  unfolding set_page set_entry
  drop-Shows index w w1 h = record {
    cache = update file.cache index (record (file.cache index) { page = none });
    tick = file.next_tick;
    same = refl;
    valid = update-IsValid v index _ tt;
    bytes =
        view-update v index _ (m.content w) (m.content w1) (λ a _. h a)
          (λ a ne. h a ∙ byte_of-elsewhere v index (m.content w a) a ne);
  }

  -- What a page that the cache gives up leaves behind: no entry is filled by it.
  pub record Evicts (w : S) (out : Result (List ℕ) × (MtdblkFile × S)) : Type 0 where
    pub shows : Shows file m w out.1
    pub stays : (i : ℕ) → (file.cache i).page ≡ none → (out.1.0.cache i).page ≡ none
    pub result :
        ((page : List ℕ) × (out.0 ≡ ok page) × (length page ≡ file.block_size))
        ⊎ ((out.0 ≡ err enomem) × ((i : ℕ) → i < num_cache_entries → (file.cache i).page ≡ none))

  pub evict_page_lem : (w : S) → Evicts w (evict_page below file w)
  unfolding evict_page Shows-refl set_page set_entry
  evict_page_lem w = elim (Option-cases (first_page file.cache 0 num_cache_entries)) [
    | inl e ↦
        rw (evict_page, e)
          (record {
            shows = Shows-refl file m v w;
            stays = λ i h. h;
            result = inr (refl, λ i lt. first_page-empty file.cache 0 16 i e (omega arith) lt);
          })
    | inr (first, e) ↦
        let oldest = oldest_page file.cache first (first + 1) (num_cache_entries - (first + 1)) in
        let (page, f) = cached-page (file.cache oldest).page (
          oldest_page-cached file.cache first (first + 1) _
            (first_page-cached file.cache 0 num_cache_entries first e)) in
        let (put, stored) = put_page_lem file m v oldest page w f in
        let (len, _, _, _) =
          subst (FitsPage file.size file.block_size oldest (file.cache oldest).num) f
            (v.placed oldest) in
        rw (evict_page, e, f, put)
          (record {
            shows = drop-Shows oldest w _ stored;
            stays = λ i h. elim (Bool-cases (i == oldest)) [ inl k ↦ rw k refl | inr k ↦ rw k h ];
            result = inl (page, refl, len);
          })
  ]
