-- ===== src/Devfs/Children.antt =====
-- Which entries stand directly in a directory of morelib/devfs.c.
use morelibc.Base.{
  ℕ, ◌/◌, ◌^◌, ◌≡◌, ◌≢◌, ◌⊎◌, refl, subst, ap, ◌∙◌, inl, inr, false, none, some, arith,
  Option-cases, Bool-cases, ◌==◌, List, [], ◌∷◌, ◌++◌, bit_and, All, NulFree,
}
use morelibc.Devfs.{DevfsEntry, listed}
use morelibc.Ring.{memchr}
use morelibc.Vfs.Path.{slash, vfs_compare_path}
use morelibc.Vfs.Path.Prefix.{IsPoint, IsUnder, vfs_compare_path-IsUnder}

memchr-All : (xs : List ℕ) (ch : ℕ) → memchr xs ch ≡ none → All (λ c. c ≢ ch) xs
unfolding memchr
memchr-All [] ch e = tt
memchr-All (x ∷ xs) ch e = elim (Bool-cases (x == ch)) [
  | inl here ↦ absurd (cc (rw (memchr, here) at e))
  | inr there ↦ elim (Option-cases (memchr xs ch)) [
    | inl rest ↦ (ground arith, memchr-All xs ch rest)
    | inr (i, found) ↦ absurd (cc (rw (memchr, there, found) at e))
  ]
]

All-memchr : (xs : List ℕ) (ch : ℕ) → All (λ c. c ≢ ch) xs → memchr xs ch ≡ none
unfolding memchr
All-memchr [] ch h = refl
All-memchr (x ∷ xs) ch h =
    let next : x ≢ ch = h.0 in
    let other : (x == ch) ≡ false = ground arith in rw (memchr, other, All-memchr xs ch h.1) refl

-- What stands in front of the names in a directory: nothing for "/", and otherwise its path.
abbrev pub stem : List ℕ → List ℕ
stem [] = []
stem (x ∷ []) = []
stem (x ∷ y ∷ path) = x ∷ y ∷ path

-- The path is that of an entry directly in the directory: behind it stand a slash and a name, which is not
-- empty and has no slash.
pub record IsChild (directory path name : List ℕ) : Type 0 where
  pub place : path ≡ stem directory ++ slash ∷ name
  pub named : name ≢ []
  pub direct : All (λ c. c ≢ slash) name

place-IsUnder :
    (directory path name : List ℕ)
    → IsPoint directory
    → path ≡ stem directory ++ slash ∷ name
    → IsUnder directory path (slash ∷ name)
place-IsUnder [] path name h e = h
place-IsUnder (x ∷ []) path name h e = (e, (name, refl))
place-IsUnder (x ∷ y ∷ directory) path name h e = (e, inr (name, refl))

IsUnder-place :
    (directory path rest : List ℕ)
    → IsUnder directory path rest
    → (rest ≡ [])
      ⊎ ((name : List ℕ) × (rest ≡ slash ∷ name) × (path ≡ stem directory ++ slash ∷ name))
IsUnder-place [] path rest u = absurd u
IsUnder-place (x ∷ []) path rest (e, (r, f)) = inr (r, f, e ∙ f)
IsUnder-place (x ∷ y ∷ directory) path rest (e, inl f) = inl f
IsUnder-place (x ∷ y ∷ directory) path rest (e, inr (r, f)) =
    inr (r, f, e ∙ ap (λ t. x ∷ y ∷ directory ++ t) f)

module _ (s_ifmt : ℕ) (directory : List ℕ) (entry : DevfsEntry) (h : IsPoint directory)
    (f : NulFree entry.path) where
  -- The rest of the path behind the directory, if it is that of a child.
  child-rest :
      (name : List ℕ)
      → IsChild directory entry.path name
      → vfs_compare_path directory entry.path ≡ some (slash ∷ name)
  child-rest name c =
      (vfs_compare_path-IsUnder directory entry.path (slash ∷ name) h f).1
        (place-IsUnder directory entry.path name h c.place)

  abbrev Decided : Type 0
  Decided =
      ((name : List ℕ) × IsChild directory entry.path name
        × (listed s_ifmt directory entry
            ≡ some (record { d_type = bit_and entry.mode s_ifmt / 2 ^ 12; d_name = name })))
      ⊎ ((listed s_ifmt directory entry ≡ none)
          × ((name : List ℕ) → ¬ IsChild directory entry.path name))

  named_lem :
      (x : ℕ) (name : List ℕ)
      → vfs_compare_path directory entry.path ≡ some (slash ∷ x ∷ name)
      → entry.path ≡ stem directory ++ slash ∷ x ∷ name
      → Decided
  unfolding listed
  named_lem x name hit place = elim (Option-cases (memchr (x ∷ name) slash)) [
    | inl direct ↦ inl (
      x ∷ name,
      record { place = place; named = λ e. cc e; direct = memchr-All (x ∷ name) slash direct },
      rw (listed, hit, direct) (ground arith),
    )
    | inr (i, deeper) ↦ inr (
      rw (listed, hit, deeper) (ground arith),
      λ other c.
          let same : other ≡ x ∷ name = cc (child-rest other c, hit) in
          cc (deeper, All-memchr (x ∷ name) slash (subst (All (λ ch. ch ≢ slash)) same c.direct)),
    )
  ]

  -- `devfs_readdir` shows an entry exactly if it stands directly in the directory.
  pub listed_lem : Decided
  unfolding listed
  listed_lem = elim (Option-cases (vfs_compare_path directory entry.path)) [
    | inl miss ↦ inr (rw (listed, miss) refl, λ name c. cc (miss, child-rest name c))
    | inr (rest, hit) ↦
        let u = (vfs_compare_path-IsUnder directory entry.path rest h f).0 hit in
        elim (IsUnder-place directory entry.path rest u) [
          | inl e ↦ inr (rw (listed, hit, e) refl, λ name c. cc (hit, e, child-rest name c))
          | inr (name, e, place) ↦ shown name (hit ∙ ap some e) place
        ]
  ]
    where
      shown :
          (name : List ℕ)
          → vfs_compare_path directory entry.path ≡ some (slash ∷ name)
          → entry.path ≡ stem directory ++ slash ∷ name
          → Decided
      shown [] at_end place =
          inr (rw (listed, at_end) refl, λ name c. c.named (cc (at_end, child-rest name c)))
      shown (x ∷ name) hit place = named_lem x name hit place
