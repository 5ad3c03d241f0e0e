-- ===== src/Devfs/Listing.antt =====
-- Reading a directory of morelib/devfs.c to its end.
use morelibc.Base.{
  ℕ, zero, suc, ◌+◌, ◌/◌, ◌^◌, ◌<◌, ◌≡◌, refl, sym, ap, ◌∙◌, inl, inr, Option, none, some,
  Option-cases, List, [], ◌∷◌, drop, drop-drop, subst, length, bit_and, All, NulFree, arith,
}
use morelibc.Devfs.{
  DevfsEntry, Dirent, DevfsDir, listed, readdir_loop, devfs_readdir, devfs_rewinddir,
}
use morelibc.Devfs.Children.{IsChild, listed_lem}
use morelibc.Vfs.Path.Prefix.{IsPoint}

module _ (s_ifmt : ℕ) where
  -- The entries that `listed` lets through.
  abbrev children : List ℕ → List DevfsEntry → List Dirent
  children path [] = []
  children path (entry ∷ entries) = elim (listed s_ifmt path entry) [
    | none ↦ children path entries
    | some d ↦ d ∷ children path entries
  ]

  -- `readdir` until it gives NULL.
  unfoldable pub read_all : ℕ → List DevfsEntry → DevfsDir → List Dirent
  read_all zero entries dir = []
  read_all (suc fuel) entries dir =
      let (d, dir1) = devfs_readdir s_ifmt entries dir in
      let rest = read_all fuel entries dir1 in elim d [ none ↦ [] | some x ↦ x ∷ rest ]

  -- A call of `readdir` passes `taken` entries, and gives the first child, if there is one.
  record Passed (path : List ℕ) (entries : List DevfsEntry) (index : ℕ) (r : Option Dirent × ℕ)
      : Type 0 where
    pub taken : ℕ
    pub moved : r.1 ≡ index + taken
    pub first :
        children path entries
        ≡ elim r.0 [ none ↦ [] | some d ↦ d ∷ children path (drop taken entries) ]
    pub progress : (d : Dirent) → r.0 ≡ some d → length (drop taken entries) < length entries

  loop_lem :
      (entries : List DevfsEntry) (path : List ℕ) (index : ℕ)
      → Passed path entries index (readdir_loop s_ifmt entries path index)
  unfolding readdir_loop
  loop_lem [] path index = record {
    taken = 0;
    moved = omega arith;
    first = refl;
    progress = λ d e. absurd (cc e);
  }
  loop_lem (entry ∷ entries) path index = elim (Option-cases (listed s_ifmt path entry)) [
    | inl hidden ↦
        let rest = loop_lem entries path (index + 1) in
        record {
          taken = suc rest.taken;
          moved = rw (readdir_loop, hidden) (omega (arith, rest.moved));
          first = rw (children, readdir_loop, hidden) rest.first;
          progress = λ d. rw (readdir_loop, hidden) (λ e. omega (arith, rest.progress d e));
        }
    | inr (d, shown) ↦ record {
      taken = 1;
      moved = rw (readdir_loop, shown) refl;
      first = rw (children, readdir_loop, shown) refl;
      progress = λ c e. omega arith;
    }
  ]

  read_all-from :
      (fuel : ℕ) (entries : List DevfsEntry) (dir : DevfsDir)
      → length (drop dir.index entries) < fuel
      → read_all fuel entries dir ≡ children dir.entry.path (drop dir.index entries)
  unfolding read_all devfs_readdir
  read_all-from zero entries dir h = absurd (omega arith)
  read_all-from (suc fuel) entries dir h =
      let here = drop dir.index entries in
      let p = loop_lem here dir.entry.path dir.index in
      elim (Option-cases (readdir_loop s_ifmt here dir.entry.path dir.index).0) [
        | inl done ↦ rw (read_all, devfs_readdir, done) (sym (p.first ∙ rw done refl))
        | inr (d, found) ↦
            let next : DevfsDir = record dir { index = dir.index + p.taken } in
            let same = drop-drop dir.index p.taken (dir.index + p.taken) entries refl in
            let less = p.progress d found in
            let rest =
              read_all-from fuel entries next
                (subst (λ xs. length xs < fuel) same (omega (arith, less, h))) in
            rw (read_all, devfs_readdir, found, p.moved)
              (ap (λ xs. d ∷ xs) (rest ∙ ap (children dir.entry.path) (sym same))
                ∙ sym (p.first ∙ rw found refl))
      ]

  -- The dirents are those of the entries that stand directly in the directory, one for each and in their order.
  pub data Listing (directory : List ℕ) : List DevfsEntry → List Dirent → Type 0 where
    nothing : Listing directory [] []
    child :
        {entry : DevfsEntry} {entries : List DevfsEntry} {dirents : List Dirent} {name : List ℕ}
        → IsChild directory entry.path name
        → Listing directory entries dirents
        → Listing directory
            (entry ∷ entries)
            (record { d_type = bit_and entry.mode s_ifmt / 2 ^ 12; d_name = name } ∷ dirents)
    other :
        {entry : DevfsEntry} {entries : List DevfsEntry} {dirents : List Dirent}
        → ((name : List ℕ) → ¬ IsChild directory entry.path name)
        → Listing directory entries dirents
        → Listing directory (entry ∷ entries) dirents

  children-Listing :
      (directory : List ℕ) (entries : List DevfsEntry)
      → IsPoint directory
      → All (λ entry. NulFree entry.path) entries
      → Listing directory entries (children directory entries)
  children-Listing directory [] h f = nothing
  children-Listing directory (entry ∷ entries) h f =
      let rest = children-Listing directory entries h f.1 in
      elim (listed_lem s_ifmt directory entry h f.0) [
        | inl (name, c, e) ↦ rw (children, e) (child c rest)
        | inr (e, n) ↦ rw (children, e) (other n rest)
      ]

  -- Reading an open directory from the start, until readdir gives NULL, gives a dirent for each entry that
  -- stands directly in the directory, with its name and type, in the order of the table, and no other: a call
  -- more than there are entries is enough. The directory is "/" or has a longer path.
  pub devfs_rewinddir-read_all :
      (fuel : ℕ) (entries : List DevfsEntry) (dir : DevfsDir)
      → length entries < fuel
      → IsPoint dir.entry.path
      → All (λ entry. NulFree entry.path) entries
      → Listing dir.entry.path entries (read_all fuel entries (devfs_rewinddir dir))
  unfolding devfs_rewinddir
  devfs_rewinddir-read_all fuel entries dir h point f =
      subst (Listing dir.entry.path entries)
        (sym (read_all-from fuel entries (record dir { index = 0 }) h))
        (children-Listing dir.entry.path entries point f)
