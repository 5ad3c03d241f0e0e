-- ===== src/Devfs.antt =====
-- The file system of devices, morelib/devfs.c, over the table of devices of morelib/dev.c. The bits of
-- <fcntl.h> and <sys/stat.h> are parameters.
mod Children
mod Listing
mod Tests
use morelibc.Base.{
  ℕ, suc, zero, ◌+◌, ◌/◌, ◌^◌, Bool, Option, none, some, List, [], ◌∷◌, drop, length, ltb, ◌==◌,
  if◌then◌else◌, ◌&&◌, bit_and, Result, ok, err, ebusy, eexist, eisdir, enoent, enomem, enotdir,
  erofs,
}
use morelibc.Dev.{Driver, opendev}
use morelibc.Ring.{memchr}
use morelibc.Vfs.Mounts.{strcmp}
use morelibc.Vfs.Path.{vfs_compare_path, slash}

-- `struct devfs_entry`
pub record DevfsEntry : Type 0 where
  pub path : List ℕ
  pub mode : ℕ
  pub dev : ℕ

-- `struct dirent`
pub record Dirent : Type 0 where
  pub d_type : ℕ
  pub d_name : List ℕ

-- `struct devfs_dir`
pub record DevfsDir : Type 0 where
  pub entry : DevfsEntry
  pub index : ℕ

-- `devfs_global_mount`: whether it has a path, and its count.
pub record DevfsMount : Type 0 where
  pub has_path : Bool
  pub ref_count : ℕ

unfoldable pub devfs_mount : DevfsMount → Result ℕ × DevfsMount
devfs_mount m =
    if m.has_path
    then (err ebusy, m)
    else (ok (m.ref_count + 1), record m { ref_count = m.ref_count + 1 })

-- `devfs_lookup`, over `devfs_entries`.
unfoldable pub devfs_lookup : List DevfsEntry → List ℕ → Option DevfsEntry
devfs_lookup [] path = none
devfs_lookup (entry ∷ entries) path =
    if strcmp entry.path path then some entry else devfs_lookup entries path

-- Without an entry, `devfs_stat` fails and leaves `errno` as it is.
unfoldable pub devfs_stat : List DevfsEntry → List ℕ → Option (ℕ × ℕ)
devfs_stat entries file = elim (devfs_lookup entries file) [
  | none ↦ none
  | some entry ↦ some (entry.mode, entry.dev)
]

module _ (o_creat o_excl : ℕ) (s_isdir : ℕ → Bool) where
  unfoldable pub devfs_open : List Driver → List DevfsEntry → List ℕ → ℕ → Result ℕ
  devfs_open drvs entries path flags = elim (devfs_lookup entries path) [
    | none ↦ err (if bit_and flags o_creat == 0 then enoent else erofs)
    | some entry ↦
        if bit_and flags o_excl == 0
        then (if s_isdir entry.mode then err eisdir else opendev drvs entry.dev flags)
        else err eexist
  ]

-- `memory` says whether malloc succeeds.
unfoldable pub devfs_opendir : (ℕ → Bool) → Bool → List DevfsEntry → List ℕ → Result DevfsDir
devfs_opendir s_isdir memory entries dirname = elim (devfs_lookup entries dirname) [
  | none ↦ err enoent
  | some entry ↦
      if s_isdir entry.mode
      then (if memory then ok (record { entry = entry; index = 0 }) else err enomem)
      else err enotdir
]

module _ (s_ifmt : ℕ) where
  -- What `devfs_readdir` says of an entry: nothing, unless it stands directly in the directory.
  unfoldable pub listed : List ℕ → DevfsEntry → Option Dirent
  listed path entry = elim (vfs_compare_path path entry.path) [
    | none ↦ none
    | some next ↦
        if ltb 1 (length next)
        then (elim (memchr (drop 1 next) slash) [
          | none ↦
              some (record { d_type = bit_and entry.mode s_ifmt / 2 ^ 12; d_name = drop 1 next })
          | some i ↦ none
        ])
        else none
  ]

  -- The loop of `devfs_readdir`, over the entries from `index` on.
  unfoldable pub readdir_loop : List DevfsEntry → List ℕ → ℕ → Option Dirent × ℕ
  readdir_loop [] path index = (none, index)
  readdir_loop (entry ∷ entries) path index =
      let rest = readdir_loop entries path (index + 1) in
      elim (listed path entry) [ none ↦ rest | some d ↦ (some d, index + 1) ]

  unfoldable pub devfs_readdir : List DevfsEntry → DevfsDir → Option Dirent × DevfsDir
  devfs_readdir entries dir =
      let (d, index) = readdir_loop (drop dir.index entries) dir.entry.path dir.index in
      (d, record dir { index = index })

unfoldable pub devfs_rewinddir : DevfsDir → DevfsDir
devfs_rewinddir dir = record dir { index = 0 }
