-- ===== src/Vfs/Mounts.antt =====
-- The mount table of morelib/vfs.c. A mount object is known by a number, its address; the reference
-- counts of all are a function. What a file system's functions return is given with the call.
mod Table
mod Longest
mod Lookup
mod Refine
mod Tests
use morelibc.Base.{
  ℕ, zero, suc, ◌+◌, ◌-◌, Bool, true, false, ◌&&◌, Option, none, some, List, [], ◌∷◌, ◌++◌, length,
  ltb, ◌==◌, if◌then◌else◌, Result, ok, err, Errno, enoent, enodev, enosys, enomem, eexist, einval,
  ◌>>=◌,
}
use morelibc.Vfs.Path.{slash, vfs_compare_path, vfs_expand_path}

-- `struct vfs_mount` as it stands in the table.
pub record Mount : Type 0 where
  pub id : ℕ
  pub path : List ℕ
  pub path_len : ℕ

-- `vfs_table`, the reference counts, and the mounts that were freed, the last first: at that point
-- `umount` of the file system is called, if it has one.
pub record Mounts : Type 0 where
  pub table : List Mount
  pub refs : ℕ → ℕ
  pub freed : List ℕ

-- `struct vfs_filesystem`: `mount` is none where the function pointer is NULL, and otherwise the
-- mount that a call returns, or its error.
pub record Filesystem : Type 0 where
  pub kind : List ℕ
  pub mkfs : Option (Result (Unit {0}))
  pub mount : Option (Result ℕ)

-- `strcmp(a, b) == 0`.
abbrev pub strcmp : List ℕ → List ℕ → Bool
strcmp [] [] = true
strcmp [] (y ∷ b) = false
strcmp (x ∷ a) [] = false
strcmp (x ∷ a) (y ∷ b) = x == y && strcmp a b

abbrev pub update {ℓ} : {A : Type ℓ} → (ℕ → A) → ℕ → A → ℕ → A
update f i v j = if i == j then v else f j

unfoldable pub vfs_lookup_filesystem : List Filesystem → List ℕ → Option Filesystem
vfs_lookup_filesystem [] type = none
vfs_lookup_filesystem (fs ∷ fss) type =
    if strcmp fs.kind type then some fs else vfs_lookup_filesystem fss type

-- The loop of `vfs_acquire_mount`: the first mount that the path is below, and the rest of the path.
unfoldable pub find_mount : List Mount → List ℕ → Option (Mount × List ℕ)
find_mount [] path = none
find_mount (entry ∷ table) path = elim (vfs_compare_path entry.path path) [
  | some next ↦ some (entry, next)
  | none ↦ find_mount table path
]

unfoldable pub root_if_empty : List ℕ → List ℕ
root_if_empty [] = slash ∷ []
root_if_empty (x ∷ next) = x ∷ next

-- `vfs_acquire_mount`: the mount, the path below it, and the count taken.
unfoldable pub vfs_acquire_mount :
    Option (List ℕ) → List ℕ → List ℕ → Mounts → Result (Mount × List ℕ × Mounts)
vfs_acquire_mount cwd buf file s = vfs_expand_path cwd buf file >>= λ path.
    elim (find_mount s.table path) [
      | none ↦ err enoent
      | some (entry, next) ↦ ok (
        entry,
        root_if_empty next,
        record s { refs = update s.refs entry.id (s.refs entry.id + 1) },
      )
    ]

unfoldable pub vfs_release_mount : ℕ → Mounts → Mounts
vfs_release_mount id s =
    let ref_count = s.refs id in
    record s {
      refs = update s.refs id (ref_count - 1);
      freed = if ref_count == 1 then id ∷ s.freed else s.freed;
    }

-- `vfs_mount_lookup`: whether the path is a mount point, and the table parted at the link that is
-- returned: in front of the entry, or where it belongs.
unfoldable pub vfs_mount_lookup : List Mount → List ℕ → Bool × List Mount × List Mount
vfs_mount_lookup [] path = (false, [], [])
vfs_mount_lookup (entry ∷ table) path =
    let (found, before, rest) = vfs_mount_lookup table path in
    if strcmp entry.path path
    then (true, [], entry ∷ table)
    else if ltb entry.path_len (length path)
    then (false, [], entry ∷ table)
    else (found, entry ∷ before, rest)

unfoldable pub mkfs : List Filesystem → List ℕ → Result (Unit {0})
mkfs fss type = elim (vfs_lookup_filesystem fss type) [
  | none ↦ err enodev
  | some fs ↦ elim fs.mkfs [ none ↦ err enosys | some result ↦ result ]
]

-- The part of `mount` under the lock, once the path is looked up: the new mount goes into the table,
-- takes the place of another (which is released), or is refused (and is released itself).
unfoldable pub insert_at :
    Mount → Bool → Mounts → Bool × List Mount × List Mount → Result (Unit {0}) × Mounts
insert_at new remount s (false, before, rest) = (ok tt, record s { table = before ++ new ∷ rest })
insert_at new remount s (true, before, []) = (ok tt, s)
insert_at new true s (true, before, old ∷ after) =
    (ok tt, vfs_release_mount old.id (record s { table = before ++ new ∷ after }))
insert_at new false s (true, before, old ∷ after) = (err eexist, vfs_release_mount new.id s)

unfoldable pub insert_mount : Mount → Bool → Mounts → Result (Unit {0}) × Mounts
unfolding insert_at
insert_mount new remount s = insert_at new remount s (vfs_mount_lookup s.table new.path)

-- `mount`. `malloc_path` says whether the copy of the path is allocated; a new mount has one count.
unfoldable pub mount :
    Option (List ℕ)
    → List ℕ
    → List Filesystem
    → Bool
    → List ℕ
    → List ℕ
    → Bool
    → Mounts
    → Result (Unit {0}) × Mounts
mount cwd buf fss malloc_path target type remount s = elim (vfs_lookup_filesystem fss type) [
  | none ↦ (err enodev, s)
  | some fs ↦ elim (vfs_expand_path cwd buf target) [
    | err e ↦ (err e, s)
    | ok path ↦ elim fs.mount [
      | none ↦ (err enosys, s)
      | some (err e) ↦ (err e, s)
      | some (ok id) ↦
          let s' : Mounts = record s { refs = update s.refs id 1 } in
          if malloc_path
          then insert_mount (record { id = id; path = path; path_len = length path }) remount s'
          else (err enomem, vfs_release_mount id s')
    ]
  ]
]

unfoldable pub remove_at : Mounts → Bool × List Mount × List Mount → Result (Unit {0}) × Mounts
remove_at s (false, before, rest) = (err einval, s)
remove_at s (true, before, []) = (ok tt, s)
remove_at s (true, before, vfs ∷ after) =
    (ok tt, vfs_release_mount vfs.id (record s { table = before ++ after }))

-- `umount` takes its path as it is given.
unfoldable pub umount : List ℕ → Mounts → Result (Unit {0}) × Mounts
unfolding remove_at
umount path s = remove_at s (vfs_mount_lookup s.table path)
