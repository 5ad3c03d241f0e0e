-- ===== src/Vfs/Mounts/Tests.antt =====
-- Runs of the mount table of morelib/vfs.c, and the theorems about it at concrete inputs.
use morelibc.Base.{
  ℕ, ◌≡◌, ◌⊎◌, ◌++◌, refl, true, false, none, some, List, [], ◌∷◌, replicate, store, c_string, ok,
  err, enoent, eexist, if◌then◌else◌, arith,
}
use morelibc.Vfs.Path.{
  slash, strchrnul, strncmp, strrchr, vfs_compare_path, expand_step, expand_loop, finish,
  vfs_expand_path,
}
use morelibc.Vfs.Mounts.{
  Mount, Mounts, strcmp, update, vfs_acquire_mount, vfs_release_mount, insert_mount,
  vfs_mount_lookup, vfs_lookup_filesystem, mount, umount,
}
use morelibc.Vfs.Mounts.Table.{id_at, Ordered}
use morelibc.Vfs.Mounts.Refine.{Inserted, insert_mount_refines, umount_refines}
use morelibc.Vfs.Mounts.Longest.{Nowhere, or_root, Longest, vfs_acquire_mount-Longest}

-- "/dev"
abbrev dev : List ℕ
dev = slash ∷ b'd' ∷ b'e' ∷ b'v' ∷ []

-- "/dev/x"
abbrev file : List ℕ
file = slash ∷ b'd' ∷ b'e' ∷ b'v' ∷ slash ∷ b'x' ∷ []

abbrev dev_mount : Mount
dev_mount = record { id = 1; path = dev; path_len = 4 }

abbrev root_mount : Mount
root_mount = record { id = 2; path = slash ∷ []; path_len = 1 }

abbrev mounted : Mounts
mounted = record { table = dev_mount ∷ root_mount ∷ []; refs = λ i. 1; freed = [] }

mounted-Ordered : Ordered mounted.table
mounted-Ordered = (refl, ((omega arith, λ e. cc e), tt), (refl, tt, tt))

-- A second mount on "/dev" is refused, and the mount object is freed again.
mount_again :
    mount none
      (replicate 254 0)
      (record { kind = b'f' ∷ []; mkfs = none; mount = some (ok 3) } ∷ [])
      true
      dev
      (b'f' ∷ [])
      false
      mounted
    ≡ (err eexist, record mounted { refs = update (update mounted.refs 3 1) 3 0; freed = 3 ∷ [] })
unfolding mount vfs_lookup_filesystem insert_mount vfs_mount_lookup vfs_release_mount
    vfs_expand_path expand_loop expand_step strchrnul strncmp strrchr finish store c_string
mount_again = refl

abbrev new_mount : Mount
new_mount = record { id = 3; path = dev; path_len = 4 }

insert_mount_refines_example :
    Inserted new_mount true mounted.table
      (insert_mount new_mount true mounted).0
      (insert_mount new_mount true mounted).1.table
insert_mount_refines_example = insert_mount_refines new_mount true mounted mounted-Ordered refl

umount_refines_example :
    Ordered (umount dev mounted).1.table
    × ((umount dev mounted).0 ≡ ok tt)
    × ((q : List ℕ)
        → id_at (umount dev mounted).1.table q
          ≡ (if strcmp dev q then none else id_at mounted.table q))
umount_refines_example = umount_refines dev mounted mounted-Ordered

-- "/dev" is no mount point of "/device".
near_miss : vfs_compare_path dev (dev ++ b'i' ∷ b'c' ∷ b'e' ∷ []) ≡ none
unfolding vfs_compare_path strncmp
near_miss = refl

vfs_acquire_mount-Longest_example :
    ((vfs_acquire_mount none (replicate 254 0) file mounted ≡ err enoent)
      × Nowhere mounted.table file)
    ⊎ ((e : Mount) × (next : List ℕ) × (vfs_acquire_mount none (replicate 254 0) file mounted
          ≡ ok (e, or_root next, record mounted { refs = update mounted.refs e.id 2 }))
        × Longest mounted.table file e next)
unfolding vfs_expand_path expand_loop expand_step strchrnul strncmp strrchr finish store c_string
vfs_acquire_mount-Longest_example =
    vfs_acquire_mount-Longest none (replicate 254 0) file file mounted mounted-Ordered
      (omega arith, (refl, tt)) refl
      (omega arith, (omega arith, (omega arith, (omega arith, (omega arith, (omega arith, tt))))))
