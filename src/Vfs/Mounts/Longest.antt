-- ===== src/Vfs/Mounts/Longest.antt =====
-- Which mount `vfs_acquire_mount` (morelib/vfs.c) finds for a path.
use morelibc.Base.{
  ℕ, ◌+◌, ◌≤◌, ◌≡◌, ◌⊎◌, refl, ap, inl, inr, Option, none, some, Option-cases, List, [], ◌∷◌, ◌++◌,
  length, All, All-map, NulFree, ok, err, enoent, arith,
}
use morelibc.Vfs.Path.{slash, vfs_compare_path, vfs_expand_path}
use morelibc.Vfs.Path.Prefix.{IsPoint, IsUnder, vfs_compare_path-IsUnder}
use morelibc.Vfs.Mounts.{Mount, Mounts, update, find_mount, root_if_empty, vfs_acquire_mount}
use morelibc.Vfs.Mounts.Table.{Below, Ordered}

-- The entry is the one of the table that the path is under, and no longer one is so.
pub record Longest (table : List Mount) (path : List ℕ) (e : Mount) (next : List ℕ) : Type 0 where
  pub before : List Mount
  pub after : List Mount
  pub in_table : table ≡ before ++ e ∷ after
  pub under : IsUnder e.path path next
  pub longest :
      All (λ m. (rest : List ℕ) → IsUnder m.path path rest → length m.path ≤ length e.path) table

-- The path is under no mount point.
abbrev pub Nowhere : List Mount → List ℕ → Type 0
Nowhere table path = All (λ m. (rest : List ℕ) → ¬ IsUnder m.path path rest) table

-- The rest of a path, which is "/" if nothing is left.
abbrev pub or_root : List ℕ → List ℕ
or_root [] = slash ∷ []
or_root (x ∷ next) = x ∷ next

shorter :
    (m : Mount) (table : List Mount)
    → m.path_len ≡ length m.path
    → Ordered table
    → All (Below m) table
    → All (λ n. length n.path ≤ length m.path) table
shorter m [] e o b = tt
shorter m (n ∷ table) e o b = (omega (arith, e, o.0, b.0.0), shorter m table e o.2 b.1)

find_mount_lem :
    (table : List Mount) (path : List ℕ)
    → Ordered table
    → All (λ m. IsPoint m.path) table
    → NulFree path
    → ((find_mount table path ≡ none) × Nowhere table path)
      ⊎ ((e : Mount) × (next : List ℕ) × (find_mount table path ≡ some (e, next))
          × Longest table path e next)
unfolding find_mount
find_mount_lem [] path o ps f = inl (refl, tt)
find_mount_lem (m ∷ table) path o ps f = elim (Option-cases (vfs_compare_path m.path path)) [
  | inl miss ↦
      let not_here : (rest : List ℕ) → ¬ IsUnder m.path path rest =
        λ rest u. cc (miss, (vfs_compare_path-IsUnder m.path path rest ps.0 f).1 u) in
      elim (find_mount_lem table path o.2 ps.1 f) [
        | inl (e, all) ↦ inl (rw (miss, find_mount) e, (not_here, all))
        | inr (e, next, found, l) ↦ inr (
          e,
          next,
          rw (miss, find_mount) found,
          record {
            before = m ∷ l.before;
            after = l.after;
            in_table = ap (λ t. m ∷ t) l.in_table;
            under = l.under;
            longest = ((λ rest u. absurd (not_here rest u)), l.longest);
          },
        )
      ]
  | inr (next, hit) ↦ inr (
    m,
    next,
    rw (hit, find_mount),
    record {
      before = [];
      after = table;
      in_table = refl;
      under = (vfs_compare_path-IsUnder m.path path next ps.0 f).0 hit;
      longest = (
        (λ rest u. omega arith),
        All-map (λ n. length n.path ≤ length m.path) _ table (λ n b rest u. b)
            (shorter m table o.0 o.2 o.1),
      );
    },
  )
]

root_if_empty_lem : (next : List ℕ) → root_if_empty next ≡ or_root next
unfolding root_if_empty
root_if_empty_lem [] = refl
root_if_empty_lem (x ∷ next) = refl

-- Over a table in order, of paths of mount points, `vfs_acquire_mount` fails with ENOENT if the expanded path
-- is under no mount point. Otherwise it gives a mount of the table that the path is under, none longer being
-- so, with the rest of the path, "/" if that is empty, and takes one count of that mount.
pub vfs_acquire_mount-Longest :
    (cwd : Option (List ℕ)) (buf file path : List ℕ) (s : Mounts)
    → Ordered s.table
    → All (λ m. IsPoint m.path) s.table
    → vfs_expand_path cwd buf file ≡ ok path
    → NulFree path
    → ((vfs_acquire_mount cwd buf file s ≡ err enoent) × Nowhere s.table path)
      ⊎ ((e : Mount) × (next : List ℕ) × (vfs_acquire_mount cwd buf file s
            ≡ ok (e, or_root next, record s { refs = update s.refs e.id (s.refs e.id + 1) }))
          × Longest s.table path e next)
unfolding vfs_acquire_mount
vfs_acquire_mount-Longest cwd buf file path s o ps p f = elim (find_mount_lem s.table path o ps f) [
  | inl (e, all) ↦ inl (ground arith, all)
  | inr (m, next, found, l) ↦ let root = root_if_empty_lem next in inr (m, next, ground arith, l)
]
