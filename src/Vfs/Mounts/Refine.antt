-- ===== src/Vfs/Mounts/Refine.antt =====
-- `mount` and `umount` of morelib/vfs.c against a map from paths to mounts.
use morelibc.Base.{
  ℕ, ◌≤◌, ◌≡◌, ◌≢◌, sym, ap, ◌∙◌, inl, inr, Bool, true, false, not, ◌&&◌, Option, none, some, List,
  ◌∷◌, ◌++◌, length, if◌then◌else◌, Bool-cases, All, All-append, All-map, subst, Result, ok, err,
  eexist, einval,
}
use morelibc.Vfs.Mounts.{Mount, Mounts, strcmp, vfs_release_mount, insert_mount, umount}
use morelibc.Vfs.Mounts.Table.{
  id_at, Ordered, strcmp_refl, eq_of_strcmp, vfs_mount_lookup_lem, Ordered-insert, Ordered-remove,
  Ordered-replace, others_before,
}
use morelibc.Vfs.Mounts.Lookup.{
  Absent, id_at-skip, id_at-none, id_at-insert, id_at-replace, id_at-remove,
}

abbrev pub is_some {ℓ} : {A : Type ℓ} → Option A → Bool
is_some none = false
is_some (some a) = true

module _ (before : List Mount) (e : Mount) (after : List Mount)
    (o : Ordered (before ++ e ∷ after)) where
  id_at-entry : (path : List ℕ) → e.path ≡ path → id_at (before ++ e ∷ after) path ≡ some e.id
  id_at-entry path p =
      id_at-skip before (e ∷ after) path
        (subst (λ t. Absent t before) p (others_before before e after o))
      ∙ ap (λ b. if b then some e.id else id_at after path)
          (ap (λ t. strcmp t path) p ∙ strcmp_refl path)

-- The table after a new mount, and what the call returns.
abbrev pub Inserted : Mount → Bool → List Mount → Result (Unit {0}) → List Mount → Type 0
Inserted new remount t r t' =
    let refused = is_some (id_at t new.path) && not remount in
    Ordered t'
    × (r ≡ (if refused then err eexist else ok tt))
    × ((q : List ℕ)
        → id_at t' q
          ≡ (if refused then id_at t q else if strcmp new.path q then some new.id else id_at t q))

Inserted-entry :
    (new e : Mount) (before after : List Mount) (o : Ordered (before ++ e ∷ after))
    → new.path_len ≡ length new.path
    → e.path ≡ new.path
    → Inserted new true (before ++ e ∷ after) (ok tt) (before ++ new ∷ after)
      × Inserted new false (before ++ e ∷ after) (err eexist) (before ++ e ∷ after)
Inserted-entry new e before after o l p =
    let known = id_at-entry before e after o new.path p in
    (
      (
        Ordered-replace before e new after o l p,
        rw known,
        λ q. rw known (id_at-replace before e new after q o p),
      ),
      (o, rw known, λ q. rw known),
    )

Inserted-place :
    (new : Mount) (remount : Bool) (before rest : List Mount)
    → Ordered (before ++ rest)
    → new.path_len ≡ length new.path
    → All (λ m. (length new.path ≤ m.path_len) × (m.path ≢ new.path)) before
    → All (λ m. (m.path_len ≤ length new.path) × (m.path ≢ new.path)) rest
    → Inserted new remount (before ++ rest) (ok tt) (before ++ new ∷ rest)
Inserted-place new remount before rest o l b a =
    let absent = All-map _ (λ (m : Mount). m.path ≢ new.path) before (λ m h. h.1) b in
    let none_yet =
      id_at-none (before ++ rest) new.path
        (All-append _ before rest absent (All-map _ _ rest (λ m h. h.1) a)) in
    (
      Ordered-insert before new rest o l b a,
      rw none_yet,
      λ q. rw none_yet (id_at-insert before new rest q absent),
    )

-- What `mount` does with a new mount, by what the table says of its path: an unused path is given
-- to it; a used one is, with MS_REMOUNT, and else the call fails with EEXIST and the table stays.
-- No other path changes its mount, and the table stays in order.
pub insert_mount_refines :
    (new : Mount) (remount : Bool) (s : Mounts)
    → Ordered s.table
    → new.path_len ≡ length new.path
    → Inserted new remount s.table
        (insert_mount new remount s).0
        (insert_mount new remount s).1.table
unfolding insert_mount vfs_release_mount
insert_mount_refines new remount s o l = elim (vfs_mount_lookup_lem s.table new.path o) [
  | inl (before, e, after, r, t, p) ↦
      let both = Inserted-entry new e before after (subst Ordered t o) l p in
      elim (Bool-cases remount) [
        | inl on ↦ rw (r, on) (rw t both.0)
        | inr off ↦ rw (r, off) (rw t both.1)
      ]
  | inr (before, rest, r, t, b, a) ↦
      rw r (rw t (Inserted-place new remount before rest (subst Ordered t o) l b a))
]

absent_anyway :
    (table : List Mount) (path q : List ℕ)
    → id_at table path ≡ none
    → id_at table q ≡ (if strcmp path q then none else id_at table q)
absent_anyway table path q e = elim (Bool-cases (strcmp path q)) [
  | inl same ↦ rw same (ap (id_at table) (sym (eq_of_strcmp path q same)) ∙ e)
  | inr other ↦ rw other
]

-- `umount` takes the mount at the path out of the table, which keeps all others and its order, and
-- fails with EINVAL, the table as it was, if there is none.
pub umount_refines :
    (path : List ℕ) (s : Mounts)
    → Ordered s.table
    → let (r, s') = umount path s in
      Ordered s'.table
      × (r ≡ (if is_some (id_at s.table path) then ok tt else err einval))
      × ((q : List ℕ) → id_at s'.table q ≡ (if strcmp path q then none else id_at s.table q))
unfolding umount vfs_release_mount
umount_refines path s o = elim (vfs_mount_lookup_lem s.table path o) [
  | inl (before, e, after, r, t, p) ↦
      let o' = subst Ordered t o in
      rw r (
        rw t (
          Ordered-remove before e after o',
          rw (id_at-entry before e after o' path p),
          λ q.
              id_at-remove before e after q o'
              ∙ ap (λ u. if strcmp u q then none else id_at (before ++ e ∷ after) q) p,
        ))
  | inr (before, rest, r, t, b, a) ↦
      let none_yet = id_at-none (before ++ rest) path (
        All-append _ before rest (All-map _ (λ (m : Mount). m.path ≢ path) before (λ m h. h.1) b)
          (All-map _ _ rest (λ m h. h.1) a)) in
      rw (r, t)
        (subst Ordered t o, rw none_yet, λ q. absent_anyway (before ++ rest) path q none_yet)
]
