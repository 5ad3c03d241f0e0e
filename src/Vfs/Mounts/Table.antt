-- ===== src/Vfs/Mounts/Table.antt =====
-- The mount table of morelib/vfs.c as a map from paths, and the order that it is kept in.
use morelibc.Base.{
  ℕ, ◌≤◌, ◌<◌, ◌≡◌, ◌≢◌, ◌⊎◌, refl, sym, ap, ◌∙◌, inl, inr, Bool, true, false, Option, none, some,
  List, [], ◌∷◌, ◌++◌, length, ltb, if◌then◌else◌, Bool-cases, All, All-append, All-left, All-right,
  All-map, arith,
}
use morelibc.Vfs.Mounts.{Mount, strcmp, vfs_mount_lookup}

pub strcmp_refl : (a : List ℕ) → strcmp a a ≡ true
strcmp_refl [] = refl
strcmp_refl (x ∷ a) = ground (arith, strcmp_refl a)

pub eq_of_strcmp : (a b : List ℕ) → strcmp a b ≡ true → a ≡ b
eq_of_strcmp [] [] e = refl
eq_of_strcmp [] (y ∷ b) e = cc
eq_of_strcmp (x ∷ a) [] e = cc
eq_of_strcmp (x ∷ a) (y ∷ b) e = ground (arith, eq_of_strcmp a b)

pub ne_of_strcmp : (a b : List ℕ) → strcmp a b ≡ false → a ≢ b
ne_of_strcmp a b e p = cc (strcmp_refl a, ap (λ c. strcmp a c) p)

pub strcmp_of_ne : (a b : List ℕ) → a ≢ b → strcmp a b ≡ false
strcmp_of_ne a b n = elim (Bool-cases (strcmp a b)) [
  | inl e ↦ absurd (n (eq_of_strcmp a b e))
  | inr e ↦ e
]

-- The mount at a path.
abbrev pub id_at : List Mount → List ℕ → Option ℕ
id_at [] path = none
id_at (m ∷ table) path = if strcmp m.path path then some m.id else id_at table path

-- A later entry has no longer a path, and another one.
abbrev pub Below : Mount → Mount → Type 0
Below m n = (n.path_len ≤ m.path_len) × (n.path ≢ m.path)

abbrev pub Ordered : List Mount → Type 0
Ordered [] = Unit {0}
Ordered (m ∷ table) = (m.path_len ≡ length m.path) × All (Below m) table × Ordered table

-- What `vfs_mount_lookup` finds out about a path: the entry, or the place for one.
abbrev Entry : List Mount → List ℕ → Bool × List Mount × List Mount → Type 0
Entry table path r =
    (before : List Mount) × (e : Mount) × (after : List Mount) × (r ≡ (true, before, e ∷ after))
    × (table ≡ before ++ e ∷ after)
    × (e.path ≡ path)

abbrev Place : List Mount → List ℕ → Bool × List Mount × List Mount → Type 0
Place table path r =
    (before : List Mount) × (rest : List Mount) × (r ≡ (false, before, rest))
    × (table ≡ before ++ rest)
    × All (λ m. (length path ≤ m.path_len) × (m.path ≢ path)) before
    × All (λ m. (m.path_len ≤ length path) × (m.path ≢ path)) rest

shorter_rest :
    (table : List Mount) (path : List ℕ) (k : ℕ)
    → Ordered table
    → All (λ n. n.path_len ≤ k) table
    → k < length path
    → All (λ m. (m.path_len ≤ length path) × (m.path ≢ path)) table
shorter_rest [] path k o b h = tt
shorter_rest (m ∷ table) path k o b h = (
  (omega (arith, b.0), λ e. absurd (omega (arith, o.0, b.0, ap (λ (p : List ℕ). length p) e))),
  shorter_rest table path k o.2 b.1 h,
)

pub vfs_mount_lookup_lem :
    (table : List Mount) (path : List ℕ)
    → Ordered table
    → Entry table path (vfs_mount_lookup table path)
      ⊎ Place table path (vfs_mount_lookup table path)
unfolding vfs_mount_lookup
vfs_mount_lookup_lem [] path o = inr ([], [], refl, refl, tt, tt)
vfs_mount_lookup_lem (m ∷ table) path o = elim (Bool-cases (strcmp m.path path)) [
  | inl here ↦ rw here (inl ([], m, table, refl, refl, eq_of_strcmp m.path path here))
  | inr other ↦ elim (Bool-cases (ltb m.path_len (length path))) [
    | inl short ↦
        rw (other, short)
          (inr (
            [],
            m ∷ table,
            refl,
            refl,
            tt,
            shorter_rest (m ∷ table) path m.path_len o
                (
                  omega arith,
                  All-map (Below m) (λ n. n.path_len ≤ m.path_len) table (λ n b. b.0) o.1,
                )
                (ground arith),
          ))
    | inr long ↦
        rw (other, long)
          (elim (vfs_mount_lookup_lem table path o.2) [
            | inl (before, e, after, r, t, p) ↦
                inl (m ∷ before, e, after, rw r, ap (λ l. m ∷ l) t, p)
            | inr (before, rest, r, t, b, q) ↦ inr (
              m ∷ before,
              rest,
              rw r,
              ap (λ l. m ∷ l) t,
              ((ground arith, ne_of_strcmp m.path path other), b),
              q,
            )
          ])
  ]
]

-- A new entry in its place, an entry taken out, and one put for another.
pub Ordered-insert :
    (before : List Mount) (new : Mount) (rest : List Mount)
    → Ordered (before ++ rest)
    → new.path_len ≡ length new.path
    → All (λ m. (length new.path ≤ m.path_len) × (m.path ≢ new.path)) before
    → All (λ m. (m.path_len ≤ length new.path) × (m.path ≢ new.path)) rest
    → Ordered (before ++ new ∷ rest)
Ordered-insert [] new rest o e b r =
    (e, All-map _ (Below new) rest (λ m q. (omega (arith, e, q.0), q.1)) r, o)
Ordered-insert (m ∷ before) new rest o e b r = (
  o.0,
  All-append (Below m) before (new ∷ rest) (All-left (Below m) before rest o.1)
      ((omega (arith, e, b.0.0), λ p. b.0.1 (sym p)), All-right (Below m) before rest o.1),
  Ordered-insert before new rest o.2 e b.1 r,
)

pub Ordered-remove :
    (before : List Mount) (e : Mount) (after : List Mount)
    → Ordered (before ++ e ∷ after)
    → Ordered (before ++ after)
Ordered-remove [] e after o = o.2
Ordered-remove (m ∷ before) e after o = (
  o.0,
  All-append (Below m) before after (All-left (Below m) before (e ∷ after) o.1)
      (All-right (Below m) before (e ∷ after) o.1).1,
  Ordered-remove before e after o.2,
)

entry_len :
    (before : List Mount) (e : Mount) (after : List Mount)
    → Ordered (before ++ e ∷ after)
    → e.path_len ≡ length e.path
entry_len [] e after o = o.0
entry_len (m ∷ before) e after o = entry_len before e after o.2

pub Ordered-replace :
    (before : List Mount) (old new : Mount) (after : List Mount)
    → Ordered (before ++ old ∷ after)
    → new.path_len ≡ length new.path
    → old.path ≡ new.path
    → Ordered (before ++ new ∷ after)
Ordered-replace [] old new after o e p = (
  e,
  All-map (Below old) (Below new) after
      (λ n b. (omega (arith, b.0, o.0, e, ap (λ (q : List ℕ). length q) p), λ q. b.1 (q ∙ sym p)))
      o.1,
  o.2,
)
Ordered-replace (m ∷ before) old new after o e p =
    let tail = All-right (Below m) before (old ∷ after) o.1 in
    let same = ap (λ (q : List ℕ). length q) p in
    (
      o.0,
      All-append (Below m) before (new ∷ after) (All-left (Below m) before (old ∷ after) o.1) (
        (omega (arith, tail.0.0, entry_len before old after o.2, e, same), λ q. tail.0.1 (p ∙ q)),
        tail.1,
      ),
      Ordered-replace before old new after o.2 e p,
    )

-- The entries before one in the table have other paths, and so have those behind it.
pub others_before :
    (before : List Mount) (e : Mount) (after : List Mount)
    → Ordered (before ++ e ∷ after)
    → All (λ m. m.path ≢ e.path) before
others_before [] e after o = tt
others_before (m ∷ before) e after o = (
  λ q. (All-right (Below m) before (e ∷ after) o.1).0.1 (sym q),
  others_before before e after o.2,
)

pub others_behind :
    (before : List Mount) (e : Mount) (after : List Mount)
    → Ordered (before ++ e ∷ after)
    → All (λ m. m.path ≢ e.path) after
others_behind [] e after o = All-map (Below e) _ after (λ n b. b.1) o.1
others_behind (m ∷ before) e after o = others_behind before e after o.2
