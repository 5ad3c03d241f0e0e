-- ===== src/Vfs/Mounts/Lookup.antt =====
-- What a new, a replaced and a removed entry of the mount table (morelib/vfs.c) do to the map from
-- paths to mounts.
use morelibc.Base.{
  ℕ, ◌≡◌, ◌≢◌, refl, sym, ap, ◌∙◌, inl, inr, none, some, List, [], ◌∷◌, ◌++◌, if◌then◌else◌,
  Bool-cases, All, All-append, subst,
}
use morelibc.Vfs.Mounts.{Mount, strcmp}
use morelibc.Vfs.Mounts.Table.{
  id_at, Ordered, eq_of_strcmp, ne_of_strcmp, strcmp_of_ne, others_before, others_behind,
}

-- No entry has the path.
abbrev pub Absent : List ℕ → List Mount → Type 0
Absent path = All (λ m. m.path ≢ path)

pub id_at-none : (table : List Mount) (path : List ℕ) → Absent path table → id_at table path ≡ none
id_at-none [] path a = refl
id_at-none (m ∷ table) path a = rw (strcmp_of_ne m.path path a.0) (id_at-none table path a.1)

-- Entries with other paths can be passed.
pub id_at-skip :
    (before : List Mount) (table : List Mount) (path : List ℕ)
    → Absent path before
    → id_at (before ++ table) path ≡ id_at table path
id_at-skip [] table path a = refl
id_at-skip (m ∷ before) table path a =
    rw (strcmp_of_ne m.path path a.0) (id_at-skip before table path a.1)

-- An entry behind the others decides where they say nothing.
pub id_at-middle :
    (before : List Mount) (t u : List Mount) (path : List ℕ)
    → id_at t path ≡ id_at u path
    → id_at (before ++ t) path ≡ id_at (before ++ u) path
id_at-middle [] t u path e = e
id_at-middle (m ∷ before) t u path e =
    ap (λ o. if strcmp m.path path then some m.id else o) (id_at-middle before t u path e)

pub id_at-insert :
    (before : List Mount) (new : Mount) (rest : List Mount) (q : List ℕ)
    → Absent new.path before
    → id_at (before ++ new ∷ rest) q
      ≡ (if strcmp new.path q then some new.id else id_at (before ++ rest) q)
id_at-insert before new rest q a = elim (Bool-cases (strcmp new.path q)) [
  | inl hit ↦
      let a' = subst (λ t. Absent t before) (eq_of_strcmp new.path q hit) a in
      rw hit (id_at-skip before (new ∷ rest) q a' ∙ rw hit)
  | inr miss ↦ rw miss (id_at-middle before (new ∷ rest) rest q (rw miss))
]

pub id_at-replace :
    (before : List Mount) (old new : Mount) (after : List Mount) (q : List ℕ)
    → Ordered (before ++ old ∷ after)
    → old.path ≡ new.path
    → id_at (before ++ new ∷ after) q
      ≡ (if strcmp new.path q then some new.id else id_at (before ++ old ∷ after) q)
id_at-replace before old new after q o p = elim (Bool-cases (strcmp new.path q)) [
  | inl hit ↦
      let e = p ∙ eq_of_strcmp new.path q hit in
      let a = subst (λ t. Absent t before) e (others_before before old after o) in
      rw hit (id_at-skip before (new ∷ after) q a ∙ rw hit)
  | inr miss ↦
      let miss' = strcmp_of_ne old.path q (λ e. ne_of_strcmp new.path q miss (sym p ∙ e)) in
      rw miss (id_at-middle before (new ∷ after) (old ∷ after) q (rw (miss, miss')))
]

pub id_at-remove :
    (before : List Mount) (e : Mount) (after : List Mount) (q : List ℕ)
    → Ordered (before ++ e ∷ after)
    → id_at (before ++ after) q ≡ (if strcmp e.path q then none else id_at (before ++ e ∷ after) q)
id_at-remove before e after q o = elim (Bool-cases (strcmp e.path q)) [
  | inl hit ↦
      let p = eq_of_strcmp e.path q hit in
      let b = subst (λ t. Absent t before) p (others_before before e after o) in
      let a = subst (λ t. Absent t after) p (others_behind before e after o) in
      rw hit (id_at-none (before ++ after) q (All-append _ before after b a))
  | inr miss ↦ rw miss (id_at-middle before after (e ∷ after) q (rw miss))
]
