-- ===== src/Vfs/Path/Prefix.antt =====
-- What `vfs_compare_path` of morelib/vfs.c decides: whether a path is under a mount point.
use morelibc.Base.{
  ℕ, zero, suc, ◌≡◌, ◌≢◌, ◌⊎◌, ◌↔◌, subst, drop-append, refl, sym, ap, ◌∙◌, inl, inr, true, false,
  ◌||◌, some, List, [], ◌∷◌, ◌++◌, length, drop, get_or, ◌==◌, Bool-cases, NulFree, arith,
}
use morelibc.Vfs.Path.{slash, strncmp, vfs_compare_path}

-- A path is at a mount point or below it.
abbrev pub AtOrBelow : List ℕ → List ℕ → List ℕ → Type 0
AtOrBelow point path rest =
    (path ≡ point ++ rest) × ((rest ≡ []) ⊎ ((r : List ℕ) × (rest ≡ slash ∷ r)))

strncmp_prefix : (a b : List ℕ) → strncmp a b (length a) ≡ true → b ≡ a ++ drop (length a) b
unfolding strncmp
strncmp_prefix [] b e = refl
strncmp_prefix (x ∷ a) [] e = cc
strncmp_prefix (x ∷ a) (y ∷ b) e = ground (arith, strncmp_prefix a b)

strncmp_append : (a b : List ℕ) → strncmp a (a ++ b) (length a) ≡ true
unfolding strncmp
strncmp_append [] b = refl
strncmp_append (x ∷ a) b = ground (arith, strncmp_append a b)

boundary :
    (rest : List ℕ)
    → NulFree rest
    → (get_or rest 0 0 == slash || get_or rest 0 0 == 0) ≡ true
    → (rest ≡ []) ⊎ ((r : List ℕ) × (rest ≡ slash ∷ r))
boundary [] f e = inl refl
boundary (x ∷ r) f e = inr (r, ground (arith, f.0))

NulFree-drop : (n : ℕ) (xs : List ℕ) → NulFree xs → NulFree (drop n xs)
NulFree-drop zero xs f = f
NulFree-drop (suc n) [] f = tt
NulFree-drop (suc n) (x ∷ xs) f = NulFree-drop n xs f.1

-- For a mount point other than "/", `vfs_compare_path` answers with the rest of the path exactly if
-- the path is at the mount point or below it.
vfs_compare_path_lem :
    (x y : ℕ) (point path rest : List ℕ)
    → y ≢ 0
    → NulFree path
    → (vfs_compare_path (x ∷ y ∷ point) path ≡ some rest) ↔ AtOrBelow (x ∷ y ∷ point) path rest
unfolding vfs_compare_path
vfs_compare_path_lem x y point path rest n f = (to, from)
  where
    P : List ℕ
    P = x ∷ y ∷ point

    long : (y == 0) ≡ false
    long = ground arith

    to : vfs_compare_path P path ≡ some rest → AtOrBelow P path rest
    to e = elim (Bool-cases (strncmp P path (length P))) [
      | inr other ↦ absurd (cc (rw (long, other) at e))
      | inl same ↦
          elim (Bool-cases (
            get_or (drop (length P) path) 0 0 == slash || get_or (drop (length P) path) 0 0 == 0)) [
              | inr inside ↦ absurd (cc (rw (long, same, inside) at e))
              | inl ends ↦
                  let r : drop (length P) path ≡ rest = cc (rw (long, same, ends) at e) in
                  (
                    strncmp_prefix P path same ∙ ap (λ t. P ++ t) r,
                    subst (λ t. (t ≡ []) ⊎ ((u : List ℕ) × (t ≡ slash ∷ u))) r
                        (boundary (drop (length P) path) (NulFree-drop (length P) path f) ends),
                  )
            ]
    ]

    ends :
        (rest ≡ []) ⊎ ((r : List ℕ) × (rest ≡ slash ∷ r))
        → (get_or rest 0 0 == slash || get_or rest 0 0 == 0) ≡ true
    ends (inl e) = rw e
    ends (inr (r, e)) = rw e

    from : AtOrBelow P path rest → vfs_compare_path P path ≡ some rest
    from (p, b) = rw p (rw (long, strncmp_append P rest, drop-append P rest) (rw (ends b)))

-- The path of a mount point: "/", or a longer one, whose second byte is not its end.
abbrev pub IsPoint : List ℕ → Type 0
IsPoint [] = ⊥
IsPoint (x ∷ []) = x ≡ slash
IsPoint (x ∷ y ∷ point) = y ≢ 0

-- A path is under "/" if it begins with a slash, and all of it is the rest; it is under a longer mount point
-- if it is that or goes on behind it with a slash.
abbrev pub IsUnder : List ℕ → List ℕ → List ℕ → Type 0
IsUnder [] path rest = ⊥
IsUnder (x ∷ []) path rest = (path ≡ rest) × ((r : List ℕ) × (rest ≡ slash ∷ r))
IsUnder (x ∷ y ∷ point) path rest = AtOrBelow (x ∷ y ∷ point) path rest

root_lem :
    (path rest : List ℕ)
    → (vfs_compare_path (slash ∷ []) path ≡ some rest) ↔ IsUnder (slash ∷ []) path rest
unfolding vfs_compare_path strncmp
root_lem [] rest = (λ e. absurd (cc e), λ h. absurd (cc (h.0, h.1.1)))
root_lem (y ∷ r) rest = (
  λ e. elim (Bool-cases (slash == y)) [
    | inr other ↦ absurd (cc (rw (vfs_compare_path, strncmp, other) at e))
    | inl same ↦ (ground arith, (r, ground arith))
  ],
  λ h. ground arith,
)

-- `vfs_compare_path` answers with the rest of the path exactly if the path is under the mount point.
pub vfs_compare_path-IsUnder :
    (point path rest : List ℕ)
    → IsPoint point
    → NulFree path
    → (vfs_compare_path point path ≡ some rest) ↔ IsUnder point path rest
vfs_compare_path-IsUnder [] path rest h f = absurd h
vfs_compare_path-IsUnder (x ∷ []) path rest h f =
    subst (λ c. (vfs_compare_path (c ∷ []) path ≡ some rest) ↔ IsUnder (c ∷ []) path rest) (sym h)
      (root_lem path rest)
vfs_compare_path-IsUnder (x ∷ y ∷ point) path rest h f =
    vfs_compare_path_lem x y point path rest h f
