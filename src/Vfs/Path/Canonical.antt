-- ===== src/Vfs/Path/Canonical.antt =====
-- `vfs_expand_path` (morelib/vfs.c) against a description of its result by segments.
use morelibc.Base.{
  ℕ, suc, ◌≤◌, ◌≡◌, refl, ap, ◌∙◌, ◌≢◌, inl, inr, true, false, Option, none, some, List, [], ◌∷◌,
  ◌++◌, append_assoc, length, drop, ltb, leb, ◌==◌, if◌then◌else◌, Bool-cases, store, store-append,
  length-store, length-drop, length-append, NulFree, NulFree-append, Result, ok, err, enametoolong,
  ◌>>=◌, arith,
}
use morelibc.Vfs.Path.{slash, Cursor, finish, start_relative, vfs_expand_path}
use morelibc.Vfs.Path.Segments.{segments, cons_head, expand_path-segments}
use morelibc.Vfs.Path.Expand.{
  is_skipped, NoDotDot, joined, rooted, Holds, Outcome, run-Outcome, finish-rooted,
}

abbrev AllNulFree : List (List ℕ) → Type 0
AllNulFree [] = Unit {0}
AllNulFree (s ∷ ss) = NulFree s × AllNulFree ss

cons_head-AllNulFree :
    (x : ℕ) (ss : List (List ℕ)) → x ≢ 0 → AllNulFree ss → AllNulFree (cons_head x ss)
cons_head-AllNulFree x [] n f = ((n, tt), tt)
cons_head-AllNulFree x (s ∷ ss) n f = ((n, f.0), f.1)

segments-AllNulFree : (path : List ℕ) → NulFree path → AllNulFree (segments path)
segments-AllNulFree [] f = (tt, tt)
segments-AllNulFree (x ∷ path) f = elim (Bool-cases (x == slash)) [
  | inl here ↦ rw here (tt, segments-AllNulFree path f.1)
  | inr on ↦ rw on (cons_head-AllNulFree x (segments path) f.0 (segments-AllNulFree path f.1))
]

joined-NulFree : (ss : List (List ℕ)) → AllNulFree ss → NulFree (joined ss)
joined-NulFree [] f = tt
joined-NulFree (s ∷ ss) f = elim (Bool-cases (is_skipped s)) [
  | inl skip ↦ rw skip (joined-NulFree ss f.1)
  | inr keep ↦ rw keep (omega arith, NulFree-append s (joined ss) f.0 (joined-NulFree ss f.1))
]

-- What a relative path is put behind: the current directory, unless it is "/".
abbrev pub base : Option (List ℕ) → List ℕ
base none = []
base (some cwd) = if ltb 1 (length cwd) then cwd else []

abbrev pub CwdIsValid : Option (List ℕ) → Type 0
CwdIsValid none = Unit {0}
CwdIsValid (some cwd) = NulFree cwd × (length cwd ≤ 253)

-- The text that a path stands for.
abbrev pub expanded : Option (List ℕ) → ℕ → List ℕ → List ℕ
expanded cwd x path = (if x == slash then [] else base cwd) ++ joined (segments (x ∷ path))

start-Holds :
    (cwd : Option (List ℕ)) (buf : List ℕ)
    → length buf ≡ 254
    → CwdIsValid cwd
    → Holds (start_relative cwd buf) (base cwd)
unfolding start_relative
start-Holds none buf e v = record { rest = buf; text = refl; out = refl; room = omega arith }
start-Holds (some cwd) buf e v = elim (Bool-cases (ltb 1 (length cwd))) [
  | inl long ↦ rw long (record {
    rest = 0 ∷ drop (suc (length cwd)) buf;
    text =
        store-append (cwd ++ 0 ∷ []) [] buf 0 refl (omega (arith, v.1, length-append cwd (0 ∷ [])))
        ∙ ap (λ n. (cwd ++ 0 ∷ []) ++ drop n buf)
            (let e : length (cwd ++ 0 ∷ []) ≡ suc (length cwd) =
                omega (arith, length-append cwd (0 ∷ [])) in
              e)
        ∙ append_assoc cwd (0 ∷ []) (drop (suc (length cwd)) buf);
    out = refl;
    room = omega (arith, v.1, length-drop (suc (length cwd)) buf);
  })
  | inr short ↦ rw short (record { rest = buf; text = refl; out = refl; room = omega arith })
]

Outcome-result :
    (r : Result Cursor) (a : List ℕ)
    → Outcome r a
    → NulFree a
    → (r >>= λ c. ok (finish c)) ≡ (if leb (length a) 253 then ok (rooted a) else err enametoolong)
Outcome-result r a (inl (fits, (c, e, h))) f =
    let test : leb (length a) 253 ≡ true = ground arith in
    rw (e, test) (ap ok (finish-rooted c a h fits f))
Outcome-result r a (inr (over, e)) f =
    let test : leb (length a) 253 ≡ false = ground arith in rw (e, test)

begun-Holds :
    (buf : List ℕ) → length buf ≡ 254 → Holds (record { buf = store buf 0 (0 ∷ []); out = 0 }) []
begun-Holds buf e = record {
  rest = store buf 0 (0 ∷ []);
  text = refl;
  out = refl;
  room = omega (arith, length-store buf 0 (0 ∷ []));
}

base-NulFree : (cwd : Option (List ℕ)) → CwdIsValid cwd → NulFree (base cwd)
base-NulFree none v = tt
base-NulFree (some cwd) v = elim (Bool-cases (ltb 1 (length cwd))) [
  | inl long ↦ rw long v.0
  | inr short ↦ rw short tt
]

base-le : (cwd : Option (List ℕ)) → CwdIsValid cwd → length (base cwd) ≤ 253
base-le none v = omega arith
base-le (some cwd) v = ground (arith, v.1)

-- Whatever is in the buffer: a path that is not empty and has no ".." segment expands to its segments, the empty ones and
-- "." left out, each behind a slash, after the current directory if the path is relative; to "/" if
-- that is empty. If it is longer than 253 bytes the call fails with ENAMETOOLONG instead.
pub vfs_expand_path_lem :
    (cwd : Option (List ℕ)) (buf : List ℕ) (x : ℕ) (path : List ℕ)
    → length buf ≡ 254
    → CwdIsValid cwd
    → NulFree (x ∷ path)
    → NoDotDot (segments (x ∷ path))
    → vfs_expand_path cwd buf (x ∷ path) ≡ (
        if leb (length (expanded cwd x path)) 253
        then ok (rooted (expanded cwd x path))
        else err enametoolong)
vfs_expand_path_lem cwd buf x path e v f d =
    let begun = store buf 0 (0 ∷ []) in
    let clean = joined-NulFree (segments (x ∷ path)) (segments-AllNulFree (x ∷ path) f) in
    expand_path-segments cwd buf x path ∙ elim (Bool-cases (x == slash)) [
      | inl absolute ↦
          let d' = rw absolute at d in
          rw absolute (
            Outcome-result _ (joined (segments path))
              (run-Outcome _ [] (segments path) (begun-Holds buf e) (omega arith) d'.1)
              (joined-NulFree (segments path) (segments-AllNulFree path f.1)))
      | inr relative ↦
          let d' = rw relative at d in
          let c' = rw relative at clean in
          rw relative (
            Outcome-result _ (base cwd ++ joined (cons_head x (segments path)))
              (run-Outcome _ (base cwd) (cons_head x (segments path))
                (start-Holds cwd begun (omega (arith, length-store buf 0 (0 ∷ []))) v)
                (base-le cwd v) d')
              (NulFree-append (base cwd) _ (base-NulFree cwd v) c'))
    ]
