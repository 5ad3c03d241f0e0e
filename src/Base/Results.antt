-- ===== src/Base/Results.antt =====
-- What a fallible function of the library returns: a value, or -1 with `errno` set.
use mathlib.Core.Path.{◌≡◌, refl}
use mathlib.Core.Logic.{◌⊎◌, inl, inr}

-- The error numbers that the modelled code sets.
pub data Errno : Type 0 where
  enoent ebadf eagain enomem eexist enodev einval enfile efbig enospc erofs espipe : Errno
  epipe enametoolong enosys eperm eisdir etimedout eintr enotty eio enotsup enotdir ebusy : Errno

pub data Result {ℓ} (A : Type ℓ) : Type ℓ where
  ok : A → Result A
  err : Errno → Result A

infixl 5 ◌>>=◌
abbrev pub ◌>>=◌ {ℓ κ} : {A : Type ℓ} {B : Type κ} → Result A → (A → Result B) → Result B
ok a >>= f = f a
err e >>= f = err e

-- Two continuations that agree give the same result.
pub >>=-cong {ℓ κ} :
    {A : Type ℓ} {B : Type κ} (r : Result A) (f g : A → Result B)
    → ((a : A) → f a ≡ g a)
    → (r >>= f) ≡ (r >>= g)
>>=-cong (ok a) f g h = h a
>>=-cong (err e) f g h = refl

pub Result-cases {ℓ} :
    {A : Type ℓ} (r : Result A) → ((a : A) × (r ≡ ok a)) ⊎ ((e : Errno) × (r ≡ err e))
Result-cases (ok a) = inl (a, refl)
Result-cases (err e) = inr (e, refl)
