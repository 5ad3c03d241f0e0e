-- ===== src/Random/Tests.antt =====
-- Random bytes from two words, and uses of the theorems.
use morelibc.Base.{
  ℕ, ◌≡◌, ◌+◌, refl, arith, Bool, true, false, List, [], ◌∷◌, Result, ok, err, enosys,
}
use morelibc.Random.{random_loop, fill_random, getentropy}
use morelibc.Random.Fill.{getentropy-failure}

abbrev words : ℕ → ℕ
words n = 0x04030201 + n

fill_test : fill_random words 5 false ≡ ok (1 ∷ 2 ∷ 3 ∷ 4 ∷ 2 ∷ [])
unfolding fill_random random_loop
fill_test = refl

abbrev no_random : ℕ → Bool → Result (List ℕ)
no_random size is_random = err enosys

getentropy-failure_example : getentropy no_random 16 ≡ true
getentropy-failure_example = getentropy-failure no_random 16 enosys (omega arith) refl
