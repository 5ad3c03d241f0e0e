-- ===== src/Random.antt =====
-- Random bytes: rp2/random.c, and `getentropy` of morelib/unistd.c. `get_rand_32` of the SDK is a parameter,
-- its n-th word as a function of n.
mod Fill
mod Tests
use morelibc.Base.{
  ℕ, zero, suc, ◌+◌, ◌-◌, ◌^◌, Bool, true, false, List, [], ◌∷◌, ◌++◌, length, take, min, leb, ltb,
  if◌then◌else◌, le32, u32_mod, Result, ok, err,
}

-- The loop of `getrandom`, from the `round`-th word on. A round takes a byte at least.
unfoldable pub random_loop : (ℕ → ℕ) → ℕ → ℕ → ℕ → List ℕ
random_loop get_rand_32 zero round remaining = []
random_loop get_rand_32 (suc fuel) round remaining =
    let n = min 4 remaining in
    let rest = random_loop get_rand_32 fuel (round + 1) (remaining - n) in
    elim (ltb 0 remaining) [ true ↦ take n (le32 (get_rand_32 round)) ++ rest | false ↦ [] ]

-- `getrandom` of rp2/random.c.
unfoldable pub fill_random : (ℕ → ℕ) → ℕ → Bool → Result (List ℕ)
fill_random get_rand_32 buflen is_random = ok (random_loop get_rand_32 buflen 0 buflen)

-- What `getrandom` returns, as the `size_t` that it becomes in a comparison.
unfoldable pub returned_size : Result (List ℕ) → ℕ
returned_size (ok bytes) = length bytes
returned_size (err e) = u32_mod - 1

-- Whether `getentropy` returns 0.
unfoldable pub getentropy : (ℕ → Bool → Result (List ℕ)) → ℕ → Bool
getentropy board_random length = leb length (returned_size (board_random length false))
