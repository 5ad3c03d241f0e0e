-- ===== src/Random/Fill.antt =====
-- How many bytes rp2/random.c fills, and what `getentropy` of morelib/unistd.c reports.
use morelibc.Base.{
  ℕ, zero, suc, ◌+◌, ◌-◌, ◌≤◌, ◌<◌, ◌≡◌, refl, Bool, true, false, List, arith, length,
  length-append, length-take, take, min, lt→ltb, le32, u32_mod, Result, err, Errno,
}
use morelibc.Random.{random_loop, fill_random, returned_size, getentropy}

loop-length :
    (get_rand_32 : ℕ → ℕ) (fuel round remaining : ℕ)
    → remaining ≤ fuel
    → length (random_loop get_rand_32 fuel round remaining) ≡ remaining
unfolding random_loop
loop-length get_rand_32 zero round remaining h = omega arith
loop-length get_rand_32 (suc fuel) round zero h = refl
loop-length get_rand_32 (suc fuel) round (suc remaining) h =
    let n = min 4 (suc remaining) in
    let word = take n (le32 (get_rand_32 round)) in
    let rest = random_loop get_rand_32 fuel (round + 1) (suc remaining - n) in
    let ih = loop-length get_rand_32 fuel (round + 1) (suc remaining - n) (omega arith) in
    rw (lt→ltb 0 (suc remaining) (omega arith), random_loop)
      (omega (arith, length-append word rest, length-take n (le32 (get_rand_32 round)), ih))

-- With the board's `getrandom`, as many bytes are filled as are asked for, and `getentropy` succeeds.
getentropy-fill_random :
    (get_rand_32 : ℕ → ℕ) (length : ℕ)
    → (returned_size (fill_random get_rand_32 length false) ≡ length)
      × (getentropy (fill_random get_rand_32) length ≡ true)
unfolding getentropy returned_size fill_random
getentropy-fill_random get_rand_32 length =
    let filled = loop-length get_rand_32 length 0 length (omega arith) in (filled, ground arith)

-- `getentropy` reports success also when `getrandom` fails.
pub getentropy-failure :
    (board_random : ℕ → Bool → Result (List ℕ)) (length : ℕ) (e : Errno)
    → length < u32_mod
    → board_random length false ≡ err e
    → getentropy board_random length ≡ true
unfolding getentropy returned_size
getentropy-failure board_random length e h failure = rw failure (ground arith)
