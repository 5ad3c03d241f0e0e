-- ===== src/Mem/Tests.antt =====
-- The memory devices on a few bytes, and uses of their theorems.
use morelibc.Base.{ℕ, ◌≡◌, refl, arith, List, [], ◌∷◌, ok, enospc}
use morelibc.Mem.{
  counted, failed, dev_full, seek_set, Memory, getrandom, mem_lseek, mem_pread, mem_read, mem_write,
}
use morelibc.Mem.Rounds.{mem_at, mem_write-mem_pread}

abbrev blank : Memory
blank addr = 0

abbrev block : List ℕ
block = 7 ∷ 8 ∷ 9 ∷ []

mem_write-mem_pread_example :
    let (count, (mem', file')) = mem_write blank (mem_at 0x20000000) block in
    (count ≡ counted 3)
    × (mem_pread mem' file' 3 0x20000000 ≡ (counted 3, block))
    × (mem_lseek file' 0x20000000 seek_set ≡ (ok 0x20000000, mem_at 0x20000000))
    × (mem_read getrandom mem' (mem_lseek file' 0x20000000 seek_set).1 3
        ≡ ((counted 3, block), file'))
    × (file'.ptr ≡ 0x20000003)
mem_write-mem_pread_example =
    mem_write-mem_pread blank 0x20000000 block getrandom (omega arith) (omega arith) (omega arith)

-- A write to /dev/full has no space.
full_test : (mem_write blank (record { dev = dev_full; ptr = 0 }) block).0 ≡ failed enospc
unfolding mem_write
full_test = refl
