-- ===== src/Base/Words.antt =====
-- The unsigned words of the program: `size_t` and `uint32_t` are 32 bits wide on the RP2040 and the
-- RP2350, `uint64_t` is 64 bits wide.
use Prim.Native.Nat.{ℕ, ◌+◌, ◌-◌, ◌%◌, ◌^◌}

abbrev pub u32_mod : ℕ
u32_mod = 2 ^ 32

abbrev pub u64_mod : ℕ
u64_mod = 2 ^ 64

-- The cast of a sum or a product to 32 bits.
abbrev pub u32 : ℕ → ℕ
u32 n = n % u32_mod

abbrev pub u64 : ℕ → ℕ
u64 n = n % u64_mod

-- `a - b` on 32-bit and on 64-bit words.
abbrev pub sub_u32 : ℕ → ℕ → ℕ
sub_u32 a b = (a + u32_mod - b) % u32_mod

-- `~a` on 32-bit and on 64-bit words.
abbrev pub not_u32 : ℕ → ℕ
not_u32 a = u32_mod - 1 - a

abbrev pub not_u64 : ℕ → ℕ
not_u64 a = u64_mod - 1 - a
