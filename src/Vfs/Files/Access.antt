-- ===== src/Vfs/Files/Access.antt =====
-- The test of access modes in `vfs_acquire_file` of morelib/vfs.c.
use morelibc.Base.{
  ℕ, zero, suc, ◌+◌, ◌*◌, ◌/◌, ◌%◌, ◌<◌, min, ◌≡◌, refl, ap, ◌∙◌, Bool, true, none, some, get_or,
  ltb, ◌==◌, if◌then◌else◌, Bool-cases, Option-cases, inl, inr, bit_and, bit_and-digit,
  bit_or-digit, bit_and-zero, bit_and_mask, u32, not_u32, ok, err, ebadf, arith,
}
use morelibc.Vfs.Files.{Files, vfs_fd_max, fd_flags, retain, vfs_acquire_file}

-- What an access mode permits: O_RDONLY reading, O_WRONLY writing, O_RDWR both, and 3 neither. A request
-- is 0, FREAD, FWRITE, or both.
abbrev pub permits : ℕ → ℕ → Bool
permits zero request = ltb request 2
permits (suc zero) request = request % 2 == 0
permits (suc (suc zero)) request = true
permits mode request = request == 0

-- The low two digits of the tested flags are the mode plus one.
fd_flags-low : (flags : ℕ) → (k : ℕ) × (fd_flags flags ≡ 4 * k + (flags + 1) % 4)
unfolding fd_flags
fd_flags-low flags =
    let high = bit_and flags (not_u32 3) in
    let low = bit_and (u32 (flags + 1)) 3 in
    (
      fd_flags flags / 4,
      omega (
        arith,
        bit_or-digit high low,
        bit_or-digit (high / 2) (low / 2),
        bit_and-digit flags (not_u32 3),
        bit_and-digit (flags / 2) (not_u32 3 / 2),
        bit_and_mask 2 (u32 (flags + 1)),
      ),
    )

two_digits :
    (x request : ℕ)
    → request < 4
    → bit_and x request ≡ 2 * min (x / 2 % 2) (request / 2) + min (x % 2) (request % 2)
two_digits x request h =
    let none_left : bit_and (x / 2 / 2) (request / 2 / 2) ≡ 0 =
      ap (bit_and (x / 2 / 2)) (omega arith) ∙ bit_and-zero (x / 2 / 2) in
    omega (arith, bit_and-digit x request, bit_and-digit (x / 2) (request / 2), none_left)

mode_cases :
    (mode request : ℕ)
    → mode < 4
    → request < 4
    → (2 * min ((mode + 1) % 4 / 2) (request / 2) + min ((mode + 1) % 2) (request % 2) == request)
      ≡ permits mode request
mode_cases zero request g h = ground arith
mode_cases (suc zero) request g h = ground arith
mode_cases (suc (suc zero)) request g h = ground arith
mode_cases (suc (suc (suc zero))) request g h = ground arith
mode_cases (suc (suc (suc (suc mode)))) request g h = absurd (omega arith)

fd_flags-permits :
    (flags request : ℕ)
    → request < 4
    → (bit_and (fd_flags flags) request == request) ≡ permits (flags % 4) request
fd_flags-permits flags request h =
    let (k, e) = fd_flags-low flags in
    ap (λ n. n == request) (omega (arith, e, two_digits (fd_flags flags) request h))
    ∙ mode_cases (flags % 4) request (omega arith) h

-- `vfs_acquire_file` for a request of access: it succeeds exactly when the descriptor stands for a file
-- whose access mode permits the request, gives that file with one more reference, and otherwise fails
-- with EBADF and changes nothing.
pub vfs_acquire_file_lem :
    (fd request : ℕ) (s : Files)
    → request < 4
    → vfs_acquire_file fd request s ≡ (
        if ltb fd vfs_fd_max
        then (elim (get_or s.fds fd none) [
          | none ↦ (err ebadf, s)
          | some file ↦
              if permits (s.flags file % 4) request
              then (ok file, retain file s)
              else (err ebadf, s)
        ])
        else (err ebadf, s))
unfolding vfs_acquire_file
vfs_acquire_file_lem fd request s h = elim (Bool-cases (ltb fd vfs_fd_max)) [
  | inr out ↦ rw out refl
  | inl within ↦ elim (Option-cases (get_or s.fds fd none)) [
    | inl empty ↦ rw (within, empty) refl
    | inr (file, hit) ↦
        rw (within, hit)
          (ap (λ b. if b then (ok file, retain file s) else (err ebadf, s))
            (fd_flags-permits (s.flags file) request h))
  ]
]
