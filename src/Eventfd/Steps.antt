-- ===== src/Eventfd/Steps.antt =====
-- The steps of an event counter of morelib/eventfd.c, and what each keeps.
use morelibc.Base.{
  ℕ, ◌+◌, ◌-◌, ◌<◌, ◌≡◌, ◌≢◌, ◌⊎◌, inl, inr, refl, ap, ◌∙◌, Bool, true, false, Bool-cases, ltb,
  ◌==◌, if◌then◌else◌, test_bit, test_bit-or, u32_mod, u64_mod, u64, not_u32, not_u64, Result, ok,
  err, Errno, einval, eagain, bit_or-lt, arith,
}
use morelibc.Poll.{
  pollin, pollout, poll_waiter_init, poll_waiter_add, poll_waiter_remove, poll_file_init,
}
use morelibc.Poll.Bits.{notify-bit}
use morelibc.Poll.Wakeup.{no_lost_wakeup, IsAttentive, Reach-IsAttentive}
use morelibc.Poll.Wakeup
use morelibc.Eventfd.{Eventfd, eventfd, take_value, put_value, eventfd_read, eventfd_write}

-- What a read took out, and what a write put in.
abbrev pub taken : Result ℕ → ℕ
taken (ok n) = n
taken (err e) = 0

abbrev pub given : ℕ → Result ℕ → ℕ
given n (ok size) = n
given n (err e) = 0

-- A state, with all that was put in (the initial value too) and all that was taken out.
pub data Run : Eventfd → ℕ → ℕ → Type 0 where
  start :
      (initval : ℕ) (semaphore : Bool)
      → initval < u32_mod
      → Run (eventfd initval semaphore) initval 0
  read :
      {s : Eventfd} {i o : ℕ} (size : ℕ)
      → Run s i o
      → Run (eventfd_read size s).1 i (o + taken (eventfd_read size s).0)
  write :
      {s : Eventfd} {i o : ℕ} (size new_value : ℕ)
      → new_value < u64_mod
      → Run s i o
      → Run
          (eventfd_write size new_value s).1
          (i + given new_value (eventfd_write size new_value s).0)
          o
  wait :
      {s : Eventfd} {i o : ℕ} (id events : ℕ)
      → events < u32_mod
      → Run s i o
      → Run (record s { base = poll_waiter_add (poll_waiter_init id events) s.base }) i o
  leave :
      {s : Eventfd} {i o : ℕ} (id : ℕ)
      → Run s i o
      → Run (record s { base = poll_waiter_remove id s.base }) i o

-- The counter is below its maximum, and the file shows that it can be read when it is not 0.
pub record IsValid (s : Eventfd) : Type 0 where
  pub bounded : s.value < u64_mod - 1
  pub file : Wakeup.Reach s.base
  pub readable : s.value ≢ 0 → test_bit s.base.events 0 ≡ true

pub eventfd-IsValid :
    (initval : ℕ) (semaphore : Bool) → initval < u32_mod → IsValid (eventfd initval semaphore)
unfolding eventfd poll_file_init
eventfd-IsValid initval semaphore h = record {
  bounded = omega arith;
  file = Wakeup.Reach.start _ (bit_or-lt 32 _ _ (ground arith) (ground arith));
  readable = λ n.
      test_bit-or (if initval == 0 then 0 else pollin) (if not_u32 initval == 0 then 0 else pollout)
        0
      ∙ ground arith;
}

pub take_value-IsValid :
    (value : ℕ) {s : Eventfd} → value < s.value → IsValid s → IsValid (take_value value s)
unfolding take_value
take_value-IsValid value {s} h v = record {
  bounded = omega (arith, v.bounded);
  file =
      Wakeup.Reach.notify (if value == 0 then pollin else 0) pollout (ground arith) (omega arith)
        v.file;
  readable = λ n.
      notify-bit (if value == 0 then pollin else 0) pollout s.base 0 (ground arith) (omega arith)
      ∙ ground (arith, v.readable (omega arith));
}

pub put_value-IsValid :
    (value : ℕ) {s : Eventfd} → value < u64_mod - 1 → IsValid s → IsValid (put_value value s)
unfolding put_value
put_value-IsValid value {s} h v = record {
  bounded = h;
  file =
      Wakeup.Reach.notify (if not_u64 value == 0 then pollout else 0) pollin (ground arith)
        (omega arith) v.file;
  readable = λ n.
      notify-bit (if not_u64 value == 0 then pollout else 0) pollin s.base 0 (ground arith)
        (omega arith)
      ∙ ground arith;
}

-- A read fails and changes nothing, or takes a part of the value that is not 0.
pub eventfd_read-cases :
    (size : ℕ) (s : Eventfd)
    → ((e : Errno) × (eventfd_read size s ≡ (err e, s)))
      ⊎ ((n value : ℕ) × (eventfd_read size s ≡ (ok n, take_value value s))
          × (0 < n)
          × (s.value ≡ n + value))
unfolding eventfd_read
eventfd_read-cases size s = elim (Bool-cases (ltb size 8)) [
  | inl short ↦ inl (einval, rw short refl)
  | inr long ↦ elim (Bool-cases (s.value == 0)) [
    | inl empty ↦ inl (eagain, rw (long, empty) refl)
    | inr full ↦ elim (Bool-cases s.semaphore) [
      | inl one ↦ inr (1, s.value - 1, rw (long, full, one) refl, omega arith, ground arith)
      | inr all ↦ inr (s.value, 0, rw (long, full, all) refl, ground arith, omega arith)
    ]
  ]
]

pub small : (n : ℕ) → n < u64_mod → u64 n ≡ n
small n h = omega arith

-- A write fails and changes nothing, or adds its value without a wrap-around.
pub eventfd_write-cases :
    (size new_value : ℕ) (s : Eventfd)
    → s.value < u64_mod
    → ((e : Errno) × (eventfd_write size new_value s ≡ (err e, s)))
      ⊎ ((eventfd_write size new_value s ≡ (ok 8, put_value (s.value + new_value) s))
          × (s.value + new_value < u64_mod - 1))
unfolding eventfd_write
eventfd_write-cases size new_value s h = elim (Bool-cases (ltb size 8)) [
  | inl short ↦ inl (einval, rw short refl)
  | inr long ↦ elim (Bool-cases (ltb new_value (not_u64 s.value))) [
    | inl fits ↦ inr (
      rw (long, fits)
          (ap (λ n. (ok 8, put_value n s)) (small (s.value + new_value) (ground arith))),
      ground arith,
    )
    | inr over ↦ inl (eagain, rw (long, over) refl)
  ]
]

pub taken_value : (value : ℕ) (s : Eventfd) → (take_value value s).value ≡ value
unfolding take_value
taken_value value s = refl

pub given_value : (value : ℕ) (s : Eventfd) → (put_value value s).value ≡ value
unfolding put_value
given_value value s = refl

pub started : (initval : ℕ) (semaphore : Bool) → initval ≡ 0 + (eventfd initval semaphore).value
unfolding eventfd
started initval semaphore = omega arith

pub true≢false : true ≢ false
true≢false e = absurd (cc e)
