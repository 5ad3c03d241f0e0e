-- ===== src/Poll/Bits.antt =====
-- Masks of event flags, as morelib/poll.c uses them.
use morelibc.Base.{
  ℕ, ◌<◌, ◌≡◌, refl, sym, ap, ◌∙◌, Bool, true, false, not, ◌&&◌, ◌||◌, bit_and, bit_or, not_u32,
  u32_mod, test_bit, test_bit-and, test_bit-or, test_bit-not_u32, test_bit-zero, eq_of_bits,
  bit_and-le, bit_or-lt, arith,
}
use morelibc.Poll.{PollFile, poll_file_notify}

-- Two words are disjoint when their `&` is 0.
pub disjoint-bit : (a b i : ℕ) → bit_and a b ≡ 0 → (test_bit a i && test_bit b i) ≡ false
disjoint-bit a b i e = sym (test_bit-and a b i) ∙ ap (λ n. test_bit n i) e ∙ test_bit-zero i

pub disjoint_of_bits :
    (a b : ℕ)
    → a < u32_mod
    → ((i : ℕ) → i < 32 → (test_bit a i && test_bit b i) ≡ false)
    → bit_and a b ≡ 0
disjoint_of_bits a b h f =
    eq_of_bits 32 (bit_and a b) 0 (omega (arith, bit_and-le 32 a b h)) (omega arith)
      λ i k. test_bit-and a b i ∙ f i k ∙ sym (test_bit-zero i)

updated-bit :
    (a e c s : Bool)
    → (a && e) ≡ false
    → (a && (not e && s)) ≡ false
    → (a && ((e && not c) || s)) ≡ false
updated-bit false e c s p q = refl
updated-bit true true c s p q = absurd (cc p)
updated-bit true false c s p q = q

-- The events after an update meet a mask only if the events before it or the new events do.
pub disjoint-update :
    (a e c s : ℕ)
    → a < u32_mod
    → e < u32_mod
    → c < u32_mod
    → bit_and a e ≡ 0
    → bit_and a (bit_and (not_u32 e) s) ≡ 0
    → bit_and a (bit_or (bit_and e (not_u32 c)) s) ≡ 0
disjoint-update a e c s ha he hc p q = disjoint_of_bits a _ ha λ i k.
    ap (λ b. test_bit a i && b)
      (test_bit-or (bit_and e (not_u32 c)) s i
        ∙ ap (λ b. b || test_bit s i)
            (test_bit-and e (not_u32 c) i
              ∙ ap (λ b. test_bit e i && b) (test_bit-not_u32 c i hc k)))
    ∙ updated-bit (test_bit a i) (test_bit e i) (test_bit c i) (test_bit s i) (disjoint-bit a e i p)
        (ap (λ b. test_bit a i && b)
            (ap (λ b. b && test_bit s i) (sym (test_bit-not_u32 e i he k))
              ∙ sym (test_bit-and (not_u32 e) s i))
          ∙ disjoint-bit a (bit_and (not_u32 e) s) i q)

-- An update of 32-bit events is a 32-bit word.
pub update-lt : (e c s : ℕ) → e < u32_mod → s < u32_mod → bit_or (bit_and e (not_u32 c)) s < u32_mod
update-lt e c s he hs =
    bit_or-lt 32 (bit_and e (not_u32 c)) s (omega (arith, bit_and-le 32 e (not_u32 c) he)) hs

-- The events after a notification, flag by flag.
pub notify-bit :
    (c s : ℕ) (file : PollFile) (i : ℕ)
    → c < u32_mod
    → i < 32
    → test_bit (poll_file_notify c s file).events i
      ≡ ((test_bit file.events i && not (test_bit c i)) || test_bit s i)
unfolding poll_file_notify
notify-bit c s file i h k =
    test_bit-or (bit_and file.events (not_u32 c)) s i
    ∙ ap (λ b. b || test_bit s i)
        (test_bit-and file.events (not_u32 c) i
          ∙ ap (λ b. test_bit file.events i && b) (test_bit-not_u32 c i h k))
