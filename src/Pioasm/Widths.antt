-- ===== src/Pioasm/Widths.antt =====
-- The widths of delay and side-set: `encode_delay_sideset` of rp2/pioasm/pioasm_parser.c.
use morelibc.Base.{
  ℕ, zero, suc, ◌-◌, ◌^◌, ◌≤◌, ◌≡◌, refl, ap, ap₂, ◌∙◌, Option, none, some, arith, ltb, Bool, true,
  false, ◌+◌, ◌&&◌, if◌then◌else◌, min, bit_or, sub_u32, Bool-cases, inl, inr,
}
use morelibc.Pioasm.Error.{Error, err_delay_too_large, err_sideset_too_wide}
use morelibc.Pioasm.Target.{Target}
use morelibc.Pioasm.State.{Parser, done, pure, gets, modify, ◌>>=◌, continue, note_error}
use morelibc.Pioasm.Expr.{shl}
use morelibc.Pioasm.Operands.{
  sideset_width, delay_max, sideset_max, limit, encode_sideset_value, encode_delay_sideset,
}

-- The largest number of `n` bits, by the shift of the code.
largest : (n : ℕ) → n ≤ 5 → sub_u32 (shl 1 n) 1 ≡ 2 ^ n - 1
unfolding shl
largest zero h = refl
largest (suc zero) h = refl
largest (suc (suc zero)) h = refl
largest (suc (suc (suc zero))) h = refl
largest (suc (suc (suc (suc zero)))) h = refl
largest (suc (suc (suc (suc (suc zero))))) h = refl
largest (suc (suc (suc (suc (suc (suc n)))))) h = absurd (omega arith)

-- The state behind `limit`.
noted : Error → ℕ → ℕ → Parser → Parser
noted e max value p = if ltb max value then note_error e p else p

limit_lem :
    (e : Error) (max value : ℕ) (p : Parser)
    → limit e max value p ≡ (done (min max value), noted e max value p)
unfolding limit modify pure ◌>>=◌ continue noted
limit_lem e max value p = elim (Bool-cases (ltb max value)) [
  | inl big ↦ rw big (ap (λ v. (done v, note_error e p)) (ground arith))
  | inr fits ↦ rw fits (ap (λ v. (done v, p)) (ground arith))
]

encode-noted :
    (target : Target) (e : Error) (max value v : ℕ) (p : Parser)
    → encode_sideset_value target v (noted e max value p) ≡ encode_sideset_value target v p
unfolding noted encode_sideset_value note_error
encode-noted target e max value v p = elim (Bool-cases (ltb max value)) [
  | inl big ↦
      rw big
        (elim p.error
          as (λ o.
            encode_sideset_value target v (elim o as (λ _. Parser) [
              | none ↦ record p { error = some (e, p.lexer.line) }
              | some first ↦ p
            ])
            ≡ encode_sideset_value target v p) [ none ↦ refl | some first ↦ refl ])
  | inr fits ↦ rw fits refl
]

-- The bits that side-set and its enable bit take: an optional side-set of no bits has no enable bit.
abbrev pub side_bits : Bool → ℕ → ℕ
side_bits opt zero = 0
side_bits true (suc n) = suc n + 1
side_bits false (suc n) = suc n

width_lem : (p : Parser) → sideset_width p ≡ side_bits p.sideset_opt p.sideset_bits
unfolding sideset_width
width_lem p = width p.sideset_opt p.sideset_bits
  where
    width : (opt : Bool) (n : ℕ) → (if opt && ltb 0 n then n + 1 else n) ≡ side_bits opt n
    width true zero = refl
    width false zero = refl
    width true (suc n) = ground arith
    width false (suc n) = refl

bits-le : (opt : Bool) (n : ℕ) → side_bits opt n ≤ 5 → n ≤ 5
bits-le opt zero h = omega arith
bits-le true (suc n) h = omega arith
bits-le false (suc n) h = h

-- The largest side-set value of so many bits: 0 without side-set.
largest_value :
    (opt : Bool) (n : ℕ)
    → n ≤ 5
    → (if ltb 0 (side_bits opt n) then sub_u32 (shl 1 n) 1 else 0) ≡ 2 ^ n - 1
largest_value opt zero h = refl
largest_value true (suc n) h =
    let some_bits : ltb 0 (suc n + 1) ≡ true = ground arith in rw some_bits (largest (suc n) h)
largest_value false (suc n) h =
    let some_bits : ltb 0 (suc n) ≡ true = ground arith in rw some_bits (largest (suc n) h)

-- The encoder of a side-set value: none without side-set.
abbrev pub side_encoded : Target → Bool → ℕ → ℕ → ℕ
side_encoded target true bits value = target.encode_sideset_opt bits value
side_encoded target false zero value = 0
side_encoded target false (suc bits) value = target.encode_sideset (suc bits) value

encode_sideset_value_lem :
    (target : Target) (value : ℕ) (p : Parser)
    → encode_sideset_value target value p ≡ side_encoded target p.sideset_opt p.sideset_bits value
unfolding encode_sideset_value
encode_sideset_value_lem target value p = by_bits p.sideset_opt p.sideset_bits
  where
    by_bits :
        (opt : Bool) (n : ℕ)
        → (if opt
            then target.encode_sideset_opt n value
            else (if ltb 0 n then target.encode_sideset n value else 0))
          ≡ side_encoded target opt n value
    by_bits true n = refl
    by_bits false zero = refl
    by_bits false (suc n) = let some_bits : ltb 0 (suc n) ≡ true = ground arith in rw some_bits refl

-- What `encode_delay_sideset` encodes, when the side-set takes `width` of the five bits, `bits` of them for
-- its value.
abbrev pub encoded : Target → Parser → (width bits delay : ℕ) → Option ℕ → ℕ
encoded target p width bits delay none = target.encode_delay (min (2 ^ (5 - width) - 1) delay)
encoded target p width bits delay (some value) =
    bit_or (target.encode_delay (min (2 ^ (5 - width) - 1) delay))
      (side_encoded target p.sideset_opt bits (min (2 ^ bits - 1) value))

sideset_max_lem :
    (p : Parser)
    → side_bits p.sideset_opt p.sideset_bits ≤ 5
    → sideset_max p ≡ 2 ^ p.sideset_bits - 1
unfolding sideset_max
sideset_max_lem p h =
    ap (λ w. if ltb 0 w then sub_u32 (shl 1 p.sideset_bits) 1 else 0) (width_lem p)
    ∙ largest_value p.sideset_opt p.sideset_bits (bits-le p.sideset_opt p.sideset_bits h)

delay_max_lem :
    (p : Parser)
    → side_bits p.sideset_opt p.sideset_bits ≤ 5
    → delay_max p ≡ 2 ^ (5 - side_bits p.sideset_opt p.sideset_bits) - 1
unfolding delay_max
delay_max_lem p h =
    let width = side_bits p.sideset_opt p.sideset_bits in
    let left : sub_u32 5 (sideset_width p) ≡ 5 - width = omega (arith, width_lem p) in
    ap (λ n. sub_u32 (shl 1 n) 1) left ∙ largest (5 - width) (omega arith)

-- If side-set and enable bit, which only an optional side-set of some bits has, take at most five bits, a delay
-- that does not fit into the others becomes the largest that does, and a side-set value the largest of the
-- side-set's bits, 0 if there are none; otherwise they are encoded as they are.
pub encode_delay_sideset_lem :
    (target : Target) (p : Parser) (delay : ℕ) (sideset : Option ℕ)
    → side_bits p.sideset_opt p.sideset_bits ≤ 5
    → (encode_delay_sideset target delay sideset p).0
      ≡ done
          (encoded target p (side_bits p.sideset_opt p.sideset_bits) p.sideset_bits delay sideset)
unfolding encode_delay_sideset gets pure ◌>>=◌ continue
encode_delay_sideset_lem target p delay none h =
    rw (limit_lem err_delay_too_large (delay_max p) delay p)
      (ap (λ m. done (target.encode_delay (min m delay))) (delay_max_lem p h))
encode_delay_sideset_lem target p delay (some value) h =
    let p' = noted err_delay_too_large (delay_max p) delay p in
    rw (limit_lem err_delay_too_large (delay_max p) delay p) (
      rw (limit_lem err_sideset_too_wide (sideset_max p) value p') (
        ap₂ (λ m bits. done (bit_or (target.encode_delay (min m delay)) bits)) (delay_max_lem p h)
          (encode-noted target err_sideset_too_wide (sideset_max p) value _ p'
            ∙ encode-noted target err_delay_too_large (delay_max p) delay _ p
            ∙ ap (λ m. encode_sideset_value target (min m value) p) (sideset_max_lem p h)
            ∙ encode_sideset_value_lem target (min (2 ^ p.sideset_bits - 1) value) p)))
