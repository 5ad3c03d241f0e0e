-- ===== src/Pioasm/Invariant/Statements.antt =====
-- Bounds of the parser of rp2/pioasm/pioasm_parser.c: the instructions.
use morelibc.Base.{
  ℕ, ◌-◌, ◌%◌, ◌^◌, ◌<◌, false, Option, none, some, List, [], ◌∷◌, arith, length, length-append,
  ltb, bit_or, Bool-cases, inl, inr,
}
use morelibc.Pioasm.Token.{Token, tok_eof}
use morelibc.Pioasm.Target.{Target}
use morelibc.Pioasm.State.{
  Parser, Action, Outcome, done, failed, out_of_fuel, continue, ◌>>=◌, ◌>>◌, pure, gets, modify,
  set_error, add_instruction,
}
use morelibc.Pioasm.State.Keeps.{Keeps}
use morelibc.Pioasm.Instructions.{
  refer, finish, parse_jmp, parse_polarity, parse_wait, parse_bit_count, parse_in, parse_out,
  parse_blocking, parse_push, parse_pull, parse_mov, parse_irq_mode, parse_irq, parse_set,
  parse_nop, parse_word, dispatch_instruction, parse_instruction,
}
use morelibc.Pioasm.Invariant.{IsBounded}
use morelibc.Pioasm.Invariant.Primitives.{add_instruction-IsBounded, set_error-IsBounded}
use morelibc.Pioasm.Invariant.References.{add_unresolved_keeps}
use morelibc.Pioasm.Invariant.Actions.{operand_rules}

-- An instruction that was added has an index.
Nonempty : {A : Type 0} → Outcome A → Parser → Type 0
Nonempty (done a) p = 0 < length p.instructions
Nonempty (failed e) p = Unit
Nonempty out_of_fuel p = Unit

add-Nonempty :
    (instr : ℕ) (p : Parser) → Nonempty (add_instruction instr p).0 (add_instruction instr p).1
unfolding add_instruction gets modify set_error ◌>>=◌ continue Nonempty
add-Nonempty instr p = elim (Bool-cases (ltb (length p.instructions) 32)) [
  | inl e ↦ rw e (omega (arith, length-append p.instructions (instr % 2 ^ 16 ∷ [])))
  | inr e ↦ rw e tt
]

module _ {A B : Type 0} where
  Nonempty-continue :
      (r : Outcome A) (f : A → Action B) (p : Parser)
      → ((a : A) (p' : Parser) → Nonempty (f a p').0 (f a p').1)
      → Nonempty (continue r f p).0 (continue r f p).1
  unfolding continue Nonempty
  Nonempty-continue (done a) f p h = h a p
  Nonempty-continue (failed e) f p h = tt
  Nonempty-continue out_of_fuel f p h = tt

  continue_keeps :
      (r : Outcome A) (f : A → Action B) (p : Parser)
      → IsBounded p
      → Nonempty r p
      → ((a : A) (p' : Parser) → IsBounded p' → 0 < length p'.instructions → IsBounded (f a p').1)
      → IsBounded (continue r f p).1
  unfolding continue Nonempty
  continue_keeps (done a) f p h added g = g a p h added
  continue_keeps (failed e) f p h added g = h
  continue_keeps out_of_fuel f p h added g = h

refer_keeps :
    (name : Option (List ℕ)) (p : Parser)
    → IsBounded p
    → 0 < length p.instructions
    → IsBounded (refer name p).1
unfolding refer pure gets ◌>>=◌ continue
refer_keeps none p h added = h
refer_keeps (some name) p h added =
    add_unresolved_keeps (length p.instructions - 1) name false p h (omega arith)

module _ (target : Target) (fuel : ℕ) where
  finish-IsBounded : (instr : ℕ) → Keeps IsBounded (finish target fuel instr)
  unfolding finish
  finish-IsBounded instr = search (operand_rules, add_instruction-IsBounded)

  parse_polarity-IsBounded : Keeps IsBounded (parse_polarity target fuel)
  unfolding parse_polarity
  parse_polarity-IsBounded = search operand_rules

  parse_bit_count-IsBounded : Keeps IsBounded (parse_bit_count target fuel)
  unfolding parse_bit_count
  parse_bit_count-IsBounded = search operand_rules

  parse_blocking-IsBounded : Keeps IsBounded (parse_blocking target fuel)
  unfolding parse_blocking
  parse_blocking-IsBounded = search operand_rules

  parse_irq_mode-IsBounded : Keeps IsBounded (parse_irq_mode target fuel)
  unfolding parse_irq_mode
  parse_irq_mode-IsBounded = search operand_rules depth 12

  parse_wait-IsBounded : Keeps IsBounded (parse_wait target fuel)
  unfolding parse_wait
  parse_wait-IsBounded = search (operand_rules, finish-IsBounded, parse_polarity-IsBounded) depth 16

  parse_in-IsBounded : Keeps IsBounded (parse_in target fuel)
  unfolding parse_in
  parse_in-IsBounded = search (operand_rules, finish-IsBounded, parse_bit_count-IsBounded) depth 16

  parse_out-IsBounded : Keeps IsBounded (parse_out target fuel)
  unfolding parse_out
  parse_out-IsBounded = search (operand_rules, finish-IsBounded, parse_bit_count-IsBounded) depth 16

  parse_push-IsBounded : Keeps IsBounded (parse_push target fuel)
  unfolding parse_push
  parse_push-IsBounded = search (operand_rules, finish-IsBounded, parse_blocking-IsBounded) depth 16

  parse_pull-IsBounded : Keeps IsBounded (parse_pull target fuel)
  unfolding parse_pull
  parse_pull-IsBounded = search (operand_rules, finish-IsBounded, parse_blocking-IsBounded) depth 16

  parse_mov-IsBounded : Keeps IsBounded (parse_mov target fuel)
  unfolding parse_mov
  parse_mov-IsBounded = search (operand_rules, finish-IsBounded) depth 16

  parse_irq-IsBounded : Keeps IsBounded (parse_irq target fuel)
  unfolding parse_irq
  parse_irq-IsBounded = search (operand_rules, finish-IsBounded, parse_irq_mode-IsBounded) depth 16

  parse_set-IsBounded : Keeps IsBounded (parse_set target fuel)
  unfolding parse_set
  parse_set-IsBounded = search (operand_rules, finish-IsBounded) depth 16

  parse_nop-IsBounded : Keeps IsBounded (parse_nop target fuel)
  unfolding parse_nop
  parse_nop-IsBounded = search (operand_rules, finish-IsBounded) depth 16

  parse_word-IsBounded : Keeps IsBounded (parse_word target fuel)
  unfolding parse_word
  parse_word-IsBounded = search (operand_rules, add_instruction-IsBounded)

  jump-Keeps :
      (instr : ℕ) (name : Option (List ℕ))
      → Keeps IsBounded (finish target fuel instr >> refer name)
  unfolding ◌>>=◌ finish
  jump-Keeps instr name = record {
    at = λ p h.
        continue_keeps _ _ _ ((finish-IsBounded instr).at p h)
          (Nonempty-continue _ _ _ λ delay p'. add-Nonempty (bit_or instr delay) p')
          (λ u p' h' added. refer_keeps name p' h' added);
  }

  parse_jmp-IsBounded : Keeps IsBounded (parse_jmp target fuel)
  unfolding parse_jmp
  parse_jmp-IsBounded = search (operand_rules, jump-Keeps) depth 12

ruleset instruction_rules = (
  operand_rules, parse_jmp-IsBounded, parse_wait-IsBounded, parse_in-IsBounded, parse_out-IsBounded,
  parse_push-IsBounded, parse_pull-IsBounded, parse_mov-IsBounded, parse_irq-IsBounded,
  parse_set-IsBounded, parse_nop-IsBounded, parse_word-IsBounded,
)

module _ (target : Target) (fuel : ℕ) where
  dispatch_instruction-IsBounded :
      (type : Token) → Keeps IsBounded (dispatch_instruction target fuel type)
  unfolding dispatch_instruction
  dispatch_instruction-IsBounded tok_eof = set_error-IsBounded _
  dispatch_instruction-IsBounded _ = search instruction_rules

  pub parse_instruction-IsBounded : Keeps IsBounded (parse_instruction target fuel)
  unfolding parse_instruction
  parse_instruction-IsBounded = search (operand_rules, dispatch_instruction-IsBounded)
