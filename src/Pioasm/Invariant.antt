-- ===== src/Pioasm/Invariant.antt =====
-- The bounds of the parser's tables and settings, for rp2/pioasm/pioasm_parser.c.
mod Primitives
mod References
mod Actions
mod Statements
mod Settings
mod Directives
pub mod Programs
use morelibc.Base.{
  ℕ, zero, suc, ◌+◌, ◌-◌, ◌%◌, ◌^◌, ◌≤◌, ◌<◌, ◌≡◌, refl, Bool, true, false, Option, none, some,
  List, [], ◌∷◌, ◌++◌, arith, length, set, All, All-append, leb, ltb, if◌then◌else◌, inl, inr,
  Bool-cases, tests, length-append,
}
use morelibc.Pioasm.State.{Parser, Symbol, Unresolved}

pub record IsInRange (instructions : List ℕ) (symbols : List Symbol) (ref : Unresolved)
    : Type 0 where
  pub instruction_index : ref.instruction_index < length instructions
  pub symbol_index : ref.symbol_index < length symbols

-- The arrays do not run over, an instruction has 16 bits, and a reference is to an instruction and to a symbol
-- that exist.
pub record TableBounds (instructions : List ℕ) (symbols : List Symbol) (refs : List Unresolved)
    : Type 0 where
  pub instruction_count : length instructions ≤ 32
  pub words : All (λ w. w < 2 ^ 16) instructions
  pub symbol_count : length symbols ≤ 8
  pub reference_count : length refs ≤ 8
  pub references : All (IsInRange instructions symbols) refs

abbrev pub FitsIn : ℕ → Option ℕ → Type 0
FitsIn n none = Unit
FitsIn n (some i) = i < n

pub record ConfigBounds (sideset_bits pio_version : ℕ) (origin wrap_target wrap : Option ℕ)
    : Type 0 where
  pub sideset : sideset_bits ≤ 5
  pub version : pio_version < 2 ^ 8
  pub at_origin : FitsIn 32 origin
  pub at_wrap_target : FitsIn 33 wrap_target
  pub at_wrap : FitsIn 32 wrap

pub record IsBounded (p : Parser) : Type 0 where
  pub tables : TableBounds p.instructions p.symbols p.unresolved
  pub config : ConfigBounds p.sideset_bits p.pio_version p.origin p.wrap_target p.wrap
