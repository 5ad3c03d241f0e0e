-- ===== src/Pioasm.antt =====
-- The PIO assembler: rp2/pioasm/pioasm_lexer.c, rp2/pioasm/pioasm_parser.c and rp2/pioasm/pioasm.c.
mod Token
mod Error
mod Lexer
mod Target
pub mod State
mod Symbols
mod Expr
mod Operands
mod Widths
mod Instructions
mod Directives
mod Assemble
mod Invariant
mod Ends
mod Hang
mod Placeholder
mod Tests
