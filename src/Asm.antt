-- ===== src/Asm.antt =====
-- `Processor/Tools/Asm/m65f32asm.c`.
pub mod State
pub mod Encode
pub mod Symbols
pub mod Code
pub mod Lower
pub mod Lexer
pub mod Expr
pub mod Tests
pub mod Operand
pub mod Branch
pub mod Line
pub mod Fixups
pub mod Program
pub mod Keeps
pub mod Invariant
