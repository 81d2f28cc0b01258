-- ===== src/Asm/Line.antt =====
-- `assemble_line`, in the order of its tests: labels and constants, `*=`, then the mnemonic. The
-- chain of `strcmp` is a chain of handlers, each a child: a handler that knows the mnemonic gives
-- the action to run, and `none` falls through to the next.
pub mod Base
pub mod Directives
pub mod Alu
pub mod Native
pub mod Jumps
pub mod Traditional
pub mod Simple
pub mod System
pub mod Extended
pub mod Dispatch
