-- ===== src/Dis.antt =====
-- `Processor/Tools/Asm/m65f32dis.c`.
mod Tests
pub mod Decode
pub mod Print
pub mod Raw
pub mod Match
pub mod HexIn
pub mod Listing
pub mod Args
