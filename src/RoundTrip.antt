-- ===== src/RoundTrip.antt =====
-- What `m65f32dis.c` decodes is what `m65f32asm.c` encoded: the two files agree on every format.
pub mod Fields
pub mod Formats
pub mod Targets
pub mod Hex
pub mod HexLines
pub mod HexFile
mod Examples
