-- ===== src/Sim.antt =====
-- The Verilator test bench `TestMain.cpp`: its hex loader, the register values that it reports,
-- and its main loop. The verilated core and its dumpers are parameters.
pub mod Load
pub mod Lines
pub mod Loaded
pub mod Registers
pub mod Loop
pub mod Ends
pub mod Dump
pub mod Dumped
pub mod Counts
pub mod Args
pub mod Debug
pub mod Report
pub mod Reported
pub mod Kanata
mod Tests
