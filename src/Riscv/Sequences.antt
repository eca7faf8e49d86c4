-- ===== src/Riscv/Sequences.antt =====
-- RISCV_SingleCycle/testbench/sequences.cpp: the commands that a test pushes. A command struct is
-- a record; what a function writes into `*cmd` and into the sequencer is returned. The text in
-- `str` is left out.
pub mod Utype
pub mod Fields
pub mod RoundTrip
pub mod Dispatch
pub mod Cycles
pub mod Stype
pub mod Itype
pub mod Btype
pub mod Rtype
