-- ===== src/Riscv/Rtl.antt =====
-- The parts of the core's SystemVerilog that say what the testbench's commands mean.
pub mod Decode
pub mod Control
pub mod Alu
pub mod Core
