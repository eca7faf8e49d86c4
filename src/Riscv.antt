-- ===== src/Riscv.antt =====
-- The C++ testbench of the RISC-V core, RISCV_SingleCycle/testbench.
pub mod Isa
pub mod Sequencer
pub mod Commands
pub mod Sequences
pub mod Rtl
pub mod Transactions
pub mod Scoreboard
pub mod Interface
pub mod Driver
pub mod Monitor
pub mod Environment
pub mod Generator
