-- ===== src/Riscv/Commands.antt =====
-- RISCV_SingleCycle/testbench/common.h: the command structs. An `int` or `unsigned` field is a
-- 32-bit pattern, a `long` one a 64-bit pattern; the text of a command is left out.
use verilog.Common.{ℕ}
use verilog.Riscv.Sequencer.{Sequencer}

pub record UType : Type 0 where
  pub value : ℕ
  pub opcode : ℕ
  pub rd : ℕ
  pub imm : ℕ

pub record SType : Type 0 where
  pub value : ℕ
  pub datamask : ℕ
  pub opcode : ℕ
  pub funct3 : ℕ
  pub rs1 : ℕ
  pub rs2 : ℕ
  pub imm : ℕ

pub record IType : Type 0 where
  pub value : ℕ
  pub datamask : ℕ
  pub opcode : ℕ
  pub funct3 : ℕ
  pub rd : ℕ
  pub rs1 : ℕ
  pub imm : ℕ

pub record BType : Type 0 where
  pub value : ℕ
  pub opcode : ℕ
  pub funct3 : ℕ
  pub rs1 : ℕ
  pub rs2 : ℕ
  pub imm : ℕ

pub record RType : Type 0 where
  pub value : ℕ
  pub opcode : ℕ
  pub funct3 : ℕ
  pub rd : ℕ
  pub rs1 : ℕ
  pub rs2 : ℕ
  pub funct7 : ℕ

-- A function that changes a command and pushes onto the sequencer.
abbrev pub Pushes : Type 0 → Type 0
Pushes C = C → Sequencer → C × Sequencer
