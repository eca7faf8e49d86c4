-- ===== src/Riscv/Sequences/Dispatch.antt =====
-- The functions `set_…` of sequences.cpp choose the command that a test asks for. The children say
-- what the core's decoder and control make of it.
pub mod Registers
pub mod Immediates
pub mod Memory
pub mod Branches
pub mod System
use verilog.Common.{ℕ, Bool, true, false}

-- The ALU operations, in the order of their codes.
pub data AluOp : Type 0 where
  add sub sll srl sra xor and or slt sltu : AluOp

abbrev pub code : AluOp → ℕ
code add = 0
code sub = 1
code sll = 2
code srl = 3
code sra = 4
code xor = 5
code and = 6
code or = 7
code slt = 8
code sltu = 9

-- The fields that RV32I and RV64I give the command of an operation, and whether it has a form on
-- 32-bit words.
abbrev pub funct3_for : AluOp → ℕ
funct3_for add = 0
funct3_for sub = 0
funct3_for sll = 1
funct3_for srl = 5
funct3_for sra = 5
funct3_for xor = 4
funct3_for and = 7
funct3_for or = 6
funct3_for slt = 2
funct3_for sltu = 3

abbrev pub funct7_for : AluOp → ℕ
funct7_for sub = 32
funct7_for sra = 32
funct7_for _ = 0

abbrev pub has_word_form : AluOp → Bool
has_word_form add = true
has_word_form sub = true
has_word_form sll = true
has_word_form srl = true
has_word_form sra = true
has_word_form _ = false
