-- ===== src/Riscv/Sequences/Fields.antt =====
-- The value of each format as a sum of its fields.
use verilog.Common.{ℕ, ◌+◌, ◌*◌, ◌/◌, ◌%◌, ◌^◌, ◌<◌, ◌≡◌, arith, u32, bit_or}
use verilog.Common.Bits.{and_low, and_field, or_shifted, or_split}
use verilog.Riscv.Commands.{UType, SType, IType, BType, RType}
use verilog.Riscv.Sequencer.{Sequencer}
use verilog.Riscv.Sequences.Utype.{seq_utype, seq_jal, jal_imm}
use verilog.Riscv.Sequences.Stype.{seq_stype}
use verilog.Riscv.Sequences.Itype.{seq_itype}
use verilog.Riscv.Sequences.Btype.{seq_btype, btype_imm}
use verilog.Riscv.Sequences.Rtype.{seq_rtype}

pub utype_sum :
    (cmd : UType) (sqr : Sequencer)
    → cmd.opcode < 128
    → (seq_utype cmd sqr).0.value ≡ cmd.opcode + cmd.rd % 32 * 128 + cmd.imm % 2 ^ 20 * 4096
unfolding seq_utype
utype_sum cmd sqr h = ground (
  arith,
  and_low 5 cmd.rd,
  and_low 20 cmd.imm,
  or_shifted 7 cmd.opcode (cmd.rd % 32) h,
  or_shifted 12 (cmd.opcode + cmd.rd % 32 * 128) (cmd.imm % 2 ^ 20) (omega arith),
)

pub jal_imm_sum :
    (x : ℕ)
    → jal_imm x
      ≡ x / 2 ^ 12 % 2 ^ 8 * 2 ^ 12
        + x / 2 ^ 11 % 2 * 2 ^ 20
        + x / 2 % 2 ^ 10 * 2 ^ 21
        + x / 2 ^ 20 % 2 * 2 ^ 31
unfolding jal_imm
jal_imm_sum x =
    omega (arith, and_field 8 12 x, and_field 1 11 x, and_field 10 1 x, and_field 1 20 x)

pub btype_imm_sum :
    (x : ℕ)
    → btype_imm x
      ≡ x / 2 ^ 11 % 2 * 2 ^ 7
        + x / 2 % 2 ^ 4 * 2 ^ 8
        + x / 2 ^ 5 % 2 ^ 6 * 2 ^ 25
        + x / 2 ^ 12 % 2 * 2 ^ 31
unfolding btype_imm
btype_imm_sum x =
    omega (arith, and_field 1 11 x, and_field 4 1 x, and_field 6 5 x, and_field 1 12 x)

pub jal_sum :
    (cmd : UType) (sqr : Sequencer)
    → (seq_jal cmd sqr).0.value ≡ 111 + cmd.rd % 32 * 128 + jal_imm (cmd.imm % 2 ^ 20 * 2)
unfolding seq_jal
jal_sum cmd sqr = ground (
  arith,
  and_low 5 cmd.rd,
  and_low 20 cmd.imm,
  or_shifted 7 111 (cmd.rd % 32) (omega arith),
  jal_imm_sum (cmd.imm % 2 ^ 20 * 2),
  or_shifted 12 (111 + cmd.rd % 32 * 128) (jal_imm (cmd.imm % 2 ^ 20 * 2) / 4096) (omega arith),
)

pub stype_sum :
    (cmd : SType) (sqr : Sequencer)
    → cmd.opcode < 128
    → cmd.funct3 < 8
    → (seq_stype cmd sqr).0.value
      ≡ cmd.opcode
        + cmd.imm % 32 * 128
        + cmd.funct3 * 4096
        + cmd.rs1 % 32 * 2 ^ 15
        + cmd.rs2 % 32 * 2 ^ 20
        + cmd.imm % 4096 / 32 * 2 ^ 25
unfolding seq_stype
stype_sum cmd sqr h f = ground (
  arith,
  and_low 5 cmd.rs1,
  and_low 5 cmd.rs2,
  and_low 12 cmd.imm,
  and_low 5 (cmd.imm % 4096),
  or_shifted 7 cmd.opcode (cmd.imm % 32) h,
  or_shifted 12 (cmd.opcode + cmd.imm % 32 * 128) cmd.funct3 (omega arith),
  or_shifted 20 (cmd.rs1 % 32 * 2 ^ 15) (cmd.rs2 % 32) (omega arith),
  or_shifted 25 (cmd.rs1 % 32 * 2 ^ 15 + cmd.rs2 % 32 * 2 ^ 20) (cmd.imm % 4096 / 32) (omega arith),
)

pub itype_sum :
    (bit30 : ℕ) (cmd : IType) (sqr : Sequencer)
    → cmd.opcode < 128
    → cmd.funct3 < 8
    → (seq_itype bit30 cmd sqr).0.value
      ≡ u32 (
          cmd.opcode
          + cmd.rd % 32 * 128
          + cmd.funct3 * 4096
          + cmd.rs1 % 32 * 2 ^ 15
          + cmd.imm % 4096 * 2 ^ 20
          + bit30 * 2 ^ 30)
unfolding seq_itype
itype_sum bit30 cmd sqr h f = ground (
  arith,
  and_low 5 cmd.rs1,
  and_low 5 cmd.rd,
  and_low 12 cmd.imm,
  or_shifted 7 cmd.opcode (cmd.rd % 32) h,
  or_shifted 12 (cmd.opcode + cmd.rd % 32 * 128) cmd.funct3 (omega arith),
  or_shifted 20 (cmd.rs1 % 32 * 2 ^ 15) (cmd.imm % 4096) (omega arith),
)

pub rtype_sum :
    (cmd : RType) (sqr : Sequencer)
    → cmd.opcode < 128
    → cmd.funct3 < 8
    → cmd.funct7 < 128
    → (seq_rtype cmd sqr).0.value
      ≡ cmd.opcode
        + cmd.rd % 32 * 128
        + cmd.funct3 * 4096
        + cmd.rs1 % 32 * 2 ^ 15
        + cmd.rs2 % 32 * 2 ^ 20
        + cmd.funct7 * 2 ^ 25
unfolding seq_rtype
rtype_sum cmd sqr h f g = ground (
  arith,
  and_low 5 cmd.rd,
  and_low 5 cmd.rs1,
  and_low 5 cmd.rs2,
  or_shifted 7 cmd.opcode (cmd.rd % 32) h,
  or_shifted 12 (cmd.opcode + cmd.rd % 32 * 128) cmd.funct3 (omega arith),
  or_shifted 20 (cmd.rs1 % 32 * 2 ^ 15) (cmd.rs2 % 32) (omega arith),
  or_shifted 25 (cmd.rs1 % 32 * 2 ^ 15 + cmd.rs2 % 32 * 2 ^ 20) cmd.funct7 (omega arith),
)

-- The branch's immediate has bits on both sides of the other fields: cut the words at bit 12.
or_around :
    (op low mid top : ℕ)
    → op < 128
    → low < 32
    → mid < 2 ^ 13
    → bit_or (op + mid * 2 ^ 12) (low * 2 ^ 7 + top * 2 ^ 25)
      ≡ op + low * 2 ^ 7 + mid * 2 ^ 12 + top * 2 ^ 25
or_around op low mid top h l m = ground (
  arith,
  or_split 12 (op + mid * 2 ^ 12) (low * 2 ^ 7 + top * 2 ^ 25),
  or_shifted 13 mid top m,
  or_shifted 7 op low h,
)

pub btype_sum :
    (cmd : BType) (sqr : Sequencer)
    → cmd.opcode < 128
    → cmd.funct3 < 8
    → (seq_btype cmd sqr).0.value
      ≡ cmd.opcode
        + cmd.funct3 * 4096
        + cmd.rs1 % 32 * 2 ^ 15
        + cmd.rs2 % 32 * 2 ^ 20
        + btype_imm (cmd.imm % 4096 * 2)
unfolding seq_btype
btype_sum cmd sqr h f = ground (
  arith,
  and_low 5 cmd.rs1,
  and_low 5 cmd.rs2,
  and_low 12 cmd.imm,
  or_shifted 12 cmd.opcode cmd.funct3 (omega arith),
  or_shifted 15 (cmd.opcode + cmd.funct3 * 4096) (cmd.rs1 % 32) (omega arith),
  or_shifted 20 (cmd.opcode + cmd.funct3 * 4096 + cmd.rs1 % 32 * 2 ^ 15) (cmd.rs2 % 32)
      (omega arith),
  btype_imm_sum doubled,
  or_around cmd.opcode (doubled / 2 ^ 11 % 2 + doubled / 2 % 2 ^ 4 * 2)
      (cmd.funct3 + cmd.rs1 % 32 * 8 + cmd.rs2 % 32 * 256)
      (doubled / 2 ^ 5 % 2 ^ 6 + doubled / 2 ^ 12 % 2 * 64) h (omega arith) (omega arith),
)
  where
    doubled : ℕ
    doubled = cmd.imm % 4096 * 2
