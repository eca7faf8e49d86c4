-- ===== src/Riscv/Sequences/Itype/Arithmetic.antt =====
-- sequences.cpp: arithmetic with an immediate. The shifts cut the amount to 5 bits, or to 6 in
-- the 64-bit build.
use verilog.Common.{ℕ, ◌==◌, ◌&◌, leb, truth, if◌then◌else◌}
use verilog.Riscv.Isa.{
  Config, opcode_i_type_alu, opcode_itype_imm_32, op_funct3_add, op_funct3_sll, op_funct3_slt,
  op_funct3_sltu, op_funct3_xor, op_funct3_srl, op_funct3_or, op_funct3_and, op_alu_add, op_alu_sll,
  op_alu_srl, op_alu_sra, op_alu_xor, op_alu_and, op_alu_or, op_alu_slt, op_alu_sltu,
}
use verilog.Riscv.Sequencer.{Sequencer}
use verilog.Riscv.Commands.{IType, Pushes}
use verilog.Riscv.Sequences.Itype.{seq_itype}

-- `XLEN >= 64 ? 0x3F : 0x1F`
abbrev pub shift_mask : Config → ℕ
shift_mask cfg = if leb 64 cfg.xlen then 0x3F else 0x1F

unfoldable pub seq_addi : Pushes IType
unfolding seq_itype
seq_addi cmd sqr =
    seq_itype 0 (record cmd { opcode = opcode_i_type_alu; funct3 = op_funct3_add }) sqr

unfoldable pub seq_slti : Pushes IType
unfolding seq_itype
seq_slti cmd sqr =
    seq_itype 0 (record cmd { opcode = opcode_i_type_alu; funct3 = op_funct3_slt }) sqr

unfoldable pub seq_sltiu : Pushes IType
unfolding seq_itype
seq_sltiu cmd sqr =
    seq_itype 0 (record cmd { opcode = opcode_i_type_alu; funct3 = op_funct3_sltu }) sqr

unfoldable pub seq_xori : Pushes IType
unfolding seq_itype
seq_xori cmd sqr =
    seq_itype 0 (record cmd { opcode = opcode_i_type_alu; funct3 = op_funct3_xor }) sqr

unfoldable pub seq_ori : Pushes IType
unfolding seq_itype
seq_ori cmd sqr = seq_itype 0 (record cmd { opcode = opcode_i_type_alu; funct3 = op_funct3_or }) sqr

unfoldable pub seq_andi : Pushes IType
unfolding seq_itype
seq_andi cmd sqr =
    seq_itype 0 (record cmd { opcode = opcode_i_type_alu; funct3 = op_funct3_and }) sqr

unfoldable pub seq_slli : Config → Pushes IType
unfolding seq_itype
seq_slli cfg cmd sqr =
    seq_itype 0
      (record cmd {
        opcode = opcode_i_type_alu;
        funct3 = op_funct3_sll;
        imm = cmd.imm & shift_mask cfg;
      })
      sqr

unfoldable pub seq_srli : Config → Pushes IType
unfolding seq_itype
seq_srli cfg cmd sqr =
    seq_itype 0
      (record cmd {
        opcode = opcode_i_type_alu;
        funct3 = op_funct3_srl;
        imm = cmd.imm & shift_mask cfg;
      })
      sqr

unfoldable pub seq_srai : Config → Pushes IType
unfolding seq_itype
seq_srai cfg cmd sqr =
    seq_itype 1
      (record cmd {
        opcode = opcode_i_type_alu;
        funct3 = op_funct3_srl;
        imm = cmd.imm & shift_mask cfg;
      })
      sqr

unfoldable pub seq_slliw : Pushes IType
unfolding seq_itype
seq_slliw cmd sqr =
    seq_itype 0
      (record cmd { opcode = opcode_itype_imm_32; funct3 = op_funct3_sll; imm = cmd.imm & 0x1F })
      sqr

unfoldable pub seq_sraiw : Pushes IType
unfolding seq_itype
seq_sraiw cmd sqr =
    seq_itype 1
      (record cmd { opcode = opcode_itype_imm_32; funct3 = op_funct3_srl; imm = cmd.imm & 0x1F })
      sqr

unfoldable pub seq_srliw : Pushes IType
unfolding seq_itype
seq_srliw cmd sqr =
    seq_itype 0
      (record cmd { opcode = opcode_itype_imm_32; funct3 = op_funct3_srl; imm = cmd.imm & 0x1F })
      sqr

unfoldable pub seq_addiw : Pushes IType
unfolding seq_itype
seq_addiw cmd sqr =
    seq_itype 0 (record cmd { opcode = opcode_itype_imm_32; funct3 = op_funct3_add }) sqr

-- Any other opcode prints an error and changes nothing.
unfoldable pub set_itype_arithmetic : Config → IType → ℕ → ℕ → Sequencer → IType × Sequencer
unfolding seq_addi seq_slti seq_sltiu seq_xori seq_ori seq_andi seq_slli seq_srli seq_srai seq_slliw
    seq_sraiw seq_srliw seq_addiw
set_itype_arithmetic cfg itype alu_opcode op32imm sqr =
    if alu_opcode == op_alu_add
    then (if truth op32imm then seq_addiw itype sqr else seq_addi itype sqr)
    else if alu_opcode == op_alu_sll
    then (if truth op32imm then seq_slliw itype sqr else seq_slli cfg itype sqr)
    else if alu_opcode == op_alu_srl
    then (if truth op32imm then seq_srliw itype sqr else seq_srli cfg itype sqr)
    else if alu_opcode == op_alu_sra
    then (if truth op32imm then seq_sraiw itype sqr else seq_srai cfg itype sqr)
    else if alu_opcode == op_alu_xor
    then seq_xori itype sqr
    else if alu_opcode == op_alu_and
    then seq_andi itype sqr
    else if alu_opcode == op_alu_or
    then seq_ori itype sqr
    else if alu_opcode == op_alu_slt
    then seq_slti itype sqr
    else if alu_opcode == op_alu_sltu
    then seq_sltiu itype sqr
    else (itype, sqr)
