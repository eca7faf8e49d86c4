-- ===== src/Riscv/Sequences/Rtype.antt =====
-- sequences.cpp: the register to register commands.
use verilog.Common.{ℕ, ◌+◌, ◌==◌, ◌<<◌, ◌&◌, ◌∣∣◌, u32, truth, if◌then◌else◌}
use verilog.Riscv.Isa.{
  opcode_r_type, opcode_rtype_32, op_funct3_add, op_funct3_sll, op_funct3_slt, op_funct3_sltu,
  op_funct3_xor, op_funct3_srl, op_funct3_or, op_funct3_and, op_alu_add, op_alu_sub, op_alu_sll,
  op_alu_srl, op_alu_sra, op_alu_xor, op_alu_and, op_alu_or, op_alu_slt, op_alu_sltu,
}
use verilog.Riscv.Sequencer.{Sequencer, push_seq}
use verilog.Riscv.Commands.{RType, Pushes}

unfoldable pub seq_rtype : Pushes RType
seq_rtype cmd sqr =
    let rd = cmd.rd & 0x1F in
    let rs1 = cmd.rs1 & 0x1F in
    let rs2 = cmd.rs2 & 0x1F in
    let low = cmd.opcode ∣∣ (rd << 7) ∣∣ (cmd.funct3 << 12) in
    let value = u32 (low + ((rs1 << 15) ∣∣ (rs2 << 20) ∣∣ (cmd.funct7 << 25))) in
    (record cmd { rd = rd; rs1 = rs1; rs2 = rs2; value = value }, push_seq value sqr)

unfoldable pub seq_add : Pushes RType
unfolding seq_rtype
seq_add cmd sqr =
    seq_rtype (record cmd { opcode = opcode_r_type; funct3 = op_funct3_add; funct7 = 0 }) sqr

unfoldable pub seq_sub : Pushes RType
unfolding seq_rtype
seq_sub cmd sqr =
    seq_rtype (record cmd { opcode = opcode_r_type; funct3 = op_funct3_add; funct7 = 0x20 }) sqr

unfoldable pub seq_sll : Pushes RType
unfolding seq_rtype
seq_sll cmd sqr =
    seq_rtype (record cmd { opcode = opcode_r_type; funct3 = op_funct3_sll; funct7 = 0 }) sqr

unfoldable pub seq_slt : Pushes RType
unfolding seq_rtype
seq_slt cmd sqr =
    seq_rtype (record cmd { opcode = opcode_r_type; funct3 = op_funct3_slt; funct7 = 0 }) sqr

unfoldable pub seq_sltu : Pushes RType
unfolding seq_rtype
seq_sltu cmd sqr =
    seq_rtype (record cmd { opcode = opcode_r_type; funct3 = op_funct3_sltu; funct7 = 0 }) sqr

unfoldable pub seq_xor : Pushes RType
unfolding seq_rtype
seq_xor cmd sqr =
    seq_rtype (record cmd { opcode = opcode_r_type; funct3 = op_funct3_xor; funct7 = 0 }) sqr

unfoldable pub seq_or : Pushes RType
unfolding seq_rtype
seq_or cmd sqr =
    seq_rtype (record cmd { opcode = opcode_r_type; funct3 = op_funct3_or; funct7 = 0 }) sqr

unfoldable pub seq_and : Pushes RType
unfolding seq_rtype
seq_and cmd sqr =
    seq_rtype (record cmd { opcode = opcode_r_type; funct3 = op_funct3_and; funct7 = 0 }) sqr

unfoldable pub seq_srl : Pushes RType
unfolding seq_rtype
seq_srl cmd sqr =
    seq_rtype (record cmd { opcode = opcode_r_type; funct3 = op_funct3_srl; funct7 = 0 }) sqr

unfoldable pub seq_sra : Pushes RType
unfolding seq_rtype
seq_sra cmd sqr =
    seq_rtype (record cmd { opcode = opcode_r_type; funct3 = op_funct3_srl; funct7 = 0x20 }) sqr

unfoldable pub seq_addw : Pushes RType
unfolding seq_rtype
seq_addw cmd sqr =
    seq_rtype (record cmd { opcode = opcode_rtype_32; funct3 = op_funct3_add; funct7 = 0 }) sqr

unfoldable pub seq_subw : Pushes RType
unfolding seq_rtype
seq_subw cmd sqr =
    seq_rtype (record cmd { opcode = opcode_rtype_32; funct3 = op_funct3_add; funct7 = 0x20 }) sqr

unfoldable pub seq_sllw : Pushes RType
unfolding seq_rtype
seq_sllw cmd sqr =
    seq_rtype (record cmd { opcode = opcode_rtype_32; funct3 = op_funct3_sll; funct7 = 0 }) sqr

unfoldable pub seq_srlw : Pushes RType
unfolding seq_rtype
seq_srlw cmd sqr =
    seq_rtype (record cmd { opcode = opcode_rtype_32; funct3 = op_funct3_srl; funct7 = 0 }) sqr

unfoldable pub seq_sraw : Pushes RType
unfolding seq_rtype
seq_sraw cmd sqr =
    seq_rtype (record cmd { opcode = opcode_rtype_32; funct3 = op_funct3_srl; funct7 = 0x20 }) sqr

-- Any other opcode prints an error and changes nothing.
unfoldable pub set_rtype : RType → ℕ → ℕ → Sequencer → RType × Sequencer
unfolding seq_add seq_sub seq_sll seq_slt seq_sltu seq_xor seq_or seq_and seq_srl seq_sra seq_addw
    seq_subw seq_sllw seq_srlw seq_sraw
set_rtype rtype alu_opcode op32 sqr =
    if alu_opcode == op_alu_add
    then (if truth op32 then seq_addw rtype sqr else seq_add rtype sqr)
    else if alu_opcode == op_alu_sub
    then (if truth op32 then seq_subw rtype sqr else seq_sub rtype sqr)
    else if alu_opcode == op_alu_sll
    then (if truth op32 then seq_sllw rtype sqr else seq_sll rtype sqr)
    else if alu_opcode == op_alu_srl
    then (if truth op32 then seq_srlw rtype sqr else seq_srl rtype sqr)
    else if alu_opcode == op_alu_sra
    then (if truth op32 then seq_sraw rtype sqr else seq_sra rtype sqr)
    else if alu_opcode == op_alu_xor
    then seq_xor rtype sqr
    else if alu_opcode == op_alu_and
    then seq_and rtype sqr
    else if alu_opcode == op_alu_or
    then seq_or rtype sqr
    else if alu_opcode == op_alu_slt
    then seq_slt rtype sqr
    else if alu_opcode == op_alu_sltu
    then seq_sltu rtype sqr
    else (rtype, sqr)
