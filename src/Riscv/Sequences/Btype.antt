-- ===== src/Riscv/Sequences/Btype.antt =====
-- sequences.cpp: the conditional branches.
use verilog.Common.{ℕ, ◌+◌, ◌==◌, ◌<<◌, ◌>>◌, ◌&◌, ◌∣∣◌, u32, if◌then◌else◌}
use verilog.Riscv.Isa.{
  opcode_b_type, op_b_type_beq, op_b_type_bne, op_b_type_blt, op_b_type_bge, op_b_type_bltu,
  op_b_type_bgeu,
}
use verilog.Riscv.Sequencer.{Sequencer, push_seq}
use verilog.Riscv.Commands.{BType, Pushes}

-- The bits of the doubled immediate at their places: 12 | 10:5 from bit 25, 4:1 | 11 from bit 7.
unfoldable pub btype_imm : ℕ → ℕ
btype_imm imm =
    let part1 = ((imm & 0x800) >> 11) << 7 in
    let part2 = u32 (part1 + (((imm & 0x1E) >> 1) << 8)) in
    let part3 = u32 (part2 + (((imm & 0x7E0) >> 5) << 25)) in
    u32 (part3 + (((imm & 0x1000) >> 12) << 31))

unfoldable pub seq_btype : Pushes BType
unfolding btype_imm
seq_btype cmd sqr =
    let rs1 = cmd.rs1 & 0x1F in
    let rs2 = cmd.rs2 & 0x1F in
    let doubled = (cmd.imm & 0xFFF) << 1 in
    let value =
      cmd.opcode ∣∣ (cmd.funct3 << 12) ∣∣ (rs1 << 15) ∣∣ (rs2 << 20) ∣∣ btype_imm doubled in
    (record cmd { rs1 = rs1; rs2 = rs2; imm = doubled >> 1; value = value }, push_seq value sqr)

unfoldable pub seq_beq : Pushes BType
unfolding seq_btype
seq_beq cmd sqr = seq_btype (record cmd { opcode = opcode_b_type; funct3 = op_b_type_beq }) sqr

unfoldable pub seq_bne : Pushes BType
unfolding seq_btype
seq_bne cmd sqr = seq_btype (record cmd { opcode = opcode_b_type; funct3 = op_b_type_bne }) sqr

unfoldable pub seq_blt : Pushes BType
unfolding seq_btype
seq_blt cmd sqr = seq_btype (record cmd { opcode = opcode_b_type; funct3 = op_b_type_blt }) sqr

unfoldable pub seq_bge : Pushes BType
unfolding seq_btype
seq_bge cmd sqr = seq_btype (record cmd { opcode = opcode_b_type; funct3 = op_b_type_bge }) sqr

unfoldable pub seq_bltu : Pushes BType
unfolding seq_btype
seq_bltu cmd sqr = seq_btype (record cmd { opcode = opcode_b_type; funct3 = op_b_type_bltu }) sqr

unfoldable pub seq_bgeu : Pushes BType
unfolding seq_btype
seq_bgeu cmd sqr = seq_btype (record cmd { opcode = opcode_b_type; funct3 = op_b_type_bgeu }) sqr

-- Any other opcode prints an error and changes nothing.
unfoldable pub set_btype : BType → ℕ → Sequencer → BType × Sequencer
unfolding seq_beq seq_bne seq_blt seq_bge seq_bltu seq_bgeu
set_btype btype btype_opcode sqr =
    if btype_opcode == op_b_type_beq
    then seq_beq btype sqr
    else if btype_opcode == op_b_type_bne
    then seq_bne btype sqr
    else if btype_opcode == op_b_type_blt
    then seq_blt btype sqr
    else if btype_opcode == op_b_type_bge
    then seq_bge btype sqr
    else if btype_opcode == op_b_type_bltu
    then seq_bltu btype sqr
    else if btype_opcode == op_b_type_bgeu
    then seq_bgeu btype sqr
    else (btype, sqr)
