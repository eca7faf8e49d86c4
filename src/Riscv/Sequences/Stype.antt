-- ===== src/Riscv/Sequences/Stype.antt =====
-- sequences.cpp: the stores.
use verilog.Common.{ℕ, ◌+◌, ◌-◌, ◌^◌, ◌==◌, ◌<<◌, ◌>>◌, ◌&◌, ◌∣∣◌, u32, if◌then◌else◌}
use verilog.Riscv.Isa.{
  opcode_s_type, op_dmem_byte, op_dmem_half, op_dmem_trpl, op_dmem_word, op_dmem_dubl,
}
use verilog.Riscv.Sequencer.{Sequencer, push_seq}
use verilog.Riscv.Commands.{SType, Pushes}

unfoldable pub seq_stype : Pushes SType
seq_stype cmd sqr =
    let rs1 = cmd.rs1 & 0x1F in
    let rs2 = cmd.rs2 & 0x1F in
    let imm = cmd.imm & 0xFFF in
    let low = cmd.opcode ∣∣ ((imm & 0x1F) << 7) ∣∣ (cmd.funct3 << 12) in
    let value = u32 (low + ((rs1 << 15) ∣∣ (rs2 << 20) ∣∣ ((imm >> 5) << 25))) in
    (record cmd { rs1 = rs1; rs2 = rs2; imm = imm; value = value }, push_seq value sqr)

unfoldable pub seq_sb : Pushes SType
unfolding seq_stype
seq_sb cmd sqr =
    seq_stype (record cmd { opcode = opcode_s_type; funct3 = op_dmem_byte; datamask = 0xFF }) sqr

unfoldable pub seq_sh : Pushes SType
unfolding seq_stype
seq_sh cmd sqr =
    seq_stype (record cmd { opcode = opcode_s_type; funct3 = op_dmem_half; datamask = 0xFFFF }) sqr

-- A custom command: store triple.
unfoldable pub seq_st : Pushes SType
unfolding seq_stype
seq_st cmd sqr =
    seq_stype (record cmd { opcode = opcode_s_type; funct3 = op_dmem_trpl; datamask = 0xFFFFFF })
      sqr

unfoldable pub seq_sw : Pushes SType
unfolding seq_stype
seq_sw cmd sqr =
    seq_stype (record cmd { opcode = opcode_s_type; funct3 = op_dmem_word; datamask = 0xFFFFFFFF })
      sqr

-- The mask is the `long` -1.
unfoldable pub seq_sd : Pushes SType
unfolding seq_stype
seq_sd cmd sqr =
    seq_stype (record cmd { opcode = opcode_s_type; funct3 = op_dmem_dubl; datamask = 2 ^ 64 - 1 })
      sqr

-- Any other width prints an error and changes nothing.
unfoldable pub set_stype : SType → ℕ → Sequencer → SType × Sequencer
unfolding seq_sb seq_sh seq_st seq_sw seq_sd
set_stype stype bits_width sqr =
    if bits_width == 8
    then seq_sb stype sqr
    else if bits_width == 16
    then seq_sh stype sqr
    else if bits_width == 24
    then seq_st stype sqr
    else if bits_width == 32
    then seq_sw stype sqr
    else if bits_width == 64
    then seq_sd stype sqr
    else (stype, sqr)
