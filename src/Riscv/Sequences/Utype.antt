-- ===== src/Riscv/Sequences/Utype.antt =====
-- sequences.cpp: LUI, AUIPC and JAL.
use verilog.Common.{ℕ, ◌+◌, ◌<<◌, ◌>>◌, ◌&◌, ◌∣∣◌, u32}
use verilog.Riscv.Isa.{opcode_u_type_lui, opcode_u_type_auipc, opcode_u_type_jal}
use verilog.Riscv.Sequencer.{push_seq}
use verilog.Riscv.Commands.{UType, Pushes}

unfoldable pub seq_utype : Pushes UType
seq_utype cmd sqr =
    let rd = cmd.rd & 0x1F in
    let imm = cmd.imm & 0xFFFFF in
    let value = cmd.opcode ∣∣ (rd << 7) ∣∣ (imm << 12) in
    (record cmd { rd = rd; imm = imm; value = value }, push_seq value sqr)

unfoldable pub seq_lui : Pushes UType
unfolding seq_utype
seq_lui cmd sqr = seq_utype (record cmd { opcode = opcode_u_type_lui }) sqr

unfoldable pub seq_auipc : Pushes UType
unfolding seq_utype
seq_auipc cmd sqr = seq_utype (record cmd { opcode = opcode_u_type_auipc }) sqr

-- The bits of the doubled immediate at their places: 20 | 10:1 | 11 | 19:12.
unfoldable pub jal_imm : ℕ → ℕ
jal_imm imm =
    let part1 = u32 (((imm & 0xFF000) >> 12) << 12) in
    let part2 = u32 (part1 + (((imm & 0x800) >> 11) << 20)) in
    let part3 = u32 (part2 + (((imm & 0x7FE) >> 1) << 21)) in
    u32 (part3 + (((imm & 0x100000) >> 20) << 31))

unfoldable pub seq_jal : Pushes UType
unfolding jal_imm
seq_jal cmd sqr =
    let rd = cmd.rd & 0x1F in
    let doubled = (cmd.imm & 0xFFFFF) << 1 in
    let value = opcode_u_type_jal ∣∣ (rd << 7) ∣∣ jal_imm doubled in
    (
      record cmd { opcode = opcode_u_type_jal; rd = rd; imm = doubled >> 1; value = value },
      push_seq value sqr,
    )
