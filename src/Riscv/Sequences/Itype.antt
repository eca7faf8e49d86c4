-- ===== src/Riscv/Sequences/Itype.antt =====
-- sequences.cpp: the common encoder of the I type commands, JALR and the system commands.
pub mod Load
pub mod Arithmetic
pub mod Csr
use verilog.Common.{ℕ, ◌+◌, ◌<<◌, ◌&◌, ◌∣∣◌, u32}
use verilog.Riscv.Isa.{opcode_i_type_jalr, opcode_system, imm_ecall, imm_ebreak, imm_mret}
use verilog.Riscv.Sequencer.{Sequencer, push_seq}
use verilog.Riscv.Commands.{IType, Pushes}

-- `bit30` is the function's last argument, 0 unless it is given.
unfoldable pub seq_itype : ℕ → Pushes IType
seq_itype bit30 cmd sqr =
    let rs1 = cmd.rs1 & 0x1F in
    let rd = cmd.rd & 0x1F in
    let imm = cmd.imm & 0xFFF in
    let low = cmd.opcode ∣∣ (rd << 7) ∣∣ (cmd.funct3 << 12) in
    let high = u32 (low + ((rs1 << 15) ∣∣ (imm << 20))) in
    let value = u32 (high + (bit30 << 30)) in
    (record cmd { rs1 = rs1; rd = rd; imm = imm; value = value }, push_seq value sqr)

unfoldable pub seq_jalr : Pushes IType
unfolding seq_itype
seq_jalr cmd sqr = seq_itype 0 (record cmd { opcode = opcode_i_type_jalr; funct3 = 0 }) sqr

unfoldable pub seq_ebreak : Pushes IType
unfolding seq_itype
seq_ebreak cmd sqr =
    seq_itype 0 (record cmd { opcode = opcode_system; rd = 0; rs1 = 0; imm = imm_ebreak }) sqr

unfoldable pub seq_ecall : Pushes IType
unfolding seq_itype
seq_ecall cmd sqr =
    seq_itype 0 (record cmd { opcode = opcode_system; rd = 0; rs1 = 0; imm = imm_ecall }) sqr

unfoldable pub seq_mret : Pushes IType
unfolding seq_itype
seq_mret cmd sqr =
    seq_itype 0 (record cmd { opcode = opcode_system; rd = 0; rs1 = 0; imm = imm_mret }) sqr
