-- ===== src/Riscv/Sequences/Itype/Csr.antt =====
-- sequences.cpp: the CSR commands.
use verilog.Common.{ℕ, ◌==◌, if◌then◌else◌}
use verilog.Riscv.Isa.{
  opcode_system, op_funct3_csrrw, op_funct3_csrrs, op_funct3_csrrc, op_funct3_csrrwi,
  op_funct3_csrrsi, op_funct3_csrrci,
}
use verilog.Riscv.Sequencer.{Sequencer}
use verilog.Riscv.Commands.{IType, Pushes}
use verilog.Riscv.Sequences.Itype.{seq_itype}

unfoldable pub seq_csrrw : Pushes IType
unfolding seq_itype
seq_csrrw cmd sqr = seq_itype 0 (record cmd { opcode = opcode_system; funct3 = 1 }) sqr

unfoldable pub seq_csrrwi : Pushes IType
unfolding seq_itype
seq_csrrwi cmd sqr = seq_itype 0 (record cmd { opcode = opcode_system; funct3 = 5 }) sqr

unfoldable pub seq_csrrs : Pushes IType
unfolding seq_itype
seq_csrrs cmd sqr = seq_itype 0 (record cmd { opcode = opcode_system; funct3 = 2 }) sqr

unfoldable pub seq_csrrsi : Pushes IType
unfolding seq_itype
seq_csrrsi cmd sqr = seq_itype 0 (record cmd { opcode = opcode_system; funct3 = 6 }) sqr

unfoldable pub seq_csrrc : Pushes IType
unfolding seq_itype
seq_csrrc cmd sqr = seq_itype 0 (record cmd { opcode = opcode_system; funct3 = 3 }) sqr

unfoldable pub seq_csrrci : Pushes IType
unfolding seq_itype
seq_csrrci cmd sqr = seq_itype 0 (record cmd { opcode = opcode_system; funct3 = 7 }) sqr

-- Any other `funct3` prints an error and changes nothing.
unfoldable pub set_csr : IType → ℕ → Sequencer → IType × Sequencer
unfolding seq_csrrw seq_csrrwi seq_csrrs seq_csrrsi seq_csrrc seq_csrrci
set_csr itype funct3 sqr =
    if funct3 == op_funct3_csrrw
    then seq_csrrw itype sqr
    else if funct3 == op_funct3_csrrs
    then seq_csrrs itype sqr
    else if funct3 == op_funct3_csrrc
    then seq_csrrc itype sqr
    else if funct3 == op_funct3_csrrwi
    then seq_csrrwi itype sqr
    else if funct3 == op_funct3_csrrsi
    then seq_csrrsi itype sqr
    else if funct3 == op_funct3_csrrci
    then seq_csrrci itype sqr
    else (itype, sqr)
