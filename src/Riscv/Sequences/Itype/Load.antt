-- ===== src/Riscv/Sequences/Itype/Load.antt =====
-- sequences.cpp: the loads.
use verilog.Common.{ℕ, ◌-◌, ◌^◌, ◌==◌, truth, if◌then◌else◌}
use verilog.Riscv.Isa.{
  opcode_i_type_load, op_dmem_byte, op_dmem_half, op_dmem_word, op_dmem_dubl, op_dmem_trpl,
  op_i_type_lbu, op_i_type_lhu, op_i_type_lwu,
}
use verilog.Riscv.Sequencer.{Sequencer}
use verilog.Riscv.Commands.{IType, Pushes}
use verilog.Riscv.Sequences.Itype.{seq_itype}

unfoldable pub seq_lb : Pushes IType
unfolding seq_itype
seq_lb cmd sqr =
    seq_itype 0 (record cmd { opcode = opcode_i_type_load; funct3 = op_dmem_byte; datamask = 0xFF })
      sqr

unfoldable pub seq_lh : Pushes IType
unfolding seq_itype
seq_lh cmd sqr =
    seq_itype 0
      (record cmd { opcode = opcode_i_type_load; funct3 = op_dmem_half; datamask = 0xFFFF }) sqr

unfoldable pub seq_lw : Pushes IType
unfolding seq_itype
seq_lw cmd sqr =
    seq_itype 0
      (record cmd { opcode = opcode_i_type_load; funct3 = op_dmem_word; datamask = 0xFFFFFFFF }) sqr

unfoldable pub seq_ld : Pushes IType
unfolding seq_itype
seq_ld cmd sqr =
    seq_itype 0
      (record cmd { opcode = opcode_i_type_load; funct3 = op_dmem_dubl; datamask = 2 ^ 64 - 1 }) sqr

unfoldable pub seq_lt : Pushes IType
unfolding seq_itype
seq_lt cmd sqr =
    seq_itype 0
      (record cmd { opcode = opcode_i_type_load; funct3 = op_dmem_trpl; datamask = 0xFFFFFF }) sqr

unfoldable pub seq_lbu : Pushes IType
unfolding seq_itype
seq_lbu cmd sqr =
    seq_itype 0
      (record cmd { opcode = opcode_i_type_load; funct3 = op_i_type_lbu; datamask = 0xFF }) sqr

unfoldable pub seq_lhu : Pushes IType
unfolding seq_itype
seq_lhu cmd sqr =
    seq_itype 0
      (record cmd { opcode = opcode_i_type_load; funct3 = op_i_type_lhu; datamask = 0xFFFF }) sqr

unfoldable pub seq_lwu : Pushes IType
unfolding seq_itype
seq_lwu cmd sqr =
    seq_itype 0
      (record cmd { opcode = opcode_i_type_load; funct3 = op_i_type_lwu; datamask = 0xFFFFFFFF })
      sqr

-- The triple load is always unsigned and the double one always signed. Any other width prints an
-- error and changes nothing.
unfoldable pub set_itype_load : IType → ℕ → ℕ → Sequencer → IType × Sequencer
unfolding seq_lb seq_lh seq_lw seq_ld seq_lt seq_lbu seq_lhu seq_lwu
set_itype_load load bits_width unsigned_commands sqr =
    if bits_width == 8
    then (if truth unsigned_commands then seq_lbu load sqr else seq_lb load sqr)
    else if bits_width == 16
    then (if truth unsigned_commands then seq_lhu load sqr else seq_lh load sqr)
    else if bits_width == 24
    then seq_lt load sqr
    else if bits_width == 32
    then (if truth unsigned_commands then seq_lwu load sqr else seq_lw load sqr)
    else if bits_width == 64
    then seq_ld load sqr
    else (load, sqr)
