-- ===== src/Riscv/Rtl/Control.antt =====
-- RISCV_SingleCycle/control.sv.
use verilog.Common.{ℕ, Bool, not, ◌&&◌, ◌||◌, ◌==◌, leb, truth, if◌then◌else◌}
use verilog.Riscv.Isa.{
  Config, opcode_b_type, opcode_u_type_lui, opcode_u_type_auipc, opcode_u_type_jal,
  opcode_i_type_load, opcode_i_type_jalr, opcode_i_type_fl, op_dmem_byte, op_dmem_half,
  op_dmem_word, op_dmem_dubl, op_dmem_trpl, op_i_type_lbu, op_i_type_lhu, op_i_type_lwu,
  op_funct3_sll, op_funct3_slt, op_funct3_sltu, op_funct3_xor, op_funct3_srl, op_funct3_or,
  op_funct3_and, op_alu_add, op_alu_sub, op_alu_sll, op_alu_srl, op_alu_sra, op_alu_xor, op_alu_and,
  op_alu_or, op_alu_slt, op_alu_sltu, op_funct3_csrrs, op_funct3_csrrsi, op_funct3_csrrc,
  op_funct3_csrrci,
}
use verilog.Riscv.Rtl.Decode.{Kind, Decoded, slice}

-- `op_enum_wr_data_sel`
pub data WrDataSel : Type 0 where
  sel_alu sel_mem sel_imm sel_pc : WrDataSel

pub record Control : Type 0 where
  pub pc_sel : Bool
  pub alua_sel : Bool
  pub alub_sel : Bool
  pub rf_wr_en : Bool
  pub dmem_req : Bool
  pub dmem_wr : Bool
  pub dmem_zero_ex : Bool
  pub dmem_size : ℕ
  pub rf_wr_data_sel : WrDataSel
  pub alu_op : ℕ

abbrev pub bit_of : ℕ → ℕ → Bool
bit_of x k = truth (slice x k 1)

-- `$clog2(RISCV_XLEN) - 3` at the two widths.
abbrev pub word_size : Config → ℕ
word_size cfg = if leb 64 cfg.xlen then op_dmem_dubl else op_dmem_word

-- The `case` on `funct3` that R type and immediate commands share; `op_add` is the default.
unfoldable pub arithmetic_op : ℕ → ℕ → ℕ → ℕ
arithmetic_op funct3 op_sri op_add =
    if funct3 == op_funct3_slt
    then op_alu_slt
    else if funct3 == op_funct3_sltu
    then op_alu_sltu
    else if funct3 == op_funct3_xor
    then op_alu_xor
    else if funct3 == op_funct3_or
    then op_alu_or
    else if funct3 == op_funct3_and
    then op_alu_and
    else if funct3 == op_funct3_sll
    then op_alu_sll
    else if funct3 == op_funct3_srl
    then op_sri
    else op_add

-- The later blocks override the earlier: CSR first, then immediate, then register commands.
unfoldable pub alu_op_of : Kind → ℕ → ℕ → ℕ → ℕ
unfolding arithmetic_op
alu_op_of k opcode funct3 funct7 =
    let op_sri = if bit_of funct7 5 then op_alu_sra else op_alu_srl in
    let op_add = if bit_of funct7 5 then op_alu_sub else op_alu_add in
    if k.c_type
    then (if funct3 == op_funct3_csrrs || funct3 == op_funct3_csrrsi
        then op_alu_or
        else if funct3 == op_funct3_csrrc || funct3 == op_funct3_csrrci
        then op_alu_and
        else op_alu_add)
    else if k.i_type && bit_of opcode 4
    then arithmetic_op funct3 op_sri op_alu_add
    else if k.r_type
    then arithmetic_op funct3 op_sri op_add
    else op_alu_add

unfoldable pub dmem_size_of : Config → Bool → ℕ → ℕ
dmem_size_of cfg memory funct3 =
    if not memory
    then word_size cfg
    else if funct3 == op_dmem_byte || funct3 == op_i_type_lbu
    then op_dmem_byte
    else if funct3 == op_dmem_half || funct3 == op_i_type_lhu
    then op_dmem_half
    else if funct3 == op_dmem_word || funct3 == op_i_type_lwu
    then op_dmem_word
    else if funct3 == op_dmem_dubl
    then op_dmem_dubl
    else if funct3 == op_dmem_trpl
    then op_dmem_trpl
    else word_size cfg

unfoldable pub rf_wr_data_sel_of : ℕ → WrDataSel
rf_wr_data_sel_of opcode =
    if opcode == opcode_u_type_lui
    then sel_imm
    else if opcode == opcode_u_type_jal || opcode == opcode_i_type_jalr
    then sel_pc
    else if opcode == opcode_i_type_load || opcode == opcode_i_type_fl
    then sel_mem
    else sel_alu

unfoldable pub control : Config → Decoded → Control
control cfg d =
    let k = d.kinds in
    let l_type = k.i_type && not (bit_of d.opcode 4) && not (bit_of d.opcode 5) in
    record {
      pc_sel = d.opcode == opcode_u_type_jal || d.opcode == opcode_i_type_jalr;
      alua_sel =
          d.opcode == opcode_b_type
          || d.opcode == opcode_u_type_jal
          || d.opcode == opcode_u_type_auipc;
      alub_sel = not k.r_type;
      rf_wr_en = not k.s_type && not k.b_type;
      dmem_req = k.s_type || l_type;
      dmem_wr = k.s_type;
      dmem_zero_ex = l_type && bit_of d.funct3 2;
      dmem_size = dmem_size_of cfg (k.s_type || l_type) d.funct3;
      rf_wr_data_sel = rf_wr_data_sel_of d.opcode;
      alu_op = alu_op_of k d.opcode d.funct3 d.funct7;
    }
