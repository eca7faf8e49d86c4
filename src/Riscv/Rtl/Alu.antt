-- ===== src/Riscv/Rtl/Alu.antt =====
-- RISCV_SingleCycle/alu.sv (`alu_dataflow`) and branch_control.sv, on data of `xlen` bits: what both
-- do where GATE_FLOW_OFF is defined, without the adder and the shifter of the default build.
use verilog.Common.{
  ℕ, ◌+◌, ◌-◌, ◌*◌, ◌/◌, ◌%◌, ◌^◌, Bool, false, not, ltb, leb, ◌==◌, ◌&◌, ◌∣∣◌, bit_xor, as_int,
  if◌then◌else◌,
}
use verilog.Riscv.Isa.{
  op_alu_add, op_alu_sub, op_alu_sll, op_alu_srl, op_alu_sra, op_alu_xor, op_alu_and, op_alu_or,
  op_alu_slt, op_alu_sltu, op_b_type_beq, op_b_type_bne, op_b_type_blt, op_b_type_bge,
  op_b_type_bltu, op_b_type_bgeu,
}

-- `$clog2(XLEN)` at the two widths.
abbrev pub clog2 : ℕ → ℕ
clog2 xlen = if leb 64 xlen then 6 else 5

-- `$signed(x) >>> k` of a word of `w` bits.
abbrev pub shift_right_signed : ℕ → ℕ → ℕ → ℕ
shift_right_signed w x k =
    if ltb x (2 ^ (w - 1)) then x / 2 ^ k else x / 2 ^ k + (2 ^ w - 2 ^ (w - k))

-- `$signed(a) < $signed(b)` on words of `w` bits.
abbrev pub less_signed : ℕ → ℕ → ℕ → Bool
less_signed w a b = ltb ((a + 2 ^ (w - 1)) % 2 ^ w) ((b + 2 ^ (w - 1)) % 2 ^ w)

unfoldable pub alu_dataflow : ℕ → ℕ → ℕ → ℕ → ℕ
alu_dataflow xlen alu_op alu_a alu_b =
    if alu_op == op_alu_add
    then (alu_a + alu_b) % 2 ^ xlen
    else if alu_op == op_alu_sub
    then (alu_a + 2 ^ xlen - alu_b) % 2 ^ xlen
    else if alu_op == op_alu_sll
    then alu_a * 2 ^ (alu_b % 2 ^ clog2 xlen) % 2 ^ xlen
    else if alu_op == op_alu_srl
    then alu_a / 2 ^ (alu_b % 2 ^ clog2 xlen)
    else if alu_op == op_alu_sra
    then shift_right_signed xlen alu_a (alu_b % 2 ^ clog2 xlen)
    else if alu_op == op_alu_xor
    then bit_xor alu_a alu_b
    else if alu_op == op_alu_and
    then alu_a & alu_b
    else if alu_op == op_alu_or
    then alu_a ∣∣ alu_b
    else if alu_op == op_alu_slt
    then as_int (less_signed xlen alu_a alu_b)
    else if alu_op == op_alu_sltu
    then as_int (ltb alu_a alu_b)
    else 0

unfoldable pub branch_taken : ℕ → Bool → ℕ → ℕ → ℕ → Bool
branch_taken xlen b_type funct3 rs1_data rs2_data =
    if b_type
    then (if funct3 == op_b_type_beq
        then rs1_data == rs2_data
        else if funct3 == op_b_type_bne
        then not (rs1_data == rs2_data)
        else if funct3 == op_b_type_blt
        then less_signed xlen rs1_data rs2_data
        else if funct3 == op_b_type_bge
        then not (less_signed xlen rs1_data rs2_data)
        else if funct3 == op_b_type_bltu
        then ltb rs1_data rs2_data
        else if funct3 == op_b_type_bgeu
        then not (ltb rs1_data rs2_data)
        else false)
    else false
