-- ===== src/Riscv/Rtl/Decode.antt =====
-- RISCV_SingleCycle/decode.sv, with IALIGN = 32 and ZICSR defined.
pub mod Kinds
use verilog.Common.{
  ℕ, ◌+◌, ◌-◌, ◌*◌, ◌/◌, ◌%◌, ◌^◌, Bool, true, false, not, ◌&&◌, ◌||◌, ◌==◌, truth, if◌then◌else◌,
}
use verilog.Riscv.Isa.{
  opcode_s_type, opcode_b_type, opcode_u_type_lui, opcode_u_type_auipc, opcode_u_type_jal,
  opcode_r_type, opcode_rtype_32, opcode_i_type_alu, opcode_itype_imm_32, opcode_i_type_load,
  opcode_i_type_jalr, opcode_i_type_fl, opcode_system,
}

-- `x[lo + width - 1 : lo]`
abbrev pub slice : ℕ → ℕ → ℕ → ℕ
slice x lo width = x / 2 ^ lo % 2 ^ width

-- `{n{bit}}`
abbrev pub copies : ℕ → ℕ → ℕ
copies n bit = bit * (2 ^ n - 1)

-- The one-bit outputs that the `case` on the opcode sets.
pub record Kind : Type 0 where
  pub r_type : Bool
  pub i_type : Bool
  pub s_type : Bool
  pub b_type : Bool
  pub u_type : Bool
  pub j_type : Bool
  pub c_type : Bool
  pub y_type : Bool
  pub is_op32 : Bool
  pub illegal_op : Bool
  pub illegal_funct3 : Bool

abbrev pub no_kind : Kind
no_kind = record {
  r_type = false;
  i_type = false;
  s_type = false;
  b_type = false;
  u_type = false;
  j_type = false;
  c_type = false;
  y_type = false;
  is_op32 = false;
  illegal_op = false;
  illegal_funct3 = false;
}

unfoldable pub system_kind : ℕ → Bool → Bool → Kind
system_kind funct3 rd_ok rs1_ok =
    if funct3 == 4
    then record no_kind { illegal_funct3 = true }
    else if truth funct3
    then record no_kind { i_type = true; c_type = true }
    else if not rs1_ok && not rd_ok
    then record no_kind { i_type = true; y_type = true }
    else record no_kind { i_type = true; illegal_funct3 = true }

unfoldable pub kind : ℕ → ℕ → Bool → Bool → Kind
unfolding system_kind
kind opcode funct3 rd_ok rs1_ok =
    if opcode == opcode_rtype_32
    then record no_kind { r_type = true; is_op32 = true }
    else if opcode == opcode_r_type
    then record no_kind { r_type = true }
    else if opcode == opcode_s_type
    then record no_kind { s_type = true }
    else if opcode == opcode_b_type
    then record no_kind { b_type = true; illegal_funct3 = funct3 == 2 || funct3 == 3 }
    else if opcode == opcode_u_type_jal
    then record no_kind { j_type = true }
    else if opcode == opcode_u_type_lui || opcode == opcode_u_type_auipc
    then record no_kind { u_type = true }
    else if opcode == opcode_i_type_fl
    then record no_kind { illegal_op = true }
    else if opcode == opcode_i_type_alu
        || opcode == opcode_i_type_load
        || opcode == opcode_i_type_jalr
    then record no_kind { i_type = true }
    else if opcode == opcode_itype_imm_32
    then record no_kind { i_type = true; is_op32 = true }
    else if opcode == opcode_system
    then system_kind funct3 rd_ok rs1_ok
    else record no_kind { illegal_op = true }

unfoldable pub imm_j : ℕ → ℕ
imm_j i =
    copies 12 (slice i 31 1) * 2 ^ 20
    + slice i 12 8 * 2 ^ 12
    + slice i 20 1 * 2 ^ 11
    + slice i 21 10 * 2

unfoldable pub imm_b : ℕ → ℕ
imm_b i =
    copies 20 (slice i 31 1) * 2 ^ 12
    + slice i 7 1 * 2 ^ 11
    + slice i 25 6 * 2 ^ 5
    + slice i 8 4 * 2

unfoldable pub imm_s : ℕ → ℕ
imm_s i = copies 21 (slice i 31 1) * 2 ^ 11 + slice i 25 6 * 2 ^ 5 + slice i 7 5

unfoldable pub imm_i : ℕ → ℕ
imm_i i = copies 20 (slice i 31 1) * 2 ^ 12 + slice i 20 12

unfoldable pub imm_u : ℕ → ℕ
imm_u i = slice i 12 20 * 2 ^ 12

unfoldable pub immediate_of : Kind → ℕ → ℕ
unfolding imm_j imm_b imm_s imm_i imm_u
immediate_of k i =
    if k.s_type
    then imm_s i
    else if k.i_type
    then imm_i i
    else if k.b_type
    then imm_b i
    else if k.u_type
    then imm_u i
    else if k.j_type
    then imm_j i
    else 0

pub record Decoded : Type 0 where
  pub opcode : ℕ
  pub rd_addr : ℕ
  pub rs1_addr : ℕ
  pub rs2_addr : ℕ
  pub funct3 : ℕ
  pub funct7 : ℕ
  pub immediate : ℕ
  pub kinds : Kind
  pub illegal : Bool

-- `funct3` stands higher in a 32-bit instruction than in a compressed one.
unfoldable pub funct3_of : ℕ → ℕ
funct3_of i = if slice i 0 7 == 0 || slice i 0 2 == 3 then slice i 12 3 else slice i 13 3

unfoldable pub decode : ℕ → Decoded
decode i =
    let k = kind (slice i 0 7) (funct3_of i) (truth (slice i 7 5)) (truth (slice i 15 5)) in
    record {
      opcode = slice i 0 7;
      rd_addr = slice i 7 5;
      rs1_addr = slice i 15 5;
      rs2_addr = slice i 20 5;
      funct3 = funct3_of i;
      funct7 = slice i 25 7;
      immediate = immediate_of k i;
      kinds = k;
      illegal = k.illegal_op || k.illegal_funct3;
    }
