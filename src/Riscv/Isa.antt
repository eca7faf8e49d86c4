-- ===== src/Riscv/Isa.antt =====
-- RISCV_SingleCycle/risc_pkg.sv: the constants that the testbench takes from the core's package,
-- and the parameters of testbench/common.h that are derived from them.
use verilog.Common.{ℕ, ◌-◌, ◌/◌}

-- The build's parameters: `RISCV_XLEN` (32 or 64) and the width of a data memory address.
pub record Config : Type 0 where
  pub xlen : ℕ
  pub addr_width : ℕ

-- The two builds that the core and its testbench have.
pub data Build : Type 0 where
  rv32 rv64 : Build

abbrev pub xlen_of : Build → ℕ
xlen_of rv32 = 32
xlen_of rv64 = 64

abbrev pub config : Build → ℕ → Config
config b addr_width = record { xlen = xlen_of b; addr_width = addr_width }

-- Major opcodes.
abbrev pub opcode_s_type : ℕ
opcode_s_type = 0b0100011

abbrev pub opcode_b_type : ℕ
opcode_b_type = 0b1100011

abbrev pub opcode_u_type_lui : ℕ
opcode_u_type_lui = 0b0110111

abbrev pub opcode_u_type_auipc : ℕ
opcode_u_type_auipc = 0b0010111

abbrev pub opcode_u_type_jal : ℕ
opcode_u_type_jal = 0b1101111

abbrev pub opcode_r_type : ℕ
opcode_r_type = 0b0110011

abbrev pub opcode_rtype_32 : ℕ
opcode_rtype_32 = 0b0111011

abbrev pub opcode_i_type_alu : ℕ
opcode_i_type_alu = 0b0010011

abbrev pub opcode_itype_imm_32 : ℕ
opcode_itype_imm_32 = 0b0011011

abbrev pub opcode_i_type_load : ℕ
opcode_i_type_load = 0b0000011

abbrev pub opcode_i_type_jalr : ℕ
opcode_i_type_jalr = 0b1100111

abbrev pub opcode_i_type_fl : ℕ
opcode_i_type_fl = 0b0000111

abbrev pub opcode_system : ℕ
opcode_system = 0b1110011

-- `funct3` of loads and stores.
abbrev pub op_dmem_byte : ℕ
op_dmem_byte = 0

abbrev pub op_dmem_half : ℕ
op_dmem_half = 1

abbrev pub op_dmem_word : ℕ
op_dmem_word = 2

abbrev pub op_dmem_dubl : ℕ
op_dmem_dubl = 3

abbrev pub op_i_type_lbu : ℕ
op_i_type_lbu = 4

abbrev pub op_i_type_lhu : ℕ
op_i_type_lhu = 5

abbrev pub op_i_type_lwu : ℕ
op_i_type_lwu = 6

abbrev pub op_dmem_trpl : ℕ
op_dmem_trpl = 7

-- `funct3` of the branches.
abbrev pub op_b_type_beq : ℕ
op_b_type_beq = 0

abbrev pub op_b_type_bne : ℕ
op_b_type_bne = 1

abbrev pub op_b_type_blt : ℕ
op_b_type_blt = 4

abbrev pub op_b_type_bge : ℕ
op_b_type_bge = 5

abbrev pub op_b_type_bltu : ℕ
op_b_type_bltu = 6

abbrev pub op_b_type_bgeu : ℕ
op_b_type_bgeu = 7

-- `funct3` of the arithmetic commands.
abbrev pub op_funct3_add : ℕ
op_funct3_add = 0

abbrev pub op_funct3_sll : ℕ
op_funct3_sll = 1

abbrev pub op_funct3_slt : ℕ
op_funct3_slt = 2

abbrev pub op_funct3_sltu : ℕ
op_funct3_sltu = 3

abbrev pub op_funct3_xor : ℕ
op_funct3_xor = 4

abbrev pub op_funct3_srl : ℕ
op_funct3_srl = 5

abbrev pub op_funct3_or : ℕ
op_funct3_or = 6

abbrev pub op_funct3_and : ℕ
op_funct3_and = 7

-- The ALU's own opcodes.
abbrev pub op_alu_add : ℕ
op_alu_add = 0

abbrev pub op_alu_sub : ℕ
op_alu_sub = 1

abbrev pub op_alu_sll : ℕ
op_alu_sll = 2

abbrev pub op_alu_srl : ℕ
op_alu_srl = 3

abbrev pub op_alu_sra : ℕ
op_alu_sra = 4

abbrev pub op_alu_xor : ℕ
op_alu_xor = 5

abbrev pub op_alu_and : ℕ
op_alu_and = 6

abbrev pub op_alu_or : ℕ
op_alu_or = 7

abbrev pub op_alu_slt : ℕ
op_alu_slt = 8

abbrev pub op_alu_sltu : ℕ
op_alu_sltu = 9

-- System immediates.
abbrev pub imm_ecall : ℕ
imm_ecall = 0

abbrev pub imm_ebreak : ℕ
imm_ebreak = 1

abbrev pub imm_mret : ℕ
imm_mret = 0x302

-- `funct3` of the CSR commands.
abbrev pub op_funct3_csrrw : ℕ
op_funct3_csrrw = 1

abbrev pub op_funct3_csrrs : ℕ
op_funct3_csrrs = 2

abbrev pub op_funct3_csrrc : ℕ
op_funct3_csrrc = 3

abbrev pub op_funct3_csrrwi : ℕ
op_funct3_csrrwi = 5

abbrev pub op_funct3_csrrsi : ℕ
op_funct3_csrrsi = 6

abbrev pub op_funct3_csrrci : ℕ
op_funct3_csrrci = 7

-- Bytes of an instruction, and the instruction memory's depth under Verilator.
abbrev pub ialign : ℕ
ialign = 32 / 8

abbrev pub inst_mem_depth : ℕ
inst_mem_depth = 4096

abbrev pub instructions_limit : ℕ
instructions_limit = inst_mem_depth / ialign - 20
