-- ===== src/Examples/Commands.antt =====
-- RISCV_SingleCycle/testbench/sequences.cpp: commands of a 64-bit build.
use verilog.Common.{◌*◌, ◌-◌, ◌%◌, ◌^◌, ◌≡◌, refl, [], true, false, truth, ◌&&◌}
use verilog.Riscv.Isa.{Config, opcode_u_type_lui}
use verilog.Riscv.Sequencer.{Sequencer, push_seq}
use verilog.Riscv.Commands.{UType, SType, IType, BType, RType}
use verilog.Riscv.Sequences.Utype.{seq_lui, seq_jal}
use verilog.Riscv.Sequences.Stype.{set_stype}
use verilog.Riscv.Sequences.Btype.{set_btype}
use verilog.Riscv.Sequences.Rtype.{set_rtype}
use verilog.Riscv.Sequences.Itype.{seq_ebreak, seq_ecall, seq_mret}
use verilog.Riscv.Sequences.Itype.Load.{set_itype_load}
use verilog.Riscv.Sequences.Itype.Arithmetic.{set_itype_arithmetic}
use verilog.Riscv.Sequences.Itype.Csr.{set_csr}
use verilog.Riscv.Rtl.Decode.{decode, no_kind}
use verilog.Riscv.Sequences.RoundTrip.{sext32, decode-seq_lui, decode-seq_jal}
use verilog.Riscv.Sequences.Dispatch.{sub, sra, code, has_word_form}
use verilog.Riscv.Sequences.Dispatch.Registers.{ComputesR, set_rtype-ComputesR}
use verilog.Riscv.Sequences.Dispatch.Immediates.{ComputesI, set_itype_arithmetic-ComputesI}
use verilog.Riscv.Sequences.Dispatch.Memory.{
  half, triple, bits, StoresAt, LoadsFrom, set_stype-StoresAt, set_itype_load-LoadsFrom,
}
use verilog.Riscv.Sequences.Dispatch.Branches.{bltu, branch_code, BranchesBy, set_btype-BranchesBy}
use verilog.Riscv.Sequences.Dispatch.System.{
  csrrs, csr_code, Accesses, set_csr-Accesses, IsSystem, privileged-IsSystem,
}

abbrev build : Config
build = record { xlen = 64; addr_width = 32 }

abbrev idle : Sequencer
idle = record { sqr_fifo = []; split_num = 0; cmd_count = 0 }

abbrev upper : UType
upper = record { value = 0; opcode = 0; rd = 5; imm = 0xFFFFE }

abbrev store : SType
store = record {
  value = 0;
  datamask = 0;
  opcode = 0;
  funct3 = 0;
  rs1 = 1;
  rs2 = 2;
  imm = 0xFFFFFFFC;
}

abbrev immediate : IType
immediate = record { value = 0; datamask = 0; opcode = 0; funct3 = 0; rd = 3; rs1 = 1; imm = 37 }

abbrev branch : BType
branch = record { value = 0; opcode = 0; funct3 = 0; rs1 = 1; rs2 = 2; imm = 0xFF0 }

abbrev registers : RType
registers = record { value = 0; opcode = 0; funct3 = 0; rd = 3; rs1 = 1; rs2 = 2; funct7 = 0 }

decode-seq_lui_example :
    let (c, sqr') = seq_lui upper idle in
    let d = decode c.value in
    (sqr' ≡ push_seq c.value idle)
    × (d.opcode ≡ opcode_u_type_lui)
    × (d.kinds ≡ record no_kind { u_type = true })
    × (d.illegal ≡ false)
    × (d.rd_addr ≡ 5 % 32)
    × (d.immediate ≡ 0xFFFFE % 2 ^ 20 * 2 ^ 12)
decode-seq_lui_example = decode-seq_lui upper idle

decode-seq_jal_example :
    let (c, sqr') = seq_jal upper idle in
    let d = decode c.value in
    (sqr' ≡ push_seq c.value idle)
    × (d.kinds ≡ record no_kind { j_type = true })
    × (d.illegal ≡ false)
    × (d.rd_addr ≡ 5 % 32)
    × (d.immediate ≡ sext32 21 (0xFFFFE * 2))
decode-seq_jal_example = decode-seq_jal upper idle

set_rtype-ComputesR_example :
    let (c, sqr') = set_rtype registers (code sub) 1 idle in
    ComputesR build (decode c.value) registers sub (truth 1 && has_word_form sub)
    × (sqr' ≡ push_seq c.value idle)
set_rtype-ComputesR_example = set_rtype-ComputesR build registers 1 idle sub

set_itype_arithmetic-ComputesI_example :
    let (c, sqr') = set_itype_arithmetic build immediate (code sra) 0 idle in
    ComputesI build (decode c.value) immediate sra (truth 0 && has_word_form sra)
    × (sqr' ≡ push_seq c.value idle)
set_itype_arithmetic-ComputesI_example =
    set_itype_arithmetic-ComputesI build immediate 0 idle sra refl

set_stype-StoresAt_example :
    let (c, sqr') = set_stype store (bits triple) idle in
    StoresAt build (decode c.value) store triple
    × (c.datamask ≡ 2 ^ bits triple - 1)
    × (sqr' ≡ push_seq c.value idle)
set_stype-StoresAt_example = set_stype-StoresAt build store idle triple

set_itype_load-LoadsFrom_example :
    let (c, sqr') = set_itype_load immediate (bits half) 1 idle in
    LoadsFrom build (decode c.value) immediate half (truth 1)
    × (c.datamask ≡ 2 ^ bits half - 1)
    × (sqr' ≡ push_seq c.value idle)
set_itype_load-LoadsFrom_example = set_itype_load-LoadsFrom build immediate 1 idle half

set_btype-BranchesBy_example :
    let (c, sqr') = set_btype branch (branch_code bltu) idle in
    BranchesBy build (decode c.value) branch bltu × (sqr' ≡ push_seq c.value idle)
set_btype-BranchesBy_example = set_btype-BranchesBy build branch idle bltu

set_csr-Accesses_example :
    let (c, sqr') = set_csr immediate (csr_code csrrs) idle in
    Accesses build (decode c.value) immediate csrrs × (sqr' ≡ push_seq c.value idle)
set_csr-Accesses_example = set_csr-Accesses build immediate idle csrrs

privileged-IsSystem_example :
    let (ebreak, sqr_ebreak) = seq_ebreak immediate idle in
    let (ecall, sqr_ecall) = seq_ecall immediate idle in
    let (mret, sqr_mret) = seq_mret immediate idle in
    IsSystem (decode ebreak.value) 1
    × (sqr_ebreak ≡ push_seq ebreak.value idle)
    × IsSystem (decode ecall.value) 0
    × (sqr_ecall ≡ push_seq ecall.value idle)
    × IsSystem (decode mret.value) 0x302
    × (sqr_mret ≡ push_seq mret.value idle)
privileged-IsSystem_example = privileged-IsSystem immediate idle refl
