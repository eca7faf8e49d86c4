-- ===== src/Examples/Generators.antt =====
-- RISCV_SingleCycle/testbench/generator.cpp: turns of the arithmetic and load generators, and the
-- core on their commands.
use verilog.Common.{◌^◌, ℕ, ◌+◌, ◌-◌, ◌*◌, ◌^◌, ◌≡◌, refl, true, push_back, arith}
use verilog.Riscv.Isa.{rv32, rv64, config}
use verilog.Riscv.Commands.{RType}
use verilog.Riscv.Sequencer.{push_seq}
use verilog.Riscv.Transactions.{maybe_split}
use verilog.Riscv.Transactions.Queues.{cut}
use verilog.Riscv.Sequences.Dispatch.{sra, slt, code}
use verilog.Riscv.Sequences.Utype.{seq_lui}
use verilog.Riscv.Sequences.Itype.Arithmetic.{seq_addi}
use verilog.Riscv.Rtl.Core.{Core, cycle}
use verilog.Riscv.Generator.{register_value, sign_extend, get_lui_base_imm_value}
use verilog.Riscv.Generator.Longs.{Fits}
use verilog.Riscv.Generator.Arithmetic.{ItypeArithmetic, ItypeTurn, itype_commands, itype_turn}
use verilog.Riscv.Generator.Arithmetic.Turn.{after_commands, itype_turn-runs}
use verilog.Riscv.Generator.Rtype.{
  RtypeArithmetic, RtypeTurn, RtypePattern, rtype_commands, rtype_turn,
}
use verilog.Riscv.Generator.Rtype.Turn.{rtype_turn-runs}
use verilog.Riscv.Generator.Rtype.Turn
use verilog.Riscv.Generator.Loads.Data.{LoadData}
use verilog.Examples.Stimulus.{upper, lower, store, start}

abbrev pub arithmetic : RType
arithmetic = record { value = 0; opcode = 0; funct3 = 0; rd = 0; rs1 = 0; rs2 = 0; funct7 = 0 }

abbrev pub reset : Core
reset = record { pc = 0; reg_mem = λ n. 0 }

abbrev pub random : ℕ → ℕ
random k = 2 ^ 31 - 1000 * (k + 1)

abbrev immediate : ItypeArithmetic
immediate = record {
  lui_base = upper;
  addi = lower;
  itype = lower;
  stype = store;
  gen = start;
  calls = 0;
}

-- A shift by 3 to the right of a negative register, in the 32-bit build.
abbrev shift : ItypeTurn
shift = record { opcode = code sra; op32 = 0; sreg = 5; dreg = 6 }

shifted-Fits :
    let made = itype_commands (config rv32 32) random shift 3 immediate in
    Fits rv32 (register_value 5 made.lui_base made.addi)
unfolding itype_commands sign_extend get_lui_base_imm_value seq_lui seq_addi
shifted-Fits = refl

itype_turn-runs_example :
    let cfg = config rv32 32 in
    let (goes_on, t) = itype_turn cfg random shift 3 immediate in
    let bus = (cycle cfg t.stype.value 0 (after_commands cfg t reset)).0 in
    (goes_on ≡ true)
    × (t.gen.bench.sqr
        ≡ maybe_split (
            push_seq t.stype.value (
              push_seq t.itype.value
                (push_seq t.addi.value (push_seq t.lui_base.value immediate.gen.bench.sqr)))))
    × (t.gen.bench.ref_fifo ≡ push_back immediate.gen.bench.ref_fifo t.gen.ref_req)
    × (t.gen.ref_req.wr ≡ 1)
    × (bus.dmem_wr ≡ true)
    × (t.gen.ref_req.wr_data ≡ bus.dmem_wr_data)
    × (t.gen.ref_req.addr ≡ cut 32 bus.dmem_addr)
itype_turn-runs_example =
    itype_turn-runs rv32 32 random sra 0 5 6 3 immediate refl reset (omega arith) (omega arith) refl
      (λ reads. shifted-Fits)

abbrev compared : RtypeArithmetic
compared = record {
  lui_rs1 = upper;
  lui_rs2 = upper;
  addi_rs1 = lower;
  addi_rs2 = lower;
  rtype = arithmetic;
  stype = store;
  rs1 = 0;
  rs2 = 0;
  shift_amount = 0;
  gen = start;
  calls = 0;
}

-- A comparison of a negative register with a positive one, in the 64-bit build.
abbrev comparison : RtypeTurn
comparison = record { opcode = code slt; op32 = 0; reg_rs1 = 5; reg_rs2 = 6; i = 7 }

abbrev values : RtypePattern
values = record {
  patterns_12_rs1 = 0xFFF;
  patterns_20_rs1 = 0xFFFFF;
  patterns_12_rs2 = 0x7FF;
  patterns_20_rs2 = 0x7FFFF;
}

values-Fits :
    let made = rtype_commands (config rv64 32) random comparison values compared in
    Fits rv64 made.rs1 × Fits rv64 made.rs2
unfolding rtype_commands sign_extend get_lui_base_imm_value seq_lui seq_addi
values-Fits = (refl, refl)

rtype_turn-runs_example :
    let cfg = config rv64 32 in
    let (goes_on, t) = rtype_turn cfg random comparison values compared in
    let bus = (cycle cfg t.stype.value 0 (Turn.after_commands cfg t reset)).0 in
    (goes_on ≡ true)
    × (t.gen.bench.sqr
        ≡ maybe_split (
            push_seq t.stype.value (
              push_seq t.rtype.value (
                push_seq t.addi_rs2.value (
                  push_seq t.lui_rs2.value (
                    push_seq t.addi_rs1.value
                      (push_seq t.lui_rs1.value compared.gen.bench.sqr)))))))
    × (t.gen.bench.ref_fifo ≡ push_back compared.gen.bench.ref_fifo t.gen.ref_req)
    × (t.gen.ref_req.wr ≡ 1)
    × (bus.dmem_wr ≡ true)
    × (t.gen.ref_req.wr_data ≡ bus.dmem_wr_data)
    × (t.gen.ref_req.addr ≡ cut 32 bus.dmem_addr)
rtype_turn-runs_example =
    rtype_turn-runs rv64 32 random slt 0 5 6 7 values compared reset (omega arith) (omega arith)
      refl (λ reads. values-Fits)

abbrev loading : LoadData
loading = record {
  lui_base = upper;
  lui_data = upper;
  lui_base_stype = upper;
  addi = lower;
  load = lower;
  stype = store;
  drv_req = start.ref_req;
  gen = start;
  calls = 0;
}
