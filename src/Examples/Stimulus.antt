-- ===== src/Examples/Stimulus.antt =====
-- RISCV_SingleCycle/testbench/generator.cpp: turns in both builds, and the patterns.
use verilog.Common.{◌∷◌, true, ◌==◌, if◌then◌else◌, ◌*◌, ◌≡◌, refl, [], length, push_back, arith}
use verilog.Riscv.Isa.{rv32, rv64, config}
use verilog.Riscv.Commands.{UType, SType, IType}
use verilog.Riscv.Sequencer.{push_seq}
use verilog.Riscv.Transactions.{Transaction, maybe_split}
use verilog.Riscv.Transactions.Queues.{cut}
use verilog.Riscv.Rtl.Core.{Core, cycle, cycles}
use verilog.Riscv.Sequences.Dispatch.Memory.{word, half, bits}
use verilog.Riscv.Generator.{
  Generator, StypeData, generate_bit_patterns, stype_imm_turn, stype_data_turn,
}
use verilog.Riscv.Generator.Values.{length-generate_bit_patterns}
use verilog.Riscv.Generator.Auipc.{Auipc, auipc_turn}
use verilog.Riscv.Generator.Auipc.Turn.{auipc_turn-runs}
use verilog.Riscv.Generator.Turns.{stype_imm_turn-runs, stype_data_turn-runs}

abbrev pub upper : UType
upper = record { value = 0; opcode = 0; rd = 0; imm = 0 }

abbrev pub lower : IType
lower = record { value = 0; datamask = 0; opcode = 0; funct3 = 0; rd = 0; rs1 = 0; imm = 0 }

abbrev pub store : SType
store = record { value = 0; datamask = 0; opcode = 0; funct3 = 0; rs1 = 0; rs2 = 0; imm = 0 }

abbrev reference : Transaction
reference = record { req = 0; wr = 0; addr = 0; wr_data = 0; rd_data = 0; test_id = 0; irq = 0 }

abbrev pub start : Generator
start = record {
  bench = record {
    sqr = record { sqr_fifo = []; split_num = 0; cmd_count = 0 };
    ref_fifo = [];
    drv_fifo = [];
  };
  ref_req = reference;
}

abbrev variables : StypeData
variables = record {
  lui_base = record upper { rd = 1; imm = 1 };
  lui_data = upper;
  addi = lower;
  stype = store;
  gen = start;
}

length-generate_bit_patterns_example :
    length (generate_bit_patterns (λ k. k * 7919) (λ i. 0) 12 50) ≡ 50
length-generate_bit_patterns_example =
    length-generate_bit_patterns (λ k. k * 7919) (λ i. 0) 12 50 (omega arith)

-- Register 1 holds the address that `lui_base` fills it with, the others 0.
abbrev based : Core
based = record { pc = 24; reg_mem = λ n. if n == 1 then 0x1000 else 0 }

stype_imm_turn-runs_example :
    let cfg = config rv32 32 in
    let (u, c, g') = stype_imm_turn cfg (bits word) 0xDBDBDBDB (upper, store, start) in
    let bus = (cycle cfg c.value 0 (cycle cfg u.value 0 based).1).0 in
    (g'.bench.sqr ≡ maybe_split (push_seq c.value (push_seq u.value start.bench.sqr)))
    × (g'.bench.ref_fifo ≡ push_back start.bench.ref_fifo g'.ref_req)
    × (g'.ref_req.wr ≡ 1)
    × (bus.dmem_wr ≡ true)
    × (g'.ref_req.wr_data ≡ bus.dmem_wr_data)
    × (g'.ref_req.addr ≡ cut 32 bus.dmem_addr)
stype_imm_turn-runs_example =
    stype_imm_turn-runs rv32 32 word 0xDBDBDBDB upper store start based (omega arith) refl

stype_data_turn-runs_example :
    let cfg = config rv64 32 in
    let t = stype_data_turn cfg (bits half) 2 0xB6B6B6B6 variables in
    let bus =
      (cycle cfg t.stype.value 0 (cycles cfg (t.lui_data.value ∷ t.addi.value ∷ []) based)).0 in
    (t.gen.bench.sqr
      ≡ maybe_split (
          push_seq t.stype.value
            (push_seq t.addi.value (push_seq t.lui_data.value variables.gen.bench.sqr))))
    × (t.gen.bench.ref_fifo ≡ push_back variables.gen.bench.ref_fifo t.gen.ref_req)
    × (t.gen.ref_req.wr ≡ 1)
    × (bus.dmem_wr ≡ true)
    × (t.gen.ref_req.wr_data ≡ bus.dmem_wr_data)
    × (t.gen.ref_req.addr ≡ cut 32 bus.dmem_addr)
stype_data_turn-runs_example =
    stype_data_turn-runs rv64 32 half 2 0xB6B6B6B6 variables based (omega arith) (omega arith)
      (ground arith) (ground arith) refl (omega arith) refl

abbrev relative : Auipc
relative = record { stype = store; auipc = upper; gen = start; pc = 6; calls = 0 }

auipc_turn-runs_example :
    let cfg = config rv64 32 in
    let t = auipc_turn cfg (λ k. 1234) 2 0xDBDBD relative in
    let bus = (cycle cfg t.stype.value 0 (cycle cfg t.auipc.value 0 based).1).0 in
    (t.gen.bench.sqr
      ≡ maybe_split (push_seq t.stype.value (push_seq t.auipc.value relative.gen.bench.sqr)))
    × (t.gen.bench.ref_fifo ≡ push_back relative.gen.bench.ref_fifo t.gen.ref_req)
    × (t.gen.ref_req.wr ≡ 1)
    × (bus.dmem_wr ≡ true)
    × (t.gen.ref_req.wr_data ≡ bus.dmem_wr_data)
    × (t.gen.ref_req.addr ≡ cut 32 bus.dmem_addr)
auipc_turn-runs_example =
    auipc_turn-runs rv64 32 (λ k. 1234) 2 0xDBDBD relative based (omega arith) refl refl
      (omega arith)
