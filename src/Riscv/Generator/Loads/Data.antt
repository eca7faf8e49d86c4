-- ===== src/Riscv/Generator/Loads/Data.antt =====
-- RISCV_SingleCycle/testbench/generator.cpp: `generate_itype_load_data`.
use verilog.Common.{
  ℕ, zero, suc, ◌+◌, ◌-◌, ◌*◌, ◌/◌, ◌%◌, List, [], ◌∷◌, ◌||◌, ◌==◌, if◌then◌else◌, ◌&◌, u32,
}
use verilog.Riscv.Isa.{Config}
use verilog.Riscv.Commands.{UType, SType, IType}
use verilog.Riscv.Sequences.Utype.{seq_lui}
use verilog.Riscv.Sequences.Stype.{set_stype}
use verilog.Riscv.Sequences.Itype.Load.{set_itype_load}
use verilog.Riscv.Sequences.Itype.Arithmetic.{seq_addi}
use verilog.Riscv.Transactions.{Transaction, push_drv}
use verilog.Riscv.Generator.{Generator, with_sqr, queue_ref, queue_ref_only, regfile_a0, regs_num}
use verilog.Riscv.Generator.Loads.{regfile_a1, load_address, loaded_data}

-- The local variables, with the generator, the global driver transaction and the number of random
-- numbers used.
pub record LoadData : Type 0 where
  pub lui_base : UType
  pub lui_data : UType
  pub lui_base_stype : UType
  pub addi : IType
  pub load : IType
  pub stype : SType
  pub drv_req : Transaction
  pub gen : Generator
  pub calls : ℕ

-- The commands up to the load, its reference transaction, and the driver's answer to it.
unfoldable pub load_data_load : Config → (ℕ → ℕ) → ℕ → ℕ → ℕ → ℕ → LoadData → LoadData
load_data_load cfg rand bits_width unsigned_commands dreg pattern s =
    let k = s.calls in
    let (lui, sqr1) =
      seq_lui (record s.lui_base { rd = regfile_a1; imm = u32 (0xA0000 + rand k % 0x60000) })
        s.gen.bench.sqr in
    let (lui_data, sqr2) =
      seq_lui (record s.lui_data { rd = dreg; imm = u32 (rand (k + 1)) }) sqr1 in
    let (addi, sqr3) =
      seq_addi (record s.addi { rd = dreg; rs1 = dreg; imm = u32 (rand (k + 2)) }) sqr2 in
    let (load, sqr4) =
      set_itype_load (record s.load { rd = dreg; rs1 = lui.rd; imm = u32 pattern }) bits_width
        unsigned_commands sqr3 in
    let req = record s.gen.ref_req {
      wr = 0;
      wr_data = 0;
      addr = load_address lui load.imm;
      rd_data = rand (k + 3) & load.datamask;
    } in
    let gen1 = queue_ref_only cfg (record (with_sqr sqr4 s.gen) { ref_req = req }) in
    let drv = record s.drv_req {
      wr = 0;
      addr = gen1.ref_req.addr;
      rd_data = gen1.ref_req.rd_data;
    } in
    let (drv', bench) = push_drv cfg drv gen1.bench in
    record s {
      lui_base = lui;
      lui_data = lui_data;
      addi = addi;
      load = load;
      drv_req = drv';
      gen = record gen1 { bench = bench };
      calls = k + 4;
    }

-- The store of the loaded register and its reference transaction. The data memory begins at
-- address 0. `rand() / WORD_LEN` of an `int` is not negative.
unfoldable pub load_data_store : Config → (ℕ → ℕ) → ℕ → ℕ → ℕ → LoadData → LoadData
load_data_store cfg rand bits_width unsigned_commands dreg s =
    let word_len = cfg.xlen / 8 in
    let (lui, sqr1) =
      seq_lui (record s.lui_base_stype { rd = regfile_a0; imm = 0 }) s.gen.bench.sqr in
    let imm = u32 (rand s.calls / word_len * word_len) in
    let (store, sqr2) =
      set_stype (record s.stype { imm = imm; rs1 = lui.rd; rs2 = dreg }) cfg.xlen sqr1 in
    let req = record s.gen.ref_req {
      wr = 1;
      rd_data = 0;
      addr = load_address lui store.imm;
      wr_data = loaded_data dreg unsigned_commands bits_width s.drv_req.rd_data;
    } in
    record s {
      lui_base_stype = lui;
      stype = store;
      gen = queue_ref cfg (record (with_sqr sqr2 s.gen) { ref_req = req });
      calls = s.calls + 1;
    }

unfoldable pub load_data_turn : Config → (ℕ → ℕ) → ℕ → ℕ → ℕ → ℕ → LoadData → LoadData
load_data_turn cfg rand bits_width unsigned_commands dreg pattern s =
    load_data_store cfg rand bits_width unsigned_commands dreg
      (load_data_load cfg rand bits_width unsigned_commands dreg pattern s)

unfoldable pub load_data_patterns : Config → (ℕ → ℕ) → ℕ → ℕ → ℕ → List ℕ → LoadData → LoadData
load_data_patterns cfg rand bits_width unsigned_commands dreg [] s = s
load_data_patterns cfg rand bits_width unsigned_commands dreg (pattern ∷ patterns) s =
    load_data_patterns cfg rand bits_width unsigned_commands dreg patterns
      (load_data_turn cfg rand bits_width unsigned_commands dreg pattern s)

-- `n` registers from `dreg` on, without the base registers.
unfoldable pub load_data_registers : Config → (ℕ → ℕ) → ℕ → ℕ → List ℕ → ℕ → ℕ → LoadData → LoadData
load_data_registers cfg rand bits_width unsigned_commands patterns zero dreg s = s
load_data_registers cfg rand bits_width unsigned_commands patterns (suc n) dreg s =
    load_data_registers cfg rand bits_width unsigned_commands patterns n (dreg + 1) (
      if dreg == regfile_a0 || dreg == regfile_a1
      then s
      else load_data_patterns cfg rand bits_width unsigned_commands dreg patterns s)

unfoldable pub generate_itype_load_data : Config → (ℕ → ℕ) → ℕ → ℕ → List ℕ → LoadData → LoadData
generate_itype_load_data cfg rand bits_width unsigned_commands patterns =
    load_data_registers cfg rand bits_width unsigned_commands patterns (regs_num - 1) 1
