-- ===== src/Riscv/Generator/Loads.antt =====
-- RISCV_SingleCycle/testbench/generator.cpp: `generate_itype_load_acceptance`,
-- `generate_itype_load_address` and `generate_itype_load_data`.
pub mod Data
pub mod Store
pub mod Turn
pub mod Values
use verilog.Common.{
  ℕ, zero, suc, ◌+◌, ◌-◌, ◌^◌, List, [], ◌∷◌, Bool, not, ◌&&◌, ◌||◌, truth, ltb, ◌==◌,
  if◌then◌else◌, ◌&◌, ◌<<◌, u32, u64, to_long,
}
use verilog.Riscv.Isa.{Config}
use verilog.Riscv.Interface.{data_memory_last_addr}
use verilog.Riscv.Commands.{UType, SType, IType}
use verilog.Riscv.Sequences.Utype.{seq_lui}
use verilog.Riscv.Sequences.Stype.{set_stype}
use verilog.Riscv.Sequences.Itype.Load.{set_itype_load}
use verilog.Riscv.Sequences.Itype.Arithmetic.{seq_addi}
use verilog.Riscv.Transactions.{Transaction, push_ref, push_drv}
use verilog.Riscv.Generator.{
  Generator, with_sqr, queue_ref, queue_ref_only, sign_extend, regfile_a0, regs_num, sdiv64,
}

abbrev pub regfile_a1 : ℕ
regfile_a1 = 2

-- `(lui_base.imm << 12) + sign_extend(imm)`
unfoldable pub load_address : UType → ℕ → ℕ
load_address lui_base imm = u64 (to_long (lui_base.imm << 12) + sign_extend (to_long imm) 12)

-- The local variables of `generate_itype_load_acceptance`, with the generator and the number of
-- random numbers used.
pub record LoadAcceptance : Type 0 where
  pub lui_base : UType
  pub load : IType
  pub addi : IType
  pub gen : Generator
  pub calls : ℕ

unfoldable pub load_acceptance_turn : Config → (ℕ → ℕ) → ℕ → ℕ → LoadAcceptance → LoadAcceptance
load_acceptance_turn cfg rand block_size i s =
    let k = s.calls in
    let (lui, sqr1) = seq_lui (record s.lui_base { rd = 0; imm = u32 (rand k) }) s.gen.bench.sqr in
    let (addi, sqr2) =
      seq_addi (record s.addi { rd = 0; rs1 = 0; imm = u32 (rand (k + 1)) }) sqr1 in
    let (load, sqr3) =
      set_itype_load (record s.load { rd = i; rs1 = i; imm = 0 }) (1 << block_size) 0 sqr2 in
    let req = record s.gen.ref_req { wr = 0; addr = 0; rd_data = 0; wr_data = 0 } in
    record {
      lui_base = lui;
      load = load;
      addi = addi;
      gen = queue_ref cfg (record (with_sqr sqr3 s.gen) { ref_req = req });
      calls = k + 2;
    }

-- `n` registers from `i` on.
unfoldable pub load_acceptance_registers :
    Config → (ℕ → ℕ) → ℕ → ℕ → ℕ → LoadAcceptance → LoadAcceptance
load_acceptance_registers cfg rand block_size zero i s = s
load_acceptance_registers cfg rand block_size (suc n) i s =
    if ltb cfg.xlen 64 && ltb 5 block_size
    then s
    else load_acceptance_registers cfg rand block_size n (i + 1)
        (load_acceptance_turn cfg rand block_size i s)

-- `n` block sizes from `block_size` on.
unfoldable pub load_acceptance_blocks :
    Config → (ℕ → ℕ) → ℕ → ℕ → ℕ → LoadAcceptance → LoadAcceptance
load_acceptance_blocks cfg rand max_reg zero block_size s = s
load_acceptance_blocks cfg rand max_reg (suc n) block_size s =
    load_acceptance_blocks cfg rand max_reg n (block_size + 1)
      (load_acceptance_registers cfg rand block_size max_reg 0 s)

-- `max_reg` is the size of the compiled core's register file.
unfoldable pub generate_itype_load_acceptance :
    Config → (ℕ → ℕ) → ℕ → LoadAcceptance → LoadAcceptance
generate_itype_load_acceptance cfg rand max_reg = load_acceptance_blocks cfg rand max_reg 4 3

-- The local variables of `generate_itype_load_address`, with the generator.
pub record LoadAddress : Type 0 where
  pub lui_base : UType
  pub load : IType
  pub stype : SType
  pub gen : Generator

-- The data that the prefilled data memory holds at the address: each word its own address.
unfoldable pub prefilled_data : ℕ → ℕ → ℕ
prefilled_data addr datamask =
    if ltb addr (2 ^ 63) && ltb addr data_memory_last_addr then addr & datamask else 0

-- The data that the store after the load is expected to show.
unfoldable pub loaded_data : ℕ → ℕ → ℕ → ℕ → ℕ
loaded_data rd unsigned_commands bits_width rd_data =
    if not (truth rd)
    then 0
    else if truth unsigned_commands
    then rd_data
    else sign_extend rd_data bits_width

-- The turn for one pair of patterns. The data memory begins at address 0.
unfoldable pub load_address_turn : Config → ℕ → ℕ → ℕ → ℕ × ℕ → LoadAddress → LoadAddress
load_address_turn cfg bits_width unsigned_commands dreg (pattern_12, pattern_20) s =
    let (lui, sqr1) =
      seq_lui (record s.lui_base { rd = dreg; imm = u32 pattern_20 }) s.gen.bench.sqr in
    let rd = if ltb dreg 31 then dreg + 1 else 0 in
    let (load, sqr2) =
      set_itype_load (record s.load { rd = rd; rs1 = dreg; imm = u32 pattern_12 }) bits_width
        unsigned_commands sqr1 in
    let addr = load_address lui load.imm in
    let req1 = record s.gen.ref_req {
      wr = 0;
      wr_data = 0;
      addr = addr;
      rd_data = prefilled_data addr load.datamask;
    } in
    let gen1 = queue_ref_only cfg (record (with_sqr sqr2 s.gen) { ref_req = req1 }) in
    let (store, sqr3) =
      set_stype (record s.stype { imm = load.imm; rs1 = load.rs1; rs2 = load.rd }) bits_width
        gen1.bench.sqr in
    let req2 = record gen1.ref_req {
      wr = 1;
      wr_data =
          loaded_data load.rd unsigned_commands bits_width (gen1.ref_req.rd_data & store.datamask);
      rd_data = 0;
    } in
    record {
      lui_base = lui;
      load = load;
      stype = store;
      gen = queue_ref cfg (record (with_sqr sqr3 gen1) { ref_req = req2 });
    }

unfoldable pub load_address_patterns : Config → ℕ → ℕ → ℕ → List (ℕ × ℕ) → LoadAddress → LoadAddress
load_address_patterns cfg bits_width unsigned_commands dreg [] s = s
load_address_patterns cfg bits_width unsigned_commands dreg (pattern ∷ patterns) s =
    load_address_patterns cfg bits_width unsigned_commands dreg patterns
      (load_address_turn cfg bits_width unsigned_commands dreg pattern s)

-- `n` registers from `dreg` on.
unfoldable pub load_address_registers :
    Config → ℕ → ℕ → List (ℕ × ℕ) → ℕ → ℕ → LoadAddress → LoadAddress
load_address_registers cfg bits_width unsigned_commands patterns zero dreg s = s
load_address_registers cfg bits_width unsigned_commands patterns (suc n) dreg s =
    load_address_registers cfg bits_width unsigned_commands patterns n (dreg + 1)
      (load_address_patterns cfg bits_width unsigned_commands dreg patterns s)

unfoldable pub generate_itype_load_address :
    Config → ℕ → ℕ → List (ℕ × ℕ) → LoadAddress → LoadAddress
generate_itype_load_address cfg bits_width unsigned_commands patterns =
    load_address_registers cfg bits_width unsigned_commands patterns (regs_num - 1) 1
