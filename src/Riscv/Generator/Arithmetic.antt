-- ===== src/Riscv/Generator/Arithmetic.antt =====
-- RISCV_SingleCycle/testbench/generator.cpp: `generate_itype_arithmetic` and what it shares with
-- `generate_rtype`.
pub mod Values
pub mod Turn
use verilog.Common.{
  ℕ, zero, suc, ◌+◌, ◌-◌, ◌*◌, ◌/◌, ◌%◌, ◌^◌, List, [], ◌∷◌, Bool, true, false, ◌&&◌, truth, ◌==◌,
  ltb, as_int, if◌then◌else◌, Option, none, some, ◌&◌, ◌∣∣◌, bit_xor, u32, u64, shl64, slt64,
  to_long,
}
use verilog.Riscv.Isa.{
  Config, op_alu_add, op_alu_sll, op_alu_srl, op_alu_sra, op_alu_xor, op_alu_and, op_alu_or,
  op_alu_slt, op_alu_sltu,
}
use verilog.Riscv.Commands.{UType, SType, IType}
use verilog.Riscv.Sequences.Utype.{seq_lui}
use verilog.Riscv.Sequences.Stype.{set_stype}
use verilog.Riscv.Sequences.Itype.Arithmetic.{seq_addi, set_itype_arithmetic}
use verilog.Riscv.Generator.{
  Generator, with_sqr, queue_ref, sar64, sign_extend, register_value, regs_num,
}

-- `if (op32) ref_req.wr_data = sign_extend(ref_req.wr_data, 32)`
abbrev pub op32_cut : ℕ → ℕ → ℕ
op32_cut op32 x = if truth op32 then sign_extend x 32 else x

-- The `switch` on the opcode; none where it prints an error and returns.
unfoldable pub itype_value : ℕ → ℕ → ℕ → ℕ → ℕ → Option ℕ
itype_value opcode op32 datamask imm wr_data =
    let extended = sign_extend (to_long imm) 12 in
    if opcode == op_alu_add
    then some (op32_cut op32 (u64 (wr_data + extended)))
    else if opcode == op_alu_sll
    then some (op32_cut op32 (shl64 wr_data imm))
    else if opcode == op_alu_srl
    then some (op32_cut op32 ((wr_data & datamask) / 2 ^ imm))
    else if opcode == op_alu_sra
    then some (op32_cut op32 (sar64 wr_data imm))
    else if opcode == op_alu_xor
    then some (bit_xor wr_data extended)
    else if opcode == op_alu_and
    then some (wr_data & extended)
    else if opcode == op_alu_or
    then some (wr_data ∣∣ extended)
    else if opcode == op_alu_slt
    then some (as_int (slt64 wr_data extended))
    else if opcode == op_alu_sltu
    then some (as_int (ltb wr_data extended))
    else none

-- The local variables, with the generator and the number of random numbers used.
pub record ItypeArithmetic : Type 0 where
  pub lui_base : UType
  pub addi : IType
  pub itype : IType
  pub stype : SType
  pub gen : Generator
  pub calls : ℕ

-- What a turn of the loops is asked for: the arguments and the loop variables.
pub record ItypeTurn : Type 0 where
  pub opcode : ℕ
  pub op32 : ℕ
  pub sreg : ℕ
  pub dreg : ℕ

-- The commands of one turn of the innermost loop, and the reference transaction before the
-- operation: the data are the value of the source register.
unfoldable pub itype_commands : Config → (ℕ → ℕ) → ItypeTurn → ℕ → ItypeArithmetic → ItypeArithmetic
itype_commands cfg rand a pattern s =
    let word_len = cfg.xlen / 8 in
    let k = s.calls in
    let (lui, sqr1) =
      seq_lui (record s.lui_base { rd = a.sreg; imm = u32 (rand k) }) s.gen.bench.sqr in
    let (addi, sqr2) =
      seq_addi (record s.addi { rd = a.sreg; rs1 = a.sreg; imm = u32 (rand (k + 1)) }) sqr1 in
    let (itype, sqr3) =
      set_itype_arithmetic cfg (record s.itype { rd = a.dreg; rs1 = a.sreg; imm = u32 pattern })
        a.opcode a.op32 sqr2 in
    let offset = rand (k + 2) % 0x700 / word_len * word_len in
    let (store, sqr4) =
      set_stype (record s.stype { imm = offset; rs1 = 0; rs2 = itype.rd }) cfg.xlen sqr3 in
    let req = record s.gen.ref_req {
      wr = 1;
      rd_data = 0;
      wr_data = register_value a.sreg lui addi;
      addr = sign_extend (to_long store.imm) 12;
    } in
    record {
      lui_base = lui;
      addi = addi;
      itype = itype;
      stype = store;
      gen = record (with_sqr sqr4 s.gen) { ref_req = req };
      calls = k + 3;
    }

-- The end of a turn: the expected value goes to the queue, or the function returns.
unfoldable pub itype_reference : Config → ℕ → ItypeArithmetic → Option ℕ → Bool × ItypeArithmetic
itype_reference cfg dreg t none = (false, t)
itype_reference cfg dreg t (some value) =
    let req = record t.gen.ref_req { wr_data = if truth dreg then value else 0 } in
    (true, record t { gen = queue_ref cfg (record t.gen { ref_req = req }) })

-- One turn of the innermost loop, and whether the function goes on after it.
unfoldable pub itype_turn :
    Config → (ℕ → ℕ) → ItypeTurn → ℕ → ItypeArithmetic → Bool × ItypeArithmetic
itype_turn cfg rand a pattern s =
    let t = itype_commands cfg rand a pattern s in
    itype_reference cfg a.dreg t
      (itype_value a.opcode a.op32 t.stype.datamask t.itype.imm t.gen.ref_req.wr_data)

-- The patterns from the `i`-th on; four are enough for register 0.
unfoldable pub itype_patterns :
    Config → (ℕ → ℕ) → ItypeTurn → ℕ → List ℕ → ItypeArithmetic → Bool × ItypeArithmetic
itype_patterns cfg rand a i [] s = (true, s)
itype_patterns cfg rand a i (pattern ∷ patterns) s =
    if a.dreg == 0 && (i == 4)
    then (true, s)
    else (let (goes_on, s') = itype_turn cfg rand a pattern s in
        elim goes_on [ true ↦ itype_patterns cfg rand a (i + 1) patterns s' | false ↦ (false, s') ])

-- `n` destination registers from that of `a` on.
unfoldable pub itype_destinations :
    Config → (ℕ → ℕ) → List ℕ → ItypeTurn → ℕ → ItypeArithmetic → Bool × ItypeArithmetic
itype_destinations cfg rand patterns a zero s = (true, s)
itype_destinations cfg rand patterns a (suc n) s =
    let (goes_on, s') = itype_patterns cfg rand a 0 patterns s in
    elim goes_on [
      | true ↦ itype_destinations cfg rand patterns (record a { dreg = a.dreg + 1 }) n s'
      | false ↦ (false, s')
    ]

-- `n` source registers from that of `a` on.
unfoldable pub itype_sources :
    Config → (ℕ → ℕ) → List ℕ → ItypeTurn → ℕ → ItypeArithmetic → Bool × ItypeArithmetic
itype_sources cfg rand patterns a zero s = (true, s)
itype_sources cfg rand patterns a (suc n) s =
    let (goes_on, s') = itype_destinations cfg rand patterns (record a { dreg = 0 }) regs_num s in
    elim goes_on [
      | true ↦ itype_sources cfg rand patterns (record a { sreg = a.sreg + 1 }) n s'
      | false ↦ (false, s')
    ]

unfoldable pub generate_itype_arithmetic :
    Config → (ℕ → ℕ) → List ℕ → ℕ → ℕ → ItypeArithmetic → ItypeArithmetic
generate_itype_arithmetic cfg rand patterns opcode op32 s =
    let a : ItypeTurn = record { opcode = opcode; op32 = op32; sreg = 0; dreg = 0 } in
    (itype_sources cfg rand patterns a regs_num s).1
