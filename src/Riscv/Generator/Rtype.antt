-- ===== src/Riscv/Generator/Rtype.antt =====
-- RISCV_SingleCycle/testbench/generator.cpp: `generate_rtype`.
pub mod Values
pub mod Turn
use verilog.Common.{
  ℕ, zero, suc, ◌+◌, ◌-◌, ◌*◌, ◌/◌, ◌%◌, ◌^◌, List, [], ◌∷◌, Bool, true, false, not, ◌&&◌, ◌||◌,
  truth, ◌==◌, ltb, leb, as_int, if◌then◌else◌, Option, none, some, ◌&◌, ◌∣∣◌, bit_xor, u32, u64,
  sub64, shl64, slt64, to_long,
}
use verilog.Riscv.Isa.{
  Config, op_alu_add, op_alu_sub, op_alu_sll, op_alu_srl, op_alu_sra, op_alu_xor, op_alu_and,
  op_alu_or, op_alu_slt, op_alu_sltu,
}
use verilog.Riscv.Commands.{UType, SType, IType, RType}
use verilog.Riscv.Sequences.Utype.{seq_lui}
use verilog.Riscv.Sequences.Stype.{set_stype}
use verilog.Riscv.Sequences.Rtype.{set_rtype}
use verilog.Riscv.Sequences.Itype.Arithmetic.{seq_addi}
use verilog.Riscv.Generator.{
  Generator, with_sqr, queue_ref, sar64, sign_extend, register_value, regs_num,
}
use verilog.Riscv.Generator.Arithmetic.{op32_cut}

-- The `switch` on the opcode; none where it prints an error and returns.
unfoldable pub rtype_value : ℕ → ℕ → ℕ → ℕ → ℕ → ℕ → Option ℕ
rtype_value opcode op32 datamask shift_amount rs1 rs2 =
    if opcode == op_alu_add
    then some (op32_cut op32 (u64 (rs1 + rs2)))
    else if opcode == op_alu_sub
    then some (op32_cut op32 (sub64 rs1 rs2))
    else if opcode == op_alu_sll
    then some (op32_cut op32 (shl64 rs1 shift_amount))
    else if opcode == op_alu_srl
    then some (op32_cut op32 ((rs1 & datamask) / 2 ^ shift_amount))
    else if opcode == op_alu_sra
    then some (op32_cut op32 (sar64 rs1 shift_amount))
    else if opcode == op_alu_xor
    then some (bit_xor rs1 rs2)
    else if opcode == op_alu_and
    then some (rs1 & rs2)
    else if opcode == op_alu_or
    then some (rs1 ∣∣ rs2)
    else if opcode == op_alu_slt
    then some (as_int (slt64 rs1 rs2))
    else if opcode == op_alu_sltu
    then some (as_int (ltb rs1 rs2))
    else none

-- The local variables, with the generator and the number of random numbers used.
pub record RtypeArithmetic : Type 0 where
  pub lui_rs1 : UType
  pub lui_rs2 : UType
  pub addi_rs1 : IType
  pub addi_rs2 : IType
  pub rtype : RType
  pub stype : SType
  pub rs1 : ℕ
  pub rs2 : ℕ
  pub shift_amount : ℕ
  pub gen : Generator
  pub calls : ℕ

-- What a turn of the loops is asked for: the arguments and the loop variables.
pub record RtypeTurn : Type 0 where
  pub opcode : ℕ
  pub op32 : ℕ
  pub reg_rs1 : ℕ
  pub reg_rs2 : ℕ
  pub i : ℕ

-- The elements of the four arrays of patterns at one index.
pub record RtypePattern : Type 0 where
  pub patterns_12_rs1 : ℕ
  pub patterns_20_rs1 : ℕ
  pub patterns_12_rs2 : ℕ
  pub patterns_20_rs2 : ℕ

-- The commands of one turn of the innermost loop, and the values of the source registers.
unfoldable pub rtype_commands :
    Config → (ℕ → ℕ) → RtypeTurn → RtypePattern → RtypeArithmetic → RtypeArithmetic
rtype_commands cfg rand a p s =
    let word_len = cfg.xlen / 8 in
    let (lui_rs1, sqr1) =
      seq_lui (record s.lui_rs1 { rd = a.reg_rs1; imm = u32 p.patterns_20_rs1 }) s.gen.bench.sqr in
    let (addi_rs1, sqr2) =
      seq_addi (record s.addi_rs1 { rd = a.reg_rs1; rs1 = a.reg_rs1; imm = u32 p.patterns_12_rs1 })
        sqr1 in
    let (lui_rs2, sqr3) =
      seq_lui (record s.lui_rs2 { rd = a.reg_rs2; imm = u32 p.patterns_20_rs2 }) sqr2 in
    let (addi_rs2, sqr4) =
      seq_addi (record s.addi_rs2 { rd = a.reg_rs2; rs1 = a.reg_rs2; imm = u32 p.patterns_12_rs2 })
        sqr3 in
    let (rtype, sqr5) =
      set_rtype (record s.rtype { rd = a.i % 32; rs1 = a.reg_rs1; rs2 = a.reg_rs2 }) a.opcode a.op32
        sqr4 in
    let offset = rand s.calls % 0x700 / word_len * word_len in
    let (store, sqr6) =
      set_stype (record s.stype { imm = offset; rs1 = 0; rs2 = rtype.rd }) cfg.xlen sqr5 in
    let value1 = register_value a.reg_rs1 lui_rs1 addi_rs1 in
    let value2 = register_value a.reg_rs2 lui_rs2 addi_rs2 in
    let same = truth a.reg_rs1 && (a.reg_rs1 == a.reg_rs2) in
    record {
      lui_rs1 = lui_rs1;
      lui_rs2 = lui_rs2;
      addi_rs1 = addi_rs1;
      addi_rs2 = addi_rs2;
      rtype = rtype;
      stype = store;
      rs1 = if same then value2 else value1;
      rs2 = value2;
      shift_amount = if leb 64 cfg.xlen then value2 & 0x3F else value2 & 0x1F;
      gen = with_sqr sqr6 s.gen;
      calls = s.calls + 1;
    }

-- The end of a turn: the expected value goes to the queue, or the function returns.
unfoldable pub rtype_reference : Config → RtypeArithmetic → Option ℕ → Bool × RtypeArithmetic
rtype_reference cfg t none = (false, t)
rtype_reference cfg t (some value) =
    let req = record t.gen.ref_req {
      wr = 1;
      rd_data = 0;
      addr = sign_extend (to_long t.stype.imm) 12;
      wr_data = if truth t.rtype.rd then value else 0;
    } in
    (true, record t { gen = queue_ref cfg (record t.gen { ref_req = req }) })

-- One turn of the innermost loop, and whether the function goes on after it.
unfoldable pub rtype_turn :
    Config → (ℕ → ℕ) → RtypeTurn → RtypePattern → RtypeArithmetic → Bool × RtypeArithmetic
rtype_turn cfg rand a p s =
    let t = rtype_commands cfg rand a p s in
    rtype_reference cfg t (rtype_value a.opcode a.op32 t.stype.datamask t.shift_amount t.rs1 t.rs2)

-- The patterns from that of `a` on; six are enough for x0 and for a register with itself.
unfoldable pub rtype_patterns :
    Config → (ℕ → ℕ) → RtypeTurn → List RtypePattern → RtypeArithmetic → Bool × RtypeArithmetic
rtype_patterns cfg rand a [] s = (true, s)
rtype_patterns cfg rand a (p ∷ patterns) s =
    if (not (truth a.reg_rs1) || not (truth a.reg_rs2)) && (a.i == 6)
    then (true, s)
    else if (a.reg_rs1 == a.reg_rs2) && (a.i == 6)
    then (true, s)
    else (let (goes_on, s') = rtype_turn cfg rand a p s in
        elim goes_on [
          | true ↦ rtype_patterns cfg rand (record a { i = a.i + 1 }) patterns s'
          | false ↦ (false, s')
        ])

-- `n` second source registers from that of `a` on.
unfoldable pub rtype_seconds :
    Config → (ℕ → ℕ) → List RtypePattern → RtypeTurn → ℕ → RtypeArithmetic → Bool × RtypeArithmetic
rtype_seconds cfg rand patterns a zero s = (true, s)
rtype_seconds cfg rand patterns a (suc n) s =
    let (goes_on, s') = rtype_patterns cfg rand (record a { i = 0 }) patterns s in
    elim goes_on [
      | true ↦ rtype_seconds cfg rand patterns (record a { reg_rs2 = a.reg_rs2 + 1 }) n s'
      | false ↦ (false, s')
    ]

-- `n` first source registers from that of `a` on.
unfoldable pub rtype_firsts :
    Config → (ℕ → ℕ) → List RtypePattern → RtypeTurn → ℕ → RtypeArithmetic → Bool × RtypeArithmetic
rtype_firsts cfg rand patterns a zero s = (true, s)
rtype_firsts cfg rand patterns a (suc n) s =
    let (goes_on, s') = rtype_seconds cfg rand patterns (record a { reg_rs2 = 0 }) regs_num s in
    elim goes_on [
      | true ↦ rtype_firsts cfg rand patterns (record a { reg_rs1 = a.reg_rs1 + 1 }) n s'
      | false ↦ (false, s')
    ]

unfoldable pub generate_rtype :
    Config → (ℕ → ℕ) → List RtypePattern → ℕ → ℕ → RtypeArithmetic → RtypeArithmetic
generate_rtype cfg rand patterns opcode op32 s =
    let a : RtypeTurn = record { opcode = opcode; op32 = op32; reg_rs1 = 0; reg_rs2 = 0; i = 0 } in
    (rtype_firsts cfg rand patterns a regs_num s).1
