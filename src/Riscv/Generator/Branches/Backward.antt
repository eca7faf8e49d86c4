-- ===== src/Riscv/Generator/Branches/Backward.antt =====
-- RISCV_SingleCycle/testbench/generator.cpp: `generate_btype_backward`.
use verilog.Common.{
  ℕ, ◌+◌, ◌-◌, ◌*◌, ◌/◌, ◌%◌, List, Bool, true, false, truth, if◌then◌else◌, Option, none, some,
  ◌&◌, ◌>>◌, u32, u64, sub32, sub64, to_long,
}
use verilog.Riscv.Isa.{Config}
use verilog.Riscv.Commands.{UType, SType, IType, BType}
use verilog.Riscv.Sequencer.{split}
use verilog.Riscv.Sequences.Utype.{seq_lui, seq_jal}
use verilog.Riscv.Sequences.Stype.{set_stype}
use verilog.Riscv.Sequences.Btype.{set_btype}
use verilog.Riscv.Sequences.Itype.Arithmetic.{seq_addi}
use verilog.Riscv.Generator.{
  Generator, with_sqr, queue_ref_only, sign_extend, register_value, regs_num,
}
use verilog.Riscv.Generator.Jumps.{memory_end, fill}
use verilog.Riscv.Generator.Branches.{
  BtypeTurn, branch_expected, branch_offset, branch_splits, second_value, first_value,
  branch_firsts, first_turn,
}

abbrev pub backward_const_offset : ℕ
backward_const_offset = 6 * 4

-- The local variables, with the generator and the number of random numbers used.
pub record BtypeBackward : Type 0 where
  pub btype : BType
  pub stype : SType
  pub dummy_stype : SType
  pub lui : UType
  pub addi_rs1 : IType
  pub addi_rs2 : IType
  pub jal_before : UType
  pub jal_after : UType
  pub rs1 : ℕ
  pub rs2 : ℕ
  pub offset : ℕ
  pub gen : Generator
  pub pc : ℕ
  pub max_jump : ℕ
  pub calls : ℕ

-- The commands that fill the registers, the first with the predicted pc of the branch, and the
-- values that the branch compares.
unfoldable pub btype_backward_values : (ℕ → ℕ) → BtypeTurn → ℕ → BtypeBackward → BtypeBackward
btype_backward_values rand a pattern_12 s =
    let offset = branch_offset 8 pattern_12 s.max_jump in
    let pc = u64 (s.pc + (offset - 8 + backward_const_offset)) in
    let (lui, sqr1) =
      seq_lui (record s.lui { rd = a.reg_rs1; imm = (pc & 0xFFFFF) >> 12 }) s.gen.bench.sqr in
    let (addi_rs1, sqr2) =
      seq_addi (record s.addi_rs1 { rd = a.reg_rs1; rs1 = a.reg_rs1; imm = pc & 0xFFF }) sqr1 in
    let imm = u32 (a.mode * (rand s.calls % 0xFFF)) in
    let (addi_rs2, sqr3) =
      seq_addi (record s.addi_rs2 { rd = a.reg_rs2; rs1 = a.reg_rs1; imm = imm }) sqr2 in
    let rs1 = register_value a.reg_rs1 lui addi_rs1 in
    let rs2 = second_value a.reg_rs2 rs1 addi_rs2 in
    record s {
      lui = lui;
      addi_rs1 = addi_rs1;
      addi_rs2 = addi_rs2;
      rs1 = first_value a.reg_rs1 a.reg_rs2 rs1 rs2;
      rs2 = rs2;
      offset = offset;
      pc = pc;
      gen = with_sqr sqr3 s.gen;
      calls = s.calls + 1;
    }

-- The jump over the store, the store, the jump behind the branch, what that jumps over if the branch
-- is expected to be taken, and the branch, which goes back to the store.
unfoldable pub btype_backward_branch :
    Config → (ℕ → ℕ) → BtypeTurn → Bool → BtypeBackward → BtypeBackward
btype_backward_branch cfg rand a expected s =
    let word_len = cfg.xlen / 8 in
    let offset = if expected then s.offset else 8 in
    let (before, sqr1) =
      seq_jal (record s.jal_before { rd = 0; imm = (offset + 4) >> 1 }) s.gen.bench.sqr in
    let imm = rand s.calls % 0x700 / word_len * word_len in
    let (store, sqr2) =
      set_stype (record s.stype { imm = imm; rs1 = 0; rs2 = a.reg_rs1 }) cfg.xlen sqr1 in
    let (after, sqr3) = seq_jal (record s.jal_after { imm = offset >> 1 }) sqr2 in
    let fill_up = if expected then offset / 4 - 2 else 0 in
    let (dummy, sqr4) = fill cfg fill_up s.dummy_stype sqr3 in
    let (btype, sqr5) =
      set_btype (record s.btype { rs1 = a.reg_rs1; rs2 = a.reg_rs2; imm = sub32 0 (offset >> 1) })
        a.btype_opcode sqr4 in
    record s {
      jal_before = before;
      stype = store;
      jal_after = after;
      dummy_stype = dummy;
      btype = btype;
      offset = offset;
      gen = with_sqr sqr5 s.gen;
      calls = s.calls + 1;
    }

-- The reference transaction of the store, which runs only after a branch that is taken.
unfoldable pub btype_backward_reference : Config → BtypeTurn → Bool → BtypeBackward → BtypeBackward
btype_backward_reference cfg a expected t =
    let req = record t.gen.ref_req {
      wr = 1;
      rd_data = 0;
      wr_data = if truth a.reg_rs1 then t.rs1 else 0;
      addr = sign_extend (to_long t.stype.imm) 12;
    } in
    if expected then record t { gen = queue_ref_only cfg (record t.gen { ref_req = req }) } else t

-- The place of the next turn.
unfoldable pub btype_backward_next : Bool → ℕ → BtypeBackward → BtypeBackward
btype_backward_next last pattern_12 t =
    let pc = u64 (t.pc + 4) in
    let max_jump = sub64 t.max_jump (t.offset + backward_const_offset) in
    if branch_splits pc max_jump last pattern_12
    then record t {
      gen = with_sqr (split t.gen.bench.sqr) t.gen;
      pc = 0;
      max_jump = memory_end - backward_const_offset;
    }
    else record t { pc = pc; max_jump = max_jump }

-- What follows the `switch`, and whether the function goes on after the turn.
abbrev pub after_values :
    Config → (ℕ → ℕ) → BtypeTurn → Bool → ℕ → BtypeBackward → Option Bool → Bool × BtypeBackward
after_values cfg rand a last pattern_12 t none = (false, t)
after_values cfg rand a last pattern_12 t (some expected) = (
  true,
  btype_backward_next last pattern_12
      (btype_backward_reference cfg a expected (btype_backward_branch cfg rand a expected t)),
)

-- One turn of the innermost loop, and whether the function goes on after it.
unfoldable pub btype_backward_turn :
    Config → (ℕ → ℕ) → BtypeTurn → Bool → ℕ → BtypeBackward → Bool × BtypeBackward
btype_backward_turn cfg rand a last pattern_12 s =
    let t = btype_backward_values rand a pattern_12 s in
    after_values cfg rand a last pattern_12 t (branch_expected a.btype_opcode t.rs1 t.rs2)

unfoldable pub generate_btype_backward :
    Config → (ℕ → ℕ) → List ℕ → ℕ → BtypeBackward → BtypeBackward
generate_btype_backward cfg rand patterns btype_opcode s =
    (branch_firsts (btype_backward_turn cfg rand) patterns (first_turn btype_opcode) regs_num
      (record s { pc = 0; max_jump = memory_end - backward_const_offset })).1
