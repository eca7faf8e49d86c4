-- ===== src/Riscv/Generator/Jumps/Backward.antt =====
-- RISCV_SingleCycle/testbench/generator.cpp: `generate_jal_backward`.
use verilog.Common.{
  ℕ, zero, suc, ◌+◌, ◌-◌, ◌*◌, ◌/◌, ◌%◌, List, [], ◌∷◌, not, ◌&&◌, truth, ◌==◌, if◌then◌else◌,
  Option, ◌>>◌, u64, sub32, to_long,
}
use verilog.Riscv.Isa.{Config}
use verilog.Riscv.Commands.{UType, SType}
use verilog.Riscv.Sequencer.{split}
use verilog.Riscv.Sequences.Utype.{seq_jal}
use verilog.Riscv.Sequences.Stype.{set_stype}
use verilog.Riscv.Generator.{Generator, with_sqr, queue_ref_only, sign_extend, regs_num}
use verilog.Riscv.Generator.Jumps.{memory_end, backward_offset, fill, next_jump, first}

-- The local variables, with the generator and the number of random numbers used.
pub record JalBackward : Type 0 where
  pub jal_tested : UType
  pub jal_before : UType
  pub jal_after : UType
  pub stype : SType
  pub dummy_stype : SType
  pub gen : Generator
  pub pc_stype : ℕ
  pub pc : ℕ
  pub max_jump : ℕ
  pub calls : ℕ

-- The commands of one turn: a jump over the store, the jump behind the tested one and what is to be
-- jumped over, to the tested jump, which goes back to the store.
unfoldable pub jal_backward_commands : Config → (ℕ → ℕ) → ℕ → ℕ → JalBackward → JalBackward
jal_backward_commands cfg rand dreg pattern s =
    let word_len = cfg.xlen / 8 in
    let offset = backward_offset pattern s.max_jump in
    let (before, sqr1) =
      seq_jal (record s.jal_before { rd = 0; imm = (offset + 4) >> 1 }) s.gen.bench.sqr in
    let imm = rand s.calls % 0x700 / word_len * word_len in
    let (store, sqr2) =
      set_stype (record s.stype { imm = imm; rs1 = 0; rs2 = dreg }) cfg.xlen sqr1 in
    let (after, sqr3) = seq_jal (record s.jal_after { imm = offset >> 1 }) sqr2 in
    let (dummy, sqr4) = fill cfg (offset / 4 - 2) s.dummy_stype sqr3 in
    let (tested, sqr5) =
      seq_jal (record s.jal_tested { rd = dreg; imm = sub32 0 (offset >> 1) }) sqr4 in
    let pc = u64 (s.pc + (offset + 8)) in
    let req = record s.gen.ref_req {
      wr = 1;
      rd_data = 0;
      wr_data = if truth dreg then pc else 0;
      addr = sign_extend (to_long store.imm) 12;
    } in
    record s {
      jal_tested = tested;
      jal_before = before;
      jal_after = after;
      stype = store;
      dummy_stype = dummy;
      gen = queue_ref_only cfg (record (with_sqr sqr5 s.gen) { ref_req = req });
      pc_stype = u64 (s.pc + 4);
      pc = pc;
      calls = s.calls + 1;
    }

-- The end of a turn, given the pattern of the next turn of the innermost loop, if there is one.
unfoldable pub jal_backward_turn : Config → (ℕ → ℕ) → ℕ → ℕ → Option ℕ → JalBackward → JalBackward
jal_backward_turn cfg rand dreg pattern next s =
    let t = jal_backward_commands cfg rand dreg pattern s in
    let (max_jump, splits) = next_jump t.pc next in
    if splits
    then record t { gen = with_sqr (split t.gen.bench.sqr) t.gen; pc = 0; max_jump = memory_end }
    else record t { max_jump = max_jump }

-- The patterns from the `i`-th on; four are enough for register 0.
unfoldable pub jal_backward_patterns : Config → (ℕ → ℕ) → ℕ → ℕ → List ℕ → JalBackward → JalBackward
jal_backward_patterns cfg rand dreg i [] s = s
jal_backward_patterns cfg rand dreg i (pattern ∷ patterns) s =
    if not (truth dreg) && (i == 4)
    then s
    else jal_backward_patterns cfg rand dreg (i + 1) patterns
        (jal_backward_turn cfg rand dreg pattern (first patterns) s)

-- `n` registers from `dreg` on.
unfoldable pub jal_backward_registers :
    Config → (ℕ → ℕ) → List ℕ → ℕ → ℕ → JalBackward → JalBackward
jal_backward_registers cfg rand patterns zero dreg s = s
jal_backward_registers cfg rand patterns (suc n) dreg s =
    jal_backward_registers cfg rand patterns n (dreg + 1)
      (jal_backward_patterns cfg rand dreg 0 patterns s)

unfoldable pub generate_jal_backward : Config → (ℕ → ℕ) → List ℕ → JalBackward → JalBackward
generate_jal_backward cfg rand patterns s =
    jal_backward_registers cfg rand patterns regs_num 0
      (record s { pc_stype = 0; pc = 0; max_jump = memory_end })
