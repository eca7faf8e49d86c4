-- ===== src/Riscv/Generator/Jumps.antt =====
-- RISCV_SingleCycle/testbench/generator.cpp: `generate_jal_forward` and `generate_jal_backward`.
-- The patterns of 20 bits are not negative.
pub mod Backward
pub mod Bounds
pub mod Landing
use verilog.Common.{
  ℕ, zero, suc, ◌+◌, ◌-◌, ◌*◌, ◌/◌, ◌%◌, ◌^◌, List, [], ◌∷◌, Bool, true, false, not, ◌&&◌, ◌||◌,
  truth, ltb, leb, ◌==◌, if◌then◌else◌, Option, none, some, ◌&◌, ◌>>◌, u32, u64, sub32, sub64,
  to_long,
}
use verilog.Riscv.Isa.{Config, instructions_limit}
use verilog.Riscv.Commands.{UType, SType}
use verilog.Riscv.Sequencer.{Sequencer, split}
use verilog.Riscv.Sequences.Utype.{seq_jal}
use verilog.Riscv.Sequences.Stype.{set_stype}
use verilog.Riscv.Generator.{Generator, with_sqr, queue_ref_only, sign_extend, regs_num}

-- `pattern % max_jump` of a pattern that is not negative: the sign of the divisor does not count.
abbrev pub rem64 : ℕ → ℕ → ℕ
rem64 pattern max_jump = pattern % (if ltb max_jump (2 ^ 63) then max_jump else 2 ^ 64 - max_jump)

-- `INSTRUCTIONS_LIMIT * 4`
abbrev pub memory_end : ℕ
memory_end = instructions_limit * 4

-- `(pattern % max_jump) & 0x7FFFC`
unfoldable pub aligned_offset : ℕ → ℕ → ℕ
aligned_offset pattern max_jump = rem64 pattern max_jump & 0x7FFFC

-- `if (offset < 8) offset = 8`
unfoldable pub backward_offset : ℕ → ℕ → ℕ
backward_offset pattern max_jump =
    let offset = aligned_offset pattern max_jump in if ltb offset 8 then 8 else offset

-- `if (!offset) offset = 4`
unfoldable pub forward_offset : ℕ → ℕ → ℕ
forward_offset pattern max_jump =
    let offset = aligned_offset pattern max_jump in if truth offset then offset else 4

-- `n` stores that are to be jumped over.
unfoldable pub fill : Config → ℕ → SType → Sequencer → SType × Sequencer
fill cfg zero dummy_stype sqr = (dummy_stype, sqr)
fill cfg (suc n) dummy_stype sqr =
    let (dummy, sqr') = set_stype dummy_stype cfg.xlen sqr in fill cfg n dummy sqr'

-- What is left of the memory after the commands, and whether the next ones begin a new phase.
unfoldable pub next_jump : ℕ → Option ℕ → ℕ × Bool
next_jump pc next =
    let max_jump = sub64 memory_end pc in
    let next_stimulus =
      if truth max_jump
      then (elim next [ none ↦ 0 | some pattern ↦ backward_offset pattern max_jump ])
      else 0 in
    (max_jump, not (truth max_jump) || leb memory_end (u64 (pc + next_stimulus)))

-- The local variables of `generate_jal_forward`, with the generator and the number of random
-- numbers used.
pub record JalForward : Type 0 where
  pub jal : UType
  pub stype : SType
  pub dummy_stype : SType
  pub gen : Generator
  pub pc : ℕ
  pub max_jump : ℕ
  pub calls : ℕ

-- The commands of one turn and their reference transaction.
unfoldable pub jal_forward_commands : Config → (ℕ → ℕ) → ℕ → ℕ → JalForward → JalForward
jal_forward_commands cfg rand dreg pattern s =
    let word_len = cfg.xlen / 8 in
    let offset = forward_offset pattern s.max_jump in
    let (jal, sqr1) = seq_jal (record s.jal { rd = dreg; imm = offset >> 1 }) s.gen.bench.sqr in
    let (dummy, sqr2) = fill cfg (offset / 4 - 1) s.dummy_stype sqr1 in
    let imm = rand s.calls % 0x700 / word_len * word_len in
    let (store, sqr3) =
      set_stype (record s.stype { imm = imm; rs1 = 0; rs2 = dreg }) cfg.xlen sqr2 in
    let req = record s.gen.ref_req {
      wr = 1;
      rd_data = 0;
      wr_data = if truth dreg then u64 (s.pc + 4) else 0;
      addr = sign_extend (to_long store.imm) 12;
    } in
    record s {
      jal = jal;
      stype = store;
      dummy_stype = dummy;
      gen = queue_ref_only cfg (record (with_sqr sqr3 s.gen) { ref_req = req });
      pc = u64 (s.pc + offset + 4);
      calls = s.calls + 1;
    }

-- The end of a turn, given the pattern of the next turn of the innermost loop, if there is one.
unfoldable pub jal_forward_turn : Config → (ℕ → ℕ) → ℕ → ℕ → Option ℕ → JalForward → JalForward
jal_forward_turn cfg rand dreg pattern next s =
    let t = jal_forward_commands cfg rand dreg pattern s in
    let (max_jump, splits) = next_jump t.pc next in
    if splits
    then record t { gen = with_sqr (split t.gen.bench.sqr) t.gen; pc = 0; max_jump = memory_end }
    else record t { max_jump = max_jump }

-- The pattern after this one.
abbrev pub first : List ℕ → Option ℕ
first [] = none
first (pattern ∷ patterns) = some pattern

-- The patterns from the `i`-th on; four are enough for register 0.
unfoldable pub jal_forward_patterns : Config → (ℕ → ℕ) → ℕ → ℕ → List ℕ → JalForward → JalForward
jal_forward_patterns cfg rand dreg i [] s = s
jal_forward_patterns cfg rand dreg i (pattern ∷ patterns) s =
    if not (truth dreg) && (i == 4)
    then s
    else jal_forward_patterns cfg rand dreg (i + 1) patterns
        (jal_forward_turn cfg rand dreg pattern (first patterns) s)

-- `n` registers from `dreg` on.
unfoldable pub jal_forward_registers : Config → (ℕ → ℕ) → List ℕ → ℕ → ℕ → JalForward → JalForward
jal_forward_registers cfg rand patterns zero dreg s = s
jal_forward_registers cfg rand patterns (suc n) dreg s =
    jal_forward_registers cfg rand patterns n (dreg + 1)
      (jal_forward_patterns cfg rand dreg 0 patterns s)

unfoldable pub generate_jal_forward : Config → (ℕ → ℕ) → List ℕ → JalForward → JalForward
generate_jal_forward cfg rand patterns s =
    jal_forward_registers cfg rand patterns regs_num 0 (record s { pc = 0; max_jump = memory_end })
