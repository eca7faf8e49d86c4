-- ===== src/Riscv/Generator/Branches.antt =====
-- RISCV_SingleCycle/testbench/generator.cpp: what the generators of the conditional branches share,
-- and `generate_btype_forward`.
pub mod Backward
pub mod Compared
pub mod Filled
pub mod Landing
pub mod NoJump
pub mod Run
pub mod Straight
use verilog.Common.{
  ℕ, zero, suc, ◌+◌, ◌-◌, ◌*◌, ◌/◌, ◌%◌, ◌^◌, List, [], ◌∷◌, Bool, true, false, not, ◌&&◌, ◌||◌,
  truth, ltb, leb, ◌==◌, if◌then◌else◌, Option, none, some, ◌&◌, ◌>>◌, u32, u64, sub64, slt64,
  to_long,
}
use verilog.Riscv.Isa.{
  Config, op_b_type_beq, op_b_type_bne, op_b_type_blt, op_b_type_bge, op_b_type_bltu,
  op_b_type_bgeu,
}
use verilog.Riscv.Commands.{UType, SType, IType, BType}
use verilog.Riscv.Sequencer.{split}
use verilog.Riscv.Sequences.Utype.{seq_lui}
use verilog.Riscv.Sequences.Stype.{set_stype}
use verilog.Riscv.Sequences.Btype.{set_btype}
use verilog.Riscv.Sequences.Itype.Arithmetic.{seq_addi}
use verilog.Riscv.Generator.{
  Generator, with_sqr, queue_ref_only, sign_extend, register_value, regs_num,
}
use verilog.Riscv.Generator.Jumps.{memory_end, rem64, fill}

-- The `switch` on the opcode; none where it prints an error and returns.
unfoldable pub branch_expected : ℕ → ℕ → ℕ → Option Bool
branch_expected btype_opcode rs1 rs2 =
    if btype_opcode == op_b_type_beq
    then some (rs1 == rs2)
    else if btype_opcode == op_b_type_bne
    then some (not (rs1 == rs2))
    else if btype_opcode == op_b_type_blt
    then some (slt64 rs1 rs2)
    else if btype_opcode == op_b_type_bge
    then some (not (slt64 rs1 rs2))
    else if btype_opcode == op_b_type_bltu
    then some (ltb rs1 rs2)
    else if btype_opcode == op_b_type_bgeu
    then some (not (ltb rs1 rs2))
    else none

-- The value of `rs2`, which an ADDI makes from `rs1`.
abbrev pub second_value : ℕ → ℕ → IType → ℕ
second_value reg_rs2 rs1 addi =
    if truth reg_rs2 then u64 (rs1 + sign_extend (to_long addi.imm) 12) else 0

-- The value of `rs1` after that: the ADDI may have changed the same register.
abbrev pub first_value : ℕ → ℕ → ℕ → ℕ → ℕ
first_value reg_rs1 reg_rs2 rs1 rs2 = if truth reg_rs1 && (reg_rs1 == reg_rs2) then rs2 else rs1

-- `(pattern % max_jump) & 0x7FC`, at least `least`.
unfoldable pub branch_offset : ℕ → ℕ → ℕ → ℕ
branch_offset least pattern max_jump =
    let offset = rem64 pattern max_jump & 0x7FC in if ltb offset least then least else offset

-- `max_jump > 0` of a `long`.
abbrev pub is_positive : ℕ → Bool
is_positive max_jump = truth max_jump && ltb max_jump (2 ^ 63)

-- Whether the next commands begin a new phase. `last` tells the last turn of the innermost loop.
unfoldable pub branch_splits : ℕ → ℕ → Bool → ℕ → Bool
unfolding branch_offset
branch_splits pc max_jump last pattern =
    let next_stimulus =
      if not last && is_positive max_jump then branch_offset 4 pattern max_jump else 0 in
    not (is_positive max_jump) || leb memory_end (u64 (pc + next_stimulus))

-- What a turn of the loops is asked for: the argument and the loop variables. `mode` is an `int`.
pub record BtypeTurn : Type 0 where
  pub btype_opcode : ℕ
  pub reg_rs1 : ℕ
  pub reg_rs2 : ℕ
  pub mode : ℕ
  pub i : ℕ

-- The local variables of `generate_btype_forward`, with the generator and the number of random
-- numbers used.
pub record BtypeForward : Type 0 where
  pub btype : BType
  pub stype : SType
  pub dummy_stype : SType
  pub lui : UType
  pub addi_rs1 : IType
  pub addi_rs2 : IType
  pub rs1 : ℕ
  pub rs2 : ℕ
  pub offset : ℕ
  pub gen : Generator
  pub pc : ℕ
  pub max_jump : ℕ
  pub calls : ℕ

-- The commands up to the branch, and the values that it compares.
unfoldable pub btype_forward_branch : (ℕ → ℕ) → BtypeTurn → ℕ → ℕ → BtypeForward → BtypeForward
btype_forward_branch rand a pattern_12 pattern_20 s =
    let (lui, sqr1) =
      seq_lui (record s.lui { rd = a.reg_rs1; imm = u32 pattern_20 }) s.gen.bench.sqr in
    let (addi_rs1, sqr2) =
      seq_addi (record s.addi_rs1 { rd = a.reg_rs1; rs1 = a.reg_rs1; imm = u32 pattern_12 }) sqr1 in
    let imm = u32 (a.mode * (rand s.calls % 0xFFF)) in
    let (addi_rs2, sqr3) =
      seq_addi (record s.addi_rs2 { rd = a.reg_rs2; rs1 = a.reg_rs1; imm = imm }) sqr2 in
    let offset = branch_offset 4 pattern_12 s.max_jump in
    let (btype, sqr4) =
      set_btype (record s.btype { rs1 = a.reg_rs1; rs2 = a.reg_rs2; imm = offset >> 1 })
        a.btype_opcode sqr3 in
    let rs1 = register_value a.reg_rs1 lui addi_rs1 in
    let rs2 = second_value a.reg_rs2 rs1 addi_rs2 in
    record s {
      btype = btype;
      lui = lui;
      addi_rs1 = addi_rs1;
      addi_rs2 = addi_rs2;
      rs1 = first_value a.reg_rs1 a.reg_rs2 rs1 rs2;
      rs2 = rs2;
      offset = offset;
      gen = with_sqr sqr4 s.gen;
      calls = s.calls + 1;
    }

abbrev pub forward_const_offset : ℕ
forward_const_offset = 4 * 4

-- What follows the branch: the stores that it jumps over if it is expected to, the store that shows
-- `rs1`, and the place of the next turn.
unfoldable pub btype_forward_store :
    Config → (ℕ → ℕ) → BtypeTurn → Bool → ℕ → Bool → BtypeForward → BtypeForward
btype_forward_store cfg rand a last pattern_12 expected s =
    let word_len = cfg.xlen / 8 in
    let fill_up = if expected then s.offset / 4 - 1 else 0 in
    let offset = if expected then s.offset else 4 in
    let (dummy, sqr1) = fill cfg fill_up s.dummy_stype s.gen.bench.sqr in
    let imm = rand s.calls % 0x700 / word_len * word_len in
    let (store, sqr2) =
      set_stype (record s.stype { imm = imm; rs1 = 0; rs2 = a.reg_rs1 }) cfg.xlen sqr1 in
    let req = record s.gen.ref_req {
      wr = 1;
      rd_data = 0;
      wr_data = if truth a.reg_rs1 then s.rs1 else 0;
      addr = sign_extend (to_long store.imm) 12;
    } in
    let gen = queue_ref_only cfg (record (with_sqr sqr2 s.gen) { ref_req = req }) in
    let pc = u64 (s.pc + (offset + forward_const_offset)) in
    let max_jump = sub64 s.max_jump (offset + forward_const_offset) in
    let splits = branch_splits pc max_jump last pattern_12 in
    record s {
      stype = store;
      dummy_stype = dummy;
      offset = offset;
      gen = if splits then with_sqr (split gen.bench.sqr) gen else gen;
      pc = if splits then forward_const_offset - 4 else pc;
      max_jump = if splits then memory_end - forward_const_offset else max_jump;
      calls = s.calls + 1;
    }

-- What follows the `switch`, and whether the function goes on after the turn.
abbrev pub after_branch :
    Config → (ℕ → ℕ) → BtypeTurn → Bool → ℕ → BtypeForward → Option Bool → Bool × BtypeForward
after_branch cfg rand a last pattern_12 t none = (false, t)
after_branch cfg rand a last pattern_12 t (some expected) =
    (true, btype_forward_store cfg rand a last pattern_12 expected t)

-- One turn of the innermost loop, and whether the function goes on after it.
unfoldable pub btype_forward_turn :
    Config → (ℕ → ℕ) → BtypeTurn → Bool → ℕ × ℕ → BtypeForward → Bool × BtypeForward
btype_forward_turn cfg rand a last (pattern_12, pattern_20) s =
    let t = btype_forward_branch rand a pattern_12 pattern_20 s in
    after_branch cfg rand a last pattern_12 t (branch_expected a.btype_opcode t.rs1 t.rs2)

abbrev pub is_last {ℓ} : {A : Type ℓ} → List A → Bool
is_last [] = true
is_last (x ∷ xs) = false

-- `mode` from -1 to 1.
abbrev pub all_modes : List ℕ
all_modes = (2 ^ 32 - 1) ∷ 0 ∷ 1 ∷ []

-- The loops on the registers, the modes and the patterns, around a turn that is told whether it is
-- the last of the innermost loop, and tells whether the function goes on.
module _ {P S : Type 0} (turn : BtypeTurn → Bool → P → S → Bool × S) where
  -- The patterns from that of `a` on; four are enough where a register is x0.
  unfoldable pub branch_patterns : BtypeTurn → List P → S → Bool × S
  branch_patterns a [] s = (true, s)
  branch_patterns a (p ∷ patterns) s =
      if (not (truth a.reg_rs1) || not (truth a.reg_rs2)) && (a.i == 4)
      then (true, s)
      else (let (goes_on, s') = turn a (is_last patterns) p s in
          elim goes_on [
            | true ↦ branch_patterns (record a { i = a.i + 1 }) patterns s'
            | false ↦ (false, s')
          ])

  -- The modes.
  unfoldable pub branch_modes : List P → BtypeTurn → List ℕ → S → Bool × S
  branch_modes patterns a [] s = (true, s)
  branch_modes patterns a (mode ∷ modes) s =
      let (goes_on, s') = branch_patterns (record a { mode = mode; i = 0 }) patterns s in
      elim goes_on [ true ↦ branch_modes patterns a modes s' | false ↦ (false, s') ]

  -- `n` second source registers from that of `a` on.
  unfoldable pub branch_seconds : List P → BtypeTurn → ℕ → S → Bool × S
  branch_seconds patterns a zero s = (true, s)
  branch_seconds patterns a (suc n) s =
      let (goes_on, s') = branch_modes patterns a all_modes s in
      elim goes_on [
        | true ↦ branch_seconds patterns (record a { reg_rs2 = a.reg_rs2 + 1 }) n s'
        | false ↦ (false, s')
      ]

  -- `n` first source registers from that of `a` on.
  unfoldable pub branch_firsts : List P → BtypeTurn → ℕ → S → Bool × S
  branch_firsts patterns a zero s = (true, s)
  branch_firsts patterns a (suc n) s =
      let (goes_on, s') = branch_seconds patterns (record a { reg_rs2 = 0 }) regs_num s in
      elim goes_on [
        | true ↦ branch_firsts patterns (record a { reg_rs1 = a.reg_rs1 + 1 }) n s'
        | false ↦ (false, s')
      ]

-- The first turn of the loops.
abbrev pub first_turn : ℕ → BtypeTurn
first_turn btype_opcode = record {
  btype_opcode = btype_opcode;
  reg_rs1 = 0;
  reg_rs2 = 0;
  mode = 0;
  i = 0;
}

unfoldable pub generate_btype_forward :
    Config → (ℕ → ℕ) → List (ℕ × ℕ) → ℕ → BtypeForward → BtypeForward
generate_btype_forward cfg rand patterns btype_opcode s =
    (branch_firsts (btype_forward_turn cfg rand) patterns (first_turn btype_opcode) regs_num
      (record s { pc = forward_const_offset - 4; max_jump = memory_end - forward_const_offset })).1
