-- ===== src/Riscv/Generator/Branches/Filled.antt =====
-- generator.cpp: the commands of a turn of `generate_btype_forward` up to the branch, and the core on
-- them.
use verilog.Common.{
  ℕ, ◌+◌, ◌*◌, ◌%◌, ◌^◌, ◌<◌, ◌≡◌, refl, ap, ◌∙◌, [], ◌∷◌, ◌++◌, truth, ◌&&◌, ◌==◌, ◌>>◌, u32, u64,
  to_long, push_back, append-push_back, arith,
}
use verilog.Riscv.Isa.{Config, Build, xlen_of, config}
use verilog.Riscv.Commands.{UType, IType, BType}
use verilog.Riscv.Sequencer.{Sequencer, push_seq}
use verilog.Riscv.Transactions.Queues.{cut}
use verilog.Riscv.Sequences.Utype.{seq_lui}
use verilog.Riscv.Sequences.Itype.Arithmetic.{seq_addi}
use verilog.Riscv.Sequences.Dispatch.Branches.{Compare, branch_code, set_btype-BranchesBy}
use verilog.Riscv.Sequences.Cycles.{cycle-lui_next, cycle-addi_next}
use verilog.Riscv.Rtl.Core.{Core, cycle, cycles}
use verilog.Riscv.Generator.{sign_extend, get_lui_base_imm_value, register_value}
use verilog.Riscv.Generator.Registers.{
  with_register-zero, cut-if, register_value-lt, lui_addi-register, addi-register, two_registers,
  cut-either, with_register-ap,
}
use verilog.Riscv.Generator.Turns.{seq_addi-pushes}
use verilog.Riscv.Sequences.RoundTrip.{seq_lui-pushes}
use verilog.Riscv.Generator.Branches.{BtypeTurn, BtypeForward, btype_forward_branch}

-- The core after the commands that fill the registers of a branch.
abbrev pub before_branch : Config → BtypeForward → Core → Core
before_branch cfg t core = cycles cfg (t.lui.value ∷ t.addi_rs1.value ∷ t.addi_rs2.value ∷ []) core

four_pushed :
    (x1 x2 x3 x4 : ℕ) (sqr : Sequencer)
    → (push_seq x4 (push_seq x3 (push_seq x2 (push_seq x1 sqr)))).sqr_fifo
      ≡ sqr.sqr_fifo ++ (x1 ∷ x2 ∷ x3 ∷ x4 ∷ [])
unfolding push_seq
four_pushed x1 x2 x3 x4 sqr =
    let xs = sqr.sqr_fifo in
    append-push_back (push_back (push_back xs x1) x2) x3 (x4 ∷ [])
    ∙ append-push_back (push_back xs x1) x2 (x3 ∷ x4 ∷ [])
    ∙ append-push_back xs x1 (x2 ∷ x3 ∷ x4 ∷ [])

module _ (b : Build) (w : ℕ) (rand : ℕ → ℕ) (o : Compare)
    (reg1 reg2 mode i pattern_12 pattern_20 : ℕ) (s : BtypeForward) where
  abbrev asked : BtypeTurn
  asked = record {
    btype_opcode = branch_code o;
    reg_rs1 = reg1;
    reg_rs2 = reg2;
    mode = mode;
    i = i;
  }

  abbrev made : BtypeForward
  made = btype_forward_branch rand asked pattern_12 pattern_20 s

  abbrev lui' : UType
  lui' = record s.lui { rd = reg1; imm = u32 pattern_20 }

  abbrev addi1 : IType
  addi1 = record s.addi_rs1 { rd = reg1; rs1 = reg1; imm = u32 pattern_12 }

  abbrev addi2 : IType
  addi2 = record s.addi_rs2 { rd = reg2; rs1 = reg1; imm = u32 (mode * (rand s.calls % 0xFFF)) }

  abbrev sqr1 : Sequencer
  sqr1 = (seq_lui lui' s.gen.bench.sqr).1

  abbrev sqr2 : Sequencer
  sqr2 = (seq_addi addi1 sqr1).1

  abbrev sqr3 : Sequencer
  sqr3 = (seq_addi addi2 sqr2).1

  abbrev branch : BType
  branch = record s.btype { rs1 = reg1; rs2 = reg2; imm = made.offset >> 1 }

  -- The commands up to the branch, in the queue.
  pub btype_forward_branch-queue :
      made.gen.bench.sqr.sqr_fifo
      ≡ s.gen.bench.sqr.sqr_fifo
        ++ (made.lui.value ∷ made.addi_rs1.value ∷ made.addi_rs2.value ∷ made.btype.value ∷ [])
  unfolding btype_forward_branch
  btype_forward_branch-queue =
      let pushed = (set_btype-BranchesBy (config b w) branch sqr3 o).1 in
      let all =
        pushed
        ∙ ap (push_seq made.btype.value) (
            seq_addi-pushes addi2 sqr2
            ∙ ap (push_seq made.addi_rs2.value) (
                seq_addi-pushes addi1 sqr1
                ∙ ap (push_seq made.addi_rs1.value) (seq_lui-pushes lui' s.gen.bench.sqr))) in
      ap (λ (q : Sequencer). q.sqr_fifo) all ∙ four_pushed _ _ _ _ s.gen.bench.sqr

  module _ (core : Core) (small1 : reg1 < 32) (small2 : reg2 < 32) (x0 : core.reg_mem 0 ≡ 0) where
    abbrev filled : Core
    filled = before_branch (config b w) made core

    -- The core's registers at the branch are the two values of the turn.
    pub before_branch-registers :
        (filled.reg_mem 0 ≡ 0)
        × (filled.reg_mem reg1 ≡ cut (xlen_of b) made.rs1)
        × (filled.reg_mem reg2 ≡ cut (xlen_of b) made.rs2)
    unfolding btype_forward_branch cycles
    before_branch-registers =
        let n = xlen_of b in
        let value = get_lui_base_imm_value (to_long made.lui.imm) (to_long made.addi_rs1.imm) in
        let base = register_value reg1 made.lui made.addi_rs1 in
        let sum = u64 (base + sign_extend (to_long made.addi_rs2.imm) 12) in
        let core2 = cycles (config b w) (made.lui.value ∷ made.addi_rs1.value ∷ []) core in
        let first =
          lui_addi-register b w reg1 lui' addi1 s.gen.bench.sqr sqr1 core small1 refl refl refl in
        let (zeros, holds) = with_register-zero reg1 (cut n value) core.reg_mem x0 in
        let second =
          addi-register b w addi2 sqr2 core2 base small2 small1
            (register_value-lt reg1 made.lui made.addi_rs1)
            (first reg1 ∙ holds ∙ cut-if b (truth reg1) value) in
        let (zeros', at1, at2) =
          two_registers reg1 reg2 (cut n value) (cut n sum) core.reg_mem filled.reg_mem x0 (λ r.
            ap (λ f. f r) second ∙ with_register-ap reg2 (cut n sum) core2.reg_mem _ first r) in
        (
          zeros',
          at1 ∙ cut-either b (truth reg1 && (reg1 == reg2)) (truth reg2) (truth reg1) sum value,
          at2 ∙ cut-if b (truth reg2) sum,
        )

    pub before_branch-pc : core.pc + 12 ≡ s.pc → s.pc < 2 ^ 19 → filled.pc ≡ s.pc
    unfolding btype_forward_branch cycles
    before_branch-pc at small =
        let cfg = config b w in
        let core1 = (cycle cfg made.lui.value 0 core).1 in
        let core2 = (cycle cfg made.addi_rs1.value 0 core1).1 in
        let one = cycle-lui_next cfg lui' s.gen.bench.sqr core in
        let two = cycle-addi_next cfg addi1 sqr1 core1 in
        let three = cycle-addi_next cfg addi2 sqr2 core2 in omega (arith, one, two, three)
