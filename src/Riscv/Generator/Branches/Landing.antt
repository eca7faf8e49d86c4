-- ===== src/Riscv/Generator/Branches/Landing.antt =====
-- generator.cpp: where the core goes from the branch of a turn of `generate_btype_forward`.
use mathlib.Core.List.{append_assoc, append-nil}
use verilog.Common.{
  ℕ, ◌+◌, ◌-◌, ◌*◌, ◌/◌, ◌%◌, ◌^◌, ◌≤◌, ◌<◌, ◌≡◌, refl, sym, ap, ◌∙◌, suc, List, [], ◌∷◌, ◌++◌,
  length, Bool, true, false, ◌⊎◌, Bool-cases, inl, inr, truth, ◌&&◌, ◌==◌, if◌then◌else◌, some,
  ◌>>◌, u32, u64, sub64, push_back, arith,
}
use verilog.Common.Bits.{and_field}
use verilog.Riscv.Isa.{Build, rv32, rv64, xlen_of, config, op_alu_add}
use verilog.Riscv.Commands.{SType, BType}
use verilog.Riscv.Sequencer.{Sequencer, split}
use verilog.Riscv.Transactions.Queues.{cut}
use verilog.Riscv.Sequences.Utype.{seq_lui}
use verilog.Riscv.Sequences.Stype.{set_stype}
use verilog.Riscv.Sequences.Btype.{set_btype}
use verilog.Riscv.Sequences.Itype.Arithmetic.{seq_addi}
use verilog.Riscv.Sequences.RoundTrip.{sext32}
use verilog.Riscv.Sequences.Dispatch.Branches.{Compare, branch_code, set_btype-BranchesBy}
use verilog.Riscv.Sequences.Cycles.{cycle-branch}
use verilog.Riscv.Rtl.Alu.{alu_dataflow, branch_taken}
use verilog.Riscv.Rtl.Core.{Core, extend, cycle}
use verilog.Riscv.Generator.{Generator, with_sqr, register_value}
use verilog.Riscv.Generator.Longs.{Fits}
use verilog.Riscv.Generator.Registers.{register_value-lt}
use verilog.Riscv.Generator.Stores.{whole_store}
use verilog.Riscv.Generator.Jumps.{rem64, fill}
use verilog.Riscv.Generator.Jumps.Landing.{Stores, fill-Adds, push_seq-fifo, push_ref-quiet}
use verilog.Riscv.Generator.Branches.{
  BtypeTurn, BtypeForward, branch_offset, branch_expected, second_value, btype_forward_branch,
  btype_forward_store, branch_splits, forward_const_offset, btype_forward_turn, after_branch,
}
use verilog.Riscv.Generator.Branches.Compared.{branch_expected-taken}

branch_offset-fits :
    (pattern max_jump : ℕ)
    → let offset = branch_offset 4 pattern max_jump in
      (offset % 4 ≡ 0) × (4 ≤ offset) × (offset < 2 ^ 11)
unfolding branch_offset
branch_offset-fits pattern max_jump =
    let field = and_field 9 2 (rem64 pattern max_jump) in ground (arith, field)

-- The place to which the core goes where it takes the branch.
landing :
    (b : Build) (pc offset : ℕ)
    → offset % 4 ≡ 0
    → pc % 4 ≡ 0
    → pc < 2 ^ 19
    → offset < 2 ^ 11
    → u32 (
          alu_dataflow
            (xlen_of b)
            op_alu_add
            pc
            (extend (xlen_of b) 32 (sext32 13 ((offset >> 1) * 2))))
        / 2
        * 2
      ≡ pc + offset
unfolding alu_dataflow
landing rv32 pc offset four place small short = ground arith
landing rv64 pc offset four place small short = ground arith

-- The place after the commands that are skipped.
skipped-place :
    (taken : Bool) (pc offset n : ℕ)
    → offset % 4 ≡ 0
    → 4 ≤ offset
    → n ≡ (if taken then offset / 4 - 1 else 0)
    → pc + (if taken then offset else 4) ≡ pc + 4 * suc n
skipped-place true pc offset n multiple least count = omega arith
skipped-place false pc offset n multiple least count = omega arith

-- What stands behind the store: nothing, and the next branch comes four commands after it, or the
-- zero that ends the phase, and the next branch comes fourth in a new one.
abbrev pub TurnEnds : ℕ → ℕ → List ℕ → Type 0
TurnEnds here next rest =
    ((rest ≡ []) × (next ≡ u64 (here + 4 * 4))) ⊎ ((rest ≡ 0 ∷ []) × (next ≡ 4 * 3))

-- The zero command that ends a phase.
abbrev phase_end : Bool → List ℕ
phase_end true = 0 ∷ []
phase_end false = []

turn_ends :
    (splits : Bool) (here pc : ℕ)
    → pc ≡ u64 (here + 4 * 4)
    → TurnEnds here (if splits then forward_const_offset - 4 else pc) (phase_end splits)
turn_ends true here pc h = inr (refl, refl)
turn_ends false here pc h = inl (refl, h)

split-tail :
    (gen : Generator) (splits : Bool)
    → (if splits then with_sqr (split gen.bench.sqr) gen else gen).bench.sqr.sqr_fifo
      ≡ gen.bench.sqr.sqr_fifo ++ phase_end splits
unfolding split
split-tail gen true = push_seq-fifo 0 gen.bench.sqr
split-tail gen false = sym (append-nil gen.bench.sqr.sqr_fifo)

module _ (b : Build) (w : ℕ) (rand : ℕ → ℕ) (o : Compare)
    (reg1 reg2 mode i pattern_12 pattern_20 : ℕ) (last : Bool) (s : BtypeForward) where
  abbrev asked : BtypeTurn
  asked = record {
    btype_opcode = branch_code o;
    reg_rs1 = reg1;
    reg_rs2 = reg2;
    mode = mode;
    i = i;
  }

  abbrev made : BtypeForward
  made = btype_forward_branch rand asked pattern_12 pattern_20 s

  values-lt : (made.rs1 < 2 ^ 64) × (made.rs2 < 2 ^ 64)
  unfolding btype_forward_branch
  values-lt =
      let first = register_value-lt reg1 made.lui made.addi_rs1 in
      let value = register_value reg1 made.lui made.addi_rs1 in
      let second : second_value reg2 value made.addi_rs2 < 2 ^ 64 = ground arith in
      (
        elim (Bool-cases (truth reg1 && (reg1 == reg2))) [
          | inl e ↦ rw (e) second
          | inr e ↦ rw (e) first
        ],
        second,
      )

  -- The store and what the core has to skip before it, as `expected` says.
  btype_forward_store-queue :
      (expected : Bool) (t : BtypeForward)
      → let u = btype_forward_store (config b w) rand asked last pattern_12 expected t in
        (skipped : List ℕ) × ((rest : List ℕ) × ((u.gen.bench.sqr.sqr_fifo
              ≡ t.gen.bench.sqr.sqr_fifo ++ (skipped ++ (u.stype.value ∷ rest)))
            × ((length skipped ≡ (if expected then t.offset / 4 - 1 else 0))
                × (Stores (config b w) skipped
                    × TurnEnds (t.pc + (if expected then t.offset else 4)) u.pc rest))))
  unfolding btype_forward_store
  btype_forward_store-queue expected t =
      let n = if expected then t.offset / 4 - 1 else 0 in
      let (skipped, (added, (count, stores))) = fill-Adds b w n t.dummy_stype t.gen.bench.sqr in
      let sqr1 = (fill (config b w) n t.dummy_stype t.gen.bench.sqr).1 in
      let cmd : SType = record t.stype {
        imm = rand t.calls % 0x700 / (xlen_of b / 8) * (xlen_of b / 8);
        rs1 = 0;
        rs2 = reg1;
      } in
      let c = (set_stype cmd (xlen_of b) sqr1).0 in
      let (_, _, pushed, _) = whole_store b w cmd sqr1 in
      let fifo = t.gen.bench.sqr.sqr_fifo in
      let jump = if expected then t.offset else 4 in
      let pc = u64 (t.pc + (jump + forward_const_offset)) in
      let splits =
        branch_splits pc (sub64 t.max_jump (jump + forward_const_offset)) last pattern_12 in
      let rest : List ℕ = phase_end splits in
      let stored : (set_stype cmd (xlen_of b) sqr1).1.sqr_fifo
          ≡ fifo ++ (skipped ++ (c.value ∷ [])) =
        ap (λ (q : Sequencer). q.sqr_fifo) pushed
        ∙ push_seq-fifo c.value sqr1
        ∙ ap (λ q. push_back q c.value) added
        ∙ append_assoc fifo skipped (c.value ∷ []) in
      (
        skipped,
        (
          rest,
          (
            split-tail _ _
                ∙ ap (λ (q : Sequencer). q.sqr_fifo ++ rest) (push_ref-quiet (config b w) _ _)
                ∙ ap (λ q. q ++ rest) stored
                ∙ append_assoc fifo (skipped ++ (c.value ∷ [])) rest
                ∙ ap (λ q. fifo ++ q) (append_assoc skipped (c.value ∷ []) rest),
            (count, (stores, turn_ends splits (t.pc + jump) pc (omega arith))),
          ),
        ),
      )

  module _ (core : Core) where
    -- The queue the branch goes to.
    abbrev before : Sequencer
    before =
        let (_, sqr1) =
          seq_lui (record s.lui { rd = reg1; imm = u32 pattern_20 }) s.gen.bench.sqr in
        let (_, sqr2) =
          seq_addi (record s.addi_rs1 { rd = reg1; rs1 = reg1; imm = u32 pattern_12 }) sqr1 in
        let imm = u32 (mode * (rand s.calls % 0xFFF)) in
        (seq_addi (record s.addi_rs2 { rd = reg2; rs1 = reg1; imm = imm }) sqr2).1

    abbrev branch : BType
    branch = record s.btype { rs1 = reg1; rs2 = reg2; imm = made.offset >> 1 }

    abbrev taken : Bool
    taken =
        branch_taken (xlen_of b) true (branch_code o) (core.reg_mem (reg1 % 32))
          (core.reg_mem (reg2 % 32))

    -- The branch itself: the core goes to the counted pc plus the offset, or to the next command.
    btype_forward_branch-jump :
        s.pc % 4 ≡ 0
        → s.pc < 2 ^ 19
        → core.pc ≡ s.pc
        → let landed = (cycle (config b w) made.btype.value 0 core).1 in
          (landed.pc ≡ s.pc + (if taken then made.offset else 4)) × (landed.reg_mem ≡ core.reg_mem)
    unfolding btype_forward_branch
    btype_forward_branch-jump four small at =
        let v = (set_btype branch (branch_code o) before).0.value in
        let (goes, keeps) =
          cycle-branch (config b w) v core branch o
            (set_btype-BranchesBy (config b w) branch before o).0 in
        let (multiple, least, short) = branch_offset-fits pattern_12 s.max_jump in
        (
          goes
              ∙ rw
                  (
                    at,
                    landing b s.pc (branch_offset 4 pattern_12 s.max_jump) multiple four small
                        short,
                  )
                  elim (Bool-cases taken) [ inl e ↦ rw (e) refl | inr e ↦ rw (e) omega arith ],
          keeps,
        )

    -- Where the opcode is that of a branch the turn goes on.
    btype_forward_turn-goes_on :
        (expected : Bool)
        → branch_expected (branch_code o) made.rs1 made.rs2 ≡ some expected
        → btype_forward_turn (config b w) rand asked last (pattern_12, pattern_20) s
          ≡ (true, btype_forward_store (config b w) rand asked last pattern_12 expected made)
    unfolding btype_forward_turn
    btype_forward_turn-goes_on expected e =
        ap (after_branch (config b w) rand asked last pattern_12 made) e

    -- With the two values in the core's registers the turn expects what the core does.
    pub btype_forward_turn-stores :
        Fits b made.rs1
        → Fits b made.rs2
        → core.reg_mem (reg1 % 32) ≡ cut (xlen_of b) made.rs1
        → core.reg_mem (reg2 % 32) ≡ cut (xlen_of b) made.rs2
        → btype_forward_turn (config b w) rand asked last (pattern_12, pattern_20) s
          ≡ (true, btype_forward_store (config b w) rand asked last pattern_12 taken made)
    btype_forward_turn-stores fits1 fits2 holds1 holds2 =
        let n = xlen_of b in
        let (lt1, lt2) = values-lt in
        let expects : branch_expected (branch_code o) made.rs1 made.rs2 ≡ some taken =
          branch_expected-taken b o made.rs1 made.rs2 lt1 lt2 fits1 fits2
          ∙ sym (
              ap (λ r. some (branch_taken n true (branch_code o) r (core.reg_mem (reg2 % 32))))
                holds1
              ∙ ap (λ r. some (branch_taken n true (branch_code o) (cut n made.rs1) r)) holds2) in
        btype_forward_turn-goes_on taken expects

    -- For each comparison, in both builds: a turn of `generate_btype_forward` goes on, and after the
    -- branch it queues stores that are to be skipped, then the store, and at most the zero that ends
    -- the phase. The core, at the counted pc of the branch and with the two longs, which are sign
    -- extended, in its registers, goes from the branch to the store, whether the branch is taken or
    -- not, and keeps its registers.
    pub btype_forward_turn-lands :
        s.pc % 4 ≡ 0
        → s.pc < 2 ^ 19
        → Fits b made.rs1
        → Fits b made.rs2
        → core.pc ≡ s.pc
        → core.reg_mem (reg1 % 32) ≡ cut (xlen_of b) made.rs1
        → core.reg_mem (reg2 % 32) ≡ cut (xlen_of b) made.rs2
        → let (goes_on, u) =
            btype_forward_turn (config b w) rand asked last (pattern_12, pattern_20) s in
          let landed = (cycle (config b w) made.btype.value 0 core).1 in
          (goes_on ≡ true)
          × (landed.reg_mem ≡ core.reg_mem)
          × ((skipped : List ℕ) × ((rest : List ℕ) × ((u.gen.bench.sqr.sqr_fifo
                    ≡ made.gen.bench.sqr.sqr_fifo ++ (skipped ++ (u.stype.value ∷ rest)))
                  × (Stores (config b w) skipped
                      × (TurnEnds landed.pc u.pc rest
                          × (landed.pc ≡ s.pc + 4 * suc (length skipped)))))))
    btype_forward_turn-lands four small fits1 fits2 at holds1 holds2 =
        let (goes, keeps) = btype_forward_branch-jump four small at in
        let (skipped, (rest, (queue, (count, (stores, ends))))) =
          btype_forward_store-queue taken made in
        let place : s.pc + (if taken then made.offset else 4) ≡ s.pc + 4 * suc (length skipped) =
          (let (multiple, least, _) = branch_offset-fits pattern_12 s.max_jump in
            unfold btype_forward_branch in
            skipped-place taken s.pc (branch_offset 4 pattern_12 s.max_jump) (length skipped)
              multiple least count) in
        rw (btype_forward_turn-stores fits1 fits2 holds1 holds2) (
          refl,
          keeps,
          (
            skipped,
            (
              rest,
              (queue, (stores, (rw (goes) (unfold btype_forward_branch in ends), goes ∙ place))),
            ),
          ),
        )
