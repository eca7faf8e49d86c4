-- ===== src/Examples/Straight.antt =====
-- RISCV_SingleCycle/testbench/generator.cpp: a turn of `generate_btype_no_jump`.
use verilog.Common.{ℕ, ◌+◌, ◌*◌, ◌≡◌, ◌≢◌, ◌⊎◌, inr, refl, true, false, ◌&◌, arith}
use verilog.Riscv.Isa.{rv64, config}
use verilog.Riscv.Transactions.Queues.{cut}
use verilog.Riscv.Sequences.Dispatch.Branches.{bge, branch_code}
use verilog.Riscv.Rtl.Alu.{branch_taken}
use verilog.Riscv.Generator.{sign_extend}
use verilog.Riscv.Generator.Longs.{Fits}
use verilog.Riscv.Generator.Branches.NoJump.{
  BtypeNoJump, skipped, chosen, no_jump_choice, no_jump_branch,
}
use verilog.Riscv.Generator.Branches.Straight.{no_jump_branch-straight}
use verilog.Examples.Stimulus.{upper, lower, store, start}
use verilog.Examples.Generators.{arithmetic}
use verilog.Examples.Jumps.{condition}

abbrev staying : BtypeNoJump
staying = record {
  btype = condition;
  stype = store;
  lui = upper;
  addi_rs1 = lower;
  addi_rs2 = lower;
  lui_help = upper;
  addi_help = lower;
  slli_help = lower;
  rhelp = arithmetic;
  rs1 = 0;
  rs2 = 0;
  gen = start;
  calls = 0;
}

-- The first random number is 0, the next one has a low bit.
abbrev rolls : ℕ → ℕ
rolls k = 0x800 * k + k

pattern-Fits : Fits rv64 0x1234567890
unfolding sign_extend
pattern-Fits = refl

one_roll : rolls 1 & 0x7FF ≢ 0
one_roll = omega arith

no_jump_branch-straight_example :
    let choice = no_jump_choice rolls 9 (branch_code bge) 5 6 0x1234567890 staying.calls in
    (choice ≡ skipped)
    ⊎ ((imm : ℕ) × ((calls : ℕ) × ((choice ≡ chosen imm calls)
            × (let t =
                  (no_jump_branch
                    (config rv64 32)
                    (branch_code bge)
                    5
                    6
                    0x1234567890
                    imm
                    (record staying { calls = calls })).0 in
                branch_taken 64 true (branch_code bge) (cut 64 t.rs1) (cut 64 t.rs2) ≡ false))))
no_jump_branch-straight_example =
    no_jump_branch-straight rv64 32 bge rolls 1 9 5 6 0x1234567890 staying (omega arith)
      pattern-Fits (inr (omega arith)) (omega arith) one_roll
