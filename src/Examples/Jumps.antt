-- ===== src/Examples/Jumps.antt =====
-- RISCV_SingleCycle/testbench/generator.cpp: turns of the jump and branch generators, and the core on
-- their commands.
use verilog.Common.{
  ℕ, suc, ◌+◌, ◌-◌, ◌*◌, ◌^◌, ◌≡◌, refl, true, false, List, [], ◌∷◌, ◌++◌, length, some, push_back,
  arith,
}
use verilog.Riscv.Isa.{rv32, rv64, config}
use verilog.Riscv.Commands.{BType}
use verilog.Riscv.Transactions.Queues.{cut}
use verilog.Riscv.Sequences.Dispatch.Branches.{blt, bltu, branch_code}
use verilog.Riscv.Rtl.Alu.{branch_taken}
use verilog.Riscv.Rtl.Core.{Core, cycle}
use verilog.Riscv.Sequences.Utype.{seq_lui}
use verilog.Riscv.Sequences.Itype.Arithmetic.{seq_addi}
use verilog.Riscv.Generator.{sign_extend, get_lui_base_imm_value}
use verilog.Riscv.Generator.Longs.{Fits}
use verilog.Riscv.Generator.Jumps.{JalForward, jal_forward_commands, memory_end}
use verilog.Riscv.Generator.Jumps.Bounds.{InMemory}
use verilog.Riscv.Generator.Jumps.Landing.{Stores, jal_forward_commands-lands}
use verilog.Riscv.Generator.Branches.{
  BtypeTurn, BtypeForward, branch_expected, btype_forward_branch, btype_forward_turn,
}
use verilog.Riscv.Generator.Branches.Compared.{branch_expected-taken}
use verilog.Riscv.Generator.Branches.Filled.{before_branch}
use verilog.Riscv.Generator.Branches.Landing.{TurnEnds}
use verilog.Riscv.Generator.Branches.Run.{btype_forward_turn-runs}
use verilog.Examples.Stimulus.{upper, lower, store, start}
use verilog.Examples.Generators.{random, reset}

abbrev at_12 : Core
at_12 = record { pc = 12; reg_mem = λ n. 0 }

abbrev jumping : JalForward
jumping = record {
  jal = upper;
  stype = store;
  dummy_stype = store;
  gen = start;
  pc = 12;
  max_jump = memory_end - 12;
  calls = 0;
}

jumping-InMemory : InMemory jumping.pc jumping.max_jump
jumping-InMemory = (refl, omega arith, refl)

jal_forward_commands-lands_example :
    let cfg = config rv64 32 in
    let made = jal_forward_commands cfg random 6 20 jumping in
    let landed = (cycle cfg made.jal.value 0 at_12).1 in
    let bus = (cycle cfg made.stype.value 0 landed).0 in
    ((skipped : List ℕ) × ((made.gen.bench.sqr.sqr_fifo
          ≡ jumping.gen.bench.sqr.sqr_fifo
            ++ (made.jal.value ∷ (skipped ++ (made.stype.value ∷ []))))
        × (Stores cfg skipped × (landed.pc ≡ jumping.pc + 4 * suc (length skipped)))))
    × (made.pc ≡ landed.pc + 4)
    × (made.gen.bench.ref_fifo ≡ push_back jumping.gen.bench.ref_fifo made.gen.ref_req)
    × (made.gen.ref_req.wr ≡ 1)
    × (bus.dmem_wr ≡ true)
    × (made.gen.ref_req.wr_data ≡ bus.dmem_wr_data)
    × (made.gen.ref_req.addr ≡ cut 32 bus.dmem_addr)
jal_forward_commands-lands_example =
    jal_forward_commands-lands rv64 32 random 6 20 jumping at_12 jumping-InMemory refl (omega arith)
      refl

minus_one-Fits : Fits rv32 (2 ^ 64 - 1)
unfolding sign_extend
minus_one-Fits = refl

one-Fits : Fits rv32 1
unfolding sign_extend
one-Fits = refl

branch_expected-taken_example :
    branch_expected (branch_code bltu) (2 ^ 64 - 1) 1
    ≡ some (branch_taken 32 true (branch_code bltu) (cut 32 (2 ^ 64 - 1)) (cut 32 1))
branch_expected-taken_example =
    branch_expected-taken rv32 bltu (2 ^ 64 - 1) 1 (omega arith) (omega arith) minus_one-Fits
      one-Fits

abbrev pub condition : BType
condition = record { value = 0; opcode = 0; funct3 = 0; rs1 = 0; rs2 = 0; imm = 0 }

abbrev branching : BtypeForward
branching = record {
  btype = condition;
  stype = store;
  dummy_stype = store;
  lui = upper;
  addi_rs1 = lower;
  addi_rs2 = lower;
  rs1 = 0;
  rs2 = 0;
  offset = 0;
  gen = start;
  pc = 12;
  max_jump = memory_end - 16;
  calls = 0;
}

-- Register 6 is one more than register 5.
abbrev compares : BtypeTurn
compares = record { btype_opcode = branch_code blt; reg_rs1 = 5; reg_rs2 = 6; mode = 1; i = 0 }

abbrev three : ℕ → ℕ
three k = 3

forward-Fits :
    let made = btype_forward_branch three compares 40 9 branching in
    Fits rv32 made.rs1 × Fits rv32 made.rs2
unfolding btype_forward_branch sign_extend get_lui_base_imm_value seq_lui seq_addi
forward-Fits = (refl, refl)

btype_forward_turn-runs_example :
    let cfg = config rv32 32 in
    let made = btype_forward_branch three compares 40 9 branching in
    let filled = before_branch cfg made reset in
    let (goes_on, u) = btype_forward_turn cfg three compares false (40, 9) branching in
    let landed = (cycle cfg made.btype.value 0 filled).1 in
    let bus = (cycle cfg u.stype.value 0 landed).0 in
    (goes_on ≡ true)
    × (filled.pc ≡ branching.pc)
    × ((skipped : List ℕ) × ((rest : List ℕ) × ((u.gen.bench.sqr.sqr_fifo
              ≡ branching.gen.bench.sqr.sqr_fifo
                ++ (made.lui.value
                    ∷ made.addi_rs1.value
                    ∷ made.addi_rs2.value
                    ∷ made.btype.value
                    ∷ (skipped ++ (u.stype.value ∷ rest))))
            × (Stores cfg skipped
                × (TurnEnds landed.pc u.pc rest
                    × (landed.pc ≡ branching.pc + 4 * suc (length skipped)))))))
    × (u.gen.bench.ref_fifo ≡ push_back branching.gen.bench.ref_fifo u.gen.ref_req)
    × (u.gen.ref_req.wr ≡ 1)
    × (bus.dmem_wr ≡ true)
    × (u.gen.ref_req.wr_data ≡ bus.dmem_wr_data)
    × (u.gen.ref_req.addr ≡ cut 32 bus.dmem_addr)
btype_forward_turn-runs_example =
    btype_forward_turn-runs rv32 32 three blt 5 6 1 0 40 9 false branching reset (omega arith)
      (omega arith) refl refl refl (omega arith) forward-Fits.0 forward-Fits.1
