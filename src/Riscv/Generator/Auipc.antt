-- ===== src/Riscv/Generator/Auipc.antt =====
-- RISCV_SingleCycle/testbench/generator.cpp: `generate_auipc`.
pub mod Turn
use verilog.Common.{
  ℕ, zero, suc, ◌+◌, ◌*◌, ◌/◌, ◌%◌, List, [], ◌∷◌, Bool, not, ◌&&◌, truth, leb, ◌==◌, if◌then◌else◌,
  ◌<<◌, u32, u64, to_long,
}
use verilog.Riscv.Isa.{Config, instructions_limit}
use verilog.Riscv.Commands.{UType, SType}
use verilog.Riscv.Sequences.Utype.{seq_auipc}
use verilog.Riscv.Sequences.Stype.{set_stype}
use verilog.Riscv.Generator.{Generator, with_sqr, queue_ref, sign_extend, regs_num}

-- The local variables, with the generator and the number of random numbers used.
pub record Auipc : Type 0 where
  pub stype : SType
  pub auipc : UType
  pub gen : Generator
  pub pc : ℕ
  pub calls : ℕ

-- `pc` counts half commands from the start of the phase; the split begins a new one.
unfoldable pub next_pc : ℕ → ℕ
next_pc pc = if leb instructions_limit (pc + 2) then 0 else pc + 2

unfoldable pub auipc_value : ℕ → UType → ℕ
auipc_value pc auipc = u64 (pc * 4 + sign_extend (to_long (auipc.imm << 12)) 32)

unfoldable pub auipc_turn : Config → (ℕ → ℕ) → ℕ → ℕ → Auipc → Auipc
auipc_turn cfg rand dreg pattern s =
    let word_len = cfg.xlen / 8 in
    let (auipc, sqr1) =
      seq_auipc (record s.auipc { rd = dreg; imm = u32 pattern }) s.gen.bench.sqr in
    let offset = rand s.calls % 0x700 / word_len * word_len in
    let (store, sqr2) =
      set_stype (record s.stype { imm = offset; rs1 = 0; rs2 = dreg }) cfg.xlen sqr1 in
    let req = record s.gen.ref_req {
      wr = 1;
      rd_data = 0;
      wr_data = if truth dreg then auipc_value s.pc auipc else 0;
      addr = sign_extend (to_long store.imm) 12;
    } in
    record {
      stype = store;
      auipc = auipc;
      gen = queue_ref cfg (record (with_sqr sqr2 s.gen) { ref_req = req });
      pc = next_pc s.pc;
      calls = s.calls + 1;
    }

-- The patterns from the `i`-th on; four are enough for register 0.
unfoldable pub auipc_patterns : Config → (ℕ → ℕ) → ℕ → ℕ → List ℕ → Auipc → Auipc
auipc_patterns cfg rand dreg i [] s = s
auipc_patterns cfg rand dreg i (pattern ∷ patterns) s =
    if not (truth dreg) && (i == 4)
    then s
    else auipc_patterns cfg rand dreg (i + 1) patterns (auipc_turn cfg rand dreg pattern s)

-- `n` registers from `dreg` on.
unfoldable pub auipc_registers : Config → (ℕ → ℕ) → List ℕ → ℕ → ℕ → Auipc → Auipc
auipc_registers cfg rand patterns zero dreg s = s
auipc_registers cfg rand patterns (suc n) dreg s =
    auipc_registers cfg rand patterns n (dreg + 1) (auipc_patterns cfg rand dreg 0 patterns s)

unfoldable pub generate_auipc : Config → (ℕ → ℕ) → List ℕ → Auipc → Auipc
generate_auipc cfg rand patterns s =
    auipc_registers cfg rand patterns regs_num 0 (record s { pc = 0 })
