-- ===== src/Riscv/Monitor/Timing.antt =====
-- RISCV_SingleCycle/testbench/monitor.cpp: when in the clock cycle the monitor samples.
use verilog.Common.{
  ℕ, zero, suc, ◌+◌, ◌-◌, ◌*◌, ◌/◌, ◌%◌, ◌^◌, ◌<◌, ◌≤◌, ◌≡◌, refl, ◌∙◌, truth, inl, inr, Bool-cases,
  some, arith,
}
use verilog.Riscv.Interface.{Dut, Interface, clk_phase, setup_time, wait}
use verilog.Riscv.Interface.Clock.{Runs, InPhase, wait-InPhase}
use verilog.Riscv.Monitor.{Monitor, wait_negedge, sample, main}

module _ (dut : Dut) (runs : Runs dut) where
  negedge_turn :
      (fuel : ℕ) (s : Interface dut)
      → Dut.clk dut s.top ≡ 1
      → wait_negedge dut (suc fuel) s ≡ wait_negedge dut fuel (wait dut 1 s)
  unfolding wait_negedge
  negedge_turn fuel s high = rw (high) refl

  -- The loop stops at the falling edge, `k` ticks away.
  wait_negedge_lem :
      (k fuel : ℕ) (s : Interface dut)
      → InPhase dut s
      → (s.timestamp + 40) % 80 + k ≡ 40
      → k < fuel
      → s.timestamp + k < 2 ^ 64
      → (s' : Interface dut) × (wait_negedge dut fuel s ≡ some s')
        × InPhase dut s'
        × (s'.timestamp ≡ s.timestamp + k)
  unfolding wait_negedge
  wait_negedge_lem k zero s phase near enough fits = absurd (omega arith)
  wait_negedge_lem zero (suc fuel) s phase near enough fits =
      let low : Dut.clk dut s.top ≡ 0 = ground arith in (s, rw (low) refl, phase, omega arith)
  wait_negedge_lem (suc k) (suc fuel) s phase near enough fits =
      let high : Dut.clk dut s.top ≡ 1 = ground arith in
      let (next, time) = wait-InPhase dut runs 1 s phase (omega arith) in
      let (s', result, last, end) =
        wait_negedge_lem k fuel (wait dut 1 s) next (omega (arith, time)) (omega arith)
          (omega (arith, time)) in
      (s', negedge_turn fuel s high ∙ result, last, omega (arith, time, end))

  pub sample-inf : (s : Monitor dut) → (sample dut s).inf ≡ s.inf
  unfolding sample
  sample-inf s = elim (Bool-cases (truth (Dut.dmem_req dut s.inf.top))) [
    | inl asked ↦ rw (asked) refl
    | inr idle ↦ rw (idle) refl
  ]

  clocked :
      (fuel : ℕ) (s : Monitor dut) (low : Interface dut)
      → Dut.clk dut s.inf.top ≡ 1
      → wait_negedge dut fuel s.inf ≡ some low
      → main dut fuel s
        ≡ some (sample dut (record s { inf = wait dut (clk_phase - setup_time - 1) low }))
  unfolding main
  clocked fuel s low high found = rw (high, found) refl

  -- From anywhere in the high phase, `main` samples 4 ticks before the next rising edge.
  pub monitor-timing :
      (fuel : ℕ) (s : Monitor dut)
      → InPhase dut s.inf
      → 40 ≤ s.inf.timestamp % 80
      → 40 < fuel
      → s.inf.timestamp + 80 < 2 ^ 64
      → (inf : Interface dut) × (main dut fuel s ≡ some (sample dut (record s { inf = inf })))
        × InPhase dut inf
        × (inf.timestamp ≡ s.inf.timestamp / 80 * 80 + 116)
  monitor-timing fuel s phase at_high enough fits =
      let high : Dut.clk dut s.inf.top ≡ 1 = ground arith in
      let (low, found, edge, time) =
        wait_negedge_lem (80 - s.inf.timestamp % 80) fuel s.inf phase (omega arith) (omega arith)
          (omega arith) in
      let (last, end) =
        wait-InPhase dut runs (clk_phase - setup_time - 1) low edge (omega (arith, time)) in
      (
        wait dut (clk_phase - setup_time - 1) low,
        clocked fuel s low high found,
        last,
        omega (arith, time, end),
      )
