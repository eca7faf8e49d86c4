-- ===== src/Riscv/Driver/Timing.antt =====
-- RISCV_SingleCycle/testbench/driver.cpp: when in the clock cycle the driver acts.
use verilog.Common.{
  ℕ, zero, suc, ◌+◌, ◌-◌, ◌*◌, ◌/◌, ◌%◌, ◌^◌, ◌<◌, ◌≤◌, ◌≡◌, refl, ◌∙◌, List, [], ◌∷◌, truth, ◌==◌,
  inl, inr, Bool-cases, some, arith,
}
use verilog.Riscv.Transactions.{Transaction}
use verilog.Riscv.Interface.{Dut, Interface, setup_time, on_top, wait, is_data_memory_address}
use verilog.Riscv.Interface.Clock.{Runs, InPhase, wait-InPhase}
use verilog.Riscv.Driver.{Driver, wait_posedge, drive, main}

module _ (dut : Dut) (runs : Runs dut) where
  posedge_turn :
      (fuel : ℕ) (s : Interface dut)
      → Dut.clk dut s.top ≡ 0
      → wait_posedge dut (suc fuel) s ≡ wait_posedge dut fuel (wait dut 1 s)
  unfolding wait_posedge
  posedge_turn fuel s low = rw (low) refl

  -- The loop stops at the rising edge, `k` ticks away.
  wait_posedge_lem :
      (k fuel : ℕ) (s : Interface dut)
      → InPhase dut s
      → s.timestamp % 80 + k ≡ 40
      → k < fuel
      → s.timestamp + k < 2 ^ 64
      → (s' : Interface dut) × (wait_posedge dut fuel s ≡ some s')
        × InPhase dut s'
        × (s'.timestamp ≡ s.timestamp + k)
  unfolding wait_posedge
  wait_posedge_lem k zero s phase near enough fits = absurd (omega arith)
  wait_posedge_lem zero (suc fuel) s phase near enough fits =
      let high : Dut.clk dut s.top ≡ 1 = ground arith in (s, rw (high) refl, phase, omega arith)
  wait_posedge_lem (suc k) (suc fuel) s phase near enough fits =
      let low : Dut.clk dut s.top ≡ 0 = ground arith in
      let (next, time) = wait-InPhase dut runs 1 s phase (omega arith) in
      let (s', result, last, end) =
        wait_posedge_lem k fuel (wait dut 1 s) next (omega (arith, time)) (omega arith)
          (omega (arith, time)) in
      (s', posedge_turn fuel s low ∙ result, last, omega (arith, time, end))

  driven_clk :
      (irq value : ℕ) (t : Dut.Top dut)
      → Dut.clk dut (Dut.set_irq dut irq (Dut.set_dbus_rd_data dut value t)) ≡ Dut.clk dut t
  driven_clk irq value t =
      runs.set_irq-clk irq (Dut.set_dbus_rd_data dut value t) ∙ runs.set_dbus_rd_data-clk value t

  -- At most one tick passes while the driver drives.
  drive_lem :
      (q : List Transaction) (s : Driver dut)
      → InPhase dut s.inf
      → s.inf.timestamp + 1 < 2 ^ 64
      → InPhase dut (drive dut q s).inf
        × (s.inf.timestamp ≤ (drive dut q s).inf.timestamp)
        × ((drive dut q s).inf.timestamp ≤ s.inf.timestamp + 1)
  unfolding drive
  drive_lem [] s phase fits = (phase, omega arith, omega arith)
  drive_lem (req ∷ rest) s phase fits =
      let driven = Dut.set_irq dut req.irq (Dut.set_dbus_rd_data dut req.rd_data s.inf.top) in
      let same = driven_clk req.irq req.rd_data s.inf.top in
      let (last, end) =
        wait-InPhase dut runs 1 (on_top dut (λ t. driven) s.inf) (same ∙ phase) fits in
      elim (Bool-cases (truth (Dut.dmem_req dut s.inf.top))) [
        | inr idle ↦ rw (idle) (phase, omega arith, omega arith)
        | inl asked ↦ elim (Bool-cases (is_data_memory_address dut s.inf)) [
          | inl inner ↦ rw (asked, inner) (phase, omega arith, omega arith)
          | inr outer ↦ elim (Bool-cases (req.wr == Dut.dmem_wr dut s.inf.top)) [
            | inr other ↦ rw (asked, outer, other) (phase, omega arith, omega arith)
            | inl kind ↦ elim (Bool-cases (req.addr == Dut.dmem_addr dut s.inf.top)) [
              | inr other ↦ rw (asked, outer, kind, other) (phase, omega arith, omega arith)
              | inl here ↦
                  rw (asked, outer, kind, here) (last, omega (arith, end), omega (arith, end))
            ]
          ]
        ]
      ]

  -- The wait for the clock in `main`, from anywhere in the low phase.
  clocked_lem :
      (fuel : ℕ) (s : Driver dut)
      → InPhase dut s.inf
      → s.inf.timestamp % 80 < 40
      → 40 < fuel
      → s.inf.timestamp + 80 < 2 ^ 64
      → (inf : Interface dut) × (main dut fuel s
          ≡ some (drive dut s.drv_fifo (record s { inf = inf })))
        × InPhase dut inf
        × (inf.timestamp ≡ s.inf.timestamp / 80 * 80 + 44)
  unfolding main
  clocked_lem fuel s phase at_low enough fits =
      let low : Dut.clk dut s.inf.top ≡ 0 = ground arith in
      let (high, found, edge, time) =
        wait_posedge_lem (40 - s.inf.timestamp % 80) fuel s.inf phase (omega arith) (omega arith)
          (omega arith) in
      let (last, end) = wait-InPhase dut runs (setup_time + 1) high edge (omega (arith, time)) in
      (
        wait dut (setup_time + 1) high,
        clocked fuel s high low found,
        last,
        omega (arith, time, end),
      )
    where
      clocked :
          (fuel : ℕ) (s : Driver dut) (high : Interface dut)
          → Dut.clk dut s.inf.top ≡ 0
          → wait_posedge dut fuel s.inf ≡ some high
          → main dut fuel s
            ≡ some (drive dut s.drv_fifo (record s { inf = wait dut (setup_time + 1) high }))
      clocked fuel s high low found = rw (low, found) refl

  -- From anywhere in the low phase, `main` ends 4 or 5 ticks behind the rising edge.
  pub driver-timing :
      (fuel : ℕ) (s : Driver dut)
      → InPhase dut s.inf
      → s.inf.timestamp % 80 < 40
      → 40 < fuel
      → s.inf.timestamp + 80 < 2 ^ 64
      → (s' : Driver dut) × (main dut fuel s ≡ some s')
        × InPhase dut s'.inf
        × (s.inf.timestamp / 80 * 80 + 44 ≤ s'.inf.timestamp)
        × (s'.inf.timestamp ≤ s.inf.timestamp / 80 * 80 + 45)
  driver-timing fuel s phase at_low enough fits =
      let (inf, result, edge, time) = clocked_lem fuel s phase at_low enough fits in
      let (last, low, high) =
        drive_lem s.drv_fifo (record s { inf = inf }) edge (omega (arith, time)) in
      (
        drive dut s.drv_fifo (record s { inf = inf }),
        result,
        last,
        omega (arith, time, low),
        omega (arith, time, high),
      )
