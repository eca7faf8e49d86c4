-- ===== src/Riscv/Environment/Phase.antt =====
-- RISCV_SingleCycle/testbench/environment.cpp: how long a phase takes.
use verilog.Common.{
  ℕ, zero, suc, ◌+◌, ◌-◌, ◌*◌, ◌/◌, ◌%◌, ◌^◌, ◌<◌, ◌≡◌, refl, ap, ◌∙◌, truth, lt→ltb, truth→ne, ◌⊎◌,
  inl, inr, Bool-cases, some, arith,
}
use verilog.Riscv.Sequencer.{Sequencer}
use verilog.Riscv.Scoreboard
use verilog.Riscv.Interface.{Dut, stop_event}
use verilog.Riscv.Interface.Clock.{Runs, InPhase}
use verilog.Riscv.Driver
use verilog.Riscv.Driver.Timing.{driver-timing}
use verilog.Riscv.Monitor
use verilog.Riscv.Monitor.{sample}
use verilog.Riscv.Monitor.Timing.{monitor-timing, sample-inf}
use verilog.Riscv.Environment.{
  Environment, clock_ticks, driver_of, monitor_of, updated, run_cycle, checked, turn,
  run_phase_loop, time_limit, run_phase,
}

module _ (dut : Dut) where
  cycle_of :
      (e : Environment dut) (drv : Driver.Driver dut) (mon : Monitor.Monitor dut)
      → Driver.main dut clock_ticks (driver_of dut e) ≡ some drv
      → Monitor.main dut clock_ticks (monitor_of dut drv.inf e) ≡ some mon
      → run_cycle dut e ≡ some (updated dut drv mon e)
  unfolding run_cycle
  cycle_of e drv mon first second = rw (first, second) refl

  -- A turn either goes on with one command less, or leaves the loop; no time passes in either.
  checked-cases :
      (e : Environment dut)
      → ((e' : Environment dut) × (checked dut e ≡ inl e')
          × (e'.inf ≡ e.inf)
          × (suc e'.sqr.cmd_count ≡ e.sqr.cmd_count))
        ⊎ ((r : ℕ) × (e' : Environment dut) × (checked dut e ≡ inr (r, e')) × (e'.inf ≡ e.inf))
  unfolding checked
  checked-cases e =
      let (err, scb) = Scoreboard.main e.scb in
      let e' = record e { scb = scb } in
      elim (Bool-cases (truth err)) [
        | inl failed ↦ inr (1, e', rw (failed) refl, refl)
        | inr fine ↦ elim (Bool-cases (stop_event dut e.inf)) [
          | inl stop ↦ inr (0, e', rw (fine, stop) refl, refl)
          | inr going ↦ elim (Bool-cases (truth e.sqr.cmd_count)) [
            | inr last ↦ inr (0, e', rw (fine, going, last) refl, refl)
            | inl more ↦ inl (
              record e' { sqr = record e.sqr { cmd_count = e.sqr.cmd_count - 1 } },
              rw (fine, going, more) refl,
              refl,
              omega (arith, truth→ne e.sqr.cmd_count more),
            )
          ]
        ]
      ]

  goes_on :
      (fuel limit : ℕ) (e e' e'' : Environment dut)
      → e.inf.timestamp < limit
      → run_cycle dut e ≡ some e'
      → checked dut e' ≡ inl e''
      → run_phase_loop dut (suc fuel) limit e ≡ run_phase_loop dut fuel limit e''
  unfolding run_phase_loop turn
  goes_on fuel limit e e' e'' early cycle next =
      let test = lt→ltb e.inf.timestamp limit early in rw (test, cycle, next) refl

  leaves :
      (fuel limit : ℕ) (e e' : Environment dut) (result : ℕ × Environment dut)
      → e.inf.timestamp < limit
      → run_cycle dut e ≡ some e'
      → checked dut e' ≡ inr result
      → run_phase_loop dut (suc fuel) limit e ≡ some result
  unfolding run_phase_loop turn
  leaves fuel limit e e' result early cycle next =
      let test = lt→ltb e.inf.timestamp limit early in rw (test, cycle, next) refl

  module _ (runs : Runs dut) where
    -- From anywhere in the low phase, one turn of the driver and of the monitor ends at the setup
    -- time of the next cycle's rising edge.
    pub run_cycle-timing :
        (e : Environment dut)
        → InPhase dut e.inf
        → e.inf.timestamp % 80 < 40
        → e.inf.timestamp + 160 < 2 ^ 64
        → (e' : Environment dut) × (run_cycle dut e ≡ some e')
          × InPhase dut e'.inf
          × (e'.inf.timestamp ≡ e.inf.timestamp / 80 * 80 + 116)
          × (e'.sqr ≡ e.sqr)
    run_cycle-timing e phase low fits =
        let (drv, first, high, after, before) =
          driver-timing dut runs clock_ticks (driver_of dut e) phase low (omega arith)
            (omega arith) in
        let (inf, second, last, time) =
          monitor-timing dut runs clock_ticks (monitor_of dut drv.inf e) high
            (omega (arith, after, before)) (omega arith) (omega (arith, after, before)) in
        let mon = sample dut (record (monitor_of dut drv.inf e) { inf = inf }) in
        let same = sample-inf dut runs (record (monitor_of dut drv.inf e) { inf = inf }) in
        (
          updated dut drv mon e,
          cycle_of e drv mon first second,
          rw (same) last,
          rw (same) (omega (arith, time, after, before)),
          refl,
        )

    -- The turns that `n` commands and the free one allow.
    loop_ends :
        (n fuel limit : ℕ) (e : Environment dut)
        → InPhase dut e.inf
        → e.inf.timestamp % 80 < 40
        → e.sqr.cmd_count ≡ n
        → n < fuel
        → e.inf.timestamp / 80 * 80 + 80 * n + 116 < limit
        → limit + 80 < 2 ^ 64
        → (r : ℕ) × (e' : Environment dut) × (run_phase_loop dut fuel limit e ≡ some (r, e'))
          × (e'.inf.timestamp < limit)
    loop_ends n zero limit e phase low count enough fits max = absurd (omega arith)
    loop_ends n (suc fuel) limit e phase low count enough fits max =
        let (e1, cycle, edge, time, kept) = run_cycle-timing e phase low (omega arith) in
        let early : e.inf.timestamp < limit = omega arith in
        elim (checked-cases e1) [
          | inr (r, e2, left, same) ↦ (
            r,
            e2,
            leaves fuel limit e e1 (r, e2) early cycle left,
            rw (same) (omega (arith, time)),
          )
          | inl (e2, next, same, fewer) ↦
              let commands = ap (λ (q : Sequencer). q.cmd_count) kept in
              let (r, e3, result, ends) =
                loop_ends e2.sqr.cmd_count fuel limit e2 (rw (same) edge)
                  (rw (same) (omega (arith, time))) refl (omega (arith, fewer, commands, count))
                  (rw (same) (omega (arith, time, fewer, commands, count))) max in
              (r, e3, goes_on fuel limit e e1 e2 early cycle next ∙ result, ends)
        ]

    -- A phase that starts in the low phase of the clock ends, with fuel above its number of
    -- commands, and before its time limit: the limit is never the reason. The product of the limit
    -- has to fit its `int`, and the time its 64 bits.
    pub run_phase-ends :
        (fuel : ℕ) (e : Environment dut)
        → InPhase dut e.inf
        → e.inf.timestamp % 80 < 40
        → e.sqr.cmd_count < fuel
        → 80 * (e.sqr.cmd_count + 3) < 2 ^ 31
        → e.inf.timestamp + 80 * (e.sqr.cmd_count + 4) < 2 ^ 64
        → (r : ℕ) × (e' : Environment dut) × (run_phase dut fuel e ≡ some (r, e'))
          × (e'.inf.timestamp < time_limit dut e)
    unfolding run_phase
    run_phase-ends fuel e phase low enough product fits =
        let limit : time_limit dut e ≡ e.inf.timestamp + 80 * (e.sqr.cmd_count + 3) =
          ground arith in
        loop_ends e.sqr.cmd_count fuel (time_limit dut e) e phase low refl enough
          (omega (arith, limit)) (omega (arith, limit))
