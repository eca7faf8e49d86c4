-- ===== src/Riscv/Environment.antt =====
-- RISCV_SingleCycle/testbench/environment.cpp: the loops that run a test's phases. The log, the
-- dumps and the deletions are left out. Loops have fuel; `none`: it is used up, or the sequencer
-- reads its empty queue.
pub mod Phase
use verilog.Common.{
  ℕ, zero, suc, ◌+◌, ◌-◌, ◌*◌, ◌^◌, List, Bool, true, false, not, ◌&&◌, truth, ltb, ◌==◌,
  if◌then◌else◌, is_empty, Option, none, some, ◌>>=◌, u32, u64, to_long, ◌⊎◌, inl, inr,
}
use verilog.Riscv.Transactions.{Transaction}
use verilog.Riscv.Sequencer
use verilog.Riscv.Sequencer.{Sequencer, size}
use verilog.Riscv.Scoreboard
use verilog.Riscv.Scoreboard.{Board}
use verilog.Riscv.Interface.{Dut, Interface, clk_phase, boot_load, reset, wait, stop_event}
use verilog.Riscv.Driver
use verilog.Riscv.Driver.{Driver}
use verilog.Riscv.Monitor
use verilog.Riscv.Monitor.{Monitor}

-- More than the ticks of a clock cycle: enough for the loops on the clock.
abbrev pub clock_ticks : ℕ
clock_ticks = 81

module _ (dut : Dut) where
  -- The parts of the environment, with the interface that the driver and the monitor share.
  pub record Environment : Type 0 where
    pub inf : Interface dut
    pub drv_fifo : List Transaction
    pub drv_count : ℕ
    pub req : Transaction
    pub scb : Board
    pub sqr : Sequencer

  abbrev pub driver_of : Environment → Driver dut
  driver_of e = record { inf = e.inf; drv_fifo = e.drv_fifo; drv_count = e.drv_count }

  abbrev pub monitor_of : Interface dut → Environment → Monitor dut
  monitor_of inf e = record { inf = inf; scb = e.scb; req = e.req }

  abbrev pub updated : Driver dut → Monitor dut → Environment → Environment
  updated drv mon e = record e {
    inf = mon.inf;
    drv_fifo = drv.drv_fifo;
    drv_count = drv.drv_count;
    req = mon.req;
    scb = mon.scb;
  }

  -- `drv->main(); mon->main();`
  unfoldable pub run_cycle : Environment → Option Environment
  run_cycle e = Driver.main dut clock_ticks (driver_of e) >>= λ drv.
      Monitor.main dut clock_ticks (monitor_of drv.inf e) >>= λ mon. some (updated drv mon e)

  -- What a turn of the loop of `run_phase` does behind the cycle: `inr` leaves it.
  unfoldable pub checked : Environment → Environment ⊎ (ℕ × Environment)
  checked e =
      let (err, scb) = Scoreboard.main e.scb in
      let e' = record e { scb = scb } in
      if truth err
      then inr (1, e')
      else if stop_event dut e.inf
      then inr (0, e')
      else if truth e.sqr.cmd_count
      then inl (record e' { sqr = record e.sqr { cmd_count = e.sqr.cmd_count - 1 } })
      else inr (0, e')

  unfoldable pub turn :
      (Environment → Option (ℕ × Environment))
      → Environment ⊎ (ℕ × Environment)
      → Option (ℕ × Environment)
  turn loop (inl e) = loop e
  turn loop (inr result) = some result

  unfoldable pub run_phase_loop : ℕ → ℕ → Environment → Option (ℕ × Environment)
  run_phase_loop zero max_time e = none
  run_phase_loop (suc fuel) max_time e =
      if ltb e.inf.timestamp max_time
      then (run_cycle e >>= λ e'. turn (run_phase_loop fuel max_time) (checked e'))
      else some (0, e)

  -- The product is one of `int`, with its sign copied into the upper half; the sum is one of
  -- `unsigned long`.
  abbrev pub time_limit : Environment → ℕ
  time_limit e = u64 (e.inf.timestamp + to_long (u32 (clk_phase * 2 * (e.sqr.cmd_count + 3))))

  unfoldable pub run_phase : ℕ → Environment → Option (ℕ × Environment)
  run_phase fuel e = run_phase_loop fuel (time_limit e) e

  -- What follows a phase, by its result: `true` aborts the test.
  unfoldable pub after_phase : ℕ → ℕ → ℕ × Environment → Bool × Environment
  after_phase abort_on_first_err phase_num (failed, e) =
      let waited = record e { inf = wait dut (clk_phase * 2) e.inf } in
      let drv = Driver.post_phase dut (phase_num + 1) (driver_of waited) in
      if truth failed
      then if truth abort_on_first_err
        then (true, record waited { sqr = Sequencer.reset e.sqr })
        else if truth (size e.sqr)
        then (
          false,
          record waited {
            scb = Scoreboard.post_phase (phase_num + 1) e.scb;
            drv_fifo = drv.drv_fifo;
            drv_count = drv.drv_count;
          },
        )
        else (false, waited)
      else (false, e)

  -- The upload and the run of the next phase.
  unfoldable pub one_phase : ℕ → ℕ → ℕ → Environment → Option (Bool × Environment)
  one_phase fuel abort_on_first_err phase_num e = do
    next ← Sequencer.main e.sqr
    result ←
        run_phase fuel (record e { sqr = next.0; inf = reset dut 1 (boot_load dut next.1 e.inf) })
    some (after_phase abort_on_first_err phase_num result)

  unfoldable pub main_loop : ℕ → ℕ → ℕ → ℕ → Environment → Option Environment
  main_loop zero cycles abort_on_first_err phase_num e = none
  main_loop (suc fuel) cycles abort_on_first_err phase_num e =
      if truth (size e.sqr)
      then (one_phase cycles abort_on_first_err phase_num e >>= λ result.
          if result.0
          then some result.1
          else main_loop fuel cycles abort_on_first_err (phase_num + 1) result.1)
      else some e

  -- Unsent stimulus is an error where no other was found.
  unfoldable pub unsent : Environment → Environment
  unsent e =
      if not (truth e.scb.err_count) && not (is_empty e.drv_fifo)
      then record e { scb = record e.scb { err_total = e.scb.err_total + 1 } }
      else e

  unfoldable pub post_test : Environment → Environment
  post_test e = record e {
    scb = Scoreboard.post_test e.scb;
    sqr = Sequencer.post_test e.sqr;
    drv_fifo = (Driver.post_test dut (driver_of e)).drv_fifo;
  }

  unfoldable pub main : ℕ → ℕ → ℕ → Environment → Option Environment
  main fuel cycles abort_on_first_err e =
      main_loop fuel cycles abort_on_first_err 0 (record e { scb = Scoreboard.pre_test e.scb })
      >>= λ e'. some (post_test (unsent e'))
