-- ===== src/Examples/Clock.antt =====
-- RISCV_SingleCycle/testbench/environment.cpp: the bench around a core that does nothing.
use verilog.Common.{ℕ, ◌+◌, ◌*◌, ◌/◌, ◌<◌, ◌≡◌, refl, [], false, some, arith}
use verilog.Riscv.Transactions.{Transaction}
use verilog.Riscv.Interface.{Dut, Interface, wait}
use verilog.Riscv.Interface.Clock.{Runs, InPhase, wait-InPhase}
use verilog.Riscv.Environment.{Environment, run_cycle, time_limit, run_phase}
use verilog.Riscv.Environment.Phase.{run_cycle-timing, run_phase-ends}

-- The state is the clock.
abbrev core : Dut
core = record {
  Top = ℕ;
  eval = λ t. t;
  got_finish = λ t. false;
  clk = λ t. t;
  initmem = λ file t. t;
  set_clk = λ v t. v;
  set_res_n = λ v t. t;
  set_dbus_rd_data = λ v t. t;
  set_irq = λ v t. t;
  dmem_req = λ t. 0;
  dmem_wr = λ t. 0;
  dmem_addr = λ t. 0;
  dbus_wr_data = λ t. 0;
  dbus_rd_data = λ t. 0;
  pc = λ t. 0;
  instruction = λ t. 0;
}

core_runs : Runs core
core_runs = record {
  set_clk-clk = λ v t. refl;
  eval-clk = λ t. refl;
  set_dbus_rd_data-clk = λ v t. refl;
  set_irq-clk = λ v t. refl;
  unfinished = λ t. refl;
}

abbrev start : Interface core
start = record { timestamp = 36; top = 0 }

abbrev nothing : Transaction
nothing = record { req = 0; wr = 0; addr = 0; wr_data = 0; rd_data = 0; test_id = 0; irq = 0 }

abbrev bench : Environment core
bench = record {
  inf = start;
  drv_fifo = [];
  drv_count = 0;
  req = nothing;
  scb = record {
    ref_fifo = [];
    rx_fifo = [];
    ref_count = 0;
    res_count = 0;
    err_count = 0;
    err_total = 0;
    expres = nothing;
  };
  sqr = record { sqr_fifo = []; split_num = 0; cmd_count = 2 };
}

wait-InPhase_example :
    InPhase core (wait core 100 start) × ((wait core 100 start).timestamp ≡ 36 + 100)
wait-InPhase_example = wait-InPhase core core_runs 100 start refl (omega arith)

run_cycle-timing_example :
    (e' : Environment core) × (run_cycle core bench ≡ some e')
    × InPhase core e'.inf
    × (e'.inf.timestamp ≡ 36 / 80 * 80 + 116)
    × (e'.sqr ≡ bench.sqr)
run_cycle-timing_example = run_cycle-timing core core_runs bench refl (omega arith) (omega arith)

run_phase-ends_example :
    (r : ℕ) × (e' : Environment core) × (run_phase core 3 bench ≡ some (r, e'))
    × (e'.inf.timestamp < time_limit core bench)
run_phase-ends_example =
    run_phase-ends core core_runs 3 bench refl (omega arith) (omega arith) (omega arith)
      (omega arith)
