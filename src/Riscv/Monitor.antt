-- ===== src/Riscv/Monitor.antt =====
-- RISCV_SingleCycle/testbench/monitor.cpp. The loop on the clock has fuel; `none`: it is used up.
pub mod Timing
use verilog.Common.{
  ℕ, zero, suc, ◌+◌, ◌-◌, Bool, true, false, truth, if◌then◌else◌, Option, none, some, ◌>>=◌,
}
use verilog.Riscv.Transactions.{Transaction}
use verilog.Riscv.Scoreboard.{Board, write}
use verilog.Riscv.Interface.{Dut, Interface, clk_phase, setup_time, wait}

module _ (dut : Dut) where
  -- `while (inf->get_clock()) inf->wait(1);`
  unfoldable pub wait_negedge : ℕ → Interface dut → Option (Interface dut)
  wait_negedge zero s = none
  wait_negedge (suc fuel) s =
      let rest = wait_negedge fuel (wait dut 1 s) in if truth (dut.clk s.top) then rest else some s

  -- The monitor with the scoreboard that it writes to. `req` keeps the fields that are not sampled.
  pub record Monitor : Type 0 where
    pub inf : Interface dut
    pub scb : Board
    pub req : Transaction

  -- The transaction on the bus.
  unfoldable pub sampled : Dut.Top dut → Transaction → Transaction
  sampled top req = record req {
    req = dut.dmem_req top;
    wr = dut.dmem_wr top;
    addr = dut.dmem_addr top;
    wr_data = dut.dbus_wr_data top;
    rd_data = dut.dbus_rd_data top;
  }

  -- The part of `main` behind the wait for the clock.
  unfoldable pub sample : Monitor → Monitor
  sample s =
      let req = sampled s.inf.top s.req in
      if truth (dut.dmem_req s.inf.top) then record s { scb = write req s.scb; req = req } else s

  unfoldable pub main : ℕ → Monitor → Option Monitor
  main fuel s =
      let clocked =
        if truth (dut.clk s.inf.top)
        then (wait_negedge fuel s.inf >>= λ inf. some (wait dut (clk_phase - setup_time - 1) inf))
        else some s.inf in
      clocked >>= λ inf. some (sample (record s { inf = inf }))
