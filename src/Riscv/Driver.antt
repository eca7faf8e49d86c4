-- ===== src/Riscv/Driver.antt =====
-- RISCV_SingleCycle/testbench/driver.cpp. The loop on the clock has fuel; `none`: it is used up.
pub mod Timing
use verilog.Common.{
  ℕ, zero, suc, ◌+◌, List, [], ◌∷◌, Bool, true, false, not, truth, ◌==◌, if◌then◌else◌, Option,
  none, some, ◌>>=◌,
}
use verilog.Riscv.Transactions.{Transaction}
use verilog.Riscv.Interface.{Dut, Interface, setup_time, on_top, wait, is_data_memory_address}

module _ (dut : Dut) where
  -- `while (!inf->get_clock()) inf->wait(1);`
  unfoldable pub wait_posedge : ℕ → Interface dut → Option (Interface dut)
  wait_posedge zero s = none
  wait_posedge (suc fuel) s =
      let rest = wait_posedge fuel (wait dut 1 s) in if truth (dut.clk s.top) then some s else rest

  -- The driver with the queue that it serves.
  pub record Driver : Type 0 where
    pub inf : Interface dut
    pub drv_fifo : List Transaction
    pub drv_count : ℕ

  -- The part of `main` behind the wait for the clock.
  unfoldable pub drive : List Transaction → Driver → Driver
  drive [] s = s
  drive (req ∷ rest) s =
      let top = s.inf.top in
      let driven = dut.set_irq req.irq (dut.set_dbus_rd_data req.rd_data top) in
      let served = record s {
        inf = wait dut 1 (on_top dut (λ t. driven) s.inf);
        drv_fifo = rest;
        drv_count = s.drv_count + 1;
      } in
      if not (truth (dut.dmem_req top))
      then s
      else if is_data_memory_address dut s.inf
      then s
      else if not (req.wr == dut.dmem_wr top)
      then s
      else if req.addr == dut.dmem_addr top
      then served
      else s

  unfoldable pub main : ℕ → Driver → Option Driver
  main fuel s =
      let clocked =
        if truth (dut.clk s.inf.top)
        then some s.inf
        else (wait_posedge fuel s.inf >>= λ inf. some (wait dut (setup_time + 1) inf)) in
      clocked >>= λ inf. some (drive s.drv_fifo (record s { inf = inf }))

  unfoldable pub post_test : Driver → Driver
  post_test s = record s { drv_fifo = [] }

  -- The stimulus of other phases at the front of the queue is dropped.
  unfoldable pub forward : ℕ → List Transaction → ℕ → List Transaction × ℕ
  forward phase_num [] n = ([], n)
  forward phase_num (req ∷ rest) n =
      let dropped = forward phase_num rest (n + 1) in
      if req.test_id == phase_num then ((req ∷ rest), n) else dropped

  unfoldable pub post_phase : ℕ → Driver → Driver
  post_phase phase_num s =
      let (drv_fifo, drv_count) = forward phase_num s.drv_fifo s.drv_count in
      record s { drv_fifo = drv_fifo; drv_count = drv_count }
