-- ===== src/Riscv/Interface.antt =====
-- RISCV_SingleCycle/testbench/interface.cpp: the simulated time and the clock. The compiled core is
-- a parameter; dumps to the terminal, to the log and to the VCD file are left out.
pub mod Clock
use verilog.Common.{
  ℕ, zero, suc, ◌+◌, ◌-◌, ◌*◌, ◌/◌, ◌%◌, ◌^◌, List, Bool, true, false, not, ◌&&◌, truth, ltb, leb,
  ◌==◌, if◌then◌else◌, u64,
}

abbrev pub clk_phase : ℕ
clk_phase = 40

abbrev pub setup_time : ℕ
setup_time = 3

abbrev pub data_memory_base_addr : ℕ
data_memory_base_addr = 0

abbrev pub data_memory_last_addr : ℕ
data_memory_last_addr = 512

-- The compiled core: its ports, `eval`, the upload of a hex file into the instruction memory
-- (`initmem`), and whether the simulation has finished.
pub record Dut : Type 1 where
  pub Top : Type 0
  pub eval : Top → Top
  pub got_finish : Top → Bool
  pub clk : Top → ℕ
  pub initmem : List (List ℕ) → Top → Top
  pub set_clk : ℕ → Top → Top
  pub set_res_n : ℕ → Top → Top
  pub set_dbus_rd_data : ℕ → Top → Top
  pub set_irq : ℕ → Top → Top
  pub dmem_req : Top → ℕ
  pub dmem_wr : Top → ℕ
  pub dmem_addr : Top → ℕ
  pub dbus_wr_data : Top → ℕ
  pub dbus_rd_data : Top → ℕ
  pub pc : Top → ℕ
  pub instruction : Top → ℕ

module _ (dut : Dut) where
  open dut use {Top}

  pub record Interface : Type 0 where
    pub timestamp : ℕ
    pub top : Top

  abbrev pub on_top : (Top → Top) → Interface → Interface
  on_top f s = record s { top = f s.top }

  -- Intervals are not negative at any call.
  unfoldable pub eval_sim : ℕ → Interface → Interface
  eval_sim interval s =
      let timestamp = u64 (s.timestamp + interval) in
      let edge = truth interval && (timestamp % clk_phase == 0) in
      let toggled = dut.set_clk (if truth (dut.clk s.top) then 0 else 1) s.top in
      if dut.got_finish s.top
      then s
      else if ltb clk_phase interval
      then s
      else record s { timestamp = timestamp; top = dut.eval (if edge then toggled else s.top) }

  -- `n` whole clock phases.
  unfoldable pub eval_cycles : ℕ → Interface → Interface
  eval_cycles zero s = s
  eval_cycles (suc n) s = eval_cycles n (eval_sim clk_phase s)

  -- The part of `wait` behind the first edge.
  unfoldable pub wait_cycles : ℕ → Interface → Interface
  wait_cycles interval s =
      let cycles = interval / clk_phase in
      let s' = eval_cycles cycles s in
      let left = interval - cycles * clk_phase in
      if truth cycles && not (truth left) then s' else eval_sim left s'

  unfoldable pub wait : ℕ → Interface → Interface
  wait interval s =
      let delta = clk_phase - s.timestamp % clk_phase in
      if truth delta && ltb delta interval
      then wait_cycles (interval - delta) (eval_sim delta s)
      else wait_cycles interval s

  unfoldable pub wait_ticks : ℕ → Interface → Interface
  wait_ticks zero s = s
  wait_ticks (suc repeats) s = wait_ticks repeats (wait (clk_phase * 2) s)

  unfoldable pub reset : ℕ → Interface → Interface
  reset repeats s =
      let s1 = on_top (dut.set_res_n 0) (on_top (dut.set_dbus_rd_data 0) s) in
      wait 0 (on_top (dut.set_res_n 1) (wait (clk_phase * 2 * repeats) s1))

  unfoldable pub boot_load : List (List ℕ) → Interface → Interface
  boot_load mem_file = on_top (dut.initmem mem_file)

  unfoldable pub is_data_memory_address : Interface → Bool
  is_data_memory_address s =
      leb data_memory_base_addr (dut.dmem_addr s.top)
      && ltb (dut.dmem_addr s.top) data_memory_last_addr

  -- An additional stop condition: the core has left address 0 and fetches a zero command.
  unfoldable pub stop_event : Interface → Bool
  stop_event s = truth (dut.pc s.top) && not (truth (dut.instruction s.top))
