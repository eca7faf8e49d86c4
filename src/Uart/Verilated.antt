-- ===== src/Uart/Verilated.antt =====
-- UART/testbench/uart_verilated.cpp: the driver's bus on a compiled UART, which is a parameter.
-- Prints, the wave file and the coverage file are left out.
pub mod Cycle
use verilog.Common.{ℕ, zero, suc, ◌+◌, ◌/◌, ◌%◌, ◌^◌, Bool, if◌then◌else◌, bit_xor, u32, u64}
use verilog.Uart.Device.{Device, clk_freq_mhz}

-- The compiled UART: its ports, `eval`, and whether the simulation has finished.
pub record UartTop : Type 1 where
  pub Top : Type 0
  pub eval : Top → Top
  pub got_finish : Top → Bool
  pub clk : Top → ℕ
  pub set_clk : ℕ → Top → Top
  pub set_res : ℕ → Top → Top
  pub set_addr : ℕ → Top → Top
  pub set_ddis : ℕ → Top → Top
  pub set_wr : ℕ → Top → Top
  pub set_rd : ℕ → Top → Top
  pub set_cs : ℕ → Top → Top
  pub set_data_bus : ℕ → Top → Top
  pub data_bus_out : Top → ℕ

abbrev pub half_cycle : ℕ
half_cycle = 500 / clk_freq_mhz

module _ (uart : UartTop) where
  open uart use {Top}

  pub record UartVerilated : Type 0 where
    pub timestamp : ℕ
    pub top : Top

  abbrev pub on_top : (Top → Top) → UartVerilated → UartVerilated
  on_top f s = record s { top = f s.top }

  unfoldable pub half_tick : UartVerilated → UartVerilated
  half_tick s =
      let evaluated = uart.eval s.top in
      if uart.got_finish s.top then s else record s {
        timestamp = u64 (s.timestamp + half_cycle);
        top = uart.set_clk (bit_xor (uart.clk evaluated) 1) evaluated;
      }

  unfoldable pub tick : UartVerilated → UartVerilated
  tick s = half_tick (half_tick s)

  unfoldable pub wait_ticks : ℕ → UartVerilated → UartVerilated
  wait_ticks zero s = s
  wait_ticks (suc repeat) s = wait_ticks repeat (tick s)

  unfoldable pub reset : UartVerilated → UartVerilated
  reset s = on_top (uart.set_res 0) (tick (on_top (uart.set_res 1) s))

  abbrev pub selected_for_read : ℕ → Top → Top
  selected_for_read addr t =
      uart.set_cs 1 (uart.set_rd 1 (uart.set_wr 0 (uart.set_ddis 0 (uart.set_addr addr t))))

  -- The data are captured before the edge.
  unfoldable pub io_read : ℕ → UartVerilated → ℕ × UartVerilated
  io_read addr s =
      let captured = half_tick (on_top (selected_for_read addr) s) in
      (u32 (uart.data_bus_out captured.top), on_top (uart.set_rd 0) (half_tick captured))

  abbrev pub selected_for_write : ℕ → ℕ → Top → Top
  selected_for_write addr value t =
      uart.set_data_bus value
        (uart.set_addr addr (uart.set_rd 0 (uart.set_wr 1 (uart.set_cs 1 (uart.set_ddis 1 t)))))

  unfoldable pub io_write : ℕ → ℕ → UartVerilated → UartVerilated
  io_write addr value s = on_top (uart.set_wr 0) (tick (on_top (selected_for_write addr value) s))

  -- The bus that the driver's methods run on.
  abbrev pub device : Device
  device = record { State = UartVerilated; io_read = io_read; io_write = io_write }
