-- ===== src/Uart/Verilated/Cycle.antt =====
-- UART/testbench/uart_verilated.cpp: how long an access takes.
use verilog.Common.{ℕ, ◌+◌, ◌^◌, ◌<◌, ◌≡◌, ap, ◌∙◌, false, bit_xor, arith}
use verilog.Uart.Verilated.{
  UartTop, UartVerilated, on_top, half_tick, tick, selected_for_read, selected_for_write, io_read,
  io_write,
}

-- Only the testbench changes the clock, and the simulation goes on.
pub record Clocked (uart : UartTop) : Type 0 where
  pub set_clk : (v : ℕ) (t : UartTop.Top uart) → UartTop.clk uart (UartTop.set_clk uart v t) ≡ v
  pub eval : (t : UartTop.Top uart) → UartTop.clk uart (UartTop.eval uart t) ≡ UartTop.clk uart t
  pub set_addr :
      (v : ℕ) (t : UartTop.Top uart)
      → UartTop.clk uart (UartTop.set_addr uart v t) ≡ UartTop.clk uart t
  pub set_ddis :
      (v : ℕ) (t : UartTop.Top uart)
      → UartTop.clk uart (UartTop.set_ddis uart v t) ≡ UartTop.clk uart t
  pub set_wr :
      (v : ℕ) (t : UartTop.Top uart)
      → UartTop.clk uart (UartTop.set_wr uart v t) ≡ UartTop.clk uart t
  pub set_rd :
      (v : ℕ) (t : UartTop.Top uart)
      → UartTop.clk uart (UartTop.set_rd uart v t) ≡ UartTop.clk uart t
  pub set_cs :
      (v : ℕ) (t : UartTop.Top uart)
      → UartTop.clk uart (UartTop.set_cs uart v t) ≡ UartTop.clk uart t
  pub set_data_bus :
      (v : ℕ) (t : UartTop.Top uart)
      → UartTop.clk uart (UartTop.set_data_bus uart v t) ≡ UartTop.clk uart t
  pub unfinished : (t : UartTop.Top uart) → UartTop.got_finish uart t ≡ false

module _ (uart : UartTop) (clocked : Clocked uart) where
  half_tick_lem :
      (s : UartVerilated uart)
      → s.timestamp + 125 < 2 ^ 64
      → ((half_tick uart s).timestamp ≡ s.timestamp + 125)
        × (UartTop.clk uart (half_tick uart s).top ≡ bit_xor (UartTop.clk uart s.top) 1)
  unfolding half_tick
  half_tick_lem s fits =
      let going = clocked.unfinished s.top in
      let evaluated = UartTop.eval uart s.top in
      rw (going) (
        omega arith,
        clocked.set_clk (bit_xor (UartTop.clk uart evaluated) 1) evaluated
            ∙ ap (λ c. bit_xor c 1) (clocked.eval s.top),
      )

  -- A tick from a low clock ends at a low clock.
  tick_lem :
      (s : UartVerilated uart)
      → UartTop.clk uart s.top ≡ 0
      → s.timestamp + 250 < 2 ^ 64
      → ((tick uart s).timestamp ≡ s.timestamp + 250) × (UartTop.clk uart (tick uart s).top ≡ 0)
  unfolding tick
  tick_lem s low fits =
      let (first, high) = half_tick_lem s (omega arith) in
      let (second, end) = half_tick_lem (half_tick uart s) (omega (arith, first)) in
      (omega (arith, first, second), end ∙ ap (λ c. bit_xor c 1) (high ∙ ap (λ c. bit_xor c 1) low))

  read_clk :
      (addr : ℕ) (t : UartTop.Top uart)
      → UartTop.clk uart (selected_for_read uart addr t) ≡ UartTop.clk uart t
  read_clk addr t =
      clocked.set_cs 1 _
      ∙ clocked.set_rd 1 _
      ∙ clocked.set_wr 0 _
      ∙ clocked.set_ddis 0 _
      ∙ clocked.set_addr addr t

  write_clk :
      (addr value : ℕ) (t : UartTop.Top uart)
      → UartTop.clk uart (selected_for_write uart addr value t) ≡ UartTop.clk uart t
  write_clk addr value t =
      clocked.set_data_bus value _
      ∙ clocked.set_addr addr _
      ∙ clocked.set_rd 0 _
      ∙ clocked.set_wr 1 _
      ∙ clocked.set_cs 1 _
      ∙ clocked.set_ddis 1 t

  -- An access that starts with a low clock takes one clock cycle, 250 units of time, and leaves the
  -- clock low, whether it reads or writes.
  pub access-cycle :
      (addr value : ℕ) (s : UartVerilated uart)
      → UartTop.clk uart s.top ≡ 0
      → s.timestamp + 250 < 2 ^ 64
      → ((io_read uart addr s).1.timestamp ≡ s.timestamp + 250)
        × (UartTop.clk uart (io_read uart addr s).1.top ≡ 0)
        × ((io_write uart addr value s).timestamp ≡ s.timestamp + 250)
        × (UartTop.clk uart (io_write uart addr value s).top ≡ 0)
  unfolding io_read io_write tick
  access-cycle addr value s low fits =
      let reading = on_top uart (selected_for_read uart addr) s in
      let writing = on_top uart (selected_for_write uart addr value) s in
      let (read_time, read_low) = tick_lem reading (read_clk addr s.top ∙ low) fits in
      let (write_time, write_low) = tick_lem writing (write_clk addr value s.top ∙ low) fits in
      (read_time, clocked.set_rd 0 _ ∙ read_low, write_time, clocked.set_wr 0 _ ∙ write_low)
