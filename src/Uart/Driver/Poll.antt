-- ===== src/Uart/Driver/Poll.antt =====
-- UART/driver/uart_driver.cpp: the polling loops, against the line status the device shows.
use verilog.Common.{
  ℕ, zero, suc, ◌<◌, ◌≡◌, refl, ◌≢◌, Option, none, some, ◌&◌, ◌<<◌, u8, ◌∙◌, arith,
}
use verilog.Common.Bits.{and_field}
use verilog.Uart.Device.{Device, uart_reg_thr, uart_reg_lsr, uart_lsr_dr, uart_lsr_tf}
use verilog.Uart.Driver.{
  Driver, on_bus, get_line_status, rx_fifo_empty, tx_fifo_empty, poll_rx_loop, poll_tx_loop,
  poll_rx, poll_tx, tx_byte,
}

module _ (d : Device) where
  -- A flag of the line status that the device shows next, and the driver after `k` reads of it.
  abbrev pub flag : ℕ → Driver d → ℕ
  flag bit s = (Device.io_read d uart_reg_lsr s.bus).0 & (1 << bit)

  unfoldable pub reads : ℕ → Driver d → Driver d
  unfolding get_line_status
  reads zero s = s
  reads (suc k) s = reads k (get_line_status d s).1

  -- The next `k` reads show the flag low.
  unfoldable pub LowFor : ℕ → ℕ → Driver d → Type 0
  unfolding get_line_status
  LowFor bit zero s = Unit
  LowFor bit (suc k) s = flag bit s ≡ 0 × LowFor bit k (get_line_status d s).1

  -- One turn of the loop of `poll_rx`.
  rx_turn-low :
      (t : ℕ) (res : Option ℕ) (s : Driver d)
      → flag uart_lsr_dr s ≡ 0
      → poll_rx_loop d (suc t) res s ≡ poll_rx_loop d t (some 1) (get_line_status d s).1
  unfolding poll_rx_loop rx_fifo_empty get_line_status
  rx_turn-low t res s low = ground arith

  rx_turn-high :
      (t : ℕ) (res : Option ℕ) (s : Driver d)
      → flag uart_lsr_dr s ≢ 0
      → poll_rx_loop d (suc t) res s ≡ (some 0, (get_line_status d s).1)
  unfolding poll_rx_loop rx_fifo_empty get_line_status
  rx_turn-high t res s high = ground arith

  rx_loop-found :
      (k timeout : ℕ) (res : Option ℕ) (s : Driver d)
      → k < timeout
      → LowFor uart_lsr_dr k s
      → flag uart_lsr_dr (reads k s) ≢ 0
      → poll_rx_loop d timeout res s ≡ (some 0, reads (suc k) s)
  unfolding reads LowFor
  rx_loop-found k zero res s below low high = absurd (omega arith)
  rx_loop-found zero (suc t) res s below low high = rx_turn-high t res s high
  rx_loop-found (suc k) (suc t) res s below (l, low) high =
      rx_turn-low t res s l ∙ rx_loop-found k t _ _ (omega arith) low high

  rx_loop-late :
      (k : ℕ) (res : Option ℕ) (s : Driver d)
      → LowFor uart_lsr_dr (suc k) s
      → poll_rx_loop d (suc k) res s ≡ (some 1, reads (suc k) s)
  unfolding reads LowFor poll_rx_loop
  rx_loop-late zero res s (l, _) = rx_turn-low 0 res s l
  rx_loop-late (suc k) res s (l, low) =
      rx_turn-low (suc k) res s l ∙ rx_loop-late k (some 1) (get_line_status d s).1 low

  -- The flag fits the `unsigned char` of `tx_fifo_empty`.
  tx_flag : (lsr : ℕ) → u8 (lsr & (1 << uart_lsr_tf)) ≡ lsr & (1 << uart_lsr_tf)
  tx_flag lsr = let field = and_field 1 5 lsr in ground (arith, field)

  tx_turn-low :
      (t : ℕ) (res : Option ℕ) (s : Driver d)
      → flag uart_lsr_tf s ≡ 0
      → poll_tx_loop d (suc t) res s ≡ poll_tx_loop d t (some 0) (get_line_status d s).1
  unfolding poll_tx_loop tx_fifo_empty get_line_status
  tx_turn-low t res s low =
      let fits = tx_flag (Device.io_read d uart_reg_lsr s.bus).0 in ground (arith, fits)

  tx_turn-high :
      (t : ℕ) (res : Option ℕ) (s : Driver d)
      → flag uart_lsr_tf s ≢ 0
      → poll_tx_loop d (suc t) res s ≡ (some (flag uart_lsr_tf s), (get_line_status d s).1)
  unfolding poll_tx_loop tx_fifo_empty get_line_status
  tx_turn-high t res s high =
      let fits = tx_flag (Device.io_read d uart_reg_lsr s.bus).0 in ground (arith, fits)

  tx_loop-found :
      (k timeout : ℕ) (res : Option ℕ) (s : Driver d)
      → k < timeout
      → LowFor uart_lsr_tf k s
      → flag uart_lsr_tf (reads k s) ≢ 0
      → poll_tx_loop d timeout res s ≡ (some (flag uart_lsr_tf (reads k s)), reads (suc k) s)
  unfolding reads LowFor
  tx_loop-found k zero res s below low high = absurd (omega arith)
  tx_loop-found zero (suc t) res s below low high = tx_turn-high t res s high
  tx_loop-found (suc k) (suc t) res s below (l, low) high =
      tx_turn-low t res s l ∙ tx_loop-found k t _ _ (omega arith) low high

  tx_loop-late :
      (k : ℕ) (res : Option ℕ) (s : Driver d)
      → LowFor uart_lsr_tf (suc k) s
      → poll_tx_loop d (suc k) res s ≡ (some 0, reads (suc k) s)
  unfolding reads LowFor poll_tx_loop
  tx_loop-late zero res s (l, _) = tx_turn-low 0 res s l
  tx_loop-late (suc k) res s (l, low) =
      tx_turn-low (suc k) res s l ∙ tx_loop-late k (some 0) (get_line_status d s).1 low

  -- Where the flag for received data is low in the next `k` reads of the line status and high in
  -- the one after them, and `timeout` allows that read, `poll_rx` returns 1 right after it.
  pub poll_rx-found :
      (k timeout : ℕ) (s : Driver d)
      → k < timeout
      → LowFor uart_lsr_dr k s
      → flag uart_lsr_dr (reads k s) ≢ 0
      → poll_rx d timeout s ≡ (some 1, reads (suc k) s)
  unfolding poll_rx
  poll_rx-found k timeout s below low high =
      let end = rx_loop-found k timeout none s below low high in rw (end) refl

  -- Where the flag for received data is low in the next `timeout` reads, `poll_rx` makes exactly
  -- these reads and returns 0.
  pub poll_rx-late :
      (k : ℕ) (s : Driver d)
      → LowFor uart_lsr_dr (suc k) s
      → poll_rx d (suc k) s ≡ (some 0, reads (suc k) s)
  unfolding poll_rx
  poll_rx-late k s low = let end = rx_loop-late k none s low in rw (end) refl

  -- A byte is written to THR, and 1 returned, right after the first read that shows an empty
  -- transmit FIFO, where one of the `timeout` reads does.
  pub tx_byte-found :
      (k timeout byte : ℕ) (s : Driver d)
      → k < timeout
      → LowFor uart_lsr_tf k s
      → flag uart_lsr_tf (reads k s) ≢ 0
      → tx_byte d byte timeout s
        ≡ some (1, on_bus d (Device.io_write d uart_reg_thr byte) (reads (suc k) s))
  unfolding tx_byte poll_tx
  tx_byte-found k timeout byte s below low high =
      let end = tx_loop-found k timeout none s below low high in rw (end) ground arith

  -- Where none of the `timeout` reads shows an empty transmit FIFO, the byte is not written: the
  -- driver has only read the line status, and returns 0.
  pub tx_byte-late :
      (k byte : ℕ) (s : Driver d)
      → LowFor uart_lsr_tf (suc k) s
      → tx_byte d byte (suc k) s ≡ some (0, reads (suc k) s)
  unfolding tx_byte poll_tx
  tx_byte-late k byte s low = let end = tx_loop-late k none s low in rw (end) refl
