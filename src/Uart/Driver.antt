-- ===== src/Uart/Driver.antt =====
-- UART/driver/uart_driver.cpp. A method takes the driver's state and returns it with its result.
pub mod Poll
pub mod Divisor
pub mod Messages
use mathlib.Core.Option
use verilog.Common.{
  ℕ, zero, suc, ◌+◌, ◌*◌, List, [], ◌∷◌, Bool, true, false, Option, none, some, truth, ltb, ◌==◌,
  if◌then◌else◌, ◌&◌, ◌∣∣◌, ◌<<◌, ◌>>◌, u8, u16, u32, ◌>>=◌,
}
use verilog.Uart.Device.{
  Device, Float, clk_freq_mhz, baud_osrate, uart_eom, uart_reg_rbr, uart_reg_thr, uart_reg_fcr,
  uart_reg_lcr, uart_reg_lsr, uart_reg_dll, uart_reg_dlm, uart_lcr_wls, uart_lcr_stb, uart_lcr_pen,
  uart_lcr_dl, uart_lsr_dr, uart_lsr_oe, uart_lsr_tf, uart_lsr_te, uart_fcr_fifoen, uart_fcr_rxclr,
  uart_fcr_txclr,
}

-- The timeout that a call without one gets.
abbrev pub poll_timeout : ℕ
poll_timeout = 1000

-- The divisor that `set_baud_rate` computes in `float`, as the pattern of an `int`.
unfoldable pub freq_divisor : Float → ℕ → ℕ → ℕ → ℕ → ℕ
freq_divisor f baud stop_bits parity word_len =
    let rate = f.of_int (clk_freq_mhz * (word_len + 5)) in
    let scaled =
      f.div (f.div (f.mul rate (f.of_int 1_000_000)) (f.of_int baud)) (f.of_int baud_osrate) in
    let total_bits = word_len + 5 + stop_bits + 1 + (parity & 1) in
    u32 (
      f.to_int
        (f.div (f.sub (f.add scaled (f.of_int total_bits)) (f.of_int 1)) (f.of_int total_bits)))

-- The line format that `set_baud_rate` leaves in LCR.
unfoldable pub line_format : ℕ → ℕ → ℕ → ℕ
line_format stop_bits parity word_len =
    (word_len << uart_lcr_wls) ∣∣ (stop_bits << uart_lcr_stb) ∣∣ (parity << uart_lcr_pen)

module _ (d : Device) where
  open d use {State, io_read, io_write}

  pub record Driver : Type 0 where
    pub bus : State
    pub line_status : ℕ

  abbrev pub on_bus : (State → State) → Driver → Driver
  on_bus f s = record s { bus = f s.bus }

  unfoldable pub set_baud_rate : Float → ℕ → ℕ → ℕ → ℕ → Driver → Driver
  set_baud_rate f baud stop_bits parity word_len s =
      let divisor = freq_divisor f baud stop_bits parity word_len in
      let b1 = io_write uart_reg_lcr (1 << uart_lcr_dl) s.bus in
      let b2 = io_write uart_reg_dll (u8 divisor) b1 in
      let b3 = io_write uart_reg_dlm (u8 (divisor >> 8)) b2 in
      record s { bus = io_write uart_reg_lcr (line_format stop_bits parity word_len) b3 }

  -- The operands of `|` are read from left to right.
  unfoldable pub get_divisor : Driver → ℕ × Driver
  get_divisor s =
      let lcr = io_read uart_reg_lcr s.bus in
      let selected = io_write uart_reg_lcr (1 << uart_lcr_dl) lcr.1 in
      let dll = io_read uart_reg_dll selected in
      let dlm = io_read uart_reg_dlm dll.1 in
      let freq_divisor = u16 (dll.0 ∣∣ (dlm.0 << 8)) in
      (freq_divisor, record s { bus = io_write uart_reg_lcr lcr.0 dlm.1 })

  unfoldable pub get_line_status : Driver → ℕ × Driver
  get_line_status s =
      let lsr = io_read uart_reg_lsr s.bus in (lsr.0, record s { bus = lsr.1; line_status = lsr.0 })

  unfoldable pub rx_fifo_empty : Driver → ℕ × Driver
  rx_fifo_empty s =
      let status = get_line_status s in
      ((if truth (status.0 & (1 << uart_lsr_dr)) then 0 else 1), status.1)

  unfoldable pub tx_fifo_empty : Driver → ℕ × Driver
  tx_fifo_empty s = let status = get_line_status s in (u8 (status.0 & (1 << uart_lsr_tf)), status.1)

  unfoldable pub is_overrun : Driver → ℕ × Driver
  is_overrun s = let status = get_line_status s in (u8 (status.0 & (1 << uart_lsr_oe)), status.1)

  unfoldable pub set_fifo_mode : ℕ → Driver → Driver
  set_fifo_mode enable =
      on_bus (io_write uart_reg_fcr (if truth enable then 1 << uart_fcr_fifoen else 0))

  unfoldable pub flush_fifo : Driver → Driver
  flush_fifo = on_bus (io_write uart_reg_fcr ((1 << uart_fcr_rxclr) ∣∣ (1 << uart_fcr_txclr)))

  unfoldable pub rx_byte : Driver → ℕ × Driver
  rx_byte s = let rbr = io_read uart_reg_rbr s.bus in (u8 rbr.0, record s { bus = rbr.1 })

  unfoldable pub recv_ch : Driver → ℕ × Driver
  recv_ch s =
      let empty = rx_fifo_empty s in if truth empty.0 then (uart_eom, empty.1) else rx_byte empty.1

  -- The loops of the polls. `res` is not initialised: `none` until the first turn.
  unfoldable pub poll_rx_loop : ℕ → Option ℕ → Driver → Option ℕ × Driver
  poll_rx_loop zero res s = (res, s)
  poll_rx_loop (suc timeout) res s =
      let empty = rx_fifo_empty s in
      let rest = poll_rx_loop timeout (some empty.0) empty.1 in
      if truth empty.0 then rest else (some empty.0, empty.1)

  unfoldable pub poll_tx_loop : ℕ → Option ℕ → Driver → Option ℕ × Driver
  poll_tx_loop zero res s = (res, s)
  poll_tx_loop (suc timeout) res s =
      let empty = tx_fifo_empty s in
      let rest = poll_tx_loop timeout (some empty.0) empty.1 in
      if truth empty.0 then (some empty.0, empty.1) else rest

  unfoldable pub poll_tx_finished_loop : ℕ → Option ℕ → Driver → Option ℕ × Driver
  poll_tx_finished_loop zero res s = (res, s)
  poll_tx_finished_loop (suc timeout) res s =
      let status = get_line_status s in
      let finished = status.0 & (1 << uart_lsr_te) in
      let rest = poll_tx_finished_loop timeout (some finished) status.1 in
      if truth finished then (some finished, status.1) else rest

  -- `none`: the value of an uninitialised `res`.
  unfoldable pub poll_rx : ℕ → Driver → Option ℕ × Driver
  poll_rx timeout s =
      let end = poll_rx_loop timeout none s in
      (Option.map (λ res. if truth res then 0 else 1) end.0, end.1)

  unfoldable pub poll_tx : ℕ → Driver → Option ℕ × Driver
  poll_tx timeout = poll_tx_loop timeout none

  unfoldable pub poll_tx_finished : ℕ → Driver → Option ℕ × Driver
  poll_tx_finished timeout = poll_tx_finished_loop timeout none

  -- `none` where the outcome hangs on an uninitialised `res`.
  unfoldable pub tx_byte : ℕ → ℕ → Driver → Option (ℕ × Driver)
  tx_byte byte timeout s =
      let polled = poll_tx timeout s in
      do
        res ← polled.0
        if truth res
            then some (1, on_bus (io_write uart_reg_thr byte) polled.1)
            else some (0, polled.1)

  unfoldable pub send_ch : ℕ → Driver → Option Driver
  send_ch ch s = do after ← tx_byte ch poll_timeout s; some after.1

  -- The bytes of the string stand before its terminating zero.
  unfoldable pub send_str : List ℕ → Driver → Option Driver
  send_str [] s = some s
  send_str (c ∷ str) s =
      if truth c then (tx_byte c poll_timeout s >>= λ after. send_str str after.1) else some s

  unfoldable pub send : List ℕ → Driver → Option Driver
  send [] s = some s
  send (c ∷ arr) s = do after ← tx_byte c poll_timeout s; send arr after.1

  -- The bytes that `recv` writes from `arr` on. `none`: the fuel is used up.
  unfoldable pub recv : ℕ → Driver → Option (List ℕ × Driver)
  recv zero s = none
  recv (suc fuel) s =
      let polled = poll_rx poll_timeout s in
      let byte = rx_byte polled.1 in
      let rest = recv fuel byte.1 in
      polled.0 >>= λ ready.
      if truth ready
      then if truth byte.0
        then (rest >>= λ received. some (byte.0 ∷ received.0, received.1))
        else some (byte.0 ∷ uart_eom ∷ [], byte.1)
      else some (uart_eom ∷ [], polled.1)
