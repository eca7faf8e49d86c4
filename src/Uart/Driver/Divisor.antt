-- ===== src/Uart/Driver/Divisor.antt =====
-- UART/driver/uart_driver.cpp: the divisor written by `set_baud_rate`, read by `get_divisor`.
use verilog.Common.{ℕ, ◌/◌, ◌%◌, ◌≡◌, ◌≢◌, refl, ◌&◌, ◌∣∣◌, ◌<<◌, ◌>>◌, u8, u16, arith}
use verilog.Common.Bits.{or_shifted}
use verilog.Uart.Device.{Device, Float, uart_reg_lcr, uart_reg_dll, uart_reg_dlm, uart_lcr_dl}
use verilog.Uart.Driver.{Driver, freq_divisor, line_format, set_baud_rate, get_divisor}

-- A UART whose divisor latches stand at DLL and DLM while bit 7 of LCR is set.
pub record Latches (d : Device) : Type 0 where
  pub lcr : Device.State d → ℕ
  pub dll : Device.State d → ℕ
  pub dlm : Device.State d → ℕ
  pub read_lcr : (s : Device.State d) → Device.io_read d uart_reg_lcr s ≡ (lcr s, s)
  pub write_lcr : (v : ℕ) (s : Device.State d) → lcr (Device.io_write d uart_reg_lcr v s) ≡ u8 v
  pub write_lcr-dll :
      (v : ℕ) (s : Device.State d) → dll (Device.io_write d uart_reg_lcr v s) ≡ dll s
  pub write_lcr-dlm :
      (v : ℕ) (s : Device.State d) → dlm (Device.io_write d uart_reg_lcr v s) ≡ dlm s
  pub read_dll :
      (s : Device.State d) → lcr s & 128 ≢ 0 → Device.io_read d uart_reg_dll s ≡ (dll s, s)
  pub read_dlm :
      (s : Device.State d) → lcr s & 128 ≢ 0 → Device.io_read d uart_reg_dlm s ≡ (dlm s, s)
  pub write_dll :
      (v : ℕ) (s : Device.State d)
      → lcr s & 128 ≢ 0
      → dll (Device.io_write d uart_reg_dll v s) ≡ u8 v
  pub write_dll-lcr :
      (v : ℕ) (s : Device.State d)
      → lcr s & 128 ≢ 0
      → lcr (Device.io_write d uart_reg_dll v s) ≡ lcr s
  pub write_dll-dlm :
      (v : ℕ) (s : Device.State d)
      → lcr s & 128 ≢ 0
      → dlm (Device.io_write d uart_reg_dll v s) ≡ dlm s
  pub write_dlm :
      (v : ℕ) (s : Device.State d)
      → lcr s & 128 ≢ 0
      → dlm (Device.io_write d uart_reg_dlm v s) ≡ u8 v
  pub write_dlm-lcr :
      (v : ℕ) (s : Device.State d)
      → lcr s & 128 ≢ 0
      → lcr (Device.io_write d uart_reg_dlm v s) ≡ lcr s
  pub write_dlm-dll :
      (v : ℕ) (s : Device.State d)
      → lcr s & 128 ≢ 0
      → dll (Device.io_write d uart_reg_dlm v s) ≡ dll s

-- The two bytes of a number make up its low half word.
bytes_of_half : (n : ℕ) → u16 (u8 n ∣∣ (u8 (u8 (n >> 8)) << 8)) ≡ u16 n
bytes_of_half n =
    let sum = or_shifted 8 (n % 256) (n / 256 % 256) (omega arith) in ground (arith, sum)

module _ (d : Device) (latches : Latches d) where
  open latches use {lcr, dll, dlm}

  -- Writing bit 7 of LCR selects the latches.
  divisor_latch :
      (bus : Device.State d) → lcr (Device.io_write d uart_reg_lcr (1 << uart_lcr_dl) bus) & 128 ≢ 0
  divisor_latch bus =
      let written = latches.write_lcr (1 << uart_lcr_dl) bus in rw (written) ground arith

  -- `get_divisor` returns the two latches and leaves all three registers as they were.
  get_divisor_lem :
      (s : Driver d)
      → ((get_divisor d s).0 ≡ u16 (dll s.bus ∣∣ (dlm s.bus << 8)))
        × (lcr (get_divisor d s).1.bus ≡ u8 (lcr s.bus))
        × (dll (get_divisor d s).1.bus ≡ dll s.bus)
        × (dlm (get_divisor d s).1.bus ≡ dlm s.bus)
  unfolding get_divisor
  get_divisor_lem s =
      let selected = Device.io_write d uart_reg_lcr (1 << uart_lcr_dl) s.bus in
      let dlab = divisor_latch s.bus in
      rw
        (
          latches.read_lcr s.bus,
          latches.read_dll selected dlab,
          latches.read_dlm selected dlab,
          latches.write_lcr (lcr s.bus) selected,
          latches.write_lcr-dll (lcr s.bus) selected,
          latches.write_lcr-dlm (lcr s.bus) selected,
          latches.write_lcr-dll (1 << uart_lcr_dl) s.bus,
          latches.write_lcr-dlm (1 << uart_lcr_dl) s.bus,
        )
        (refl, refl, refl, refl)

  set_baud_rate_lem :
      (f : Float) (baud stop_bits parity word_len : ℕ) (s : Driver d)
      → (dll (set_baud_rate d f baud stop_bits parity word_len s).bus
          ≡ u8 (u8 (freq_divisor f baud stop_bits parity word_len)))
        × (dlm (set_baud_rate d f baud stop_bits parity word_len s).bus
            ≡ u8 (u8 (freq_divisor f baud stop_bits parity word_len >> 8)))
        × (lcr (set_baud_rate d f baud stop_bits parity word_len s).bus
            ≡ u8 (line_format stop_bits parity word_len))
  unfolding set_baud_rate
  set_baud_rate_lem f baud stop_bits parity word_len s =
      let n = freq_divisor f baud stop_bits parity word_len in
      let b1 = Device.io_write d uart_reg_lcr (1 << uart_lcr_dl) s.bus in
      let b2 = Device.io_write d uart_reg_dll (u8 n) b1 in
      let b3 = Device.io_write d uart_reg_dlm (u8 (n >> 8)) b2 in
      let format = line_format stop_bits parity word_len in
      let dlab1 = divisor_latch s.bus in
      let kept = latches.write_dll-lcr (u8 n) b1 dlab1 in
      let dlab2 : lcr b2 & 128 ≢ 0 = rw (kept) dlab1 in
      rw
        (
          latches.write_lcr-dll format b3,
          latches.write_lcr-dlm format b3,
          latches.write_lcr format b3,
          latches.write_dlm (u8 (n >> 8)) b2 dlab2,
          latches.write_dlm-dll (u8 (n >> 8)) b2 dlab2,
          latches.write_dll (u8 n) b1 dlab1,
        )
        (refl, refl, refl)

  -- On a device with divisor latches, `get_divisor` after `set_baud_rate` returns the low 16 bits
  -- of the computed divisor, and the line format is still in LCR afterwards.
  pub get_divisor-set_baud_rate :
      (f : Float) (baud stop_bits parity word_len : ℕ) (s : Driver d)
      → let after = get_divisor d (set_baud_rate d f baud stop_bits parity word_len s) in
        (after.0 ≡ u16 (freq_divisor f baud stop_bits parity word_len))
        × (lcr after.1.bus ≡ u8 (line_format stop_bits parity word_len))
  get_divisor-set_baud_rate f baud stop_bits parity word_len s =
      let (low, high, format) = set_baud_rate_lem f baud stop_bits parity word_len s in
      let (result, restored, _, _) =
        get_divisor_lem (set_baud_rate d f baud stop_bits parity word_len s) in
      let bytes = bytes_of_half (freq_divisor f baud stop_bits parity word_len) in
      ground (arith, low, high, format, result, restored, bytes)
