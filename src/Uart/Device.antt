-- ===== src/Uart/Device.antt =====
-- UART/driver/uart_driver.h: the register map, and what the driver stands on: the bus, which a
-- subclass provides through `io_read` and `io_write`, and the compiler's `float`.
use verilog.Common.{ℕ}

abbrev pub clk_freq_mhz : ℕ
clk_freq_mhz = 4

abbrev pub baud_osrate : ℕ
baud_osrate = 16

-- End of message.
abbrev pub uart_eom : ℕ
uart_eom = 0

abbrev pub uart_reg_rbr : ℕ
uart_reg_rbr = 0

abbrev pub uart_reg_thr : ℕ
uart_reg_thr = 0

abbrev pub uart_reg_ier : ℕ
uart_reg_ier = 1

abbrev pub uart_reg_fcr : ℕ
uart_reg_fcr = 2

abbrev pub uart_reg_lcr : ℕ
uart_reg_lcr = 3

abbrev pub uart_reg_mcr : ℕ
uart_reg_mcr = 4

abbrev pub uart_reg_lsr : ℕ
uart_reg_lsr = 5

abbrev pub uart_reg_dll : ℕ
uart_reg_dll = 0

abbrev pub uart_reg_dlm : ℕ
uart_reg_dlm = 1

abbrev pub uart_lcr_wls : ℕ
uart_lcr_wls = 0

abbrev pub uart_lcr_stb : ℕ
uart_lcr_stb = 2

abbrev pub uart_lcr_pen : ℕ
uart_lcr_pen = 3

abbrev pub uart_lcr_dl : ℕ
uart_lcr_dl = 7

abbrev pub uart_lsr_dr : ℕ
uart_lsr_dr = 0

abbrev pub uart_lsr_oe : ℕ
uart_lsr_oe = 1

abbrev pub uart_lsr_tf : ℕ
uart_lsr_tf = 5

abbrev pub uart_lsr_te : ℕ
uart_lsr_te = 6

abbrev pub uart_fcr_fifoen : ℕ
uart_fcr_fifoen = 0

abbrev pub uart_fcr_rxclr : ℕ
uart_fcr_rxclr = 1

abbrev pub uart_fcr_txclr : ℕ
uart_fcr_txclr = 2

-- The bus as the driver sees it: a read returns a 32-bit value and may change the device.
pub record Device : Type 1 where
  pub State : Type 0
  pub io_read : ℕ → State → ℕ × State
  pub io_write : ℕ → ℕ → State → State

-- The operations of `float` that the baud rate is computed with; `to_int` gives the bit pattern of
-- the `int`.
pub record Float : Type 1 where
  pub F : Type 0
  pub of_int : ℕ → F
  pub add : F → F → F
  pub sub : F → F → F
  pub mul : F → F → F
  pub div : F → F → F
  pub to_int : F → ℕ
