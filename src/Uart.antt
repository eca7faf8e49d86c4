-- ===== src/Uart.antt =====
-- The UART's C++ code, UART/driver and UART/testbench.
pub mod Device
pub mod Driver
pub mod Verilated
