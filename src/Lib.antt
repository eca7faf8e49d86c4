-- ===== src/Lib.antt =====
-- A verification library for the C++ code of this repository: the RISC-V core's Verilator
-- testbench, and the UART driver.
--
-- The parts and how they interact. A test's generator assembles commands (sequences.cpp) and pushes
-- them onto the sequencer (sequencer.cpp); with them it queues the transactions that the core must
-- show on its data bus, and the stimulus that the driver must give. The environment
-- (environment.cpp) lets the sequencer write one hex file per phase, uploads it, and runs the phase:
-- in each clock cycle the driver (driver.cpp) serves the bus, the monitor (monitor.cpp) samples it,
-- and the scoreboard (scoreboard.cpp) compares what was sampled with the reference. The interface
-- (interface.cpp) keeps the time and the clock of the compiled core. The UART driver
-- (UART/driver/uart_driver.cpp) is a program of its own.
--
-- Files (C++ sources in RISCV_SingleCycle/testbench, hardware in RISCV_SingleCycle):
--   Common: names shared by all. Common/Word: C integers as bit patterns; Common/Bits: `&` and `|`
--     on fields as arithmetic.
--   Riscv/Isa: the constants of risc_pkg.sv. Riscv/Commands: the structs of common.h.
--   Riscv/Sequencer: Sequencer; its children are about the files that `main` writes.
--   Riscv/Sequences: the functions seq_* and set_* of sequences.cpp. RoundTrip compares the pushed
--     commands with the decoder, Dispatch the choice of a command with decoder and control.
--   Riscv/Rtl: decode.sv and control.sv, the independent description of a command. Rtl/Alu: the ALU
--     and the branch logic, as the build with GATE_FLOW_OFF has them. Rtl/Core: one cycle of
--     riscv_core.sv with its register file.
--     Sequences/Cycles: a cycle on a pushed command, by kinds of commands.
--   Riscv/Transactions: get_ref, push_ref and push_drv of sequences.cpp.
--   Riscv/Scoreboard: Scoreboard. Riscv/Interface: Interface. Riscv/Driver: Driver.
--   Riscv/Monitor: Monitor. Riscv/Environment: Environment.
--   Riscv/Generator: the stimulus values and the store generators of generator.cpp; Turns is about
--     a turn of these. Generator/Auipc, Loads, Arithmetic, Rtype, Jumps and Branches: the functions
--     generate_auipc, generate_itype_load_*, generate_itype_arithmetic, generate_rtype,
--     generate_jal_* and generate_btype_*, with what the core makes of a turn.
--     Generator/Longs, Shifts and Registers: a C `long` against the core's register.
--   Uart/Device, Uart/Driver: uart_driver.h and uart_driver.cpp. Uart/Verilated:
--     UART/testbench/uart_verilated.cpp.
--   Examples: the theorems at concrete inputs.
--
-- Conventions. A C integer is the bit pattern of its width, a number on ℕ with its wrap-around
-- written out. A method is a function from the object's state to its result and the new state. A
-- result `none` is undefined behaviour (`front` of an empty queue, a value that was never assigned)
-- or the end of the fuel, as the definition says. The compiled core, the UART's registers and
-- `float` are parameters (Dut, UartTop, Device, Float); what the code relies on are the records
-- Runs, Clocked, Latches, Receiver and Transmitter. Latches is about the registers of a UART that a
-- read leaves as they are; the simulated time that a read of UartVerilated takes is no part of it.
--
-- Fuel: `Environment::main` and `run_phase` take fuel; a phase needs one unit more than its
-- commands. The loops on the clock get 81 units, more than the ticks of a cycle. `recv` needs one
-- unit more than the device has bytes. A `do` loop of generate_btype_no_jump needs to reach a random
-- number that its mask keeps.
--
-- Not modelled: printing, log files, wave files and command texts; the test lists and main programs
-- (test.cpp, testbench.cpp, uart_tb.cpp), which are calls and prints; the generators of generator.cpp
-- for the control registers and for traps; of the SystemVerilog the CSR block, the interrupts, the
-- memories, the fetch handshake, and the adder and the shifter that alu.sv and branch_control.sv use
-- without GATE_FLOW_OFF. The counters of commands, phases, transactions and errors are unbounded
-- numbers.
pub mod Common
pub mod Riscv
pub mod Uart
pub mod Examples
