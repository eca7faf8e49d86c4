-- ===== src/Examples/Serial.antt =====
-- UART/driver/uart_driver.cpp: small devices, one for each part of the driver, and
-- UART/testbench/uart_verilated.cpp.
use verilog.Common.{
  ℕ, ◌+◌, ◌-◌, ◌*◌, ◌<◌, ◌≡◌, ◌≢◌, refl, List, [], ◌∷◌, ◌++◌, Bool, true, false, some, ◌==◌, ◌&◌,
  as_int, if◌then◌else◌, push_back, u8, u16, arith,
}
use verilog.Uart.Device.{Device, Float, uart_reg_thr, uart_lsr_tf}
use verilog.Uart.Driver.{
  Driver, on_bus, freq_divisor, line_format, set_baud_rate, get_divisor, get_line_status, tx_byte,
  recv, send, send_str,
}
use verilog.Uart.Verilated.{UartTop, UartVerilated, io_read, io_write}
use verilog.Uart.Verilated.Cycle.{Clocked, access-cycle}
use verilog.Uart.Driver.Divisor.{Latches, get_divisor-set_baud_rate}
use verilog.Uart.Driver.Poll.{flag, reads, LowFor, tx_byte-found, tx_byte-late}
use verilog.Uart.Driver.Messages.{
  Receiver, Transmitter, message, left_over, characters, recv-message, send-sent, send_str-sent,
}

-- Three registers; the latches stand behind bit 7 of LCR.
record Registers : Type 0 where
  line : ℕ
  low : ℕ
  high : ℕ

abbrev read_register : ℕ → Registers → ℕ × Registers
read_register addr s =
    let latch = if addr == 0 then s.low else s.high in (if addr == 3 then s.line else latch, s)

abbrev write_register : ℕ → ℕ → Registers → Registers
write_register addr v s =
    if addr == 3
    then record s { line = u8 v }
    else if addr == 0
    then record s { low = u8 v }
    else record s { high = u8 v }

abbrev latch_device : Device
latch_device = record { State = Registers; io_read = read_register; io_write = write_register }

abbrev latch_laws : Latches latch_device
latch_laws = record {
  lcr = λ s. s.line;
  dll = λ s. s.low;
  dlm = λ s. s.high;
  read_lcr = λ s. refl;
  write_lcr = λ v s. refl;
  write_lcr-dll = λ v s. refl;
  write_lcr-dlm = λ v s. refl;
  read_dll = λ s h. refl;
  read_dlm = λ s h. refl;
  write_dll = λ v s h. refl;
  write_dll-lcr = λ v s h. refl;
  write_dll-dlm = λ v s h. refl;
  write_dlm = λ v s h. refl;
  write_dlm-lcr = λ v s h. refl;
  write_dlm-dll = λ v s h. refl;
}

-- Whole numbers for `float`.
abbrev whole : Float
whole = record {
  F = ℕ;
  of_int = λ n. n;
  add = λ a b. a + b;
  sub = λ a b. a - b;
  mul = λ a b. a * b;
  div = λ a b. if b == 0 then 0 else a;
  to_int = λ n. n;
}

abbrev cleared : Driver latch_device
cleared = record { bus = record { line = 0; low = 0; high = 0 }; line_status = 0 }

get_divisor-set_baud_rate_example :
    let after = get_divisor latch_device (set_baud_rate latch_device whole 9600 0 1 3 cleared) in
    (after.0 ≡ u16 (freq_divisor whole 9600 0 1 3)) × (after.1.bus.line ≡ u8 (line_format 0 1 3))
get_divisor-set_baud_rate_example =
    get_divisor-set_baud_rate latch_device latch_laws whole 9600 0 1 3 cleared

-- A queue of received bytes.
abbrev read_queue : ℕ → List ℕ → ℕ × List ℕ
read_queue addr [] = (0, [])
read_queue addr (b ∷ bs) = if addr == 5 then (1, b ∷ bs) else (b, bs)

abbrev queue_device : Device
queue_device = record { State = List ℕ; io_read = read_queue; io_write = λ addr v s. s }

queue_kept : (q : List ℕ) → (read_queue 5 q).1 ≡ q
queue_kept [] = refl
queue_kept (b ∷ bs) = refl

queue_empty : (q : List ℕ) → q ≡ [] → (read_queue 5 q).0 & 1 ≡ 0
queue_empty q h = rw (h) refl

queue_ready : (b : ℕ) (bs q : List ℕ) → q ≡ b ∷ bs → (read_queue 5 q).0 & 1 ≢ 0
queue_ready b bs q h = rw (h) ground arith

queue_taken :
    (b : ℕ) (bs q : List ℕ) → q ≡ b ∷ bs → ((read_queue 0 q).0 ≡ b) × ((read_queue 0 q).1 ≡ bs)
queue_taken b bs q h = rw (h) (refl, refl)

abbrev queue_laws : Receiver queue_device
queue_laws = record {
  pending = λ q. q;
  empty = queue_empty;
  ready = queue_ready;
  kept = queue_kept;
  taken = queue_taken;
}

abbrev greeting : Driver queue_device
greeting = record { bus = 72 ∷ 105 ∷ 0 ∷ 33 ∷ []; line_status = 0 }

recv-message_example :
    (s' : Driver queue_device) × (recv queue_device 5 greeting
      ≡ some (message (72 ∷ 105 ∷ 0 ∷ 33 ∷ []), s'))
    × (s'.bus ≡ left_over (72 ∷ 105 ∷ 0 ∷ 33 ∷ []))
recv-message_example =
    recv-message queue_device queue_laws (72 ∷ 105 ∷ 0 ∷ 33 ∷ []) 5 greeting refl (omega arith)

-- A transmitter that is busy for one read after each byte, and drops what is written while it is
-- busy or the latches are open.
record Line : Type 0 where
  busy : Bool
  latches : Bool
  out : List ℕ

abbrev write_byte : Bool → Bool → ℕ → Line → Line
write_byte false false b s = record s { busy = true; out = push_back s.out b }
write_byte _ _ b s = s

abbrev line_device : Device
line_device = record {
  State = Line;
  io_read = λ addr s. (if s.busy then 0 else 32, record s { busy = false });
  io_write = λ addr b s. write_byte s.busy s.latches b s;
}

line_soon : (busy : Bool) → as_int busy < 1000
line_soon true = omega arith
line_soon false = omega arith

line_busy : (busy : Bool) → as_int busy ≢ 0 → (if busy then 0 else 32) & 32 ≡ 0
line_busy true h = refl
line_busy false h = absurd (h refl)

line_free : (busy : Bool) → as_int busy ≡ 0 → (if busy then 0 else 32) & 32 ≢ 0
line_free true h = absurd (omega (arith, h))
line_free false h = ground arith

line_nearer : (busy : Bool) → 0 ≡ as_int busy - 1
line_nearer true = refl
line_nearer false = refl

line_accepted :
    (busy latches : Bool) (b : ℕ) (s : Line)
    → as_int busy ≡ 0
    → latches ≡ false
    → s.latches ≡ false
    → ((write_byte busy latches b s).out ≡ push_back s.out b)
      × ((write_byte busy latches b s).latches ≡ false)
line_accepted false false b s ready closed same = (refl, same)
line_accepted false true b s ready closed same = absurd (cc)
line_accepted true latches b s ready closed same = absurd (omega (arith, ready))

abbrev line_laws : Transmitter line_device
line_laws = record {
  sent = λ s. s.out;
  wait = λ s. as_int s.busy;
  soon = λ s. line_soon s.busy;
  busy = λ s. line_busy s.busy;
  free = λ s. line_free s.busy;
  dlab = λ s. s.latches;
  nearer = λ s. (line_nearer s.busy, refl, refl);
  accepted = λ b s ready closed. line_accepted s.busy s.latches b s ready closed closed;
}

abbrev quiet : Driver line_device
quiet = record { bus = record { busy = true; latches = false; out = 1 ∷ [] }; line_status = 0 }

send-sent_example :
    (s' : Driver line_device) × (send line_device (5 ∷ 0 ∷ 7 ∷ []) quiet ≡ some s')
    × (s'.bus.out ≡ quiet.bus.out ++ (5 ∷ 0 ∷ 7 ∷ []))
send-sent_example = send-sent line_device line_laws (5 ∷ 0 ∷ 7 ∷ []) quiet refl

send_str-sent_example :
    (s' : Driver line_device) × (send_str line_device (5 ∷ 6 ∷ 0 ∷ 7 ∷ []) quiet ≡ some s')
    × (s'.bus.out ≡ quiet.bus.out ++ characters (5 ∷ 6 ∷ 0 ∷ 7 ∷ []))
send_str-sent_example = send_str-sent line_device line_laws (5 ∷ 6 ∷ 0 ∷ 7 ∷ []) quiet refl

quiet_once : LowFor line_device uart_lsr_tf 1 quiet
unfolding LowFor get_line_status
quiet_once = (refl, tt)

then_ready : flag line_device uart_lsr_tf (reads line_device 1 quiet) ≢ 0
unfolding reads get_line_status
then_ready = ground arith

tx_byte-found_example :
    tx_byte line_device 9 4 quiet
    ≡ some (
      1,
      on_bus line_device (Device.io_write line_device uart_reg_thr 9) (reads line_device 2 quiet),
    )
tx_byte-found_example = tx_byte-found line_device 1 4 9 quiet (omega arith) quiet_once then_ready

tx_byte-late_example : tx_byte line_device 9 1 quiet ≡ some (0, reads line_device 1 quiet)
tx_byte-late_example = tx_byte-late line_device 0 9 quiet quiet_once

-- A compiled UART whose state is its clock.
abbrev uart : UartTop
uart = record {
  Top = ℕ;
  eval = λ t. t;
  got_finish = λ t. false;
  clk = λ t. t;
  set_clk = λ v t. v;
  set_res = λ v t. t;
  set_addr = λ v t. t;
  set_ddis = λ v t. t;
  set_wr = λ v t. t;
  set_rd = λ v t. t;
  set_cs = λ v t. t;
  set_data_bus = λ v t. t;
  data_bus_out = λ t. 0x60;
}

uart_clocked : Clocked uart
uart_clocked = record {
  set_clk = λ v t. refl;
  eval = λ t. refl;
  set_addr = λ v t. refl;
  set_ddis = λ v t. refl;
  set_wr = λ v t. refl;
  set_rd = λ v t. refl;
  set_cs = λ v t. refl;
  set_data_bus = λ v t. refl;
  unfinished = λ t. refl;
}

abbrev powered : UartVerilated uart
powered = record { timestamp = 1000; top = 0 }

access-cycle_example :
    ((io_read uart 5 powered).1.timestamp ≡ 1000 + 250)
    × (UartTop.clk uart (io_read uart 5 powered).1.top ≡ 0)
    × ((io_write uart 5 0x80 powered).timestamp ≡ 1000 + 250)
    × (UartTop.clk uart (io_write uart 5 0x80 powered).top ≡ 0)
access-cycle_example = access-cycle uart uart_clocked 5 0x80 powered refl (omega arith)
