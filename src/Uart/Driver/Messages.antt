-- ===== src/Uart/Driver/Messages.antt =====
-- UART/driver/uart_driver.cpp: `recv`, `send` and `send_str` on a device with queues.
use mathlib.Core.List.{append-nil}
use verilog.Common.{
  ℕ, zero, suc, ◌-◌, ◌<◌, ◌≤◌, ◌≡◌, ◌≢◌, refl, sym, ap, ◌∙◌, List, [], ◌∷◌, ◌++◌, Bool, false,
  Bool-cases, inl, inr, some, truth, truth→eq, if◌then◌else◌, ◌&◌, u8, length, push_back,
  append-push_back, arith,
}
use verilog.Uart.Device.{Device, uart_reg_rbr, uart_reg_thr, uart_reg_lsr, uart_lsr_dr, uart_lsr_tf}
use verilog.Uart.Driver.{
  Driver, on_bus, poll_timeout, get_line_status, rx_byte, poll_rx, tx_byte, recv, send, send_str,
}
use verilog.Uart.Driver.Poll.{reads, LowFor, poll_rx-found, poll_rx-late, tx_byte-found}

-- A receive queue: DR shows whether it holds a byte, and a read of RBR takes the oldest one.
pub record Receiver (d : Device) : Type 0 where
  pub pending : Device.State d → List ℕ
  pub empty : (s : Device.State d) → pending s ≡ [] → (Device.io_read d uart_reg_lsr s).0 & 1 ≡ 0
  pub ready :
      (b : ℕ) (bs : List ℕ) (s : Device.State d)
      → pending s ≡ b ∷ bs
      → (Device.io_read d uart_reg_lsr s).0 & 1 ≢ 0
  pub kept : (s : Device.State d) → pending (Device.io_read d uart_reg_lsr s).1 ≡ pending s
  pub taken :
      (b : ℕ) (bs : List ℕ) (s : Device.State d)
      → pending s ≡ b ∷ bs
      → ((Device.io_read d uart_reg_rbr s).0 ≡ b)
        × (pending (Device.io_read d uart_reg_rbr s).1 ≡ bs)

-- The message that a queue holds: its bytes before the first zero, that zero where there is one,
-- and the end of message.
unfoldable pub message : List ℕ → List ℕ
message [] = 0 ∷ []
message (b ∷ bs) = let rest = message bs in if truth (u8 b) then u8 b ∷ rest else 0 ∷ 0 ∷ []

-- The bytes behind it.
unfoldable pub left_over : List ℕ → List ℕ
left_over [] = []
left_over (b ∷ bs) = let rest = left_over bs in if truth (u8 b) then rest else bs

module _ (d : Device) (receiver : Receiver d) where
  open receiver use {pending}

  -- While the queue is empty, every read shows it.
  low_for : (k : ℕ) (s : Driver d) → pending s.bus ≡ [] → LowFor d uart_lsr_dr k s
  unfolding LowFor get_line_status
  low_for zero s h = tt
  low_for (suc k) s h =
      (receiver.empty s.bus h, low_for k (get_line_status d s).1 (receiver.kept s.bus ∙ h))

  reads-pending : (k : ℕ) (s : Driver d) → pending (reads d k s).bus ≡ pending s.bus
  unfolding reads get_line_status
  reads-pending zero s = refl
  reads-pending (suc k) s = reads-pending k (get_line_status d s).1 ∙ receiver.kept s.bus

  poll_rx-pending :
      (b : ℕ) (bs : List ℕ) (s : Driver d)
      → pending s.bus ≡ b ∷ bs
      → poll_rx d poll_timeout s ≡ (some 1, reads d 1 s)
  unfolding reads LowFor
  poll_rx-pending b bs s h =
      poll_rx-found d 0 poll_timeout s (omega arith) tt (receiver.ready b bs s.bus h)

  rx_byte-pending :
      (b : ℕ) (bs : List ℕ) (s : Driver d)
      → pending s.bus ≡ b ∷ bs
      → ((rx_byte d s).0 ≡ u8 b) × (pending (rx_byte d s).1.bus ≡ bs)
  unfolding rx_byte
  rx_byte-pending b bs s h =
      let (byte, rest) = receiver.taken b bs s.bus h in (ap (λ n. u8 n) byte, rest)

  -- `recv` reads the message, and leaves what is behind it, on any fuel above the queue's length.
  pub recv-message :
      (bs : List ℕ) (fuel : ℕ) (s : Driver d)
      → pending s.bus ≡ bs
      → length bs < fuel
      → (s' : Driver d) × (recv d fuel s ≡ some (message bs, s')) × (pending s'.bus ≡ left_over bs)
  unfolding recv message left_over
  recv-message bs zero s h enough = absurd (omega arith)
  recv-message [] (suc fuel) s h enough =
      let late = poll_rx-late d 999 s (low_for 1000 s h) in
      (reads d 1000 s, rw (late) refl, reads-pending 1000 s ∙ h)
  recv-message (b ∷ bs) (suc fuel) s h enough =
      let polled = poll_rx-pending b bs s h in
      let (byte, rest) = rx_byte-pending b bs (reads d 1 s) (reads-pending 1 s ∙ h) in
      let (s', result, behind) =
        recv-message bs fuel (rx_byte d (reads d 1 s)).1 rest (omega arith) in
      elim (Bool-cases (truth (u8 b))) [
        | inl more ↦ (s', rw (polled, byte, result, more) refl, rw (more) behind)
        | inr last ↦ (
          (rx_byte d (reads d 1 s)).1,
          rw (polled, byte, truth→eq (u8 b) last) refl,
          rw (last) rest,
        )
      ]

-- A transmitter that is ready after a while: `wait` is the number of reads of the line status that
-- show it busy, fewer than the driver's polls make. It takes a byte that is written to THR while it
-- is ready and the divisor latches are closed (`dlab`, bit 7 of LCR); of other writes nothing is
-- known.
pub record Transmitter (d : Device) : Type 0 where
  pub sent : Device.State d → List ℕ
  pub wait : Device.State d → ℕ
  pub dlab : Device.State d → Bool
  pub soon : (s : Device.State d) → wait s < poll_timeout
  pub busy : (s : Device.State d) → wait s ≢ 0 → (Device.io_read d uart_reg_lsr s).0 & 32 ≡ 0
  pub free : (s : Device.State d) → wait s ≡ 0 → (Device.io_read d uart_reg_lsr s).0 & 32 ≢ 0
  pub nearer :
      (s : Device.State d)
      → (wait (Device.io_read d uart_reg_lsr s).1 ≡ wait s - 1)
        × (sent (Device.io_read d uart_reg_lsr s).1 ≡ sent s)
        × (dlab (Device.io_read d uart_reg_lsr s).1 ≡ dlab s)
  pub accepted :
      (b : ℕ) (s : Device.State d)
      → wait s ≡ 0
      → dlab s ≡ false
      → (sent (Device.io_write d uart_reg_thr b s) ≡ push_back (sent s) b)
        × (dlab (Device.io_write d uart_reg_thr b s) ≡ false)

-- The bytes of a C string: those before the first zero.
unfoldable pub characters : List ℕ → List ℕ
characters [] = []
characters (c ∷ cs) = let rest = characters cs in if truth c then c ∷ rest else []

module _ (d : Device) (transmitter : Transmitter d) where
  open transmitter use {sent, wait, dlab}

  busy_for : (k : ℕ) (s : Driver d) → k ≤ wait s.bus → LowFor d uart_lsr_tf k s
  unfolding LowFor get_line_status
  busy_for zero s h = tt
  busy_for (suc k) s h =
      let (next, _, _) = transmitter.nearer s.bus in
      (
        transmitter.busy s.bus (omega arith),
        busy_for k (get_line_status d s).1 (omega (arith, next)),
      )

  after_reads :
      (k : ℕ) (s : Driver d)
      → (wait (reads d k s).bus ≡ wait s.bus - k)
        × (sent (reads d k s).bus ≡ sent s.bus)
        × (dlab (reads d k s).bus ≡ dlab s.bus)
  unfolding reads get_line_status
  after_reads zero s = (omega arith, refl, refl)
  after_reads (suc k) s =
      let (next, same, still) = transmitter.nearer s.bus in
      let (later, kept, closed) = after_reads k (get_line_status d s).1 in
      (omega (arith, next, later), kept ∙ same, closed ∙ still)

  -- Every byte gets through.
  tx_byte-sent :
      (byte : ℕ) (s : Driver d)
      → dlab s.bus ≡ false
      → (s' : Driver d) × (tx_byte d byte poll_timeout s ≡ some (1, s'))
        × (sent s'.bus ≡ push_back (sent s.bus) byte)
        × (dlab s'.bus ≡ false)
  tx_byte-sent byte s closed =
      let k = wait s.bus in
      let (done, kept, _) = after_reads k s in
      let high = transmitter.free (reads d k s).bus (omega (arith, done)) in
      let (ready, kept', still) = after_reads (suc k) s in
      let (taken, closed') =
        transmitter.accepted byte (reads d (suc k) s).bus (omega (arith, ready)) (still ∙ closed) in
      (
        on_bus d (Device.io_write d uart_reg_thr byte) (reads d (suc k) s),
        tx_byte-found d k poll_timeout byte s (transmitter.soon s.bus) (busy_for k s (omega arith))
            high,
        taken ∙ ap (λ q. push_back q byte) kept',
        closed',
      )

  -- With the divisor latches closed, `send` transmits all bytes of the array, in order and once each.
  pub send-sent :
      (bytes : List ℕ) (s : Driver d)
      → dlab s.bus ≡ false
      → (s' : Driver d) × (send d bytes s ≡ some s') × (sent s'.bus ≡ sent s.bus ++ bytes)
  unfolding send
  send-sent [] s closed = (s, refl, sym (append-nil (sent s.bus)))
  send-sent (b ∷ bytes) s closed =
      let (s1, one, first, closed') = tx_byte-sent b s closed in
      let (s2, rest, others) = send-sent bytes s1 closed' in
      (
        s2,
        rw (one, rest) refl,
        others ∙ ap (λ q. q ++ bytes) first ∙ append-push_back (sent s.bus) b bytes,
      )

  -- With the divisor latches closed, `send_str` transmits the characters before the first zero and
  -- nothing else.
  pub send_str-sent :
      (str : List ℕ) (s : Driver d)
      → dlab s.bus ≡ false
      → (s' : Driver d) × (send_str d str s ≡ some s')
        × (sent s'.bus ≡ sent s.bus ++ characters str)
  unfolding send_str characters
  send_str-sent [] s closed = (s, refl, sym (append-nil (sent s.bus)))
  send_str-sent (c ∷ str) s closed =
      let (s1, one, first, closed') = tx_byte-sent c s closed in
      let (s2, rest, others) = send_str-sent str s1 closed' in
      let extended =
        others
        ∙ ap (λ q. q ++ characters str) first
        ∙ append-push_back (sent s.bus) c (characters str) in
      elim (Bool-cases (truth c)) [
        | inl more ↦ (s2, rw (one, rest, more) refl, rw (more) extended)
        | inr last ↦ (s, rw (truth→eq c last) refl, rw (last) (sym (append-nil (sent s.bus))))
      ]
