-- ===== src/Riscv/Transactions.antt =====
-- The reference and driver queues: `struct Transaction` of RISCV_SingleCycle/testbench/common.h,
-- and `get_ref`, `push_ref` and `push_drv` of sequences.cpp. The text of a transaction and the log
-- files are left out.
pub mod Queues
pub mod Split
use verilog.Common.{
  ℕ, ◌+◌, ◌-◌, ◌/◌, ◌^◌, List, [], ◌∷◌, Bool, true, false, truth, ltb, if◌then◌else◌, ◌&◌,
  push_back,
}
use verilog.Riscv.Isa.{Config, instructions_limit}
use verilog.Riscv.Sequencer.{Sequencer, size, split}

pub record Transaction : Type 0 where
  pub req : ℕ
  pub wr : ℕ
  pub addr : ℕ
  pub wr_data : ℕ
  pub rd_data : ℕ
  pub test_id : ℕ
  pub irq : ℕ

-- The global queues, with the sequencer.
pub record Bench : Type 0 where
  pub sqr : Sequencer
  pub ref_fifo : List Transaction
  pub drv_fifo : List Transaction

-- `get_ref` copies every field but `irq`, and pops; 0 on an empty queue.
unfoldable pub get_ref : Transaction → List Transaction → ℕ × Transaction × List Transaction
get_ref tx [] = (0, tx, [])
get_ref tx (temp ∷ ref_fifo) = (1, record temp { irq = tx.irq }, ref_fifo)

-- What `push_ref` and `push_drv` write into the transaction first: the phase, and the fields cut to
-- the width of the build.
unfoldable pub masked : Config → ℕ → Transaction → Transaction
masked cfg split_num req =
    let narrow = ltb cfg.xlen 64 in
    record req {
      test_id = split_num;
      wr_data = if narrow then req.wr_data & (2 ^ cfg.xlen - 1) else req.wr_data;
      rd_data = if narrow then req.rd_data & (2 ^ cfg.xlen - 1) else req.rd_data;
      addr = if ltb cfg.addr_width 64 then req.addr & (2 ^ cfg.addr_width - 1) else req.addr;
    }

-- A new phase begins once the queue holds a memory's worth of commands for each phase so far.
unfoldable pub maybe_split : Sequencer → Sequencer
unfolding split size
maybe_split sqr = if ltb sqr.split_num (size sqr / instructions_limit) then split sqr else sqr

unfoldable pub push_ref : Config → Transaction → ℕ → Bench → Transaction × Bench
unfolding masked maybe_split
push_ref cfg req no_zero_cmd b =
    let req' = masked cfg b.sqr.split_num req in
    let b' = record b { ref_fifo = push_back b.ref_fifo req' } in
    (req', if truth no_zero_cmd then b' else record b' { sqr = maybe_split b.sqr })

unfoldable pub push_drv : Config → Transaction → Bench → Transaction × Bench
unfolding masked
push_drv cfg req b =
    let req' = masked cfg b.sqr.split_num req in
    (req', record b { drv_fifo = push_back b.drv_fifo req' })
