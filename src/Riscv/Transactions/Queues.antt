-- ===== src/Riscv/Transactions/Queues.antt =====
-- What goes into the queues and comes out of them.
use verilog.Common.{ℕ, ◌%◌, ◌^◌, ◌≡◌, arith, ltb, if◌then◌else◌, push_back}
use verilog.Common.Bits.{and_low}
use verilog.Riscv.Isa.{Config}
use verilog.Riscv.Transactions.{Transaction, Bench, push_ref, push_drv}

-- A field of a transaction fits the width `w`, or 64 bits in a wider build.
abbrev pub cut : ℕ → ℕ → ℕ
cut w x = if ltb w 64 then x % 2 ^ w else x

-- `push_ref` and `push_drv` append the same transaction to their queues and leave the other queue
-- alone: its data are cut to XLEN bits and its address to the address width, it carries the number
-- of the running phase, and its other fields are those given. `push_drv` leaves the sequencer alone.
pub push_masked :
    (cfg : Config) (req : Transaction) (quiet : ℕ) (b : Bench)
    → let m : Transaction = record req {
      test_id = b.sqr.split_num;
      wr_data = cut cfg.xlen req.wr_data;
      rd_data = cut cfg.xlen req.rd_data;
      addr = cut cfg.addr_width req.addr;
    } in
      let (r, br) = push_ref cfg req quiet b in
      let (d, bd) = push_drv cfg req b in
      (r ≡ m)
      × (br.ref_fifo ≡ push_back b.ref_fifo m)
      × (br.drv_fifo ≡ b.drv_fifo)
      × (d ≡ m)
      × (bd ≡ record b { drv_fifo = push_back b.drv_fifo m })
unfolding push_ref push_drv
push_masked cfg req quiet b = ground (
  arith,
  and_low cfg.xlen req.wr_data,
  and_low cfg.xlen req.rd_data,
  and_low cfg.addr_width req.addr,
)
