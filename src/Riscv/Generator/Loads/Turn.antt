-- ===== src/Riscv/Generator/Loads/Turn.antt =====
-- generator.cpp: what a turn of `generate_itype_load_data` leaves in the queues, against the core
-- and the driver.
use verilog.Common.{
  ℕ, ◌+◌, ◌*◌, ◌%◌, ◌^◌, ◌≤◌, ◌<◌, ◌≡◌, ◌≢◌, refl, sym, ap, ◌∙◌, true, false, truth, ◌&◌, u32, [],
  ◌∷◌, push_back, arith,
}
use verilog.Common.Bits.{and_low}
use verilog.Riscv.Isa.{Config, Build, rv32, rv64, xlen_of, config}
use verilog.Riscv.Commands.{UType, IType}
use verilog.Riscv.Sequencer.{Sequencer}
use verilog.Riscv.Transactions.{Transaction, Bench, push_ref, push_drv}
use verilog.Riscv.Transactions.Queues.{cut, push_masked}
use verilog.Riscv.Sequences.Utype.{seq_utype, seq_lui}
use verilog.Riscv.Sequences.Itype.Arithmetic.{seq_addi}
use verilog.Riscv.Sequences.Itype.Load.{set_itype_load}
use verilog.Riscv.Sequences.Dispatch.Memory.{
  Width, byte, triple, bits, LoadsFrom, set_itype_load-LoadsFrom, set_itype_load-imm,
}
use verilog.Riscv.Sequences.Cycles.{with_register, cycle-lui, cycle-load}
use verilog.Riscv.Rtl.Decode.{decode}
use verilog.Riscv.Rtl.Core.{Core, Dmem, extend, write_register, cycle, cycles}
use verilog.Riscv.Generator.Values.{seq_lui-imm}
use verilog.Riscv.Generator.Registers.{lui_addi-register}
use verilog.Riscv.Generator.Loads.{regfile_a1, load_address, loaded_data}
use verilog.Riscv.Generator.Loads.Values.{load_address-sum, loaded_data-extended}
use verilog.Riscv.Generator.Loads.Data.{LoadData, load_data_load}

-- A write to one register leaves another.
pub other_register : (a r x : ℕ) (f : ℕ → ℕ) → r ≢ a → with_register a x f r ≡ f r
unfolding write_register
other_register a r x f h = ground arith

pub same_register : (a x : ℕ) (f : ℕ → ℕ) → a ≢ 0 → with_register a x f a ≡ x
unfolding write_register
same_register a x f h = ground arith

pub seq_lui-rd : (cmd : UType) (sqr : Sequencer) → (seq_lui cmd sqr).0.rd ≡ cmd.rd % 32
unfolding seq_lui seq_utype
seq_lui-rd cmd sqr = and_low 5 cmd.rd

data-lt :
    (b : Build) (wd : Width) (x : ℕ)
    → cut (xlen_of b) (cut (xlen_of b) (x % 2 ^ bits wd)) < 2 ^ bits wd
data-lt rv32 byte x = omega arith
data-lt rv64 byte x = omega arith
data-lt rv32 _ x = omega arith
data-lt rv64 _ x = omega arith

module _ (b : Build) (rand : ℕ → ℕ) (w : ℕ) (wd : Width) (u dreg pattern : ℕ) (s : LoadData) where
  abbrev cfg : Config
  cfg = config b w

  abbrev made : LoadData
  made = load_data_load cfg rand (bits wd) u dreg pattern s

  abbrev lui' : UType
  lui' = record s.lui_base { rd = regfile_a1; imm = u32 (0xA0000 + rand s.calls % 0x60000) }

  abbrev lui : UType
  lui = (seq_lui lui' s.gen.bench.sqr).0

  abbrev sqr1 : Sequencer
  sqr1 = (seq_lui lui' s.gen.bench.sqr).1

  abbrev data' : UType
  data' = record s.lui_data { rd = dreg; imm = u32 (rand (s.calls + 1)) }

  abbrev addi' : IType
  addi' = record s.addi { rd = dreg; rs1 = dreg; imm = u32 (rand (s.calls + 2)) }

  abbrev sqr2 : Sequencer
  sqr2 = (seq_lui data' sqr1).1

  abbrev sqr3 : Sequencer
  sqr3 = (seq_addi addi' sqr2).1

  abbrev load' : IType
  load' = record s.load { rd = dreg; rs1 = lui.rd; imm = u32 pattern }

  abbrev load : IType
  load = (set_itype_load load' (bits wd) u sqr3).0

  abbrev sqr4 : Sequencer
  sqr4 = (set_itype_load load' (bits wd) u sqr3).1

  abbrev req : Transaction
  req = record s.gen.ref_req {
    wr = 0;
    wr_data = 0;
    addr = load_address lui load.imm;
    rd_data = rand (s.calls + 3) & load.datamask;
  }

  -- What goes into the two queues: the load, and the data that the driver gives for it.
  pub load_data_load-queues :
      (made.gen.bench.ref_fifo ≡ push_back s.gen.bench.ref_fifo made.gen.ref_req)
      × (made.gen.bench.drv_fifo ≡ push_back s.gen.bench.drv_fifo made.drv_req)
      × (made.gen.ref_req.wr ≡ 0)
      × (made.gen.ref_req.addr ≡ cut w (load_address lui load.imm))
      × (made.drv_req.addr ≡ cut w (cut w (load_address lui load.imm)))
      × (made.gen.ref_req.rd_data ≡ cut (xlen_of b) (rand (s.calls + 3) % 2 ^ bits wd))
      × (made.drv_req.rd_data ≡ cut (xlen_of b) made.gen.ref_req.rd_data)
  unfolding load_data_load
  load_data_load-queues =
      let b0 : Bench = record s.gen.bench { sqr = sqr4 } in
      let (same, queued, quiet, _, _) = push_masked cfg req 1 b0 in
      let (_, mask, _) = set_itype_load-LoadsFrom cfg load' u sqr3 wd in
      let ref = (push_ref cfg req 1 b0).0 in
      let b1 = (push_ref cfg req 1 b0).1 in
      let drv : Transaction = record s.drv_req { wr = 0; addr = ref.addr; rd_data = ref.rd_data } in
      let (_, _, _, sent, bench) = push_masked cfg drv 0 b1 in
      let random = rand (s.calls + 3) in
      (
        ap (λ (q : Bench). q.ref_fifo) bench
            ∙ queued
            ∙ ap (push_back s.gen.bench.ref_fifo) (sym same),
        ap (λ (q : Bench). q.drv_fifo) bench
            ∙ ap (push_back b1.drv_fifo) (sym sent)
            ∙ ap (λ q. push_back q (push_drv cfg drv b1).0) quiet,
        ap (λ (t : Transaction). t.wr) same,
        ap (λ (t : Transaction). t.addr) same,
        ap (λ (t : Transaction). t.addr) sent ∙ ap (λ (t : Transaction). cut w t.addr) same,
        ap (λ (t : Transaction). t.rd_data) same
            ∙ ap (cut (xlen_of b)) (ap (λ n. random & n) mask ∙ and_low (bits wd) random),
        ap (λ (t : Transaction). t.rd_data) sent,
      )

  module _ (core : Core) (small : dreg < 32) (not_base : dreg ≢ 2) where
    -- The core before the load, and what the load does with the data that the driver gives.
    abbrev before : Core
    before = cycles cfg (made.lui_base.value ∷ made.lui_data.value ∷ made.addi.value ∷ []) core

    abbrev loading : Dmem × Core
    loading = cycle cfg made.load.value made.drv_req.rd_data before

    -- The address register at the load.
    before-base : before.reg_mem 2 ≡ extend (xlen_of b) 32 (lui'.imm % 2 ^ 20 * 2 ^ 12)
    unfolding load_data_load cycles
    before-base =
        let core0 = (cycle cfg lui.value 0 core).1 in
        let high = extend (xlen_of b) 32 (lui'.imm % 2 ^ 20 * 2 ^ 12) in
        let first = ap (λ f. f 2) (cycle-lui cfg lui' s.gen.bench.sqr core) in
        let other = lui_addi-register b w dreg data' addi' sqr1 sqr2 core0 small refl refl refl 2 in
        other
        ∙ other_register dreg 2 _ core0.reg_mem (λ e. not_base (sym e))
        ∙ first
        ∙ same_register 2 high core.reg_mem (ground arith)

    -- The load asks for the address that both queues hold, and brings the driver's data into the
    -- register as the generator counts on it.
    pub load_data_load-runs :
        bits wd ≤ xlen_of b
        → (wd ≡ triple → truth u ≡ true)
        → dreg ≢ 0
        → (loading.0.dmem_req ≡ true)
          × (loading.0.dmem_wr ≡ false)
          × (loading.0.dmem_addr ≡ u32 (load_address lui load.imm))
          × (loading.1.reg_mem dreg
              ≡ cut (xlen_of b) (loaded_data dreg u (bits wd) made.drv_req.rd_data))
    load_data_load-runs fits t nonzero =
        let (_, _, _, _, _, reference, driven) = load_data_load-queues in
        let loads : LoadsFrom cfg (decode made.load.value) load' wd (truth u) =
          unfold load_data_load in (set_itype_load-LoadsFrom cfg load' u sqr3 wd).0 in
        let (asks, reads, addr, regs) =
          cycle-load cfg made.load.value made.drv_req.rd_data before load' wd (truth u) loads in
        let base : lui.rd % 32 ≡ 2 = omega (arith, seq_lui-rd lui' s.gen.bench.sqr) in
        let rd : dreg % 32 ≡ dreg = omega arith in
        let small_data = data-lt b wd (rand (s.calls + 3)) in
        (
          asks,
          reads,
          addr
              ∙ (rw (base, before-base)
                  (sym (
                    load_address-sum b lui lui'.imm load'.imm load.imm
                      (seq_lui-imm lui' s.gen.bench.sqr) (set_itype_load-imm load' u sqr3 wd)))),
          ap (λ f. f dreg) regs
              ∙ (rw (rd) (
                  same_register dreg _ before.reg_mem nonzero
                  ∙ loaded_data-extended b wd dreg u made.drv_req.rd_data fits t (ground arith)
                      (omega (arith, driven, ap (cut (xlen_of b)) reference, small_data)))),
        )
