-- ===== src/Riscv/Generator/Auipc/Turn.antt =====
-- generator.cpp: a turn of `generate_auipc`, against the core.
use verilog.Common.Bits.{and_low}
use verilog.Common.{
  ℕ, ◌*◌, ◌/◌, ◌%◌, ◌^◌, ◌<◌, ◌≡◌, refl, sym, ap, ◌∙◌, true, false, truth, if◌then◌else◌, ◌<<◌, u32,
  to_long, push_back, arith,
}
use verilog.Riscv.Isa.{Build, rv32, rv64, xlen_of, config, op_alu_add}
use verilog.Riscv.Commands.{UType, SType}
use verilog.Riscv.Sequencer.{Sequencer, push_seq}
use verilog.Riscv.Transactions.{Transaction, Bench, maybe_split}
use verilog.Riscv.Transactions.Queues.{cut, push_masked}
use verilog.Riscv.Sequences.Utype.{seq_utype, seq_auipc}
use verilog.Riscv.Sequences.Stype.{set_stype}
use verilog.Riscv.Sequences.Cycles.{with_register, cycle-auipc}
use verilog.Riscv.Rtl.Alu.{alu_dataflow}
use verilog.Riscv.Rtl.Core.{Core, extend, alu_res_signed, cycle}
use verilog.Riscv.Generator.{sign_extend}
use verilog.Riscv.Generator.Values.{sign_extend-32}
use verilog.Riscv.Generator.Registers.{with_register-zero, cut-if, cut-cut}
use verilog.Riscv.Generator.Stores.{offset-lt, set_stype-shows}
use verilog.Riscv.Generator.Turns.{push_ref-sqr}
use verilog.Riscv.Generator.Auipc.{Auipc, auipc_value, auipc_turn}

seq_auipc-pushes :
    (cmd : UType) (sqr : Sequencer)
    → (seq_auipc cmd sqr).1 ≡ push_seq (seq_auipc cmd sqr).0.value sqr
unfolding seq_auipc seq_utype
seq_auipc-pushes cmd sqr = refl

seq_auipc-imm : (cmd : UType) (sqr : Sequencer) → (seq_auipc cmd sqr).0.imm ≡ cmd.imm % 2 ^ 20
unfolding seq_auipc seq_utype
seq_auipc-imm cmd sqr = and_low 20 cmd.imm

-- The sum that the core forms is the one that the generator counts on.
auipc_value-sum :
    (b : Build) (pc : ℕ) (cmd : UType) (sqr : Sequencer)
    → pc * 4 < 2 ^ 32
    → alu_res_signed (xlen_of b) false (
        alu_dataflow
          (xlen_of b)
          op_alu_add
          (pc * 4)
          (extend (xlen_of b) 32 (cmd.imm % 2 ^ 20 * 2 ^ 12)))
      ≡ cut (xlen_of b) (auipc_value pc (seq_auipc cmd sqr).0)
unfolding alu_dataflow alu_res_signed auipc_value
auipc_value-sum rv32 pc cmd sqr small =
    let imm = seq_auipc-imm cmd sqr in
    let high = sign_extend-32 (to_long ((seq_auipc cmd sqr).0.imm << 12)) in
    ground (arith, imm, high)
auipc_value-sum rv64 pc cmd sqr small =
    let imm = seq_auipc-imm cmd sqr in
    let high = sign_extend-32 (to_long ((seq_auipc cmd sqr).0.imm << 12)) in
    ground (arith, imm, high)

-- In both builds, for any register, on a core that has x0 at 0 and is at the counted pc, below 2^32:
-- a turn of `generate_auipc` pushes the AUIPC and then the store, and one reference transaction, which
-- is the write of the core when it comes to the store after the AUIPC.
pub auipc_turn-runs :
    (b : Build) (w : ℕ) (rand : ℕ → ℕ) (dreg pattern : ℕ) (s : Auipc) (core : Core)
    → dreg < 32
    → core.reg_mem 0 ≡ 0
    → core.pc ≡ s.pc * 4
    → s.pc * 4 < 2 ^ 32
    → let cfg = config b w in
      let t = auipc_turn cfg rand dreg pattern s in
      let bus = (cycle cfg t.stype.value 0 (cycle cfg t.auipc.value 0 core).1).0 in
      (t.gen.bench.sqr
        ≡ maybe_split (push_seq t.stype.value (push_seq t.auipc.value s.gen.bench.sqr)))
      × (t.gen.bench.ref_fifo ≡ push_back s.gen.bench.ref_fifo t.gen.ref_req)
      × (t.gen.ref_req.wr ≡ 1)
      × (bus.dmem_wr ≡ true)
      × (t.gen.ref_req.wr_data ≡ bus.dmem_wr_data)
      × (t.gen.ref_req.addr ≡ cut w bus.dmem_addr)
unfolding auipc_turn
auipc_turn-runs b w rand dreg pattern s core small x0 at fits =
    let cfg = config b w in
    let n = xlen_of b in
    let auipc' : UType = record s.auipc { rd = dreg; imm = u32 pattern } in
    let u = (seq_auipc auipc' s.gen.bench.sqr).0 in
    let sqr1 = (seq_auipc auipc' s.gen.bench.sqr).1 in
    let offset = rand s.calls % 0x700 / (n / 8) * (n / 8) in
    let stype' : SType = record s.stype { imm = offset; rs1 = 0; rs2 = dreg } in
    let c = (set_stype stype' n sqr1).0 in
    let sqr2 = (set_stype stype' n sqr1).1 in
    let value = auipc_value s.pc u in
    let req : Transaction = record s.gen.ref_req {
      wr = 1;
      rd_data = 0;
      wr_data = if truth dreg then value else 0;
      addr = sign_extend (to_long c.imm) 12;
    } in
    let b0 : Bench = record s.gen.bench { sqr = sqr2 } in
    let core1 = (cycle cfg u.value 0 core).1 in
    let rd : dreg % 32 ≡ dreg = omega arith in
    let high = extend n 32 (auipc'.imm % 2 ^ 20 * 2 ^ 12) in
    let summed = alu_res_signed n false (alu_dataflow n op_alu_add core.pc high) in
    let sum =
      ap (λ p. alu_res_signed n false (alu_dataflow n op_alu_add p high)) at
      ∙ auipc_value-sum b s.pc auipc' s.gen.bench.sqr fits in
    let regs : core1.reg_mem ≡ with_register dreg (cut n value) core.reg_mem =
      cycle-auipc cfg auipc' s.gen.bench.sqr core
      ∙ ap (λ r. with_register r summed core.reg_mem) rd
      ∙ ap (λ v. with_register dreg v core.reg_mem) sum in
    let (zeros, holds) = with_register-zero dreg (cut n value) core.reg_mem x0 in
    let (pushed, _, place, writes, addr, shown) =
      set_stype-shows b w stype' sqr1 core1 refl (offset-lt b (rand s.calls))
        (ap (λ f. f 0) regs ∙ zeros) in
    let (same, queued, _, _, _) = push_masked cfg req 0 b0 in
    let equal : cut n (if truth dreg then value else 0) ≡ cut n (core1.reg_mem (dreg % 32)) =
      sym (cut-cut b (if truth dreg then value else 0))
      ∙ ap (cut n) (sym (cut-if b (truth dreg) value))
      ∙ ap (cut n) (sym holds)
      ∙ ap (λ f. cut n (f dreg)) (sym regs)
      ∙ ap (λ r. cut n (core1.reg_mem r)) (sym rd) in
    (
      push_ref-sqr cfg req b0
          ∙ ap maybe_split
              (pushed ∙ ap (push_seq c.value) (seq_auipc-pushes auipc' s.gen.bench.sqr)),
      queued ∙ ap (push_back s.gen.bench.ref_fifo) (sym same),
      ap (λ (t : Transaction). t.wr) same,
      writes,
      ap (λ (t : Transaction). t.wr_data) same ∙ equal ∙ sym shown,
      ap (λ (t : Transaction). t.addr) same ∙ ap (cut w) (place ∙ sym addr),
    )
