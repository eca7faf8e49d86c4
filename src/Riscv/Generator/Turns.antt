-- ===== src/Riscv/Generator/Turns.antt =====
-- generator.cpp: the stores of `generate_stype_imm_lui_imm` and of `generate_stype_data`, against the
-- core.
use native.Mathlib.Nat.{zero-mod}
use verilog.Common.{
  ℕ, ◌*◌, ◌/◌, ◌%◌, ◌^◌, ◌≤◌, ◌<◌, ◌≡◌, ◌≢◌, refl, sym, ap, ◌∙◌, true, ◌&◌, u32, to_long, [], ◌∷◌,
  push_back, arith,
}
use verilog.Common.Bits.{and_low}
use verilog.Riscv.Isa.{Config, Build, rv32, rv64, xlen_of, config}
use verilog.Riscv.Commands.{UType, SType, IType}
use verilog.Riscv.Sequencer.{Sequencer, push_seq}
use verilog.Riscv.Transactions.{Transaction, Bench, maybe_split, push_ref}
use verilog.Riscv.Transactions.Queues.{cut, push_masked}
use verilog.Riscv.Sequences.Utype.{seq_lui}
use verilog.Riscv.Sequences.Stype.{set_stype}
use verilog.Riscv.Sequences.RoundTrip.{seq_lui-pushes}
use verilog.Riscv.Sequences.Itype.{seq_itype}
use verilog.Riscv.Sequences.Itype.Arithmetic.{seq_addi}
use verilog.Riscv.Sequences.Dispatch.Memory.{
  Width, byte, half, triple, word, double, bits, size_code, set_stype-StoresAt,
}
use verilog.Riscv.Sequences.Cycles.{cycle-lui, cycle-store}
use verilog.Riscv.Rtl.Core.{Core, Dmem, extend, data_handler, cycle, cycles}
use verilog.Riscv.Generator.{
  Generator, StypeData, sar64, sdiv64, regfile_a0, get_lui_base_imm_value, stype_address,
  stype_imm_turn, stype_data_turn,
}
use verilog.Riscv.Generator.Values.{seq_lui-imm, set_stype-imm}
use verilog.Riscv.Generator.Registers.{lui_addi-register}
use verilog.Riscv.Generator.Loads.{load_address}
use verilog.Riscv.Generator.Loads.Values.{load_address-sum}
use verilog.Riscv.Generator.Loads.Turn.{other_register, same_register, seq_lui-rd}
use verilog.Riscv.Generator.Loads.Store.{cut-at}

pub push_ref-sqr :
    (cfg : Config) (req : Transaction) (b : Bench)
    → (push_ref cfg req 0 b).1.sqr ≡ maybe_split b.sqr
unfolding push_ref
push_ref-sqr cfg req b = refl

pub seq_addi-pushes :
    (cmd : IType) (sqr : Sequencer) → (seq_addi cmd sqr).1 ≡ push_seq (seq_addi cmd sqr).0.value sqr
unfolding seq_addi seq_itype
seq_addi-pushes cmd sqr = refl

stype_address_lem : (lui : UType) (c : SType) → stype_address lui c ≡ load_address lui c.imm
unfolding stype_address load_address
stype_address_lem lui c = refl

-- The memory gets the low bits of a register, as the reference transaction has them.
data_handler-cut :
    (b : Build) (wd : Width) (x : ℕ)
    → x < 2 ^ 64
    → cut (xlen_of b) (x % 2 ^ bits wd) ≡ data_handler (size_code wd) (cut (xlen_of b) x)
unfolding data_handler
data_handler-cut rv32 byte x small = ground arith
data_handler-cut rv64 byte x small = ground arith
data_handler-cut rv32 half x small = ground arith
data_handler-cut rv64 half x small = ground arith
data_handler-cut rv32 triple x small = ground arith
data_handler-cut rv64 triple x small = ground arith
data_handler-cut rv32 word x small = ground arith
data_handler-cut rv64 word x small = ground arith
data_handler-cut rv32 double x small = ground arith
data_handler-cut rv64 double x small = ground arith

value-lt : (upper lower : ℕ) → get_lui_base_imm_value upper lower < 2 ^ 64
unfolding get_lui_base_imm_value
value-lt upper lower = ground arith

cut-nothing : (b : Build) → cut (xlen_of b) 0 ≡ 0
cut-nothing rv32 = refl
cut-nothing rv64 = refl

-- A store whose base register was filled by a LUI shows its register at the address that the
-- generators count on.
store-shows :
    (b : Build) (w : ℕ) (wd : Width) (lui : UType) (upper : ℕ) (cmd : SType) (sqr : Sequencer)
    (core : Core)
    → w ≤ 32
    → lui.imm ≡ upper % 2 ^ 20
    → core.reg_mem (cmd.rs1 % 32) ≡ extend (xlen_of b) 32 (upper % 2 ^ 20 * 2 ^ 12)
    → let c = (set_stype cmd (bits wd) sqr).0 in
      let bus = (cycle (config b w) c.value 0 core).0 in
      (bus.dmem_wr ≡ true)
      × (cut w (stype_address lui c) ≡ cut w bus.dmem_addr)
      × (bus.dmem_wr_data ≡ data_handler (size_code wd) (core.reg_mem (cmd.rs2 % 32)))
store-shows b w wd lui upper cmd sqr core narrow imm base =
    let cfg = config b w in
    let c = (set_stype cmd (bits wd) sqr).0 in
    let (stores, _, _) = set_stype-StoresAt cfg cmd sqr wd in
    let bus = cycle-store cfg c.value core cmd wd stores in
    let sum = load_address-sum b lui upper cmd.imm c.imm imm (set_stype-imm cmd wd sqr) in
    (
      ap (λ (m : Dmem). m.dmem_wr) bus,
      ap (cut w) (stype_address_lem lui c)
          ∙ cut-at w (load_address lui c.imm) _ narrow
              (ap (λ (m : Dmem). m.dmem_addr) bus ∙ (rw (base) (sym sum))),
      ap (λ (m : Dmem). m.dmem_wr_data) bus,
    )

-- In both builds with addresses of at most 32 bits, for a store of any width, on a core with x0 at 0:
-- a turn of `generate_stype_imm_lui_imm` pushes the LUI and then the store, and one reference
-- transaction, which is the write of the core when it comes to the store after the LUI.
pub stype_imm_turn-runs :
    (b : Build) (w : ℕ) (wd : Width) (pattern : ℕ) (lui : UType) (stype : SType) (g : Generator)
    (core : Core)
    → w ≤ 32
    → core.reg_mem 0 ≡ 0
    → let cfg = config b w in
      let (u, c, g') = stype_imm_turn cfg (bits wd) pattern (lui, stype, g) in
      let bus = (cycle cfg c.value 0 (cycle cfg u.value 0 core).1).0 in
      (g'.bench.sqr ≡ maybe_split (push_seq c.value (push_seq u.value g.bench.sqr)))
      × (g'.bench.ref_fifo ≡ push_back g.bench.ref_fifo g'.ref_req)
      × (g'.ref_req.wr ≡ 1)
      × (bus.dmem_wr ≡ true)
      × (g'.ref_req.wr_data ≡ bus.dmem_wr_data)
      × (g'.ref_req.addr ≡ cut w bus.dmem_addr)
unfolding stype_imm_turn
stype_imm_turn-runs b w wd pattern lui stype g core narrow x0 =
    let cfg = config b w in
    let lui' : UType = record lui { rd = regfile_a0; imm = u32 (sar64 pattern 12) } in
    let u = (seq_lui lui' g.bench.sqr).0 in
    let sqr1 = (seq_lui lui' g.bench.sqr).1 in
    let stype' : SType = record stype { imm = u32 pattern; rs1 = u.rd; rs2 = 0 } in
    let c = (set_stype stype' (bits wd) sqr1).0 in
    let sqr2 = (set_stype stype' (bits wd) sqr1).1 in
    let req : Transaction = record g.ref_req {
      wr = 1;
      rd_data = 0;
      wr_data = 0;
      addr = stype_address u c;
    } in
    let b0 : Bench = record g.bench { sqr = sqr2 } in
    let core1 = (cycle cfg u.value 0 core).1 in
    let high = extend (xlen_of b) 32 (lui'.imm % 2 ^ 20 * 2 ^ 12) in
    let regs = cycle-lui cfg lui' g.bench.sqr core in
    let rd : u.rd % 32 ≡ 1 = omega (arith, seq_lui-rd lui' g.bench.sqr) in
    let base : core1.reg_mem (u.rd % 32) ≡ high =
      rw (rd) (ap (λ f. f 1) regs ∙ same_register 1 high core.reg_mem (ground arith)) in
    let zeros : core1.reg_mem 0 ≡ 0 =
      ap (λ f. f 0) regs ∙ other_register 1 0 high core.reg_mem (ground arith) ∙ x0 in
    let (writes, place, shown) =
      store-shows b w wd u lui'.imm stype' sqr1 core1 narrow (seq_lui-imm lui' g.bench.sqr) base in
    let (_, _, second) = set_stype-StoresAt cfg stype' sqr1 wd in
    let (same, queued, _, _, _) = push_masked cfg req 0 b0 in
    let nothing =
      ap (cut (xlen_of b)) (sym (zero-mod (2 ^ bits wd)))
      ∙ data_handler-cut b wd 0 (omega arith)
      ∙ ap (data_handler (size_code wd)) (cut-nothing b ∙ sym zeros) in
    (
      push_ref-sqr cfg req b0
          ∙ ap maybe_split (second ∙ ap (push_seq c.value) (seq_lui-pushes lui' g.bench.sqr)),
      queued ∙ ap (push_back g.bench.ref_fifo) (sym same),
      ap (λ (t : Transaction). t.wr) same,
      writes,
      ap (λ (t : Transaction). t.wr_data) same ∙ nothing ∙ sym shown,
      ap (λ (t : Transaction). t.addr) same ∙ place,
    )

-- In both builds with addresses of at most 32 bits, for a store of any width and a register other
-- than x0 and the base register x1, on a core whose x1 holds what a LUI as `lui_base`, with an
-- immediate of 20 bits, leaves there: a turn of `generate_stype_data` pushes the LUI, the ADDI and
-- the store, and one reference transaction, which is the write of the core when it comes to the store
-- after the LUI and the ADDI.
pub stype_data_turn-runs :
    (b : Build) (w : ℕ) (wd : Width) (dreg pattern : ℕ) (s : StypeData) (core : Core)
    → w ≤ 32
    → dreg < 32
    → dreg ≢ 0
    → dreg ≢ 1
    → s.lui_base.rd ≡ 1
    → s.lui_base.imm < 2 ^ 20
    → core.reg_mem 1 ≡ extend (xlen_of b) 32 (s.lui_base.imm * 2 ^ 12)
    → let cfg = config b w in
      let t = stype_data_turn cfg (bits wd) dreg pattern s in
      let bus =
        (cycle cfg t.stype.value 0 (cycles cfg (t.lui_data.value ∷ t.addi.value ∷ []) core)).0 in
      (t.gen.bench.sqr
        ≡ maybe_split (
            push_seq t.stype.value
              (push_seq t.addi.value (push_seq t.lui_data.value s.gen.bench.sqr))))
      × (t.gen.bench.ref_fifo ≡ push_back s.gen.bench.ref_fifo t.gen.ref_req)
      × (t.gen.ref_req.wr ≡ 1)
      × (bus.dmem_wr ≡ true)
      × (t.gen.ref_req.wr_data ≡ bus.dmem_wr_data)
      × (t.gen.ref_req.addr ≡ cut w bus.dmem_addr)
unfolding stype_data_turn
stype_data_turn-runs b w wd dreg pattern s core narrow small not_zero not_base rd fits holds =
    let cfg = config b w in
    let n = xlen_of b in
    let lui' : UType = record s.lui_data { rd = dreg; imm = u32 (sar64 pattern 12) } in
    let u = (seq_lui lui' s.gen.bench.sqr).0 in
    let sqr1 = (seq_lui lui' s.gen.bench.sqr).1 in
    let addi' : IType = record s.addi { rd = dreg; rs1 = dreg; imm = u32 pattern } in
    let i = (seq_addi addi' sqr1).0 in
    let sqr2 = (seq_addi addi' sqr1).1 in
    let aligned = u32 (sdiv64 pattern (n / 8) * (n / 8)) in
    let stype' : SType = record s.stype { imm = aligned; rs1 = s.lui_base.rd; rs2 = dreg } in
    let c = (set_stype stype' (bits wd) sqr2).0 in
    let sqr3 = (set_stype stype' (bits wd) sqr2).1 in
    let value = get_lui_base_imm_value (to_long u.imm) (to_long i.imm) in
    let req : Transaction = record s.gen.ref_req {
      wr = 1;
      rd_data = 0;
      wr_data = value & c.datamask;
      addr = stype_address s.lui_base c;
    } in
    let b0 : Bench = record s.gen.bench { sqr = sqr3 } in
    let core2 = cycles cfg (u.value ∷ i.value ∷ []) core in
    let at = lui_addi-register b w dreg lui' addi' s.gen.bench.sqr sqr1 core small refl refl refl in
    let rs1 : s.lui_base.rd % 32 ≡ 1 = omega arith in
    let rs2 : dreg % 32 ≡ dreg = omega arith in
    let upper : s.lui_base.imm ≡ s.lui_base.imm % 2 ^ 20 = omega arith in
    let base : core2.reg_mem (s.lui_base.rd % 32) ≡ extend n 32 (s.lui_base.imm % 2 ^ 20 * 2 ^ 12) =
      ap core2.reg_mem rs1
      ∙ at 1
      ∙ other_register dreg 1 _ core.reg_mem (λ e. not_base (sym e))
      ∙ holds
      ∙ ap (λ k. extend n 32 (k * 2 ^ 12)) upper in
    let filled : cut n value ≡ core2.reg_mem (dreg % 32) =
      sym (ap core2.reg_mem rs2 ∙ at dreg ∙ same_register dreg _ core.reg_mem not_zero) in
    let (writes, place, shown) =
      store-shows b w wd s.lui_base s.lui_base.imm stype' sqr2 core2 narrow upper base in
    let (_, mask, third) = set_stype-StoresAt cfg stype' sqr2 wd in
    let (same, queued, _, _, _) = push_masked cfg req 0 b0 in
    let second = seq_addi-pushes addi' sqr1 in
    let first = seq_lui-pushes lui' s.gen.bench.sqr in
    (
      push_ref-sqr cfg req b0
          ∙ ap maybe_split (third ∙ ap (push_seq c.value) (second ∙ ap (push_seq i.value) first)),
      queued ∙ ap (push_back s.gen.bench.ref_fifo) (sym same),
      ap (λ (t : Transaction). t.wr) same,
      writes,
      ap (λ (t : Transaction). t.wr_data) same
          ∙ ap (cut n) (ap (λ m. value & m) mask ∙ and_low (bits wd) value)
          ∙ data_handler-cut b wd value (value-lt (to_long u.imm) (to_long i.imm))
          ∙ ap (data_handler (size_code wd)) filled
          ∙ sym shown,
      ap (λ (t : Transaction). t.addr) same ∙ place,
    )
