-- ===== src/Riscv/Generator/Arithmetic/Turn.antt =====
-- generator.cpp: what a turn of `generate_itype_arithmetic` leaves in the queues, against the core.
use verilog.Common.{
  ℕ, ◌+◌, ◌*◌, ◌/◌, ◌%◌, ◌^◌, ◌-◌, ◌<◌, ◌≡◌, refl, sym, ap, ◌∙◌, Bool, true, ◌&&◌, truth,
  if◌then◌else◌, u32, to_long, some, [], ◌∷◌, push_back, arith,
}
use verilog.Riscv.Isa.{Config, Build, xlen_of, config}
use verilog.Riscv.Commands.{UType, SType, IType}
use verilog.Riscv.Sequencer.{Sequencer, push_seq}
use verilog.Riscv.Transactions.{Transaction, maybe_split}
use verilog.Riscv.Transactions.Queues.{cut, push_masked}
use verilog.Riscv.Sequences.Utype.{seq_lui}
use verilog.Riscv.Sequences.Itype.Arithmetic.{seq_addi, set_itype_arithmetic}
use verilog.Riscv.Sequences.Dispatch.{AluOp, code, has_word_form}
use verilog.Riscv.Sequences.Dispatch.Immediates.{
  has_immediate, set_itype_arithmetic-ComputesI, set_itype_arithmetic-fields,
}
use verilog.Riscv.Sequences.Cycles.{with_register, cycle-immediate}
use verilog.Riscv.Rtl.Decode.{decode}
use verilog.Riscv.Rtl.Alu.{alu_dataflow}
use verilog.Riscv.Rtl.Core.{Core, extend, alu_res_signed, cycle, cycles}
use verilog.Riscv.Generator.{queue_ref, register_value, get_lui_base_imm_value}
use verilog.Riscv.Generator.Longs.{reads_sign, Fits}
use verilog.Riscv.Generator.Registers.{
  with_register-zero, cut-if, cut-cut, register_value-lt, lui_addi-register,
}
use verilog.Riscv.Generator.Stores.{whole_store, offset-lt, set_stype-shows}
use verilog.Riscv.Generator.Turns.{seq_addi-pushes, push_ref-sqr}
use verilog.Riscv.Sequences.RoundTrip.{seq_lui-pushes}
use verilog.Riscv.Generator.Arithmetic.{
  ItypeArithmetic, ItypeTurn, itype_value, itype_reference, itype_commands, itype_turn,
}
use verilog.Riscv.Generator.Arithmetic.Values.{itype_value-computed}

-- The core after the commands of a turn, the store left out.
abbrev pub after_commands : Config → ItypeArithmetic → Core → Core
after_commands cfg t core = cycles cfg (t.lui_base.value ∷ t.addi.value ∷ t.itype.value ∷ []) core

module _ (b : Build) (w : ℕ) (rand : ℕ → ℕ) (o : AluOp) (op32 sreg dreg pattern : ℕ)
    (s : ItypeArithmetic) (h : has_immediate o ≡ true) where
  -- The turn's arguments and its commands, as `itype_commands` makes them.
  abbrev asked : ItypeTurn
  asked = record { opcode = code o; op32 = op32; sreg = sreg; dreg = dreg }

  abbrev word : Bool
  word = truth op32 && has_word_form o

  abbrev lui' : UType
  lui' = record s.lui_base { rd = sreg; imm = u32 (rand s.calls) }

  abbrev addi' : IType
  addi' = record s.addi { rd = sreg; rs1 = sreg; imm = u32 (rand (s.calls + 1)) }

  abbrev itype' : IType
  itype' = record s.itype { rd = dreg; rs1 = sreg; imm = u32 pattern }

  abbrev sqr1 : Sequencer
  sqr1 = (seq_lui lui' s.gen.bench.sqr).1

  abbrev sqr2 : Sequencer
  sqr2 = (seq_addi addi' sqr1).1

  abbrev itype : IType
  itype = (set_itype_arithmetic (config b w) itype' (code o) op32 sqr2).0

  abbrev sqr3 : Sequencer
  sqr3 = (set_itype_arithmetic (config b w) itype' (code o) op32 sqr2).1

  abbrev store' : SType
  store' = record s.stype {
    imm = rand (s.calls + 2) % 0x700 / (xlen_of b / 8) * (xlen_of b / 8);
    rs1 = 0;
    rs2 = itype.rd;
  }

  abbrev made : ItypeArithmetic
  made = itype_commands (config b w) rand asked pattern s

  abbrev base : ℕ
  base = register_value sreg made.lui_base made.addi

  -- The commands go onto the sequencer in the order in which the core gets them.
  itype_commands-pushes :
      made.gen.bench.sqr
      ≡ push_seq made.stype.value (
          push_seq made.itype.value
            (push_seq made.addi.value (push_seq made.lui_base.value s.gen.bench.sqr)))
  unfolding itype_commands
  itype_commands-pushes =
      let first = seq_lui-pushes lui' s.gen.bench.sqr in
      let second = seq_addi-pushes addi' sqr1 in
      let third = (set_itype_arithmetic-ComputesI (config b w) itype' op32 sqr2 o h).1 in
      (whole_store b w store' sqr3).2
      ∙ ap (push_seq made.stype.value)
          (third ∙ ap (push_seq made.itype.value) (second ∙ ap (push_seq made.addi.value) first))

  module _ (core : Core) (small_s : sreg < 32) (small_d : dreg < 32) (x0 : core.reg_mem 0 ≡ 0) where
    abbrev loaded : Core
    loaded = cycles (config b w) (made.lui_base.value ∷ made.addi.value ∷ []) core

    -- What the core computes for the command.
    abbrev computed : ℕ
    computed = alu_res_signed (xlen_of b) word (
        alu_dataflow (xlen_of b) (code o) (cut (xlen_of b) base)
          (extend (xlen_of b) 32 (decode made.itype.value).immediate))

    loaded-register : (loaded.reg_mem 0 ≡ 0) × (loaded.reg_mem sreg ≡ cut (xlen_of b) base)
    unfolding itype_commands
    loaded-register =
        let value =
          cut (xlen_of b)
            (get_lui_base_imm_value (to_long made.lui_base.imm) (to_long made.addi.imm)) in
        let at =
          lui_addi-register b w sreg lui' addi' s.gen.bench.sqr sqr1 core small_s refl refl refl in
        let (zeros, holds) = with_register-zero sreg value core.reg_mem x0 in
        (at 0 ∙ zeros, at sreg ∙ holds ∙ cut-if b (truth sreg) _)

    -- The destination register of the command, at the store.
    after_commands-register :
        let core3 = after_commands (config b w) made core in
        (core3.reg_mem 0 ≡ 0) × (core3.reg_mem dreg ≡ (if truth dreg then computed else 0))
    unfolding itype_commands cycles
    after_commands-register =
        let (zeros, source) = loaded-register in
        let (computes, _) = set_itype_arithmetic-ComputesI (config b w) itype' op32 sqr2 o h in
        let rd : dreg % 32 ≡ dreg = omega arith in
        let rs1 : sreg % 32 ≡ sreg = omega arith in
        let written : (after_commands (config b w) made core).reg_mem
            ≡ with_register dreg computed loaded.reg_mem =
          cycle-immediate (config b w) itype.value loaded itype' o word computes
          ∙ (rw (rd, rs1, source) refl) in
        let (zeros', holds) = with_register-zero dreg computed loaded.reg_mem zeros in
        (ap (λ f. f 0) written ∙ zeros', ap (λ f. f dreg) written ∙ holds)

  -- The turn goes on, with the value that the `switch` computes.
  itype_turn-value :
      (v : ℕ)
      → itype_value (code o) op32 (2 ^ xlen_of b - 1) itype.imm base ≡ some v
      → let req : Transaction = record made.gen.ref_req { wr_data = if truth dreg then v else 0 } in
        itype_turn (config b w) rand asked pattern s
        ≡ (true, record made { gen = queue_ref (config b w) (record made.gen { ref_req = req }) })
  unfolding itype_turn itype_commands itype_reference
  itype_turn-value v e =
      let mask = (whole_store b w store' sqr3).1 in
      ap (itype_reference (config b w) dreg made)
        (ap (λ n. itype_value (code o) op32 n itype.imm base) mask ∙ e)

  -- For an operation that has an immediate form, in both builds, where the upper bits of the source
  -- value are copies of the register's sign if the operation reads them: a turn pushes LUI, ADDI,
  -- the command and the store, and a write transaction that is the write of the core, which has x0
  -- at 0, when it comes to the store.
  pub itype_turn-runs :
      (core : Core)
      → sreg < 32
      → dreg < 32
      → core.reg_mem 0 ≡ 0
      → (reads_sign o ≡ true → Fits b base)
      → let cfg = config b w in
        let (goes_on, t) = itype_turn cfg rand asked pattern s in
        let bus = (cycle cfg t.stype.value 0 (after_commands cfg t core)).0 in
        (goes_on ≡ true)
        × (t.gen.bench.sqr
            ≡ maybe_split (
                push_seq t.stype.value (
                  push_seq t.itype.value
                    (push_seq t.addi.value (push_seq t.lui_base.value s.gen.bench.sqr)))))
        × (t.gen.bench.ref_fifo ≡ push_back s.gen.bench.ref_fifo t.gen.ref_req)
        × (t.gen.ref_req.wr ≡ 1)
        × (bus.dmem_wr ≡ true)
        × (t.gen.ref_req.wr_data ≡ bus.dmem_wr_data)
        × (t.gen.ref_req.addr ≡ cut w bus.dmem_addr)
  unfolding itype_commands
  itype_turn-runs core small_s small_d x0 fits =
      let cfg = config b w in
      let (v, (expected, value)) =
        itype_value-computed b w o op32 base itype' sqr2 h
          (register_value-lt sreg made.lui_base made.addi) fits in
      let req : Transaction = record made.gen.ref_req { wr_data = if truth dreg then v else 0 } in
      let (same, queued, _, _, _) = push_masked cfg req 0 made.gen.bench in
      let (zeros, shown) = after_commands-register core small_s small_d x0 in
      let (_, _, place, wr, addr, shows) =
        set_stype-shows b w store' sqr3 (after_commands cfg made core) refl
          (offset-lt b (rand (s.calls + 2))) zeros in
      let (rd, _) = set_itype_arithmetic-fields cfg itype' op32 sqr2 o h in
      let rd' : dreg ≡ itype.rd % 32 = omega (arith, rd) in
      let n = xlen_of b in
      let equal : cut n (if truth dreg then v else 0) ≡ _ =
        sym (cut-cut b (if truth dreg then v else 0))
        ∙ ap (cut n) (sym (cut-if b (truth dreg) v))
        ∙ ap (λ m. cut n (if truth dreg then m else 0)) value
        ∙ ap (cut n) (sym shown)
        ∙ ap (λ r. cut n ((after_commands cfg made core).reg_mem r)) rd'
        ∙ sym shows in
      rw (itype_turn-value v expected) (
        refl,
        push_ref-sqr cfg req made.gen.bench ∙ ap maybe_split itype_commands-pushes,
        queued ∙ ap (push_back s.gen.bench.ref_fifo) (sym same),
        ap (λ (t : Transaction). t.wr) same,
        wr,
        ap (λ (t : Transaction). t.wr_data) same ∙ equal,
        ap (λ (t : Transaction). t.addr) same ∙ ap (cut w) (place ∙ sym addr),
      )
