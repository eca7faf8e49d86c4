-- ===== src/Riscv/Generator/Rtype/Turn.antt =====
-- generator.cpp: what a turn of `generate_rtype` leaves in the queues, against the core.
use verilog.Common.{
  ℕ, ◌*◌, ◌/◌, ◌%◌, ◌^◌, ◌-◌, ◌<◌, ◌≡◌, refl, sym, ap, ◌∙◌, Bool, true, ◌&&◌, truth, ◌==◌,
  Bool-cases, inl, inr, if◌then◌else◌, u32, to_long, some, [], ◌∷◌, push_back, arith,
}
use verilog.Riscv.Isa.{Config, Build, xlen_of, config}
use verilog.Riscv.Commands.{UType, SType, IType, RType}
use verilog.Riscv.Sequencer.{Sequencer, push_seq}
use verilog.Riscv.Transactions.{Transaction, maybe_split}
use verilog.Riscv.Transactions.Queues.{cut, push_masked}
use verilog.Riscv.Sequences.Utype.{seq_lui}
use verilog.Riscv.Sequences.Rtype.{set_rtype}
use verilog.Riscv.Sequences.Itype.Arithmetic.{seq_addi}
use verilog.Riscv.Sequences.Dispatch.{AluOp, code, has_word_form}
use verilog.Riscv.Sequences.Dispatch.Registers.{set_rtype-ComputesR, set_rtype-rd}
use verilog.Riscv.Sequences.Cycles.{with_register, cycle-register}
use verilog.Riscv.Rtl.Alu.{alu_dataflow}
use verilog.Riscv.Rtl.Core.{Core, alu_res_signed, cycle, cycles}
use verilog.Riscv.Generator.{sign_extend, get_lui_base_imm_value}
use verilog.Riscv.Generator.Longs.{reads_sign, Fits}
use verilog.Riscv.Generator.Registers.{
  with_register-zero, cut-if, cut-cut, register_value-lt, lui_addi-register, two_registers,
  cut-either, with_register-ap,
}
use verilog.Riscv.Generator.Stores.{whole_store, offset-lt, set_stype-shows}
use verilog.Riscv.Generator.Turns.{seq_addi-pushes, push_ref-sqr}
use verilog.Riscv.Sequences.RoundTrip.{seq_lui-pushes}
use verilog.Riscv.Generator.Rtype.{
  RtypeArithmetic, RtypeTurn, RtypePattern, rtype_value, rtype_reference, rtype_commands,
  rtype_turn,
}
use verilog.Riscv.Generator.Rtype.Values.{rtype_value-computed}

-- The core after the commands of a turn, the store left out.
abbrev pub after_commands : Config → RtypeArithmetic → Core → Core
after_commands cfg t core =
    cycles cfg
      (t.lui_rs1.value ∷ t.addi_rs1.value ∷ t.lui_rs2.value ∷ t.addi_rs2.value ∷ t.rtype.value ∷ [])
      core

module _ (b : Build) (w : ℕ) (rand : ℕ → ℕ) (o : AluOp) (op32 reg1 reg2 i : ℕ) (p : RtypePattern)
    (s : RtypeArithmetic) where
  -- The turn's arguments and its commands, as `rtype_commands` makes them.
  abbrev asked : RtypeTurn
  asked = record { opcode = code o; op32 = op32; reg_rs1 = reg1; reg_rs2 = reg2; i = i }

  abbrev word : Bool
  word = truth op32 && has_word_form o

  abbrev lui1 : UType
  lui1 = record s.lui_rs1 { rd = reg1; imm = u32 p.patterns_20_rs1 }

  abbrev addi1 : IType
  addi1 = record s.addi_rs1 { rd = reg1; rs1 = reg1; imm = u32 p.patterns_12_rs1 }

  abbrev lui2 : UType
  lui2 = record s.lui_rs2 { rd = reg2; imm = u32 p.patterns_20_rs2 }

  abbrev addi2 : IType
  addi2 = record s.addi_rs2 { rd = reg2; rs1 = reg2; imm = u32 p.patterns_12_rs2 }

  abbrev rtype' : RType
  rtype' = record s.rtype { rd = i % 32; rs1 = reg1; rs2 = reg2 }

  abbrev sqr1 : Sequencer
  sqr1 = (seq_lui lui1 s.gen.bench.sqr).1

  abbrev sqr2 : Sequencer
  sqr2 = (seq_addi addi1 sqr1).1

  abbrev sqr3 : Sequencer
  sqr3 = (seq_lui lui2 sqr2).1

  abbrev sqr4 : Sequencer
  sqr4 = (seq_addi addi2 sqr3).1

  abbrev sqr5 : Sequencer
  sqr5 = (set_rtype rtype' (code o) op32 sqr4).1

  abbrev made : RtypeArithmetic
  made = rtype_commands (config b w) rand asked p s

  abbrev store' : SType
  store' = record s.stype {
    imm = rand s.calls % 0x700 / (xlen_of b / 8) * (xlen_of b / 8);
    rs1 = 0;
    rs2 = (set_rtype rtype' (code o) op32 sqr4).0.rd;
  }

  -- The commands go onto the sequencer in the order in which the core gets them.
  rtype_commands-pushes :
      made.gen.bench.sqr
      ≡ push_seq made.stype.value (
          push_seq made.rtype.value (
            push_seq made.addi_rs2.value (
              push_seq made.lui_rs2.value
                (push_seq made.addi_rs1.value (push_seq made.lui_rs1.value s.gen.bench.sqr)))))
  unfolding rtype_commands
  rtype_commands-pushes =
      let first =
        seq_addi-pushes addi1 sqr1
        ∙ ap (push_seq made.addi_rs1.value) (seq_lui-pushes lui1 s.gen.bench.sqr) in
      let second =
        seq_addi-pushes addi2 sqr3
        ∙ ap (push_seq made.addi_rs2.value)
            (seq_lui-pushes lui2 sqr2 ∙ ap (push_seq made.lui_rs2.value) first) in
      let third = (set_rtype-ComputesR (config b w) rtype' op32 sqr4 o).1 in
      (whole_store b w store' sqr5).2
      ∙ ap (push_seq made.stype.value) (third ∙ ap (push_seq made.rtype.value) second)

  module _ (core : Core) (small1 : reg1 < 32) (small2 : reg2 < 32) (x0 : core.reg_mem 0 ≡ 0) where
    abbrev loaded : Core
    loaded =
        cycles (config b w)
          (made.lui_rs1.value ∷ made.addi_rs1.value ∷ made.lui_rs2.value ∷ made.addi_rs2.value ∷ [])
          core

    -- What the core computes for the command.
    abbrev computed : ℕ
    computed =
        alu_res_signed (xlen_of b) word
          (alu_dataflow (xlen_of b) (code o) (cut (xlen_of b) made.rs1) (cut (xlen_of b) made.rs2))

    loaded-registers :
        (loaded.reg_mem 0 ≡ 0)
        × (loaded.reg_mem reg1 ≡ cut (xlen_of b) made.rs1)
        × (loaded.reg_mem reg2 ≡ cut (xlen_of b) made.rs2)
    unfolding rtype_commands cycles
    loaded-registers =
        let n = xlen_of b in
        let value1 =
          get_lui_base_imm_value (to_long made.lui_rs1.imm) (to_long made.addi_rs1.imm) in
        let value2 =
          get_lui_base_imm_value (to_long made.lui_rs2.imm) (to_long made.addi_rs2.imm) in
        let core2 = cycles (config b w) (made.lui_rs1.value ∷ made.addi_rs1.value ∷ []) core in
        let first =
          lui_addi-register b w reg1 lui1 addi1 s.gen.bench.sqr sqr1 core small1 refl refl refl in
        let second = lui_addi-register b w reg2 lui2 addi2 sqr2 sqr3 core2 small2 refl refl refl in
        let (zeros, at1, at2) =
          two_registers reg1 reg2 (cut n value1) (cut n value2) core.reg_mem loaded.reg_mem x0
            (λ r. second r ∙ with_register-ap reg2 (cut n value2) core2.reg_mem _ first r) in
        (
          zeros,
          at1 ∙ cut-either b (truth reg1 && (reg1 == reg2)) (truth reg2) (truth reg1) value2 value1,
          at2 ∙ cut-if b (truth reg2) value2,
        )

    -- The destination register of the command, at the store.
    after_commands-register :
        let core5 = after_commands (config b w) made core in
        (core5.reg_mem 0 ≡ 0) × (core5.reg_mem (i % 32) ≡ (if truth (i % 32) then computed else 0))
    unfolding rtype_commands cycles
    after_commands-register =
        let (zeros, at1, at2) = loaded-registers in
        let (computes, _) = set_rtype-ComputesR (config b w) rtype' op32 sqr4 o in
        let rd : i % 32 % 32 ≡ i % 32 = omega arith in
        let rs1 : reg1 % 32 ≡ reg1 = omega arith in
        let rs2 : reg2 % 32 ≡ reg2 = omega arith in
        let written : (after_commands (config b w) made core).reg_mem
            ≡ with_register (i % 32) computed loaded.reg_mem =
          cycle-register (config b w) made.rtype.value loaded rtype' o word computes
          ∙ (rw (rd, rs1, rs2, at1, at2) refl) in
        let (zeros', holds) = with_register-zero (i % 32) computed loaded.reg_mem zeros in
        (ap (λ f. f 0) written ∙ zeros', ap (λ f. f (i % 32)) written ∙ holds)

  -- The turn goes on, with the value that the `switch` computes.
  rtype_turn-value :
      (v : ℕ)
      → rtype_value (code o) op32 (2 ^ xlen_of b - 1) made.shift_amount made.rs1 made.rs2 ≡ some v
      → rtype_turn (config b w) rand asked p s ≡ rtype_reference (config b w) made (some v)
  unfolding rtype_turn rtype_commands
  rtype_turn-value v e =
      let mask = (whole_store b w store' sqr5).1 in
      ap (rtype_reference (config b w) made)
        (ap (λ n. rtype_value (code o) op32 n made.shift_amount made.rs1 made.rs2) mask ∙ e)

  sources-lt : (made.rs1 < 2 ^ 64) × (made.rs2 < 2 ^ 64)
  unfolding rtype_commands
  sources-lt =
      let first = register_value-lt reg1 made.lui_rs1 made.addi_rs1 in
      let second = register_value-lt reg2 made.lui_rs2 made.addi_rs2 in
      (
        elim (Bool-cases (truth reg1 && (reg1 == reg2))) [
          | inl e ↦ rw (e) second
          | inr e ↦ rw (e) first
        ],
        second,
      )

  -- For each operation, in both builds, where the upper bits of the source values are copies of
  -- their registers' signs if the operation is SRA, SLT or SLTU: a turn pushes LUI and ADDI for each
  -- source register, the command and the store, and a write transaction that is the write of the
  -- core, which has x0 at 0, when it comes to the store.
  pub rtype_turn-runs :
      (core : Core)
      → reg1 < 32
      → reg2 < 32
      → core.reg_mem 0 ≡ 0
      → (reads_sign o ≡ true → Fits b made.rs1 × Fits b made.rs2)
      → let cfg = config b w in
        let (goes_on, t) = rtype_turn cfg rand asked p s in
        let bus = (cycle cfg t.stype.value 0 (after_commands cfg t core)).0 in
        (goes_on ≡ true)
        × (t.gen.bench.sqr
            ≡ maybe_split (
                push_seq t.stype.value (
                  push_seq t.rtype.value (
                    push_seq t.addi_rs2.value (
                      push_seq t.lui_rs2.value
                        (push_seq t.addi_rs1.value (push_seq t.lui_rs1.value s.gen.bench.sqr)))))))
        × (t.gen.bench.ref_fifo ≡ push_back s.gen.bench.ref_fifo t.gen.ref_req)
        × (t.gen.ref_req.wr ≡ 1)
        × (bus.dmem_wr ≡ true)
        × (t.gen.ref_req.wr_data ≡ bus.dmem_wr_data)
        × (t.gen.ref_req.addr ≡ cut w bus.dmem_addr)
  unfolding rtype_commands rtype_reference
  rtype_turn-runs core small1 small2 x0 fits =
      let cfg = config b w in
      let n = xlen_of b in
      let (long1, long2) = sources-lt in
      let (v, (expected, value)) =
        rtype_value-computed b o op32 made.rs1 made.rs2 long1 long2 fits in
      let req : Transaction = record made.gen.ref_req {
        wr = 1;
        rd_data = 0;
        addr = sign_extend (to_long made.stype.imm) 12;
        wr_data = if truth made.rtype.rd then v else 0;
      } in
      let (same, queued, _, _, _) = push_masked cfg req 0 made.gen.bench in
      let (zeros, shown) = after_commands-register core small1 small2 x0 in
      let (_, _, place, wr, addr, shows) =
        set_stype-shows b w store' sqr5 (after_commands cfg made core) refl
          (offset-lt b (rand s.calls)) zeros in
      let rd : made.rtype.rd ≡ i % 32 = omega (arith, set_rtype-rd rtype' op32 sqr4 o) in
      let rd' : i % 32 ≡ made.rtype.rd % 32 = omega (arith, rd) in
      let equal : cut n (if truth made.rtype.rd then v else 0) ≡ _ =
        ap (λ r. cut n (if truth r then v else 0)) rd
        ∙ sym (cut-cut b (if truth (i % 32) then v else 0))
        ∙ ap (cut n) (sym (cut-if b (truth (i % 32)) v))
        ∙ ap (λ m. cut n (if truth (i % 32) then m else 0)) value
        ∙ ap (cut n) (sym shown)
        ∙ ap (λ r. cut n ((after_commands cfg made core).reg_mem r)) rd'
        ∙ sym shows in
      rw (rtype_turn-value v expected) (
        refl,
        push_ref-sqr cfg req made.gen.bench ∙ ap maybe_split rtype_commands-pushes,
        queued ∙ ap (push_back s.gen.bench.ref_fifo) (sym same),
        ap (λ (t : Transaction). t.wr) same,
        wr,
        ap (λ (t : Transaction). t.wr_data) same ∙ equal,
        ap (λ (t : Transaction). t.addr) same ∙ ap (cut w) (place ∙ sym addr),
      )
