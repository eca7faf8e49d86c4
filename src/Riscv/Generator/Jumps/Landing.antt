-- ===== src/Riscv/Generator/Jumps/Landing.antt =====
-- generator.cpp: where the core lands when it executes what `generate_jal_forward` queues.
use mathlib.Core.List.{append_assoc, append-nil}
use verilog.Common.{
  ℕ, zero, suc, ◌+◌, ◌-◌, ◌*◌, ◌/◌, ◌%◌, ◌^◌, ◌<◌, ◌≡◌, ◌≢◌, refl, sym, ap, ◌∙◌, List, [], ◌∷◌,
  ◌++◌, length, true, false, truth, if◌then◌else◌, ◌>>◌, u32, u64, to_long, push_back,
  append-push_back, arith,
}
use verilog.Riscv.Isa.{Config, Build, rv32, rv64, xlen_of, config, op_alu_add}
use verilog.Riscv.Commands.{UType, SType}
use verilog.Riscv.Sequencer.{Sequencer, push_seq}
use verilog.Riscv.Transactions.{Transaction, Bench, push_ref}
use verilog.Riscv.Transactions.Queues.{cut, push_masked}
use verilog.Riscv.Sequences.Utype.{seq_jal}
use verilog.Riscv.Sequences.Stype.{set_stype}
use verilog.Riscv.Sequences.RoundTrip.{sext32, seq_jal-pushes}
use verilog.Riscv.Sequences.Cycles.{with_register, cycle-jal}
use verilog.Riscv.Rtl.Decode.{decode}
use verilog.Riscv.Rtl.Control.{control}
use verilog.Riscv.Rtl.Alu.{alu_dataflow}
use verilog.Riscv.Rtl.Core.{Core, extend, cycle}
use verilog.Riscv.Generator.{sign_extend}
use verilog.Riscv.Generator.Registers.{with_register-zero, cut-if, cut-cut}
use verilog.Riscv.Generator.Stores.{whole_store, offset-lt, set_stype-shows}
use verilog.Riscv.Generator.Jumps.{forward_offset, fill, JalForward, jal_forward_commands}
use verilog.Riscv.Generator.Jumps.Bounds.{InMemory, forward_offset-fits, jal_forward_commands-pc}

-- Commands that the core takes for stores; the zero that ends a phase is none.
abbrev pub Stores : Config → List ℕ → Type 0
Stores cfg [] = Unit
Stores cfg (v ∷ vs) =
    (v ≢ 0)
    × ((decode v).illegal ≡ false)
    × ((control cfg (decode v)).dmem_req ≡ true)
    × ((control cfg (decode v)).dmem_wr ≡ true)
    × Stores cfg vs

-- `after` holds `n` stores behind the commands of `before`.
abbrev pub Adds : Config → ℕ → List ℕ → List ℕ → Type 0
Adds cfg n before after =
    (more : List ℕ) × ((after ≡ before ++ more) × ((length more ≡ n) × Stores cfg more))

-- The core does not take the zero command for a store.
no_store : (cfg : Config) (v : ℕ) → (control cfg (decode v)).dmem_wr ≡ true → v ≢ 0
unfolding control decode verilog.Riscv.Rtl.Decode.kind
no_store cfg v writes none =
    let zero_writes : false ≡ true =
      ap (λ n. (control cfg (decode n)).dmem_wr) (sym none) ∙ writes in
    ground (arith, zero_writes)

pub push_seq-fifo : (v : ℕ) (sqr : Sequencer) → (push_seq v sqr).sqr_fifo ≡ push_back sqr.sqr_fifo v
unfolding push_seq
push_seq-fifo v sqr = refl

pub fill-Adds :
    (b : Build) (w n : ℕ) (cmd : SType) (sqr : Sequencer)
    → Adds (config b w) n sqr.sqr_fifo (fill (config b w) n cmd sqr).1.sqr_fifo
unfolding fill
fill-Adds b w zero cmd sqr = ([], (sym (append-nil sqr.sqr_fifo), (refl, tt)))
fill-Adds b w (suc n) cmd sqr =
    let c = (set_stype cmd (xlen_of b) sqr).0 in
    let sqr1 = (set_stype cmd (xlen_of b) sqr).1 in
    let (more, (added, (count, stores))) = fill-Adds b w n c sqr1 in
    let ((req, wr, _, _, _, legal, _, _, _, _, _), _, pushed, _) = whole_store b w cmd sqr in
    let fifo : sqr1.sqr_fifo ≡ push_back sqr.sqr_fifo c.value =
      ap (λ (q : Sequencer). q.sqr_fifo) pushed ∙ push_seq-fifo c.value sqr in
    (
      c.value ∷ more,
      (
        added ∙ ap (λ q. q ++ more) fifo ∙ append-push_back sqr.sqr_fifo c.value more,
        (ap suc count, (no_store (config b w) c.value wr, legal, req, wr, stores)),
      ),
    )

pub push_ref-quiet :
    (cfg : Config) (req : Transaction) (b : Bench) → (push_ref cfg req 1 b).1.sqr ≡ b.sqr
unfolding push_ref
push_ref-quiet cfg req b = refl

-- The place to which the core jumps.
landing :
    (b : Build) (pc offset : ℕ)
    → offset % 4 ≡ 0
    → pc % 4 ≡ 0
    → pc + offset < 2 ^ 20
    → u32 (
          alu_dataflow
            (xlen_of b)
            op_alu_add
            pc
            (extend (xlen_of b) 32 (sext32 21 ((offset >> 1) * 2))))
        / 2
        * 2
      ≡ pc + offset
unfolding alu_dataflow
landing rv32 pc offset four place small = ground arith
landing rv64 pc offset four place small = ground arith

link : (b : Build) (pc : ℕ) → pc < 2 ^ 20 → u32 (pc + 4) ≡ cut (xlen_of b) (u64 (pc + 4))
link rv32 pc small = ground arith
link rv64 pc small = ground arith

module _ (b : Build) (w : ℕ) (rand : ℕ → ℕ) (dreg pattern : ℕ) (s : JalForward) (core : Core)
    (within : InMemory s.pc s.max_jump) where
  abbrev made : JalForward
  made = jal_forward_commands (config b w) rand dreg pattern s

  abbrev offset : ℕ
  offset = forward_offset pattern s.max_jump

  abbrev jal' : UType
  jal' = record s.jal { rd = dreg; imm = offset >> 1 }

  abbrev jal : UType
  jal = (seq_jal jal' s.gen.bench.sqr).0

  abbrev sqr1 : Sequencer
  sqr1 = (seq_jal jal' s.gen.bench.sqr).1

  abbrev sqr2 : Sequencer
  sqr2 = (fill (config b w) (offset / 4 - 1) s.dummy_stype sqr1).1

  abbrev store' : SType
  store' = record s.stype {
    imm = rand s.calls % 0x700 / (xlen_of b / 8) * (xlen_of b / 8);
    rs1 = 0;
    rs2 = dreg;
  }

  -- The jump, what it skips and the store, in the queue.
  jal_forward_commands-queue :
      (skipped : List ℕ) × ((made.gen.bench.sqr.sqr_fifo
          ≡ s.gen.bench.sqr.sqr_fifo ++ (made.jal.value ∷ (skipped ++ (made.stype.value ∷ []))))
        × ((length skipped ≡ offset / 4 - 1) × Stores (config b w) skipped))
  unfolding jal_forward_commands
  jal_forward_commands-queue =
      let (skipped, (added, (count, stores))) = fill-Adds b w (offset / 4 - 1) s.dummy_stype sqr1 in
      let store = (set_stype store' (xlen_of b) sqr2).0 in
      let (_, _, pushed, _) = whole_store b w store' sqr2 in
      let fifo = s.gen.bench.sqr.sqr_fifo in
      let last : (set_stype store' (xlen_of b) sqr2).1.sqr_fifo
          ≡ push_back sqr2.sqr_fifo store.value =
        ap (λ (q : Sequencer). q.sqr_fifo) pushed ∙ push_seq-fifo store.value sqr2 in
      let first : sqr1.sqr_fifo ≡ push_back fifo jal.value =
        ap (λ (q : Sequencer). q.sqr_fifo) (seq_jal-pushes jal' s.gen.bench.sqr)
        ∙ push_seq-fifo jal.value s.gen.bench.sqr in
      (
        skipped,
        (
          ap (λ (q : Sequencer). q.sqr_fifo) (push_ref-quiet (config b w) _ _)
              ∙ last
              ∙ ap (λ q. push_back q store.value) (added ∙ ap (λ q. q ++ skipped) first)
              ∙ append_assoc (push_back fifo jal.value) skipped (store.value ∷ [])
              ∙ append-push_back fifo jal.value (skipped ++ (store.value ∷ [])),
          (count, stores),
        ),
      )

  -- The jump itself.
  jal_forward_commands-jump :
      core.pc ≡ s.pc
      → let landed = (cycle (config b w) made.jal.value 0 core).1 in
        (landed.pc ≡ s.pc + offset)
        × (landed.reg_mem
            ≡ with_register (dreg % 32) (cut (xlen_of b) (u64 (s.pc + 4))) core.reg_mem)
  unfolding jal_forward_commands
  jal_forward_commands-jump at =
      let (goes, links) = cycle-jal (config b w) jal' s.gen.bench.sqr core in
      let (four, least, fits) = forward_offset-fits pattern s.pc s.max_jump within in
      let (four', below, _) = within in
      (
        goes ∙ (rw (at) (landing b s.pc offset four four' (omega arith))),
        links
            ∙ (rw (at)
                (ap (λ n. with_register (dreg % 32) n core.reg_mem) (link b s.pc (omega arith)))),
      )

  -- From a place in the instruction memory, in both builds and for any register: the commands of a
  -- turn of `generate_jal_forward` are the jump, stores that are to be skipped, and the store. The
  -- core, at the counted pc and with x0 at 0, jumps from the first to the last of them, after which
  -- the pc is counted again, and there it writes as the one reference transaction says.
  pub jal_forward_commands-lands :
      core.pc ≡ s.pc
      → dreg < 32
      → core.reg_mem 0 ≡ 0
      → let landed = (cycle (config b w) made.jal.value 0 core).1 in
        let bus = (cycle (config b w) made.stype.value 0 landed).0 in
        ((skipped : List ℕ) × ((made.gen.bench.sqr.sqr_fifo
              ≡ s.gen.bench.sqr.sqr_fifo ++ (made.jal.value ∷ (skipped ++ (made.stype.value ∷ []))))
            × (Stores (config b w) skipped × (landed.pc ≡ s.pc + 4 * suc (length skipped)))))
        × (made.pc ≡ landed.pc + 4)
        × (made.gen.bench.ref_fifo ≡ push_back s.gen.bench.ref_fifo made.gen.ref_req)
        × (made.gen.ref_req.wr ≡ 1)
        × (bus.dmem_wr ≡ true)
        × (made.gen.ref_req.wr_data ≡ bus.dmem_wr_data)
        × (made.gen.ref_req.addr ≡ cut w bus.dmem_addr)
  unfolding jal_forward_commands
  jal_forward_commands-lands at small x0 =
      let cfg = config b w in
      let n = xlen_of b in
      let landed = (cycle cfg made.jal.value 0 core).1 in
      let (goes, links) = jal_forward_commands-jump at in
      let (skipped, (queue, (count, stores))) = jal_forward_commands-queue in
      let (four, least, _) = forward_offset-fits pattern s.pc s.max_jump within in
      let (counted, _, _) = jal_forward_commands-pc cfg rand dreg pattern s within in
      let rd : dreg % 32 ≡ dreg = omega arith in
      let value = u64 (s.pc + 4) in
      let linked : landed.reg_mem ≡ with_register dreg (cut n value) core.reg_mem =
        links ∙ ap (λ r. with_register r (cut n value) core.reg_mem) rd in
      let (zeros, holds) = with_register-zero dreg (cut n value) core.reg_mem x0 in
      let store = (set_stype store' n sqr2).0 in
      let (_, _, place, wr, addr, shown) =
        set_stype-shows b w store' sqr2 landed refl (offset-lt b (rand s.calls))
          (ap (λ f. f 0) linked ∙ zeros) in
      let req : Transaction = record s.gen.ref_req {
        wr = 1;
        rd_data = 0;
        wr_data = if truth dreg then value else 0;
        addr = sign_extend (to_long store.imm) 12;
      } in
      let b0 : Bench = record s.gen.bench { sqr = (set_stype store' n sqr2).1 } in
      let (same, queued, _, _, _) = push_masked cfg req 1 b0 in
      let equal : cut n (if truth dreg then value else 0) ≡ cut n (landed.reg_mem (dreg % 32)) =
        sym (cut-cut b (if truth dreg then value else 0))
        ∙ ap (cut n) (sym (cut-if b (truth dreg) value))
        ∙ ap (cut n) (sym (ap (λ f. f dreg) linked ∙ holds))
        ∙ ap (λ r. cut n (landed.reg_mem r)) (sym rd) in
      (
        (skipped, (queue, (stores, omega (arith, goes, count, four, least)))),
        omega (arith, counted, goes),
        queued ∙ ap (push_back s.gen.bench.ref_fifo) (sym same),
        ap (λ (t : Transaction). t.wr) same,
        wr,
        ap (λ (t : Transaction). t.wr_data) same ∙ equal ∙ sym shown,
        ap (λ (t : Transaction). t.addr) same ∙ ap (cut w) (place ∙ sym addr),
      )
