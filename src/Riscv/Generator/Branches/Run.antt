-- ===== src/Riscv/Generator/Branches/Run.antt =====
-- generator.cpp: the core on the commands of a turn of `generate_btype_forward`.
use mathlib.Core.List.{append_assoc}
use verilog.Common.{
  ℕ, ◌+◌, ◌-◌, ◌*◌, ◌/◌, ◌%◌, ◌^◌, ◌<◌, ◌≡◌, refl, sym, ap, ◌∙◌, suc, List, [], ◌∷◌, ◌++◌, length,
  Bool, true, truth, if◌then◌else◌, to_long, push_back, arith, false, truth→eq, Bool-cases, inl,
  inr,
}
use verilog.Riscv.Isa.{Build, xlen_of, config}
use verilog.Riscv.Commands.{SType}
use verilog.Riscv.Sequencer.{split}
use verilog.Riscv.Transactions.{Transaction, Bench}
use verilog.Riscv.Transactions.Queues.{cut, push_masked}
use verilog.Riscv.Sequences.Stype.{set_stype}
use verilog.Riscv.Sequences.Dispatch.Branches.{Compare, branch_code}
use verilog.Riscv.Rtl.Core.{Core, cycle}
use verilog.Riscv.Generator.{Generator, with_sqr, queue_ref_only, sign_extend}
use verilog.Riscv.Generator.Longs.{Fits}
use verilog.Riscv.Generator.Registers.{cut-cut}
use verilog.Riscv.Generator.Stores.{offset-lt, set_stype-shows}
use verilog.Riscv.Generator.Jumps.{fill}
use verilog.Riscv.Generator.Branches.{
  BtypeTurn, BtypeForward, btype_forward_branch, btype_forward_store, btype_forward_turn,
}
use verilog.Riscv.Generator.Jumps.Landing.{Stores}
use verilog.Riscv.Generator.Branches.Landing.{
  TurnEnds, btype_forward_turn-lands, btype_forward_turn-stores,
}
use verilog.Riscv.Generator.Branches.Filled.{
  before_branch, btype_forward_branch-queue, before_branch-registers, before_branch-pc,
}

-- A new phase changes neither the reference transactions nor the last of them.
split-quiet :
    (splits : Bool) (gen : Generator)
    → let g = if splits then with_sqr (split gen.bench.sqr) gen else gen in
      (g.bench.ref_fifo ≡ gen.bench.ref_fifo) × (g.ref_req ≡ gen.ref_req)
split-quiet true gen = (refl, refl)
split-quiet false gen = (refl, refl)

-- What a store of a register shows, where the register holds `x` cut to the width of the build.
stored_lem :
    (b : Build) (reg x : ℕ) (f : ℕ → ℕ)
    → f 0 ≡ 0
    → reg < 32
    → f reg ≡ cut (xlen_of b) x
    → cut (xlen_of b) (if truth reg then x else 0) ≡ cut (xlen_of b) (f (reg % 32))
stored_lem b reg x f zero_reg small holds =
    let n = xlen_of b in
    let same : reg % 32 ≡ reg = omega arith in
    elim (Bool-cases (truth reg)) [
      | inl t ↦ rw (t, same, holds) (sym (cut-cut b x))
      | inr t ↦ (let none : reg ≡ 0 = truth→eq reg t in rw (none, zero_reg) refl)
    ]

module _ (b : Build) (w : ℕ) (rand : ℕ → ℕ) (o : Compare)
    (reg1 reg2 mode i pattern_12 pattern_20 : ℕ) (last : Bool) (s : BtypeForward) (core : Core)
    (small1 : reg1 < 32) (small2 : reg2 < 32) (x0 : core.reg_mem 0 ≡ 0) where
  abbrev asked : BtypeTurn
  asked = record {
    btype_opcode = branch_code o;
    reg_rs1 = reg1;
    reg_rs2 = reg2;
    mode = mode;
    i = i;
  }

  abbrev made : BtypeForward
  made = btype_forward_branch rand asked pattern_12 pattern_20 s

  abbrev filled : Core
  filled = before_branch (config b w) made core

  -- What the store after the branch shows, and its reference transaction.
  btype_forward_store-shows :
      (expected : Bool) (landed : Core)
      → landed.reg_mem ≡ filled.reg_mem
      → let u = btype_forward_store (config b w) rand asked last pattern_12 expected made in
        let bus = (cycle (config b w) u.stype.value 0 landed).0 in
        (u.gen.bench.ref_fifo ≡ push_back s.gen.bench.ref_fifo u.gen.ref_req)
        × (u.gen.ref_req.wr ≡ 1)
        × (bus.dmem_wr ≡ true)
        × (u.gen.ref_req.wr_data ≡ bus.dmem_wr_data)
        × (u.gen.ref_req.addr ≡ cut w bus.dmem_addr)
  unfolding btype_forward_store
  btype_forward_store-shows expected landed same =
      let n = xlen_of b in
      let (zeros, at1, _) =
        before_branch-registers b w rand o reg1 reg2 mode i pattern_12 pattern_20 s core small1
          small2 x0 in
      let u = btype_forward_store (config b w) rand asked last pattern_12 expected made in
      let sqr' =
        (fill (config b w) (if expected then made.offset / 4 - 1 else 0) made.dummy_stype
          made.gen.bench.sqr).1 in
      let store' : SType = record made.stype {
        imm = rand made.calls % 0x700 / (n / 8) * (n / 8);
        rs1 = 0;
        rs2 = reg1;
      } in
      let (_, _, place, wr, addr, shown) =
        set_stype-shows b w store' sqr' landed refl (offset-lt b (rand made.calls))
          (ap (λ f. f 0) same ∙ zeros) in
      let req : Transaction = record made.gen.ref_req {
        wr = 1;
        rd_data = 0;
        wr_data = if truth reg1 then made.rs1 else 0;
        addr = sign_extend (to_long (set_stype store' n sqr').0.imm) 12;
      } in
      let b0 : Bench = record made.gen.bench { sqr = (set_stype store' n sqr').1 } in
      let (masked, queued, _, _, _) = push_masked (config b w) req 1 b0 in
      let kept : made.gen.bench.ref_fifo ≡ s.gen.bench.ref_fifo =
        unfold btype_forward_branch in refl in
      let (same_fifo, same_req) = split-quiet _ (
        queue_ref_only (config b w)
          (record (with_sqr (set_stype store' n sqr').1 made.gen) { ref_req = req })) in
      let last_req = same_req ∙ masked in
      let equal =
        stored_lem b reg1 made.rs1 landed.reg_mem (ap (λ f. f 0) same ∙ zeros) small1
          (ap (λ f. f reg1) same ∙ at1) in
      (
        same_fifo
            ∙ queued
            ∙ ap (push_back made.gen.bench.ref_fifo) (sym last_req)
            ∙ ap (λ q. push_back q u.gen.ref_req) kept,
        ap (λ (t : Transaction). t.wr) last_req,
        wr,
        ap (λ (t : Transaction). t.wr_data) last_req ∙ equal ∙ sym shown,
        ap (λ (t : Transaction). t.addr) last_req ∙ ap (cut w) (place ∙ sym addr),
      )

  -- For each comparison, in both builds, from a counted pc below 2^19 that is a multiple of 4: a
  -- turn of `generate_btype_forward` goes on. It queues the commands that fill the registers, the
  -- branch, stores that are to be skipped, and the store, and nothing behind it but the zero that
  -- ends the phase, where the turn begins a new one; the next branch is counted where its commands
  -- will stand. The core, before the first of them and with x0 at 0, runs them up to the branch, is
  -- then at the counted pc, goes from the branch to the store, whether the branch is taken or not,
  -- and there writes as the one reference transaction says. The two values that the turn compares
  -- have to be sign extended registers.
  pub btype_forward_turn-runs :
      core.pc + 12 ≡ s.pc
      → s.pc % 4 ≡ 0
      → s.pc < 2 ^ 19
      → Fits b made.rs1
      → Fits b made.rs2
      → let cfg = config b w in
        let (goes_on, u) = btype_forward_turn cfg rand asked last (pattern_12, pattern_20) s in
        let landed = (cycle cfg made.btype.value 0 filled).1 in
        let bus = (cycle cfg u.stype.value 0 landed).0 in
        (goes_on ≡ true)
        × (filled.pc ≡ s.pc)
        × ((skipped : List ℕ) × ((rest : List ℕ) × ((u.gen.bench.sqr.sqr_fifo
                  ≡ s.gen.bench.sqr.sqr_fifo
                    ++ (made.lui.value
                        ∷ made.addi_rs1.value
                        ∷ made.addi_rs2.value
                        ∷ made.btype.value
                        ∷ (skipped ++ (u.stype.value ∷ rest))))
                × (Stores cfg skipped
                    × (TurnEnds landed.pc u.pc rest
                        × (landed.pc ≡ s.pc + 4 * suc (length skipped)))))))
        × (u.gen.bench.ref_fifo ≡ push_back s.gen.bench.ref_fifo u.gen.ref_req)
        × (u.gen.ref_req.wr ≡ 1)
        × (bus.dmem_wr ≡ true)
        × (u.gen.ref_req.wr_data ≡ bus.dmem_wr_data)
        × (u.gen.ref_req.addr ≡ cut w bus.dmem_addr)
  btype_forward_turn-runs at four small fits1 fits2 =
      let cfg = config b w in
      let (_, at1, at2) =
        before_branch-registers b w rand o reg1 reg2 mode i pattern_12 pattern_20 s core small1
          small2 x0 in
      let rs1 : reg1 % 32 ≡ reg1 = omega arith in
      let rs2 : reg2 % 32 ≡ reg2 = omega arith in
      let place =
        before_branch-pc b w rand o reg1 reg2 mode i pattern_12 pattern_20 s core small1 small2 x0
          at small in
      let holds1 = ap filled.reg_mem rs1 ∙ at1 in
      let holds2 = ap filled.reg_mem rs2 ∙ at2 in
      let (goes, keeps, (skipped, (rest, (queue, (skips, (ends, lands)))))) =
        btype_forward_turn-lands b w rand o reg1 reg2 mode i pattern_12 pattern_20 last s filled
          four small fits1 fits2 place holds1 holds2 in
      let stores =
        btype_forward_turn-stores b w rand o reg1 reg2 mode i pattern_12 pattern_20 last s filled
          fits1 fits2 holds1 holds2 in
      let landed = (cycle cfg made.btype.value 0 filled).1 in
      let u = (btype_forward_turn cfg rand asked last (pattern_12, pattern_20) s).1 in
      let bus = (cycle cfg u.stype.value 0 landed).0 in
      let (queued, wr, writes, data', addr) : (u.gen.bench.ref_fifo
            ≡ push_back s.gen.bench.ref_fifo u.gen.ref_req)
          × (u.gen.ref_req.wr ≡ 1)
          × (bus.dmem_wr ≡ true)
          × (u.gen.ref_req.wr_data ≡ bus.dmem_wr_data)
          × (u.gen.ref_req.addr ≡ cut w bus.dmem_addr) =
        rw (stores) (btype_forward_store-shows _ landed keeps) in
      let tail = skipped ++ (u.stype.value ∷ rest) in
      let first_four =
        made.lui.value ∷ made.addi_rs1.value ∷ made.addi_rs2.value ∷ made.btype.value ∷ [] in
      (
        goes,
        place,
        (
          skipped,
          (
            rest,
            (
              queue
                  ∙ ap (λ q. q ++ tail)
                      (btype_forward_branch-queue b w rand o reg1 reg2 mode i pattern_12 pattern_20
                        s)
                  ∙ append_assoc s.gen.bench.sqr.sqr_fifo first_four tail,
              (skips, (ends, lands)),
            ),
          ),
        ),
        queued,
        wr,
        writes,
        data',
        addr,
      )
