-- ===== src/Riscv/Generator/Loads/Store.antt =====
-- generator.cpp: a whole turn of `generate_itype_load_data`, against the core and the driver.
use native.Mathlib.Nat.{mod-mod, mul-add-mod_self_right, one-le-pow}
use verilog.Common.{ℕ, ◌+◌, ◌-◌, ◌*◌, ◌/◌, ◌%◌, ◌^◌, ◌≤◌, ◌≡◌, sym, ap, ◌∙◌, u32, [], ◌∷◌, arith}
use verilog.Common.Bits.{mod-mul}
use verilog.Common.Bits.Low.{pow-cut}
use verilog.Riscv.Isa.{Config, Build, xlen_of, config}
use verilog.Riscv.Commands.{UType, SType}
use verilog.Riscv.Sequencer.{Sequencer}
use verilog.Riscv.Transactions.Queues.{cut}
use verilog.Riscv.Sequences.Utype.{seq_lui}
use verilog.Riscv.Sequences.Dispatch.Memory.{Width, bits}
use verilog.Riscv.Rtl.Core.{Core, Dmem, cycle, cycles}
use verilog.Riscv.Generator.{regfile_a0}
use verilog.Riscv.Generator.Loads.Data.{LoadData, load_data_store}

-- An address of at most 32 bits, cut from a long or from its low half.
cut-u32 : (w x : ℕ) → w ≤ 32 → cut w x ≡ cut w (u32 x)
cut-u32 w x h =
    let k = 2 ^ w in
    let m = 2 ^ (32 - w) in
    let parts : x % 2 ^ 32 ≡ x / k % m * k + x % k =
      ap (λ (t : ℕ). x % t) (pow-cut 32 w h)
      ∙ mod-mul x m k (one-le-pow (32 - w) 2 (omega arith)) (one-le-pow w 2 (omega arith)) in
    let low : x % 2 ^ 32 % k ≡ x % k =
      ap (λ (t : ℕ). t % k) parts ∙ mul-add-mod_self_right (x / k % m) k (x % k) ∙ mod-mod x k in
    ground (arith, low)

pub cut-at : (w x y : ℕ) → w ≤ 32 → y ≡ u32 x → cut w x ≡ cut w y
cut-at w x y narrow h = cut-u32 w x narrow ∙ ap (cut w) (sym h)

-- The cycle of the core that loads, after the commands before it.
abbrev pub at_load : Config → LoadData → Core → Dmem × Core
at_load cfg l core =
    cycle cfg l.load.value l.drv_req.rd_data
      (cycles cfg (l.lui_base.value ∷ l.lui_data.value ∷ l.addi.value ∷ []) core)

-- What the core shows the memory when it stores, after the command before it.
abbrev pub at_store : Config → LoadData → Core → Dmem
at_store cfg t core = (cycle cfg t.stype.value 0 (cycle cfg t.lui_base_stype.value 0 core).1).0

module _ (b : Build) (rand : ℕ → ℕ) (w : ℕ) (wd : Width) (u dreg : ℕ) (s : LoadData) where
  abbrev made : LoadData
  made = load_data_store (config b w) rand (bits wd) u dreg s

  abbrev lui' : UType
  lui' = record s.lui_base_stype { rd = regfile_a0; imm = 0 }

  abbrev lui : UType
  lui = (seq_lui lui' s.gen.bench.sqr).0

  abbrev sqr1 : Sequencer
  sqr1 = (seq_lui lui' s.gen.bench.sqr).1

  abbrev store' : SType
  store' = record s.stype {
    imm = u32 (rand s.calls / (xlen_of b / 8) * (xlen_of b / 8));
    rs1 = lui.rd;
    rs2 = dreg;
  }
