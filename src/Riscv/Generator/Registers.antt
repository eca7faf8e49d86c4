-- ===== src/Riscv/Generator/Registers.antt =====
-- generator.cpp: a LUI and an ADDI bring a value into a register of the core.
use verilog.Common.{
  ℕ, ◌+◌, ◌*◌, ◌%◌, ◌^◌, ◌<◌, ◌&&◌, ◌==◌, ◌≡◌, refl, sym, ap, ◌∙◌, Bool, true, false, truth,
  if◌then◌else◌, u64, to_long, [], ◌∷◌, arith, Bool-cases, inl, inr, truth→eq,
}
use verilog.Riscv.Isa.{Config, Build, rv32, rv64, xlen_of, config, op_alu_add}
use verilog.Riscv.Commands.{UType, IType}
use verilog.Riscv.Sequencer.{Sequencer}
use verilog.Riscv.Transactions.Queues.{cut}
use verilog.Riscv.Sequences.Utype.{seq_lui}
use verilog.Riscv.Sequences.Itype.Arithmetic.{seq_addi, set_itype_arithmetic}
use verilog.Riscv.Sequences.Dispatch.{add}
use verilog.Riscv.Sequences.Dispatch.Immediates.{ComputesI, set_itype_arithmetic-ComputesI}
use verilog.Riscv.Sequences.RoundTrip.{sext32, seq_lui-decoded}
use verilog.Riscv.Sequences.Cycles.{with_register, cycle-lui, cycle-immediate}
use verilog.Riscv.Rtl.Decode.{decode}
use verilog.Riscv.Rtl.Alu.{alu_dataflow}
use verilog.Riscv.Rtl.Core.{Core, extend, alu_res_signed, write_register, cycle, cycles}
use verilog.Riscv.Generator.{sign_extend, get_lui_base_imm_value, register_value}
use verilog.Riscv.Generator.Values.{sign_extend-12, seq_addi-imm, lui_addi-value}

seq_addi-ComputesI :
    (cfg : Config) (cmd : IType) (sqr : Sequencer)
    → ComputesI cfg (decode (seq_addi cmd sqr).0.value) cmd add false
unfolding set_itype_arithmetic
seq_addi-ComputesI cfg cmd sqr = (set_itype_arithmetic-ComputesI cfg cmd 0 sqr add refl).0

pub sext32-lt : (n : ℕ) → sext32 12 n < 2 ^ 32
sext32-lt n = ground arith

-- The sum that the core forms, in both builds.
sum_lem :
    (b : Build) (high low : ℕ)
    → high < 2 ^ 32
    → low < 2 ^ 32
    → alu_res_signed (xlen_of b) false (
        alu_dataflow
          (xlen_of b)
          op_alu_add
          (extend (xlen_of b) 32 high)
          (extend (xlen_of b) 32 low))
      ≡ cut (xlen_of b) (u64 (to_long high + to_long low))
unfolding alu_dataflow alu_res_signed
sum_lem rv32 high low h l = ground arith
sum_lem rv64 high low h l = ground arith

-- A second write to a register replaces the first.
rewrite_lem :
    (reg x y z r : ℕ) (f : ℕ → ℕ)
    → (truth reg ≡ true → y ≡ z)
    → with_register reg y (with_register reg x f) r ≡ with_register reg z f r
unfolding write_register
rewrite_lem reg x y z r f h = ground (arith, h)

written_lem : (reg x : ℕ) (f : ℕ → ℕ) → truth reg ≡ true → with_register reg x f reg ≡ x
unfolding write_register
written_lem reg x f h = ground arith

-- x0 stays 0, and any other register holds what was written.
pub with_register-zero :
    (reg x : ℕ) (f : ℕ → ℕ)
    → f 0 ≡ 0
    → (with_register reg x f 0 ≡ 0) × (with_register reg x f reg ≡ (if truth reg then x else 0))
unfolding write_register
with_register-zero reg x f h = elim (Bool-cases (truth reg)) [
  | inl t ↦ (ground (arith, h, t), ground (arith, h, t))
  | inr t ↦ let none : reg ≡ 0 = truth→eq reg t in rw (none) (h, h)
]

pub cut-if :
    (b : Build) (t : Bool) (x : ℕ)
    → (if t then cut (xlen_of b) x else 0) ≡ cut (xlen_of b) (if t then x else 0)
cut-if b true x = refl
cut-if rv32 false x = refl
cut-if rv64 false x = refl

pub cut-cut : (b : Build) (x : ℕ) → cut (xlen_of b) (cut (xlen_of b) x) ≡ cut (xlen_of b) x
cut-cut rv32 x = omega arith
cut-cut rv64 x = refl

pub register_value-lt :
    (reg : ℕ) (lui : UType) (addi : IType) → register_value reg lui addi < 2 ^ 64
unfolding get_lui_base_imm_value
register_value-lt reg lui addi = ground arith

-- After a LUI and an ADDI on the same register the core's register holds the value that the
-- generators expect, cut to the width of the build, and the other registers are as before.
pub lui_addi-register :
    (b : Build) (w reg : ℕ) (lui : UType) (addi : IType) (s t : Sequencer) (core : Core)
    → reg < 32
    → lui.rd ≡ reg
    → addi.rd ≡ reg
    → addi.rs1 ≡ reg
    → let u = (seq_lui lui s).0 in
      let i = (seq_addi addi t).0 in
      (r : ℕ)
      → (cycles (config b w) (u.value ∷ i.value ∷ []) core).reg_mem r
        ≡ with_register reg
            (cut (xlen_of b) (get_lui_base_imm_value (to_long u.imm) (to_long i.imm)))
            core.reg_mem
            r
unfolding cycles
lui_addi-register b w reg lui addi s t core small d1 d2 s2 r =
    let cfg = config b w in
    let u = (seq_lui lui s).0 in
    let i = (seq_addi addi t).0 in
    let core1 = (cycle cfg u.value 0 core).1 in
    let reg' : reg % 32 ≡ reg = omega arith in
    let high = lui.imm % 2 ^ 20 * 2 ^ 12 in
    let first : core1.reg_mem ≡ with_register reg (extend (xlen_of b) 32 high) core.reg_mem =
      rw (← reg', ← d1) (cycle-lui cfg lui s core) in
    let computes = seq_addi-ComputesI cfg addi t in
    let low = (decode i.value).immediate in
    let imm : low ≡ sext32 12 addi.imm = computes.9 in
    let rd : addi.rd % 32 ≡ reg = omega arith in
    let rs1 : addi.rs1 % 32 ≡ reg = omega arith in
    let hi = extend (xlen_of b) 32 high in
    let lo = extend (xlen_of b) 32 low in
    let upper : (decode u.value).immediate ≡ high = (seq_lui-decoded lui s).4 in
    let sum =
      sum_lem b high low (omega arith) (omega (arith, imm, sext32-lt addi.imm))
      ∙ ap (λ n. cut (xlen_of b) (u64 (to_long n + to_long low))) (sym upper)
      ∙ ap (cut (xlen_of b)) (sym (lui_addi-value lui addi s t)) in
    let written = with_register reg hi core.reg_mem in
    let result =
      alu_res_signed (xlen_of b) false (alu_dataflow (xlen_of b) op_alu_add (written reg) lo) in
    let second : (cycle cfg i.value 0 core1).1.reg_mem ≡ with_register reg result written =
      cycle-immediate cfg i.value core1 addi add false computes ∙ (rw (rd, rs1, first) refl) in
    ap (λ f. f r) second
    ∙ rewrite_lem reg hi _ _ r core.reg_mem (λ h.
      ap (λ n. alu_res_signed (xlen_of b) false (alu_dataflow (xlen_of b) op_alu_add n lo))
        (written_lem reg hi core.reg_mem h)
      ∙ sum)

-- Two registers, written one after the other, hold what `generate_rtype` counts on.
pub two_registers :
    (r1 r2 x y : ℕ) (f g : ℕ → ℕ)
    → f 0 ≡ 0
    → ((r : ℕ) → g r ≡ with_register r2 y (λ r. with_register r1 x f r) r)
    → (g 0 ≡ 0)
      × (g r1 ≡ (
          if truth r1 && (r1 == r2)
          then (if truth r2 then y else 0)
          else if truth r1
          then x
          else 0))
      × (g r2 ≡ (if truth r2 then y else 0))
unfolding write_register
two_registers r1 r2 x y f g h at = grind (arith, h, at 0, at r1, at r2)

-- The cut of a choice between two values, each of them 0 for x0.
pub cut-either :
    (b : Build) (t t1 t2 : Bool) (x y : ℕ)
    → (if t then (if t1 then cut (xlen_of b) x else 0) else if t2 then cut (xlen_of b) y else 0)
      ≡ cut (xlen_of b) (if t then (if t1 then x else 0) else if t2 then y else 0)
cut-either b true t1 t2 x y = cut-if b t1 x
cut-either b false t1 t2 x y = cut-if b t2 y

pub with_register-ap :
    (reg x : ℕ) (f g : ℕ → ℕ)
    → ((r : ℕ) → f r ≡ g r)
    → (r : ℕ) → with_register reg x f r ≡ with_register reg x g r
unfolding write_register
with_register-ap reg x f g h r = ap (λ n. if truth reg && (r == reg) then x else n) (h r)

-- The sum of a register and the immediate of an ADDI, in both builds.
added_lem :
    (b : Build) (x imm : ℕ)
    → x < 2 ^ 64
    → alu_res_signed (xlen_of b) false (
        alu_dataflow
          (xlen_of b)
          op_alu_add
          (cut (xlen_of b) x)
          (extend (xlen_of b) 32 (sext32 12 imm)))
      ≡ cut (xlen_of b) (u64 (x + sign_extend (to_long (imm % 2 ^ 12)) 12))
unfolding alu_dataflow alu_res_signed
added_lem rv32 x imm lt = ground (arith, sign_extend-12 (to_long (imm % 2 ^ 12)))
added_lem rv64 x imm lt = ground (arith, sign_extend-12 (to_long (imm % 2 ^ 12)))

-- After an ADDI its register holds the sum that the generators expect, cut to the width of the build.
pub addi-register :
    (b : Build) (w : ℕ) (cmd : IType) (sqr : Sequencer) (core : Core) (x : ℕ)
    → cmd.rd < 32
    → cmd.rs1 < 32
    → x < 2 ^ 64
    → core.reg_mem cmd.rs1 ≡ cut (xlen_of b) x
    → let i = (seq_addi cmd sqr).0 in
      (cycle (config b w) i.value 0 core).1.reg_mem
      ≡ with_register cmd.rd
          (cut (xlen_of b) (u64 (x + sign_extend (to_long i.imm) 12)))
          core.reg_mem
addi-register b w cmd sqr core x small small1 lt holds =
    let n = xlen_of b in
    let i = (seq_addi cmd sqr).0 in
    let computes = seq_addi-ComputesI (config b w) cmd sqr in
    let rd : cmd.rd % 32 ≡ cmd.rd = omega arith in
    let rs1 : cmd.rs1 % 32 ≡ cmd.rs1 = omega arith in
    let imm : (decode i.value).immediate ≡ sext32 12 cmd.imm = computes.9 in
    cycle-immediate (config b w) i.value core cmd add false computes
    ∙ (rw (rd, rs1, holds, imm, added_lem b x cmd.imm lt, seq_addi-imm cmd sqr) refl)
