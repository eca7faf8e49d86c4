-- ===== src/Riscv/Generator/Arithmetic/Values.antt =====
-- generator.cpp: the arithmetic that `generate_itype_arithmetic` expects is that of the core's ALU.
use verilog.Common.{
  ℕ, ◌-◌, ◌%◌, ◌^◌, ◌<◌, ◌≡◌, ap, ◌∙◌, Bool, true, false, ◌&&◌, truth, if◌then◌else◌, some, to_long,
  arith,
}
use verilog.Riscv.Isa.{Build, rv32, rv64, xlen_of, config}
use verilog.Riscv.Commands.{IType}
use verilog.Riscv.Sequencer.{Sequencer}
use verilog.Riscv.Transactions.Queues.{cut}
use verilog.Riscv.Sequences.Itype.Arithmetic.{set_itype_arithmetic}
use verilog.Riscv.Rtl.Decode.{decode}
use verilog.Riscv.Rtl.Alu.{alu_dataflow}
use verilog.Riscv.Rtl.Core.{extend, alu_res_signed}
use verilog.Riscv.Generator.Values.{sign_extend-12}
use verilog.Riscv.Sequences.Dispatch.{AluOp, add, sub, sll, srl, sra, code, has_word_form}
use verilog.Riscv.Sequences.Dispatch.Immediates.{
  has_immediate, is_shift, amount_bits, operand, passed_imm, set_itype_arithmetic-ComputesI,
  set_itype_arithmetic-fields,
}
use verilog.Riscv.Generator.{sign_extend}
use verilog.Riscv.Generator.Longs.{
  long_op, reads_sign, Fits, Operand, long_op-alu_dataflow, alu_res_signed_lem,
}
use verilog.Riscv.Generator.Arithmetic.{itype_value}

-- The `switch` computes the operation on longs, cut to a word where it has a word form.
pub itype_value-long_op :
    (o : AluOp) (op32 mask imm x : ℕ)
    → has_immediate o ≡ true
    → let value = long_op o mask x (sign_extend (to_long imm) 12) imm in
      itype_value (code o) op32 mask imm x
      ≡ some (if truth op32 && has_word_form o then sign_extend value 32 else value)
unfolding itype_value
itype_value-long_op sub op32 mask imm x h = absurd (cc)
itype_value-long_op add op32 mask imm x h = ground arith
itype_value-long_op _ op32 mask imm x h = ground arith

-- The ALU's second operand is the immediate, sign extended, or ends in the shift amount.
operand-Operand :
    (b : Build) (w : ℕ) (o : AluOp) (word : Bool) (imm dec k : ℕ)
    → (if is_shift o then dec % 2 ^ amount_bits (config b w) false else dec)
      ≡ operand (config b w) o word imm
    → k ≡ passed_imm (config b w) o word imm % 2 ^ 12
    → Operand b o (sign_extend (to_long k) 12) k (extend (xlen_of b) 32 dec)
      × (is_shift o ≡ true → k < xlen_of b)
operand-Operand rv32 w sll word imm dec k h e = (ground arith, λ s. ground arith)
operand-Operand rv32 w srl word imm dec k h e = (ground arith, λ s. ground arith)
operand-Operand rv32 w sra word imm dec k h e = (ground arith, λ s. ground arith)
operand-Operand rv32 w add word imm dec k h e =
    (ground (arith, sign_extend-12 (to_long k)), λ s. absurd (cc))
operand-Operand rv32 w _ word imm dec k h e =
    (ground (arith, sign_extend-12 (to_long k)), λ s. absurd (cc))
operand-Operand rv64 w sll word imm dec k h e = (ground arith, λ s. ground arith)
operand-Operand rv64 w srl word imm dec k h e = (ground arith, λ s. ground arith)
operand-Operand rv64 w sra word imm dec k h e = (ground arith, λ s. ground arith)
operand-Operand rv64 w add word imm dec k h e =
    (ground (arith, sign_extend-12 (to_long k)), λ s. absurd (cc))
operand-Operand rv64 w _ word imm dec k h e =
    (ground (arith, sign_extend-12 (to_long k)), λ s. absurd (cc))

-- The sign extension of a 12-bit field is that of a register's value.
extended-Fits : (b : Build) (k : ℕ) → let y = sign_extend (to_long k) 12 in Fits b y × (y < 2 ^ 64)
unfolding sign_extend
extended-Fits rv32 k = ground arith
extended-Fits rv64 k = ground arith

-- The value that the `switch` computes from a long `x`, cut to the build's width, is what the core
-- computes for the command from the register that holds `x`.
pub itype_value-computed :
    (b : Build) (w : ℕ) (o : AluOp) (op32 x : ℕ) (cmd : IType) (sqr : Sequencer)
    → has_immediate o ≡ true
    → x < 2 ^ 64
    → (reads_sign o ≡ true → Fits b x)
    → let c = (set_itype_arithmetic (config b w) cmd (code o) op32 sqr).0 in
      (v : ℕ) × ((itype_value (code o) op32 (2 ^ xlen_of b - 1) c.imm x ≡ some v)
        × (cut (xlen_of b) v
            ≡ alu_res_signed (xlen_of b) (truth op32 && has_word_form o) (
                alu_dataflow
                  (xlen_of b)
                  (code o)
                  (cut (xlen_of b) x)
                  (extend (xlen_of b) 32 (decode c.value).immediate))))
itype_value-computed b w o op32 x cmd sqr h x_long fits =
    let cfg = config b w in
    let word = truth op32 && has_word_form o in
    let c = (set_itype_arithmetic cfg cmd (code o) op32 sqr).0 in
    let y = sign_extend (to_long c.imm) 12 in
    let (computes, pushed) = set_itype_arithmetic-ComputesI cfg cmd op32 sqr o h in
    let (rd, imm) = set_itype_arithmetic-fields cfg cmd op32 sqr o h in
    let (second, small) =
      operand-Operand b w o word cmd.imm (decode c.value).immediate c.imm computes.9 imm in
    let (y_fits, y_long) = extended-Fits b c.imm in
    let raw = long_op o (2 ^ xlen_of b - 1) x y c.imm in
    (
      (if word then sign_extend raw 32 else raw),
      (
        itype_value-long_op o op32 (2 ^ xlen_of b - 1) c.imm x h,
        alu_res_signed_lem b word raw
            ∙ ap (alu_res_signed (xlen_of b) word) (
                long_op-alu_dataflow b o x y c.imm _ x_long y_long small second fits (λ _. y_fits)),
      ),
    )
