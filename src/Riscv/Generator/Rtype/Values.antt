-- ===== src/Riscv/Generator/Rtype/Values.antt =====
-- generator.cpp: the arithmetic that `generate_rtype` expects is that of the core's ALU.
use verilog.Common.{
  ℕ, ◌-◌, ◌^◌, ◌<◌, ◌≡◌, ap, ◌∙◌, true, ◌&&◌, truth, leb, if◌then◌else◌, some, ◌&◌, arith,
}
use verilog.Common.Bits.{and_low}
use verilog.Riscv.Isa.{Build, rv32, rv64, xlen_of}
use verilog.Riscv.Transactions.Queues.{cut}
use verilog.Riscv.Sequences.Dispatch.{AluOp, add, code, has_word_form}
use verilog.Riscv.Sequences.Dispatch.Immediates.{is_shift}
use verilog.Riscv.Rtl.Alu.{alu_dataflow}
use verilog.Riscv.Rtl.Core.{alu_res_signed}
use verilog.Riscv.Generator.{sign_extend}
use verilog.Riscv.Generator.Longs.{
  long_op, reads_sign, Fits, Operand, long_op-alu_dataflow, alu_res_signed_lem,
}
use verilog.Riscv.Generator.Rtype.{rtype_value}

-- The `switch` computes the operation on longs, cut to a word where it has a word form.
rtype_value-long_op :
    (o : AluOp) (op32 mask k x y : ℕ)
    → let value = long_op o mask x y k in
      rtype_value (code o) op32 mask k x y
      ≡ some (if truth op32 && has_word_form o then sign_extend value 32 else value)
unfolding rtype_value
rtype_value-long_op add op32 mask k x y = ground arith
rtype_value-long_op _ op32 mask k x y = ground arith

abbrev pub amount : Build → ℕ → ℕ
amount b y = if leb 64 (xlen_of b) then y & 0x3F else y & 0x1F

amount-Operand :
    (b : Build) (o : AluOp) (y : ℕ)
    → Operand b o y (amount b y) (cut (xlen_of b) y) × (is_shift o ≡ true → amount b y < xlen_of b)
amount-Operand rv32 add y = ground (arith, and_low 5 y)
amount-Operand rv32 _ y = ground (arith, and_low 5 y)
amount-Operand rv64 add y = ground (arith, and_low 6 y)
amount-Operand rv64 _ y = ground (arith, and_low 6 y)

-- The value that the `switch` computes from two longs, cut to the build's width, is what the core
-- computes from the registers that hold them.
pub rtype_value-computed :
    (b : Build) (o : AluOp) (op32 x y : ℕ)
    → x < 2 ^ 64
    → y < 2 ^ 64
    → (reads_sign o ≡ true → Fits b x × Fits b y)
    → (v : ℕ) × ((rtype_value (code o) op32 (2 ^ xlen_of b - 1) (amount b y) x y ≡ some v)
        × (cut (xlen_of b) v
            ≡ alu_res_signed
                (xlen_of b)
                (truth op32 && has_word_form o)
                (alu_dataflow (xlen_of b) (code o) (cut (xlen_of b) x) (cut (xlen_of b) y))))
rtype_value-computed b o op32 x y x_long y_long fits =
    let word = truth op32 && has_word_form o in
    let k = amount b y in
    let (second, small) = amount-Operand b o y in
    let raw = long_op o (2 ^ xlen_of b - 1) x y k in
    (
      (if word then sign_extend raw 32 else raw),
      (
        rtype_value-long_op o op32 (2 ^ xlen_of b - 1) k x y,
        alu_res_signed_lem b word raw
            ∙ ap (alu_res_signed (xlen_of b) word) (
                long_op-alu_dataflow b o x y k _ x_long y_long small second (λ r. (fits r).0)
                  (λ r. (fits r).1)),
      ),
    )
