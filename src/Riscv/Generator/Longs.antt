-- ===== src/Riscv/Generator/Longs.antt =====
-- generator.cpp computes a register's value as a C `long`, in both builds. Here is what such a
-- computation has to do with the core's ALU.
use verilog.Common.{
  ℕ, ◌+◌, ◌-◌, ◌/◌, ◌%◌, ◌^◌, ◌<◌, ◌≡◌, refl, sym, ap, ◌∙◌, Bool, true, false, ltb, as_int, bit_xor,
  ◌&◌, ◌∣∣◌, if◌then◌else◌, u64, shl64, sub64, slt64, to_long, arith,
}
use native.Mathlib.Nat.{div-le_self}
use verilog.Common.Bits.{and_low}
use verilog.Common.Bits.Low.{and-low, or-low, xor-low}
use verilog.Riscv.Isa.{Build, rv32, rv64, xlen_of}
use verilog.Riscv.Transactions.Queues.{cut}
use verilog.Riscv.Sequences.Dispatch.{AluOp, add, sub, sll, srl, sra, xor, and, or, slt, sltu, code}
use verilog.Riscv.Sequences.Dispatch.Immediates.{is_shift}
use verilog.Riscv.Rtl.Alu.{alu_dataflow, clog2, shift_right_signed}
use verilog.Riscv.Rtl.Core.{alu_res_signed}
use verilog.Riscv.Generator.{sar64, sign_extend}
use verilog.Riscv.Generator.Values.{sign_extend-32}
use verilog.Riscv.Generator.Shifts.{shl64-low, sar64-low}

-- The operations whose result depends on the bits above the register's.
abbrev pub reads_sign : AluOp → Bool
reads_sign sra = true
reads_sign slt = true
reads_sign sltu = true
reads_sign _ = false

-- A `long` that is the sign extension of a register's value.
abbrev pub Fits : Build → ℕ → Type 0
Fits b x = sign_extend x (xlen_of b) ≡ x

-- The operation on two values, or on a value and a shift amount.
abbrev pub long_op : AluOp → ℕ → ℕ → ℕ → ℕ → ℕ
long_op add mask x y k = u64 (x + y)
long_op sub mask x y k = sub64 x y
long_op sll mask x y k = shl64 x k
long_op srl mask x y k = (x & mask) / 2 ^ k
long_op sra mask x y k = sar64 x k
long_op xor mask x y k = bit_xor x y
long_op and mask x y k = x & y
long_op or mask x y k = x ∣∣ y
long_op slt mask x y k = as_int (slt64 x y)
long_op sltu mask x y k = as_int (ltb x y)

-- What the ALU gets as its second operand: the value, or a word that ends in the shift amount.
abbrev pub Operand : Build → AluOp → ℕ → ℕ → ℕ → Type 0
Operand b o y k alu_b =
    if is_shift o then alu_b % 2 ^ clog2 (xlen_of b) ≡ k else alu_b ≡ cut (xlen_of b) y

module _ (x y k alu_b : ℕ) (x_long : x < 2 ^ 64) (y_long : y < 2 ^ 64) where
  long_op-rv64 :
      (o : AluOp)
      → Operand rv64 o y k alu_b
      → long_op o (2 ^ 64 - 1) x y k ≡ alu_dataflow 64 (code o) x alu_b
  unfolding alu_dataflow
  long_op-rv64 srl h = ground (arith, h, and_low 64 x)
  long_op-rv64 add h = ground (arith, h)
  long_op-rv64 _ h = ground (arith, h)

  Fits-word : Fits rv32 x → x ≡ to_long (x % 2 ^ 32)
  Fits-word h = omega (arith, h, sign_extend-32 x)

  long_op-rv32 :
      (o : AluOp)
      → Operand rv32 o y k alu_b
      → (is_shift o ≡ true → k < 32)
      → (reads_sign o ≡ true → Fits rv32 x)
      → (reads_sign o ≡ true → Fits rv32 y)
      → long_op o (2 ^ 32 - 1) x y k % 2 ^ 32 ≡ alu_dataflow 32 (code o) (x % 2 ^ 32) alu_b
  unfolding alu_dataflow
  long_op-rv32 add h small fits_x fits_y = ground (arith, h)
  long_op-rv32 sub h small fits_x fits_y = ground (arith, h)
  long_op-rv32 sll h small fits_x fits_y = rw (h) (shl64-low x k)
  long_op-rv32 srl h small fits_x fits_y =
      ground (arith, h, and_low 32 x, div-le_self (x % 2 ^ 32) (2 ^ k))
  long_op-rv32 sra h small fits_x fits_y =
      ap (λ t. sar64 t k % 2 ^ 32) (Fits-word (fits_x refl))
      ∙ sar64-low (x % 2 ^ 32) k (omega arith) (small refl)
      ∙ ap (shift_right_signed 32 (x % 2 ^ 32)) (sym h)
  long_op-rv32 xor h small fits_x fits_y = rw (h) (xor-low 32 x y)
  long_op-rv32 and h small fits_x fits_y = rw (h) (and-low 32 x y)
  long_op-rv32 or h small fits_x fits_y = rw (h) (or-low 32 x y)
  long_op-rv32 slt h small fits_x fits_y =
      ground (arith, h, Fits-word (fits_x refl), sign_extend-32 y, fits_y refl)
  long_op-rv32 sltu h small fits_x fits_y =
      ground (arith, h, Fits-word (fits_x refl), sign_extend-32 y, fits_y refl)

-- In both builds, cut to the width of the registers, an operation on longs is what the core's ALU
-- computes on the registers, where the operations that depend on the upper bits of a long get
-- sign extended registers.
pub long_op-alu_dataflow :
    (b : Build) (o : AluOp) (x y k alu_b : ℕ)
    → x < 2 ^ 64
    → y < 2 ^ 64
    → (is_shift o ≡ true → k < xlen_of b)
    → Operand b o y k alu_b
    → (reads_sign o ≡ true → Fits b x)
    → (reads_sign o ≡ true → Fits b y)
    → cut (xlen_of b) (long_op o (2 ^ xlen_of b - 1) x y k)
      ≡ alu_dataflow (xlen_of b) (code o) (cut (xlen_of b) x) alu_b
long_op-alu_dataflow rv32 o x y k alu_b x_long y_long small h fits_x fits_y =
    long_op-rv32 x y k alu_b x_long y_long o h small fits_x fits_y
long_op-alu_dataflow rv64 o x y k alu_b x_long y_long small h fits_x fits_y =
    long_op-rv64 x y k alu_b x_long y_long o h

-- The cut to a 32-bit word is the core's OP-32, on a value that the build has cut.
pub alu_res_signed_lem :
    (b : Build) (word : Bool) (x : ℕ)
    → cut (xlen_of b) (if word then sign_extend x 32 else x)
      ≡ alu_res_signed (xlen_of b) word (cut (xlen_of b) x)
unfolding alu_res_signed
alu_res_signed_lem rv32 word x = ground (arith, sign_extend-32 x)
alu_res_signed_lem rv64 word x = ground (arith, sign_extend-32 x)
