-- ===== src/Riscv/Generator/Shifts.antt =====
-- generator.cpp: the shifts of a C `long` on the low 32 bits, against those of a 32-bit word.
use native.Mathlib.Nat.{
  one-le-pow, mul_assoc, mul_right_comm, add-mul-div_right, add-mul, div-add-mod',
  div-lt_iff_lt-mul,
}
use verilog.Common.{ℕ, ◌+◌, ◌-◌, ◌*◌, ◌/◌, ◌%◌, ◌^◌, ◌<◌, ◌≡◌, ap, ◌∙◌, arith, shl64, to_long}
use verilog.Common.Bits.Low.{pow-split, pow-cut}
use verilog.Riscv.Rtl.Alu.{shift_right_signed}
use verilog.Riscv.Generator.{sar64}

-- A left shift of a long, cut to 32 bits, is the left shift of the low half.
pub shl64-low : (x k : ℕ) → shl64 x k % 2 ^ 32 ≡ x % 2 ^ 32 * 2 ^ k % 2 ^ 32
shl64-low x k =
    let parts = ap (λ (t : ℕ). t * 2 ^ k) (div-add-mod' x (2 ^ 32)) in
    let carry = mul_right_comm (x / 2 ^ 32) (2 ^ k) (2 ^ 32) in
    ground (arith, parts, carry, add-mul (x / 2 ^ 32 * 2 ^ 32) (x % 2 ^ 32) (2 ^ k))

-- An arithmetic right shift of a sign extended word, cut to 32 bits, is that of the word.
pub sar64-low :
    (y k : ℕ) → y < 2 ^ 32 → k < 32 → sar64 (to_long y) k % 2 ^ 32 ≡ shift_right_signed 32 y k
sar64-low y k small amount =
    let p = 2 ^ k in
    let q = 2 ^ (32 - k) in
    let p_pos = one-le-pow k 2 (omega arith) in
    let word : 2 ^ 32 ≡ q * p = pow-cut 32 k (omega arith) in
    let long : 2 ^ (64 - k) ≡ 2 ^ 32 * q =
      ap (λ (t : ℕ). 2 ^ t) (omega arith) ∙ pow-split 32 (32 - k) in
    let high : (y + (2 ^ 64 - 2 ^ 32)) / p ≡ y / p + (2 ^ 32 - 1) * q =
      ap (λ (t : ℕ). (y + t) / p) (omega (arith, word, mul_assoc (2 ^ 32 - 1) q p))
      ∙ add-mul-div_right y ((2 ^ 32 - 1) * q) p_pos in
    let fits : y / p < q = (div-lt_iff_lt-mul p_pos).1 (omega (arith, word)) in
    ground (arith, long, high, fits, p_pos)
