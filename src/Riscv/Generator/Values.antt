-- ===== src/Riscv/Generator/Values.antt =====
-- RISCV_SingleCycle/testbench/generator.cpp: the values that the generators expect.
use verilog.Common.{
  ℕ, zero, suc, ◌+◌, ◌-◌, ◌%◌, ◌^◌, ◌≤◌, ◌≡◌, refl, ap, inl, ltb, if◌then◌else◌, u32, u64, shl64,
  to_long, length, length-append, arith,
}
use verilog.Common.Bits.{and_low}
use verilog.Riscv.Commands.{UType, SType, IType}
use verilog.Riscv.Sequencer.{Sequencer}
use verilog.Riscv.Isa.{opcode_i_type_alu, op_funct3_add}
use verilog.Riscv.Sequences.Utype.{seq_utype, seq_lui}
use verilog.Riscv.Sequences.Stype.{seq_stype, seq_sb, seq_sh, seq_st, seq_sw, seq_sd, set_stype}
use verilog.Riscv.Sequences.Itype.{seq_itype}
use verilog.Riscv.Sequences.Itype.Arithmetic.{seq_addi}
use verilog.Riscv.Rtl.Decode.{decode}
use verilog.Riscv.Sequences.Dispatch.Memory.{Width, byte, bits}
use verilog.Riscv.Sequences.RoundTrip.{sext32, seq_lui-decoded, decode-seq_itype}
use verilog.Riscv.Generator.{
  random_fill, toggles, generate_bit_patterns, sign_extend, get_lui_base_imm_value,
}

length-random_fill : (rand : ℕ → ℕ) (bits n k : ℕ) → length (random_fill rand bits n k) ≡ n
unfolding random_fill
length-random_fill rand bits zero k = refl
length-random_fill rand bits (suc n) k =
    ap suc (length-random_fill rand bits n (if ltb 32 bits then k + 2 else k + 1))

length-toggles : (over : ℕ → ℕ) (n i : ℕ) → length (toggles over n i) ≡ n
unfolding toggles
length-toggles over zero i = refl
length-toggles over (suc n) i = ap suc (length-toggles over n (i + 1))

-- The sign of a 12-bit field, copied into the upper bits of a `long`.
pub sign_extend-12 : (n : ℕ) → sign_extend n 12 ≡ to_long (sext32 12 n)
unfolding sign_extend
sign_extend-12 n = ground arith

pub sign_extend-32 : (n : ℕ) → sign_extend n 32 ≡ to_long (u32 n)
unfolding sign_extend
sign_extend-32 n = ground arith

-- The patterns fill the array of `len` elements, at least 8, exactly.
pub length-generate_bit_patterns :
    (rand over : ℕ → ℕ) (bits len : ℕ)
    → 8 ≤ len
    → length (generate_bit_patterns rand over bits len) ≡ len
unfolding generate_bit_patterns
length-generate_bit_patterns rand over bits len enough =
    let random = len - 8 - bits in
    let rest = length-append (random_fill rand bits random 0) (toggles over (len - 8 - random) 0) in
    let first = length-random_fill rand bits random 0 in
    let last = length-toggles over (len - 8 - random) 0 in omega (arith, rest, first, last)

-- What `seq_lui` and `seq_addi` leave of an immediate.
pub seq_lui-imm : (cmd : UType) (sqr : Sequencer) → (seq_lui cmd sqr).0.imm ≡ cmd.imm % 2 ^ 20
unfolding seq_lui seq_utype
seq_lui-imm cmd sqr = and_low 20 cmd.imm

pub seq_addi-imm : (cmd : IType) (sqr : Sequencer) → (seq_addi cmd sqr).0.imm ≡ cmd.imm % 2 ^ 12
unfolding seq_addi seq_itype
seq_addi-imm cmd sqr = ground (arith, and_low 12 cmd.imm)

pub set_stype-imm :
    (cmd : SType) (w : Width) (sqr : Sequencer)
    → (set_stype cmd (bits w) sqr).0.imm ≡ cmd.imm % 2 ^ 12
unfolding set_stype seq_sb seq_sh seq_st seq_sw seq_sd seq_stype
set_stype-imm cmd byte sqr = and_low 12 cmd.imm
set_stype-imm cmd _ sqr = and_low 12 cmd.imm

seq_addi-immediate :
    (cmd : IType) (sqr : Sequencer)
    → (decode (seq_addi cmd sqr).0.value).immediate ≡ sext32 12 cmd.imm
unfolding seq_addi
seq_addi-immediate cmd sqr =
    let addi : IType = record cmd { opcode = opcode_i_type_alu; funct3 = op_funct3_add } in
    (decode-seq_itype addi sqr (inl refl) (omega arith)).6

-- The data that a LUI and an ADDI are expected to leave in a register is the sum that the core
-- forms from the immediates of these two commands, each sign extended to 64 bits.
pub lui_addi-value :
    (lui : UType) (addi : IType) (s t : Sequencer)
    → let (u, s') = seq_lui lui s in
      let (i, t') = seq_addi addi t in
      get_lui_base_imm_value (to_long u.imm) (to_long i.imm)
      ≡ u64 (to_long (decode u.value).immediate + to_long (decode i.value).immediate)
unfolding get_lui_base_imm_value
lui_addi-value lui addi s t =
    let (_, _, _, _, upper) = seq_lui-decoded lui s in
    let lower = seq_addi-immediate addi t in
    let u = seq_lui-imm lui s in
    let i = seq_addi-imm addi t in
    let high = sign_extend-32 (shl64 (to_long (seq_lui lui s).0.imm) 12) in
    let low = sign_extend-12 (to_long (seq_addi addi t).0.imm) in
    ground (arith, upper, lower, u, i, high, low)
