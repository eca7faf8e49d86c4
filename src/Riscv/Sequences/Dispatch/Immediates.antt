-- ===== src/Riscv/Sequences/Dispatch/Immediates.antt =====
-- `set_itype_arithmetic`: arithmetic with an immediate, in both builds.
use verilog.Common.{
  ℕ, ◌%◌, ◌^◌, ◌<◌, ◌≡◌, inl, inr, refl, Bool, true, false, ◌&&◌, arith, leb, ◌==◌, truth,
  if◌then◌else◌,
}
use verilog.Common.Bits.{and_low}
use verilog.Riscv.Isa.{Config, opcode_i_type_alu, opcode_itype_imm_32}
use verilog.Riscv.Commands.{IType}
use verilog.Riscv.Sequencer.{Sequencer, push_seq}
use verilog.Riscv.Sequences.Itype.{seq_itype}
use verilog.Riscv.Sequences.Itype.Arithmetic.{set_itype_arithmetic}
use verilog.Riscv.Sequences.Dispatch.{
  AluOp, add, sub, sll, srl, sra, code, funct3_for, has_word_form,
}
use verilog.Riscv.Sequences.RoundTrip.{
  sext32, IsItypeOpcode, decode-seq_itype, decode-seq_itype_bit30,
}
use verilog.Riscv.Rtl.Decode.{Decoded, no_kind, decode}
use verilog.Riscv.Rtl.Control.{control, alu_op_of, rf_wr_data_sel_of, sel_alu, bit_of}

-- The operations that have an immediate form.
abbrev pub has_immediate : AluOp → Bool
has_immediate sub = false
has_immediate _ = true

abbrev pub is_shift : AluOp → Bool
is_shift sll = true
is_shift srl = true
is_shift sra = true
is_shift _ = false

-- The bits of a shift amount: 5, or 6 for a full shift in the 64-bit build.
abbrev pub amount_bits : Config → Bool → ℕ
amount_bits cfg word = if word then 5 else if leb 64 cfg.xlen then 6 else 5

-- The immediate that the ALU should get: the 12 bits sign extended, or the shift amount.
abbrev pub operand : Config → AluOp → Bool → ℕ → ℕ
operand cfg sll word imm = imm % 2 ^ amount_bits cfg word
operand cfg srl word imm = imm % 2 ^ amount_bits cfg word
operand cfg sra word imm = imm % 2 ^ amount_bits cfg word
operand cfg _ word imm = sext32 12 imm

-- The immediate that `set_itype_arithmetic` passes on.
abbrev pub passed_imm : Config → AluOp → Bool → ℕ → ℕ
passed_imm cfg o word imm = if is_shift o then imm % 2 ^ amount_bits cfg word else imm

abbrev bit30_for : AluOp → ℕ
bit30_for sra = 1
bit30_for _ = 0

abbrev imm_command : Config → AluOp → Bool → IType → IType
imm_command cfg o word cmd = record cmd {
  opcode = if word then opcode_itype_imm_32 else opcode_i_type_alu;
  funct3 = funct3_for o;
  imm = passed_imm cfg o word cmd.imm;
}

set_itype_arithmetic-seq_itype :
    (cfg : Config) (o : AluOp) (cmd : IType) (op32 : ℕ) (sqr : Sequencer)
    → has_immediate o ≡ true
    → set_itype_arithmetic cfg cmd (code o) op32 sqr
      ≡ seq_itype (bit30_for o) (imm_command cfg o (truth op32 && has_word_form o) cmd) sqr
unfolding set_itype_arithmetic
set_itype_arithmetic-seq_itype cfg sub cmd op32 sqr h = absurd (cc)
set_itype_arithmetic-seq_itype cfg _ cmd op32 sqr h =
    ground (arith, and_low 5 cmd.imm, and_low 6 cmd.imm)

funct3_for-lt : (o : AluOp) → funct3_for o < 8
funct3_for-lt add = omega arith
funct3_for-lt _ = omega arith

imm_opcode :
    (word : Bool)
    → let opcode : ℕ = if word then opcode_itype_imm_32 else opcode_i_type_alu in
      IsItypeOpcode opcode
      × ((opcode == opcode_itype_imm_32) ≡ word)
      × (bit_of opcode 4 ≡ true)
      × (rf_wr_data_sel_of opcode ≡ sel_alu)
      × (bit_of opcode 5 ≡ false)
unfolding rf_wr_data_sel_of
imm_opcode true = (inr (inl refl), refl, refl, refl, refl)
imm_opcode false = (inl refl, refl, refl, refl, refl)

-- The ALU operation of an immediate command depends on `funct7` for the right shifts alone.
alu_op-immediate :
    (o : AluOp) (word : Bool) (opcode funct7 : ℕ)
    → has_immediate o ≡ true
    → bit_of opcode 4 ≡ true
    → (o ≡ srl → bit_of funct7 5 ≡ false)
    → (o ≡ sra → bit_of funct7 5 ≡ true)
    → alu_op_of (record no_kind { i_type = true; is_op32 = word }) opcode (funct3_for o) funct7
      ≡ code o
unfolding alu_op_of
alu_op-immediate sub word opcode funct7 h four zero_bit one_bit = absurd (cc)
alu_op-immediate srl word opcode funct7 h four zero_bit one_bit = ground (arith, zero_bit refl)
alu_op-immediate sra word opcode funct7 h four zero_bit one_bit = ground (arith, one_bit refl)
alu_op-immediate _ word opcode funct7 h four zero_bit one_bit = ground arith

-- What the core makes of an immediate command: the ALU operation `o` on register `rs1` and the
-- operand into `rd`, on 32-bit words if `word`. A shift reads the low bits of the immediate alone.
abbrev pub ComputesI : Config → Decoded → IType → AluOp → Bool → Type 0
ComputesI cfg d cmd o word =
    ((control cfg d).alu_op ≡ code o)
    × ((control cfg d).alub_sel ≡ true)
    × ((control cfg d).rf_wr_en ≡ true)
    × ((control cfg d).rf_wr_data_sel ≡ sel_alu)
    × ((control cfg d).dmem_req ≡ false)
    × (d.kinds.is_op32 ≡ word)
    × (d.illegal ≡ false)
    × (d.rd_addr ≡ cmd.rd % 32)
    × (d.rs1_addr ≡ cmd.rs1 % 32)
    × ((if is_shift o then d.immediate % 2 ^ amount_bits cfg false else d.immediate)
        ≡ operand cfg o word cmd.imm)
    × ((control cfg d).alua_sel ≡ false)

shift_amount-lt : (cfg : Config) (word : Bool) (imm : ℕ) → imm % 2 ^ amount_bits cfg word < 64
shift_amount-lt cfg word imm = ground arith

immediate-ComputesI :
    (cfg : Config) (cmd : IType) (sqr : Sequencer) (o : AluOp) (word : Bool)
    → has_immediate o ≡ true
    → ComputesI cfg
        (decode (seq_itype (bit30_for o) (imm_command cfg o word cmd) sqr).0.value)
        cmd
        o
        word
unfolding control
immediate-ComputesI cfg cmd sqr sub word h = absurd (cc)
immediate-ComputesI cfg cmd sqr sra word h =
    let (legal_op, word_op, four, sel, five) = imm_opcode word in
    let (op, kinds, legal, f3, f7, rd, rs1, imm) =
      decode-seq_itype_bit30 (imm_command cfg sra word cmd) sqr legal_op (omega arith)
        (shift_amount-lt cfg word cmd.imm) in
    let d = decode (seq_itype 1 (imm_command cfg sra word cmd) sqr).0.value in
    ground (
      arith,
      op,
      kinds,
      legal,
      f3,
      rd,
      rs1,
      imm,
      f7,
      word_op,
      four,
      five,
      sel,
      shift_amount-lt cfg word cmd.imm,
      alu_op-immediate sra word d.opcode d.funct7 refl,
    )
immediate-ComputesI cfg cmd sqr o word h =
    let (legal_op, word_op, four, sel, five) = imm_opcode word in
    let (op, kinds, legal, f3, rd, rs1, imm, f7) =
      decode-seq_itype (imm_command cfg o word cmd) sqr legal_op (funct3_for-lt o) in
    let d = decode (seq_itype 0 (imm_command cfg o word cmd) sqr).0.value in
    ground (
      arith,
      op,
      kinds,
      legal,
      f3,
      rd,
      rs1,
      imm,
      word_op,
      four,
      five,
      sel,
      alu_op-immediate o word d.opcode d.funct7 refl,
    )

immediate-pushes :
    (bit30 : ℕ) (cmd : IType) (sqr : Sequencer)
    → let (c, sqr') = seq_itype bit30 cmd sqr in sqr' ≡ push_seq c.value sqr
unfolding seq_itype
immediate-pushes bit30 cmd sqr = refl

-- For each ALU operation that has an immediate form, `set_itype_arithmetic` pushes one command,
-- which the core takes for that operation on register `rs1` and the immediate (the shift amount cut
-- to the width of the operation), in the 32-bit form exactly where `op32imm` asks for it and the
-- form exists.
pub set_itype_arithmetic-ComputesI :
    (cfg : Config) (cmd : IType) (op32 : ℕ) (sqr : Sequencer) (o : AluOp)
    → has_immediate o ≡ true
    → let (c, sqr') = set_itype_arithmetic cfg cmd (code o) op32 sqr in
      ComputesI cfg (decode c.value) cmd o (truth op32 && has_word_form o)
      × (sqr' ≡ push_seq c.value sqr)
set_itype_arithmetic-ComputesI cfg cmd op32 sqr o h =
    let w = truth op32 && has_word_form o in
    rw (set_itype_arithmetic-seq_itype cfg o cmd op32 sqr h) (
      immediate-ComputesI cfg cmd sqr o w h,
      immediate-pushes (bit30_for o) (imm_command cfg o w cmd) sqr,
    )

-- The fields that the command keeps.
pub set_itype_arithmetic-fields :
    (cfg : Config) (cmd : IType) (op32 : ℕ) (sqr : Sequencer) (o : AluOp)
    → has_immediate o ≡ true
    → let c = (set_itype_arithmetic cfg cmd (code o) op32 sqr).0 in
      (c.rd ≡ cmd.rd % 32)
      × (c.imm ≡ passed_imm cfg o (truth op32 && has_word_form o) cmd.imm % 2 ^ 12)
unfolding seq_itype
set_itype_arithmetic-fields cfg cmd op32 sqr o h =
    let w = truth op32 && has_word_form o in
    rw (set_itype_arithmetic-seq_itype cfg o cmd op32 sqr h)
      (and_low 5 cmd.rd, and_low 12 (passed_imm cfg o w cmd.imm))
