-- ===== src/Riscv/Sequences/Dispatch/Registers.antt =====
-- `set_rtype`: the register to register commands.
use verilog.Common.{
  ℕ, ◌%◌, ◌<◌, ◌≡◌, ◌⊎◌, inl, inr, refl, Bool, true, false, ◌&&◌, arith, ◌==◌, truth, if◌then◌else◌,
}
use verilog.Common.Bits.{and_low}
use verilog.Riscv.Isa.{Config, opcode_r_type, opcode_rtype_32}
use verilog.Riscv.Commands.{RType}
use verilog.Riscv.Sequencer.{Sequencer, push_seq}
use verilog.Riscv.Sequences.Rtype.{seq_rtype, set_rtype}
use verilog.Riscv.Sequences.Dispatch.{
  AluOp, add, sub, sra, code, funct3_for, funct7_for, has_word_form,
}
use verilog.Riscv.Sequences.RoundTrip.{decode-seq_rtype}
use verilog.Riscv.Rtl.Decode.{Decoded, no_kind, decode}
use verilog.Riscv.Rtl.Control.{control, alu_op_of, rf_wr_data_sel_of, sel_alu}

-- The command that `set_rtype` gives to `seq_rtype`.
abbrev rtype_for : AluOp → Bool → RType → RType
rtype_for o word cmd = record cmd {
  opcode = if word then opcode_rtype_32 else opcode_r_type;
  funct3 = funct3_for o;
  funct7 = funct7_for o;
}

set_rtype-seq_rtype :
    (o : AluOp) (cmd : RType) (op32 : ℕ) (sqr : Sequencer)
    → set_rtype cmd (code o) op32 sqr
      ≡ seq_rtype (rtype_for o (truth op32 && has_word_form o) cmd) sqr
unfolding set_rtype
set_rtype-seq_rtype add cmd op32 sqr = ground arith
set_rtype-seq_rtype _ cmd op32 sqr = ground arith

funct3_for-lt : (o : AluOp) → funct3_for o < 8
funct3_for-lt add = omega arith
funct3_for-lt _ = omega arith

funct7_for-lt : (o : AluOp) → funct7_for o < 128
funct7_for-lt sub = omega arith
funct7_for-lt sra = omega arith
funct7_for-lt _ = omega arith

alu_op-rtype :
    (o : AluOp) (word : Bool) (opcode : ℕ)
    → alu_op_of
        (record no_kind { r_type = true; is_op32 = word })
        opcode
        (funct3_for o)
        (funct7_for o)
      ≡ code o
unfolding alu_op_of
alu_op-rtype add word opcode = refl
alu_op-rtype _ word opcode = refl

rtype-opcode :
    (word : Bool)
    → let opcode : ℕ = if word then opcode_rtype_32 else opcode_r_type in
      ((opcode ≡ opcode_r_type) ⊎ (opcode ≡ opcode_rtype_32))
      × ((opcode == opcode_rtype_32) ≡ word)
      × (rf_wr_data_sel_of opcode ≡ sel_alu)
unfolding rf_wr_data_sel_of
rtype-opcode true = (inr refl, refl, refl)
rtype-opcode false = (inl refl, refl, refl)

-- What the core makes of a register command: the ALU operation `o` on registers `rs1` and `rs2`
-- into `rd`, on 32-bit words if `word`.
abbrev pub ComputesR : Config → Decoded → RType → AluOp → Bool → Type 0
ComputesR cfg d cmd o word =
    ((control cfg d).alu_op ≡ code o)
    × ((control cfg d).alub_sel ≡ false)
    × ((control cfg d).rf_wr_en ≡ true)
    × ((control cfg d).dmem_req ≡ false)
    × (d.kinds.is_op32 ≡ word)
    × (d.illegal ≡ false)
    × (d.rd_addr ≡ cmd.rd % 32)
    × (d.rs1_addr ≡ cmd.rs1 % 32)
    × (d.rs2_addr ≡ cmd.rs2 % 32)
    × ((control cfg d).alua_sel ≡ false)
    × ((control cfg d).rf_wr_data_sel ≡ sel_alu)

rtype-ComputesR :
    (cfg : Config) (cmd : RType) (sqr : Sequencer) (o : AluOp) (word : Bool)
    → ComputesR cfg (decode (seq_rtype (rtype_for o word cmd) sqr).0.value) cmd o word
unfolding control
rtype-ComputesR cfg cmd sqr o word =
    let (kinds, legal, f3, f7, rd, rs1, rs2, op) =
      decode-seq_rtype (rtype_for o word cmd) sqr (rtype-opcode word).0 (funct3_for-lt o)
        (funct7_for-lt o) in
    ground (
      arith,
      kinds,
      legal,
      f3,
      f7,
      rd,
      rs1,
      rs2,
      op,
      (rtype-opcode word).1,
      (rtype-opcode word).2,
      (rtype-opcode word).0,
      alu_op-rtype o word (decode (seq_rtype (rtype_for o word cmd) sqr).0.value).opcode,
    )

rtype-pushes :
    (o : AluOp) (word : Bool) (cmd : RType) (sqr : Sequencer)
    → let (c, sqr') = seq_rtype (rtype_for o word cmd) sqr in sqr' ≡ push_seq c.value sqr
unfolding seq_rtype
rtype-pushes o word cmd sqr = refl

-- For each ALU operation, `set_rtype` pushes one command, which the core takes for that operation
-- on the given registers, in the 32-bit form exactly where `op32` asks for it and the form exists.
pub set_rtype-ComputesR :
    (cfg : Config) (cmd : RType) (op32 : ℕ) (sqr : Sequencer) (o : AluOp)
    → let (c, sqr') = set_rtype cmd (code o) op32 sqr in
      ComputesR cfg (decode c.value) cmd o (truth op32 && has_word_form o)
      × (sqr' ≡ push_seq c.value sqr)
set_rtype-ComputesR cfg cmd op32 sqr o =
    let w = truth op32 && has_word_form o in
    rw (set_rtype-seq_rtype o cmd op32 sqr)
      (rtype-ComputesR cfg cmd sqr o w, rtype-pushes o w cmd sqr)

-- The destination that the command keeps.
pub set_rtype-rd :
    (cmd : RType) (op32 : ℕ) (sqr : Sequencer) (o : AluOp)
    → (set_rtype cmd (code o) op32 sqr).0.rd ≡ cmd.rd % 32
unfolding seq_rtype
set_rtype-rd cmd op32 sqr o = rw (set_rtype-seq_rtype o cmd op32 sqr) (and_low 5 cmd.rd)
