-- ===== src/Riscv/Sequences/Dispatch/Branches.antt =====
-- `set_btype`: the conditional branches.
use verilog.Common.{ℕ, ◌*◌, ◌%◌, ◌<◌, ◌≡◌, ◌≢◌, refl, true, false, arith}
use verilog.Riscv.Isa.{Config, opcode_b_type}
use verilog.Riscv.Commands.{BType}
use verilog.Riscv.Sequencer.{Sequencer, push_seq}
use verilog.Riscv.Sequences.Btype.{seq_btype, set_btype}
use verilog.Riscv.Sequences.RoundTrip.{sext32, decode-seq_btype, seq_btype-opcode}
use verilog.Riscv.Rtl.Decode.{Decoded, decode}
use verilog.Riscv.Rtl.Control.{control, alu_op_of}

-- The comparisons of the branches.
pub data Compare : Type 0 where
  beq bne blt bge bltu bgeu : Compare

abbrev pub branch_code : Compare → ℕ
branch_code beq = 0
branch_code bne = 1
branch_code blt = 4
branch_code bge = 5
branch_code bltu = 6
branch_code bgeu = 7

abbrev branch_for : Compare → BType → BType
branch_for o cmd = record cmd { opcode = opcode_b_type; funct3 = branch_code o }

set_btype-seq_btype :
    (o : Compare) (cmd : BType) (sqr : Sequencer)
    → set_btype cmd (branch_code o) sqr ≡ seq_btype (branch_for o cmd) sqr
unfolding set_btype
set_btype-seq_btype beq cmd sqr = refl
set_btype-seq_btype _ cmd sqr = refl

branch_code_lem : (o : Compare) → (branch_code o < 8) × (branch_code o ≢ 2) × (branch_code o ≢ 3)
branch_code_lem beq = omega arith
branch_code_lem _ = omega arith

-- What the core makes of a branch: it compares registers `rs1` and `rs2` by `o`, and the ALU adds
-- the offset to `pc`.
abbrev pub BranchesBy : Config → Decoded → BType → Compare → Type 0
BranchesBy cfg d cmd o =
    (d.kinds.b_type ≡ true)
    × (d.funct3 ≡ branch_code o)
    × (d.illegal ≡ false)
    × (d.rs1_addr ≡ cmd.rs1 % 32)
    × (d.rs2_addr ≡ cmd.rs2 % 32)
    × (d.immediate ≡ sext32 13 (cmd.imm * 2))
    × ((control cfg d).alub_sel ≡ true)
    × ((control cfg d).alu_op ≡ 0)
    × ((control cfg d).rf_wr_en ≡ false)
    × ((control cfg d).dmem_req ≡ false)
    × ((control cfg d).alua_sel ≡ true)
    × ((control cfg d).pc_sel ≡ false)

branch-BranchesBy :
    (cfg : Config) (cmd : BType) (sqr : Sequencer) (o : Compare)
    → BranchesBy cfg (decode (seq_btype (branch_for o cmd) sqr).0.value) cmd o
unfolding control alu_op_of
branch-BranchesBy cfg cmd sqr o =
    let (small, two, three) = branch_code_lem o in
    let (kinds, legal, f3, rs1, rs2, imm) =
      decode-seq_btype (branch_for o cmd) sqr refl small two three in
    ground
      (arith, kinds, legal, f3, rs1, rs2, imm, seq_btype-opcode (branch_for o cmd) sqr refl small)

branch-pushes :
    (cmd : BType) (sqr : Sequencer)
    → let (c, sqr') = seq_btype cmd sqr in sqr' ≡ push_seq c.value sqr
unfolding seq_btype
branch-pushes cmd sqr = refl

-- For each comparison `set_btype` pushes one command, which the core takes for the branch by that
-- comparison.
pub set_btype-BranchesBy :
    (cfg : Config) (cmd : BType) (sqr : Sequencer) (o : Compare)
    → let (c, sqr') = set_btype cmd (branch_code o) sqr in
      BranchesBy cfg (decode c.value) cmd o × (sqr' ≡ push_seq c.value sqr)
set_btype-BranchesBy cfg cmd sqr o =
    rw (set_btype-seq_btype o cmd sqr)
      (branch-BranchesBy cfg cmd sqr o, branch-pushes (branch_for o cmd) sqr)
