-- ===== src/Riscv/Sequences/Dispatch/System.antt =====
-- `set_csr` and the system commands.
use verilog.Common.{ℕ, ◌%◌, ◌^◌, ◌<◌, ◌≡◌, ◌≢◌, refl, true, false, arith}
use verilog.Riscv.Isa.{Config, opcode_system}
use verilog.Riscv.Commands.{IType}
use verilog.Riscv.Sequencer.{Sequencer, push_seq}
use verilog.Riscv.Sequences.Itype.{seq_itype, seq_ebreak, seq_ecall, seq_mret}
use verilog.Riscv.Sequences.Itype.Csr.{set_csr}
use verilog.Riscv.Sequences.Fields.{itype_sum}
use verilog.Riscv.Rtl.Decode.{Decoded, no_kind, decode, imm_i}
use verilog.Riscv.Rtl.Decode.Kinds.{decode_csr, decode_sys, decode_addresses}
use verilog.Riscv.Rtl.Control.{control, alu_op_of}

-- The accesses to a control register: write, set or clear bits, from a register or an immediate.
pub data CsrOp : Type 0 where
  csrrw csrrs csrrc csrrwi csrrsi csrrci : CsrOp

abbrev pub csr_code : CsrOp → ℕ
csr_code csrrw = 1
csr_code csrrs = 2
csr_code csrrc = 3
csr_code csrrwi = 5
csr_code csrrsi = 6
csr_code csrrci = 7

-- The ALU operation by which the core computes the register's new value: a plain pass for a
-- write, OR to set, AND with the inverted operand to clear.
abbrev pub csr_alu : CsrOp → ℕ
csr_alu csrrw = 0
csr_alu csrrwi = 0
csr_alu csrrs = 7
csr_alu csrrsi = 7
csr_alu csrrc = 6
csr_alu csrrci = 6

abbrev csr_for : CsrOp → IType → IType
csr_for o cmd = record cmd { opcode = opcode_system; funct3 = csr_code o }

set_csr-seq_itype :
    (o : CsrOp) (cmd : IType) (sqr : Sequencer)
    → set_csr cmd (csr_code o) sqr ≡ seq_itype 0 (csr_for o cmd) sqr
unfolding set_csr
set_csr-seq_itype csrrw cmd sqr = refl
set_csr-seq_itype _ cmd sqr = refl

csr_code_lem : (o : CsrOp) → (csr_code o < 8) × (csr_code o ≢ 0) × (csr_code o ≢ 4)
csr_code_lem csrrw = omega arith
csr_code_lem _ = omega arith

csr_alu_lem :
    (o : CsrOp) (opcode funct7 : ℕ)
    → alu_op_of (record no_kind { i_type = true; c_type = true }) opcode (csr_code o) funct7
      ≡ csr_alu o
unfolding alu_op_of
csr_alu_lem csrrw opcode funct7 = refl
csr_alu_lem _ opcode funct7 = refl

-- What the core makes of a CSR command: the access `o` to the register whose address is in the low
-- 12 bits of the immediate, with register or immediate `rs1`, and the old value into `rd`.
abbrev pub Accesses : Config → Decoded → IType → CsrOp → Type 0
Accesses cfg d cmd o =
    (d.kinds.c_type ≡ true)
    × (d.funct3 ≡ csr_code o)
    × (d.illegal ≡ false)
    × (d.rd_addr ≡ cmd.rd % 32)
    × (d.rs1_addr ≡ cmd.rs1 % 32)
    × (d.immediate % 2 ^ 12 ≡ cmd.imm % 2 ^ 12)
    × ((control cfg d).alu_op ≡ csr_alu o)
    × ((control cfg d).rf_wr_en ≡ true)

csr-Accesses :
    (cfg : Config) (cmd : IType) (sqr : Sequencer) (o : CsrOp)
    → Accesses cfg (decode (seq_itype 0 (csr_for o cmd) sqr).0.value) cmd o
unfolding control imm_i
csr-Accesses cfg cmd sqr o =
    let (small, not_zero, not_four) = csr_code_lem o in
    let v = (seq_itype 0 (csr_for o cmd) sqr).0.value in
    let sum = itype_sum 0 (csr_for o cmd) sqr (omega arith) small in
    let kinds = decode_csr v (omega (arith, sum)) (omega (arith, sum)) (omega (arith, sum)) in
    ground (
      arith,
      sum,
      kinds,
      small,
      decode_addresses v,
      csr_alu_lem o (decode v).opcode (decode v).funct7,
    )

csr-pushes :
    (cmd : IType) (sqr : Sequencer)
    → let (c, sqr') = seq_itype 0 cmd sqr in sqr' ≡ push_seq c.value sqr
unfolding seq_itype
csr-pushes cmd sqr = refl

-- For each access `set_csr` pushes one command, which the core takes for that access to the control
-- register that `imm` names.
pub set_csr-Accesses :
    (cfg : Config) (cmd : IType) (sqr : Sequencer) (o : CsrOp)
    → let (c, sqr') = set_csr cmd (csr_code o) sqr in
      Accesses cfg (decode c.value) cmd o × (sqr' ≡ push_seq c.value sqr)
set_csr-Accesses cfg cmd sqr o =
    rw (set_csr-seq_itype o cmd sqr) (csr-Accesses cfg cmd sqr o, csr-pushes (csr_for o cmd) sqr)

-- What the core makes of a system command: a legal one, with its number in the immediate.
abbrev pub IsSystem : Decoded → ℕ → Type 0
IsSystem d number =
    (d.kinds ≡ record no_kind { i_type = true; y_type = true })
    × (d.illegal ≡ false)
    × (d.immediate ≡ number)

seq_itype-IsSystem :
    (number : ℕ) (cmd : IType) (sqr : Sequencer)
    → number < 2 ^ 11
    → cmd.funct3 ≡ 0
    → IsSystem
        (decode
          (seq_itype 0
            (record cmd { opcode = opcode_system; rd = 0; rs1 = 0; imm = number })
            sqr).0.value)
        number
unfolding imm_i
seq_itype-IsSystem number cmd sqr small f =
    let c = record cmd { opcode = opcode_system; rd = 0; rs1 = 0; imm = number } in
    let v = (seq_itype 0 c sqr).0.value in
    let sum = itype_sum 0 c sqr (omega arith) (omega arith) in
    let kinds =
      decode_sys v (omega (arith, sum)) (omega (arith, sum)) (omega (arith, sum))
        (omega (arith, sum)) in
    ground (arith, sum, kinds)

-- On a command whose `funct3` is still 0, `seq_ebreak`, `seq_ecall` and `seq_mret` push one command
-- each, which the core takes for the legal system commands with the numbers of EBREAK, ECALL and MRET.
pub privileged-IsSystem :
    (cmd : IType) (sqr : Sequencer)
    → cmd.funct3 ≡ 0
    → let (ebreak, sqr_ebreak) = seq_ebreak cmd sqr in
      let (ecall, sqr_ecall) = seq_ecall cmd sqr in
      let (mret, sqr_mret) = seq_mret cmd sqr in
      IsSystem (decode ebreak.value) 1
      × (sqr_ebreak ≡ push_seq ebreak.value sqr)
      × IsSystem (decode ecall.value) 0
      × (sqr_ecall ≡ push_seq ecall.value sqr)
      × IsSystem (decode mret.value) 0x302
      × (sqr_mret ≡ push_seq mret.value sqr)
unfolding seq_ebreak seq_ecall seq_mret seq_itype
privileged-IsSystem cmd sqr f = (
  seq_itype-IsSystem 1 cmd sqr (omega arith) f,
  refl,
  seq_itype-IsSystem 0 cmd sqr (omega arith) f,
  refl,
  seq_itype-IsSystem 0x302 cmd sqr (omega arith) f,
  refl,
)
