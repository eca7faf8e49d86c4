-- ===== src/Riscv/Sequences/RoundTrip.antt =====
-- RISCV_SingleCycle/testbench/sequences.cpp: commands, and what the core's decoder reads in them.
use verilog.Common.{
  refl, ℕ, ◌+◌, ◌-◌, ◌*◌, ◌/◌, ◌%◌, ◌^◌, ◌<◌, ◌≡◌, ◌≢◌, true, false, arith, ltb, ◌==◌, ◌⊎◌, inl,
  inr, ◌∙◌, if◌then◌else◌,
}
use verilog.Riscv.Isa.{
  opcode_s_type, opcode_b_type, opcode_u_type_lui, opcode_u_type_auipc, opcode_u_type_jal,
  opcode_r_type, opcode_rtype_32, opcode_i_type_alu, opcode_itype_imm_32, opcode_i_type_load,
  opcode_i_type_jalr,
}
use verilog.Riscv.Commands.{UType, SType, IType, BType, RType}
use verilog.Riscv.Sequencer.{push_seq, Sequencer}
use verilog.Riscv.Sequences.Utype.{seq_utype, seq_lui, seq_auipc, seq_jal}
use verilog.Riscv.Sequences.Stype.{seq_stype}
use verilog.Riscv.Sequences.Btype.{seq_btype}
use verilog.Riscv.Sequences.Rtype.{seq_rtype}
use verilog.Riscv.Sequences.Itype.{seq_itype}
use verilog.Riscv.Sequences.Fields.{
  utype_sum, itype_sum, rtype_sum, jal_sum, jal_imm_sum, stype_sum, btype_sum, btype_imm_sum,
}
use verilog.Riscv.Rtl.Decode.{Kind, no_kind, decode, imm_s, imm_b, imm_u, imm_j, imm_i}
use verilog.Riscv.Rtl.Decode.Kinds.{
  decode_s, decode_lui, decode_auipc, decode_jal, decode_b, decode_addresses, decode_r, decode_r32,
  decode_alu, decode_alu32, decode_load, decode_jalr,
}

-- The low `n` bits of `x`, sign extended to 32 bits.
abbrev pub sext32 : ℕ → ℕ → ℕ
sext32 n x = if ltb (x % 2 ^ n) (2 ^ (n - 1)) then x % 2 ^ n else x % 2 ^ n + (2 ^ 32 - 2 ^ n)

-- A store: the command that `seq_stype` pushes decodes to a legal store of register `rs2` with the
-- width `funct3`, at register `rs1` plus the 12-bit immediate, sign extended.
pub decode-seq_stype :
    (cmd : SType) (sqr : Sequencer)
    → cmd.opcode ≡ opcode_s_type
    → cmd.funct3 < 8
    → let d = decode (seq_stype cmd sqr).0.value in
      (d.kinds ≡ record no_kind { s_type = true })
      × (d.illegal ≡ false)
      × (d.funct3 ≡ cmd.funct3)
      × (d.rs1_addr ≡ cmd.rs1 % 32)
      × (d.rs2_addr ≡ cmd.rs2 % 32)
      × (d.immediate ≡ sext32 12 cmd.imm)
      × (d.opcode ≡ cmd.opcode)
unfolding imm_s
decode-seq_stype cmd sqr op f =
    let v = (seq_stype cmd sqr).0.value in
    let sum = stype_sum cmd sqr (omega arith) f in
    ground (arith, sum, decode_s v (omega (arith, sum)), decode_addresses v)

pub seq_lui-decoded :
    (cmd : UType) (sqr : Sequencer)
    → let d = decode (seq_lui cmd sqr).0.value in
      (d.opcode ≡ opcode_u_type_lui)
      × (d.kinds ≡ record no_kind { u_type = true })
      × (d.illegal ≡ false)
      × (d.rd_addr ≡ cmd.rd % 32)
      × (d.immediate ≡ cmd.imm % 2 ^ 20 * 2 ^ 12)
unfolding imm_u
seq_lui-decoded cmd sqr =
    let v = (seq_lui cmd sqr).0.value in
    let sum : v ≡ 55 + cmd.rd % 32 * 128 + cmd.imm % 2 ^ 20 * 4096 =
      unfold seq_lui in utype_sum (record cmd { opcode = opcode_u_type_lui }) sqr (omega arith) in
    ground (arith, sum, decode_lui v (omega (arith, sum)), decode_addresses v)

pub seq_lui-pushes :
    (cmd : UType) (sqr : Sequencer) → (seq_lui cmd sqr).1 ≡ push_seq (seq_lui cmd sqr).0.value sqr
unfolding seq_lui seq_utype
seq_lui-pushes cmd sqr = refl

-- LUI: `seq_lui` pushes one command, which decodes to a legal U type command with opcode LUI, for
-- register `rd`, with the low 20 bits of `imm` as the upper bits of the immediate.
pub decode-seq_lui :
    (cmd : UType) (sqr : Sequencer)
    → let (c, sqr') = seq_lui cmd sqr in
      let d = decode c.value in
      (sqr' ≡ push_seq c.value sqr)
      × (d.opcode ≡ opcode_u_type_lui)
      × (d.kinds ≡ record no_kind { u_type = true })
      × (d.illegal ≡ false)
      × (d.rd_addr ≡ cmd.rd % 32)
      × (d.immediate ≡ cmd.imm % 2 ^ 20 * 2 ^ 12)
decode-seq_lui cmd sqr =
    let (op, kinds, legal, rd, imm) = seq_lui-decoded cmd sqr in
    (seq_lui-pushes cmd sqr, op, kinds, legal, rd, imm)

pub decode-seq_auipc :
    (cmd : UType) (sqr : Sequencer)
    → let d = decode (seq_auipc cmd sqr).0.value in
      (d.opcode ≡ opcode_u_type_auipc)
      × (d.kinds ≡ record no_kind { u_type = true })
      × (d.illegal ≡ false)
      × (d.rd_addr ≡ cmd.rd % 32)
      × (d.immediate ≡ cmd.imm % 2 ^ 20 * 2 ^ 12)
unfolding imm_u
decode-seq_auipc cmd sqr =
    let v = (seq_auipc cmd sqr).0.value in
    let sum : v ≡ 23 + cmd.rd % 32 * 128 + cmd.imm % 2 ^ 20 * 4096 =
      unfold seq_auipc in
      utype_sum (record cmd { opcode = opcode_u_type_auipc }) sqr (omega arith) in
    ground (arith, sum, decode_auipc v (omega (arith, sum)), decode_addresses v)

pub seq_jal-decoded :
    (cmd : UType) (sqr : Sequencer)
    → let d = decode (seq_jal cmd sqr).0.value in
      (d.kinds ≡ record no_kind { j_type = true })
      × (d.illegal ≡ false)
      × (d.rd_addr ≡ cmd.rd % 32)
      × (d.immediate ≡ sext32 21 (cmd.imm * 2))
unfolding imm_j
seq_jal-decoded cmd sqr =
    let v = (seq_jal cmd sqr).0.value in
    let sum = jal_sum cmd sqr in
    let imm = jal_imm_sum (cmd.imm % 2 ^ 20 * 2) in
    ground (arith, sum, imm, decode_jal v (omega (arith, sum, imm)), decode_addresses v)

pub seq_jal-pushes :
    (cmd : UType) (sqr : Sequencer) → (seq_jal cmd sqr).1 ≡ push_seq (seq_jal cmd sqr).0.value sqr
unfolding seq_jal
seq_jal-pushes cmd sqr = refl

-- JAL: `seq_jal` pushes one command, which decodes to a legal jump that links register `rd`, whose
-- offset is twice the 20-bit `imm`, sign extended from 21 bits.
pub decode-seq_jal :
    (cmd : UType) (sqr : Sequencer)
    → let (c, sqr') = seq_jal cmd sqr in
      let d = decode c.value in
      (sqr' ≡ push_seq c.value sqr)
      × (d.kinds ≡ record no_kind { j_type = true })
      × (d.illegal ≡ false)
      × (d.rd_addr ≡ cmd.rd % 32)
      × (d.immediate ≡ sext32 21 (cmd.imm * 2))
decode-seq_jal cmd sqr =
    let (kinds, legal, rd, imm) = seq_jal-decoded cmd sqr in
    (seq_jal-pushes cmd sqr, kinds, legal, rd, imm)

pub seq_jal-opcode :
    (cmd : UType) (sqr : Sequencer) → (decode (seq_jal cmd sqr).0.value).opcode ≡ opcode_u_type_jal
seq_jal-opcode cmd sqr =
    let v = (seq_jal cmd sqr).0.value in
    let sum = jal_sum cmd sqr in
    let imm = jal_imm_sum (cmd.imm % 2 ^ 20 * 2) in ground (arith, sum, imm, decode_addresses v)

-- A branch: the command that `seq_btype` pushes decodes to a legal branch that compares registers
-- `rs1` and `rs2` by `funct3`, whose offset is twice the 12-bit `imm`, sign extended from 13 bits.
pub decode-seq_btype :
    (cmd : BType) (sqr : Sequencer)
    → cmd.opcode ≡ opcode_b_type
    → cmd.funct3 < 8
    → cmd.funct3 ≢ 2
    → cmd.funct3 ≢ 3
    → let d = decode (seq_btype cmd sqr).0.value in
      (d.kinds ≡ record no_kind { b_type = true })
      × (d.illegal ≡ false)
      × (d.funct3 ≡ cmd.funct3)
      × (d.rs1_addr ≡ cmd.rs1 % 32)
      × (d.rs2_addr ≡ cmd.rs2 % 32)
      × (d.immediate ≡ sext32 13 (cmd.imm * 2))
unfolding imm_b
decode-seq_btype cmd sqr op f two three =
    let v = (seq_btype cmd sqr).0.value in
    let sum = btype_sum cmd sqr (omega arith) f in
    let imm = btype_imm_sum (cmd.imm % 4096 * 2) in
    let kinds =
      decode_b v (omega (arith, sum, imm)) (omega (arith, sum, imm)) (omega (arith, sum, imm)) in
    ground (arith, sum, imm, kinds, decode_addresses v)

pub seq_btype-opcode :
    (cmd : BType) (sqr : Sequencer)
    → cmd.opcode ≡ opcode_b_type
    → cmd.funct3 < 8
    → (decode (seq_btype cmd sqr).0.value).opcode ≡ opcode_b_type
seq_btype-opcode cmd sqr op f =
    let v = (seq_btype cmd sqr).0.value in
    let sum = btype_sum cmd sqr (omega arith) f in
    let imm = btype_imm_sum (cmd.imm % 4096 * 2) in ground (arith, sum, imm, decode_addresses v)

-- A register command: what `seq_rtype` pushes has its three registers, `funct3` and `funct7` where
-- the decoder reads them, for both of its opcodes; it is legal, and 32 bits wide exactly for
-- OP-32.
pub decode-seq_rtype :
    (cmd : RType) (sqr : Sequencer)
    → (cmd.opcode ≡ opcode_r_type) ⊎ (cmd.opcode ≡ opcode_rtype_32)
    → cmd.funct3 < 8
    → cmd.funct7 < 128
    → let d = decode (seq_rtype cmd sqr).0.value in
      (d.kinds ≡ record no_kind { r_type = true; is_op32 = cmd.opcode == opcode_rtype_32 })
      × (d.illegal ≡ false)
      × (d.funct3 ≡ cmd.funct3)
      × (d.funct7 ≡ cmd.funct7)
      × (d.rd_addr ≡ cmd.rd % 32)
      × (d.rs1_addr ≡ cmd.rs1 % 32)
      × (d.rs2_addr ≡ cmd.rs2 % 32)
      × (d.opcode ≡ cmd.opcode)
decode-seq_rtype cmd sqr (inl op) f g =
    let v = (seq_rtype cmd sqr).0.value in
    let sum = rtype_sum cmd sqr (omega arith) f g in
    ground (arith, sum, decode_r v (omega (arith, sum)), decode_addresses v)
decode-seq_rtype cmd sqr (inr op) f g =
    let v = (seq_rtype cmd sqr).0.value in
    let sum = rtype_sum cmd sqr (omega arith) f g in
    ground (arith, sum, decode_r32 v (omega (arith, sum)), decode_addresses v)

-- The opcodes of the legal I type commands whatever their `funct3` is, with the kind of each.
abbrev pub itype_kind : ℕ → Kind
itype_kind op = record no_kind { i_type = true; is_op32 = op == opcode_itype_imm_32 }

abbrev pub IsItypeOpcode : ℕ → Type 0
IsItypeOpcode op =
    (op ≡ opcode_i_type_alu)
    ⊎ ((op ≡ opcode_itype_imm_32) ⊎ ((op ≡ opcode_i_type_load) ⊎ (op ≡ opcode_i_type_jalr)))

itype_kinds :
    (v op : ℕ)
    → IsItypeOpcode op
    → v % 128 ≡ op
    → ((decode v).kinds ≡ itype_kind op)
      × ((decode v).immediate ≡ imm_i v)
      × ((decode v).funct3 ≡ v / 2 ^ 12 % 8)
      × ((decode v).illegal ≡ false)
itype_kinds v op (inl e) h = rw e (decode_alu v (h ∙ e))
itype_kinds v op (inr (inl e)) h = rw e (decode_alu32 v (h ∙ e))
itype_kinds v op (inr (inr (inl e))) h = rw e (decode_load v (h ∙ e))
itype_kinds v op (inr (inr (inr e))) h = rw e (decode_jalr v (h ∙ e))

IsItypeOpcode-lt : (op : ℕ) → IsItypeOpcode op → op < 128
IsItypeOpcode-lt op (inl e) = omega arith
IsItypeOpcode-lt op (inr (inl e)) = omega arith
IsItypeOpcode-lt op (inr (inr (inl e))) = omega arith
IsItypeOpcode-lt op (inr (inr (inr e))) = omega arith

-- An I type command: what `seq_itype` pushes without bit 30 decodes to a legal command with its
-- registers, its `funct3` and its 12-bit immediate, sign extended, whose upper part is `funct7`.
pub decode-seq_itype :
    (cmd : IType) (sqr : Sequencer)
    → IsItypeOpcode cmd.opcode
    → cmd.funct3 < 8
    → let d = decode (seq_itype 0 cmd sqr).0.value in
      (d.opcode ≡ cmd.opcode)
      × (d.kinds ≡ itype_kind cmd.opcode)
      × (d.illegal ≡ false)
      × (d.funct3 ≡ cmd.funct3)
      × (d.rd_addr ≡ cmd.rd % 32)
      × (d.rs1_addr ≡ cmd.rs1 % 32)
      × (d.immediate ≡ sext32 12 cmd.imm)
      × (d.funct7 ≡ cmd.imm % 2 ^ 12 / 2 ^ 5)
unfolding imm_i
decode-seq_itype cmd sqr op f =
    let v = (seq_itype 0 cmd sqr).0.value in
    let small = IsItypeOpcode-lt cmd.opcode op in
    let sum = itype_sum 0 cmd sqr small f in
    let kinds = itype_kinds v cmd.opcode op (omega (arith, sum, small)) in
    ground (arith, sum, small, kinds, decode_addresses v)

-- An arithmetic right shift: what `seq_itype` pushes with bit 30 and a shift amount below 64 has
-- the amount in the low immediate bits and bit 30 where the ALU control reads `funct7[5]`.
pub decode-seq_itype_bit30 :
    (cmd : IType) (sqr : Sequencer)
    → IsItypeOpcode cmd.opcode
    → cmd.funct3 < 8
    → cmd.imm < 64
    → let d = decode (seq_itype 1 cmd sqr).0.value in
      (d.opcode ≡ cmd.opcode)
      × (d.kinds ≡ itype_kind cmd.opcode)
      × (d.illegal ≡ false)
      × (d.funct3 ≡ cmd.funct3)
      × (d.funct7 ≡ 32 + cmd.imm / 32)
      × (d.rd_addr ≡ cmd.rd % 32)
      × (d.rs1_addr ≡ cmd.rs1 % 32)
      × (d.immediate ≡ cmd.imm + 2 ^ 10)
unfolding imm_i
decode-seq_itype_bit30 cmd sqr op f amount =
    let v = (seq_itype 1 cmd sqr).0.value in
    let small = IsItypeOpcode-lt cmd.opcode op in
    let sum = itype_sum 1 cmd sqr small f in
    let kinds = itype_kinds v cmd.opcode op (omega (arith, sum, small)) in
    ground (arith, sum, small, kinds, decode_addresses v)
