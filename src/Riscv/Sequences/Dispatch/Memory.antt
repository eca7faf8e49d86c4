-- ===== src/Riscv/Sequences/Dispatch/Memory.antt =====
-- `set_stype` and `set_itype_load`: stores and loads of each width.
use verilog.Common.{
  ℕ, ◌-◌, ◌%◌, ◌^◌, ◌<◌, ◌≡◌, inl, inr, refl, Bool, true, false, arith, truth, if◌then◌else◌,
}
use verilog.Common.Bits.{and_low}
use verilog.Riscv.Isa.{Config, opcode_s_type, opcode_i_type_load, op_alu_add}
use verilog.Riscv.Commands.{SType, IType}
use verilog.Riscv.Sequencer.{Sequencer, push_seq}
use verilog.Riscv.Sequences.Stype.{seq_stype, set_stype}
use verilog.Riscv.Sequences.Itype.{seq_itype}
use verilog.Riscv.Sequences.Itype.Load.{set_itype_load}
use verilog.Riscv.Sequences.RoundTrip.{sext32, decode-seq_stype, decode-seq_itype}
use verilog.Riscv.Rtl.Decode.{Decoded, no_kind, decode}
use verilog.Riscv.Rtl.Control.{sel_mem, bit_of, control, alu_op_of, dmem_size_of, rf_wr_data_sel_of}

-- The widths that a memory command may have.
pub data Width : Type 0 where
  byte half triple word double : Width

abbrev pub bits : Width → ℕ
bits byte = 8
bits half = 16
bits triple = 24
bits word = 32
bits double = 64

-- The core's code for a width: `op_enum_dmem_size`.
abbrev pub size_code : Width → ℕ
size_code byte = 0
size_code half = 1
size_code word = 2
size_code double = 3
size_code triple = 7

abbrev stype_for : Width → SType → SType
stype_for w cmd = record cmd {
  opcode = opcode_s_type;
  funct3 = size_code w;
  datamask = 2 ^ bits w - 1;
}

set_stype-seq_stype :
    (w : Width) (cmd : SType) (sqr : Sequencer)
    → set_stype cmd (bits w) sqr ≡ seq_stype (stype_for w cmd) sqr
unfolding set_stype
set_stype-seq_stype byte cmd sqr = refl
set_stype-seq_stype _ cmd sqr = refl

size_code-lt : (w : Width) → size_code w < 8
size_code-lt byte = omega arith
size_code-lt _ = omega arith

dmem_size-size_code : (cfg : Config) (w : Width) → dmem_size_of cfg true (size_code w) ≡ size_code w
unfolding dmem_size_of
dmem_size-size_code cfg byte = refl
dmem_size-size_code cfg _ = refl

stype-pushes :
    (cmd : SType) (sqr : Sequencer)
    → let (c, sqr') = seq_stype cmd sqr in
      (sqr' ≡ push_seq c.value sqr) × (c.datamask ≡ cmd.datamask)
unfolding seq_stype
stype-pushes cmd sqr = (refl, refl)

-- What the core makes of a store: a write of width `w`, from register `rs2`, to the address in
-- register `rs1` plus the immediate, which the ALU adds.
abbrev pub StoresAt : Config → Decoded → SType → Width → Type 0
StoresAt cfg d cmd w =
    ((control cfg d).dmem_req ≡ true)
    × ((control cfg d).dmem_wr ≡ true)
    × ((control cfg d).rf_wr_en ≡ false)
    × ((control cfg d).dmem_size ≡ size_code w)
    × ((control cfg d).alub_sel ≡ true)
    × (d.illegal ≡ false)
    × (d.rs1_addr ≡ cmd.rs1 % 32)
    × (d.rs2_addr ≡ cmd.rs2 % 32)
    × (d.immediate ≡ sext32 12 cmd.imm)
    × ((control cfg d).alua_sel ≡ false)
    × ((control cfg d).alu_op ≡ op_alu_add)

alu_op-store :
    (opcode funct3 funct7 : ℕ)
    → alu_op_of (record no_kind { s_type = true }) opcode funct3 funct7 ≡ op_alu_add
unfolding alu_op_of
alu_op-store opcode funct3 funct7 = refl

stype-StoresAt :
    (cfg : Config) (cmd : SType) (sqr : Sequencer) (w : Width)
    → StoresAt cfg (decode (seq_stype (stype_for w cmd) sqr).0.value) cmd w
unfolding control
stype-StoresAt cfg cmd sqr w =
    let (kinds, legal, f3, rs1, rs2, imm, op) =
      decode-seq_stype (stype_for w cmd) sqr refl (size_code-lt w) in
    let d = decode (seq_stype (stype_for w cmd) sqr).0.value in
    ground (
      arith,
      kinds,
      legal,
      f3,
      rs1,
      rs2,
      imm,
      op,
      alu_op-store d.opcode d.funct3 d.funct7,
      dmem_size-size_code cfg w,
    )

-- For each width `set_stype` pushes one command, which the core takes for the store of that width,
-- and sets the mask of that many bits.
pub set_stype-StoresAt :
    (cfg : Config) (cmd : SType) (sqr : Sequencer) (w : Width)
    → let (c, sqr') = set_stype cmd (bits w) sqr in
      StoresAt cfg (decode c.value) cmd w
      × (c.datamask ≡ 2 ^ bits w - 1)
      × (sqr' ≡ push_seq c.value sqr)
set_stype-StoresAt cfg cmd sqr w =
    let (pushed, mask) = stype-pushes (stype_for w cmd) sqr in
    rw (set_stype-seq_stype w cmd sqr) (stype-StoresAt cfg cmd sqr w, mask, pushed)

-- Which loads fill the register's upper bits with zeros.
abbrev pub zero_extends : Width → Bool → Bool
zero_extends byte u = u
zero_extends half u = u
zero_extends word u = u
zero_extends triple u = true
zero_extends double u = false

abbrev load_funct3 : Width → Bool → ℕ
load_funct3 byte u = if u then 4 else 0
load_funct3 half u = if u then 5 else 1
load_funct3 word u = if u then 6 else 2
load_funct3 triple u = 7
load_funct3 double u = 3

abbrev load_for : Width → Bool → IType → IType
load_for w u cmd = record cmd {
  opcode = opcode_i_type_load;
  funct3 = load_funct3 w u;
  datamask = 2 ^ bits w - 1;
}

set_itype_load-seq_itype :
    (w : Width) (cmd : IType) (u : ℕ) (sqr : Sequencer)
    → set_itype_load cmd (bits w) u sqr ≡ seq_itype 0 (load_for w (truth u) cmd) sqr
unfolding set_itype_load
set_itype_load-seq_itype byte cmd u sqr = ground arith
set_itype_load-seq_itype _ cmd u sqr = ground arith

load_funct3_lem :
    (cfg : Config) (w : Width) (u : Bool)
    → (load_funct3 w u < 8)
      × (dmem_size_of cfg true (load_funct3 w u) ≡ size_code w)
      × (bit_of (load_funct3 w u) 2 ≡ zero_extends w u)
unfolding dmem_size_of
load_funct3_lem cfg byte true = (omega arith, refl, refl)
load_funct3_lem cfg byte false = (omega arith, refl, refl)
load_funct3_lem cfg half true = (omega arith, refl, refl)
load_funct3_lem cfg half false = (omega arith, refl, refl)
load_funct3_lem cfg word true = (omega arith, refl, refl)
load_funct3_lem cfg word false = (omega arith, refl, refl)
load_funct3_lem cfg triple u = (omega arith, refl, refl)
load_funct3_lem cfg double u = (omega arith, refl, refl)

itype-pushes :
    (cmd : IType) (sqr : Sequencer)
    → let (c, sqr') = seq_itype 0 cmd sqr in
      (sqr' ≡ push_seq c.value sqr) × (c.datamask ≡ cmd.datamask)
unfolding seq_itype
itype-pushes cmd sqr = (refl, refl)

-- What the core makes of a load: a read of width `w` into register `rd`, from the address in
-- register `rs1` plus the immediate, filled up with zeros or with the sign.
abbrev pub LoadsFrom : Config → Decoded → IType → Width → Bool → Type 0
LoadsFrom cfg d cmd w u =
    ((control cfg d).dmem_req ≡ true)
    × ((control cfg d).dmem_wr ≡ false)
    × ((control cfg d).rf_wr_en ≡ true)
    × ((control cfg d).rf_wr_data_sel ≡ sel_mem)
    × ((control cfg d).dmem_size ≡ size_code w)
    × ((control cfg d).dmem_zero_ex ≡ zero_extends w u)
    × ((control cfg d).alub_sel ≡ true)
    × (d.illegal ≡ false)
    × (d.rd_addr ≡ cmd.rd % 32)
    × (d.rs1_addr ≡ cmd.rs1 % 32)
    × (d.immediate ≡ sext32 12 cmd.imm)
    × ((control cfg d).alua_sel ≡ false)
    × ((control cfg d).alu_op ≡ op_alu_add)

load-LoadsFrom :
    (cfg : Config) (cmd : IType) (sqr : Sequencer) (w : Width) (u : Bool)
    → LoadsFrom cfg (decode (seq_itype 0 (load_for w u cmd) sqr).0.value) cmd w u
unfolding control rf_wr_data_sel_of alu_op_of
load-LoadsFrom cfg cmd sqr w u =
    let (small, size, zeros) = load_funct3_lem cfg w u in
    let (op, kinds, legal, f3, rd, rs1, imm, f7) =
      decode-seq_itype (load_for w u cmd) sqr (inr (inr (inl refl))) small in
    ground (arith, op, kinds, legal, f3, rd, rs1, imm, size, zeros)

-- For each width `set_itype_load` pushes one command, which the core takes for the load of that
-- width, signed or unsigned as asked (a triple is always unsigned, a double always signed), and
-- sets the mask of that many bits.
pub set_itype_load-LoadsFrom :
    (cfg : Config) (cmd : IType) (u : ℕ) (sqr : Sequencer) (w : Width)
    → let (c, sqr') = set_itype_load cmd (bits w) u sqr in
      LoadsFrom cfg (decode c.value) cmd w (truth u)
      × (c.datamask ≡ 2 ^ bits w - 1)
      × (sqr' ≡ push_seq c.value sqr)
set_itype_load-LoadsFrom cfg cmd u sqr w =
    let (pushed, mask) = itype-pushes (load_for w (truth u) cmd) sqr in
    rw (set_itype_load-seq_itype w cmd u sqr) (load-LoadsFrom cfg cmd sqr w (truth u), mask, pushed)

-- The immediate that the command keeps.
pub set_itype_load-imm :
    (cmd : IType) (u : ℕ) (sqr : Sequencer) (w : Width)
    → (set_itype_load cmd (bits w) u sqr).0.imm ≡ cmd.imm % 2 ^ 12
unfolding seq_itype
set_itype_load-imm cmd u sqr w = rw (set_itype_load-seq_itype w cmd u sqr) (and_low 12 cmd.imm)
