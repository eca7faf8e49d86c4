-- ===== src/Riscv/Sequences/Cycles.antt =====
-- What a cycle of the core does on the commands of sequences.cpp.
use verilog.Common.{
  ℕ, inl, arith, ◌||◌, ◌+◌, ◌*◌, ◌/◌, ◌%◌, ◌^◌, ◌≡◌, refl, ◌∙◌, Bool, true, false, truth,
  if◌then◌else◌, u32,
}
use verilog.Riscv.Isa.{Config, op_alu_add, opcode_i_type_alu, op_funct3_add}
use verilog.Riscv.Commands.{UType, SType, IType, RType, BType}
use verilog.Riscv.Sequencer.{Sequencer}
use verilog.Riscv.Sequences.Utype.{seq_lui, seq_jal, seq_auipc}
use verilog.Riscv.Sequences.RoundTrip.{
  sext32, seq_lui-decoded, decode-seq_auipc, seq_jal-decoded, seq_jal-opcode, decode-seq_itype,
}
use verilog.Riscv.Sequences.Itype.{seq_itype}
use verilog.Riscv.Sequences.Itype.Arithmetic.{seq_addi}
use verilog.Riscv.Sequences.Dispatch.Branches.{Compare, branch_code, BranchesBy}
use verilog.Riscv.Sequences.Dispatch.{AluOp, code}
use verilog.Riscv.Sequences.Dispatch.Registers.{ComputesR}
use verilog.Riscv.Sequences.Dispatch.Immediates.{ComputesI}
use verilog.Riscv.Sequences.Dispatch.Memory.{Width, size_code, zero_extends, StoresAt, LoadsFrom}
use verilog.Riscv.Rtl.Decode.{decode}
use verilog.Riscv.Rtl.Control.{control, sel_alu, rf_wr_data_sel_of, alu_op_of}
use verilog.Riscv.Rtl.Alu.{alu_dataflow, branch_taken}
use verilog.Riscv.Rtl.Core.{
  Core, extend, alu_result, alu_res_signed, rf_wr_data, write_register, data_handler, sign_extender,
  cycle,
}

-- Register `rd` gets the value, unless it is x0.
abbrev pub with_register : ℕ → ℕ → (ℕ → ℕ) → ℕ → ℕ
with_register rd value reg_mem = write_register (truth rd) rd value reg_mem

module _ (cfg : Config) (v : ℕ) (core : Core) where
  -- The ALU's result where its first operand is the register.
  result : ℕ
  result =
      let d = decode v in
      alu_dataflow cfg.xlen (control cfg d).alu_op (core.reg_mem d.rs1_addr) (
        if (control cfg d).alub_sel
        then extend cfg.xlen 32 d.immediate
        else core.reg_mem d.rs2_addr)

  result_lem :
      (control cfg (decode v)).alua_sel ≡ false
      → alu_result cfg
          (decode v)
          core.pc
          (core.reg_mem (decode v).rs1_addr)
          (core.reg_mem (decode v).rs2_addr)
        ≡ result
  unfolding alu_result result
  result_lem a = rw (a) refl

  -- A cycle that writes the ALU's result to a register.
  cycle-alu :
      let d = decode v in
      (control cfg d).rf_wr_en ≡ true
      → (control cfg d).rf_wr_data_sel ≡ sel_alu
      → (control cfg d).alua_sel ≡ false
      → (cycle cfg v 0 core).1.reg_mem
        ≡ with_register d.rd_addr (alu_res_signed cfg.xlen d.kinds.is_op32 result) core.reg_mem
  unfolding cycle rf_wr_data
  cycle-alu wr sel a = rw (wr, sel, result_lem a) refl

  -- A command with an immediate leaves the operation on the register and the immediate in `rd`.
  pub cycle-immediate :
      (cmd : IType) (o : AluOp) (word : Bool)
      → ComputesI cfg (decode v) cmd o word
      → (cycle cfg v 0 core).1.reg_mem
        ≡ with_register
            (cmd.rd % 32)
            (alu_res_signed cfg.xlen word (
              alu_dataflow cfg.xlen
                (code o)
                (core.reg_mem (cmd.rs1 % 32))
                (extend cfg.xlen 32 (decode v).immediate)))
            core.reg_mem
  unfolding result
  cycle-immediate cmd o word (op, b, wr, sel, req, op32, legal, rd, rs1, imm, a) =
      cycle-alu wr sel a ∙ (rw (op, b, op32, rd, rs1) refl)

  -- A register command leaves the operation on the two registers in `rd`.
  pub cycle-register :
      (cmd : RType) (o : AluOp) (word : Bool)
      → ComputesR cfg (decode v) cmd o word
      → (cycle cfg v 0 core).1.reg_mem
        ≡ with_register
            (cmd.rd % 32)
            (alu_res_signed cfg.xlen word (
              alu_dataflow cfg.xlen
                (code o)
                (core.reg_mem (cmd.rs1 % 32))
                (core.reg_mem (cmd.rs2 % 32))))
            core.reg_mem
  unfolding result
  cycle-register cmd o word (op, b, wr, req, op32, legal, rd, rs1, rs2, a, sel) =
      cycle-alu wr sel a ∙ (rw (op, b, op32, rd, rs1, rs2) refl)

  -- A store shows the memory the register's low part, at the register plus the immediate.
  pub cycle-store :
      (cmd : SType) (w : Width)
      → StoresAt cfg (decode v) cmd w
      → (cycle cfg v 0 core).0 ≡ record {
        dmem_req = true;
        dmem_wr = true;
        dmem_size = size_code w;
        dmem_addr = u32 (
            alu_dataflow cfg.xlen op_alu_add
              (core.reg_mem (cmd.rs1 % 32))
              (extend cfg.xlen 32 (sext32 12 cmd.imm)));
        dmem_wr_data = data_handler (size_code w) (core.reg_mem (cmd.rs2 % 32));
      }
  unfolding cycle result
  cycle-store cmd w (req, wr, en, size, b, legal, rs1, rs2, imm, a, op) =
      rw (result_lem a, req, wr, size, b, op, rs1, rs2, imm) refl

-- LUI leaves its immediate in `rd`.
pub cycle-lui :
    (cfg : Config) (cmd : UType) (sqr : Sequencer) (core : Core)
    → (cycle cfg (seq_lui cmd sqr).0.value 0 core).1.reg_mem
      ≡ with_register (cmd.rd % 32) (extend cfg.xlen 32 (cmd.imm % 2 ^ 20 * 2 ^ 12)) core.reg_mem
unfolding cycle rf_wr_data control rf_wr_data_sel_of
cycle-lui cfg cmd sqr core =
    let (op, kinds, legal, rd, imm) = seq_lui-decoded cmd sqr in rw (op, kinds, rd, imm) refl

-- AUIPC leaves the sum of `pc` and its immediate in `rd`.
pub cycle-auipc :
    (cfg : Config) (cmd : UType) (sqr : Sequencer) (core : Core)
    → (cycle cfg (seq_auipc cmd sqr).0.value 0 core).1.reg_mem
      ≡ with_register
          (cmd.rd % 32)
          (alu_res_signed cfg.xlen false (
            alu_dataflow cfg.xlen op_alu_add core.pc
              (extend cfg.xlen 32 (cmd.imm % 2 ^ 20 * 2 ^ 12))))
          core.reg_mem
unfolding cycle rf_wr_data alu_result control rf_wr_data_sel_of alu_op_of
cycle-auipc cfg cmd sqr core =
    let (op, kinds, legal, rd, imm) = decode-seq_auipc cmd sqr in rw (op, kinds, rd, imm) refl

-- A load reads the memory at the register plus the immediate, and leaves what the memory gives,
-- extended, in `rd`.
pub cycle-load :
    (cfg : Config) (v dmem_rd_data : ℕ) (core : Core) (cmd : IType) (w : Width) (u : Bool)
    → LoadsFrom cfg (decode v) cmd w u
    → let (bus, core') = cycle cfg v dmem_rd_data core in
      (bus.dmem_req ≡ true)
      × (bus.dmem_wr ≡ false)
      × (bus.dmem_addr
          ≡ u32 (
              alu_dataflow cfg.xlen op_alu_add
                (core.reg_mem (cmd.rs1 % 32))
                (extend cfg.xlen 32 (sext32 12 cmd.imm))))
      × (core'.reg_mem
          ≡ with_register
              (cmd.rd % 32)
              (sign_extender cfg.xlen (zero_extends w u) (size_code w) dmem_rd_data)
              core.reg_mem)
unfolding cycle rf_wr_data result
cycle-load cfg v mem core cmd w u (req, wr, en, sel, size, z, b, legal, rd, rs1, imm, a, op) = (
  req,
  wr,
  (rw (result_lem cfg v core a, b, op, rs1, imm) refl),
  (rw (en, sel, size, z, rd) refl),
)

-- JAL goes to `pc` plus its offset and leaves the place behind it in `rd`.
pub cycle-jal :
    (cfg : Config) (cmd : UType) (sqr : Sequencer) (core : Core)
    → let core' = (cycle cfg (seq_jal cmd sqr).0.value 0 core).1 in
      (core'.pc
        ≡ u32 (
            alu_dataflow cfg.xlen op_alu_add core.pc (extend cfg.xlen 32 (sext32 21 (cmd.imm * 2))))
          / 2
          * 2)
      × (core'.reg_mem ≡ with_register (cmd.rd % 32) (u32 (core.pc + 4)) core.reg_mem)
unfolding cycle rf_wr_data alu_result branch_taken control rf_wr_data_sel_of alu_op_of
cycle-jal cfg cmd sqr core =
    let (kinds, legal, rd, imm) = seq_jal-decoded cmd sqr in
    let op = seq_jal-opcode cmd sqr in rw (op, kinds, rd, imm) (refl, refl)

-- A command that is neither a branch nor a jump leads to the next one.
cycle-next :
    (cfg : Config) (v dmem_rd_data : ℕ) (core : Core)
    → (decode v).kinds.b_type ≡ false
    → (control cfg (decode v)).pc_sel ≡ false
    → (cycle cfg v dmem_rd_data core).1.pc ≡ u32 (core.pc + 4)
unfolding cycle branch_taken
cycle-next cfg v mem core b_type pc_sel = rw (pc_sel, b_type) refl

pub cycle-lui_next :
    (cfg : Config) (cmd : UType) (sqr : Sequencer) (core : Core)
    → (cycle cfg (seq_lui cmd sqr).0.value 0 core).1.pc ≡ u32 (core.pc + 4)
unfolding control
cycle-lui_next cfg cmd sqr core =
    let (op, kinds, _, _, _) = seq_lui-decoded cmd sqr in
    cycle-next cfg (seq_lui cmd sqr).0.value 0 core (rw (kinds) refl) (rw (op) refl)

pub cycle-addi_next :
    (cfg : Config) (cmd : IType) (sqr : Sequencer) (core : Core)
    → (cycle cfg (seq_addi cmd sqr).0.value 0 core).1.pc ≡ u32 (core.pc + 4)
unfolding control seq_addi
cycle-addi_next cfg cmd sqr core =
    let addi : IType = record cmd { opcode = opcode_i_type_alu; funct3 = op_funct3_add } in
    let (op, kinds, _, _, _, _, _, _) = decode-seq_itype addi sqr (inl refl) (omega arith) in
    cycle-next cfg (seq_itype 0 addi sqr).0.value 0 core (rw (kinds) refl) (rw (op) refl)

or-false : (t : Bool) → (t || false) ≡ t
or-false true = refl
or-false false = refl

-- A branch goes to `pc` plus its offset where the core takes it, else to the next command, and
-- leaves the registers.
pub cycle-branch :
    (cfg : Config) (v : ℕ) (core : Core) (cmd : BType) (o : Compare)
    → BranchesBy cfg (decode v) cmd o
    → let core' = (cycle cfg v 0 core).1 in
      (core'.pc ≡ (
        if branch_taken cfg.xlen true
          (branch_code o)
          (core.reg_mem (cmd.rs1 % 32))
          (core.reg_mem (cmd.rs2 % 32))
        then u32 (
            alu_dataflow cfg.xlen op_alu_add core.pc (extend cfg.xlen 32 (sext32 13 (cmd.imm * 2))))
          / 2
          * 2
        else u32 (core.pc + 4)))
      × (core'.reg_mem ≡ core.reg_mem)
unfolding cycle alu_result write_register
cycle-branch cfg v core cmd o (kind, f3, legal, rs1, rs2, imm, b, op, wr, req, a, sel) =
    let taken =
      branch_taken cfg.xlen true (branch_code o) (core.reg_mem (cmd.rs1 % 32))
        (core.reg_mem (cmd.rs2 % 32)) in
    rw (b, op, a, sel, wr, kind, f3, rs1, rs2, imm) (rw (or-false taken) refl, refl)
