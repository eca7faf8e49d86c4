-- ===== src/Riscv/Generator/Stores.antt =====
-- generator.cpp: the store that shows a register's value to the memory, and so to the scoreboard.
use verilog.Common.{ℕ, ◌-◌, ◌*◌, ◌/◌, ◌%◌, ◌^◌, ◌<◌, ◌≡◌, refl, ap, ◌∙◌, true, u32, to_long, arith}
use verilog.Riscv.Isa.{Build, rv32, rv64, xlen_of, config, op_alu_add}
use verilog.Riscv.Commands.{SType}
use verilog.Riscv.Sequencer.{Sequencer, push_seq}
use verilog.Riscv.Transactions.Queues.{cut}
use verilog.Riscv.Sequences.Stype.{set_stype}
use verilog.Riscv.Sequences.RoundTrip.{sext32}
use verilog.Riscv.Sequences.Dispatch.Memory.{
  Width, word, double, size_code, StoresAt, set_stype-StoresAt,
}
use verilog.Riscv.Sequences.Cycles.{cycle-store}
use verilog.Riscv.Rtl.Decode.{decode}
use verilog.Riscv.Rtl.Alu.{alu_dataflow}
use verilog.Riscv.Rtl.Core.{Core, Dmem, extend, data_handler, cycle}
use verilog.Riscv.Generator.{sign_extend}
use verilog.Riscv.Generator.Values.{sign_extend-12, set_stype-imm}

-- The width of a whole register.
abbrev width_of : Build → Width
width_of rv32 = word
width_of rv64 = double

pub whole_store :
    (b : Build) (w : ℕ) (cmd : SType) (sqr : Sequencer)
    → let (c, sqr') = set_stype cmd (xlen_of b) sqr in
      StoresAt (config b w) (decode c.value) cmd (width_of b)
      × (c.datamask ≡ 2 ^ xlen_of b - 1)
      × (sqr' ≡ push_seq c.value sqr)
      × (c.imm ≡ cmd.imm % 2 ^ 12)
whole_store rv32 w cmd sqr =
    let (stores, mask, pushed) = set_stype-StoresAt (config rv32 w) cmd sqr word in
    (stores, mask, pushed, set_stype-imm cmd word sqr)
whole_store rv64 w cmd sqr =
    let (stores, mask, pushed) = set_stype-StoresAt (config rv64 w) cmd sqr double in
    (stores, mask, pushed, set_stype-imm cmd double sqr)

data_handler-width_of :
    (b : Build) (x : ℕ) → data_handler (size_code (width_of b)) x ≡ cut (xlen_of b) x
unfolding data_handler
data_handler-width_of rv32 x = refl
data_handler-width_of rv64 x = refl

pub address_sum :
    (b : Build) (imm : ℕ)
    → u32 (alu_dataflow (xlen_of b) op_alu_add 0 (extend (xlen_of b) 32 (sext32 12 imm)))
      ≡ sext32 12 imm
unfolding alu_dataflow
address_sum rv32 imm = ground arith
address_sum rv64 imm = ground arith

-- The offsets that the generators draw are positive in a store.
pub offset-lt : (b : Build) (n : ℕ) → n % 0x700 / (xlen_of b / 8) * (xlen_of b / 8) < 2 ^ 11
offset-lt rv32 n = omega arith
offset-lt rv64 n = omega arith

module _ (b : Build) (w : ℕ) (cmd : SType) (sqr : Sequencer) (core : Core) where
  -- A store of a whole register where the base register is 0.
  pub set_stype-writes :
      core.reg_mem (cmd.rs1 % 32) ≡ 0
      → let c = (set_stype cmd (xlen_of b) sqr).0 in
        let bus = (cycle (config b w) c.value 0 core).0 in
        (bus.dmem_wr ≡ true)
        × (bus.dmem_addr ≡ sext32 12 cmd.imm)
        × (bus.dmem_wr_data ≡ cut (xlen_of b) (core.reg_mem (cmd.rs2 % 32)))
  set_stype-writes base =
      let (stores, _, _, _) = whole_store b w cmd sqr in
      let c = (set_stype cmd (xlen_of b) sqr).0 in
      let bus = cycle-store (config b w) c.value core cmd (width_of b) stores in
      (
        ap (λ (m : Dmem). m.dmem_wr) bus,
        ap (λ (m : Dmem). m.dmem_addr) bus ∙ (rw (base) (address_sum b cmd.imm)),
        ap (λ (m : Dmem). m.dmem_wr_data) bus
            ∙ data_handler-width_of b (core.reg_mem (cmd.rs2 % 32)),
      )

  -- A store of a whole register, at a positive offset from x0: the command that `set_stype` pushes
  -- makes the core show the register at the offset.
  pub set_stype-shows :
      cmd.rs1 ≡ 0
      → cmd.imm < 2 ^ 11
      → core.reg_mem 0 ≡ 0
      → let (c, sqr') = set_stype cmd (xlen_of b) sqr in
        let bus = (cycle (config b w) c.value 0 core).0 in
        (sqr' ≡ push_seq c.value sqr)
        × (c.datamask ≡ 2 ^ xlen_of b - 1)
        × (sign_extend (to_long c.imm) 12 ≡ cmd.imm)
        × (bus.dmem_wr ≡ true)
        × (bus.dmem_addr ≡ cmd.imm)
        × (bus.dmem_wr_data ≡ cut (xlen_of b) (core.reg_mem (cmd.rs2 % 32)))
  set_stype-shows base low x0 =
      let (stores, mask, pushed, imm) = whole_store b w cmd sqr in
      let (wr, addr, shown) = set_stype-writes (rw (base) x0) in
      let extended = sign_extend-12 (to_long (set_stype cmd (xlen_of b) sqr).0.imm) in
      (pushed, mask, ground (arith, imm, extended), wr, addr ∙ ground arith, shown)
