-- ===== src/Riscv/Rtl/Core.antt =====
-- RISCV_SingleCycle/riscv_core.sv with register_file.sv, data_handler.sv and sign_extender.sv: one
-- cycle of the core on a command other than the CSR and system ones, while no interrupt is taken.
use verilog.Common.{
  ℕ, ◌+◌, ◌-◌, ◌*◌, ◌/◌, ◌%◌, ◌^◌, List, [], ◌∷◌, Bool, ◌&&◌, ◌||◌, truth, ltb, ◌==◌, if◌then◌else◌,
  u8, u16, u32,
}
use verilog.Riscv.Isa.{Config, op_dmem_byte, op_dmem_half, op_dmem_trpl, op_dmem_word}
use verilog.Riscv.Rtl.Decode.{Decoded, decode}
use verilog.Riscv.Rtl.Control.{WrDataSel, sel_alu, sel_mem, sel_imm, sel_pc, control}
use verilog.Riscv.Rtl.Alu.{alu_dataflow, branch_taken}

-- The registers that keep their value between two cycles.
pub record Core : Type 0 where
  pub pc : ℕ
  pub reg_mem : ℕ → ℕ

-- What the data memory sees.
pub record Dmem : Type 0 where
  pub dmem_req : Bool
  pub dmem_wr : Bool
  pub dmem_size : ℕ
  pub dmem_addr : ℕ
  pub dmem_wr_data : ℕ

-- `{{(w - n){x[n - 1]}}, x[n - 1:0]}`
abbrev pub extend : ℕ → ℕ → ℕ → ℕ
extend w n x = if ltb (x % 2 ^ n) (2 ^ (n - 1)) then x % 2 ^ n else x % 2 ^ n + (2 ^ w - 2 ^ n)

unfoldable pub data_handler : ℕ → ℕ → ℕ
data_handler block_size data_in =
    if block_size == op_dmem_byte
    then u8 data_in
    else if block_size == op_dmem_half
    then u16 data_in
    else if block_size == op_dmem_trpl
    then data_in % 2 ^ 24
    else if block_size == op_dmem_word
    then u32 data_in
    else data_in

unfoldable pub sign_extender : ℕ → Bool → ℕ → ℕ → ℕ
sign_extender xlen zero_ex blsize data_in =
    if zero_ex
    then data_in
    else if blsize == op_dmem_byte
    then extend xlen 8 data_in
    else if blsize == op_dmem_half
    then extend xlen 16 data_in
    else if blsize == op_dmem_trpl
    then extend xlen 24 data_in
    else if blsize == op_dmem_word
    then extend xlen 32 data_in
    else data_in

-- OP-32: the result is cut to 32 bits and sign extended, in the wide build.
unfoldable pub alu_res_signed : ℕ → Bool → ℕ → ℕ
alu_res_signed xlen is_op32 alu_res =
    if ltb 32 xlen && is_op32 then extend xlen 32 alu_res else alu_res

unfoldable pub alu_result : Config → Decoded → ℕ → ℕ → ℕ → ℕ
alu_result cfg d pc rs1_data rs2_data =
    let c = control cfg d in
    alu_dataflow cfg.xlen c.alu_op (if c.alua_sel then pc else rs1_data)
      (if c.alub_sel then extend cfg.xlen 32 d.immediate else rs2_data)

-- The `case` on `rf_wr_data_sel`.
abbrev pub selected : WrDataSel → ℕ → ℕ → ℕ → ℕ → ℕ
selected sel_alu alu mem imm next_pc = alu
selected sel_mem alu mem imm next_pc = mem
selected sel_imm alu mem imm next_pc = imm
selected sel_pc alu mem imm next_pc = next_pc

unfoldable pub rf_wr_data : Config → Decoded → ℕ → ℕ → ℕ → ℕ
rf_wr_data cfg d pc alu_res dmem_rd_data =
    let c = control cfg d in
    selected c.rf_wr_data_sel (alu_res_signed cfg.xlen d.kinds.is_op32 alu_res)
      (sign_extender cfg.xlen c.dmem_zero_ex c.dmem_size dmem_rd_data)
      (extend cfg.xlen 32 d.immediate) (u32 (pc + 4))

unfoldable pub write_register : Bool → ℕ → ℕ → (ℕ → ℕ) → ℕ → ℕ
write_register rf_wr_en rd_addr wr_data reg_mem r =
    if rf_wr_en && (r == rd_addr) then wr_data else reg_mem r

-- One instruction, with the data that the memory gives for it.
unfoldable pub cycle : Config → ℕ → ℕ → Core → Dmem × Core
cycle cfg instruction dmem_rd_data core =
    let d = decode instruction in
    let c = control cfg d in
    let rs1_data = core.reg_mem d.rs1_addr in
    let rs2_data = core.reg_mem d.rs2_addr in
    let alu_res = alu_result cfg d core.pc rs1_data rs2_data in
    let jump = branch_taken cfg.xlen d.kinds.b_type d.funct3 rs1_data rs2_data || c.pc_sel in
    (
      record {
        dmem_req = c.dmem_req;
        dmem_wr = c.dmem_wr;
        dmem_size = c.dmem_size;
        dmem_addr = u32 alu_res;
        dmem_wr_data = data_handler c.dmem_size rs2_data;
      },
      record {
        pc = if jump then u32 alu_res / 2 * 2 else u32 (core.pc + 4);
        reg_mem =
            write_register (c.rf_wr_en && truth d.rd_addr) d.rd_addr
              (rf_wr_data cfg d core.pc alu_res dmem_rd_data) core.reg_mem;
      },
    )

-- Instructions in the order in which they stand in the memory, none of them a load.
unfoldable pub cycles : Config → List ℕ → Core → Core
cycles cfg [] core = core
cycles cfg (instruction ∷ rest) core = cycles cfg rest (cycle cfg instruction 0 core).1
