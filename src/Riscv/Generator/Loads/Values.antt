-- ===== src/Riscv/Generator/Loads/Values.antt =====
-- generator.cpp: the addresses and the data that the load generators expect.
use verilog.Common.{ℕ, ◌*◌, ◌%◌, ◌^◌, ◌≤◌, ◌<◌, ◌≡◌, refl, true, truth, u32, to_long, arith}
use verilog.Riscv.Isa.{Build, rv32, rv64, xlen_of, op_alu_add}
use verilog.Riscv.Commands.{UType}
use verilog.Riscv.Transactions.Queues.{cut}
use verilog.Riscv.Sequences.RoundTrip.{sext32}
use verilog.Riscv.Sequences.Dispatch.Memory.{
  Width, byte, half, triple, word, double, bits, size_code, zero_extends,
}
use verilog.Riscv.Rtl.Alu.{alu_dataflow}
use verilog.Riscv.Rtl.Core.{extend, sign_extender}
use verilog.Riscv.Generator.{sign_extend}
use verilog.Riscv.Generator.Values.{sign_extend-12}
use verilog.Riscv.Generator.Loads.{load_address, loaded_data}

-- The address that a generator counts on is the one that the core computes from the register that
-- the LUI filled.
pub load_address-sum :
    (b : Build) (lui : UType) (upper lower k : ℕ)
    → lui.imm ≡ upper % 2 ^ 20
    → k ≡ lower % 2 ^ 12
    → u32 (load_address lui k)
      ≡ u32 (
          alu_dataflow
            (xlen_of b)
            op_alu_add
            (extend (xlen_of b) 32 (upper % 2 ^ 20 * 2 ^ 12))
            (extend (xlen_of b) 32 (sext32 12 lower)))
unfolding load_address alu_dataflow
load_address-sum rv32 lui upper lower k h e = ground (arith, h, e, sign_extend-12 (to_long k))
load_address-sum rv64 lui upper lower k h e = ground (arith, h, e, sign_extend-12 (to_long k))

-- The data that a generator counts on are those that the core brings into the register. The core
-- has no signed load of a triple.
pub loaded_data-extended :
    (b : Build) (w : Width) (rd u d : ℕ)
    → bits w ≤ xlen_of b
    → (w ≡ triple → truth u ≡ true)
    → truth rd ≡ true
    → d < 2 ^ bits w
    → sign_extender (xlen_of b) (zero_extends w (truth u)) (size_code w) d
      ≡ cut (xlen_of b) (loaded_data rd u (bits w) d)
unfolding sign_extender loaded_data sign_extend
loaded_data-extended rv32 byte rd u d fits t h small = ground arith
loaded_data-extended rv64 byte rd u d fits t h small = ground arith
loaded_data-extended rv32 half rd u d fits t h small = ground arith
loaded_data-extended rv64 half rd u d fits t h small = ground arith
loaded_data-extended rv32 triple rd u d fits t h small = ground (arith, t refl)
loaded_data-extended rv64 triple rd u d fits t h small = ground (arith, t refl)
loaded_data-extended rv32 word rd u d fits t h small = ground arith
loaded_data-extended rv64 word rd u d fits t h small = ground arith
loaded_data-extended rv32 double rd u d fits t h small = absurd (omega arith)
loaded_data-extended rv64 double rd u d fits t h small = ground arith
