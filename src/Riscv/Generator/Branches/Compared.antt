-- ===== src/Riscv/Generator/Branches/Compared.antt =====
-- generator.cpp: the branches that the generators expect are those that the core takes.
use verilog.Common.{ℕ, ◌^◌, ◌<◌, ◌≡◌, refl, true, some, arith}
use verilog.Riscv.Isa.{Build, rv32, rv64, xlen_of}
use verilog.Riscv.Transactions.Queues.{cut}
use verilog.Riscv.Sequences.Dispatch.Branches.{Compare, beq, branch_code}
use verilog.Riscv.Rtl.Alu.{branch_taken}
use verilog.Riscv.Generator.Longs.{Fits}
use verilog.Riscv.Generator.Values.{sign_extend-32}
use verilog.Riscv.Generator.Branches.{branch_expected}

-- For each comparison, in both builds and of two longs that are sign extended registers, a branch
-- is expected exactly where the core takes it on the registers.
pub branch_expected-taken :
    (b : Build) (o : Compare) (x y : ℕ)
    → x < 2 ^ 64
    → y < 2 ^ 64
    → Fits b x
    → Fits b y
    → branch_expected (branch_code o) x y
      ≡ some (branch_taken (xlen_of b) true (branch_code o) (cut (xlen_of b) x) (cut (xlen_of b) y))
unfolding branch_expected branch_taken
branch_expected-taken rv32 beq x y xl yl fx fy =
    ground (arith, fx, fy, sign_extend-32 x, sign_extend-32 y)
branch_expected-taken rv32 _ x y xl yl fx fy =
    ground (arith, fx, fy, sign_extend-32 x, sign_extend-32 y)
branch_expected-taken rv64 beq x y xl yl fx fy = refl
branch_expected-taken rv64 _ x y xl yl fx fy = refl
