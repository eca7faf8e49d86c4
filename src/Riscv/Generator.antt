-- ===== src/Riscv/Generator.antt =====
-- RISCV_SingleCycle/testbench/generator.cpp: the stimulus values, and the store generators. `rand` is
-- the sequence of the random numbers; `over` is what the compiler makes of `1 << i` for `i` of 32
-- and more, which is undefined for an `int`. Prints and command texts are left out.
pub mod Values
pub mod Turns
pub mod Registers
pub mod Stores
pub mod Shifts
pub mod Longs
pub mod Auipc
pub mod Loads
pub mod Arithmetic
pub mod Rtype
pub mod Branches
pub mod Jumps
use verilog.Common.{
  ℕ, zero, suc, ◌+◌, ◌-◌, ◌*◌, ◌/◌, ◌^◌, List, [], ◌∷◌, ◌++◌, Bool, ◌&&◌, truth, ltb, ◌==◌,
  if◌then◌else◌, ◌&◌, ◌∣∣◌, ◌<<◌, u32, u64, shl64, to_long,
}
use verilog.Riscv.Isa.{Config}
use verilog.Riscv.Commands.{UType, SType, IType}
use verilog.Riscv.Sequencer.{Sequencer}
use verilog.Riscv.Transactions.{Transaction, Bench, push_ref}
use verilog.Riscv.Sequences.Utype.{seq_lui}
use verilog.Riscv.Sequences.Stype.{set_stype}
use verilog.Riscv.Sequences.Itype.Arithmetic.{seq_addi}

-- `x >> k` of a `long`: the sign is copied.
abbrev pub sar64 : ℕ → ℕ → ℕ
sar64 x k = if ltb x (2 ^ 63) then x / 2 ^ k else x / 2 ^ k + (2 ^ 64 - 2 ^ (64 - k))

-- `x / k` of a `long` by a positive number: it rounds towards zero.
abbrev pub sdiv64 : ℕ → ℕ → ℕ
sdiv64 x k = if ltb x (2 ^ 63) then x / k else u64 (2 ^ 64 - (2 ^ 64 - x) / k)

unfoldable pub mask_ff : ℕ → ℕ
mask_ff bits_width = if bits_width == 64 then 2 ^ 64 - 1 else shl64 1 bits_width - 1

-- `n` random values, from the `k`-th random number on. The two numbers of a wide value are taken
-- from left to right.
unfoldable pub random_fill : (ℕ → ℕ) → ℕ → ℕ → ℕ → List ℕ
random_fill rand bits_width zero k = []
random_fill rand bits_width (suc n) k =
    let wide = ltb 32 bits_width in
    let rest = random_fill rand bits_width n (if wide then k + 2 else k + 1) in
    (mask_ff bits_width & (if wide then rand k ∣∣ shl64 (rand (k + 1)) 32 else rand k)) ∷ rest

-- `n` toggled bits, from bit `i` on.
unfoldable pub toggles : (ℕ → ℕ) → ℕ → ℕ → List ℕ
toggles over zero i = []
toggles over (suc n) i = (if ltb i 32 then to_long (1 << i) else over i) ∷ toggles over n (i + 1)

-- The values written from `arr` on. `length` is 8 at least.
unfoldable pub generate_bit_patterns : (ℕ → ℕ) → (ℕ → ℕ) → ℕ → ℕ → List ℕ
generate_bit_patterns rand over bits_width length =
    let mask = mask_ff bits_width in
    let left = length - 8 in
    let fixed =
      0
      ∷ mask
      ∷ 0
      ∷ mask
      ∷ (0xAAAAAAAAAAAAAAAA & mask)
      ∷ (0x5555555555555555 & mask)
      ∷ (0xDBDBDBDBDBDBDBDB & mask)
      ∷ (0xB6B6B6B6B6B6B6B6 & mask)
      ∷ [] in
    let random = left - bits_width in
    fixed ++ (random_fill rand bits_width random 0 ++ toggles over (left - random) 0)

unfoldable pub sign_extend : ℕ → ℕ → ℕ
sign_extend value bits_num = sar64 (shl64 value (64 - bits_num)) (64 - bits_num)

unfoldable pub get_lui_base_imm_value : ℕ → ℕ → ℕ
get_lui_base_imm_value lui_base_val imm_val =
    u64 (sign_extend (shl64 lui_base_val 12) 32 + sign_extend imm_val 12)

-- The value that LUI and ADDI leave in a register; x0 stays 0.
abbrev pub register_value : ℕ → UType → IType → ℕ
register_value reg lui addi =
    if truth reg then get_lui_base_imm_value (to_long lui.imm) (to_long addi.imm) else 0

abbrev pub regfile_a0 : ℕ
regfile_a0 = 1

abbrev pub regs_num : ℕ
regs_num = 4

-- The queues with the global reference transaction.
pub record Generator : Type 0 where
  pub bench : Bench
  pub ref_req : Transaction

abbrev pub with_sqr : Sequencer → Generator → Generator
with_sqr sqr g = record g { bench = record g.bench { sqr = sqr } }

-- `push_ref(&ref_req)`
abbrev pub queue_ref : Config → Generator → Generator
queue_ref cfg g =
    let (req, bench) = push_ref cfg g.ref_req 0 g.bench in record g { bench = bench; ref_req = req }

-- `push_ref(&ref_req, 1)`: no new phase begins.
abbrev pub queue_ref_only : Config → Generator → Generator
queue_ref_only cfg g =
    let (req, bench) = push_ref cfg g.ref_req 1 g.bench in record g { bench = bench; ref_req = req }

-- `(lui_base.imm << 12) + sign_extend(stype.imm)`
unfoldable pub stype_address : UType → SType → ℕ
stype_address lui_base stype =
    u64 (to_long (lui_base.imm << 12) + sign_extend (to_long stype.imm) 12)

-- The turn of the loop of `generate_stype_imm_lui_imm` for one pattern. The commands are the
-- function's local variables; they keep what the last turn left in them.
unfoldable pub stype_imm_turn :
    Config → ℕ → ℕ → UType × SType × Generator → UType × SType × Generator
stype_imm_turn cfg bits_width pattern (lui_base, stype, g) =
    let (lui, sqr1) =
      seq_lui (record lui_base { rd = regfile_a0; imm = u32 (sar64 pattern 12) }) g.bench.sqr in
    let (store, sqr2) =
      set_stype (record stype { imm = u32 pattern; rs1 = lui.rd; rs2 = 0 }) bits_width sqr1 in
    let req = record g.ref_req {
      wr = 1;
      rd_data = 0;
      wr_data = 0;
      addr = stype_address lui store;
    } in
    (lui, store, queue_ref cfg (record (with_sqr sqr2 g) { ref_req = req }))

unfoldable pub generate_stype_imm_lui_imm :
    Config → ℕ → List ℕ → UType × SType × Generator → UType × SType × Generator
generate_stype_imm_lui_imm cfg bits_width [] s = s
generate_stype_imm_lui_imm cfg bits_width (pattern ∷ patterns) s =
    generate_stype_imm_lui_imm cfg bits_width patterns (stype_imm_turn cfg bits_width pattern s)

-- The local variables of `generate_stype_data`, with the generator.
pub record StypeData : Type 0 where
  pub lui_base : UType
  pub lui_data : UType
  pub addi : IType
  pub stype : SType
  pub gen : Generator

unfoldable pub stype_data_turn : Config → ℕ → ℕ → ℕ → StypeData → StypeData
stype_data_turn cfg bits_width dreg pattern s =
    let word_len = cfg.xlen / 8 in
    let (lui, sqr1) =
      seq_lui (record s.lui_data { rd = dreg; imm = u32 (sar64 pattern 12) }) s.gen.bench.sqr in
    let (addi, sqr2) = seq_addi (record s.addi { rd = dreg; rs1 = dreg; imm = u32 pattern }) sqr1 in
    let aligned = u32 (sdiv64 pattern word_len * word_len) in
    let (store, sqr3) =
      set_stype (record s.stype { imm = aligned; rs1 = s.lui_base.rd; rs2 = dreg }) bits_width
        sqr2 in
    let req = record s.gen.ref_req {
      wr = 1;
      rd_data = 0;
      wr_data = get_lui_base_imm_value (to_long lui.imm) (to_long addi.imm) & store.datamask;
      addr = stype_address s.lui_base store;
    } in
    record s {
      lui_data = lui;
      addi = addi;
      stype = store;
      gen = queue_ref cfg (record (with_sqr sqr3 s.gen) { ref_req = req });
    }

unfoldable pub stype_data_patterns : Config → ℕ → ℕ → List ℕ → StypeData → StypeData
stype_data_patterns cfg bits_width dreg [] s = s
stype_data_patterns cfg bits_width dreg (pattern ∷ patterns) s =
    stype_data_patterns cfg bits_width dreg patterns (stype_data_turn cfg bits_width dreg pattern s)

-- `n` registers from `dreg` on, without the base register.
unfoldable pub stype_data_registers : Config → ℕ → List ℕ → ℕ → ℕ → StypeData → StypeData
stype_data_registers cfg bits_width patterns zero dreg s = s
stype_data_registers cfg bits_width patterns (suc n) dreg s =
    stype_data_registers cfg bits_width patterns n (dreg + 1)
      (if dreg == regfile_a0 then s else stype_data_patterns cfg bits_width dreg patterns s)

-- The data memory begins at address 0.
unfoldable pub generate_stype_data : Config → ℕ → List ℕ → StypeData → StypeData
generate_stype_data cfg bits_width patterns s =
    let (lui, sqr) = seq_lui (record s.lui_base { rd = regfile_a0; imm = 0 }) s.gen.bench.sqr in
    stype_data_registers cfg bits_width patterns (regs_num - 1) 1
      (record s { lui_base = lui; gen = with_sqr sqr s.gen })

-- The local variables of `generate_stype_acceptance`, with the generator and the number of random
-- numbers used.
pub record Acceptance : Type 0 where
  pub lui_base : UType
  pub stype : SType
  pub gen : Generator
  pub calls : ℕ

unfoldable pub acceptance_turn : Config → (ℕ → ℕ) → ℕ → ℕ → Acceptance → Acceptance
acceptance_turn cfg rand block_size i s =
    let (lui, sqr1) = seq_lui (record s.lui_base { rd = 0; imm = rand s.calls }) s.gen.bench.sqr in
    let (store, sqr2) =
      set_stype (record s.stype { imm = 0; rs1 = i; rs2 = i }) (1 << block_size) sqr1 in
    let req = record s.gen.ref_req { wr = 1; addr = 0; rd_data = 0; wr_data = 0 } in
    record {
      lui_base = lui;
      stype = store;
      gen = queue_ref cfg (record (with_sqr sqr2 s.gen) { ref_req = req });
      calls = s.calls + 1;
    }

-- `n` registers from `i` on.
unfoldable pub acceptance_registers : Config → (ℕ → ℕ) → ℕ → ℕ → ℕ → Acceptance → Acceptance
acceptance_registers cfg rand block_size zero i s = s
acceptance_registers cfg rand block_size (suc n) i s =
    if ltb cfg.xlen 64 && ltb 5 block_size
    then s
    else acceptance_registers cfg rand block_size n (i + 1)
        (acceptance_turn cfg rand block_size i s)

-- `n` block sizes from `block_size` on.
unfoldable pub acceptance_blocks : Config → (ℕ → ℕ) → ℕ → ℕ → ℕ → Acceptance → Acceptance
acceptance_blocks cfg rand max_reg zero block_size s = s
acceptance_blocks cfg rand max_reg (suc n) block_size s =
    acceptance_blocks cfg rand max_reg n (block_size + 1)
      (acceptance_registers cfg rand block_size max_reg 0 s)

-- `max_reg` is the size of the compiled core's register file.
unfoldable pub generate_stype_acceptance : Config → (ℕ → ℕ) → ℕ → Acceptance → Acceptance
generate_stype_acceptance cfg rand max_reg = acceptance_blocks cfg rand max_reg 4 3
