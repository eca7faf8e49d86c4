-- ===== src/Riscv/Generator/Branches/NoJump.antt =====
-- RISCV_SingleCycle/testbench/generator.cpp: `generate_btype_no_jump`.
use verilog.Common.{
  ℕ, zero, suc, ◌+◌, ◌*◌, ◌/◌, ◌%◌, ◌^◌, List, [], ◌∷◌, Bool, not, ◌&&◌, ◌||◌, truth, ltb, leb,
  ◌==◌, if◌then◌else◌, ◌&◌, ◌∣∣◌, u32, sub64, to_long,
}
use verilog.Riscv.Isa.{
  Config, op_b_type_beq, op_b_type_bne, op_b_type_blt, op_b_type_bge, op_b_type_bltu,
  op_b_type_bgeu,
}
use verilog.Riscv.Commands.{UType, SType, IType, BType, RType}
use verilog.Riscv.Sequencer.{Sequencer}
use verilog.Riscv.Sequences.Utype.{seq_lui}
use verilog.Riscv.Sequences.Stype.{set_stype}
use verilog.Riscv.Sequences.Btype.{set_btype}
use verilog.Riscv.Sequences.Rtype.{seq_or}
use verilog.Riscv.Sequences.Itype.Arithmetic.{seq_addi, seq_slli, seq_srli}
use verilog.Riscv.Generator.{Generator, with_sqr, queue_ref, sign_extend, sar64, regs_num}
use verilog.Riscv.Generator.Branches.{second_value, first_value, is_positive}

-- What the `switch` on the opcode comes to: the turn is skipped by `continue`, the opcode is not
-- that of a branch, the fuel for a `do` loop is used up, or the immediate of the second ADDI and the
-- number of random numbers used.
pub data Choice : Type 0 where
  skipped : Choice
  invalid : Choice
  endless : Choice
  chosen : ℕ → ℕ → Choice

-- `do { imm = rand() & mask; } while (imm == 0)`
unfoldable pub nonzero_random : (ℕ → ℕ) → ℕ → ℕ → ℕ → Choice
nonzero_random rand mask zero calls = endless
nonzero_random rand mask (suc fuel) calls =
    let again = nonzero_random rand mask fuel (calls + 1) in
    if rand calls & mask == 0 then again else chosen (rand calls & mask) (calls + 1)

-- `x < 0` of a `long`.
abbrev pub is_negative : ℕ → Bool
is_negative x = leb (2 ^ 63) x

unfoldable pub no_jump_choice : (ℕ → ℕ) → ℕ → ℕ → ℕ → ℕ → ℕ → ℕ → Choice
no_jump_choice rand fuel btype_opcode reg_rs1 reg_rs2 pattern calls =
    if btype_opcode == op_b_type_beq
    then (if (reg_rs1 == reg_rs2) || (not (truth reg_rs2) && not (truth pattern))
        then skipped
        else nonzero_random rand 0xFFF fuel calls)
    else if btype_opcode == op_b_type_bne
    then (if not (truth reg_rs2) && truth pattern then skipped else chosen 0 calls)
    else if btype_opcode == op_b_type_blt
    then (if (not (truth reg_rs2) && not (is_positive pattern)) || is_negative pattern
        then skipped
        else chosen (u32 (rand calls ∣∣ 0x800)) (calls + 1))
    else if btype_opcode == op_b_type_bge
    then (if (reg_rs1 == reg_rs2)
          || (not (truth reg_rs2) && not (is_negative pattern))
          || not (is_positive pattern)
        then skipped
        else nonzero_random rand 0x7FF fuel calls)
    else if btype_opcode == op_b_type_bltu
    then (if not (truth reg_rs1) || not (is_negative pattern)
        then skipped
        else chosen (u32 (rand calls ∣∣ 0x800)) (calls + 1))
    else if btype_opcode == op_b_type_bgeu
    then (if (reg_rs1 == reg_rs2) || not (truth reg_rs2) || not (is_positive pattern)
        then skipped
        else nonzero_random rand 0x7FF fuel calls)
    else invalid

-- The local variables, with the generator and the number of random numbers used.
pub record BtypeNoJump : Type 0 where
  pub btype : BType
  pub stype : SType
  pub lui : UType
  pub addi_rs1 : IType
  pub addi_rs2 : IType
  pub lui_help : UType
  pub addi_help : IType
  pub slli_help : IType
  pub rhelp : RType
  pub rs1 : ℕ
  pub rs2 : ℕ
  pub gen : Generator
  pub calls : ℕ

-- The commands of a turn go through the sequencer, with the variables beside it.
abbrev pub Commands : Type 0
Commands = BtypeNoJump × Sequencer

-- `(pattern - sign_extend(pattern & 0xFFF)) >> 12`
abbrev pub upper_part : ℕ → ℕ
upper_part pattern = u32 (sar64 (sub64 pattern (sign_extend (pattern & 0xFFF) 12)) 12)

-- The first of the registers 1 to 3 that is neither of the two.
abbrev pub reg_helper : ℕ → ℕ → ℕ
reg_helper reg_rs1 reg_rs2 =
    if not (reg_rs1 == 1) && not (reg_rs2 == 1)
    then 1
    else if not (reg_rs1 == 2) && not (reg_rs2 == 2)
    then 2
    else 3

-- "load upper 32 bits": the helper register gets the upper half, and `rs1` both.
unfoldable pub load_upper : Config → ℕ → ℕ → ℕ → BtypeNoJump → Sequencer → Commands
load_upper cfg reg_rs1 reg_rs2 pattern s sqr =
    let high = sar64 pattern 32 in
    let helper = reg_helper reg_rs1 reg_rs2 in
    let (lui, sqr1) = seq_lui (record s.lui_help { rd = helper; imm = upper_part high }) sqr in
    let (addi, sqr2) =
      seq_addi (record s.addi_help { rd = helper; rs1 = helper; imm = u32 high }) sqr1 in
    let (slli, sqr3) =
      seq_slli cfg (record s.slli_help { rd = helper; rs1 = helper; imm = 32 }) sqr2 in
    let (slli', sqr4) = seq_slli cfg (record slli { rd = reg_rs1; rs1 = reg_rs1; imm = 32 }) sqr3 in
    let (srli, sqr5) = seq_srli cfg slli' sqr4 in
    let (or, sqr6) = seq_or (record s.rhelp { rd = reg_rs1; rs1 = reg_rs1; rs2 = helper }) sqr5 in
    (record s { lui_help = lui; addi_help = addi; slli_help = srli; rhelp = or }, sqr6)

-- The commands up to the branch, given the immediate of the second ADDI, and the values that the
-- branch compares.
unfoldable pub no_jump_branch : Config → ℕ → ℕ → ℕ → ℕ → ℕ → BtypeNoJump → Commands
no_jump_branch cfg btype_opcode reg_rs1 reg_rs2 pattern imm s =
    let (lui, sqr1) =
      seq_lui (record s.lui { rd = reg_rs1; imm = upper_part pattern }) s.gen.bench.sqr in
    let (addi_rs1, sqr2) =
      seq_addi (record s.addi_rs1 { rd = reg_rs1; rs1 = reg_rs1; imm = u32 pattern }) sqr1 in
    let (t, sqr3) =
      if ltb 32 cfg.xlen && truth reg_rs1
      then load_upper cfg reg_rs1 reg_rs2 pattern s sqr2
      else (s, sqr2) in
    let (addi_rs2, sqr4) =
      seq_addi (record s.addi_rs2 { rd = reg_rs2; rs1 = reg_rs1; imm = imm }) sqr3 in
    let (btype, sqr5) =
      set_btype (record s.btype { rs1 = reg_rs1; rs2 = reg_rs2; imm = u32 pattern }) btype_opcode
        sqr4 in
    let rs1 = if truth reg_rs1 then pattern else 0 in
    let rs2 = second_value reg_rs2 rs1 addi_rs2 in
    (
      record t {
        lui = lui;
        addi_rs1 = addi_rs1;
        addi_rs2 = addi_rs2;
        btype = btype;
        rs1 = first_value reg_rs1 reg_rs2 rs1 rs2;
        rs2 = rs2;
      },
      sqr5,
    )

-- The store after the branch, and its reference transaction.
unfoldable pub no_jump_store : Config → (ℕ → ℕ) → ℕ → Commands → BtypeNoJump
no_jump_store cfg rand reg_rs1 (t, sqr) =
    let word_len = cfg.xlen / 8 in
    let imm = rand t.calls % 0x700 / word_len * word_len in
    let (store, sqr') =
      set_stype (record t.stype { imm = imm; rs1 = 0; rs2 = reg_rs1 }) cfg.xlen sqr in
    let req = record t.gen.ref_req {
      wr = 1;
      rd_data = 0;
      wr_data = if truth reg_rs1 then t.rs1 else 0;
      addr = sign_extend (to_long store.imm) 12;
    } in
    record t {
      stype = store;
      gen = queue_ref cfg (record (with_sqr sqr' t.gen) { ref_req = req });
      calls = t.calls + 1;
    }

-- How a turn ends: the function goes on, or returns, or does not end.
pub data Ending : Type 0 where
  goes_on : Ending
  returns : Ending
  hangs : Ending

-- The rest of a turn, after the `switch`.
unfoldable pub no_jump_chosen :
    Config → (ℕ → ℕ) → ℕ → ℕ → ℕ → ℕ → BtypeNoJump → Choice → Ending × BtypeNoJump
no_jump_chosen cfg rand btype_opcode reg_rs1 reg_rs2 pattern s skipped = (goes_on, s)
no_jump_chosen cfg rand btype_opcode reg_rs1 reg_rs2 pattern s invalid = (returns, s)
no_jump_chosen cfg rand btype_opcode reg_rs1 reg_rs2 pattern s endless = (hangs, s)
no_jump_chosen cfg rand btype_opcode reg_rs1 reg_rs2 pattern s (chosen imm calls) = (
  goes_on,
  no_jump_store cfg rand reg_rs1
      (no_jump_branch cfg btype_opcode reg_rs1 reg_rs2 pattern imm (record s { calls = calls })),
)

-- One turn of the innermost loop, with the pattern cut to an `int` in the 32-bit build.
unfoldable pub no_jump_turn :
    Config → (ℕ → ℕ) → ℕ → ℕ → ℕ → ℕ → ℕ → BtypeNoJump → Ending × BtypeNoJump
no_jump_turn cfg rand fuel btype_opcode reg_rs1 reg_rs2 pattern s =
    let x = if ltb cfg.xlen 64 then to_long (u32 pattern) else pattern in
    no_jump_chosen cfg rand btype_opcode reg_rs1 reg_rs2 x s
      (no_jump_choice rand fuel btype_opcode reg_rs1 reg_rs2 x s.calls)

-- The patterns from the `i`-th on; four are enough where a register is x0.
unfoldable pub no_jump_patterns :
    Config → (ℕ → ℕ) → ℕ → ℕ → ℕ → ℕ → ℕ → List ℕ → BtypeNoJump → Ending × BtypeNoJump
no_jump_patterns cfg rand fuel btype_opcode reg_rs1 reg_rs2 i [] s = (goes_on, s)
no_jump_patterns cfg rand fuel btype_opcode reg_rs1 reg_rs2 i (pattern ∷ patterns) s =
    if (not (truth reg_rs1) || not (truth reg_rs2)) && (i == 4)
    then (goes_on, s)
    else (let (ending, s') = no_jump_turn cfg rand fuel btype_opcode reg_rs1 reg_rs2 pattern s in
        elim ending [
          | goes_on ↦
              no_jump_patterns cfg rand fuel btype_opcode reg_rs1 reg_rs2 (i + 1) patterns s'
          | other ↦ (other, s')
        ])

-- `n` second source registers from `reg_rs2` on.
unfoldable pub no_jump_seconds :
    Config → (ℕ → ℕ) → ℕ → ℕ → List ℕ → ℕ → ℕ → ℕ → BtypeNoJump → Ending × BtypeNoJump
no_jump_seconds cfg rand fuel btype_opcode patterns reg_rs1 zero reg_rs2 s = (goes_on, s)
no_jump_seconds cfg rand fuel btype_opcode patterns reg_rs1 (suc n) reg_rs2 s =
    let (ending, s') = no_jump_patterns cfg rand fuel btype_opcode reg_rs1 reg_rs2 0 patterns s in
    elim ending [
      | goes_on ↦ no_jump_seconds cfg rand fuel btype_opcode patterns reg_rs1 n (reg_rs2 + 1) s'
      | other ↦ (other, s')
    ]

-- `n` first source registers from `reg_rs1` on.
unfoldable pub no_jump_firsts :
    Config → (ℕ → ℕ) → ℕ → ℕ → List ℕ → ℕ → ℕ → BtypeNoJump → Ending × BtypeNoJump
no_jump_firsts cfg rand fuel btype_opcode patterns zero reg_rs1 s = (goes_on, s)
no_jump_firsts cfg rand fuel btype_opcode patterns (suc n) reg_rs1 s =
    let (ending, s') = no_jump_seconds cfg rand fuel btype_opcode patterns reg_rs1 regs_num 0 s in
    elim ending [
      | goes_on ↦ no_jump_firsts cfg rand fuel btype_opcode patterns n (reg_rs1 + 1) s'
      | other ↦ (other, s')
    ]

unfoldable pub generate_btype_no_jump :
    Config → (ℕ → ℕ) → ℕ → List ℕ → ℕ → BtypeNoJump → Ending × BtypeNoJump
generate_btype_no_jump cfg rand fuel patterns btype_opcode s =
    no_jump_firsts cfg rand fuel btype_opcode patterns regs_num 0 s
