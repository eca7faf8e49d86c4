-- ===== src/Riscv/Generator/Branches/Straight.antt =====
-- generator.cpp: the core goes straight on at the branches of `generate_btype_no_jump`.
use native.Mathlib.Nat.{mod-lt, one-le-pow, le-max_right}
use verilog.Common.{
  ℕ, zero, suc, ◌+◌, ◌-◌, ◌/◌, ◌%◌, ◌^◌, ◌≤◌, ◌<◌, ◌≡◌, ◌≢◌, ◌⊎◌, inl, inr, refl, sym, ap, ◌∙◌,
  Bool, true, false, Bool-cases, ◌&&◌, truth, ◌==◌, if◌then◌else◌, ◌&◌, ◌∣∣◌, u32, u64, to_long,
  arith,
}
use verilog.Common.Bits.{and_low, or_digit, or_split}
use verilog.Common.Bits.Low.{or-low}
use verilog.Riscv.Isa.{Build, rv32, rv64, xlen_of, config}
use verilog.Riscv.Transactions.Queues.{cut}
use verilog.Riscv.Sequences.Dispatch.Branches.{Compare, beq, bne, blt, bge, bltu, bgeu, branch_code}
use verilog.Riscv.Rtl.Alu.{branch_taken}
use verilog.Riscv.Generator.{sign_extend}
use verilog.Riscv.Generator.Longs.{Fits}
use verilog.Riscv.Generator.Values.{sign_extend-12, sign_extend-32, seq_addi-imm}
use verilog.Riscv.Generator.Branches.NoJump.{
  Choice, skipped, chosen, BtypeNoJump, nonzero_random, no_jump_choice, no_jump_branch,
}

-- A `do` loop that ends has a random number other than 0, of the mask's bits.
nonzero_random-chosen :
    (rand : ℕ → ℕ) (k fuel calls imm calls' : ℕ)
    → nonzero_random rand (2 ^ k - 1) fuel calls ≡ chosen imm calls'
    → (0 < imm) × (imm < 2 ^ k)
unfolding nonzero_random
nonzero_random-chosen rand k zero calls imm calls' e = absurd (cc)
nonzero_random-chosen rand k (suc fuel) calls imm calls' e =
    let rest = nonzero_random-chosen rand k fuel (calls + 1) imm calls' in
    ground
      (arith, e, and_low k (rand calls), mod-lt (rand calls) (one-le-pow k 2 (omega arith)), rest)

or_bit_11 : (a : ℕ) → 2 ^ 11 ≤ (a ∣∣ 0x800) % 2 ^ 12
or_bit_11 a = omega (
  arith,
  or-low 12 a 0x800,
  or_split 11 (a % 2 ^ 12) 0x800,
  or_digit (a % 2 ^ 12 / 2 ^ 11) 1,
  le-max_right (a % 2 ^ 12 / 2 ^ 11 % 2) 1,
)

-- What is known of the pattern and of the immediate of a turn that is not skipped.
abbrev Picks : Compare → ℕ → ℕ → ℕ → ℕ → Type 0
Picks beq reg1 reg2 x imm = (reg1 ≢ reg2) × (0 < imm) × (imm < 2 ^ 12) × ((reg2 ≢ 0) ⊎ (x ≢ 0))
Picks bne reg1 reg2 x imm = (imm ≡ 0) × ((reg2 ≢ 0) ⊎ (x ≡ 0))
Picks blt reg1 reg2 x imm = (x < 2 ^ 63) × ((reg2 ≢ 0) ⊎ (0 < x)) × (2 ^ 11 ≤ imm % 2 ^ 12)
Picks bltu reg1 reg2 x imm = (reg1 ≢ 0) × (2 ^ 63 ≤ x) × (2 ^ 11 ≤ imm % 2 ^ 12)
Picks _ reg1 reg2 x imm =
    (reg1 ≢ reg2) × (reg2 ≢ 0) × (0 < x) × (x < 2 ^ 63) × (0 < imm) × (imm < 2 ^ 11)

-- Whether the core takes the branch, where the second ADDI adds `imm`.
abbrev takes : Build → Compare → ℕ → ℕ → ℕ → ℕ → Bool
takes b o reg1 reg2 x imm =
    let base = if truth reg1 then x else 0 in
    let rs2 = if truth reg2 then u64 (base + sign_extend (to_long imm) 12) else 0 in
    let rs1 = if truth reg1 && (reg1 == reg2) then rs2 else base in
    branch_taken (xlen_of b) true (branch_code o) (cut (xlen_of b) rs1) (cut (xlen_of b) rs2)

-- The commands' values never make the core branch.
straight :
    (b : Build) (o : Compare) (reg1 reg2 x imm : ℕ)
    → x < 2 ^ 64
    → Fits b x
    → ((2 ^ 63 ≤ x) ⊎ (x + 0x7FF < 2 ^ (xlen_of b - 1)))
    → Picks o reg1 reg2 x imm
    → takes b o reg1 reg2 x (imm % 2 ^ 12) ≡ false
unfolding branch_taken
straight rv32 beq reg1 reg2 x imm lt fx room picks =
    ground (arith, picks, fx, room, sign_extend-32 x, sign_extend-12 (to_long (imm % 2 ^ 12)))
straight rv32 _ reg1 reg2 x imm lt fx room picks =
    ground (arith, picks, fx, room, sign_extend-32 x, sign_extend-12 (to_long (imm % 2 ^ 12)))
straight rv64 beq reg1 reg2 x imm lt fx room picks =
    ground (arith, picks, room, sign_extend-12 (to_long (imm % 2 ^ 12)))
straight rv64 _ reg1 reg2 x imm lt fx room picks =
    ground (arith, picks, room, sign_extend-12 (to_long (imm % 2 ^ 12)))

no_jump_choice-Picks :
    (o : Compare) (rand : ℕ → ℕ) (fuel reg1 reg2 x calls imm calls' : ℕ)
    → no_jump_choice rand fuel (branch_code o) reg1 reg2 x calls ≡ chosen imm calls'
    → Picks o reg1 reg2 x imm
unfolding no_jump_choice
no_jump_choice-Picks beq rand fuel reg1 reg2 x calls imm calls' e =
    ground (arith, nonzero_random-chosen rand 12 fuel calls imm calls')
no_jump_choice-Picks bne rand fuel reg1 reg2 x calls imm calls' e = ground (arith, e)
no_jump_choice-Picks blt rand fuel reg1 reg2 x calls imm calls' e =
    ground (arith, e, or_bit_11 (rand calls))
no_jump_choice-Picks bltu rand fuel reg1 reg2 x calls imm calls' e =
    ground (arith, e, or_bit_11 (rand calls))
no_jump_choice-Picks bge rand fuel reg1 reg2 x calls imm calls' e =
    ground (arith, nonzero_random-chosen rand 11 fuel calls imm calls')
no_jump_choice-Picks bgeu rand fuel reg1 reg2 x calls imm calls' e =
    ground (arith, nonzero_random-chosen rand 11 fuel calls imm calls')

-- The `switch` on the opcode ends in one of these two ways.
abbrev Decided : Choice → Type 0
Decided c = (c ≡ skipped) ⊎ ((imm : ℕ) × ((calls : ℕ) × (c ≡ chosen imm calls)))

-- A `do` loop ends where one of the random numbers has a bit of the mask.
nonzero_random-ends :
    (rand : ℕ → ℕ) (mask j fuel calls : ℕ)
    → j < fuel
    → rand (calls + j) & mask ≢ 0
    → (imm : ℕ) × ((calls' : ℕ) × (nonzero_random rand mask fuel calls ≡ chosen imm calls'))
unfolding nonzero_random
nonzero_random-ends rand mask j zero calls enough bit = absurd (omega arith)
nonzero_random-ends rand mask zero (suc fuel) calls enough bit =
    let here : calls + 0 ≡ calls = omega arith in
    let bit' : rand calls & mask ≢ 0 = rw (sym here) bit in
    (rand calls & mask, (calls + 1, ground arith))
nonzero_random-ends rand mask (suc j) (suc fuel) calls enough bit =
    let later : calls + 1 + j ≡ calls + suc j = omega arith in
    let bit' : rand (calls + 1 + j) & mask ≢ 0 = rw (later) bit in
    let (imm, (calls', e)) = nonzero_random-ends rand mask j fuel (calls + 1) (omega arith) bit' in
    elim (Bool-cases (rand calls & mask == 0)) [
      | inl z ↦ (imm, (calls', rw (z) e))
      | inr n ↦ (rand calls & mask, (calls + 1, rw (n) refl))
    ]

decided :
    (c : Bool) (r : Choice)
    → (imm : ℕ) × ((calls : ℕ) × (r ≡ chosen imm calls))
    → Decided (if c then skipped else r)
decided true r ends = inl refl
decided false r ends = inr ends

-- The wider mask has the bits of the smaller one.
wider : (n : ℕ) → n & 0x7FF ≢ 0 → n & 0xFFF ≢ 0
wider n bit = ground (arith, bit, and_low 11 n, and_low 12 n)

no_jump_choice-Decided :
    (o : Compare) (rand : ℕ → ℕ) (j fuel reg1 reg2 x calls : ℕ)
    → j < fuel
    → rand (calls + j) & 0x7FF ≢ 0
    → Decided (no_jump_choice rand fuel (branch_code o) reg1 reg2 x calls)
unfolding no_jump_choice
no_jump_choice-Decided beq rand j fuel reg1 reg2 x calls enough bit =
    decided _ _ (nonzero_random-ends rand 0xFFF j fuel calls enough (wider (rand (calls + j)) bit))
no_jump_choice-Decided bne rand j fuel reg1 reg2 x calls enough bit = decided _ _ (0, (calls, refl))
no_jump_choice-Decided blt rand j fuel reg1 reg2 x calls enough bit =
    decided _ _ (u32 (rand calls ∣∣ 0x800), (calls + 1, refl))
no_jump_choice-Decided bltu rand j fuel reg1 reg2 x calls enough bit =
    decided _ _ (u32 (rand calls ∣∣ 0x800), (calls + 1, refl))
no_jump_choice-Decided _ rand j fuel reg1 reg2 x calls enough bit =
    decided _ _ (nonzero_random-ends rand 0x7FF j fuel calls enough bit)

-- For each comparison, in both builds, on a pattern that is the sign extension of a register and,
-- where it is positive, stays so when 0x7FF is added: a turn of `generate_btype_no_jump` is skipped,
-- or the core does not take the branch on the two values of the turn. The fuel is enough where it
-- reaches a random number with one of the low 11 bits.
pub no_jump_branch-straight :
    (b : Build) (w : ℕ) (o : Compare) (rand : ℕ → ℕ) (j fuel reg1 reg2 x : ℕ) (s : BtypeNoJump)
    → x < 2 ^ 64
    → Fits b x
    → ((2 ^ 63 ≤ x) ⊎ (x + 0x7FF < 2 ^ (xlen_of b - 1)))
    → j < fuel
    → rand (s.calls + j) & 0x7FF ≢ 0
    → let choice = no_jump_choice rand fuel (branch_code o) reg1 reg2 x s.calls in
      (choice ≡ skipped)
      ⊎ ((imm : ℕ) × ((calls : ℕ) × ((choice ≡ chosen imm calls)
              × (let t =
                    (no_jump_branch
                      (config b w)
                      (branch_code o)
                      reg1
                      reg2
                      x
                      imm
                      (record s { calls = calls })).0 in
                  branch_taken
                    (xlen_of b)
                    true
                    (branch_code o)
                    (cut (xlen_of b) t.rs1)
                    (cut (xlen_of b) t.rs2)
                  ≡ false))))
unfolding no_jump_branch
no_jump_branch-straight b w o rand j fuel reg1 reg2 x s lt fx room enough bit =
    elim (no_jump_choice-Decided o rand j fuel reg1 reg2 x s.calls enough bit) [
      | inl e ↦ inl e
      | inr (imm, (calls, e)) ↦
          (let picks = no_jump_choice-Picks o rand fuel reg1 reg2 x s.calls imm calls e in
            let goes = straight b o reg1 reg2 x imm lt fx room picks in
            inr (imm, (calls, (e, ap (takes b o reg1 reg2 x) (seq_addi-imm _ _) ∙ goes))))
    ]
