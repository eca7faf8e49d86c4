-- ===== src/Riscv/Generator/Jumps/Bounds.antt =====
-- generator.cpp: the jump generators keep to the instruction memory.
use native.Mathlib.Nat.{mod-lt}
use verilog.Common.{
  ℕ, ◌+◌, ◌-◌, ◌%◌, ◌^◌, ◌≤◌, ◌<◌, ◌≡◌, refl, false, Bool-cases, inl, inr, truth, leb, not, ◌||◌,
  if◌then◌else◌, Option, some, none, u64, sub64, arith,
}
use verilog.Common.Bits.{and_field}
use verilog.Riscv.Isa.{Config, inst_mem_depth}
use verilog.Riscv.Generator.Jumps.{
  memory_end, rem64, aligned_offset, backward_offset, forward_offset, next_jump, JalForward,
  jal_forward_commands,
}
use verilog.Riscv.Generator.Jumps.Backward.{JalBackward, jal_backward_commands, jal_backward_turn}

-- The next command stands in the memory, and the largest jump would lead to its end.
abbrev pub InMemory : ℕ → ℕ → Type 0
InMemory pc max_jump = (pc % 4 ≡ 0) × (pc < memory_end) × (max_jump ≡ memory_end - pc)

positive : (pc max_jump : ℕ) → InMemory pc max_jump → 0 < max_jump
positive pc max_jump (four, below, rest) = omega arith

-- An offset is a multiple of 4 below the largest jump.
aligned_offset-lt :
    (pattern pc max_jump : ℕ)
    → InMemory pc max_jump
    → let offset = aligned_offset pattern max_jump in (offset % 4 ≡ 0) × (offset + 4 ≤ max_jump)
unfolding aligned_offset
aligned_offset-lt pattern pc max_jump (four, below, rest) =
    let field = and_field 17 2 (rem64 pattern max_jump) in
    let small = mod-lt pattern (positive pc max_jump (four, below, rest)) in
    ground (arith, field, small)

backward_offset-lt : (pattern max_jump : ℕ) → backward_offset pattern max_jump < 2 ^ 20
unfolding backward_offset aligned_offset
backward_offset-lt pattern max_jump =
    let field = and_field 17 2 (rem64 pattern max_jump) in ground (arith, field)

-- A phase goes on only where the next command still stands in the memory.
stays-InMemory :
    (pc stimulus : ℕ)
    → pc % 4 ≡ 0
    → pc ≤ memory_end + 12
    → stimulus < 2 ^ 20
    → let max_jump = sub64 memory_end pc in
      not (truth max_jump) || leb memory_end (u64 (pc + stimulus)) ≡ false → InMemory pc max_jump
stays-InMemory pc stimulus four small low stays = ground arith

next_jump-InMemory :
    (pc : ℕ) (next : Option ℕ)
    → pc % 4 ≡ 0
    → pc ≤ memory_end + 12
    → (next_jump pc next).1 ≡ false
    → InMemory pc (next_jump pc next).0
unfolding next_jump
next_jump-InMemory pc none four small stays =
    stays-InMemory pc (if truth (sub64 memory_end pc) then 0 else 0) four small (ground arith) stays
next_jump-InMemory pc (some pattern) four small stays =
    let max_jump = sub64 memory_end pc in
    let low = backward_offset-lt pattern max_jump in
    stays-InMemory pc (if truth max_jump then backward_offset pattern max_jump else 0) four small
      (ground (arith, low)) stays

-- The commands of a turn end in the memory, and the offset is a multiple of 4.
pub forward_offset-fits :
    (pattern pc max_jump : ℕ)
    → InMemory pc max_jump
    → let offset = forward_offset pattern max_jump in
      (offset % 4 ≡ 0) × (4 ≤ offset) × (pc + offset + 4 ≤ memory_end + 4)
unfolding forward_offset
forward_offset-fits pattern pc max_jump within =
    let (four, below) = aligned_offset-lt pattern pc max_jump within in ground (arith, four, below)

backward_offset-fits :
    (pattern pc max_jump : ℕ)
    → InMemory pc max_jump
    → let offset = backward_offset pattern max_jump in
      (offset % 4 ≡ 0) × (8 ≤ offset) × (pc + (offset + 8) ≤ memory_end + 12)
unfolding backward_offset
backward_offset-fits pattern pc max_jump within =
    let (four, below) = aligned_offset-lt pattern pc max_jump within in ground (arith, four, below)

pub jal_forward_commands-pc :
    (cfg : Config) (rand : ℕ → ℕ) (dreg pattern : ℕ) (s : JalForward)
    → InMemory s.pc s.max_jump
    → let t = jal_forward_commands cfg rand dreg pattern s in
      (t.pc ≡ s.pc + forward_offset pattern s.max_jump + 4)
      × (t.pc % 4 ≡ 0)
      × (t.pc ≤ memory_end + 4)
unfolding jal_forward_commands
jal_forward_commands-pc cfg rand dreg pattern s within =
    let (four, least, fits) = forward_offset-fits pattern s.pc s.max_jump within in
    ground (arith, four, least, fits)

jal_backward_commands-pc :
    (cfg : Config) (rand : ℕ → ℕ) (dreg pattern : ℕ) (s : JalBackward)
    → InMemory s.pc s.max_jump
    → let t = jal_backward_commands cfg rand dreg pattern s in
      (t.pc % 4 ≡ 0) × (t.pc ≤ memory_end + 12)
unfolding jal_backward_commands
jal_backward_commands-pc cfg rand dreg pattern s within =
    let (four, least, fits) = backward_offset-fits pattern s.pc s.max_jump within in
    ground (arith, four, least, fits)

-- The same of `generate_jal_backward`, whose turns end at most 12 bytes behind the limit.
pub jal_backward_turn-InMemory :
    (cfg : Config) (rand : ℕ → ℕ) (dreg pattern : ℕ) (next : Option ℕ) (s : JalBackward)
    → InMemory s.pc s.max_jump
    → let t = jal_backward_turn cfg rand dreg pattern next s in
      ((jal_backward_commands cfg rand dreg pattern s).pc ≤ inst_mem_depth)
      × InMemory t.pc t.max_jump
unfolding jal_backward_turn
jal_backward_turn-InMemory cfg rand dreg pattern next s within =
    let made = jal_backward_commands cfg rand dreg pattern s in
    let (four, small) = jal_backward_commands-pc cfg rand dreg pattern s within in
    (
      omega arith,
      elim (Bool-cases (next_jump made.pc next).1) [
        | inl e ↦ rw (e) (refl, omega arith, refl)
        | inr e ↦ rw (e) (next_jump-InMemory made.pc next four small e)
      ],
    )
