-- ===== src/Common/Word.antt =====
-- C integers as bit patterns. An `int` or `unsigned` is a number below 2 ^ 32, a `long` one
-- below 2 ^ 64; a negative value is its two's complement pattern.
use Prim.Native.Nat.{ℕ, ◌+◌, ◌-◌, ◌*◌, ◌/◌, ◌%◌, ◌^◌, bit_and, bit_or}
use mathlib.Core.Bool.{Bool}
use verilog.Common.Tests.{ltb, if◌then◌else◌}

abbrev pub u8 : ℕ → ℕ
u8 n = n % 2 ^ 8

abbrev pub u16 : ℕ → ℕ
u16 n = n % 2 ^ 16

abbrev pub u32 : ℕ → ℕ
u32 n = n % 2 ^ 32

abbrev pub u64 : ℕ → ℕ
u64 n = n % 2 ^ 64

infixl 64 ◌<<◌ ◌>>◌
infixl 63 ◌&◌
infixl 62 ◌∣∣◌
-- `x << k` of an `int` or `unsigned`.
abbrev pub ◌<<◌ : ℕ → ℕ → ℕ
x << k = x * 2 ^ k % 2 ^ 32

-- `x << k` of a `long`.
abbrev pub shl64 : ℕ → ℕ → ℕ
shl64 x k = x * 2 ^ k % 2 ^ 64

-- `x >> k` of an unsigned or non-negative `x`.
abbrev pub ◌>>◌ : ℕ → ℕ → ℕ
x >> k = x / 2 ^ k

abbrev pub ◌&◌ : ℕ → ℕ → ℕ
x & y = bit_and x y

abbrev pub ◌∣∣◌ : ℕ → ℕ → ℕ
x ∣∣ y = bit_or x y

-- `a - b` at 32 and 64 bits.
abbrev pub sub32 : ℕ → ℕ → ℕ
sub32 a b = (a + 2 ^ 32 - b) % 2 ^ 32

abbrev pub sub64 : ℕ → ℕ → ℕ
sub64 a b = (a + 2 ^ 64 - b) % 2 ^ 64

-- An `int` converted to `long`: the sign is copied into the upper half.
abbrev pub to_long : ℕ → ℕ
to_long n = if ltb n (2 ^ 31) then n else n + (2 ^ 64 - 2 ^ 32)

-- Signed `<` on 64-bit patterns: adding 2 ^ 63 turns the order of the values into that of ℕ.
abbrev pub slt64 : ℕ → ℕ → Bool
slt64 a b = ltb (u64 (a + 2 ^ 63)) (u64 (b + 2 ^ 63))
