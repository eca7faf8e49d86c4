-- ===== src/Riscv/Sequencer/Bytes.antt =====
-- What the lines of a hex file say: `put_bytes` and the word length that `main` chooses.
use native.Mathlib.Nat.{one-le-pow, pow-suc, mul_comm}
use native.Mathlib.Numerals.{towards_suc}
use verilog.Common.{
  ℕ, zero, suc, ◌+◌, ◌*◌, ◌/◌, ◌%◌, ◌^◌, ◌<◌, ◌≡◌, refl, ap, ◌∙◌, List, [], ◌∷◌, ◌⊎◌, arith, length,
  to_long, bit_and,
}
use verilog.Common.Bits.{and_low, mod-mul}
use verilog.Riscv.Sequencer.{bytes_of, word_len}

-- A line read back, most significant byte first, after a value `acc`.
abbrev pub read_from : ℕ → List ℕ → ℕ
read_from acc [] = acc
read_from acc (b ∷ bs) = read_from (acc * 256 + b) bs

-- The line that `main` writes for a command.
abbrev pub line : ℕ → List ℕ
line val = bytes_of (word_len val) (to_long val)

pow-add-byte : (k : ℕ) → 2 ^ (k + 8) ≡ 2 ^ k * 256
pow-add-byte k = simp towards_suc (omega arith)

pow-byte : (n : ℕ) → 2 ^ (n * 8) ≡ 256 ^ n
pow-byte zero = refl
pow-byte (suc n) =
    ap (λ (t : ℕ). 2 ^ t) (omega arith)
    ∙ pow-add-byte (n * 8)
    ∙ omega (arith, pow-byte n, pow-suc 256 n)

read_from-bytes_of : (n acc v : ℕ) → read_from acc (bytes_of n v) ≡ acc * 256 ^ n + v % 256 ^ n
unfolding bytes_of
read_from-bytes_of zero acc v = omega arith
read_from-bytes_of (suc n) acc v =
    read_from-bytes_of n (acc * 256 + bit_and (v / 2 ^ (n * 8)) 255) v
    ∙ omega (
      arith,
      and_low 8 (v / 2 ^ (n * 8)),
      ap (λ (t : ℕ). bit_and (v / t) 255) (pow-byte n),
      and_low 8 (v / 256 ^ n),
      ap (λ (t : ℕ). t * 256 ^ n) (and_low 8 (v / 256 ^ n)),
      ap (λ (t : ℕ). bit_and (v / t) 255 * 256 ^ n) (pow-byte n),
      pow-suc 256 n,
      ap (λ (t : ℕ). acc * t) (pow-suc 256 n),
      ap (λ (t : ℕ). v % t) (pow-suc 256 n ∙ mul_comm (256 ^ n) 256),
      mod-mul v 256 (256 ^ n) (omega arith) (one-le-pow n 256 (omega arith)),
    )

length-bytes_of : (n v : ℕ) → length (bytes_of n v) ≡ n
unfolding bytes_of
length-bytes_of zero v = refl
length-bytes_of (suc n) v = ap suc (length-bytes_of n v)

-- `put_bytes` writes exactly `word_len` bytes, which read back as the value modulo the word.
pub bytes_of-read :
    (n v : ℕ) → (length (bytes_of n v) ≡ n) × (read_from 0 (bytes_of n v) ≡ v % 256 ^ n)
bytes_of-read n v = (length-bytes_of n v, omega (arith, read_from-bytes_of n 0 v))

-- As written, the test looks at the lowest bit alone.
pub word_len_lem :
    (val : ℕ) → ((val % 2 ≡ 1) × (word_len val ≡ 4)) ⊎ ((val % 2 ≡ 0) × (word_len val ≡ 2))
unfolding word_len
word_len_lem val = ground (arith, and_low 1 val)

-- Every command whose two low bits are 11 is written as four bytes that read back as the command.
pub line-read :
    (val : ℕ)
    → val < 2 ^ 32
    → val % 4 ≡ 3
    → (length (line val) ≡ 4) × (read_from 0 (line val) ≡ val)
line-read val small full =
    ground (
      arith,
      word_len_lem val,
      length-bytes_of 4 (to_long val),
      read_from-bytes_of 4 0 (to_long val),
    )

-- A command that ends in 01 is of the compressed quadrant 1, and is still written as four bytes.
pub line-quadrant_one : (val : ℕ) → val % 4 ≡ 1 → length (line val) ≡ 4
line-quadrant_one val h =
    ground
      (arith, word_len_lem val, length-bytes_of 4 (to_long val), length-bytes_of 2 (to_long val))
