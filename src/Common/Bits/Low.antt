-- ===== src/Common/Bits/Low.antt =====
-- The bit operations on the low bits of a word, and a power of 2 by its parts.
use Prim.Native.Nat.{
  ℕ, zero, suc, ◌+◌, ◌-◌, ◌*◌, ◌/◌, ◌%◌, ◌^◌, ◌≤◌, ◌<◌, min, max, differ, bit_and, bit_or, bit_xor,
  bit_xor-bitwise,
}
use mathlib.Core.Path.{◌≡◌, refl, sym, ap, ◌∙◌}
use native.Mathlib.Nat.{le_refl, add-suc, pow-suc, one-le-pow, mul_assoc, mul-one, mod-one}
use native.Mathlib.Numerals.{unary_clauses}
use native.Mathlib.Omega.{arith}
use verilog.Common.Bits.{spare_fuel, and_digit, or_digit, mod-mul}

xor_digit : (a b : ℕ) → bit_xor a b ≡ bit_xor (a / 2) (b / 2) * 2 + differ (a % 2) (b % 2)
xor_digit zero b = omega (arith, bit_xor-bitwise 0 (b / 2), bit_xor-bitwise 0 b)
xor_digit (suc a) b =
    let half = suc a / 2 in
    let fuel = spare_fuel (λ b. b) differ a a half (b / 2) (le_refl a) (omega arith) in
    omega (arith, fuel, bit_xor-bitwise half (b / 2), bit_xor-bitwise (suc a) b)

differ-lt : (x y : ℕ) → x < 2 → y < 2 → differ x y < 2
differ-lt zero y h k = k
differ-lt (suc x) zero h k = h
differ-lt (suc zero) (suc zero) h k = omega arith
differ-lt (suc zero) (suc (suc y)) h k = absurd (omega arith)
differ-lt (suc (suc x)) (suc y) h k = absurd (omega arith)

-- `n % 2 ^ (k + 1)` by the half and the lowest digit.
low_half : (k n : ℕ) → n % 2 ^ suc k ≡ n / 2 % 2 ^ k * 2 + n % 2
low_half k n =
    ap (λ (t : ℕ). n % t) (pow-suc 2 k)
    ∙ mod-mul n (2 ^ k) 2 (one-le-pow k 2 (omega arith)) (omega arith)

module _ (op digit : ℕ → ℕ → ℕ) (none : op 0 0 ≡ 0)
    (step : (a b : ℕ) → op a b ≡ op (a / 2) (b / 2) * 2 + digit (a % 2) (b % 2))
    (small : (a b : ℕ) → digit (a % 2) (b % 2) < 2) where
  low_bits : (k a b : ℕ) → op a b % 2 ^ k ≡ op (a % 2 ^ k) (b % 2 ^ k)
  low_bits zero a b =
      mod-one (op a b)
      ∙ sym none
      ∙ ap (λ (t : ℕ). op t 0) (sym (mod-one a))
      ∙ ap (op (a % 1)) (sym (mod-one b))
  low_bits (suc k) a b =
      let x = a % 2 ^ suc k in
      let y = b % 2 ^ suc k in
      let halves : op (x / 2) (y / 2) ≡ op (a / 2 % 2 ^ k) (b / 2 % 2 ^ k) =
        ap (λ (t : ℕ). op t (y / 2)) (omega (arith, low_half k a))
        ∙ ap (op (a / 2 % 2 ^ k)) (omega (arith, low_half k b)) in
      let digits : digit (x % 2) (y % 2) ≡ digit (a % 2) (b % 2) =
        ap (λ (t : ℕ). digit t (y % 2)) (omega (arith, low_half k a))
        ∙ ap (digit (a % 2)) (omega (arith, low_half k b)) in
      let half : op a b / 2 ≡ op (a / 2) (b / 2) = omega (arith, step a b, small a b) in
      omega (
        arith,
        low_half k (op a b),
        ap (λ (t : ℕ). t % 2 ^ k) half,
        low_bits k (a / 2) (b / 2),
        halves,
        digits,
        step x y,
        step a b,
        small a b,
      )

pub and-low : (k a b : ℕ) → bit_and a b % 2 ^ k ≡ bit_and (a % 2 ^ k) (b % 2 ^ k)
and-low = low_bits bit_and min refl and_digit (λ a b. omega arith)

pub or-low : (k a b : ℕ) → bit_or a b % 2 ^ k ≡ bit_or (a % 2 ^ k) (b % 2 ^ k)
or-low = low_bits bit_or max refl or_digit (λ a b. omega arith)

pub xor-low : (k a b : ℕ) → bit_xor a b % 2 ^ k ≡ bit_xor (a % 2 ^ k) (b % 2 ^ k)
xor-low =
    low_bits bit_xor differ refl xor_digit
      (λ a b. differ-lt (a % 2) (b % 2) (omega arith) (omega arith))

pub pow-split : (m k : ℕ) → 2 ^ (m + k) ≡ 2 ^ m * 2 ^ k
pow-split m zero = simp unary_clauses (sym (mul-one (2 ^ m)))
pow-split m (suc k) = omega (
  arith,
  ap (λ (t : ℕ). 2 ^ t) (add-suc m k) ∙ pow-suc 2 (m + k),
  pow-suc 2 k,
  pow-split m k,
  ap (λ (t : ℕ). 2 ^ m * t) (pow-suc 2 k),
  mul_assoc (2 ^ m) (2 ^ k) 2,
)

-- A power of 2 cut in two at `k`.
pub pow-cut : (n k : ℕ) → k ≤ n → 2 ^ n ≡ 2 ^ (n - k) * 2 ^ k
pow-cut n k h =
    let whole : n ≡ n - k + k = omega arith in ap (λ (t : ℕ). 2 ^ t) whole ∙ pow-split (n - k) k
