-- ===== src/Common/Bits.antt =====
-- What `&` and `|` do on the fields of a word, as arithmetic that `omega` reads.
pub mod Low
use Prim.Native.Nat.{
  ℕ, zero, suc, ◌+◌, ◌-◌, ◌*◌, ◌/◌, ◌%◌, ◌^◌, ◌≤◌, ◌<◌, min, max, digits, bit_and, bit_or,
  bit_and-bitwise, bit_or-bitwise,
}
use mathlib.Core.Path.{◌≡◌, refl, sym, ap, ◌∙◌, ◌≡⟨◌⟩◌, ◌∎}
use native.Mathlib.Nat.{
  le_refl, pow-suc, one-le-pow, mul-add-mod_self_right, mod-eq_of_lt, mod-lt, div-add-mod',
  div-div-eq-div-mul, mul_assoc, mul_comm, mul-one, div-one, mod-one,
}
use native.Mathlib.Omega.{arith}

-- The native operations stand for a recursion over binary digits with fuel. The first number is
-- fuel enough; `k` bounds the fuels that are compared.
module _ (base : ℕ → ℕ) (op : ℕ → ℕ → ℕ) where
  pub spare_fuel :
      (k fuel x y : ℕ) → fuel ≤ k → x ≤ fuel → digits base op fuel x y ≡ digits base op x x y
  spare_fuel k zero zero y bound enough = refl
  spare_fuel k (suc fuel) zero y bound enough = refl
  spare_fuel k zero (suc x) y bound enough = absurd (omega arith)
  spare_fuel zero (suc fuel) (suc x) y bound enough = absurd (omega arith)
  spare_fuel (suc k) (suc fuel) (suc x) y bound enough =
      let half = suc x / 2 in
      let left = spare_fuel k fuel half (y / 2) (omega arith) (omega arith) in
      let right = spare_fuel k x half (y / 2) (omega arith) (omega arith) in
      omega (arith, left, right)

-- One equation for the lowest digit of each operation.
pub and_digit : (a b : ℕ) → bit_and a b ≡ bit_and (a / 2) (b / 2) * 2 + min (a % 2) (b % 2)
and_digit zero b = omega (arith, bit_and-bitwise 0 (b / 2), bit_and-bitwise 0 b)
and_digit (suc a) b =
    let half = suc a / 2 in
    let fuel = spare_fuel (λ y. 0) min a a half (b / 2) (le_refl a) (omega arith) in
    omega (arith, fuel, bit_and-bitwise half (b / 2), bit_and-bitwise (suc a) b)

pub or_digit : (a b : ℕ) → bit_or a b ≡ bit_or (a / 2) (b / 2) * 2 + max (a % 2) (b % 2)
or_digit zero b = omega (arith, bit_or-bitwise 0 (b / 2), bit_or-bitwise 0 b)
or_digit (suc a) b =
    let half = suc a / 2 in
    let fuel = spare_fuel (λ y. y) max a a half (b / 2) (le_refl a) (omega arith) in
    omega (arith, fuel, bit_or-bitwise half (b / 2), bit_or-bitwise (suc a) b)

and-zero_below : (n a : ℕ) → a ≤ n → bit_and a 0 ≡ 0
and-zero_below n zero h = refl
and-zero_below zero (suc a) h = absurd (omega arith)
and-zero_below (suc n) (suc a) h =
    omega (arith, and_digit (suc a) 0, and-zero_below n (suc a / 2) (omega arith))

zero-or : (b : ℕ) → bit_or 0 b ≡ b
zero-or b = bit_or-bitwise 0 b

-- `n % (m k)` from the part below `k`, and the rest modulo `m`.
pub mod-mul : (n m k : ℕ) → 0 < m → 0 < k → n % (m * k) ≡ n / k % m * k + n % k
mod-mul n m k m_pos k_pos =
    n % (m * k)
    ≡⟨ ap (λ (t : ℕ). t % (m * k)) parts ⟩ (n / k / m * (m * k) + low) % (m * k)
    ≡⟨ mul-add-mod_self_right (n / k / m) (m * k) low ⟩ low % (m * k)
    ≡⟨ mod-eq_of_lt fits ⟩ low ∎
  where
    low : ℕ
    low = n / k % m * k + n % k

    parts : n ≡ n / k / m * (m * k) + low
    parts = omega (
      arith,
      div-add-mod' n k,
      ap (λ (t : ℕ). t * k) (div-add-mod' (n / k) m),
      mul_assoc (n / k / m) m k,
    )

    fits : low < m * k
    fits = grind (arith, mod-lt (n / k) m_pos, mod-lt n k_pos)

-- `a & (2 ^ k - 1)` keeps the low `k` bits.
pub and_low : (k a : ℕ) → bit_and a (2 ^ k - 1) ≡ a % 2 ^ k
and_low zero a = omega (arith, and-zero_below a a (le_refl a))
and_low (suc k) a = omega (
  arith,
  and_digit a (2 ^ suc k - 1),
  pow-suc 2 k,
  one-le-pow k 2 (omega arith),
  ap (bit_and (a / 2)) half_mask,
  and_low k (a / 2),
  ap (λ (t : ℕ). a % t) (pow-suc 2 k),
  mod-mul a (2 ^ k) 2 (one-le-pow k 2 (omega arith)) (omega arith),
)
  where
    half_mask : (2 ^ suc k - 1) / 2 ≡ 2 ^ k - 1
    half_mask = omega (arith, pow-suc 2 k, one-le-pow k 2 (omega arith))

-- A mask of `k` ones from bit `j` keeps those bits in place.
pub and_field : (k j a : ℕ) → bit_and a ((2 ^ k - 1) * 2 ^ j) ≡ a / 2 ^ j % 2 ^ k * 2 ^ j
and_field k zero a = ground (arith, and_low k a, mul-one (2 ^ k - 1))
and_field k (suc j) a = ground (
  arith,
  and_digit a ((2 ^ k - 1) * 2 ^ suc j),
  pow-suc 2 j,
  ap (λ (t : ℕ). (2 ^ k - 1) * t) (pow-suc 2 j),
  mul_assoc (2 ^ k - 1) (2 ^ j) 2,
  and_field k j (a / 2),
  ap (λ (t : ℕ). a / 2 ^ suc j % 2 ^ k * t) (pow-suc 2 j),
  mul_assoc (a / 2 ^ suc j % 2 ^ k) (2 ^ j) 2,
  ap (λ (t : ℕ). a / t) (pow-suc 2 j ∙ mul_comm (2 ^ j) 2),
  div-div-eq-div-mul a 2 (2 ^ j),
)

-- `r | (q << k)` is a sum where `r` fits `k` bits.
pub or_shifted : (k r q : ℕ) → r < 2 ^ k → bit_or r (q * 2 ^ k) ≡ r + q * 2 ^ k
or_shifted zero r q h = ground (arith, zero-or q)
or_shifted (suc k) r q h = ground (
  arith,
  or_digit r (q * 2 ^ suc k),
  pow-suc 2 k,
  ap (λ (t : ℕ). q * t) (pow-suc 2 k),
  mul_assoc q (2 ^ k) 2,
  or_shifted k (r / 2) q (omega (arith, pow-suc 2 k)),
)

-- `|` works on the part below bit `k` and on the part above it by itself.
pub or_split :
    (k a b : ℕ)
    → bit_or a b ≡ bit_or (a / 2 ^ k) (b / 2 ^ k) * 2 ^ k + bit_or (a % 2 ^ k) (b % 2 ^ k)
or_split zero a b =
    ground (arith, div-one a, div-one b, mod-one a, mod-one b, zero-or 0, mul-one (bit_or a b))
or_split (suc k) a b = ground (
  arith,
  or_digit a b,
  or_digit (a % 2 ^ suc k) (b % 2 ^ suc k),
  low_digit a,
  low_digit b,
  high a,
  high b,
  or_split k (a / 2) (b / 2),
  pow-suc 2 k,
  ap (λ (t : ℕ). bit_or (a / 2 ^ suc k) (b / 2 ^ suc k) * t) (pow-suc 2 k),
  mul_assoc (bit_or (a / 2 ^ suc k) (b / 2 ^ suc k)) (2 ^ k) 2,
)
  where
    low : (n : ℕ) → n % 2 ^ suc k ≡ n / 2 % 2 ^ k * 2 + n % 2
    low n =
        ap (λ (t : ℕ). n % t) (pow-suc 2 k)
        ∙ mod-mul n (2 ^ k) 2 (one-le-pow k 2 (omega arith)) (omega arith)

    low_digit : (n : ℕ) → (n % 2 ^ suc k / 2 ≡ n / 2 % 2 ^ k) × (n % 2 ^ suc k % 2 ≡ n % 2)
    low_digit n = omega (arith, low n)

    high : (n : ℕ) → n / 2 ^ suc k ≡ n / 2 / 2 ^ k
    high n =
        ap (λ (t : ℕ). n / t) (pow-suc 2 k ∙ mul_comm (2 ^ k) 2)
        ∙ sym (div-div-eq-div-mul n 2 (2 ^ k))
