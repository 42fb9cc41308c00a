-- ===== src/Bits/Fields.antt =====
-- bit_or of disjoint fields and bit_xor with one bit, as arithmetic, for the offsets of instructions.
use Prim.Native.Nat.{digits, differ, bit_or-bitwise, bit_xor-bitwise}
use native.Mathlib.Nat.{pow-suc}
use reversetta.Prelude.{
  ℕ, zero, suc, ◌+◌, ◌-◌, ◌*◌, ◌/◌, ◌%◌, ◌^◌, ◌≤◌, ◌<◌, max, bit_or, bit_xor, ◌≡◌, refl, arith, ltb,
  if◌then◌else◌, ◌∙◌,
}

-- Fuel beyond the first number does not matter to a digitwise operation.
digits_fuel :
    (f : ℕ → ℕ → ℕ) (n m a b : ℕ)
    → a ≤ n
    → a ≤ m
    → digits (λ b. b) f n a b ≡ digits (λ b. b) f m a b
digits_fuel f zero zero a b p q = refl
digits_fuel f zero (suc m) zero b p q = refl
digits_fuel f zero (suc m) (suc a) b p q = absurd (omega arith)
digits_fuel f (suc n) zero zero b p q = refl
digits_fuel f (suc n) zero (suc a) b p q = absurd (omega arith)
digits_fuel f (suc n) (suc m) zero b p q = refl
digits_fuel f (suc n) (suc m) (suc a) b p q =
    omega (arith, digits_fuel f n m (suc a / 2) (b / 2) (omega arith) (omega arith))

zero-bit_or : (b : ℕ) → bit_or 0 b ≡ b
zero-bit_or b = bit_or-bitwise 0 b

zero-bit_xor : (b : ℕ) → bit_xor 0 b ≡ b
zero-bit_xor b = bit_xor-bitwise 0 b

bit_or_step : (a b : ℕ) → bit_or a b ≡ bit_or (a / 2) (b / 2) * 2 + max (a % 2) (b % 2)
bit_or_step zero b = omega (arith, zero-bit_or b, zero-bit_or (b / 2))
bit_or_step (suc a) b = omega (
  arith,
  bit_or-bitwise (suc a) b,
  bit_or-bitwise (suc a / 2) (b / 2),
  digits_fuel max a (suc a / 2) (suc a / 2) (b / 2) (omega arith) (omega arith),
)

differ-zero : (a : ℕ) → differ a 0 ≡ a
differ-zero zero = refl
differ-zero (suc a) = refl

-- against a number whose last digit is 0
bit_xor_step : (a b : ℕ) → bit_xor a (b * 2) ≡ bit_xor (a / 2) b * 2 + a % 2
bit_xor_step zero b = omega (arith, zero-bit_xor (b * 2), zero-bit_xor b)
bit_xor_step (suc a) b =
    let half : b * 2 / 2 ≡ b = omega arith in
    let even : b * 2 % 2 ≡ 0 = omega arith in
    bit_xor-bitwise (suc a) (b * 2)
    ∙ rw (half, even, differ-zero (suc a % 2))
        (omega (
          arith,
          bit_xor-bitwise (suc a / 2) b,
          digits_fuel differ a (suc a / 2) (suc a / 2) b (omega arith) (omega arith),
        ))

bit_or_zero_fuel : (n a : ℕ) → a ≤ n → bit_or a 0 ≡ a
bit_or_zero_fuel n zero h = refl
bit_or_zero_fuel zero (suc a) h = absurd (omega arith)
bit_or_zero_fuel (suc n) (suc a) h =
    omega (arith, bit_or_step (suc a) 0, bit_or_zero_fuel n (suc a / 2) (omega arith))

-- A field of two bits behind another one.
pub bit_or_pair : (a b : ℕ) → b < 4 → bit_or (a * 4) b ≡ a * 4 + b
bit_or_pair a b h =
    let quarter : a * 4 / 2 / 2 ≡ a = omega arith in
    let none_left : b / 2 / 2 ≡ 0 = omega arith in
    let inner = bit_or_step (a * 4 / 2) (b / 2) in
    let rest : bit_or (a * 4 / 2 / 2) (b / 2 / 2) ≡ a =
      rw (quarter, none_left) (bit_or_zero_fuel a a (omega arith)) in
    omega (arith, bit_or_step (a * 4) b, inner, rest)

-- `bit_xor` with 2 ^ n turns the top one of n + 1 digits.
pub flip_top :
    (n x : ℕ) → x < 2 ^ suc n → bit_xor x (2 ^ n) ≡ (if ltb x (2 ^ n) then x + 2 ^ n else x - 2 ^ n)
flip_top zero zero h = refl
flip_top zero (suc zero) h = refl
flip_top zero (suc (suc x)) h = absurd (omega arith)
flip_top (suc n) x h =
    let twice = pow-suc 2 n in
    let small : x / 2 < 2 ^ suc n = omega (arith, h, pow-suc 2 (suc n)) in
    let inner = flip_top n (x / 2) small in rw twice (ground (arith, bit_xor_step x (2 ^ n), inner))
