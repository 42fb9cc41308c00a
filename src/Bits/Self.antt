-- ===== src/Bits/Self.antt =====
-- A number and itself under bit_and and bit_xor, which test and zero a register.
use Prim.Native.Nat.{digits, differ, bit_and-bitwise, bit_xor-bitwise}
use reversetta.Prelude.{ℕ, zero, suc, ◌/◌, ◌%◌, ◌≤◌, min, bit_and, bit_xor, ◌≡◌, refl, arith}

min_self : (x : ℕ) → min x x ≡ x
min_self x = omega arith

differ_self : (x : ℕ) → differ x x ≡ 0
differ_self zero = refl
differ_self (suc x) = differ_self x

digits-min_self : (n a : ℕ) → a ≤ n → digits (λ b. 0) min n a a ≡ a
digits-min_self zero zero h = refl
digits-min_self zero (suc a) h = omega arith
digits-min_self (suc n) zero h = refl
digits-min_self (suc n) (suc a) h =
    rw (digits-min_self n (suc a / 2) (omega arith), min_self (suc a % 2)) (omega arith)

digits-differ_self : (n a : ℕ) → a ≤ n → digits (λ b. b) differ n a a ≡ 0
digits-differ_self zero zero h = refl
digits-differ_self zero (suc a) h = omega arith
digits-differ_self (suc n) zero h = refl
digits-differ_self (suc n) (suc a) h =
    rw (digits-differ_self n (suc a / 2) (omega arith), differ_self (suc a % 2)) (omega arith)

pub bit_and_self : (a : ℕ) → bit_and a a ≡ a
bit_and_self a = simp bit_and-bitwise (digits-min_self a a (omega arith))

pub bit_xor_self : (a : ℕ) → bit_xor a a ≡ 0
bit_xor_self a = simp bit_xor-bitwise (digits-differ_self a a (omega arith))
