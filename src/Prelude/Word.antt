-- ===== src/Prelude/Word.antt =====
-- Machine words: a w-bit unsigned value is a native number below 2 ^ w, and a signed one is its
-- two's-complement bit pattern. `x >> k` is a quotient, and `x << k` a product that wraps.
use Prim.Native.Nat.{ℕ, ◌+◌, ◌-◌, ◌/◌, ◌%◌, ◌^◌}
use mathlib.Core.Bool.{Bool, true, false}

abbrev pub u8 : ℕ → ℕ
u8 n = n % 2 ^ 8

abbrev pub u32 : ℕ → ℕ
u32 n = n % 2 ^ 32

abbrev pub u64 : ℕ → ℕ
u64 n = n % 2 ^ 64

-- a - b on uint64_t, for b below 2 ^ 64
abbrev pub sub_u64 : ℕ → ℕ → ℕ
sub_u64 a b = u64 (a + 2 ^ 64 - b)

abbrev pub sub_u32 : ℕ → ℕ → ℕ
sub_u32 a b = u32 (a + 2 ^ 32 - b)

infixl 75 ◌>>>◌
abbrev pub ◌>>>◌ : ℕ → ℕ → ℕ
x >>> k = x / 2 ^ k

abbrev pub of_bool : Bool → ℕ
of_bool true = 1
of_bool false = 0
