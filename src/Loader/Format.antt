-- ===== src/Loader/Format.antt =====
-- src/mach-o.h: the fields of the structures on disk, by their offsets. `byte` gives the file's bytes
-- and, behind its size, what the host's memory holds there.
use Prim.Native.Nat.{compare, Ordering}
use Prim.Native.Char.{Char, char, IsScalar}
use reversetta.Prelude.{
  true, false, ℕ, zero, suc, ◌+◌, ◌-◌, ◌*◌, ◌%◌, ◌^◌, ◌≡◌, List, [], ◌∷◌, ◌==◌, String, arith,
}
use reversetta.Memory.{load_le}

pub record File : Type 0 where
  pub byte : ℕ → ℕ
  pub size : ℕ

abbrev pub u16_at : File → ℕ → ℕ
u16_at f at = load_le 2 f.byte at

abbrev pub u32_at : File → ℕ → ℕ
u32_at f at = load_le 4 f.byte at

abbrev pub u64_at : File → ℕ → ℕ
u64_at f at = load_le 8 f.byte at

abbrev pub be32_at : File → ℕ → ℕ
be32_at f at =
    2 ^ 24 * f.byte at + 2 ^ 16 * f.byte (at + 1) + 2 ^ 8 * f.byte (at + 2) + f.byte (at + 3)

-- the bytes before a NUL, at most n
unfoldable pub text_at : ℕ → File → ℕ → List ℕ
text_at zero f at = []
text_at (suc n) f at = elim (f.byte at == 0) [
  | true ↦ []
  | false ↦ f.byte at ∷ text_at n f (at + 1)
]

pub scalar : (n : ℕ) → compare n 55296 ≡ Ordering.lt → IsScalar n
scalar n h = rw h tt

pub byte_below : (b : ℕ) → compare (b % 256) 55296 ≡ Ordering.lt
byte_below b = ground arith

-- a byte as a character
abbrev pub byte_char : ℕ → Char
byte_char b = char (b % 256) (scalar (b % 256) (byte_below b))

unfoldable pub to_text : List ℕ → String
to_text [] = ""
to_text (b ∷ l) = String.◌∷◌ (byte_char b) (to_text l)

-- A name that has no NUL within the file is cut at its end.
unfoldable pub name_at : File → ℕ → String
unfolding text_at to_text
name_at f at = to_text (text_at (f.size - at) f at)
