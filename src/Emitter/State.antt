-- ===== src/Emitter/State.antt =====
-- The state of `BlockBuilder` and the monad of its methods. A method reads and changes the state,
-- returns a value, and emits assembler calls: the third part of its result is the list of the
-- instructions emitted, in order. `size` is the number of bytes that the assembler encodes an
-- instruction with, and `offset` is `a.offset()`.
use reversetta.Prelude.{ℕ, ◌+◌, List, [], ◌∷◌, ◌++◌, Bool, Option, if◌then◌else◌, ◌≡◌, ap}
use reversetta.Memory.{Memory}
use reversetta.X86.{Insn, Label}

pub data FlagSrc : Type 0 where
  from_none from_add from_sub from_logic : FlagSrc

-- `Step`: go on, end of the block, unknown instruction
pub data Step : Type 0 where
  next end bad : Step

pub record Patch : Type 0 where
  pub disp_off : ℕ
  pub target : ℕ

pub record Builder : Type 0 where
  pub emu : Memory  -- what the translator reads of `Emu& e`
  pub chain_tbl : ℕ  -- the address of the branch cache, `e.chain_tbl.data()`
  pub size : Insn → ℕ
  pub offset : ℕ
  pub labels : ℕ  -- labels made so far
  pub pc_start : ℕ
  pub body_off : ℕ
  pub patches : List Patch
  pub epilogue : Label
  pub flag_src : FlagSrc
  pub flags_pending : Bool
  pub base_cached : Option ℕ  -- `none` is the -1 of the source
  pub jump_to : ℕ
  pub has_jump : Bool

abbrev pub Out : Type 0 → Type 0
Out A = A × Builder × List Insn

abbrev pub M : Type 0 → Type 0
M A = Builder → Out A

abbrev pub pure : {A : Type 0} → A → M A
pure a b = (a, b, [])

infixl 5 ◌>>=◌ ◌>>◌
abbrev pub ◌>>=◌ : {A B : Type 0} → M A → (A → M B) → M B
◌>>=◌ m f b = let (a, b₁, c₁) = m b in let (r, b₂, c₂) = f a b₁ in (r, b₂, c₁ ++ c₂)

abbrev pub ◌>>◌ : {B : Type 0} → M (Unit {0}) → M B → M B
m >> k = m >>= λ _. k

abbrev pub skip : M (Unit {0})
skip = pure tt

abbrev pub when : Bool → M (Unit {0}) → M (Unit {0})
when t m b = if t then m b else (tt, b, [])

abbrev pub if_m : {A : Type 0} → Bool → M A → M A → M A
if_m t m n b = if t then m b else n b

unfoldable pub emit : Insn → M (Unit {0})
emit i b = (tt, record b { offset = b.offset + b.size i }, i ∷ [])

-- `a.new_label()`
unfoldable pub new_label : M Label
new_label b = (b.labels, record b { labels = b.labels + 1 }, [])

-- what follows a method whose result is known
abbrev pub and_then : {A B : Type 0} → Out A → (A → M B) → Out B
and_then o f = let (r, b, c) = f o.0 o.1 in (r, b, o.2 ++ c)

pub bind_eq :
    {A B : Type 0} (m : M A) (f : A → M B) (b : Builder) {o : Out A}
    → m b ≡ o
    → (m >>= f) b ≡ and_then o f
bind_eq m f b e = ap (λ o. and_then o f) e
