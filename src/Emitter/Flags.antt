-- ===== src/Emitter/Flags.antt =====
-- Lazy flags: after an S-instruction the guest NZCV live in RFLAGS, until a consumer takes them or
-- code that clobbers RFLAGS makes `spill_flags` write them to the context.
use reversetta.Prelude.{
  ℕ, ◌/◌, ◌%◌, zero, suc, List, [], ◌∷◌, Bool, true, false, Option, none, some, ◌==◌, if◌then◌else◌,
  not, ◌&&◌, ◌>>>◌,
}
use reversetta.Layout.{n_off, z_off, c_off, v_off}
use reversetta.X86.{
  r8, r9, r12, byte, Operand, reg, mem, imm, CondCode, overflow, not_overflow, carry, not_carry,
  equal, not_equal, below_equal, above, sign, not_sign, parity, not_parity, less, greater_equal,
  less_equal, greater, Alu, mov, alu, set,
}
use reversetta.Emitter.State.{FlagSrc, M, ◌>>◌, skip, when, emit}

-- a byte of the context
abbrev pub ctx_byte : ℕ → Operand
ctx_byte d = mem byte (record { base = r12; index = none; scale = 0; disp = d })

unfoldable pub inv_cc : CondCode → CondCode
inv_cc overflow = not_overflow
inv_cc not_overflow = overflow
inv_cc carry = not_carry
inv_cc not_carry = carry
inv_cc equal = not_equal
inv_cc not_equal = equal
inv_cc below_equal = above
inv_cc above = below_equal
inv_cc sign = not_sign
inv_cc not_sign = sign
inv_cc parity = not_parity
inv_cc not_parity = parity
inv_cc less = greater_equal
inv_cc greater_equal = less
inv_cc less_equal = greater
inv_cc greater = less_equal

abbrev pub at_or_none {ℓ} : {A : Type ℓ} → List (Option A) → ℕ → Option A
at_or_none [] i = none
at_or_none (x ∷ xs) zero = x
at_or_none (x ∷ xs) (suc i) = at_or_none xs i

-- EQ NE CS CC MI PL VS VC HI LS GE LT GT LE; `none` is the 0xFF of the source.
unfoldable pub sub_map : List (Option CondCode)
sub_map =
    some equal
    ∷ some not_equal
    ∷ some not_carry
    ∷ some carry
    ∷ some sign
    ∷ some not_sign
    ∷ some overflow
    ∷ some not_overflow
    ∷ some above
    ∷ some below_equal
    ∷ some greater_equal
    ∷ some less
    ∷ some greater
    ∷ some less_equal
    ∷ []

unfoldable pub add_map : List (Option CondCode)
add_map =
    some equal
    ∷ some not_equal
    ∷ some carry
    ∷ some not_carry
    ∷ some sign
    ∷ some not_sign
    ∷ some overflow
    ∷ some not_overflow
    ∷ none
    ∷ none
    ∷ some greater_equal
    ∷ some less
    ∷ some greater
    ∷ some less_equal
    ∷ []

unfoldable pub log_map : List (Option CondCode)
log_map =
    some equal
    ∷ some not_equal
    ∷ none
    ∷ none
    ∷ some sign
    ∷ some not_sign
    ∷ none
    ∷ none
    ∷ none
    ∷ none
    ∷ some not_sign
    ∷ some sign
    ∷ some greater
    ∷ some less_equal
    ∷ []

unfoldable pub map_of : FlagSrc → List (Option CondCode)
unfolding sub_map add_map log_map
map_of FlagSrc.from_add = add_map
map_of FlagSrc.from_sub = sub_map
map_of FlagSrc.from_logic = log_map
map_of FlagSrc.from_none = log_map

-- The x86 condition for an ARM one, if the flags are in RFLAGS. Success consumes them.
unfoldable pub take_fused_cond : ℕ → M (Option CondCode)
unfolding map_of
take_fused_cond cond b =
    if not b.flags_pending
    then (none, b, [])
    else if cond / 2 % 8 == 7
    then (none, b, [])
    else elim (at_or_none (map_of b.flag_src) cond) [
      | none ↦ (none, b, [])
      | some cc ↦ (some cc, record b { flags_pending = false }, [])
    ]

unfoldable pub flags_sub : M (Unit {0})
unfolding emit
flags_sub = do
  emit (set sign (ctx_byte n_off))
  emit (set equal (ctx_byte z_off))
  emit (set not_carry (ctx_byte c_off))
  emit (set overflow (ctx_byte v_off))

unfoldable pub flags_add : M (Unit {0})
unfolding emit
flags_add = do
  emit (set sign (ctx_byte n_off))
  emit (set equal (ctx_byte z_off))
  emit (set carry (ctx_byte c_off))
  emit (set overflow (ctx_byte v_off))

unfoldable pub flags_logic : M (Unit {0})
unfolding emit
flags_logic = do
  emit (set sign (ctx_byte n_off))
  emit (set equal (ctx_byte z_off))
  emit (mov (ctx_byte c_off) (imm 0))
  emit (mov (ctx_byte v_off) (imm 0))

abbrev pub set_pending : Bool → M (Unit {0})
set_pending t b = (tt, record b { flags_pending = t }, [])

abbrev pub flags_of : FlagSrc → M (Unit {0})
flags_of FlagSrc.from_sub = flags_sub
flags_of FlagSrc.from_add = flags_add
flags_of FlagSrc.from_logic = flags_logic
flags_of FlagSrc.from_none = skip

unfoldable pub spill_flags : M (Unit {0})
spill_flags b = (flags_of b.flag_src >> set_pending false) b

-- Called before any x86 operation that clobbers RFLAGS.
unfoldable pub dirty_flags : M (Unit {0})
dirty_flags b = when b.flags_pending spill_flags b

-- The old flags are overwritten: nothing is materialized.
unfoldable pub begin_flag_def : M (Unit {0})
begin_flag_def = set_pending false

unfoldable pub mark_flags : FlagSrc → M (Unit {0})
mark_flags src b = (tt, record b { flag_src = src; flags_pending = true }, [])

abbrev pub r8b : Operand
r8b = reg byte r8

abbrev r9b : Operand
r9b = reg byte r9

abbrev pub flip : Operand → M (Unit {0})
flip o = emit (alu Alu.xor o (imm 1))

-- N == V into r8b
abbrev same_nv : M (Unit {0})
same_nv = do
  emit (mov r8b (ctx_byte n_off))
  emit (mov r9b (ctx_byte v_off))
  emit (alu Alu.xor r8b r9b)
  flip r8b

-- the base condition `cond >> 1`
unfoldable pub emit_base : ℕ → M (Unit {0})
unfolding emit
emit_base zero = emit (mov r8b (ctx_byte z_off))
emit_base (suc zero) = emit (mov r8b (ctx_byte c_off))
emit_base (suc (suc zero)) = emit (mov r8b (ctx_byte n_off))
emit_base (suc (suc (suc zero))) = emit (mov r8b (ctx_byte v_off))
emit_base (suc (suc (suc (suc zero)))) = do
  emit (mov r8b (ctx_byte c_off))
  emit (mov r9b (ctx_byte z_off))
  flip r9b
  emit (alu Alu.and r8b r9b)
emit_base (suc (suc (suc (suc (suc zero))))) = same_nv
emit_base (suc (suc (suc (suc (suc (suc zero)))))) = do
  same_nv
  emit (mov r9b (ctx_byte z_off))
  flip r9b
  emit (alu Alu.and r8b r9b)
emit_base (suc (suc (suc (suc (suc (suc (suc _))))))) = emit (mov r8b (imm 1))

-- An ARM condition of 4 bits into r8b as 0 or 1; 1111 means "always" too.
unfoldable pub emit_cond : ℕ → M (Unit {0})
emit_cond cond = do emit_base (cond >>> 1); when (cond % 2 == 1 && not (cond == 0xF)) (flip r8b)
