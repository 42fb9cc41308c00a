-- ===== src/Emitter/Regs.antt =====
-- Guest registers in host registers or in the context, the base-register cache, and arithmetic
-- with a constant.
use reversetta.Prelude.{
  ℕ, ◌+◌, ◌-◌, ◌^◌, [], Bool, true, false, Option, none, some, ◌==◌, leb, ltb, if◌then◌else◌, not,
  ◌||◌, u32,
}
use reversetta.Layout.{roff, sp_off, pc_off}
use reversetta.X86.{
  Gp, rdx, rbx, rbp, rsi, r10, r11, r12, r14, same_id, Width, dword, qword, Operand, reg, mem, imm,
  Alu, mov, alu,
}
use reversetta.Emitter.State.{M, ◌>>◌, when, if_m, emit}
use reversetta.Emitter.Flags.{dirty_flags}

abbrev pub pin_sp : Gp
pin_sp = r14

-- x0, x8, x29 and x30 live in host registers.
unfoldable pub pin_of : ℕ → Option Gp
pin_of r =
    if r == 0
    then some r10
    else if r == 8
    then some r11
    else if r == 29
    then some rbx
    else if r == 30
    then some rbp
    else none

-- the pin where number 31 means SP
unfoldable pub pin_of_sp : ℕ → Option Gp
pin_of_sp r = if r == 31 then some pin_sp else pin_of r

abbrev pub width : Bool → Width
width true = qword
width false = dword

abbrev pub gp : Bool → Gp → Operand
gp sf g = reg (width sf) g

abbrev pub ctx : Width → ℕ → Operand
ctx w d = mem w (record { base = r12; index = none; scale = 0; disp = d })

abbrev pub reg_mem : ℕ → Operand
reg_mem r = ctx qword (roff r)

abbrev pub sp_mem : Operand
sp_mem = ctx qword sp_off

abbrev pub pc_mem : Operand
pc_mem = ctx qword pc_off

-- Xn or Wn, where number 31 is the zero register
unfoldable pub ld_r : Gp → ℕ → Bool → M (Unit {0})
unfolding emit
ld_r dst r sf =
    if_m (r == 31) (do dirty_flags; emit (alu Alu.xor (gp false dst) (gp false dst)))
      (elim (pin_of r) [
        | some pin ↦ when (not (same_id dst pin)) (emit (mov (gp sf dst) (gp sf pin)))
        | none ↦ emit (mov (gp sf dst) (ctx (width sf) (roff r)))
      ])

abbrev pub set_base : Option ℕ → M (Unit {0})
set_base o b = (tt, record b { base_cached = o }, [])

abbrev pub is_base : Option ℕ → ℕ → Bool
is_base none r = false
is_base (some n) r = r == n

unfoldable pub base_invalidate : ℕ → M (Unit {0})
base_invalidate r b = when (is_base b.base_cached r) (set_base none) b

unfoldable pub base_clobber_rsi : M (Unit {0})
base_clobber_rsi = set_base none

-- A 32-bit result has zeroed the upper half of src, so 64 bits are stored.
unfoldable pub st_r : ℕ → Gp → Bool → M (Unit {0})
unfolding emit
st_r r src sf = when (not (r == 31)) (do
  base_invalidate r
  elim (pin_of r) [
    | some pin ↦ when (not (same_id src pin)) (emit (mov (gp sf pin) (gp sf src)))
    | none ↦ emit (mov (reg_mem r) (gp true src))
  ])

-- Addressing forms: number 31 means SP.
unfoldable pub ld_rsp : Gp → ℕ → Bool → M (Unit {0})
unfolding emit
ld_rsp dst r sf =
    if_m (not (r == 31)) (ld_r dst r sf)
      (when (not (same_id dst pin_sp)) (emit (mov (gp sf dst) (gp sf pin_sp))))

unfoldable pub st_rsp : ℕ → Gp → Bool → M (Unit {0})
unfolding emit
st_rsp r src sf = if_m (not (r == 31)) (st_r r src sf) (do
  base_invalidate 31
  when (not (same_id src pin_sp)) (emit (mov (gp true pin_sp) (gp true src))))

-- rsi holds the value of the guest register `base_cached` since the last load.
unfoldable pub base_load : ℕ → M (Unit {0})
base_load rn b = when (not (is_base b.base_cached rn)) (do ld_rsp rsi rn true; set_base (some rn)) b

unfoldable pub alu_rr : Alu → Operand → Operand → M (Unit {0})
unfolding emit
alu_rr op d s = do dirty_flags; emit (alu op d s)

-- `INT32_MIN <= (int64_t)v <= INT32_MAX`, for a 64-bit pattern v
abbrev pub fits_int32 : ℕ → Bool
fits_int32 v = ltb v (2 ^ 31) || leb (2 ^ 64 - 2 ^ 31) v

-- `(int32_t)v`, sign-extended to 64 bits, as an immediate holds it
abbrev pub imm32 : ℕ → ℕ
imm32 v = if ltb (u32 v) (2 ^ 31) then u32 v else u32 v + 2 ^ 64 - 2 ^ 32

-- A big constant goes through rdx.
unfoldable pub alu_ri : Alu → Gp → ℕ → Bool → M (Unit {0})
unfolding emit
alu_ri op dst v sf = do
  dirty_flags
  if_m (not sf || fits_int32 v) (emit (alu op (gp sf dst) (imm (imm32 v))))
      (do emit (mov (gp true rdx) (imm v)); alu_rr op (gp sf dst) (gp true rdx))
