-- ===== src/Translator/DpReg/ThreeSource.antt =====
-- MADD and MSUB, their long forms, SMULH and UMULH.
use reversetta.Prelude.{ℕ, Bool, true, false, ◌==◌, if◌then◌else◌, not, ◌&&◌, ◌||◌}
use reversetta.Bits.{bits, bit}
use reversetta.X86.{rax, rcx, rdx, Alu, movsxd, alu, imul, imul_wide, mul_wide}
use reversetta.Emitter.State.{M, Step, next, bad, ◌>>◌, pure, when, if_m, emit}
use reversetta.Emitter.Flags.{dirty_flags}
use reversetta.Emitter.Regs.{gp, ld_r, st_r}

-- Ra plus or minus the product in rax
unfoldable pub accumulate : Bool → Bool → ℕ → ℕ → M (Unit {0})
unfolding emit
accumulate sf o0 rd ra = do
  ld_r rdx ra sf
  if_m o0 (do emit (alu Alu.sub (gp sf rdx) (gp sf rax)); st_r rd rdx sf)
      (do emit (alu Alu.add (gp sf rax) (gp sf rdx)); st_r rd rax sf)

module _ (rd rn rm : ℕ) where
  unfoldable pub madd : Bool → Bool → ℕ → M Step
  unfolding emit
  madd sf o0 ra = do
    ld_r rax rn sf
    ld_r rcx rm sf
    dirty_flags
    emit (imul (gp sf rax) (gp sf rcx))
    accumulate sf o0 rd ra
    pure next

  unfoldable pub madd_long : Bool → Bool → ℕ → M Step
  unfolding emit
  madd_long is_signed o0 ra = do
    ld_r rax rn false
    ld_r rcx rm false
    when is_signed
        (do emit (movsxd (gp true rax) (gp false rax)); emit (movsxd (gp true rcx) (gp false rcx)))
    dirty_flags
    emit (imul (gp true rax) (gp true rcx))
    accumulate true o0 rd ra
    pure next

  -- the high 64 bits of the product, from rdx
  unfoldable pub mul_high : Bool → M Step
  unfolding emit
  mul_high is_signed = do
    ld_r rax rn true
    ld_r rcx rm true
    dirty_flags
    emit (if is_signed then imul_wide (gp true rcx) else mul_wide (gp true rcx))
    st_r rd rdx true
    pure next

unfoldable pub tr_three_source : ℕ → M Step
tr_three_source insn =
    let sf = bit insn 31 == 1 in
    let op31 = bits insn 23 21 in
    let o0 = bit insn 15 == 1 in
    let rd = bits insn 4 0 in
    let rn = bits insn 9 5 in
    let rm = bits insn 20 16 in
    let ra = bits insn 14 10 in
    if_m (not (bits insn 30 29 == 0)) (pure bad) (
      if_m (op31 == 0) (madd rd rn rm sf o0 ra) (
        if_m ((op31 == 1) || (op31 == 5)) (madd_long rd rn rm (op31 == 1) o0 ra) (
          if_m (((op31 == 2) || (op31 == 6)) && not o0) (mul_high rd rn rm (op31 == 2))
            (pure bad))))
