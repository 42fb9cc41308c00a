-- ===== src/Translator/DpReg/OneSource.antt =====
-- RBIT, REV16, REV32, REV, CLZ and CLS.
use reversetta.Prelude.{ℕ, ◌-◌, ◌%◌, ◌^◌, Bool, true, false, ◌==◌, if◌then◌else◌, not, ◌&&◌, ◌||◌}
use reversetta.Bits.{bits, bit}
use reversetta.X86.{
  rax, rcx, rdx, imm, Alu, equal, shl, shr, sar, mov, alu, test, shift, bsr, bswap, j, bind,
}
use reversetta.Emitter.State.{M, Step, next, bad, ◌>>=◌, ◌>>◌, pure, when, if_m, emit, new_label}
use reversetta.Emitter.Flags.{dirty_flags}
use reversetta.Emitter.Regs.{gp, ld_r, st_r}

-- neighbouring groups of s bits change places; m selects the low one of each two.
unfoldable pub swap_step : Bool → ℕ → ℕ → M (Unit {0})
unfolding emit
swap_step sf s m = do
  emit (mov (gp sf rdx) (imm (if sf then m else m % 2 ^ 32)))
  emit (mov (gp sf rcx) (gp sf rax))
  emit (alu Alu.and (gp sf rcx) (gp sf rdx))
  emit (shift shr (gp sf rcx) (imm s))
  emit (alu Alu.and (gp sf rax) (gp sf rdx))
  emit (shift shl (gp sf rax) (imm s))
  emit (alu Alu.or (gp sf rax) (gp sf rcx))

module _ (sf : Bool) (rd rn : ℕ) where
  unfoldable pub rbit : M Step
  unfolding emit
  rbit = do
    ld_r rax rn sf
    dirty_flags
    swap_step sf 1 0x5555555555555555
    swap_step sf 2 0x3333333333333333
    swap_step sf 4 0x0F0F0F0F0F0F0F0F
    swap_step sf 8 0x00FF00FF00FF00FF
    swap_step sf 16 0x0000FFFF0000FFFF
    when sf (do
      emit (mov (gp true rcx) (gp true rax))
      emit (shift shr (gp true rax) (imm 32))
      emit (shift shl (gp true rcx) (imm 32))
      emit (alu Alu.or (gp true rax) (gp true rcx)))
    st_r rd rax sf
    pure next

  unfoldable pub rev16 : M Step
  rev16 = do
    ld_r rax rn sf
    dirty_flags
    swap_step sf 8 0x00FF00FF00FF00FF
    st_r rd rax sf
    pure next

  unfoldable pub rev32 : M Step
  rev32 = do
    ld_r rax rn sf
    dirty_flags
    swap_step sf 8 0x00FF00FF00FF00FF
    swap_step sf 16 0x0000FFFF0000FFFF
    st_r rd rax sf
    pure next

  abbrev size : ℕ
  size = if sf then 64 else 32

  unfoldable pub clz_cls : Bool → M Step
  unfolding emit new_label
  clz_cls is_cls = do
    done ← new_label
    ld_r rax rn sf
    dirty_flags
    when is_cls (do
      emit (mov (gp true rcx) (gp true rax))
      emit (shift sar (gp sf rcx) (imm (size - 1)))
      emit (alu Alu.xor (gp true rax) (gp true rcx)))
    emit (mov (gp false rdx) (imm size))
    emit (test (gp sf rax) (gp sf rax))
    emit (j equal done)
    emit (bsr (gp sf rcx) (gp sf rax))
    emit (mov (gp false rdx) (imm (size - 1)))
    emit (alu Alu.sub (gp false rdx) (gp false rcx))
    emit (bind done)
    st_r rd rdx sf
    pure next

  unfoldable pub rev : M Step
  unfolding emit
  rev = do ld_r rax rn sf; emit (bswap (gp sf rax)); st_r rd rax sf; pure next

unfoldable pub tr_one_source : ℕ → M Step
tr_one_source insn =
    let sf = bit insn 31 == 1 in
    let opcode = bits insn 15 10 in
    let rd = bits insn 4 0 in
    let rn = bits insn 9 5 in
    if_m (not (bits insn 20 16 == 0)) (pure bad) (
      if_m (opcode == 0) (rbit sf rd rn) (
        if_m (opcode == 1) (rev16 sf rd rn) (
          if_m (sf && (opcode == 2)) (rev32 sf rd rn) (
            if_m ((opcode == 4) || (opcode == 5)) (clz_cls sf rd rn (opcode == 5))
              (if_m (sf && (opcode == 3) || not sf && (opcode == 2)) (rev sf rd rn) (pure bad))))))
