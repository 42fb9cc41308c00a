-- ===== src/Translator/Branch.antt =====
-- `BlockBuilder::tr_branch`: branches, system calls and hints.
pub mod Cond
pub mod Skip
pub mod Taken
pub mod Compare
pub mod TestBit
pub mod Stale
use reversetta.Prelude.{
  ℕ, ◌+◌, ◌*◌, ◌/◌, ◌%◌, ◌^◌, bit_and, bit_or, Bool, true, false, [], Option, none, some, ◌==◌, ltb,
  if◌then◌else◌, not, ◌&&◌, ◌||◌, u64,
}
use reversetta.Bits.{bits, bit, sext}
use reversetta.Layout.{thunk_base, exit_reason_off, exit_info_off, exit_code_of, exit_syscall}
use reversetta.Memory.{in_range}
use reversetta.X86.{
  rax, rcx, r8, Label, CondCode, byte, dword, reg, imm, equal, not_equal, carry, not_carry, mov,
  test, bt, j, bind,
}
use reversetta.Emitter.State.{
  M, Step, next, end, bad, ◌>>=◌, ◌>>◌, pure, when, if_m, emit, new_label,
}
use reversetta.Emitter.Flags.{inv_cc, take_fused_cond, dirty_flags, emit_cond}
use reversetta.Emitter.Regs.{gp, ctx, pc_mem, ld_r, st_r}
use reversetta.Emitter.Exits.{exit_const, exit_reg, jmp_epilogue}

abbrev is_set : ℕ → ℕ → Bool
is_set insn n = bit insn n == 1

-- `pc + (uint64_t)(sext(v, n) * 4)`
unfoldable pub target_of : ℕ → ℕ → ℕ → ℕ
target_of pc v n = u64 (pc + u64 (sext v n * 4))

-- B: the translation goes on at the target, if that lies in the window. BL ends the block.
unfoldable pub tr_b : ℕ → ℕ → M Step
unfolding emit
tr_b insn pc =
    let target = target_of pc (bits insn 25 0) 26 in
    if_m (is_set insn 31)
      (do
        emit (mov (gp true rax) (imm (u64 (pc + 4))))
        st_r 30 rax true
        exit_const target
        pure end)
      (λ b.
        if_m (ltb target thunk_base && in_range b.emu target 4)
          (λ b. (next, record b { jump_to = target; has_jump = true }, []))
          (do exit_const target; pure end) b)

unfoldable pub tr_cbz : ℕ → ℕ → M Step
unfolding emit new_label
tr_cbz insn pc =
    let sf = is_set insn 31 in
    let nz = is_set insn 24 in
    let target = target_of pc (bits insn 23 5) 19 in
    (do
      ld_r rax (bits insn 4 0) sf
      dirty_flags
      emit (test (gp sf rax) (gp sf rax))
      skip_label ← new_label
      emit (j (if nz then equal else not_equal) skip_label)
      exit_const target
      emit (bind skip_label)
      pure next)

unfoldable pub tr_tbz : ℕ → ℕ → M Step
unfolding emit new_label
tr_tbz insn pc =
    let pos = bit_or (bit insn 31 * 32) (bits insn 23 19) in
    let nz = is_set insn 24 in
    let target = target_of pc (bits insn 18 5) 14 in
    (do
      ld_r rax (bits insn 4 0) true
      emit (bt (gp true rax) (imm pos))
      skip_label ← new_label
      emit (j (if nz then not_carry else carry) skip_label)
      exit_const target
      emit (bind skip_label)
      pure next)

-- the jump over the exit of B.cond: by RFLAGS, or by the condition computed into r8b
abbrev pub jump_by : ℕ → Label → Option CondCode → M (Unit {0})
jump_by cond skip_label (some cc) = emit (j (inv_cc cc) skip_label)
jump_by cond skip_label none = do
  dirty_flags
  emit_cond cond
  emit (test (reg byte r8) (reg byte r8))
  emit (j equal skip_label)

unfoldable pub jump_unless : ℕ → Label → M (Unit {0})
jump_unless cond skip_label = take_fused_cond cond >>= jump_by cond skip_label

unfoldable pub tr_b_cond : ℕ → ℕ → M Step
unfolding emit new_label
tr_b_cond insn pc =
    let target = target_of pc (bits insn 23 5) 19 in
    (do
      skip_label ← new_label
      jump_unless (bits insn 3 0) skip_label
      exit_const target
      emit (bind skip_label)
      pure next)

-- BR, BLR and RET
unfoldable pub tr_br : ℕ → ℕ → M Step
unfolding emit
tr_br insn pc = do
  ld_r rax (bits insn 9 5) true
  when (bit_and insn 0xFFFFFC1F == 0xD63F0000)
      (do emit (mov (gp true rcx) (imm (u64 (pc + 4)))); st_r 30 rcx true)
  exit_reg rax
  pure end

unfoldable pub tr_svc : ℕ → ℕ → M Step
unfolding emit
tr_svc insn pc = do
  dirty_flags
  emit (mov (gp true rax) (imm (u64 (pc + 4))))
  emit (mov pc_mem (gp true rax))
  emit (mov (ctx dword exit_reason_off) (imm (exit_code_of exit_syscall)))
  emit (mov (ctx dword exit_info_off) (imm (bits insn 20 5)))
  jmp_epilogue
  pure end

-- `(insn & mask) == value`
abbrev pub fits : ℕ → ℕ → ℕ → Bool
fits insn mask value = bit_and insn mask == value

unfoldable pub tr_branch : ℕ → ℕ → M Step
tr_branch insn pc = if_m (fits insn 0x7C000000 0x14000000) (tr_b insn pc) (
    if_m (fits insn 0x7E000000 0x34000000) (tr_cbz insn pc) (
      if_m (fits insn 0x7E000000 0x36000000) (tr_tbz insn pc) (
        if_m (fits insn 0xFF000010 0x54000000) (tr_b_cond insn pc) (
          if_m
            (fits insn 0xFFFFFC1F 0xD61F0000
              || fits insn 0xFFFFFC1F 0xD63F0000
              || fits insn 0xFFFFFC1F 0xD65F0000)
            (tr_br insn pc)
            (if_m (fits insn 0xFFE0001F 0xD4000001) (tr_svc insn pc) (
              if_m (fits insn 0xFFFFF01F 0xD503201F || fits insn 0xFFFFF01F 0xD503301F) (pure next)
                (pure bad)))))))
