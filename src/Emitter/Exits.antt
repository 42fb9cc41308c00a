-- ===== src/Emitter/Exits.antt =====
-- Exits of a block: a direct jump that is patched when its target is compiled, the direct-mapped
-- branch cache, and exits to the dispatcher. Operands in guest memory.
use reversetta.Prelude.{
  ℕ, ◌-◌, ◌*◌, ◌^◌, [], ◌∷◌, ◌++◌, true, false, some, ◌==◌, ltb, if◌then◌else◌,
}
use reversetta.Layout.{thunk_base, ExitReason, exit_code_of, exit_reason_off, exit_info_off}
use reversetta.X86.{
  Gp, rax, rcx, r13, r15, byte, word, dword, qword, Mem, Operand, mem, imm, not_equal, Alu, mov,
  alu, j, jmp, jmp_mem, bind,
}
use reversetta.Emitter.State.{M, ◌>>=◌, ◌>>◌, when, emit, new_label}
use reversetta.Emitter.Flags.{dirty_flags}
use reversetta.Emitter.Regs.{gp, ctx, pc_mem}

abbrev pub dmc_bits : ℕ
dmc_bits = 16

abbrev pub dmc_size : ℕ
dmc_size = 2 ^ dmc_bits

abbrev pub dmc_mask : ℕ
dmc_mask = dmc_size - 1

abbrev pub dmc_tag_off : ℕ
dmc_tag_off = 0

abbrev pub dmc_body_off : ℕ
dmc_body_off = dmc_size * 8

-- `patches.push_back({a.offset() - 4, target})`
abbrev pub push_patch : ℕ → M (Unit {0})
push_patch target b = (
  tt,
  record b { patches = b.patches ++ record { disp_off = b.offset - 4; target = target } ∷ [] },
  [],
)

abbrev pub jmp_epilogue : M (Unit {0})
jmp_epilogue b = emit (jmp b.epilogue) b

unfoldable pub exit_const : ℕ → M (Unit {0})
unfolding emit new_label
exit_const target = do
  dirty_flags
  when (ltb target thunk_base)
      (do site ← new_label; emit (jmp site); emit (bind site); push_patch target)
  emit (mov (gp true rax) (imm target))
  emit (mov pc_mem (gp true rax))
  jmp_epilogue

-- [CHAIN + (rcx << 1) + disp]
abbrev pub chain_at : ℕ → Mem
chain_at d = record { base = r15; index = some rcx; scale = 1; disp = d }

unfoldable pub exit_reg : Gp → M (Unit {0})
unfolding emit new_label
exit_reg r = do
  dirty_flags
  miss ← new_label
  emit (mov (gp true rcx) (gp true r))
  emit (alu Alu.and (gp false rcx) (imm (dmc_mask * 4)))
  emit (alu Alu.cmp (mem qword (chain_at dmc_tag_off)) (gp true r))
  emit (j not_equal miss)
  emit (jmp_mem (chain_at dmc_body_off))
  emit (bind miss)
  emit (mov pc_mem (gp true r))
  jmp_epilogue

unfoldable pub exit_fault : ℕ → ExitReason → ℕ → M (Unit {0})
unfolding emit
exit_fault pc why info = do
  dirty_flags
  emit (mov (gp true rax) (imm pc))
  emit (mov pc_mem (gp true rax))
  emit (mov (ctx dword exit_reason_off) (imm (exit_code_of why)))
  emit (mov (ctx dword exit_info_off) (imm info))
  jmp_epilogue

-- [BIAS + idx + disp] of `size` bytes
unfoldable pub mem_at : Gp → ℕ → ℕ → Operand
mem_at idx disp size =
    mem (if size == 1 then byte else if size == 2 then word else if size == 4 then dword else qword)
      (record { base = r13; index = some idx; scale = 0; disp = disp })

unfoldable pub mem_ref : Gp → ℕ → Operand
mem_ref addr size = mem_at addr 0 size
