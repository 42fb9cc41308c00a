-- ===== src/Translator/Block.antt =====
-- `BlockBuilder::translate` and `BlockBuilder::build`: one block of up to 512 instructions.
use reversetta.Prelude.{
  ℕ, zero, suc, ◌+◌, ◌*◌, ◌%◌, ◌^◌, bit_and, true, false, [], ◌==◌, if◌then◌else◌, none, ◌>>>◌, u64,
}
use reversetta.Layout.{mem_bias_off, max_block_insns, exit_mem_fault, exit_undef_insn}
use reversetta.Bits.{bits}
use reversetta.Memory.{in_range, read}
use reversetta.X86.{
  rax, rbx, rbp, rdi, r10, r11, r12, r13, r14, r15, qword, Mem, mem, imm, mov, lea_label, push, pop,
  ret, bind,
}
use reversetta.Emitter.State.{
  M, Step, next, end, bad, ◌>>=◌, ◌>>◌, pure, skip, if_m, emit, new_label,
}
use reversetta.Emitter.Regs.{gp, ctx, reg_mem, sp_mem}
use reversetta.Emitter.Exits.{exit_const, exit_fault, dmc_tag_off, dmc_body_off}
use reversetta.Translator.DpImm.{tr_dp_imm}
use reversetta.Translator.Branch.{tr_branch}
use reversetta.Translator.LdSt.{tr_ldst}
use reversetta.Translator.DpReg.{tr_dp_reg}

unfoldable pub translate : ℕ → ℕ → M Step
translate insn pc =
    let op0 = bits insn 28 25 in
    if_m (bit_and op0 0b1110 == 0b1000) (tr_dp_imm insn pc) (
      if_m (bit_and op0 0b1110 == 0b1010) (tr_branch insn pc) (
        if_m (bit_and op0 0b0101 == 0b0100) (tr_ldst insn pc)
          (if_m (bit_and op0 0b0111 == 0b0101) (tr_dp_reg insn) (pure bad))))

-- [CHAIN + disp]
abbrev chain_slot : ℕ → Mem
chain_slot d = record { base = r15; index = none; scale = 0; disp = d }

-- the block publishes its body in the branch cache, at the slot of its pc.
unfoldable pub prologue : M (Unit {0})
unfolding emit new_label
prologue b =
    let h = (b.pc_start >>> 2) % 2 ^ 16 in
    (do
      body ← new_label
      emit (push (gp true rbx))
      emit (push (gp true rbp))
      emit (push (gp true r10))
      emit (push (gp true r12))
      emit (push (gp true r13))
      emit (push (gp true r14))
      emit (push (gp true r15))
      emit (mov (gp true r12) (gp true rdi))
      emit (mov (gp true r13) (ctx qword mem_bias_off))
      emit (mov (gp true r15) (imm b.chain_tbl))
      emit (lea_label r11 body)
      emit (mov (gp true rax) (imm b.pc_start))
      emit (mov (mem qword (chain_slot (dmc_tag_off + h * 8))) (gp true rax))
      emit (mov (mem qword (chain_slot (dmc_body_off + h * 8))) (gp true r11))
      emit (mov (gp true r10) (reg_mem 0))
      emit (mov (gp true r11) (reg_mem 8))
      emit (mov (gp true rbx) (reg_mem 29))
      emit (mov (gp true rbp) (reg_mem 30))
      emit (mov (gp true r14) sp_mem)
      emit (bind body)
      λ b. (tt, record b { body_off = b.offset }, []))
      b

-- the single return to the dispatcher: the pins are written to the context.
unfoldable pub epilogue_code : M (Unit {0})
unfolding emit
epilogue_code = do
  λ b. emit (bind b.epilogue) b
  emit (mov (reg_mem 0) (gp true r10))
  emit (mov (reg_mem 8) (gp true r11))
  emit (mov (reg_mem 29) (gp true rbx))
  emit (mov (reg_mem 30) (gp true rbp))
  emit (mov sp_mem (gp true r14))
  emit (pop (gp true r15))
  emit (pop (gp true r14))
  emit (pop (gp true r13))
  emit (pop (gp true r12))
  emit (pop (gp true r10))
  emit (pop (gp true rbp))
  emit (pop (gp true rbx))
  emit ret

-- the pc after an instruction that does not end the block: a merged B moves it.
abbrev advance : ℕ → M ℕ
advance pc b =
    if b.has_jump then (b.jump_to, record b { has_jump = false }, []) else (u64 (pc + 4), b, [])

-- The loop with `left` instructions to go; the last one is followed by an exit.
unfoldable pub block_loop : ℕ → ℕ → M (Unit {0})
block_loop zero pc b = skip b
block_loop (suc left) pc b =
    let rest = block_loop left in
    (if_m (in_range b.emu pc 4)
        (let insn = read 4 b.emu pc in
          (do
            st ← translate insn pc
            elim st [
              | bad ↦ exit_fault pc exit_undef_insn insn
              | end ↦ skip
              | next ↦ (do pc' ← advance pc; if_m (left == 0) (exit_const pc') (rest pc'))
            ]))
        (exit_fault pc exit_mem_fault 0))
      b

unfoldable pub build : M (Unit {0})
unfolding new_label
build = do
  epilogue ← new_label
  λ b. (tt, record b { epilogue = epilogue }, [])
  prologue
  λ b. block_loop max_block_insns b.pc_start b
  epilogue_code
