-- ===== src/Translator/DpImm/AddSub.antt =====
-- ADD, ADDS, SUB and SUBS with an immediate: in the pin, in memory, as a comparison, as one lea, or
-- through rax.
use reversetta.Prelude.{ℕ, ◌*◌, ◌^◌, Bool, true, false, Option, none, some, ◌==◌, ltb, not, ◌&&◌}
use reversetta.Bits.{bits, bit}
use reversetta.X86.{Gp, rax, imm, Alu, alu, lea}
use reversetta.Emitter.State.{
  M, Step, next, bad, FlagSrc, from_add, from_sub, ◌>>◌, pure, when, if_m, emit,
}
use reversetta.Emitter.Flags.{dirty_flags, begin_flag_def, mark_flags}
use reversetta.Emitter.Regs.{
  pin_of_sp, gp, reg_mem, ld_rsp, st_r, st_rsp, base_invalidate, alu_ri, imm32,
}

abbrev pub on_pin : Option Gp → (Gp → M Step) → M Step → M Step
on_pin none f m = m
on_pin (some pin) f m = f pin

abbrev pub add_or_sub : Bool → Alu
add_or_sub true = Alu.sub
add_or_sub false = Alu.add

abbrev pub src_of : Bool → FlagSrc
src_of true = from_sub
src_of false = from_add

module _ (sf : Bool) (rd rn : ℕ) (is_sub setf : Bool) (imm12 : ℕ) where
  unfoldable pub through_rax : M Step
  through_rax = do
    ld_rsp rax rn sf
    when setf begin_flag_def
    alu_ri (add_or_sub is_sub) rax imm12 sf
    if_m setf (do mark_flags (src_of is_sub); st_r rd rax sf) (st_rsp rd rax sf)
    pure next

  -- ADD that sets no flags, with pinned registers: one lea
  unfoldable pub as_lea : M Step
  unfolding emit
  as_lea =
      if_m (not is_sub && not setf && not (rd == rn))
        (on_pin (pin_of_sp rd)
          (λ pd.
            on_pin (pin_of_sp rn)
              (λ ps.
                if_m (ltb imm12 (2 ^ 31))
                  (do
                    dirty_flags
                    base_invalidate rd
                    emit (
                        lea (gp true pd)
                          (record { base = ps; index = none; scale = 0; disp = imm12 }))
                    pure next)
                  through_rax)
              through_rax)
          through_rax)
        through_rax

  -- with Rd = XZR: a comparison with the pin or with memory
  unfoldable pub as_compare : M Step
  unfolding emit
  as_compare =
      if_m (setf && (rd == 31))
        (on_pin (pin_of_sp rn)
          (λ pin. do begin_flag_def; alu_ri Alu.cmp pin imm12 sf; mark_flags from_sub; pure next)
          (if_m sf
            (do
              begin_flag_def
              emit (alu Alu.cmp (reg_mem rn) (imm (imm32 imm12)))
              mark_flags from_sub
              pure next)
            as_lea))
        as_lea

  abbrev in_pin : Gp → M Step
  in_pin pin = do
    when setf begin_flag_def
    alu_ri (add_or_sub is_sub) pin imm12 sf
    when setf (mark_flags (src_of is_sub))
    pure next

  abbrev in_memory : M Step
  in_memory = do
    if_m setf begin_flag_def dirty_flags
    emit (alu (add_or_sub is_sub) (reg_mem rn) (imm (imm32 imm12)))
    when setf (mark_flags (src_of is_sub))
    pure next

  -- Rd = Rn: straight into the pin, or into memory
  unfoldable pub add_sub_imm : M Step
  unfolding emit
  add_sub_imm =
      if_m (rd == rn)
        (do base_invalidate rn; on_pin (pin_of_sp rn) in_pin (if_m sf in_memory as_compare))
        as_compare

unfoldable pub tr_add_sub_imm : ℕ → M Step
tr_add_sub_imm insn =
    let sf = bit insn 31 == 1 in
    let is_sub = bit insn 30 == 1 in
    let setf = bit insn 29 == 1 in
    let rd = bits insn 4 0 in
    let rn = bits insn 9 5 in
    let sh = bits insn 23 22 in
    let imm12 = bits insn 21 10 in
    if_m (sh == 1) (add_sub_imm sf rd rn is_sub setf (imm12 * 2 ^ 12))
      (if_m (sh == 0) (add_sub_imm sf rd rn is_sub setf imm12) (pure bad))
