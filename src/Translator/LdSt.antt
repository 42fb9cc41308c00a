-- ===== src/Translator/LdSt.antt =====
-- `BlockBuilder::tr_ldst`: loads and stores.
pub mod Pair
pub mod Single
use reversetta.Prelude.{ℕ, ◌+◌, ◌*◌, Bool, true, false, ◌==◌, if◌then◌else◌, ◌&&◌, u64}
use reversetta.Bits.{bits, bit, sext}
use reversetta.X86.{rax, rsi, imm, mov, movsxd}
use reversetta.Emitter.State.{M, Step, next, bad, ◌>>=◌, ◌>>◌, pure, if_m, emit}
use reversetta.Emitter.Regs.{gp, st_r, base_clobber_rsi}
use reversetta.Emitter.Exits.{mem_ref}
use Pair.{tr_pair}
use Single.{tr_single}

unfoldable pub tr_ldr_literal : ℕ → ℕ → M Step
unfolding emit
tr_ldr_literal insn pc =
    let opc = bits insn 31 30 in
    let rt = bits insn 4 0 in
    let addr = u64 (pc + u64 (sext (bits insn 23 5) 19 * 4)) in
    if_m (bit insn 26 == 1) (pure bad) (
      if_m (opc == 3) (pure next) (do
        base_clobber_rsi
        emit (mov (gp true rsi) (imm addr))
        if_m (opc == 0) (do emit (mov (gp false rax) (mem_ref rsi 4)); st_r rt rax false)
            (if_m (opc == 1) (do emit (mov (gp true rax) (mem_ref rsi 8)); st_r rt rax true)
              (do emit (movsxd (gp true rax) (mem_ref rsi 4)); st_r rt rax true))
        pure next))

unfoldable pub tr_ldst : ℕ → ℕ → M Step
tr_ldst insn pc =
    let v = bit insn 26 in
    if_m ((bits insn 29 27 == 3) && (bits insn 25 24 == 0)) (tr_ldr_literal insn pc) (
      if_m ((bits insn 29 27 == 5) && (v == 0)) (tr_pair insn)
        (if_m ((bits insn 29 27 == 7) && (v == 0)) (tr_single insn) (pure bad)))
