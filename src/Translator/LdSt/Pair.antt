-- ===== src/Translator/LdSt/Pair.antt =====
-- LDP, LDPSW and STP: two accesses at [BIAS + rsi + disp], with the base written back.
use reversetta.Prelude.{
  ℕ, ◌+◌, ◌*◌, Bool, true, none, some, ◌==◌, ltb, if◌then◌else◌, not, ◌&&◌, ◌||◌, u64,
}
use reversetta.Bits.{bits, bit, sext}
use reversetta.X86.{rax, rsi, Operand, mov, movsxd, lea}
use reversetta.Emitter.State.{M, Step, next, bad, ◌>>◌, pure, when, if_m, emit}
use reversetta.Emitter.Regs.{
  pin_of, gp, ld_r, st_r, st_rsp, base_load, base_invalidate, base_clobber_rsi,
}
use reversetta.Emitter.Exits.{mem_at}

-- one register of the pair, at the operand m
unfoldable pub load_one : Bool → Bool → ℕ → Operand → M (Unit {0})
unfolding emit
load_one is64 sxtw r m = elim (pin_of r) [
  | some pin ↦ (do
    base_invalidate r
    emit (if sxtw then movsxd (gp true pin) m else mov (gp is64 pin) m))
  | none ↦ (do emit (if sxtw then movsxd (gp true rax) m else mov (gp is64 rax) m); st_r r rax is64)
]

unfoldable pub store_one : Bool → ℕ → Operand → M (Unit {0})
unfolding emit
store_one is64 r m = elim (pin_of r) [
  | some pin ↦ emit (mov m (gp is64 pin))
  | none ↦ (do ld_r rax r is64; emit (mov m (gp is64 rax)))
]

-- lea rsi, [rsi + off], and back into the base register
unfoldable pub write_back : ℕ → ℕ → M (Unit {0})
unfolding emit
write_back rn off = do
  emit (lea (gp true rsi) (record { base = rsi; index = none; scale = 0; disp = off }))
  st_rsp rn rsi true

unfoldable pub tr_pair : ℕ → M Step
tr_pair insn =
    let kind = bits insn 25 23 in
    let load = bit insn 22 == 1 in
    let opc = bits insn 31 30 in
    let is64 = (opc == 1) || (opc == 2) in
    let sxtw = opc == 1 in
    let scale : ℕ = if opc == 2 then 8 else 4 in
    let off = u64 (sext (bits insn 21 15) 7 * scale) in
    let rn = bits insn 9 5 in
    let first : ℕ = if kind == 1 then 0 else off in
    let access = λ (r disp : ℕ).
      if_m load (load_one is64 sxtw r (mem_at rsi disp scale))
        (store_one is64 r (mem_at rsi disp scale)) in
    if_m (ltb 3 kind) (pure bad) (
      if_m ((opc == 1) && not load) (pure bad) (
        if_m (opc == 3) (pure bad) (do
          base_load rn
          access (bits insn 4 0) first
          access (bits insn 14 10) (u64 (first + scale))
          when ((kind == 1) || (kind == 3)) (do base_clobber_rsi; write_back rn off)
          pure next)))
