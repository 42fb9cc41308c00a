-- ===== src/Translator/LdSt/Single.antt =====
-- LDR and STR of one register: the addressing forms, and the access by size and extension.
use reversetta.Prelude.{
  ℕ, ◌*◌, ◌^◌, Bool, true, false, Option, none, some, ◌==◌, leb, ltb, if◌then◌else◌, not, ◌&&◌,
  ◌||◌,
}
use reversetta.Bits.{bits, bit, sext}
use reversetta.X86.{
  Gp, rax, rdx, rsi, rdi, Width, byte, word, dword, qword, Operand, reg, Insn, mov, movzx, movsx,
  movsxd, lea,
}
use reversetta.Emitter.State.{M, Step, next, bad, ◌>>=◌, ◌>>◌, pure, if_m, emit}
use reversetta.Emitter.Regs.{pin_of, gp, ld_r, st_r, base_load, base_invalidate}
use reversetta.Emitter.Exits.{mem_at, mem_ref}
use reversetta.Translator.LdSt.Pair.{write_back}

-- [rsi + off], before or after which the base is written, or [rsi + extended Xm]
pub data Addressing : Type 0 where
  offset : ℕ → Addressing
  pre post : ℕ → Addressing
  register : Addressing

-- `none` is an unsupported form.
unfoldable pub addressing : ℕ → ℕ → Option Addressing
addressing insn size =
    let form = bits insn 25 24 in
    let mode = bits insn 11 10 in
    let off = sext (bits insn 20 12) 9 in
    if form == 1
    then some (offset (bits insn 21 10 * 2 ^ size))
    else if not (form == 0)
    then none
    else if bit insn 21 == 0
    then (if mode == 1
        then some (post off)
        else if mode == 3
        then some (pre off)
        else if mode == 0
        then some (offset off)
        else none)
    else if mode == 2
    then some register
    else none

abbrev pub size_width : ℕ → Width
size_width size =
    if size == 0 then byte else if size == 1 then word else if size == 2 then dword else qword

-- an ordinary load into the 32-bit register, or the 64-bit one for 8 bytes
abbrev load_insn : ℕ → Gp → Operand → Insn
load_insn size g m =
    if ltb size 2
    then movzx (gp false g) m
    else if size == 2
    then mov (gp false g) m
    else mov (gp true g) m

-- a sign-extended load; of 4 bytes only into Xt
abbrev load_signed : Bool → ℕ → Gp → Operand → Insn
load_signed sf size g m = if ltb size 2 then movsx (gp sf g) m else movsxd (gp true g) m

unfoldable pub store_access : ℕ → ℕ → Operand → M Step
unfolding emit
store_access size rt m = do
  elim (pin_of rt) [
    | some pin ↦ emit (mov m (reg (size_width size) pin))
    | none ↦ (do ld_r rax rt (size == 3); emit (mov m (reg (size_width size) rax)))
  ]
  pure next

-- `into` gives the load into a host register, and `sf` the form of the store back.
unfoldable pub load_access : (Gp → Insn) → Bool → ℕ → M Step
unfolding emit
load_access into sf rt = do
  elim (pin_of rt) [
    | some pin ↦ (do base_invalidate rt; emit (into pin))
    | none ↦ (do emit (into rax); st_r rt rax sf)
  ]
  pure next

unfoldable pub access : ℕ → ℕ → ℕ → Operand → M Step
access size opc rt m = if_m (opc == 0) (store_access size rt m) (
    if_m (opc == 1) (load_access (λ g. load_insn size g m) (size == 3) rt) (
      if_m (opc == 2) (load_access (λ g. load_signed true size g m) true rt)
        (load_access (λ g. load_signed false size g m) false rt)))

-- the extended index into rdx; `bad` is an unsupported extension
unfoldable pub extend_index : ℕ → M Step
unfolding emit
extend_index option =
    if_m (option == 2) (do emit (mov (gp false rdx) (gp false rdx)); pure next)
      (if_m ((option == 3) || (option == 7)) (pure next)
        (if_m (option == 6) (do emit (movsxd (gp true rdx) (gp false rdx)); pure next) (pure bad)))

unfoldable pub tr_register_offset : ℕ → ℕ → ℕ → M Step
unfolding emit
tr_register_offset insn size opc = do
  ld_r rdx (bits insn 20 16) true
  st ← extend_index (bits insn 15 13)
  elim st [
    | next ↦ (do
      emit (
          lea (gp true rdi) (record {
            base = rsi;
            index = some rdx;
            scale = if bit insn 12 == 1 then size else 0;
            disp = 0;
          }))
      access size opc (bits insn 4 0) (mem_ref rdi (2 ^ size)))
    | _ ↦ pure bad
  ]

unfoldable pub tr_single : ℕ → M Step
tr_single insn =
    let size = bits insn 31 30 in
    let opc = bits insn 23 22 in
    let rt = bits insn 4 0 in
    let rn = bits insn 9 5 in
    let prefetch = (size == 3) && (opc == 2) in
    let unallocated = (opc == 3) && leb 2 size in
    let allocated = λ (m : M Step). if_m prefetch (pure next) (if_m unallocated (pure bad) m) in
    elim (addressing insn size) [
      | none ↦ pure bad
      | some (offset off) ↦
          allocated (do base_load rn; access size opc rt (mem_at rsi off (2 ^ size)))
      | some (pre off) ↦ allocated (do
        base_load rn
        st ← access size opc rt (mem_at rsi off (2 ^ size))
        write_back rn off
        pure st)
      | some (post off) ↦ allocated (do
        base_load rn
        st ← access size opc rt (mem_at rsi 0 (2 ^ size))
        write_back rn off
        pure st)
      | some register ↦ allocated (do base_load rn; tr_register_offset insn size opc)
    ]
