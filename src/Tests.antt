-- ===== src/Tests.antt =====
-- Concrete runs and instances for src/translator.h and src/translator.cpp: a block builder behind a
-- comparison, and a machine with its flags.
pub mod Guest
pub mod Blocks
pub mod Calls
pub mod Loading
use reversetta.Prelude.{
  inl, inr, ℕ, ◌+◌, ◌*◌, ◌^◌, ◌%◌, ◌<◌, ◌≡◌, refl, [], ◌∷◌, Bool, true, false, not, Option, none,
  some, arith, inl, inr, ◌⊎◌, length, get_elem?, String,
}
use reversetta.Layout.{ExitReason, guest_window, heap_off, heap_size, thunk_base}
use reversetta.Bits.{bits, bit, sext}
use reversetta.Memory.{Memory, in_range, read, write}
use reversetta.Memory.Access.{in_range_iff, read-write_self, read-write_other}
use reversetta.Arm.{Nzcv, cond_holds}
use reversetta.X86.{rax, equal, not_equal}
use reversetta.X86.Machine.{Flags, Machine, running, modulus, run, eval_cc}
use reversetta.Emitter.State.{Builder, from_sub, next}
use reversetta.Emitter.Flags.{take_fused_cond, emit_cond, spill_flags, dirty_flags, inv_cc}
use reversetta.Emitter.Exits.{exit_const}
use reversetta.Emitter.Fusion.{take_fused_cond-cond_holds}
use reversetta.Emitter.Conditions.{HoldsFlags, Holds, emit_cond-Holds}
use reversetta.Emitter.Spill.{Spilled, spill_flags-Spilled, dirty_flags-Spilled}
use reversetta.Emitter.Leaving.{Leaves, exit_const-Leaves}
use reversetta.Translator.Branch.{jump_unless, tr_b_cond, tr_cbz, tr_tbz, target_of}
use reversetta.Translator.Branch.Cond.{outcome, jump_unless-cond_holds}
use reversetta.Translator.Branch.Taken
use reversetta.Translator.Branch.Compare
use reversetta.Translator.Branch.TestBit
use reversetta.Translator.Branch.Compare.{rax_is_no_pin}
use reversetta.Translator.Branch.Skip.{Departs}
use reversetta.Emitter.Writing.{Stored}
use reversetta.Emitter.Writing.Stores.{st_r-Stored}
use reversetta.Translator.DpImm.{tr_adr, adr_value, tr_move_wide}
use reversetta.Translator.DpImm.Constants.{tr_adr-Stored, tr_move_wide-Stored}
use reversetta.Emitter.Reading.{guest_x, Loaded}
use reversetta.Emitter.Reading.Loads.{ld_r-Loaded}
use reversetta.Emitter.Regs.{ld_r, st_r, width, pin_of}
use reversetta.Translator.Branch.Stale.{tr_b_cond_stale}

abbrev zeros : ℕ → ℕ
zeros i = 0

abbrev window : Memory
window = record { mem = zeros; base = 0x100000000; host = 0x700000000000 }

-- a builder behind a comparison, with label 0 for the epilogue
abbrev builder : Builder
builder = record {
  emu = window;
  chain_tbl = 0x600000000000;
  size = λ i. 4;
  offset = 0;
  labels = 1;
  pc_start = 0x100001000;
  body_off = 0;
  patches = [];
  epilogue = 0;
  flag_src = from_sub;
  flags_pending = true;
  base_cached = none;
  jump_to = 0;
  has_jump = false;
}

-- the flags of a comparison of equal numbers, in both forms
abbrev equal_flags : Flags
equal_flags = record { cf = false; zf = true; sf = false; ovf = false; pf = true }

abbrev equal_nzcv : Nzcv
equal_nzcv = record { n = false; z = true; c = true; v = false }

-- the flags that the context of `machine` holds
abbrev older_nzcv : Nzcv
older_nzcv = record { n = false; z = false; c = false; v = false }

abbrev machine : Machine
machine = record { regs = λ g. 0; flags = equal_flags; ctx = zeros; host = zeros; status = running }

older : HoldsFlags machine older_nzcv
older = record { n_byte = refl; z_byte = refl; c_byte = refl; v_byte = refl }

take_fused_cond-cond_holds_example :
    (eval_cc equal equal_flags ≡ cond_holds 0 equal_nzcv)
    × (eval_cc (inv_cc equal) equal_flags ≡ not (cond_holds 0 equal_nzcv))
unfolding take_fused_cond
take_fused_cond-cond_holds_example =
    take_fused_cond-cond_holds 0 builder equal_flags equal_nzcv equal (refl, refl, refl, refl) refl

-- GT of the older flags
emit_cond-Holds_example :
    Holds machine (run (emit_cond 12 builder).2 machine) (cond_holds 12 older_nzcv)
emit_cond-Holds_example = emit_cond-Holds 12 builder machine older_nzcv refl older

spill_flags-Spilled_example :
    Spilled machine (run (spill_flags builder).2 machine) equal_nzcv
    × ((spill_flags builder).1.flags_pending ≡ false)
spill_flags-Spilled_example =
    spill_flags-Spilled builder machine equal_nzcv refl (refl, refl, refl, refl)

dirty_flags-Spilled_example :
    Spilled machine (run (dirty_flags builder).2 machine) equal_nzcv
    × ((dirty_flags builder).1.flags_pending ≡ false)
dirty_flags-Spilled_example =
    dirty_flags-Spilled builder machine equal_nzcv refl (refl, refl, refl, refl)

exit_const-Leaves_example :
    Leaves (run (exit_const 0x100001008 builder).2 machine) 0 0x100001008 equal_nzcv
exit_const-Leaves_example =
    exit_const-Leaves 0x100001008 builder machine equal_nzcv refl (refl, refl, refl, refl)

jump_unless-cond_holds_example :
    (run (jump_unless 1 7 builder).2 machine).status ≡ outcome (cond_holds 1 equal_nzcv) 7
jump_unless-cond_holds_example =
    jump_unless-cond_holds 1 7 builder machine equal_nzcv refl (refl, refl, refl, refl)

-- b.ne and b.hi, by 8
abbrev b_ne : ℕ
b_ne = 0x54000041

abbrev b_eq : ℕ
b_eq = 0x54000040

tr_b_cond-Goes_example :
    Taken.Goes b_eq 0x100001000 builder
      (cond_holds (bits b_eq 3 0) equal_nzcv)
      (run (tr_b_cond b_eq 0x100001000 builder).2 machine)
tr_b_cond-Goes_example =
    Taken.tr_b_cond-Goes b_eq 0x100001000 builder machine equal_nzcv refl (refl, refl, refl, refl)
      (omega arith)

-- b.ne, not taken after the comparison, and b.eq behind it: the second decides by the older flags.
tr_b_cond_stale_example :
    let b' = (tr_b_cond b_ne 0x100001000 builder).1 in
    let m' = run (tr_b_cond b_ne 0x100001000 builder).2 machine in
    Taken.Goes b_eq 0x100001004 b'
      (cond_holds (bits b_eq 3 0) older_nzcv)
      (run (tr_b_cond b_eq 0x100001004 b').2 m')
unfolding take_fused_cond bits cond_holds
tr_b_cond_stale_example =
    tr_b_cond_stale b_ne 0x100001000 b_eq 0x100001004 builder machine equal_nzcv older_nzcv
      not_equal refl (omega arith) (refl, refl, refl, refl) older refl refl

-- x1 in its 32-bit form, from the context
ld_r-Loaded_example :
    Loaded rax
      (guest_x machine 1 % modulus (width false))
      machine
      (run (ld_r rax 1 false builder).2 machine)
      (ld_r rax 1 false builder).1
      equal_nzcv
ld_r-Loaded_example =
    ld_r-Loaded rax 1 false builder machine equal_nzcv refl (refl, refl, refl, refl)
      (rax_is_no_pin 1)

-- cbz x0, by 8
abbrev cbz_x0 : ℕ
cbz_x0 = 0xB4000040

tr_cbz-Departs_example :
    Departs 0 0x100001008 true (run (tr_cbz cbz_x0 0x100001000 builder).2 machine)
unfolding bits bit target_of sext guest_x pin_of
tr_cbz-Departs_example =
    Compare.tr_cbz-Departs cbz_x0 0x100001000 builder machine equal_nzcv refl
      (refl, refl, refl, refl) (omega arith)

st_r-Stored_example :
    let o = st_r 1 rax false builder in Stored 1 0 machine (run o.2 machine) o.1 equal_nzcv
st_r-Stored_example =
    st_r-Stored 1 rax false builder machine equal_nzcv (omega arith) refl (refl, refl, refl, refl)
      (omega arith) (rax_is_no_pin 1)

-- adrp x8, #-4096
abbrev adrp_x8 : ℕ
adrp_x8 = 0xF0FFFFE8

tr_adr-Stored_example :
    let o = tr_adr adrp_x8 0x100001234 builder in
    (o.0 ≡ next) × Stored 8 0x100000000 machine (run o.2 machine) o.1 equal_nzcv
unfolding bits
tr_adr-Stored_example =
    tr_adr-Stored adrp_x8 0x100001234 builder machine equal_nzcv refl (refl, refl, refl, refl)

-- movn w3, #5, lsl #16
abbrev movn_w3 : ℕ
movn_w3 = 0x12A000A3

tr_move_wide-Stored_example :
    let o = tr_move_wide movn_w3 builder in
    (o.0 ≡ next) × Stored 3 0xFFFAFFFF machine (run o.2 machine) o.1 equal_nzcv
unfolding bits bit
tr_move_wide-Stored_example =
    tr_move_wide-Stored movn_w3 builder machine equal_nzcv refl (refl, refl, refl, refl)
      (inr (omega arith)) (inl refl)

-- tbnz x0, #33, by 8, behind nothing that sets flags
abbrev tbnz_x0 : ℕ
tbnz_x0 = 0xB7080040

abbrev flags_stored : Builder
flags_stored = record builder { flags_pending = false }

tr_tbz-Departs_example :
    Departs 0 0x100001008 false (run (tr_tbz tbnz_x0 0x100001000 flags_stored).2 machine)
unfolding bits bit target_of sext guest_x pin_of
tr_tbz-Departs_example =
    TestBit.tr_tbz-Departs tbnz_x0 0x100001000 flags_stored machine older_nzcv refl refl older
      (omega arith)
