-- ===== src/Translator/Branch/TestBit.antt =====
-- TBZ and TBNZ as a whole.
use reversetta.Prelude.{
  ℕ, zero, suc, ◌+◌, ◌*◌, ◌/◌, ◌<◌, ◌%◌, ◌^◌, [], ◌∷◌, ◌++◌, Bool, true, false, not, ◌&&◌, ◌==◌,
  ◌≡◌, refl, arith, if◌then◌else◌, bit_or, Bool-cases, inl, inr, ◌∙◌, ==_iff,
}
use reversetta.Arm.{Nzcv}
use reversetta.Bits.{bits, bit}
use reversetta.X86.{Gp, rax, CondCode, carry, not_carry, Label, imm, bt, j, bind}
use reversetta.X86.Machine.{Machine, running, run, run-append, value, eval_cc}
use reversetta.Emitter.State.{Builder, emit, new_label}
use reversetta.Emitter.Regs.{gp, ld_r}
use reversetta.Emitter.Exits.{exit_const}
use reversetta.Emitter.Conditions.{HoldsFlags, ready, eq_ready}
use reversetta.Emitter.Reading.{guest_x}
use reversetta.Emitter.Reading.Loads.{ld_r-Loaded, ld_r-SameLabels}
use reversetta.Emitter.Spill.{dirty_flags_clean}
use reversetta.Translator.Branch.{tr_tbz, target_of}
use reversetta.Translator.Branch.Cond.{outcome}
use reversetta.Translator.Branch.Compare.{rax_is_no_pin}
use reversetta.Translator.Branch.Skip.{Departs, exit_const-Departs}

-- p holds of each number below n
abbrev all_below : ℕ → (ℕ → Bool) → Bool
all_below zero p = true
all_below (suc n) p = p n && all_below n p

all_below-at : (n : ℕ) (p : ℕ → Bool) (x : ℕ) → all_below n p ≡ true → x < n → p x ≡ true
all_below-at zero p x h lt = absurd (omega arith)
all_below-at (suc n) p x h lt = ground (arith, all_below-at n p x)

-- the two fields of the position do not overlap
position_table : all_below 64 (λ x. bit_or (x / 32 * 32) (x % 32) == x) ≡ true
position_table = refl

join_position : (x y : ℕ) → x < 2 → y < 32 → bit_or (x * 32) y ≡ x * 32 + y
join_position x y hx hy =
    let all : bit_or ((x * 32 + y) / 32 * 32) ((x * 32 + y) % 32) ≡ x * 32 + y =
      (==_iff _ (x * 32 + y)).0 (
        all_below-at 64 (λ z. bit_or (z / 32 * 32) (z % 32) == z) (x * 32 + y) position_table
          (omega arith)) in
    let high : (x * 32 + y) / 32 ≡ x = omega arith in
    let low : (x * 32 + y) % 32 ≡ y = omega arith in rw (high, low) at all

bit_below : (v n : ℕ) → bit v n < 2
unfolding bit
bit_below v n = omega arith

bits_below_32 : (v : ℕ) → bits v 23 19 < 32
unfolding bits
bits_below_32 v = omega arith

ld_r_clean :
    (dst : Gp) (r : ℕ) (sf : Bool) (b : Builder)
    → b.flags_pending ≡ false
    → (ld_r dst r sf b).1.flags_pending ≡ false
unfolding ld_r emit
ld_r_clean dst r sf b e = ground (arith, dirty_flags_clean b)

twice : (x : ℕ) → x % 2 ^ 64 % 2 ^ 64 ≡ x % 2 ^ 64
twice x = omega arith

below_64 : (pos : ℕ) → pos < 64 → pos % 64 ≡ pos
below_64 pos h = omega arith

-- the bit at the position into CF, and the jump that skips the exit
test_jump :
    (nz : Bool) (l : Label) (n : Machine) (v pos : ℕ)
    → n.regs rax ≡ v % 2 ^ 64
    → pos < 64
    → let one = v % 2 ^ 64 / 2 ^ pos % 2 == 1 in
      (run
        (bt (gp true rax) (imm pos) ∷ j (if nz then not_carry else carry) l ∷ [])
        (ready n)).status
      ≡ outcome (if nz then one else not one) l
unfolding run value eval_cc
test_jump true l n v pos e h =
    rw (e, twice, below_64 pos h)
      (elim (Bool-cases (v % 2 ^ 64 / 2 ^ pos % 2 == 1)) [
        | inl one ↦ simp one
        | inr nil ↦ simp nil
      ])
test_jump false l n v pos e h =
    rw (e, twice, below_64 pos h)
      (elim (Bool-cases (v % 2 ^ 64 / 2 ^ pos % 2 == 1)) [
        | inl one ↦ simp one
        | inr nil ↦ simp nil
      ])

module _ (insn pc : ℕ) (b : Builder) where
  abbrev nz : Bool
  nz = bit insn 24 == 1

  abbrev rt : ℕ
  rt = bits insn 4 0

  -- the position as the builder and as the architecture joins it
  abbrev joined : ℕ
  joined = bit_or (bit insn 31 * 32) (bits insn 23 19)

  abbrev pos : ℕ
  pos = bit insn 31 * 32 + bits insn 23 19

  joined-pos : (joined ≡ pos) × (pos < 64)
  joined-pos =
      let high = bit_below insn 31 in
      let low = bits_below_32 insn in
      (join_position (bit insn 31) (bits insn 23 19) high low, omega arith)

  abbrev target : ℕ
  target = target_of pc (bits insn 18 5) 14

  abbrev behind_load : Builder
  behind_load = (ld_r rax rt true b).1

  abbrev skip_cond : CondCode
  skip_cond = if nz then not_carry else carry

  -- the builder at the exit
  abbrev at_exit : Builder
  at_exit =
      (emit (j skip_cond behind_load.labels)
        (record (emit (bt (gp true rax) (imm joined)) behind_load).1 {
          labels = behind_load.labels + 1;
        })).1

  tbz_code :
      (tr_tbz insn pc b).2
      ≡ (ld_r rax rt true b).2
        ++ ((bt (gp true rax) (imm joined) ∷ j skip_cond behind_load.labels ∷ [])
            ++ ((exit_const target at_exit).2 ++ bind behind_load.labels ∷ []))
  unfolding tr_tbz emit new_label
  tbz_code = refl

  exit_state :
      (at_exit.flags_pending ≡ behind_load.flags_pending)
      × (at_exit.labels ≡ behind_load.labels + 1)
      × (at_exit.epilogue ≡ behind_load.epilogue)
  unfolding emit
  exit_state = (refl, refl, refl)

  -- whether the bit has the value to branch on
  abbrev pub branches : Machine → Bool
  branches m = let one = guest_x m rt % 2 ^ 64 / 2 ^ pos % 2 == 1 in if nz then one else not one

  -- TBZ and TBNZ as a whole, with the guest flags in the context and the epilogue's label made
  -- before: if the bit of the register at the position is zero (for TBNZ: is one), the emitted
  -- code leaves for the epilogue with the branch target as the guest's pc, and else it runs on
  -- behind the exit.
  pub tr_tbz-Departs :
      (m : Machine) (g : Nzcv)
      → m.status ≡ running
      → b.flags_pending ≡ false
      → HoldsFlags m g
      → b.epilogue < b.labels
      → Departs b.epilogue target (branches m) (run (tr_tbz insn pc b).2 m)
  tr_tbz-Departs m g r idle h fresh =
      let l = ld_r-Loaded rax rt true b m g r (rw idle h) (rax_is_no_pin rt) in
      let n = run (ld_r rax rt true b).2 m in
      let same = ld_r-SameLabels rax rt true b in
      let jumps : (run (bt (gp true rax) (imm joined) ∷ j skip_cond behind_load.labels ∷ [])
            (ready n)).status
          ≡ outcome (branches m) behind_load.labels =
        rw (joined-pos.0)
          (test_jump nz behind_load.labels n (guest_x m rt) pos l.loaded joined-pos.1) in
      rw (tbz_code, run-append, run-append, eq_ready n l.is_running)
        (exit_const-Departs target behind_load.labels b.epilogue at_exit _ (branches m)
          (exit_state.0 ∙ ld_r_clean rax rt true b idle) (omega (arith, exit_state.1))
          (omega (arith, same.0)) (exit_state.2 ∙ same.1) jumps)
