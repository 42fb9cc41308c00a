-- ===== src/Translator/Branch/Compare.antt =====
-- CBZ and CBNZ as a whole.
use reversetta.Prelude.{
  ℕ, ◌+◌, ◌<◌, ◌%◌, [], ◌∷◌, ◌++◌, some, Bool, true, false, not, ◌==◌, ◌≡◌, refl, arith,
  if◌then◌else◌, Bool-cases, inl, inr, ◌∙◌, ap,
}
use reversetta.Arm.{Nzcv}
use reversetta.Bits.{bits, bit}
use reversetta.Bits.Self.{bit_and_self}
use reversetta.X86.{Gp, rax, same_id, CondCode, equal, not_equal, Label, test, j, bind}
use reversetta.X86.Machine.{Machine, running, run, run-append, value, modulus, eval_cc}
use reversetta.Emitter.State.{Builder, emit, new_label}
use reversetta.Emitter.Flags.{dirty_flags}
use reversetta.Emitter.Regs.{gp, width, pin_of, ld_r}
use reversetta.Emitter.Exits.{exit_const}
use reversetta.Emitter.Conditions.{ready, eq_ready}
use reversetta.Emitter.Reading.{guest_x}
use reversetta.Emitter.Reading.Loads.{ld_r-Loaded, ld_r-SameLabels}
use reversetta.Emitter.Spill.{
  Tracks, SameLabels, dirty_flags-Spilled, dirty_flags-SameLabels, dirty_flags_clean,
}
use reversetta.Translator.Branch.{tr_cbz, target_of}
use reversetta.Translator.Branch.Cond.{outcome}
use reversetta.Translator.Branch.Skip.{Departs, exit_const-Departs}

-- a pin is never rax
pub rax_is_no_pin : (r : ℕ) (pin : Gp) → pin_of r ≡ some pin → same_id rax pin ≡ false
unfolding pin_of
rax_is_no_pin r pin e = ground arith

width_cut :
    (sf : Bool) (x : ℕ) → x % modulus (width sf) % modulus (width sf) ≡ x % modulus (width sf)
width_cut true x = omega arith
width_cut false x = omega arith

-- the comparison of rax with zero, and the jump that skips the exit
test_jump :
    (sf nz : Bool) (l : Label) (n : Machine) (v : ℕ)
    → n.regs rax ≡ v % modulus (width sf)
    → let z = v % modulus (width sf) == 0 in
      (run
        (test (gp sf rax) (gp sf rax) ∷ j (if nz then equal else not_equal) l ∷ [])
        (ready n)).status
      ≡ outcome (if nz then not z else z) l
unfolding run value eval_cc
test_jump sf true l n v e =
    rw (e, width_cut, bit_and_self)
      (elim (Bool-cases (v % modulus (width sf) == 0)) [ inl z ↦ simp z | inr z ↦ simp z ])
test_jump sf false l n v e =
    rw (e, width_cut, bit_and_self)
      (elim (Bool-cases (v % modulus (width sf) == 0)) [ inl z ↦ simp z | inr z ↦ simp z ])

module _ (insn pc : ℕ) (b : Builder) where
  abbrev sf : Bool
  sf = bit insn 31 == 1

  abbrev nz : Bool
  nz = bit insn 24 == 1

  abbrev rt : ℕ
  rt = bits insn 4 0

  abbrev target : ℕ
  target = target_of pc (bits insn 23 5) 19

  abbrev behind_load : Builder
  behind_load = (ld_r rax rt sf b).1

  abbrev clean : Builder
  clean = (dirty_flags behind_load).1

  abbrev skip_cond : CondCode
  skip_cond = if nz then equal else not_equal

  -- the builder at the exit
  abbrev at_exit : Builder
  at_exit =
      (emit (j skip_cond clean.labels)
        (record (emit (test (gp sf rax) (gp sf rax)) clean).1 { labels = clean.labels + 1 })).1

  cbz_code :
      (tr_cbz insn pc b).2
      ≡ (ld_r rax rt sf b).2
        ++ ((dirty_flags behind_load).2
            ++ ((test (gp sf rax) (gp sf rax) ∷ j skip_cond clean.labels ∷ [])
                ++ ((exit_const target at_exit).2 ++ bind clean.labels ∷ [])))
  unfolding tr_cbz emit new_label
  cbz_code = refl

  exit_clean :
      (at_exit.flags_pending ≡ false)
      × (at_exit.labels ≡ clean.labels + 1)
      × (at_exit.epilogue ≡ clean.epilogue)
  unfolding emit
  exit_clean = (dirty_flags_clean behind_load, refl, refl)

  clean_labels : SameLabels b clean
  clean_labels = ground (arith, ld_r-SameLabels rax rt sf b, dirty_flags-SameLabels behind_load)

  -- whether the register has the value to branch on
  abbrev pub branches : Machine → Bool
  branches m = let v = guest_x m rt % modulus (width sf) in if nz then not (v == 0) else v == 0

  -- CBZ and CBNZ as a whole, wherever the guest flags are, with the epilogue's label made before:
  -- if the register, cut to its width, is zero (for CBNZ: is not), the emitted code leaves for the
  -- epilogue with the branch target as the guest's pc, and else it runs on behind the exit. Number
  -- 31 is the zero register.
  pub tr_cbz-Departs :
      (m : Machine) (g : Nzcv)
      → m.status ≡ running
      → Tracks b m g
      → b.epilogue < b.labels
      → Departs b.epilogue target (branches m) (run (tr_cbz insn pc b).2 m)
  tr_cbz-Departs m g r t fresh =
      let l = ld_r-Loaded rax rt sf b m g r t (rax_is_no_pin rt) in
      let m₁ = run (ld_r rax rt sf b).2 m in
      let s = (dirty_flags-Spilled behind_load m₁ g l.is_running l.tracks).0 in
      let m₂ = run (dirty_flags behind_load).2 m₁ in
      let same = clean_labels in
      rw (cbz_code, run-append, run-append, run-append, eq_ready m₂ s.is_running)
        (exit_const-Departs target clean.labels b.epilogue at_exit _ (branches m) exit_clean.0
          (omega (arith, exit_clean.1)) (omega (arith, same.0)) (exit_clean.2 ∙ same.1)
          (test_jump sf nz clean.labels m₂ (guest_x m rt) (ap (λ f. f rax) s.same_regs ∙ l.loaded)))
