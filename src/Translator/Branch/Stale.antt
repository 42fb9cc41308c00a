-- ===== src/Translator/Branch/Stale.antt =====
-- Two conditional branches on one comparison: the second no longer finds its flags.
use reversetta.Prelude.{ℕ, ◌+◌, ◌≤◌, ◌<◌, false, not, some, ◌≡◌, ◌∙◌, ap, arith}
use reversetta.Arm.{Nzcv, cond_holds}
use reversetta.Bits.{bits}
use reversetta.X86.{CondCode, Label}
use reversetta.X86.Machine.{Machine, running, run, run-append}
use reversetta.Emitter.State.{Builder, emit, new_label}
use reversetta.Emitter.Flags.{take_fused_cond}
use reversetta.Emitter.Exits.{exit_const}
use reversetta.Emitter.Fusion.{Represents, take_fused_cond-cond_holds}
use reversetta.Emitter.Conditions.{HoldsFlags, ready, eq_ready}
use reversetta.Emitter.Spill.{dirty_flags-SameLabels, dirty_flags_clean}
use reversetta.Emitter.Leaving.{run-exit_const-seek}
use reversetta.Translator.Branch.{tr_b_cond}
use reversetta.Translator.Branch.Cond.{fused_code, jump_over_seek}
use reversetta.Translator.Branch.Skip.{reach_bind}
use reversetta.Translator.Branch.Taken

exit_const-state :
    (target : ℕ) (b : Builder)
    → let after = (exit_const target b).1 in
      (after.flags_pending ≡ false) × (after.epilogue ≡ b.epilogue) × (b.labels ≤ after.labels)
unfolding exit_const emit new_label
exit_const-state target b = ground (arith, dirty_flags-SameLabels b, dirty_flags_clean b)

tr_b_cond-state :
    (insn pc : ℕ) (b : Builder)
    → b.epilogue < b.labels
    → let after = (tr_b_cond insn pc b).1 in
      (after.flags_pending ≡ false)
      × (after.epilogue ≡ b.epilogue)
      × (after.epilogue < after.labels)
unfolding tr_b_cond emit new_label
tr_b_cond-state insn pc b fresh = ground (
  arith,
  exit_const-state (Taken.target insn pc b) (Taken.decided insn pc b),
  Taken.state insn pc b,
)

take_fused_cond_relabel :
    (cond k : ℕ) (b : Builder) (x : CondCode)
    → (take_fused_cond cond b).0 ≡ some x
    → (take_fused_cond cond (record b { labels = k })).0 ≡ some x
unfolding take_fused_cond
take_fused_cond_relabel cond k b x e = ground arith

module _ (insn pc : ℕ) (b : Builder) where
  abbrev label : Label
  label = Taken.label insn pc b

  abbrev cond : ℕ
  cond = bits insn 3 0

  -- a fused condition that fails leaves the machine just as it was
  fused_not_taken :
      (m : Machine) (g : Nzcv) (x : CondCode)
      → m.status ≡ running
      → Represents b.flag_src m.flags g
      → (take_fused_cond cond b).0 ≡ some x
      → cond_holds cond g ≡ false
      → run (tr_b_cond insn pc b).2 (ready m) ≡ ready m
  fused_not_taken m g x r rep e fails =
      let target = Taken.target insn pc b in
      let decided = Taken.decided insn pc b in
      let holds = (take_fused_cond-cond_holds cond b m.flags g x rep e).1 ∙ ap not fails in
      rw
        (
          Taken.tr_b_cond-code insn pc b,
          run-append,
          fused_code cond label (Taken.labelled insn pc b) x
              (take_fused_cond_relabel cond (b.labels + 1) b x e),
          jump_over_seek cond label b m x holds,
          run-append,
          run-exit_const-seek target decided m label (Taken.state insn pc b).1
              (Taken.new_label_differs insn pc b),
        )
        (reach_bind m label)

-- After `cmp; b.c1; b.c2` with the first branch not taken and decided from RFLAGS, the second one
-- does not decide by the flags g of the comparison: it decides by the flags g₀ that an earlier
-- instruction left in the context, for any two conditions.
pub tr_b_cond_stale :
    (insn pc insn' pc' : ℕ) (b : Builder) (m : Machine) (g g₀ : Nzcv) (x : CondCode)
    → m.status ≡ running
    → b.epilogue < b.labels
    → Represents b.flag_src m.flags g
    → HoldsFlags m g₀
    → (take_fused_cond (bits insn 3 0) b).0 ≡ some x
    → cond_holds (bits insn 3 0) g ≡ false
    → let b' = (tr_b_cond insn pc b).1 in
      let m' = run (tr_b_cond insn pc b).2 m in
      Taken.Goes insn' pc' b' (cond_holds (bits insn' 3 0) g₀) (run (tr_b_cond insn' pc' b').2 m')
tr_b_cond_stale insn pc insn' pc' b m g g₀ x r fresh rep h e fails =
    let b' = (tr_b_cond insn pc b).1 in
    let kept = tr_b_cond-state insn pc b fresh in
    let same : run (tr_b_cond insn pc b).2 m ≡ m =
      rw (eq_ready m r) (fused_not_taken insn pc b m g x r rep e fails) in
    rw same (Taken.tr_b_cond-Goes insn' pc' b' m g₀ r (rw (kept.0) h) kept.2)
