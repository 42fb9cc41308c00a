-- ===== src/Translator/Branch/Taken.antt =====
-- B.cond as a whole: the jump over the exit, the exit and the label behind it.
use reversetta.Prelude.{
  ℕ, suc, ◌+◌, ◌/◌, ◌<◌, [], ◌∷◌, ◌++◌, Bool, false, ◌≡◌, ◌≢◌, refl, subst, sym, arith,
  Option-cases, inl, inr,
}
use reversetta.Arm.{Nzcv, cond_holds}
use reversetta.Bits.{bits}
use reversetta.X86.{Label, bind}
use reversetta.X86.Machine.{Machine, running, run, run-append}
use reversetta.Emitter.State.{Builder, emit, new_label, bind_eq}
use reversetta.Emitter.Flags.{dirty_flags}
use reversetta.Emitter.Flags.{take_fused_cond, emit_cond, emit_base}
use reversetta.Emitter.Exits.{exit_const}
use reversetta.Emitter.Spill.{Tracks, SameLabels, dirty_flags-SameLabels, dirty_flags_clean}
use reversetta.Translator.Branch.{jump_by, jump_unless, target_of, tr_b_cond}
use reversetta.Translator.Branch.Skip.{Departs, exit_const-Departs}
use reversetta.Translator.Branch.Cond.{
  take_fused_cond-none, take_fused_cond_consumes, jump_unless-cond_holds,
}

emit_base-state :
    (k : ℕ) (b : Builder)
    → SameLabels b (emit_base k b).1 × ((emit_base k b).1.flags_pending ≡ b.flags_pending)
unfolding emit_base
emit_base-state (suc (suc (suc (suc (suc (suc (suc k))))))) b = ((refl, refl), refl)
emit_base-state _ b = ((refl, refl), refl)

emit_cond-state :
    (cond : ℕ) (b : Builder)
    → SameLabels b (emit_cond cond b).1 × ((emit_cond cond b).1.flags_pending ≡ b.flags_pending)
unfolding emit_cond emit
emit_cond-state cond b = ground (arith, emit_base-state (cond / 2) b)

jump_unless-state :
    (cond : ℕ) (l : Label) (b : Builder)
    → let after = (jump_unless cond l b).1 in SameLabels b after × (after.flags_pending ≡ false)
unfolding jump_unless emit
jump_unless-state cond l b = elim (Option-cases (take_fused_cond cond b).0) [
  | inl e ↦
      subst (λ o. SameLabels b o.1 × (o.1.flags_pending ≡ false))
        (sym (bind_eq (take_fused_cond cond) (jump_by cond l) b (take_fused_cond-none cond b e)))
        (ground (
          arith,
          emit_cond-state cond (dirty_flags b).1,
          dirty_flags-SameLabels b,
          dirty_flags_clean b,
        ))
  | inr (x, e) ↦
      subst (λ o. SameLabels b o.1 × (o.1.flags_pending ≡ false))
        (sym
          (bind_eq (take_fused_cond cond) (jump_by cond l) b (take_fused_cond_consumes cond b x e)))
        ((refl, refl), refl)
]

module _ (insn pc : ℕ) (b : Builder) where
  abbrev pub label : Label
  label = b.labels

  abbrev pub cond : ℕ
  cond = bits insn 3 0

  abbrev pub labelled : Builder
  labelled = record b { labels = b.labels + 1 }

  abbrev pub decided : Builder
  decided = (jump_unless cond label labelled).1

  abbrev pub target : ℕ
  target = target_of pc (bits insn 23 5) 19

  pub tr_b_cond-code :
      (tr_b_cond insn pc b).2
      ≡ (jump_unless cond label labelled).2 ++ ((exit_const target decided).2 ++ bind label ∷ [])
  unfolding tr_b_cond new_label emit
  tr_b_cond-code = refl

  pub state : SameLabels labelled decided × (decided.flags_pending ≡ false)
  state = jump_unless-state cond label labelled

  pub new_label_differs : decided.labels ≢ label
  new_label_differs = omega (arith, state.0.0)

  -- Leaving for the branch target, or going on behind the exit
  abbrev pub Goes : Bool → Machine → Type 0
  Goes t after = Departs b.epilogue target t after

  module _ (m : Machine) (g : Nzcv) where
    -- B.cond as a whole, wherever the guest flags are, with the epilogue's label made before: if
    -- the condition holds of them, the emitted code leaves for the epilogue with the branch target
    -- as the guest's pc, and else it runs on behind the exit.
    pub tr_b_cond-Goes :
        m.status ≡ running
        → Tracks b m g
        → b.epilogue < b.labels
        → Goes (cond_holds cond g) (run (tr_b_cond insn pc b).2 m)
    tr_b_cond-Goes r t fresh =
        let decides = jump_unless-cond_holds cond label labelled m g r t in
        rw (tr_b_cond-code, run-append)
          (exit_const-Departs target label b.epilogue decided
            (run (jump_unless cond label labelled).2 m) (cond_holds cond g) state.1
            new_label_differs (omega arith) state.0.1 decides)
