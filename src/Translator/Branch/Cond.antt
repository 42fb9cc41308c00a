-- ===== src/Translator/Branch/Cond.antt =====
-- The conditional jump of B.cond, on both paths: from RFLAGS, and through the context.
use reversetta.Prelude.{
  ℕ, [], ◌∷◌, ◌++◌, Bool, true, false, not, none, some, ◌≡◌, arith, if◌then◌else◌, Option-cases,
  inl, inr,
}
use reversetta.Arm.{Nzcv, cond_holds}
use reversetta.X86.{CondCode, Label, byte, reg, r8, equal, j, test}
use reversetta.X86.Machine.{Machine, running, seeking, Status, run, run-append, eval_cc}
use reversetta.Emitter.State.{Builder, emit}
use reversetta.Emitter.Flags.{inv_cc, take_fused_cond, dirty_flags, emit_cond}
use reversetta.Emitter.Fusion.{take_fused_cond-some, take_fused_cond-cond_holds}
use reversetta.Emitter.Conditions.{Holds, ready, eq_ready, emit_cond-Holds}
use reversetta.Emitter.Spill.{Tracks, dirty_flags-Spilled}
use reversetta.Emitter.Leaving.{seek}
use reversetta.Translator.Branch.{jump_unless}

pub take_fused_cond_consumes :
    (cond : ℕ) (b : Builder) (x : CondCode)
    → (take_fused_cond cond b).0 ≡ some x
    → take_fused_cond cond b ≡ (some x, record b { flags_pending = false }, [])
unfolding take_fused_cond
take_fused_cond_consumes cond b x e = ground arith

pub take_fused_cond-none :
    (cond : ℕ) (b : Builder)
    → (take_fused_cond cond b).0 ≡ none
    → take_fused_cond cond b ≡ (none, b, [])
unfolding take_fused_cond
take_fused_cond-none cond b e = ground arith

take_fused_cond-code : (cond : ℕ) (b : Builder) → (take_fused_cond cond b).2 ≡ []
unfolding take_fused_cond
take_fused_cond-code cond b = ground arith

-- over the exit, if the condition fails
abbrev pub outcome : Bool → Label → Status
outcome t l = if t then running else seeking l

module _ (cond : ℕ) (l : Label) (b : Builder) where
  pub fused_code :
      (x : CondCode)
      → (take_fused_cond cond b).0 ≡ some x
      → (jump_unless cond l b).2 ≡ j (inv_cc x) l ∷ []
  unfolding jump_unless emit
  fused_code x e = simp (e, take_fused_cond-code cond b)

  abbrev spilled : Builder
  spilled = (dirty_flags b).1

  plain_code :
      (take_fused_cond cond b).0 ≡ none
      → (jump_unless cond l b).2
        ≡ (dirty_flags b).2
          ++ ((emit_cond cond spilled).2 ++ test (reg byte r8) (reg byte r8) ∷ j equal l ∷ [])
  unfolding jump_unless emit
  plain_code e = simp (take_fused_cond-none cond b e)

  test_jump :
      (before m : Machine) (t : Bool)
      → Holds before m t
      → (run (test (reg byte r8) (reg byte r8) ∷ j equal l ∷ []) m).status ≡ outcome t l
  unfolding run eval_cc
  test_jump before m true h = rw (eq_ready m h.is_running) (simp (h.in_r8b))
  test_jump before m false h = rw (eq_ready m h.is_running) (simp (h.in_r8b))

  jump_over :
      (m : Machine) (x : CondCode) (t : Bool)
      → eval_cc (inv_cc x) m.flags ≡ not t
      → (run (j (inv_cc x) l ∷ []) (ready m)).status ≡ outcome t l
  unfolding run
  jump_over m x true e = simp e
  jump_over m x false e = simp e

  pub jump_over_seek :
      (m : Machine) (x : CondCode)
      → eval_cc (inv_cc x) m.flags ≡ true
      → run (j (inv_cc x) l ∷ []) (ready m) ≡ seek m l
  unfolding run
  jump_over_seek m x e = simp e

  fused_jump :
      (m : Machine) (g : Nzcv) (x : CondCode)
      → m.status ≡ running
      → Tracks b m g
      → (take_fused_cond cond b).0 ≡ some x
      → (run (jump_unless cond l b).2 m).status ≡ outcome (cond_holds cond g) l
  fused_jump m g x is_running t e =
      let pending = (take_fused_cond-some cond b x e).0 in
      rw (fused_code x e, eq_ready m is_running)
        (jump_over m x _ (take_fused_cond-cond_holds cond b m.flags g x (rw pending at t) e).1)

  plain_jump :
      (m : Machine) (g : Nzcv)
      → m.status ≡ running
      → Tracks b m g
      → (take_fused_cond cond b).0 ≡ none
      → (run (jump_unless cond l b).2 m).status ≡ outcome (cond_holds cond g) l
  plain_jump m g is_running t e =
      let s = (dirty_flags-Spilled b m g is_running t).0 in
      rw (plain_code e, run-append, run-append)
        (test_jump _ _ _ (emit_cond-Holds cond spilled _ g s.is_running s.holds))

  -- B.cond decides as the ARM condition does: whether the guest flags are still in RFLAGS or in the
  -- context, the emitted code goes on to the exit exactly when the condition holds of them, and
  -- else jumps to the label behind the exit. It holds for each of the sixteen conditions.
  pub jump_unless-cond_holds :
      (m : Machine) (g : Nzcv)
      → m.status ≡ running
      → Tracks b m g
      → (run (jump_unless cond l b).2 m).status ≡ outcome (cond_holds cond g) l
  jump_unless-cond_holds m g is_running t = elim (Option-cases (take_fused_cond cond b).0) [
    | inl e ↦ plain_jump m g is_running t e
    | inr (x, e) ↦ fused_jump m g x is_running t e
  ]
