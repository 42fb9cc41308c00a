-- ===== src/Translator/Branch/Skip.antt =====
-- A jump over a direct exit, the exit, and the label behind it: the end of every conditional
-- branch.
use reversetta.Prelude.{ℕ, ◌%◌, ◌^◌, [], ◌∷◌, ◌++◌, Bool, true, false, ◌≡◌, ◌≢◌, ◌∙◌, ap}
use reversetta.Layout.{pc_off}
use reversetta.X86.{Label, bind}
use reversetta.X86.Machine.{Machine, running, seeking, run, run-append}
use reversetta.Emitter.State.{Builder}
use reversetta.Emitter.Exits.{exit_const}
use reversetta.Emitter.Conditions.{ready}
use reversetta.Emitter.Leaving.{
  seek, exit_const_idle, run-exit_const-seek, same_label, other_label, eq_seek,
}
use reversetta.Translator.Branch.Cond.{outcome}

-- Leaving for `target`, or going on behind the exit
abbrev pub Departs : Label → ℕ → Bool → Machine → Type 0
Departs ep target true after = (after.status ≡ seeking ep) × (after.ctx pc_off ≡ target % 2 ^ 64)
Departs ep target false after = after.status ≡ running

-- a binding of another label leaves a machine that seeks the epilogue alone
pass_bind : (n : Machine) (l ep : Label) → n.status ≡ seeking ep → l ≢ ep → run (bind l ∷ []) n ≡ n
unfolding run
pass_bind n l ep e ne = rw (eq_seek n ep e) (simp (other_label l ep ne))

pub reach_bind : (n : Machine) (l : Label) → run (bind l ∷ []) (seek n l) ≡ ready n
unfolding run
reach_bind n l = simp (same_label l)

module _ (target : ℕ) (l ep : Label) (d : Builder) (m : Machine) where
  abbrev exited : Machine
  exited = run (exit_const target d).2 m

  -- With no flags pending, what goes on to the exit leaves by it, and what jumps over it goes on.
  pub exit_const-Departs :
      (t : Bool)
      → d.flags_pending ≡ false
      → d.labels ≢ l
      → l ≢ ep
      → d.epilogue ≡ ep
      → m.status ≡ outcome t l
      → Departs ep target t (run ((exit_const target d).2 ++ bind l ∷ []) m)
  exit_const-Departs true idle new other same r =
      let out = exit_const_idle target d m idle r in
      let seeks : exited.status ≡ seeking ep = out.0 ∙ ap seeking same in
      rw (run-append, pass_bind exited l ep seeks other) (seeks, rw out.1)
  exit_const-Departs false idle new other same s =
      rw (run-append, eq_seek m l s, run-exit_const-seek target d m l idle new)
        (rw (reach_bind m l))
