-- ===== src/Emitter/Leaving.antt =====
-- `exit_const`: leaving a block for a known address, and jumping over such an exit.
use reversetta.Prelude.{
  ℕ, ◌%◌, ◌^◌, List, [], ◌∷◌, ◌++◌, Bool, true, false, ltb, ◌≡◌, refl, subst, arith, if◌then◌else◌,
  Bool-cases, inl, inr, ◌≢◌, ◌==◌,
}
use reversetta.Arm.{Nzcv}
use reversetta.Layout.{pc_off, thunk_base}
use reversetta.X86.{Label, rax, Insn, imm, mov, jmp, bind}
use reversetta.X86.Machine.{Machine, running, seeking, run, run-append, value}
use reversetta.Emitter.State.{Builder, emit, new_label}
use reversetta.Emitter.Flags.{dirty_flags}
use reversetta.Emitter.Regs.{gp, pc_mem}
use reversetta.Emitter.Exits.{exit_const}
use reversetta.Emitter.Conditions.{HoldsFlags, ready, eq_ready}
use reversetta.Emitter.Spill.{Tracks, dirty_flags_idle, dirty_flags-Spilled, dirty_flags-SameLabels}

-- the exit behind the spill of the flags, up to the jump to the epilogue
abbrev patched : Label → List Insn
patched site = jmp site ∷ bind site ∷ []

abbrev to_dispatcher : ℕ → Label → List Insn
to_dispatcher target epilogue =
    mov (gp true rax) (imm target) ∷ mov pc_mem (gp true rax) ∷ jmp epilogue ∷ []

exit_const-code :
    (target : ℕ) (b : Builder)
    → (exit_const target b).2
      ≡ (dirty_flags b).2
        ++ ((if ltb target thunk_base then patched (dirty_flags b).1.labels else [])
            ++ to_dispatcher target (dirty_flags b).1.epilogue)
unfolding exit_const emit new_label
exit_const-code target b = elim (Bool-cases (ltb target thunk_base)) [
  | inl e ↦ simp e
  | inr e ↦ simp e
]

pub same_label : (l : Label) → (l == l) ≡ true
same_label l = ground arith

pub other_label : (k l : Label) → k ≢ l → (k == l) ≡ false
other_label k l ne = ground arith

run-patched :
    (t : Bool) (site : Label) (m : Machine)
    → run (if t then patched site else []) (ready m) ≡ ready m
unfolding run
run-patched true site m = simp (same_label site)
run-patched false site m = refl

-- Code that leaves for `target`: it seeks the epilogue, with pc and the guest flags in the context.
pub record Leaves (m : Machine) (epilogue : Label) (target : ℕ) (g : Nzcv) : Type 0 where
  pub seeks : m.status ≡ seeking epilogue
  pub pc_stored : m.ctx pc_off ≡ target % 2 ^ 64
  pub flags_stored : HoldsFlags m g

to_dispatcher-Leaves :
    (target : ℕ) (epilogue : Label) (m : Machine) (g : Nzcv)
    → HoldsFlags m g
    → Leaves (run (to_dispatcher target epilogue) (ready m)) epilogue target g
unfolding run value
to_dispatcher-Leaves target epilogue m g h = record {
  seeks = refl;
  pc_stored = refl;
  flags_stored = record {
    n_byte = h.n_byte;
    z_byte = h.z_byte;
    c_byte = h.c_byte;
    v_byte = h.v_byte;
  };
}

-- Wherever the guest flags are, the code of `exit_const` leaves the block: it ends seeking the
-- epilogue, with the target as the guest's pc and the guest flags in the context, where the
-- dispatcher and every other block expect them.
pub exit_const-Leaves :
    (target : ℕ) (b : Builder) (m : Machine) (g : Nzcv)
    → m.status ≡ running
    → Tracks b m g
    → Leaves (run (exit_const target b).2 m) b.epilogue target g
exit_const-Leaves target b m g is_running t =
    let s = (dirty_flags-Spilled b m g is_running t).0 in
    rw
      (
        exit_const-code target b,
        run-append,
        run-append,
        eq_ready (run (dirty_flags b).2 m) s.is_running,
        run-patched,
      )
      (subst
        (λ ep.
          Leaves
            (run (to_dispatcher target (dirty_flags b).1.epilogue)
              (ready (run (dirty_flags b).2 m)))
            ep target g)
        (dirty_flags-SameLabels b).1
        (to_dispatcher-Leaves target (dirty_flags b).1.epilogue _ g s.holds))

abbrev pub seek : Machine → Label → Machine
seek m l = record m { status = seeking l }

pub eq_seek : (m : Machine) (l : Label) → m.status ≡ seeking l → m ≡ seek m l
eq_seek m l p = λ i. record m { status = p i }

run-exit_seek :
    (t : Bool) (site target : ℕ) (epilogue : Label) (m : Machine) (l : Label)
    → site ≢ l
    → run ((if t then patched site else []) ++ to_dispatcher target epilogue) (seek m l) ≡ seek m l
unfolding run
run-exit_seek true site target epilogue m l ne = simp (other_label site l ne)
run-exit_seek false site target epilogue m l ne = refl

-- A machine that seeks a label passes over an exit, which binds only a new label.
pub run-exit_const-seek :
    (target : ℕ) (b : Builder) (m : Machine) (l : Label)
    → b.flags_pending ≡ false
    → b.labels ≢ l
    → run (exit_const target b).2 (seek m l) ≡ seek m l
run-exit_const-seek target b m l idle ne =
    rw (exit_const-code target b, dirty_flags_idle b idle)
      (run-exit_seek (ltb target thunk_base) b.labels target b.epilogue m l ne)

abbrev Exited : Label → ℕ → Machine → Machine → Type 0
Exited epilogue target before after =
    (after.status ≡ seeking epilogue)
    × (after.ctx ≡ λ d. if d == pc_off then target % 2 ^ 64 else before.ctx d)

run-exit_ready :
    (t : Bool) (site target : ℕ) (epilogue : Label) (m : Machine)
    → Exited epilogue target m
        (run ((if t then patched site else []) ++ to_dispatcher target epilogue) (ready m))
unfolding run value
run-exit_ready true site target epilogue m = simp (same_label site) (refl, refl)
run-exit_ready false site target epilogue m = (refl, refl)

-- the exit of a builder with no pending flags: the context changes only in pc
pub exit_const_idle :
    (target : ℕ) (b : Builder) (m : Machine)
    → b.flags_pending ≡ false
    → m.status ≡ running
    → let after = run (exit_const target b).2 m in
      (after.status ≡ seeking b.epilogue)
      × (after.ctx ≡ λ d. if d == pc_off then target % 2 ^ 64 else m.ctx d)
exit_const_idle target b m idle is_running =
    rw (exit_const-code target b, dirty_flags_idle b idle, eq_ready m is_running)
      (run-exit_ready (ltb target thunk_base) b.labels target b.epilogue m)
