-- ===== src/Emitter/Spill.antt =====
-- `spill_flags` and `dirty_flags`: the guest flags from RFLAGS into the context.
use reversetta.Prelude.{
  ℕ, ◌<◌, ◌⊎◌, [], true, false, ◌≡◌, refl, arith, if◌then◌else◌, Bool-cases, inl, inr,
}
use mathlib.Core.List.{append-nil}
use reversetta.Layout.{n_off, v_off}
use reversetta.Arm.{Nzcv}
use reversetta.X86.Machine.{Machine, running, run, eval_cc}
use reversetta.Emitter.State.{FlagSrc, Builder, from_none, from_add, from_sub, from_logic}
use reversetta.Emitter.Flags.{flags_sub, flags_add, flags_logic, spill_flags, dirty_flags, flags_of}
use reversetta.Emitter.Fusion.{Represents}
use reversetta.Emitter.Conditions.{HoldsFlags, ready, eq_ready}

-- The guest flags are where the builder believes them to be: in RFLAGS while they are pending, and
-- else in the context.
abbrev pub Tracks : Builder → Machine → Nzcv → Type 0
Tracks b m g = if b.flags_pending then Represents b.flag_src m.flags g else HoldsFlags m g

-- `after` holds the guest flags in its context, and `before` with it in all but the flag bytes.
pub record Spilled (before after : Machine) (g : Nzcv) : Type 0 where
  pub holds : HoldsFlags after g
  pub is_running : after.status ≡ running
  pub same_regs : after.regs ≡ before.regs
  pub same_flags : after.flags ≡ before.flags
  pub same_host : after.host ≡ before.host
  pub same_ctx : (d : ℕ) → (d < n_off) ⊎ (v_off < d) → after.ctx d ≡ before.ctx d

flags_of-HoldsFlags :
    (src : FlagSrc) (b : Builder) (m : Machine) (g : Nzcv)
    → Represents src m.flags g
    → HoldsFlags (run (flags_of src b).2 (ready m)) g
unfolding flags_sub flags_add flags_logic run eval_cc
flags_of-HoldsFlags from_sub b m g r = ground arith
flags_of-HoldsFlags from_add b m g r = ground arith
flags_of-HoldsFlags from_logic b m g r = ground arith
flags_of-HoldsFlags from_none b m g r = absurd r

flags_of-rest :
    (src : FlagSrc) (b : Builder) (m : Machine)
    → let after = run (flags_of src b).2 (ready m) in
      (after.status ≡ running)
      × (after.regs ≡ m.regs)
      × (after.flags ≡ m.flags)
      × (after.host ≡ m.host)
unfolding flags_sub flags_add flags_logic run
flags_of-rest from_sub b m = (refl, refl, refl, refl)
flags_of-rest _ b m = (refl, refl, refl, refl)

flags_of-ctx :
    (src : FlagSrc) (b : Builder) (m : Machine) (d : ℕ)
    → (d < n_off) ⊎ (v_off < d)
    → (run (flags_of src b).2 (ready m)).ctx d ≡ m.ctx d
unfolding flags_sub flags_add flags_logic run
flags_of-ctx from_sub b m d apart = ground arith
flags_of-ctx from_add b m d apart = ground arith
flags_of-ctx from_logic b m d apart = ground arith
flags_of-ctx from_none b m d apart = refl

-- Materializing pending flags writes to the context exactly the guest flags that RFLAGS stand for,
-- whatever instruction produced them, and changes no register, no flag, no host memory and no
-- other field of the context;
-- the builder no longer counts them as pending.
pub spill_flags-Spilled :
    (b : Builder) (m : Machine) (g : Nzcv)
    → m.status ≡ running
    → Represents b.flag_src m.flags g
    → Spilled m (run (spill_flags b).2 m) g × ((spill_flags b).1.flags_pending ≡ false)
unfolding spill_flags
spill_flags-Spilled b m g is_running r =
    let after = flags_of-rest b.flag_src b m in
    (
      rw (append-nil, eq_ready m is_running)
          (record {
            holds = flags_of-HoldsFlags b.flag_src b m g r;
            is_running = after.0;
            same_regs = after.1;
            same_flags = after.2;
            same_host = after.3;
            same_ctx = flags_of-ctx b.flag_src b m;
          }),
      refl,
    )

dirty_flags_pending : (b : Builder) → b.flags_pending ≡ true → dirty_flags b ≡ spill_flags b
unfolding dirty_flags
dirty_flags_pending b e = rw e

pub dirty_flags_idle : (b : Builder) → b.flags_pending ≡ false → dirty_flags b ≡ (tt, b, [])
unfolding dirty_flags
dirty_flags_idle b e = simp e

-- Before an instruction that clobbers RFLAGS: afterwards the context holds the guest flags,
-- whether they were pending or not, and no register, no flag, no host memory and no other field of
-- the context has changed.
pub dirty_flags-Spilled :
    (b : Builder) (m : Machine) (g : Nzcv)
    → m.status ≡ running
    → Tracks b m g
    → Spilled m (run (dirty_flags b).2 m) g × ((dirty_flags b).1.flags_pending ≡ false)
unfolding run
dirty_flags-Spilled b m g is_running t = elim (Bool-cases b.flags_pending) [
  | inl e ↦ rw (dirty_flags_pending b e) (spill_flags-Spilled b m g is_running (rw e at t))
  | inr e ↦ rw (dirty_flags_idle b e) (
    record {
      holds = rw e at t;
      is_running = is_running;
      same_regs = refl;
      same_flags = refl;
      same_host = refl;
      same_ctx = λ d apart. refl;
    },
    e,
  )
]

abbrev pub SameLabels : Builder → Builder → Type 0
SameLabels b b' = (b'.labels ≡ b.labels) × (b'.epilogue ≡ b.epilogue)

pub dirty_flags-SameLabels : (b : Builder) → SameLabels b (dirty_flags b).1
unfolding dirty_flags spill_flags flags_sub flags_add flags_logic
dirty_flags-SameLabels b = ground arith

pub dirty_flags_clean : (b : Builder) → (dirty_flags b).1.flags_pending ≡ false
unfolding dirty_flags spill_flags
dirty_flags_clean b = ground arith
