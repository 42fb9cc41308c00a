-- ===== src/Emitter/Conditions.antt =====
-- `emit_cond`: an ARM condition from the flag bytes of the context into r8b.
use reversetta.Prelude.{
  ℕ, zero, suc, ◌+◌, ◌*◌, ◌/◌, ◌%◌, bit_and, bit_xor, Bool, true, false, not, ◌&&◌, ◌≡◌, refl,
  arith, of_bool, ◌==◌, Bool-cases, inl, inr,
}
use reversetta.Arm.{Nzcv, same, base_holds, cond_holds}
use reversetta.Layout.{n_off, z_off, c_off, v_off}
use reversetta.X86.{r8, byte, reg}
use reversetta.X86.Machine.{Machine, running, run, value, differ, run-append}
use reversetta.Emitter.State.{Builder, emit}
use reversetta.Emitter.Flags.{r8b, flip, emit_base, emit_cond}

-- The flag bytes of the context hold the guest flags.
pub record HoldsFlags (m : Machine) (g : Nzcv) : Type 0 where
  pub n_byte : m.ctx n_off ≡ of_bool g.n
  pub z_byte : m.ctx z_off ≡ of_bool g.z
  pub c_byte : m.ctx c_off ≡ of_bool g.c
  pub v_byte : m.ctx v_off ≡ of_bool g.v

low_byte : (x v : ℕ) → (x / 256 * 256 + v % 256) % 256 ≡ v % 256
low_byte x v = omega arith

low_bool : (x : ℕ) (a : Bool) → (x / 256 * 256 + of_bool a) % 256 ≡ of_bool a
low_bool x true = omega arith
low_bool x false = omega arith

byte_bool : (a : Bool) → of_bool a % 256 ≡ of_bool a
byte_bool true = refl
byte_bool false = refl

xor_one : (a : Bool) → bit_xor (of_bool a) 1 ≡ of_bool (not a)
xor_one true = refl
xor_one false = refl

xor_bools : (a b : Bool) → bit_xor (of_bool a) (of_bool b) ≡ of_bool (differ a b)
xor_bools true true = refl
xor_bools _ true = refl
xor_bools true _ = refl
xor_bools false _ = refl

and_bools : (a b : Bool) → bit_and (of_bool a) (of_bool b) ≡ of_bool (a && b)
and_bools true true = refl
and_bools _ true = refl
and_bools true _ = refl
and_bools false _ = refl

not-differ : (a b : Bool) → not (differ a b) ≡ same a b
not-differ true true = refl
not-differ true false = refl
not-differ false b = refl

ruleset bool_bytes = (low_byte, low_bool, byte_bool, xor_one, xor_bools, and_bools, not-differ)

abbrev pub ready : Machine → Machine
ready m = record m { status = running }

-- r8b holds the truth value, and the context is as before.
pub record Holds (before after : Machine) (t : Bool) : Type 0 where
  pub in_r8b : value after (reg byte r8) ≡ of_bool t
  pub is_running : after.status ≡ running
  pub same_ctx : after.ctx ≡ before.ctx

pub eq_ready : (m : Machine) → m.status ≡ running → m ≡ ready m
eq_ready m p = λ i. record m { status = p i }

module _ (b : Builder) (m : Machine) (g : Nzcv) (h : HoldsFlags m g) where
  abbrev after_base : ℕ → Machine
  after_base k = run (emit_base k b).2 (ready m)

  emit_base-value : (k : ℕ) → value (after_base k) (reg byte r8) ≡ of_bool (base_holds k g)
  unfolding emit_base base_holds run value
  emit_base-value zero = simp (bool_bytes, h.z_byte)
  emit_base-value (suc zero) = simp (bool_bytes, h.c_byte)
  emit_base-value (suc (suc zero)) = simp (bool_bytes, h.n_byte)
  emit_base-value (suc (suc (suc zero))) = simp (bool_bytes, h.v_byte)
  emit_base-value (suc (suc (suc (suc zero)))) = simp (bool_bytes, h.z_byte, h.c_byte)
  emit_base-value (suc (suc (suc (suc (suc zero))))) = simp (bool_bytes, h.n_byte, h.v_byte)
  emit_base-value (suc (suc (suc (suc (suc (suc zero)))))) =
      simp (bool_bytes, h.z_byte, h.n_byte, h.v_byte)
  emit_base-value (suc (suc (suc (suc (suc (suc (suc k))))))) = simp bool_bytes

  emit_base-rest : (k : ℕ) → ((after_base k).status ≡ running) × ((after_base k).ctx ≡ m.ctx)
  unfolding emit_base run
  emit_base-rest (suc (suc (suc (suc (suc (suc (suc k))))))) = (refl, refl)
  emit_base-rest _ = (refl, refl)

  emit_base-Holds : (k : ℕ) → Holds (ready m) (after_base k) (base_holds k g)
  emit_base-Holds k = record {
    in_r8b = emit_base-value k;
    is_running = (emit_base-rest k).0;
    same_ctx = (emit_base-rest k).1;
  }

-- `xor r8b, 1` negates.
flip-Holds :
    (b : Builder) (before m : Machine) (t : Bool)
    → Holds before m t
    → Holds before (run (flip r8b b).2 m) (not t)
unfolding emit run value
flip-Holds b before m t h =
    rw (eq_ready m h.is_running)
      (record { in_r8b = simp (bool_bytes, h.in_r8b); is_running = refl; same_ctx = h.same_ctx })

-- Whatever NZCV the flag bytes of the context hold, the code that `emit_cond` emits for any of the
-- sixteen conditions leaves 1 in r8b exactly when the ARM condition holds, and else 0; it runs to
-- its end and leaves the context as it was.
pub emit_cond-Holds :
    (cond : ℕ) (b : Builder) (m : Machine) (g : Nzcv)
    → m.status ≡ running
    → HoldsFlags m g
    → Holds m (run (emit_cond cond b).2 m) (cond_holds cond g)
unfolding emit_cond cond_holds run
emit_cond-Holds cond b m g is_running h =
    rw (run-append, eq_ready m is_running)
      (elim (Bool-cases (cond % 2 == 1 && not (cond == 15))) [
        | inl odd ↦
            rw odd
              (flip-Holds (emit_base (cond / 2) b).1 _ _ _ (emit_base-Holds b m g h (cond / 2)))
        | inr even ↦ rw even (emit_base-Holds b m g h (cond / 2))
      ])
