-- ===== src/Emu/Run/Rules.antt =====
-- The dispatcher by rules: what one round does.
use reversetta.Prelude.{
  ℕ, ◌≤◌, ◌<◌, none, some, ◌≡◌, refl, true, false, arith, leb, Bool, inl, inr, ◌⊎◌, le→leb, sub_u64,
}
use reversetta.Layout.{
  thunk_base, ExitReason, exit_none, exit_mem_fault, exit_undef_insn, exit_syscall,
}
use reversetta.Emu.State.{Emu}
use reversetta.Emu.Host.{handle_thunk, handle_syscall}
use reversetta.Emu.Blocks.{block_for}
use reversetta.Emu.Run.{
  Ran, returned, fault, Host, Round, go, stopped, faulted, crashed, guest_fault_handler,
  after_block, run_block, after_thunk, dispatch,
}

-- how the code of a block ends
pub data Ends : Ran → Round → Type 0 where
  goes_on : (e' : Emu) → e'.cpu.exit_reason ≡ exit_none → Ends (returned e') (go e')
  calls_system :
      (e' : Emu) → e'.cpu.exit_reason ≡ exit_syscall → Ends (returned e') (go (handle_syscall e'))
  undefined :
      (e' : Emu)
      → e'.cpu.exit_reason ≡ exit_undef_insn
      → Ends (returned e') (stopped (record e' { exit_code = 4 }))
  reports_fault : (e' : Emu) → e'.cpu.exit_reason ≡ exit_mem_fault → Ends (returned e') (faulted e')
  hits_guard :
      (addr : ℕ) (e' : Emu)
      → e'.guard_lo ≤ addr
      → addr < e'.guard_hi
      → Ends (fault addr e') (
          faulted (
            let c = e'.cpu in
            record e' {
              cpu = record c { fault_addr = sub_u64 addr c.mem_bias; exit_reason = exit_mem_fault };
            }))
  misses_guard :
      (addr : ℕ) (e' : Emu)
      → (addr < e'.guard_lo) ⊎ (e'.guard_hi ≤ addr)
      → Ends (fault addr e') crashed

-- one round of the loop, at a thunk or at a block
pub data Turn (h : Host) (e : Emu) : Round → Type 0 where
  calls :
      (e' : Emu)
      → thunk_base ≤ e.cpu.pc
      → handle_thunk h.host_fns e.cpu.pc e ≡ (true, e')
      → e'.thrown ≡ false
      → Turn h e (go e')
  fails :
      (e' : Emu)
      → thunk_base ≤ e.cpu.pc
      → handle_thunk h.host_fns e.cpu.pc e ≡ (false, e')
      → e'.thrown ≡ false
      → Turn h e (stopped e')
  throws :
      (b : Bool) (e' : Emu)
      → thunk_base ≤ e.cpu.pc
      → handle_thunk h.host_fns e.cpu.pc e ≡ (b, e')
      → e'.thrown ≡ true
      → Turn h e crashed
  no_block :
      (e' : Emu)
      → e.cpu.pc < thunk_base
      → block_for h.jit e.cpu.pc e ≡ (none, e')
      → Turn h e (stopped (record e' { exit_code = 70 }))
  runs :
      (fn : ℕ) (e' : Emu) {r : Round}
      → e.cpu.pc < thunk_base
      → block_for h.jit e.cpu.pc e ≡ (some fn, e')
      → Ends (h.execute fn e') r
      → Turn h e r

pub ExitReason-cases :
    (r : ExitReason)
    → (r ≡ exit_none) ⊎ (r ≡ exit_syscall) ⊎ (r ≡ exit_undef_insn) ⊎ (r ≡ exit_mem_fault)
ExitReason-cases exit_none = inl refl
ExitReason-cases exit_syscall = inr (inl refl)
ExitReason-cases exit_undef_insn = inr (inr (inl refl))
ExitReason-cases exit_mem_fault = inr (inr (inr refl))

Ends-after_block : {r : Ran} {d : Round} → Ends r d → after_block r ≡ d
unfolding after_block guest_fault_handler
Ends-after_block (goes_on e' h) = simp h
Ends-after_block (calls_system e' h) = simp h
Ends-after_block (undefined e' h) = simp h
Ends-after_block (reports_fault e' h) = simp h
Ends-after_block (hits_guard addr e' lo hi) = ground arith
Ends-after_block (misses_guard addr e' out) = ground arith

lt→leb_false : (a b : ℕ) → a < b → leb b a ≡ false
lt→leb_false a b h = ground arith

pub Turn-dispatch : {h : Host} {e : Emu} {d : Round} → Turn h e d → dispatch h e ≡ d
unfolding dispatch run_block after_thunk
Turn-dispatch {h} {e} (calls e' at k t) = simp (le→leb thunk_base e.cpu.pc at, k, t)
Turn-dispatch {h} {e} (fails e' at k t) = simp (le→leb thunk_base e.cpu.pc at, k, t)
Turn-dispatch {h} {e} (throws true e' at k t) = simp (le→leb thunk_base e.cpu.pc at, k, t)
Turn-dispatch {h} {e} (throws false e' at k t) = simp (le→leb thunk_base e.cpu.pc at, k, t)
Turn-dispatch {h} {e} (no_block e' at k) = rw (lt→leb_false e.cpu.pc thunk_base at, k) refl
Turn-dispatch {h} {e} (runs fn e' at k t) =
    rw (lt→leb_false e.cpu.pc thunk_base at, k) (Ends-after_block t)
