-- ===== src/Emu/Run/Guards.antt =====
-- What becomes of a guest's access outside of memory, given the mapping that the loader made.
use reversetta.Prelude.{
  sub_u64, u64, ap, subst, sym, ◌^◌, ◌%◌, ℕ, suc, ◌+◌, ◌-◌, ◌≤◌, ◌<◌, Bool, some, ◌≡◌, ◌⊎◌, ◌∙◌,
  true, false, arith, ltb, Bool-cases, inl, inr, if◌then◌else◌,
}
use reversetta.Layout.{thunk_base, exit_mem_fault, guard, guest_window}
use reversetta.Emu.State.{Emu}
use reversetta.Emu.Blocks.{block_for}
use reversetta.Emu.Run.{faulted, crashed, Host, Outcome, finished, killed, loop, fault}
use reversetta.Emu.Run.Rounds.{loop-on, go_on}
use reversetta.Emu.Run.Rules.{Ends, runs, hits_guard, misses_guard, Turn-dispatch}
use reversetta.Loader.{System, map_memory}
use reversetta.Loader.Mapping.{mapped-fields}

-- an address of the window at base, or of the length of a guard before it or behind it, where
-- addresses wrap at 2^64
abbrev pub near_window : ℕ → ℕ → Bool
near_window base addr =
    ltb ((addr + guard + (2 ^ 64 - base)) % 2 ^ 64) (guard + guest_window + guard)

-- the state in which a guest's fault ends the run
abbrev pub faulted_at : ℕ → Emu → Emu
faulted_at addr e =
    let c = e.cpu in
    record e { cpu = record c { fault_addr = addr; exit_reason = exit_mem_fault }; exit_code = 139 }

-- the guards and the bias are those of d
pub record SameMapping (d e : Emu) : Type 0 where
  pub bias : e.cpu.mem_bias ≡ d.cpu.mem_bias
  pub lo : e.guard_lo ≡ d.guard_lo
  pub hi : e.guard_hi ≡ d.guard_hi

module _ (sys : System) (base p : ℕ) (e0 : Emu) where
  abbrev mapped : Emu
  mapped = (map_memory sys base e0).1

  module _ (addr : ℕ) (e : Emu) (found : sys.mmap ≡ some p) (ok : sys.mprotect_ok ≡ true)
      (fits : p + (guard + guest_window + guard) < 2 ^ 64) (small_base : base < 2 ^ 64)
      (small : addr < 2 ^ 64) (same : SameMapping mapped e) where
    abbrev host_addr : ℕ
    host_addr = u64 (e.cpu.mem_bias + addr)

    bounds : (e.guard_lo ≡ p) × (e.guard_hi ≡ p + (guard + guest_window + guard))
    bounds =
        let (done, window, host, bias, cur, end, lo, hi) = mapped-fields sys base p e0 found ok in
        (same.lo ∙ lo, same.hi ∙ hi ∙ omega (arith, fits))

    bias_lem : e.cpu.mem_bias ≡ sub_u64 (u64 (p + guard)) base
    bias_lem =
        let (done, window, host, bias, cur, end, lo, hi) = mapped-fields sys base p e0 found ok in
        same.bias ∙ bias

    back : sub_u64 host_addr e.cpu.mem_bias ≡ addr
    back = omega (arith, bias_lem)

    inside : near_window base addr ≡ true → (e.guard_lo ≤ host_addr) × (host_addr < e.guard_hi)
    inside q = ground (arith, bounds, bias_lem)

    outside : near_window base addr ≡ false → (host_addr < e.guard_lo) ⊎ (e.guard_hi ≤ host_addr)
    outside q = ground (arith, bounds, bias_lem)

    abbrev guest_state : ℕ → Emu
    guest_state at =
        let c = e.cpu in
        record e {
          cpu = record c { fault_addr = sub_u64 at c.mem_bias; exit_reason = exit_mem_fault };
        }

    abbrev end_of : Bool → Outcome
    end_of b = if b then finished (faulted_at addr e) else killed

    after_fault :
        (h : Host) (e1 e2 : Emu) (fn fuel : ℕ)
        → e1.is_running ≡ true
        → e1.cpu.pc < thunk_base
        → block_for h.jit e1.cpu.pc e1 ≡ (some fn, e2)
        → h.execute fn e2 ≡ fault host_addr e
        → loop (suc fuel) h e1 ≡ some (end_of (near_window base addr))
    after_fault h e1 e2 fn fuel run low block execute = elim (Bool-cases (near_window base addr)) [
      | inl q ↦
          (let turn = runs fn e2 low block (
              subst (λ r. Ends r (faulted (guest_state host_addr))) (sym execute)
                (hits_guard host_addr e (inside q).0 (inside q).1)) in
            rw q (
              loop-on fuel h e1 run
              ∙ ap (go_on fuel h) (Turn-dispatch turn)
              ∙ ap (λ a. some (finished (faulted_at a e))) back))
      | inr q ↦
          (let turn =
              runs fn e2 low block (
                subst (λ r. Ends r crashed) (sym execute) (misses_guard host_addr e (outside q))) in
            rw q (loop-on fuel h e1 run ∙ ap (go_on fuel h) (Turn-dispatch turn)))
    ]

-- After a mapping that succeeds and whose host range does not reach 2^64, a running guest's block
-- that accesses the memory at a 64-bit address, at the host address of compiled code, and faults
-- there, ends the run in that round: if the address is in the window, in the 2 GiB before it or in
-- the 2 GiB behind it, with exit code 139, that guest address in the context, and all else as the
-- block left it; at any other address the process is killed. This holds wherever the window lies, as
-- long as the bias and the guards are still those of the mapping.
pub loop-map_memory :
    (sys : System) (base p : ℕ) (h : Host) (e0 e e1 e2 : Emu) (fn addr fuel : ℕ)
    → sys.mmap ≡ some p
    → sys.mprotect_ok ≡ true
    → p + (guard + guest_window + guard) < 2 ^ 64
    → base < 2 ^ 64
    → addr < 2 ^ 64
    → SameMapping (map_memory sys base e0).1 e2
    → e.is_running ≡ true
    → e.cpu.pc < thunk_base
    → block_for h.jit e.cpu.pc e ≡ (some fn, e1)
    → h.execute fn e1 ≡ fault (u64 (e2.cpu.mem_bias + addr)) e2
    → loop (suc fuel) h e
      ≡ some (if near_window base addr then finished (faulted_at addr e2) else killed)
loop-map_memory sys base p h e0 e e1 e2 fn addr fuel found ok fits low_base low_addr same =
    after_fault sys base p e0 addr e2 found ok fits low_base low_addr same h e e1 fn fuel
