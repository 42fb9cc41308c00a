-- ===== src/Tests/Blocks.antt =====
-- Concrete runs and instances for the blocks and the dispatcher of src/emu.cpp.
use mathlib.Core.Option.{some-injective}
use reversetta.Prelude.{
  ℕ, ◌+◌, ◌≡◌, refl, ap, u64, sym, subst, ◌∙◌, List, [], ◌∷◌, none, some, true, arith, inl, inr,
  Bool-cases, ==_iff, ◌==◌, if◌then◌else◌, Each,
}
use reversetta.Layout.{thunk_exit}
use reversetta.Emitter.State.{Patch}
use reversetta.Memory.{load_le}
use reversetta.Emu.State.{Emu, Chains, PatchSite, lookup}
use reversetta.Emu.Host.{stop, set_pc}
use reversetta.Emu.Blocks.{Jit, link_block, block_for}
use reversetta.Emu.Blocks.Linking.{SiteAgrees, jump_of}
use reversetta.Emu.Blocks.Chained.{IsChained, link_block-IsChained}
use reversetta.Emu.Blocks.Untouched.{IsWaiting}
use reversetta.Emu.Blocks.SelfLoop.{site_of, here, block, link_block_self_waits}
use reversetta.Emu.Run.{Host, returned, fault, finished, loop}
use reversetta.Emu.Run.Guards.{faulted_at, loop-map_memory}
use reversetta.HostFns.{host_fns}
use reversetta.Tests.Calls.{libc}
use reversetta.Loader.{System, map_memory}
use reversetta.Emu.Run.Exit.{loop_main_returns}
use reversetta.Tests.Guest.{emu, cpu}

abbrev exit_site : PatchSite
exit_site = record { holder = 0x1000; disp_off = 0x10 }

-- a block at 0x1000 waits for the block of pc 0x2000
abbrev waiting : Chains
waiting = record {
  blocks = [];
  block_entry = [];
  pending_patches = (0x2000, exit_site ∷ []) ∷ [];
  code = λ i. 0;
}

waiting-SiteAgrees :
    (target : ℕ) (l : List PatchSite)
    → lookup target waiting.pending_patches ≡ some l
    → Each (SiteAgrees 0x1010 0x2000 target) l
unfolding lookup
waiting-SiteAgrees target l h = elim (Bool-cases (0x2000 == target)) [
  | inl q ↦
      (let same =
          some-injective (exit_site ∷ []) l
            (sym (ap (λ b. if b then some (exit_site ∷ []) else none) q) ∙ h) in
        subst (Each (SiteAgrees 0x1010 0x2000 target)) same
          (inr (refl, sym ((==_iff 0x2000 target).0 q)), tt))
  | inr q ↦ cc
]

waiting-IsChained : IsChained 0x1010 0x2000 waiting
unfolding lookup load_le
waiting-IsChained = record {
  links = record { linked = inl refl; pending = waiting-SiteAgrees };
  bodies = λ k b e. cc;
}

link_block-IsChained_example : IsChained 0x1010 0x2000 (link_block 0x2000 0x5000 8 [] waiting)
unfolding lookup
link_block-IsChained_example =
    link_block-IsChained 0x1010 0x2000 0x2000 0x5000 8 [] waiting refl tt waiting-IsChained

abbrev self_exit : Patch
self_exit = record { disp_off = 0x20; target = 0x2000 }

abbrev empty : Chains
empty = record { blocks = []; block_entry = []; pending_patches = []; code = λ i. 0 }

-- a later block at 0x3000, which goes on at 0x2000
abbrev to_self : Patch
to_self = record { disp_off = 0x10; target = 0x2000 }

abbrev self_linked : Chains
self_linked = link_block 0x2000 0x5000 8 (self_exit ∷ []) empty

link_block_self_waits_example :
    let d = link_block 0x3000 0x6000 8 (to_self ∷ []) self_linked in
    IsWaiting 0x2000 (site_of 0x5000 self_exit) d.pending_patches × (jump_of d.code 0x5020 ≡ 0x5024)
unfolding lookup load_le
link_block_self_waits_example =
    link_block_self_waits 0x2000 0x5000 8 [] [] self_exit empty
      (link_block 0x3000 0x6000 8 (to_self ∷ []) self_linked) refl refl refl tt tt
      (λ target l e. cc)
      (block 0x3000 0x6000 8 (to_self ∷ []) self_linked.code (here self_linked) (λ e. omega arith)
        (inr (omega arith), tt) (λ i p q. refl))

abbrev system : System
system = record { mmap = some 0x700000000000; mprotect_ok = true }

-- every instruction takes four bytes, and no block can be added
abbrev jit : Jit
jit = record { init_ok = true; size = λ i. 4; add = λ l code. none }

-- each block faults 16 bytes below a window at 0x900000000000
abbrev host : Host
host = record {
  host_fns = [];
  jit = jit;
  execute = λ fn e. fault (u64 (e.cpu.mem_bias + 0x8FFFFFFFFFF0)) e;
}

-- main has returned 7
abbrev returned_main : Emu
returned_main = record emu { cpu = record cpu { pc = thunk_exit; x = λ r. 7 } }

loop_main_returns_example : loop 2 host returned_main ≡ some (finished (stop 7 returned_main))
loop_main_returns_example = loop_main_returns host returned_main 0 refl refl refl refl

-- the window mapped at an address below that of the image, and a block at the pc
abbrev mapped : Emu
mapped = (map_memory system 0x900000000000 emu).1

abbrev compiled : Emu
compiled = record mapped { chains = record empty { blocks = (cpu.pc, 0x5000) ∷ [] } }

loop-map_memory_example :
    loop 1 host compiled ≡ some (finished (faulted_at 0x8FFFFFFFFFF0 compiled))
unfolding block_for lookup map_memory
loop-map_memory_example =
    loop-map_memory system 0x900000000000 0x700000000000 host emu compiled compiled compiled 0x5000
      0x8FFFFFFFFFF0 0 refl refl (omega arith) (omega arith) (omega arith)
      (record { bias = refl; lo = refl; hi = refl }) refl (omega arith) refl refl

-- each block returns from main, with the host functions of the program
abbrev confined : Host
confined = record {
  host_fns = host_fns libc;
  jit = jit;
  execute = λ fn e. returned (set_pc thunk_exit e);
}

abbrev at_exit : Emu
at_exit = set_pc thunk_exit compiled
