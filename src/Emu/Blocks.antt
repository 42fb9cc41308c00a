-- ===== src/Emu/Blocks.antt =====
-- src/emu.cpp: `Emu::block_for`, which compiles a block and links it with the others. AsmJit is a
-- parameter: whether a code holder can be initialised, how many bytes an instruction takes, and
-- where `rt.add` puts a block, with what it leaves in the host's code memory.
pub mod Linking
pub mod Tables
pub mod Chained
pub mod Untouched
pub mod SelfLoop
use reversetta.Prelude.{
  ℕ, ◌+◌, ◌%◌, ◌^◌, List, [], ◌∷◌, ◌++◌, Bool, true, false, Option, none, some, if◌then◌else◌, u64,
  sub_u64,
}
use reversetta.Memory.{store_le}
use reversetta.X86.{Insn}
use reversetta.Emitter.State.{FlagSrc, Builder, Patch, from_none}
use reversetta.Emitter.Regs.{fits_int32}
use reversetta.Emu.State.{Emu, Chains, PatchSite, lookup, insert, erase}
use reversetta.Translator.Block.{build}

pub record Jit : Type 0 where
  pub init_ok : Bool
  pub size : Insn → ℕ
  pub add : List Insn → (ℕ → ℕ) → Option (ℕ × (ℕ → ℕ))

-- `BlockBuilder bb(*this, a, pc)` on an empty assembler
abbrev pub new_builder : Jit → Emu → ℕ → Builder
new_builder jit e pc = record {
  emu = e.memory;
  chain_tbl = e.chain_tbl;
  size = jit.size;
  offset = 0;
  labels = 0;
  pc_start = pc;
  body_off = 0;
  patches = [];
  epilogue = 0;
  flag_src = from_none;
  flags_pending = false;
  base_cached = none;
  jump_to = 0;
  has_jump = false;
}

-- The rel32 from the end of the jump to `body` is stored, if it is a signed 32-bit number.
unfoldable pub patch_site : ℕ → ℕ → ℕ → (ℕ → ℕ) → ℕ → ℕ
unfolding store_le
patch_site holder disp_off body code =
    let rel = sub_u64 body (u64 (holder + disp_off + 4)) in
    if fits_int32 rel then store_le 4 code (u64 (holder + disp_off)) (rel % 2 ^ 32) else code

-- the waiting sites of a block that has been compiled
unfoldable pub patch_waiting : List PatchSite → ℕ → (ℕ → ℕ) → ℕ → ℕ
unfolding patch_site
patch_waiting [] body code = code
patch_waiting (s ∷ l) body code = patch_waiting l body (patch_site s.holder s.disp_off body code)

-- the waiting sites of pc, and their removal from the table
unfoldable pub take_waiting : ℕ → ℕ → Chains → Chains
unfolding patch_waiting
take_waiting pc body c = elim (lookup pc c.pending_patches) [
  | none ↦ c
  | some sites ↦ record c {
    code = patch_waiting sites body c.code;
    pending_patches = erase pc c.pending_patches;
  }
]

-- `pending_patches[target].push_back(site)`
unfoldable pub push_waiting : ℕ → PatchSite → List (ℕ × List PatchSite) → List (ℕ × List PatchSite)
push_waiting target s m = elim (lookup target m) [
  | none ↦ insert target (s ∷ []) m
  | some sites ↦ insert target (sites ++ s ∷ []) m
]

-- a site of the new block itself: linked at once, or left waiting
unfoldable pub link_own : ℕ → Patch → Chains → Chains
unfolding patch_site push_waiting
link_own fn s c = elim (lookup s.target c.block_entry) [
  | some body ↦ record c { code = patch_site fn s.disp_off body c.code }
  | none ↦ record c {
    pending_patches =
        push_waiting s.target (record { holder = fn; disp_off = s.disp_off }) c.pending_patches;
  }
]

unfoldable pub link_all : ℕ → List Patch → Chains → Chains
unfolding link_own
link_all fn [] c = c
link_all fn (s ∷ l) c = link_all fn l (link_own fn s c)

-- the new block in the tables
unfoldable pub enter : ℕ → ℕ → ℕ → Chains → Chains
enter pc fn body c = record c {
  block_entry = insert pc body c.block_entry;
  blocks = insert pc fn c.blocks;
}

-- what follows `rt.add`
unfoldable pub link_block : ℕ → ℕ → ℕ → List Patch → Chains → Chains
unfolding take_waiting link_all enter
link_block pc fn body_off patches c =
    let body = u64 (fn + body_off) in
    enter pc fn body (link_all fn patches (take_waiting pc body c))

unfoldable pub add_block : Jit → ℕ → Builder → List Insn → Emu → Option ℕ × Emu
unfolding link_block
add_block jit pc b insns e =
    let c = e.chains in
    elim (jit.add insns c.code) [
      | none ↦ (none, e)
      | some (fn, code) ↦ (
        some fn,
        record e { chains = link_block pc fn b.body_off b.patches (record c { code = code }) },
      )
    ]

-- `none` is the null pointer.
unfoldable pub block_for : Jit → ℕ → Emu → Option ℕ × Emu
unfolding add_block
block_for jit pc e =
    let c = e.chains in
    elim (lookup pc c.blocks) [
      | some fn ↦ (some fn, e)
      | none ↦
          (let compiled = build (new_builder jit e pc) in
            if jit.init_ok then add_block jit pc compiled.1 compiled.2 e else (none, e))
    ]
