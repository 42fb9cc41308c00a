-- ===== src/Emu/Run/Reached.antt =====
-- The states that a run passes through, however long it goes on.
use reversetta.Prelude.{ℕ, true, Option, none, some, ◌≡◌, sym, ◌∙◌, ap, subst}
use reversetta.Memory.Window.{Within, Within-refl}
use reversetta.Emu.State.{Emu, lookup}
use reversetta.Emu.Blocks.Tables.{Grows}
use reversetta.Emu.Run.{Ran, returned, fault, Host, Round, go, stopped, faulted, crashed, dispatch}
use reversetta.HostFns.Contained.{Contained}

-- The host's memory outside of the window and the window's place are as they were, each thunk is at
-- its place, and a block that is compiled stays the one for its pc.
pub record Steady (e d : Emu) : Type 0 where
  pub within : Within e.memory d.memory
  pub thunks : d.thunks ≡ e.thunks
  pub blocks : Grows e.chains.blocks d.chains.blocks

-- a state with the memory, the thunks and the blocks of another
pub same_parts :
    (e d : Emu) → d.memory ≡ e.memory → d.thunks ≡ e.thunks → d.chains ≡ e.chains → Steady e d
same_parts e d m t c = record {
  within = subst (λ k. Within e.memory k) (sym m) (Within-refl e.memory);
  thunks = t;
  blocks = λ pc fn h. ap (λ k. lookup pc k.blocks) c ∙ h;
}

abbrev pub left_by : Ran → Emu
left_by (returned e) = e
left_by (fault addr e) = e

-- the state after a round, if there is a process left
abbrev pub state_of : Round → Option Emu
state_of (go e) = some e
state_of (stopped e) = some e
state_of (faulted e) = some e
state_of crashed = none

-- the states before a round, from the one that the run starts in
pub data Reaches (h : Host) (e : Emu) : Emu → Type 0 where
  at_start : Reaches h e e
  round : {d d' : Emu} → Reaches h e d → d.is_running ≡ true → dispatch h d ≡ go d' → Reaches h e d'

-- All states that a round leaves
abbrev AllSteady : Emu → Round → Type 0
AllSteady e r = (d : Emu) → state_of r ≡ some d → Steady e d

abbrev SameParts : Emu → Emu → Type 0
SameParts e d = (d.memory ≡ e.memory) × (d.thunks ≡ e.thunks) × (d.chains ≡ e.chains)

-- the assumption on compiled code: what it does keeps to the window, the thunks and the blocks
abbrev pub IsConfined : Host → Type 0
IsConfined h = (fn : ℕ) (e : Emu) → Steady e (left_by (h.execute fn e))
