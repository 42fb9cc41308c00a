-- ===== src/Emu/State.antt =====
-- The emulator's state: `Emu` without what belongs to AsmJit, and `GuestCpu`. A table is an
-- association list, and a missing key gives `none`. What goes to the host's streams is a list of
-- writes, the last one first. `Chains` holds the tables of compiled blocks, and the bytes of the
-- compiled code at their host addresses, which the linking of blocks overwrites.
use text.Mathlib.Text.{◌==◌ as str_eq}
use reversetta.Prelude.{
  ℕ, ◌==◌, List, [], ◌∷◌, Bool, Option, none, some, if◌then◌else◌, String, ◌≡◌, refl, arith,
}
use reversetta.Layout.{ExitReason}
use reversetta.Memory.{Memory}

pub record Cpu : Type 0 where
  pub x : ℕ → ℕ
  pub sp : ℕ
  pub pc : ℕ
  pub exit_reason : ExitReason
  pub exit_info : ℕ
  pub mem_bias : ℕ
  pub guest_base : ℕ
  pub fault_addr : ℕ

pub data Stream : Type 0 where
  stdin stdout stderr : Stream

pub record Output : Type 0 where
  pub stream : Stream
  pub bytes : List ℕ

-- the place of a rel32 that waits for its target
pub record PatchSite : Type 0 where
  pub holder : ℕ
  pub disp_off : ℕ

pub record Chains : Type 0 where
  pub blocks : List (ℕ × ℕ)
  pub block_entry : List (ℕ × ℕ)  -- pc -> body address
  pub pending_patches : List (ℕ × List PatchSite)
  pub code : ℕ → ℕ

pub record Emu : Type 0 where
  pub memory : Memory
  pub cpu : Cpu
  pub image_end : ℕ
  pub guard_lo : ℕ
  pub guard_hi : ℕ
  pub chain_tbl : ℕ  -- the address of the branch cache, `chain_tbl.data()`
  pub chains : Chains
  pub thunks : List String
  pub thunk_by_name : List (String × ℕ)
  pub heap_cur : ℕ
  pub heap_end : ℕ
  pub is_running : Bool  -- `running`
  pub exit_code : ℕ
  pub output : List Output
  pub thrown : Bool  -- an exception has ended the process
  pub hidden : ℕ  -- what `rand` and `time` of the host depend on

module _ {ℓ} {V : Type ℓ} where
  unfoldable pub find : String → List (String × V) → Option V
  find k [] = none
  find k ((j, v) ∷ m) = if str_eq j k then some v else find k m

abbrev pub set_x : ℕ → ℕ → Emu → Emu
set_x r v e = let c = e.cpu in record e { cpu = record c { x = λ i. if i == r then v else c.x i } }

-- a table by guest address
module _ {ℓ} {V : Type ℓ} where
  unfoldable pub lookup : ℕ → List (ℕ × V) → Option V
  lookup addr [] = none
  lookup addr ((at, value) ∷ rest) = if at == addr then some value else lookup addr rest

  -- `table[addr] = value`
  unfoldable pub insert : ℕ → V → List (ℕ × V) → List (ℕ × V)
  insert addr value [] = (addr, value) ∷ []
  insert addr value ((at, old) ∷ rest) =
      let later = insert addr value rest in
      if at == addr then (at, value) ∷ rest else (at, old) ∷ later

  unfoldable pub erase : ℕ → List (ℕ × V) → List (ℕ × V)
  erase addr [] = []
  erase addr ((at, value) ∷ rest) =
      if at == addr then erase addr rest else (at, value) ∷ erase addr rest

  module _ (addr other : ℕ) where
    pub lookup-insert :
        (value : V) (table : List (ℕ × V))
        → lookup other (insert addr value table)
          ≡ (if addr == other then some value else lookup other table)
    unfolding lookup insert
    lookup-insert value [] = refl
    lookup-insert value ((at, old) ∷ rest) = ground (arith, lookup-insert value rest)

    pub lookup-erase :
        (table : List (ℕ × V))
        → lookup other (erase addr table) ≡ (if addr == other then none else lookup other table)
    unfolding lookup erase
    lookup-erase [] = ground arith
    lookup-erase ((at, old) ∷ rest) = ground (arith, lookup-erase rest)
