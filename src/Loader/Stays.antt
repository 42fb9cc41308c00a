-- ===== src/Loader/Stays.antt =====
-- What resolving a name does to the memory and to the thunks.
use reversetta.Prelude.{
  refl, ◌≡◌, get_elem?, ◌++◌, ap, ◌∙◌, ℕ, zero, suc, ◌+◌, List, [], ◌∷◌, some, by_bool, by_option,
  ltb, u64, String,
}
use reversetta.Memory.Window.{Within, Within-refl, Within-trans, write-Within}
use reversetta.Emu.State.{Emu, find}
use reversetta.Emu.Heap.{heap_alloc, rounded}
use reversetta.Emu.Imports.{thunk_for, resolve_import, symbol_name, host_data}

-- each thunk keeps its place
abbrev pub ThunksKept : Emu → Emu → Type 0
ThunksKept e e' =
    (i : ℕ) (name : String) → get_elem? e.thunks i ≡ some name → get_elem? e'.thunks i ≡ some name

-- what binding a name may do to the state
pub record Stays (e e' : Emu) : Type 0 where
  pub within : Within e.memory e'.memory
  pub kept : ThunksKept e e'

pub Stays-refl : (e : Emu) → Stays e e
Stays-refl e = record { within = Within-refl e.memory; kept = λ i name h. h }

pub Stays-trans : (e d f : Emu) → Stays e d → Stays d f → Stays e f
Stays-trans e d f c k = record {
  within = Within-trans e.memory d.memory f.memory c.within k.within;
  kept = λ i name h. k.kept i name (c.kept i name h);
}

-- a state with another memory
pub same_thunks : (e f : Emu) → Within e.memory f.memory → f.thunks ≡ e.thunks → Stays e f
same_thunks e f w t = record { within = w; kept = λ i name h. ap (λ l. get_elem? l i) t ∙ h }

heap_alloc-Stays : (size : ℕ) (e : Emu) → Stays e (heap_alloc size e).1
unfolding heap_alloc
heap_alloc-Stays size e =
    by_bool (λ (r : ℕ × Emu). Stays e r.1) (ltb e.heap_end (u64 (e.heap_cur + rounded size + 16)))
      (Stays-refl e) (same_thunks e _ (write-Within 8 e.heap_cur (rounded size) e.memory) refl)

get_elem?-append :
    (l k : List String) (i : ℕ) (name : String)
    → get_elem? l i ≡ some name
    → get_elem? (l ++ k) i ≡ some name
get_elem?-append [] k i name h = cc
get_elem?-append (x ∷ l) k zero name h = h
get_elem?-append (x ∷ l) k (suc i) name h = get_elem?-append l k i name h

thunk_for-Stays : (name : String) (e : Emu) → Stays e (thunk_for name e).1
unfolding thunk_for
thunk_for-Stays name e =
    by_option (λ (r : ℕ × Emu). Stays e r.1) (find name e.thunk_by_name)
      (record {
        within = Within-refl e.memory;
        kept = λ i known h. get_elem?-append e.thunks (name ∷ []) i known h;
      })
      λ addr. Stays-refl e

pub resolve_import-Stays : (name : String) (e : Emu) → Stays e (resolve_import name e).1
unfolding resolve_import
resolve_import-Stays raw e =
    let name = symbol_name raw in
    let r = heap_alloc 8 e in
    by_option (λ (r : ℕ × Emu). Stays e r.1) (find name host_data) (thunk_for-Stays name e)
      λ v.
        Stays-trans e r.1 _ (heap_alloc-Stays 8 e)
          (same_thunks r.1 _ (write-Within 8 r.0 v r.1.memory) refl)
