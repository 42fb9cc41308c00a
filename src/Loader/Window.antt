-- ===== src/Loader/Window.antt =====
-- Where the loader's fixups and imports write.
use reversetta.Prelude.{
  refl, ℕ, zero, suc, ◌+◌, ◌*◌, ◌/◌, ◌%◌, ◌^◌, List, [], ◌∷◌, Bool, true, Option, none, some,
  by_bool, by_elim, by_option, ◌==◌, ◌||◌, ◌&&◌, not, ltb, leb, u32, u64, sub_u64, if◌then◌else◌,
}
use reversetta.Memory.{Memory, read}
use reversetta.Memory.Window.{Within, Within-refl, Within-trans, write-Within}
use reversetta.Emu.State.{Emu}
use reversetta.Emu.Imports.{resolve_import}
use reversetta.Loader.Stays.{Stays, Stays-refl, Stays-trans, same_thunks, resolve_import-Stays}
use reversetta.Loader.{Pass, bind}
use reversetta.Loader.Format.{File, u16_at, u32_at, u64_at, name_at}
use reversetta.Loader.Fixups.{
  fixed_value, fix_pointer, fix_chain, chain_fuel, fix_pages, fix_segments, import_values,
  bind_chained_fixups,
}
use reversetta.Loader.Symbols.{bind_pointer, bind_pointers, bind_section, bind_each, bind_sections}

pub fix_pointer-Within :
    (values : List ℕ) (form : Bool) (addr : ℕ) (m : Memory)
    → Within m (fix_pointer values form addr m)
unfolding fix_pointer
fix_pointer-Within values form addr m =
    by_option (Within m) (fixed_value values form m.base (read 8 m addr)) (Within-refl m)
      λ v. write-Within 8 addr v m

-- what holds of a result if there is one
abbrev pub Keeps : Memory → Option Memory → Type 0
Keeps m none = Unit
Keeps m (some k) = Within m k

Keeps-trans : {m k : Memory} (o : Option Memory) → Within m k → Keeps k o → Keeps m o
Keeps-trans none w r = tt
Keeps-trans {m} {k} (some l) w r = Within-trans m k l w r

then_Keeps :
    (m : Memory) (o : Option Memory) (f : Memory → Option Memory)
    → Keeps m o
    → ((k : Memory) → Keeps k (f k))
    → Keeps m (elim o [ none ↦ none | some k ↦ f k ])
then_Keeps m none f c k = tt
then_Keeps m (some l) f c k = Keeps-trans (f l) c (k l)

pub fix_chain-Keeps :
    (fuel : ℕ) (values : List ℕ) (form : Bool) (addr : ℕ) (m : Memory)
    → Keeps m (fix_chain fuel values form addr m)
unfolding fix_chain
fix_chain-Keeps zero values form addr m = tt
fix_chain-Keeps (suc fuel) values form addr m =
    let next = read 8 m addr / 2 ^ 51 % 2 ^ 12 in
    let here = fix_pointer-Within values form addr m in
    by_elim (Keeps m) (next == 0) here
      (Keeps-trans _ here (fix_chain-Keeps fuel values form (u64 (addr + next * 4)) _))

pub fix_pages-Keeps :
    (n pg : ℕ) (f : File) (seg : ℕ) (values : List ℕ) (m : Memory)
    → Keeps m (fix_pages n pg f seg values m)
unfolding fix_pages
fix_pages-Keeps zero pg f seg values m = Within-refl m
fix_pages-Keeps (suc n) pg f seg values m =
    by_elim (Keeps m) (u16_at f (seg + 22 + 2 * pg) == 0xFFFF)
      (fix_pages-Keeps n (pg + 1) f seg values m)
      (then_Keeps m _ _ (fix_chain-Keeps chain_fuel values _ _ m)
        (fix_pages-Keeps n (pg + 1) f seg values))

pub fix_segments-Keeps :
    (n s : ℕ) (f : File) (starts : ℕ) (values : List ℕ) (m : Memory)
    → Keeps m (fix_segments n s f starts values m)
unfolding fix_segments
fix_segments-Keeps zero s f starts values m = Within-refl m
fix_segments-Keeps (suc n) s f starts values m =
    let off = u32_at f (starts + 4 + 4 * s) in
    let seg = starts + off in
    let format = u16_at f (seg + 6) in
    let pages = u16_at f (seg + 20) in
    let rest = fix_segments-Keeps n (s + 1) f starts values in
    by_elim (Keeps m) (off == 0 || not (format == 2 || format == 6)) (rest m) (
      then_Keeps m (fix_pages pages 0 f seg values m) _ (fix_pages-Keeps pages 0 f seg values m)
        rest)

pub import_values-Stays :
    (n at stride symbols : ℕ) (f : File) (e : Emu)
    → Stays e (import_values n at stride symbols f e).1
unfolding import_values
import_values-Stays zero at stride symbols f e = Stays-refl e
import_values-Stays (suc n) at stride symbols f e =
    let name = name_at f (symbols + u32_at f at / 2 ^ 9) in
    let e' = (resolve_import name e).1 in
    Stays-trans e e' _ (resolve_import-Stays name e)
      (import_values-Stays n (at + stride) stride symbols f e')

abbrev StaysFixed : Emu → Option (Bool × Emu) → Type 0
StaysFixed e none = Unit
StaysFixed e (some (ok, e')) = Stays e e'

fixed-Stays :
    (e e' : Emu) (o : Option Memory)
    → Stays e e'
    → Keeps e'.memory o
    → StaysFixed e (elim o [ none ↦ none | some m ↦ some (true, record e' { memory = m }) ])
fixed-Stays e e' none w k = tt
fixed-Stays e e' (some m) w k = Stays-trans e e' _ w (same_thunks e' _ k refl)

pub bind_chained_fixups-StaysFixed :
    (f : File) (slice lc : ℕ) (e : Emu) → StaysFixed e (bind_chained_fixups f slice lc e)
unfolding bind_chained_fixups
bind_chained_fixups-StaysFixed f slice lc e =
    let blob = slice + u32_at f (lc + 8) in
    let starts = blob + u32_at f (blob + 4) in
    let count = u32_at f (blob + 16) in
    let format = u32_at f (blob + 20) in
    let imports = blob + u32_at f (blob + 8) in
    let symbols = blob + u32_at f (blob + 12) in
    let stride = if format == 1 then 4 else 8 in
    let r = import_values count imports stride symbols f e in
    by_bool (StaysFixed e)
      (ltb (sub_u64 f.size slice) (u32 (u32_at f (lc + 8) + u32_at f (lc + 12)))) (Stays-refl e)
      (by_bool (StaysFixed e) (not (count == 0) && not (format == 1 || format == 2)) (Stays-refl e)
        (fixed-Stays e r.1 _ (import_values-Stays count imports stride symbols f e)
          (fix_segments-Keeps (u32_at f starts) 0 f starts r.0 r.1.memory)))

bind_pointer-Stays : (f : File) (name addr : ℕ) (e : Emu) → Stays e (bind_pointer f name addr e)
unfolding bind_pointer
bind_pointer-Stays f name addr e =
    let r = resolve_import (name_at f name) e in
    Stays-trans e r.1 _ (resolve_import-Stays (name_at f name) e)
      (same_thunks r.1 _ (write-Within 8 addr r.0 r.1.memory) refl)

bind_pointers-Stays :
    (n k : ℕ) (f : File) (slice symtab dysym section : ℕ) (e : Emu)
    → Stays e (bind_pointers n k f slice symtab dysym section e)
unfolding bind_pointers
bind_pointers-Stays zero k f slice symtab dysym section e = Stays-refl e
bind_pointers-Stays (suc n) k f slice symtab dysym section e =
    let at = slice + u32_at f (dysym + 56) + 4 * (u32_at f (section + 68) + k) in
    let idx = u32_at f at in
    let skipped = leb (2 ^ 30) idx || leb (u32_at f (symtab + 12)) idx in
    Stays-trans e _ _ (by_bool (Stays e) skipped (Stays-refl e) (bind_pointer-Stays f _ _ e))
      (bind_pointers-Stays n (k + 1) f slice symtab dysym section _)

bind_section-Stays :
    (f : File) (slice symtab dysym section : ℕ) (e : Emu)
    → Stays e (bind_section f slice symtab dysym section e)
unfolding bind_section
bind_section-Stays f slice symtab dysym section e =
    let type = u32_at f (section + 64) % 256 in
    let count = u64_at f (section + 40) / 8 in
    by_bool (Stays e) (type == 6 || type == 7)
      (bind_pointers-Stays count 0 f slice symtab dysym section e) (Stays-refl e)

bind_each-Stays :
    (l : List ℕ) (f : File) (slice symtab dysym : ℕ) (e : Emu)
    → Stays e (bind_each l f slice symtab dysym e)
unfolding bind_each
bind_each-Stays [] f slice symtab dysym e = Stays-refl e
bind_each-Stays (s ∷ l) f slice symtab dysym e =
    let d = bind_section f slice symtab dysym s e in
    Stays-trans e d _ (bind_section-Stays f slice symtab dysym s e)
      (bind_each-Stays l f slice symtab dysym d)

bind_sections-Stays :
    (f : File) (slice : ℕ) (symtab dysym : Option ℕ) (l : List ℕ) (e : Emu)
    → Stays e (bind_sections f slice symtab dysym l e)
unfolding bind_sections
bind_sections-Stays f slice none dysym l e = Stays-refl e
bind_sections-Stays f slice (some symtab) none l e = Stays-refl e
bind_sections-Stays f slice (some symtab) (some dysym) l e =
    by_bool (Stays e) (u32_at f (dysym + 60) == 0) (Stays-refl e)
      (bind_each-Stays l f slice symtab dysym e)

abbrev pub StaysBound : Emu → Option Emu → Type 0
StaysBound e none = Unit
StaysBound e (some e') = Stays e e'

fixed-StaysBound :
    (e : Emu) (o : Option (Bool × Emu))
    → StaysFixed e o
    → StaysBound e (elim o [ none ↦ none | some (ok, e') ↦ some e' ])
fixed-StaysBound e none w = tt
fixed-StaysBound e (some (ok, e')) w = w

sections-StaysBound :
    (e : Emu) (f : File) (slice : ℕ) (symtab dysym : Option ℕ) (l : List ℕ) (o : Option Emu)
    → StaysBound e o
    → StaysBound e
        (elim o [ none ↦ none | some e' ↦ some (bind_sections f slice symtab dysym l e') ])
sections-StaysBound e f slice symtab dysym l none w = tt
sections-StaysBound e f slice symtab dysym l (some e') w =
    Stays-trans e e' _ w (bind_sections-Stays f slice symtab dysym l e')

-- Whatever the file says, binding its fixups and the symbols of its sections leaves the place of the
-- guest's window and the memory outside it as they were, and each thunk at its place.
pub bind-StaysBound : (f : File) (slice : ℕ) (s : Pass) → StaysBound s.emu (bind f slice s)
unfolding bind
bind-StaysBound f slice s = sections-StaysBound s.emu f slice s.symtab s.dysym s.sections _ (
    by_option (StaysBound s.emu) s.chained (Stays-refl s.emu)
      λ p. fixed-StaysBound s.emu _ (bind_chained_fixups-StaysFixed f slice p s.emu))
