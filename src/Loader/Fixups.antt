-- ===== src/Loader/Fixups.antt =====
-- src/emu.cpp: `Emu::bind_chained_fixups`.
use reversetta.Prelude.{
  ℕ, zero, suc, ◌+◌, ◌*◌, ◌/◌, ◌%◌, ◌^◌, List, [], ◌∷◌, Bool, true, false, Option, none, some,
  if◌then◌else◌, ◌==◌, ◌||◌, ◌&&◌, not, ltb, get_elem?, u32, u64, sub_u64,
}
use reversetta.Layout.{guest_window}
use reversetta.Memory.{Memory, read, write}
use reversetta.Emu.State.{Emu}
use reversetta.Emu.Imports.{resolve_import}
use reversetta.Loader.Format.{File, u16_at, u32_at, u64_at, name_at}

-- the values of n imports, whose entries are `stride` bytes apart
unfoldable pub import_values : ℕ → ℕ → ℕ → ℕ → File → Emu → List ℕ × Emu
unfolding name_at
import_values zero at stride symbols f e = ([], e)
import_values (suc n) at stride symbols f e =
    let r = resolve_import (name_at f (symbols + u32_at f at / 2 ^ 9)) e in
    let rest = import_values n (at + stride) stride symbols f r.1 in (r.0 ∷ rest.0, rest.1)

-- what is stored for a pointer of the chain, `none` for an ordinal without an import
unfoldable pub fixed_value : List ℕ → Bool → ℕ → ℕ → Option ℕ
fixed_value values offset_form base raw =
    let target = raw % 2 ^ 36 in
    let high8 = raw / 2 ^ 36 % 2 ^ 8 in
    if raw / 2 ^ 63 % 2 == 1
    then get_elem? values (raw % 2 ^ 24)
    else some (if offset_form then u64 (base + target) else target + high8 * 2 ^ 56)

unfoldable pub fix_pointer : List ℕ → Bool → ℕ → Memory → Memory
unfolding fixed_value
fix_pointer values offset_form addr m =
    elim (fixed_value values offset_form m.base (read 8 m addr)) [
      | none ↦ m
      | some v ↦ write 8 m addr v
    ]

-- `while (true)` over a chain; `none` is a chain that has not ended within the fuel.
unfoldable pub fix_chain : ℕ → List ℕ → Bool → ℕ → Memory → Option Memory
unfolding fix_pointer
fix_chain zero values offset_form addr m = none
fix_chain (suc fuel) values offset_form addr m =
    let next = read 8 m addr / 2 ^ 51 % 2 ^ 12 in
    let m' = fix_pointer values offset_form addr m in
    elim (next == 0) [
      | true ↦ some m'
      | false ↦ fix_chain fuel values offset_form (u64 (addr + next * 4)) m'
    ]

-- a chain moves by four bytes at least, and ends outside the window
abbrev pub chain_fuel : ℕ
chain_fuel = guest_window / 4 + 2

-- the chains of n pages, from page pg on, of the segment's starts at `seg`
unfoldable pub fix_pages : ℕ → ℕ → File → ℕ → List ℕ → Memory → Option Memory
unfolding fix_chain
fix_pages zero pg f seg values m = some m
fix_pages (suc n) pg f seg values m =
    let start = u16_at f (seg + 22 + 2 * pg) in
    let addr = u64 (m.base + u64_at f (seg + 8) + pg * u16_at f (seg + 4) + start) in
    let offset_form = u16_at f (seg + 6) == 6 in
    elim (start == 0xFFFF) [
      | true ↦ fix_pages n (pg + 1) f seg values m
      | false ↦ elim (fix_chain chain_fuel values offset_form addr m) [
        | none ↦ none
        | some m' ↦ fix_pages n (pg + 1) f seg values m'
      ]
    ]

-- n segments, from number s on; `starts` is the place of the table of their starts
unfoldable pub fix_segments : ℕ → ℕ → File → ℕ → List ℕ → Memory → Option Memory
unfolding fix_pages
fix_segments zero s f starts values m = some m
fix_segments (suc n) s f starts values m =
    let off = u32_at f (starts + 4 + 4 * s) in
    let seg = starts + off in
    let format = u16_at f (seg + 6) in
    elim (off == 0 || not (format == 2 || format == 6)) [
      | true ↦ fix_segments n (s + 1) f starts values m
      | false ↦ elim (fix_pages (u16_at f (seg + 20)) 0 f seg values m) [
        | none ↦ none
        | some m' ↦ fix_segments n (s + 1) f starts values m'
      ]
    ]

-- `lc` is the place of the load command, and `slice` that of the file's data.
unfoldable pub bind_chained_fixups : File → ℕ → ℕ → Emu → Option (Bool × Emu)
unfolding import_values fix_segments
bind_chained_fixups f slice lc e =
    let dataoff = u32_at f (lc + 8) in
    let blob = slice + dataoff in
    let starts = blob + u32_at f (blob + 4) in
    let count = u32_at f (blob + 16) in
    let format = u32_at f (blob + 20) in
    let imports = blob + u32_at f (blob + 8) in
    let symbols = blob + u32_at f (blob + 12) in
    let values = import_values count imports (if format == 1 then 4 else 8) symbols f e in
    let e' = values.1 in
    if ltb (sub_u64 f.size slice) (u32 (dataoff + u32_at f (lc + 12)))
    then some (false, e)
    else if not (count == 0) && not (format == 1 || format == 2)
    then some (false, e)
    else elim (fix_segments (u32_at f starts) 0 f starts values.0 e'.memory) [
      | none ↦ none
      | some m ↦ some (true, record e' { memory = m })
    ]
