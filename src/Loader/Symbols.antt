-- ===== src/Loader/Symbols.antt =====
-- src/emu.cpp: the last part of `Emu::load`, the symbol pointers of the sections.
use reversetta.Prelude.{
  ℕ, zero, suc, ◌+◌, ◌*◌, ◌/◌, ◌%◌, ◌^◌, List, [], ◌∷◌, Option, none, some, if◌then◌else◌, ◌==◌,
  ◌||◌, leb, u64,
}
use reversetta.Memory.{write}
use reversetta.Emu.State.{Emu}
use reversetta.Emu.Imports.{resolve_import}
use reversetta.Loader.Format.{File, u32_at, u64_at, name_at}

-- `write<uint64_t>(addr, resolve_import(name))`
unfoldable pub bind_pointer : File → ℕ → ℕ → Emu → Emu
unfolding name_at
bind_pointer f name addr e =
    let r = resolve_import (name_at f name) e in
    let e' = r.1 in record e' { memory = write 8 e'.memory addr r.0 }

-- the pointers of one section, from number k on; `symtab` and `dysym` are the load commands' places
unfoldable pub bind_pointers : ℕ → ℕ → File → ℕ → ℕ → ℕ → ℕ → Emu → Emu
unfolding bind_pointer
bind_pointers zero k f slice symtab dysym section e = e
bind_pointers (suc n) k f slice symtab dysym section e =
    let at = slice + u32_at f (dysym + 56) + 4 * (u32_at f (section + 68) + k) in
    let idx = u32_at f at in
    let name =
      slice + u32_at f (symtab + 16) + u32_at f (slice + u32_at f (symtab + 8) + 16 * idx) in
    let skipped = leb (2 ^ 30) idx || leb (u32_at f (symtab + 12)) idx in
    let bound = bind_pointer f name (u64 (u64_at f (section + 32) + k * 8)) e in
    bind_pointers n (k + 1) f slice symtab dysym section (if skipped then e else bound)

unfoldable pub bind_section : File → ℕ → ℕ → ℕ → ℕ → Emu → Emu
unfolding bind_pointers
bind_section f slice symtab dysym section e =
    let type = u32_at f (section + 64) % 256 in
    let count = u64_at f (section + 40) / 8 in
    if type == 6 || type == 7 then bind_pointers count 0 f slice symtab dysym section e else e

unfoldable pub bind_each : List ℕ → File → ℕ → ℕ → ℕ → Emu → Emu
unfolding bind_section
bind_each [] f slice symtab dysym e = e
bind_each (s ∷ l) f slice symtab dysym e =
    bind_each l f slice symtab dysym (bind_section f slice symtab dysym s e)

-- nothing without both tables, or without indirect symbols
unfoldable pub bind_sections : File → ℕ → Option ℕ → Option ℕ → List ℕ → Emu → Emu
unfolding bind_each
bind_sections f slice none dysym l e = e
bind_sections f slice (some symtab) none l e = e
bind_sections f slice (some symtab) (some dysym) l e =
    if u32_at f (dysym + 60) == 0 then e else bind_each l f slice symtab dysym e
