-- ===== src/Loader.antt =====
-- src/emu.cpp and src/emu.h: `Emu::load` and `Emu::map_memory`. Messages to the user are left out.
pub mod Format
pub mod Fixups
pub mod Symbols
pub mod Chains
pub mod Stays
pub mod Window
pub mod Mapping
use reversetta.Prelude.{
  ℕ, zero, suc, ◌+◌, ◌-◌, ◌^◌, ◌*◌, List, [], ◌∷◌, ◌++◌, Bool, true, false, Option, none, some, not,
  ◌&&◌, ◌||◌, if◌then◌else◌, ◌==◌, ltb, u64, sub_u64,
}
use reversetta.Layout.{guest_window, guard, heap_off, heap_size}
use reversetta.Memory.{Memory, in_range}
use reversetta.Emu.State.{Emu}
use reversetta.Emu.Host.{bytes_at}
use reversetta.Emu.Run.Start.{store_bytes}
use reversetta.Loader.Format.{File, u32_at, u64_at, be32_at}
use reversetta.Loader.Fixups.{bind_chained_fixups}
use reversetta.Loader.Symbols.{bind_sections}

-- what the host's system answers
pub record System : Type 0 where
  pub mmap : Option ℕ
  pub mprotect_ok : Bool

unfoldable pub map_memory : System → ℕ → Emu → Bool × Emu
map_memory sys image_base e =
    let m = e.memory in
    let c = e.cpu in
    let total = guard + guest_window + guard in
    let based = record e { memory = record m { base = image_base } } in
    elim sys.mmap [
      | none ↦ (false, based)
      | some p ↦
          (let host = u64 (p + guard) in
            let mapped = record based {
              memory = record { mem = λ i. 0; base = image_base; host = host };
              guard_lo = p;
              guard_hi = u64 (p + total);
            } in
            if not sys.mprotect_ok then (false, mapped) else (
              true,
              record mapped {
                cpu = record c { mem_bias = sub_u64 host image_base; guest_base = image_base };
                heap_cur = u64 (image_base + heap_off);
                heap_end = u64 (image_base + heap_off + heap_size);
              },
            ))
    ]

abbrev lc_segment_64 : ℕ
lc_segment_64 = 0x19

abbrev lc_symtab : ℕ
lc_symtab = 0x02

abbrev lc_dysymtab : ℕ
lc_dysymtab = 0x0B

abbrev lc_main : ℕ
lc_main = 0x80000028

abbrev lc_dyld_chained_fixups : ℕ
lc_dyld_chained_fixups = 0x80000034

-- the arm64 slice among n architectures of a fat binary
unfoldable pub find_arch : ℕ → ℕ → File → Option ℕ
find_arch zero at f = none
find_arch (suc n) at f =
    let rest = find_arch n (at + 20) f in
    if be32_at f at == 0x0100000C then some (be32_at f (at + 8)) else rest

unfoldable pub find_slice : File → Option ℕ
unfolding find_arch
find_slice f =
    let magic = u32_at f 0 in
    if magic == 0xCAFEBABE || magic == 0xBEBAFECA then find_arch (be32_at f 4) 8 f else some 0

-- the first pass over n load commands: the lowest address of a segment with content
unfoldable pub image_base_of : ℕ → ℕ → ℕ → File → ℕ
image_base_of zero p base f = base
image_base_of (suc n) p base f =
    let vmaddr = u64_at f (p + 24) in
    let lower = u32_at f p == lc_segment_64 && ltb 0 (u64_at f (p + 48)) && ltb vmaddr base in
    image_base_of n (p + u32_at f (p + 4)) (if lower then vmaddr else base) f

-- the variables of the second pass; a pointer to a load command is its place in the file
pub record Pass : Type 0 where
  pub emu : Emu
  pub symtab : Option ℕ
  pub dysym : Option ℕ
  pub chained : Option ℕ
  pub sections : List ℕ
  pub entry : ℕ

-- `crashed` is a write behind the window, which ends the process.
pub data Loading (A : Type 0) : Type 0 where
  done : A → Loading A
  refused : Emu → Loading A
  crashed : Loading A

-- the places of n sections
unfoldable pub section_places : ℕ → ℕ → List ℕ
section_places zero at = []
section_places (suc n) at = at ∷ section_places n (at + 80)

-- `memcpy` of a segment's content, and the end of the image
unfoldable pub copy_segment : File → ℕ → ℕ → Emu → Emu
unfolding store_bytes
copy_segment f slice p e =
    let m = e.memory in
    let vmaddr = u64_at f (p + 24) in
    let end = u64 (vmaddr + u64_at f (p + 32)) in
    let content = bytes_at (u64_at f (p + 48)) f.byte (u64 (slice + u64_at f (p + 40))) in
    record e {
      memory = record m { mem = store_bytes content (sub_u64 vmaddr m.base) m.mem };
      image_end = if ltb e.image_end end then end else e.image_end;
    }

unfoldable pub load_segment : File → ℕ → ℕ → Pass → Loading Pass
unfolding copy_segment section_places
load_segment f slice p s =
    let m = s.emu.memory in
    let vmaddr = u64_at f (p + 24) in
    let filesize = u64_at f (p + 48) in
    let found = s.sections ++ section_places (u32_at f (p + 64)) (p + 72) in
    if filesize == 0
    then done (record s { sections = found })
    else if not (in_range m vmaddr (u64_at f (p + 32)))
    then refused s.emu
    else if ltb guest_window (sub_u64 vmaddr m.base + filesize)
    then crashed
    else done (record s { emu = copy_segment f slice p s.emu; sections = found })

-- one load command
unfoldable pub load_command : File → ℕ → ℕ → ℕ → Pass → Loading Pass
unfolding load_segment
load_command f slice image_base p s =
    let cmd = u32_at f p in
    if cmd == lc_segment_64
    then load_segment f slice p s
    else if cmd == lc_symtab
    then done (record s { symtab = some p })
    else if cmd == lc_dysymtab
    then done (record s { dysym = some p })
    else if cmd == lc_main
    then done (record s { entry = u64 (image_base + u64_at f (p + 8)) })
    else if cmd == lc_dyld_chained_fixups
    then done (record s { chained = some p })
    else done s

-- the second pass
unfoldable pub load_commands : ℕ → File → ℕ → ℕ → ℕ → Pass → Loading Pass
unfolding load_command
load_commands zero f slice image_base p s = done s
load_commands (suc n) f slice image_base p s = elim (load_command f slice image_base p s) [
  | done s' ↦ load_commands n f slice image_base (p + u32_at f (p + 4)) s'
  | refused e ↦ refused e
  | crashed ↦ crashed
]

-- The fixups, whose result is ignored, and the imports of the sections; `none` is a chain of fixups
-- that has not ended within its fuel.
unfoldable pub bind : File → ℕ → Pass → Option Emu
unfolding bind_chained_fixups bind_sections
bind f slice s =
    let fixed : Option Emu = elim s.chained [
      | none ↦ some s.emu
      | some p ↦ elim (bind_chained_fixups f slice p s.emu) [ none ↦ none | some (ok, e) ↦ some e ]
    ] in
    elim fixed [ none ↦ none | some e ↦ some (bind_sections f slice s.symtab s.dysym s.sections e) ]

unfoldable pub load_image : System → File → ℕ → Emu → Loading (ℕ × Option Emu)
unfolding image_base_of load_commands bind map_memory
load_image sys f slice e =
    let ncmds = u32_at f (slice + 16) in
    let cmds = slice + 32 in
    let image_base = image_base_of ncmds cmds (2 ^ 64 - 1) f in
    let mapped = map_memory sys image_base e in
    let start : Pass = record {
      emu = mapped.1;
      symtab = none;
      dysym = none;
      chained = none;
      sections = [];
      entry = 0;
    } in
    let second = load_commands ncmds f slice image_base cmds start in
    if image_base == 2 ^ 64 - 1
    then refused e
    else if not mapped.0
    then refused mapped.1
    else elim second [
      | refused e' ↦ refused e'
      | crashed ↦ crashed
      | done s ↦ if s.entry == 0 then refused s.emu else done (s.entry, bind f slice s)
    ]

-- The result is the entry point with the state; `refused` is the result false.
unfoldable pub load : System → Option File → Emu → Loading (ℕ × Option Emu)
unfolding find_slice load_image
load sys none e = refused e
load sys (some f) e = elim (find_slice f) [
  | none ↦ refused e
  | some slice ↦
      (let good = u32_at f slice == 0xFEEDFACF && u32_at f (slice + 4) == 0x0100000C in
        if good then load_image sys f slice e else refused e)
]
