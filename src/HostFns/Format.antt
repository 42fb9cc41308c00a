-- ===== src/HostFns/Format.antt =====
-- src/host-fns.cpp: `format_guest`. The format is read once, at the start of the call; a string
-- argument is read at its conversion.
pub mod Reading
pub mod Window
pub mod Ends
pub mod Plain
use reversetta.Prelude.{
  ℕ, zero, suc, ◌+◌, ◌-◌, ◌*◌, List, [], ◌∷◌, ◌++◌, Bool, true, false, Option, none, some, ◌&&◌,
  ◌||◌, if◌then◌else◌, ◌==◌, ltb, length, u32, u64,
}
use reversetta.Memory.{Memory, read, write, guest_cstr}
use reversetta.HostFns.Common.{Libc, Value, int_value, long_value, double_value, text_value}
use reversetta.HostFns.Format.Reading.{Spec, read_spec, is_wide, among}

-- the loop's variables, and the guest's memory
pub record Format : Type 0 where
  pub memory : Memory
  pub out : List ℕ
  pub va : ℕ
  pub size : ℕ  -- `buf.size()`

unfoldable pub take : ℕ → List ℕ → List ℕ
take zero l = []
take (suc n) [] = []
take (suc n) (b ∷ l) = b ∷ take n l

abbrev append : List ℕ → Format → Format
append l s = record s { out = s.out ++ l }

-- `out.append(buf.data(), n)` behind `snprintf(buf.data(), buf.size(), ...)` with a text of n bytes
unfoldable pub from_buffer : Libc → ℕ → List ℕ → List ℕ
unfolding take
from_buffer c size text =
    if ltb (length text) size
    then text
    else take (size - 1) text ++ 0 ∷ c.behind (length text - size)

unfoldable pub convert : Libc → List ℕ → Value → Format → Format
unfolding from_buffer
convert c spec v s = elim (c.snprintf spec v) [
  | none ↦ s
  | some text ↦ append (from_buffer c s.size text) s
]

-- `if (buf.size() < need) buf.resize(need)`; `none` is the exception.
unfoldable pub resize : Libc → ℕ → Format → Option Format
resize c need s =
    if ltb s.size need
    then if c.room need then some (record s { size = need }) else none
    else some s

abbrev next_slot : Format → ℕ
next_slot s = read 8 s.memory s.va

abbrev skip_slot : Format → Format
skip_slot s = record s { va = u64 (s.va + 8) }

unfoldable pub convert_int : Libc → Spec → ℕ → Format → Format
unfolding convert is_wide
convert_int c p conv s =
    let raw = next_slot s in
    if is_wide p.len
    then convert c (p.spec ++ b'l' ∷ b'l' ∷ conv ∷ []) (long_value raw) (skip_slot s)
    else convert c (p.spec ++ p.len ++ conv ∷ []) (int_value (u32 raw)) (skip_slot s)

-- "(null)" and "<reversetta: bad pointer>"
abbrev null_text : List ℕ
null_text = b'(' ∷ b'n' ∷ b'u' ∷ b'l' ∷ b'l' ∷ b')' ∷ []

abbrev bad_text : List ℕ
bad_text =
    b'<' ∷ b'r' ∷ b'e' ∷ b'v' ∷ b'e' ∷ b'r' ∷ b's' ∷ b'e' ∷ b't' ∷ b't' ∷ b'a' ∷ b':' ∷ b' ' ∷ b'b'
    ∷ b'a' ∷ b'd' ∷ b' ' ∷ b'p' ∷ b'o' ∷ b'i' ∷ b'n' ∷ b't' ∷ b'e' ∷ b'r' ∷ b'>' ∷ []

unfoldable pub string_arg : Memory → ℕ → List ℕ
string_arg m gp =
    let found = guest_cstr m gp in
    if gp == 0 then null_text else elim found [ none ↦ bad_text | some s ↦ s ]

unfoldable pub convert_string : Libc → Spec → ℕ → Format → Option Format
unfolding convert string_arg resize
convert_string c p need s =
    let text = string_arg s.memory (next_slot s) in
    elim (resize c (u64 (length text + need)) (skip_slot s)) [
      | none ↦ none
      | some s' ↦ some (convert c (p.spec ++ b's' ∷ []) (text_value text) s')
    ]

-- "0x%llx"
abbrev pointer_spec : List ℕ
pointer_spec = b'0' ∷ b'x' ∷ b'%' ∷ b'l' ∷ b'l' ∷ b'x' ∷ []

-- "diuoxX" and "fFeEgGaA"
abbrev int_convs : List ℕ
int_convs = b'd' ∷ b'i' ∷ b'u' ∷ b'o' ∷ b'x' ∷ b'X' ∷ []

abbrev double_convs : List ℕ
double_convs = b'f' ∷ b'F' ∷ b'e' ∷ b'E' ∷ b'g' ∷ b'G' ∷ b'a' ∷ b'A' ∷ []

-- the conversion of letter `conv`; `raw_text` is its text in the format
unfoldable pub conversion : Libc → Spec → ℕ → ℕ → List ℕ → Format → Option Format
unfolding convert_int convert_string convert among
conversion c p need conv raw_text s =
    if among int_convs conv
    then some (convert_int c p conv s)
    else if conv == b'c'
    then some (convert c (p.spec ++ b'c' ∷ []) (int_value (u32 (next_slot s))) (skip_slot s))
    else if among double_convs conv
    then some (convert c (p.spec ++ conv ∷ []) (double_value (next_slot s)) (skip_slot s))
    else if conv == b's'
    then convert_string c p need s
    else if conv == b'p'
    then some (convert c pointer_spec (long_value (next_slot s)) (skip_slot s))
    else if conv == b'n'
    then some
        (record (skip_slot s) { memory = write 4 s.memory (next_slot s) (u32 (length s.out)) })
    else some (append raw_text s)

-- One round for a percent sign with `f` behind it: the rest of the format, and the state; the
-- rest is `[]` where the format ends within the conversion.
unfoldable pub directive : Libc → List ℕ → Format → Option (List ℕ × Format)
unfolding conversion read_spec resize take
directive c f s =
    let p = read_spec s.memory f s.va in
    let text = λ (l : List ℕ). b'%' ∷ take (length f - length l) f in
    let need = u64 (p.width + p.prec + 64) in
    let s1 = record s { va = p.va } in
    elim p.rest [
      | [] ↦ some ([], append (b'%' ∷ f) s1)
      | conv ∷ l ↦ elim (resize c need s1) [
        | none ↦ none
        | some s2 ↦ elim (conversion c p need conv (text l) s2) [
          | none ↦ none
          | some s3 ↦ some (l, s3)
        ]
      ]
    ]

-- the end of the loop, or the exception of a `resize`
pub data Formatted : Type 0 where
  formatted : Format → Formatted
  throws : Formatted

-- one round of the loop
unfoldable pub round : Libc → ℕ → List ℕ → Format → Option (List ℕ × Format)
unfolding directive
round c b f s =
    if b == b'%'
    then elim f [
      | [] ↦ directive c [] s
      | d ∷ l ↦ if d == b'%' then some (l, append (b'%' ∷ []) s) else directive c (d ∷ l) s
    ]
    else some (f, append (b ∷ []) s)

-- the loop; `none` is a loop that has not ended within the fuel.
unfoldable pub format_loop : ℕ → Libc → List ℕ → Format → Option Formatted
unfolding round
format_loop zero c f s = none
format_loop (suc fuel) c [] s = some (formatted s)
format_loop (suc fuel) c (b ∷ f) s = elim (round c b f s) [
  | none ↦ some throws
  | some (l, s') ↦ format_loop fuel c l s'
]

-- "<reversetta: bad format pointer>"
abbrev bad_format : List ℕ
bad_format =
    b'<' ∷ b'r' ∷ b'e' ∷ b'v' ∷ b'e' ∷ b'r' ∷ b's' ∷ b'e' ∷ b't' ∷ b't' ∷ b'a' ∷ b':' ∷ b' ' ∷ b'b'
    ∷ b'a' ∷ b'd' ∷ b' ' ∷ b'f' ∷ b'o' ∷ b'r' ∷ b'm' ∷ b'a' ∷ b't' ∷ b' ' ∷ b'p' ∷ b'o' ∷ b'i'
    ∷ b'n' ∷ b't' ∷ b'e' ∷ b'r' ∷ b'>' ∷ []

-- the text and the memory, `none` for an exception
unfoldable pub format_guest : Libc → ℕ → ℕ → Memory → Option (List ℕ × Memory)
unfolding format_loop
format_guest c fmt_addr va m = elim (guest_cstr m fmt_addr) [
  | none ↦ some (bad_format, m)
  | some f ↦
      elim (format_loop (length f + 1) c f (record { memory = m; out = []; va = va; size = 256 })) [
        | none ↦ none
        | some throws ↦ none
        | some (formatted s) ↦ some (s.out, s.memory)
      ]
]
