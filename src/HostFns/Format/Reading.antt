-- ===== src/HostFns/Format/Reading.antt =====
-- src/host-fns.cpp: the part of `format_guest` that reads one conversion: flags, width, precision,
-- length modifier and the conversion's letter. A `long` is a 64-bit pattern.
use reversetta.Prelude.{
  ℕ, zero, suc, ◌+◌, ◌-◌, ◌*◌, ◌/◌, ◌%◌, ◌^◌, List, [], ◌∷◌, ◌++◌, Bool, true, false, ◌&&◌,
  if◌then◌else◌, ◌==◌, leb, u32, u64,
}
use reversetta.Memory.{Memory, read}

-- a byte in a string, as `strchr` finds it
unfoldable pub among : List ℕ → ℕ → Bool
among [] c = false
among (b ∷ l) c = let rest = among l c in if b == c then true else rest

-- "-+ #0'"
abbrev pub flag_chars : List ℕ
flag_chars = b'-' ∷ b'+' ∷ b' ' ∷ b'#' ∷ b'0' ∷ 39 ∷ []

-- "hljztLq"
abbrev pub length_chars : List ℕ
length_chars = b'h' ∷ b'l' ∷ b'j' ∷ b'z' ∷ b't' ∷ b'L' ∷ b'q' ∷ []

abbrev pub isdigit : ℕ → Bool
isdigit c = leb b'0' c && leb c b'9'

-- the longest prefix of bytes that pass a test, and the rest
unfoldable pub span : (ℕ → Bool) → List ℕ → List ℕ × List ℕ
span test [] = ([], [])
span test (c ∷ l) = let r = span test l in if test c then (c ∷ r.0, r.1) else ([], c ∷ l)

-- `n = n * 10 + (c - '0')` over the digits
unfoldable pub number : List ℕ → ℕ → ℕ
number [] n = n
number (c ∷ l) n = number l (u64 (n * 10 + (c - b'0')))

-- `std::to_string` of a signed number
unfoldable pub digits : ℕ → ℕ → List ℕ → List ℕ
digits zero n l = l
digits (suc fuel) n l = elim (n / 10) [
  | zero ↦ (b'0' + n % 10) ∷ l
  | suc m ↦ digits fuel (suc m) ((b'0' + n % 10) ∷ l)
]

unfoldable pub to_string : ℕ → List ℕ
unfolding digits
to_string n = if leb (2 ^ 63) n then b'-' ∷ digits 20 (2 ^ 64 - n) [] else digits 20 n []

-- `(int32_t)(uint32_t)` of a slot, as a `long`
unfoldable pub sext_int : ℕ → ℕ
sext_int v = if leb (2 ^ 31) (u32 v) then 2 ^ 64 - 2 ^ 32 + u32 v else u32 v

-- A width or a precision: its text, its value, the rest of the format, and the next slot.
pub record Count : Type 0 where
  pub text : List ℕ
  pub value : ℕ
  pub rest : List ℕ
  pub va : ℕ

abbrev pub count_digits : List ℕ → ℕ → Count
count_digits f va =
    let r = span isdigit f in record { text = r.0; value = number r.0 0; rest = r.1; va = va }

unfoldable pub count : Memory → List ℕ → ℕ → Count
unfolding span number sext_int to_string
count m [] va = record { text = []; value = 0; rest = []; va = va }
count m (c ∷ l) va =
    let v = sext_int (read 8 m va) in
    if c == b'*'
    then record { text = to_string v; value = v; rest = l; va = u64 (va + 8) }
    else count_digits (c ∷ l) va

-- the precision, with its point
unfoldable pub precision : Memory → List ℕ → ℕ → Count
unfolding count
precision m [] va = record { text = []; value = 0; rest = []; va = va }
precision m (c ∷ l) va =
    let r = count m l va in
    if c == b'.'
    then record r { text = b'.' ∷ r.text }
    else record { text = []; value = 0; rest = c ∷ l; va = va }

-- what has been read up to the conversion's letter
pub record Spec : Type 0 where
  pub spec : List ℕ
  pub width : ℕ
  pub prec : ℕ
  pub len : List ℕ
  pub rest : List ℕ
  pub va : ℕ

-- `f` is the format behind the percent sign.
unfoldable pub read_spec : Memory → List ℕ → ℕ → Spec
unfolding span precision
read_spec m f va =
    let flags = span (among flag_chars) f in
    let w = count m flags.1 va in
    let p = precision m w.rest w.va in
    let l = span (among length_chars) p.rest in
    record {
      spec = b'%' ∷ flags.0 ++ w.text ++ p.text;
      width = w.value;
      prec = p.value;
      len = l.0;
      rest = l.1;
      va = p.va;
    }

-- `len` is one of l, ll, j, z, t, q and L.
unfoldable pub is_wide : List ℕ → Bool
is_wide [] = false
is_wide (c ∷ []) = among (b'l' ∷ b'j' ∷ b'z' ∷ b't' ∷ b'q' ∷ b'L' ∷ []) c
is_wide (c ∷ d ∷ []) = c == b'l' && d == b'l'
is_wide (c ∷ d ∷ b ∷ l) = false
