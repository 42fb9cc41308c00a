-- ===== src/HostFns/Format/Window.antt =====
-- Where `format_guest` writes (`%n`).
use reversetta.Prelude.{
  by_bool, by_option, by_list, ℕ, zero, suc, ◌+◌, List, [], ◌∷◌, Option, none, some, ◌==◌, u32, u64,
  length, ltb,
}
use reversetta.Memory.{Memory, guest_cstr}
use reversetta.HostFns.Common.{Libc, Value}
use reversetta.HostFns.Format.{
  Format, convert, resize, convert_int, convert_string, conversion, directive, Formatted, formatted,
  throws, round, format_loop, format_guest, int_convs, double_convs, string_arg, next_slot,
  skip_slot,
}
use reversetta.HostFns.Format.Reading.{Spec, is_wide, among, read_spec}
use reversetta.Memory.Window.{Within, Within-refl, Within-trans, write-Within}

-- what holds of a result if it has one
abbrev Keeps : Memory → Option Format → Type 0
Keeps m none = Unit
Keeps m (some s) = Within m s.memory

abbrev WithinOf : Format → Format → Type 0
WithinOf s s' = Within s.memory s'.memory

convert-Within :
    (c : Libc) (spec : List ℕ) (v : Value) (s : Format)
    → Within s.memory (convert c spec v s).memory
unfolding convert
convert-Within c spec v s =
    by_option (WithinOf s) (c.snprintf spec v) (Within-refl s.memory) λ text. Within-refl s.memory

convert_int-Within :
    (c : Libc) (p : Spec) (conv : ℕ) (s : Format) → Within s.memory (convert_int c p conv s).memory
unfolding convert_int
convert_int-Within c p conv s =
    by_bool (WithinOf s) (is_wide p.len) (convert-Within c _ _ (skip_slot s))
      (convert-Within c _ _ (skip_slot s))

resize-Keeps : (c : Libc) (need : ℕ) (s : Format) → Keeps s.memory (resize c need s)
unfolding resize
resize-Keeps c need s =
    by_bool (Keeps s.memory) (ltb s.size need)
      (by_bool (Keeps s.memory) (c.room need) (Within-refl s.memory) tt) (Within-refl s.memory)

then_Keeps :
    {m : Memory} (o : Option Format) (f : Format → Option Format)
    → Keeps m o
    → ((s : Format) → Within m s.memory → Keeps m (f s))
    → Keeps m (elim o [ none ↦ none | some s ↦ f s ])
then_Keeps none f k rest = k
then_Keeps (some s) f k rest = rest s k

convert_string-Keeps :
    (c : Libc) (p : Spec) (need : ℕ) (s : Format) → Keeps s.memory (convert_string c p need s)
unfolding convert_string
convert_string-Keeps c p need s =
    let text = string_arg s.memory (next_slot s) in
    then_Keeps (resize c (u64 (length text + need)) (skip_slot s)) _
      (resize-Keeps c (u64 (length text + need)) (skip_slot s))
      λ s' w. Within-trans s.memory s'.memory _ w (convert-Within c _ _ s')

conversion-Keeps :
    (c : Libc) (p : Spec) (need conv : ℕ) (raw : List ℕ) (s : Format)
    → Keeps s.memory (conversion c p need conv raw s)
unfolding conversion
conversion-Keeps c p need conv raw s =
    by_bool (Keeps s.memory) (among int_convs conv) (convert_int-Within c p conv s) (
      by_bool (Keeps s.memory) (conv == b'c') (convert-Within c _ _ (skip_slot s)) (
        by_bool (Keeps s.memory) (among double_convs conv) (convert-Within c _ _ (skip_slot s)) (
          by_bool (Keeps s.memory) (conv == b's') (convert_string-Keeps c p need s) (
            by_bool (Keeps s.memory) (conv == b'p') (convert-Within c _ _ (skip_slot s)) (
              by_bool (Keeps s.memory) (conv == b'n')
                (write-Within 4 (next_slot s) (u32 (length s.out)) s.memory)
                (Within-refl s.memory))))))

abbrev KeepsRound : Memory → Option (List ℕ × Format) → Type 0
KeepsRound m none = Unit
KeepsRound m (some (l, s)) = Within m s.memory

then_KeepsRound :
    {m : Memory} (o : Option Format) (f : Format → Option (List ℕ × Format))
    → Keeps m o
    → ((s : Format) → Within m s.memory → KeepsRound m (f s))
    → KeepsRound m (elim o [ none ↦ none | some s ↦ f s ])
then_KeepsRound none f k rest = tt
then_KeepsRound (some s) f k rest = rest s k

Keeps-trans : {m k : Memory} (o : Option Format) → Within m k → Keeps k o → Keeps m o
Keeps-trans none w r = tt
Keeps-trans {m} {k} (some s) w r = Within-trans m k s.memory w r

directive-KeepsRound : (c : Libc) (f : List ℕ) (s : Format) → KeepsRound s.memory (directive c f s)
unfolding directive
directive-KeepsRound c f s =
    let p = read_spec s.memory f s.va in
    let need = u64 (p.width + p.prec + 64) in
    let s1 = record s { va = p.va } in
    by_list (KeepsRound s.memory) p.rest (Within-refl s.memory) λ conv l.
      then_KeepsRound (resize c need s1) _ (resize-Keeps c need s1) λ s2 w.
        then_KeepsRound (conversion c p need conv _ s2) _
          (Keeps-trans (conversion c p need conv _ s2) w (conversion-Keeps c p need conv _ s2))
          λ s3 w3. w3

round-KeepsRound :
    (c : Libc) (b : ℕ) (f : List ℕ) (s : Format) → KeepsRound s.memory (round c b f s)
unfolding round
round-KeepsRound c b f s =
    by_bool (KeepsRound s.memory) (b == b'%')
      (by_list (KeepsRound s.memory) f (directive-KeepsRound c [] s) λ d l.
        by_bool (KeepsRound s.memory) (d == b'%') (Within-refl s.memory)
          (directive-KeepsRound c (d ∷ l) s))
      (Within-refl s.memory)

abbrev KeepsFormatted : Memory → Option Formatted → Type 0
KeepsFormatted m none = Unit
KeepsFormatted m (some throws) = Unit
KeepsFormatted m (some (formatted s)) = Within m s.memory

KeepsFormatted-trans :
    {m k : Memory} (o : Option Formatted) → Within m k → KeepsFormatted k o → KeepsFormatted m o
KeepsFormatted-trans none w r = tt
KeepsFormatted-trans (some throws) w r = tt
KeepsFormatted-trans {m} {k} (some (formatted s)) w r = Within-trans m k s.memory w r

then_Formatted :
    (m : Memory) (o : Option (List ℕ × Format)) (f : List ℕ → Format → Option Formatted)
    → KeepsRound m o
    → ((l : List ℕ) (s : Format) → KeepsFormatted s.memory (f l s))
    → KeepsFormatted m (elim o [ none ↦ some throws | some (l, s) ↦ f l s ])
then_Formatted m none f k rest = tt
then_Formatted m (some (l, s)) f k rest = KeepsFormatted-trans (f l s) k (rest l s)

format_loop-KeepsFormatted :
    (fuel : ℕ) (c : Libc) (f : List ℕ) (s : Format)
    → KeepsFormatted s.memory (format_loop fuel c f s)
unfolding format_loop
format_loop-KeepsFormatted zero c f s = tt
format_loop-KeepsFormatted (suc fuel) c [] s = Within-refl s.memory
format_loop-KeepsFormatted (suc fuel) c (b ∷ f) s =
    then_Formatted s.memory (round c b f s) (format_loop fuel c) (round-KeepsRound c b f s)
      (format_loop-KeepsFormatted fuel c)

abbrev pub KeepsText : Memory → Option (List ℕ × Memory) → Type 0
KeepsText m none = Unit
KeepsText m (some (l, k)) = Within m k

then_Text :
    (m : Memory) (o : Option Formatted)
    → KeepsFormatted m o
    → KeepsText m
        (elim o [ none ↦ none | some throws ↦ none | some (formatted s) ↦ some (s.out, s.memory) ])
then_Text m none k = tt
then_Text m (some throws) k = tt
then_Text m (some (formatted s)) k = k

pub format_guest-KeepsText :
    (c : Libc) (fmt va : ℕ) (m : Memory) → KeepsText m (format_guest c fmt va m)
unfolding format_guest
format_guest-KeepsText c fmt va m = by_option (KeepsText m) (guest_cstr m fmt) (Within-refl m) λ f.
    then_Text m _ (
      format_loop-KeepsFormatted (length f + 1) c f
        (record { memory = m; out = []; va = va; size = 256 }))
