-- ===== src/Loader/Chains.antt =====
-- The end of the chains of fixups.
use mathlib.Core.Bool.{true≢false}
use reversetta.Loader.Window.{import_values-Stays, Keeps, fix_chain-Keeps, fix_pages-Keeps}
use reversetta.Prelude.{
  by_bool, sub_u64, u32, ltb, ltb→lt, ltb-false→le, by_option, ℕ, zero, suc, ◌+◌, ◌*◌, ◌/◌, ◌%◌,
  ◌^◌, ◌≤◌, ◌<◌, ◌≡◌, ◌⊎◌, refl, sym, ap, ◌∙◌, List, Bool, true, false, Option, none, some, arith,
  ◌==◌, if◌then◌else◌, inl, inr, Bool-cases, u64, ◌||◌, ◌&&◌, not,
}
use reversetta.Layout.{guest_window}
use reversetta.Memory.{Memory, in_range, read}
use reversetta.Memory.Access.{in_range_iff, write-base}
use reversetta.Emu.State.{Emu}
use reversetta.Loader.Format.{File, u16_at, u32_at, u64_at}
use reversetta.Loader.Fixups.{
  fixed_value, fix_pointer, fix_chain, chain_fuel, fix_pages, fix_segments, bind_chained_fixups,
  import_values,
}

abbrev next_of : Memory → ℕ → ℕ
next_of m addr = read 8 m addr / 2 ^ 51 % 2 ^ 12

read-outside : (m : Memory) (addr : ℕ) → in_range m addr 8 ≡ false → next_of m addr ≡ 0
unfolding read
read-outside m addr q = rw q refl

fix_pointer-base :
    (values : List ℕ) (form : Bool) (addr : ℕ) (m : Memory)
    → (fix_pointer values form addr m).base ≡ m.base
unfolding fix_pointer
fix_pointer-base values form addr m =
    by_option (λ (k : Memory). k.base ≡ m.base) (fixed_value values form m.base (read 8 m addr))
      refl λ v. write-base 8 m addr v

-- a pointer of the chain that has a next one lies in the window
next-bounds :
    (m : Memory) (addr : ℕ)
    → m.base + guest_window ≤ 2 ^ 63
    → addr < 2 ^ 64
    → (next_of m addr == 0) ≡ false
    → (m.base ≤ addr) × (addr + 8 ≤ m.base + guest_window)
next-bounds m addr fits small more = elim (Bool-cases (in_range m addr 8)) [
  | inl q ↦ (in_range_iff m addr 8 (omega (arith, fits)) small).0 q
  | inr q ↦ absurd (true≢false (sym (ap (λ n. n == 0) (read-outside m addr q)) ∙ more))
]

-- a result that is there
abbrev Returns {ℓ} : {A : Type ℓ} → Option A → Type ℓ
Returns {A = A} o = (a : A) × (o ≡ some a)

either :
    {A : Type 0} (b : Bool) (t f : Option A)
    → Returns t
    → (b ≡ false → Returns f)
    → Returns (elim b [ true ↦ t | false ↦ f ])
either true t f r k = r
either false t f r k = k refl

-- a computation goes on with a result in the same window
in_turn :
    {A : Type 0} (m : Memory) (o : Option Memory) (f : Memory → Option A)
    → Returns o
    → Keeps m o
    → ((k : Memory) → k.base ≡ m.base → Returns (f k))
    → Returns (elim o [ none ↦ none | some k ↦ f k ])
in_turn m none f (k, e) w rest = cc
in_turn m (some k) f r w rest = rest k w.base

-- the fuel reaches from an address to the end of the window
abbrev Reaches : ℕ → ℕ → Memory → Type 0
Reaches fuel addr m = (addr < m.base) ⊎ (m.base + guest_window < addr + 4 * fuel + 8)

-- `suc fuel` rounds are enough
fix_chain-Returns :
    (fuel : ℕ) (values : List ℕ) (form : Bool) (addr : ℕ) (m : Memory)
    → m.base + guest_window ≤ 2 ^ 63
    → addr < 2 ^ 64
    → Reaches fuel addr m
    → Returns (fix_chain (suc fuel) values form addr m)
unfolding fix_chain
fix_chain-Returns zero values form addr m fits small reach =
    either (next_of m addr == 0) _ _ (fix_pointer values form addr m, refl)
      λ more.
        let inside = next-bounds m addr fits small more in absurd (omega (arith, inside, reach))
fix_chain-Returns (suc fuel) values form addr m fits small reach =
    let m' = fix_pointer values form addr m in
    let same = fix_pointer-base values form addr m in
    let next = next_of m addr in
    either (next == 0) _ _ (m', refl)
      λ more.
        let inside = next-bounds m addr fits small more in
        let forward : 1 ≤ next = ground (arith, more) in
        let bounded : next < 2 ^ 12 = omega arith in
        fix_chain-Returns fuel values form (u64 (addr + next * 4)) m' (omega (arith, same, fits))
          (omega arith) (inr (omega (arith, same, inside, forward, bounded, reach, fits)))

from_base : (addr : ℕ) (m : Memory) → Reaches (guest_window / 4 + 1) addr m
from_base addr m = elim (Bool-cases (ltb addr m.base)) [
  | inl q ↦ inl (ltb→lt addr m.base q)
  | inr q ↦ inr (omega (arith, ltb-false→le addr m.base q))
]

fix_chain_fueled :
    (values : List ℕ) (form : Bool) (addr : ℕ) (m : Memory)
    → m.base + guest_window ≤ 2 ^ 63
    → addr < 2 ^ 64
    → Returns (fix_chain chain_fuel values form addr m)
fix_chain_fueled values form addr m fits small =
    fix_chain-Returns (guest_window / 4 + 1) values form addr m fits small (from_base addr m)

fix_pages-Returns :
    (n pg : ℕ) (f : File) (seg : ℕ) (values : List ℕ) (m : Memory)
    → m.base + guest_window ≤ 2 ^ 63
    → Returns (fix_pages n pg f seg values m)
unfolding fix_pages
fix_pages-Returns zero pg f seg values m fits = (m, refl)
fix_pages-Returns (suc n) pg f seg values m fits =
    let start = u16_at f (seg + 22 + 2 * pg) in
    let addr = u64 (m.base + u64_at f (seg + 8) + pg * u16_at f (seg + 4) + start) in
    let form = u16_at f (seg + 6) == 6 in
    let chain = fix_chain chain_fuel values form addr m in
    either (start == 0xFFFF) _ _ (fix_pages-Returns n (pg + 1) f seg values m fits) λ more.
      in_turn m chain (fix_pages n (pg + 1) f seg values)
        (fix_chain_fueled values form addr m fits (omega arith))
        (fix_chain-Keeps chain_fuel values form addr m)
        λ k same. fix_pages-Returns n (pg + 1) f seg values k (omega (arith, same, fits))

fix_segments-Returns :
    (n s : ℕ) (f : File) (starts : ℕ) (values : List ℕ) (m : Memory)
    → m.base + guest_window ≤ 2 ^ 63
    → Returns (fix_segments n s f starts values m)
unfolding fix_segments
fix_segments-Returns zero s f starts values m fits = (m, refl)
fix_segments-Returns (suc n) s f starts values m fits =
    let off = u32_at f (starts + 4 + 4 * s) in
    let seg = starts + off in
    let format = u16_at f (seg + 6) in
    let pages = u16_at f (seg + 20) in
    either (off == 0 || not (format == 2 || format == 6)) _ _
      (fix_segments-Returns n (s + 1) f starts values m fits)
      λ more.
        in_turn m (fix_pages pages 0 f seg values m) (fix_segments n (s + 1) f starts values)
          (fix_pages-Returns pages 0 f seg values m fits) (fix_pages-Keeps pages 0 f seg values m)
          λ k same. fix_segments-Returns n (s + 1) f starts values k (omega (arith, same, fits))

succeeded :
    (e : Emu) (o : Option Memory)
    → Returns o
    → Returns (elim o as (λ x. Option (Bool × Emu)) [
      | none ↦ none
      | some m ↦ some (true, record e { memory = m })
    ])
succeeded e none (m, h) = cc
succeeded e (some m) r = ((true, record e { memory = m }), refl)

-- The fixups of a file are bound in finite time, whatever the file says, if the window ends below
-- 2^63: every chain ends within the fuel that the model gives it.
pub bind_chained_fixups_returns :
    (f : File) (slice lc : ℕ) (e : Emu)
    → e.memory.base + guest_window ≤ 2 ^ 63
    → (r : Bool × Emu) × (bind_chained_fixups f slice lc e ≡ some r)
unfolding bind_chained_fixups
bind_chained_fixups_returns f slice lc e fits =
    let blob = slice + u32_at f (lc + 8) in
    let starts = blob + u32_at f (blob + 4) in
    let count = u32_at f (blob + 16) in
    let format = u32_at f (blob + 20) in
    let imports = blob + u32_at f (blob + 8) in
    let symbols = blob + u32_at f (blob + 12) in
    let stride = if format == 1 then 4 else 8 in
    let r = import_values count imports stride symbols f e in
    let same = (import_values-Stays count imports stride symbols f e).within.base in
    by_bool Returns (ltb (sub_u64 f.size slice) (u32 (u32_at f (lc + 8) + u32_at f (lc + 12))))
      ((false, e), refl)
      (by_bool Returns (not (count == 0) && not (format == 1 || format == 2)) ((false, e), refl)
        (succeeded r.1 _ (
          fix_segments-Returns (u32_at f starts) 0 f starts r.0 r.1.memory
            (omega (arith, same, fits)))))
