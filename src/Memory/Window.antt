-- ===== src/Memory/Window.antt =====
-- Where writes change the memory.
use reversetta.Prelude.{ℕ, ◌+◌, ◌≤◌, ◌≡◌, refl, ◌∙◌, true, arith, inl, inr, sub_u64, Bool-cases}
use reversetta.Layout.{guest_window}
use reversetta.Memory.{Memory, in_range, write}
use reversetta.Memory.Access.{store_le_outside}

-- a range that passes the test ends in the window
pub in_range-fits :
    (m : Memory) (addr n : ℕ) → in_range m addr n ≡ true → sub_u64 addr m.base + n ≤ guest_window
unfolding in_range
in_range-fits m addr n h = ground arith

-- The second memory is the same window, and differs from the first inside it only.
pub record Within (m m' : Memory) : Type 0 where
  pub outside : (i : ℕ) → guest_window ≤ i → m'.mem i ≡ m.mem i
  pub base : m'.base ≡ m.base
  pub host : m'.host ≡ m.host

pub Within-refl : (m : Memory) → Within m m
Within-refl m = record { outside = λ i h. refl; base = refl; host = refl }

pub Within-trans : (m k l : Memory) → Within m k → Within k l → Within m l
Within-trans m k l c d = record {
  outside = λ i h. d.outside i h ∙ c.outside i h;
  base = d.base ∙ c.base;
  host = d.host ∙ c.host;
}

pub write-Within : (n addr v : ℕ) (m : Memory) → Within m (write n m addr v)
unfolding write
write-Within n addr v m = elim (Bool-cases (in_range m addr n)) [
  | inl q ↦
      (let fits = in_range-fits m addr n q in
        simp q (record {
          outside =
              λ i h. store_le_outside n m.mem (sub_u64 addr m.base) v i (inr (omega (arith, fits)));
          base = refl;
          host = refl;
        }))
  | inr q ↦ simp q (Within-refl m)
]
