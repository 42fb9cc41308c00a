-- ===== src/HostFns/Contained.antt =====
-- What a host function has to leave as it is.
use reversetta.Prelude.{
  ltb, ℕ, ◌+◌, ◌≤◌, ◌≡◌, refl, ap, ◌∙◌, List, arith, length, sub_u64, inl, inr, Bool-cases, u64,
}
use reversetta.Layout.{guest_window}
use reversetta.Memory.{in_range, write}
use reversetta.Memory.Window.{Within, write-Within}
use reversetta.Emu.State.{Emu}
use reversetta.Emu.Heap.{heap_alloc, rounded}
use reversetta.HostFns.Common.{put_bytes, ret}
use reversetta.Memory.Window.{in_range-fits}
use reversetta.HostFns.Bytes.{store_bytes_outside}

pub record Contained (e e' : Emu) : Type 0 where
  pub outside : (i : ℕ) → guest_window ≤ i → e'.memory.mem i ≡ e.memory.mem i
  pub base : e'.memory.base ≡ e.memory.base
  pub host : e'.memory.host ≡ e.memory.host
  pub thunks : e'.thunks ≡ e.thunks
  pub by_name : e'.thunk_by_name ≡ e.thunk_by_name
  pub chains : e'.chains ≡ e.chains

pub Contained-refl : (e : Emu) → Contained e e
Contained-refl e = record {
  outside = λ i h. refl;
  base = refl;
  host = refl;
  thunks = refl;
  by_name = refl;
  chains = refl;
}

pub Contained-trans : (e d f : Emu) → Contained e d → Contained d f → Contained e f
Contained-trans e d f c k = record {
  outside = λ i h. k.outside i h ∙ c.outside i h;
  base = k.base ∙ c.base;
  host = k.host ∙ c.host;
  thunks = k.thunks ∙ c.thunks;
  by_name = k.by_name ∙ c.by_name;
  chains = k.chains ∙ c.chains;
}

pub put_bytes-Contained :
    (n : ℕ) (l : List ℕ) (addr : ℕ) (e : Emu) → length l ≡ n → Contained e (put_bytes n l addr e)
unfolding put_bytes
put_bytes-Contained n l addr e len = elim (Bool-cases (in_range e.memory addr n)) [
  | inl q ↦
      (let fits = in_range-fits e.memory addr n q in
        simp q (record {
          outside = λ i h.
              store_bytes_outside l (sub_u64 addr e.memory.base) e.memory.mem i
                (inr (omega (arith, len, fits)));
          base = refl;
          host = refl;
          thunks = refl;
          by_name = refl;
          chains = refl;
        }))
  | inr q ↦ simp q (Contained-refl e)
]

-- a state with another memory, which may differ in the registers, the run and the streams too
pub Within-Contained :
    (e f : Emu)
    → Within e.memory f.memory
    → f.thunks ≡ e.thunks
    → f.thunk_by_name ≡ e.thunk_by_name
    → f.chains ≡ e.chains
    → Contained e f
Within-Contained e f w t n k = record {
  outside = w.outside;
  base = w.base;
  host = w.host;
  thunks = t;
  by_name = n;
  chains = k;
}

pub write-Contained :
    (n addr v : ℕ) (e : Emu) → Contained e (record e { memory = write n e.memory addr v })
write-Contained n addr v e = Within-Contained e _ (write-Within n addr v e.memory) refl refl refl

-- a state that differs in the registers, the run and the streams only
pub same-Contained :
    (e d f : Emu)
    → Contained e d
    → f.memory ≡ d.memory
    → f.thunks ≡ d.thunks
    → f.thunk_by_name ≡ d.thunk_by_name
    → f.chains ≡ d.chains
    → Contained e f
same-Contained e d f c m t n k = record {
  outside = λ i h. ap (λ m. m.mem i) m ∙ c.outside i h;
  base = ap (λ m. m.base) m ∙ c.base;
  host = ap (λ m. m.host) m ∙ c.host;
  thunks = t ∙ c.thunks;
  by_name = n ∙ c.by_name;
  chains = k ∙ c.chains;
}

pub ret-Contained : (v : ℕ) (e d : Emu) → Contained e d → Contained e (ret v d)
ret-Contained v e d c = same-Contained e d (ret v d) c refl refl refl refl

pub heap_alloc-Contained : (size : ℕ) (e : Emu) → Contained e (heap_alloc size e).1
unfolding heap_alloc
heap_alloc-Contained size e =
    elim (Bool-cases (ltb e.heap_end (u64 (e.heap_cur + rounded size + 16)))) [
      | inl q ↦ simp q (Contained-refl e)
      | inr q ↦ simp q (
          same-Contained e (record e { memory = write 8 e.memory e.heap_cur (rounded size) }) _
            (write-Contained 8 e.heap_cur (rounded size) e) refl refl refl refl)
    ]
