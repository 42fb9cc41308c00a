-- ===== src/HostFns/Bytes.antt =====
-- The lists of bytes that the host functions read and write.
use reversetta.Prelude.{
  ℕ, zero, suc, ◌+◌, ◌≤◌, ◌<◌, ◌≡◌, ◌⊎◌, refl, ap, List, [], ◌∷◌, arith, length, length-append, inl,
}
use reversetta.Memory.{update}
use reversetta.Emu.Host.{bytes_at}
use reversetta.Emu.Run.Start.{store_bytes}
use reversetta.HostFns.Common.{fill, with_nul}
use reversetta.HostFns.Format.{take}
use reversetta.HostFns.Strings.{pad}

pub length-fill : (n b : ℕ) → length (fill n b) ≡ n
length-fill zero b = refl
length-fill (suc n) b = ap suc (length-fill n b)

pub length-with_nul : (s : List ℕ) → length (with_nul s) ≡ length s + 1
length-with_nul s = length-append s (0 ∷ [])

pub length-pad : (n : ℕ) (s : List ℕ) → length (pad n s) ≡ n
unfolding pad
length-pad zero s = refl
length-pad (suc n) [] = ap suc (length-pad n [])
length-pad (suc n) (b ∷ s) = ap suc (length-pad n s)

pub length-bytes_at : (n : ℕ) (mem : ℕ → ℕ) (off : ℕ) → length (bytes_at n mem off) ≡ n
length-bytes_at zero mem off = refl
length-bytes_at (suc n) mem off = ap suc (length-bytes_at n mem (off + 1))

pub store_bytes_outside :
    (l : List ℕ) (off : ℕ) (mem : ℕ → ℕ) (i : ℕ)
    → (i < off) ⊎ (off + length l ≤ i)
    → store_bytes l off mem i ≡ mem i
unfolding store_bytes
store_bytes_outside [] off mem i h = refl
store_bytes_outside (b ∷ l) off mem i h =
    ground (arith, store_bytes_outside l (off + 1) (update mem off b) i)

-- What is stored is read back.
pub bytes_at-store_bytes :
    (l : List ℕ) (off : ℕ) (mem : ℕ → ℕ) → bytes_at (length l) (store_bytes l off mem) off ≡ l
unfolding store_bytes
bytes_at-store_bytes [] off mem = refl
bytes_at-store_bytes (b ∷ l) off mem =
    let rest = bytes_at-store_bytes l (off + 1) (update mem off b) in
    let first = store_bytes_outside l (off + 1) (update mem off b) off (inl (omega arith)) in
    let same : update mem off b off ≡ b = ground arith in rw (first, same) (ap (λ t. b ∷ t) rest)

pub length-take : (n : ℕ) (l : List ℕ) → n ≤ length l → length (take n l) ≡ n
unfolding take
length-take zero l h = refl
length-take (suc n) [] h = omega (arith, h)
length-take (suc n) (b ∷ l) h = ap suc (length-take n l (omega (arith, h)))
