-- ===== src/Bits.antt =====
-- src/common.h: the bit helpers and `decode_bit_masks`.

pub mod Self
pub mod Fields
use reversetta.Prelude.{
  ℕ, zero, suc, ◌+◌, ◌-◌, ◌*◌, ◌/◌, ◌%◌, ◌^◌, bit_and, bit_or, bit_xor, ◌==◌, ltb, leb,
  if◌then◌else◌, Bool, ◌&&◌, Option, none, some, ◌>>>◌, u64, sub_u32, sub_u64,
}

-- The mask has hi - lo + 1 ones, and is all of uint32_t from 32 ones on.
unfoldable pub bits : ℕ → ℕ → ℕ → ℕ
bits v hi lo = let w = hi - lo + 1 in (v >>> lo) % (if leb 32 w then 2 ^ 32 else 2 ^ w)

unfoldable pub bit : ℕ → ℕ → ℕ
bit v n = (v >>> n) % 2

-- The result is the bit pattern of the int64_t.
unfoldable pub sext : ℕ → ℕ → ℕ
sext v n =
    let m = 2 ^ (n - 1) in
    let low = if leb 64 n then u64 v else v % 2 ^ n in sub_u64 (bit_xor low m) m

unfoldable pub ones_mask : ℕ → ℕ
ones_mask n = if leb 64 n then 2 ^ 64 - 1 else 2 ^ n - 1

-- `31 - __builtin_clz(v)` for a positive v below 2 ^ fuel
unfoldable pub top_bit : ℕ → ℕ → ℕ
top_bit zero v = 0
top_bit (suc fuel) v = let rest = top_bit fuel (v / 2) in if ltb v 2 then 0 else suc rest

-- `for (i = 0; i < 64; i += esize) r |= (e & emask) << i`
unfoldable pub replicate_loop : ℕ → ℕ → ℕ → ℕ → ℕ → ℕ
replicate_loop zero e esize i r = r
replicate_loop (suc fuel) e esize i r =
    let rest = replicate_loop fuel e esize (i + esize) (bit_or r (u64 (e * 2 ^ i))) in
    if ltb i 64 then rest else r

-- The loop makes at most 64 rounds.
unfoldable pub replicate : ℕ → ℕ → ℕ → ℕ
unfolding replicate_loop
replicate esize emask e = replicate_loop 65 (bit_and e emask) esize 0 0

pub record Masks : Type 0 where
  pub wmask : ℕ
  pub tmask : ℕ

abbrev pub mk_masks : ℕ → ℕ → Masks
mk_masks w t = record { wmask = w; tmask = t }

-- the body behind the checks of `decode_bit_masks`, for elements of 2 ^ len bits
unfoldable pub element_masks : ℕ → ℕ → ℕ → Masks
unfolding ones_mask replicate
element_masks imms immr len =
    let levels = ones_mask len in
    let s = bit_and imms levels in
    let r = bit_and immr levels in
    let diff = bit_and (sub_u32 s r) levels in
    let esize = 2 ^ len in
    let welem = ones_mask (s + 1) in
    let telem = ones_mask (diff + 1) in
    let emask = ones_mask esize in
    let wrot =
      if r == 0
      then welem
      else bit_and (bit_or (welem >>> r) (u64 (welem * 2 ^ (esize - r)))) emask in
    mk_masks (replicate esize emask wrot) (replicate esize emask telem)

-- `none` is the false of the source.
unfoldable pub decode_bit_masks : ℕ → ℕ → ℕ → Bool → ℕ → Option Masks
unfolding element_masks ones_mask top_bit
decode_bit_masks n imms immr immediate datasize =
    let combined = bit_or (n * 64) (bit_and (2 ^ 32 - 1 - imms) 0x3F) in
    let len = top_bit 32 combined in
    let levels = ones_mask len in
    if combined == 0
    then none
    else if ltb len 1
    then none
    else if ltb datasize (2 ^ len)
    then none
    else if immediate && (bit_and imms levels == levels)
    then none
    else some (element_masks imms immr len)
