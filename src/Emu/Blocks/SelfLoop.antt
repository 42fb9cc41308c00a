-- ===== src/Emu/Blocks/SelfLoop.antt =====
-- A block that branches to its own start.
use reversetta.Prelude.{
  ℕ, ◌+◌, ◌≤◌, ◌<◌, List, [], ◌∷◌, ◌++◌, none, some, ◌≡◌, ◌≢◌, refl, ap, ◌∙◌, u64, inl, inr,
}
use reversetta.Memory.Access.{load_le_ext}
use reversetta.Emitter.State.{Patch}
use reversetta.Emu.State.{Chains, PatchSite, lookup}
use reversetta.Emu.Blocks.{take_waiting, link_own, link_all, enter, link_block}
use reversetta.Emu.Blocks.Linking.{jump_of, extend}
use reversetta.Emu.Blocks.Tables.{take_waiting-entries, link_own-entries, link_own-none}
use reversetta.Emu.Blocks.Untouched.{
  IsWaiting, AreClear, SitesClear, IsUntouched, IsLeft, push_self-IsWaiting, take_waiting-IsLeft,
  take_waiting-IsUntouched, link_own-IsUntouched, link_all-IsLeft,
}

-- the site of an exit in the block at fn
abbrev pub site_of : ℕ → Patch → PatchSite
site_of fn s = record { holder = fn; disp_off = s.disp_off }

abbrev pub addr_of : ℕ → Patch → ℕ
addr_of fn s = u64 (fn + s.disp_off)

link_own_self-IsLeft :
    (pc fn : ℕ) (s : Patch) (c : Chains)
    → s.target ≡ pc
    → lookup pc c.block_entry ≡ none
    → IsUntouched (addr_of fn s) pc c
    → IsLeft (addr_of fn s) pc (site_of fn s) (link_own fn s c)
link_own_self-IsLeft pc fn s c self new h =
    let none_yet : lookup s.target c.block_entry ≡ none = rw self new in
    record {
      waits =
          rw (link_own-none fn s c none_yet)
            (rw self (push_self-IsWaiting pc (site_of fn s) c.pending_patches));
      untouched = link_own-IsUntouched (addr_of fn s) pc fn s c (inr none_yet) (inr (refl, self)) h;
    }

link_all_self-IsLeft :
    (pc fn : ℕ) (before after : List Patch) (s : Patch) (c : Chains)
    → s.target ≡ pc
    → lookup pc c.block_entry ≡ none
    → AreClear (addr_of fn s) fn before
    → AreClear (addr_of fn s) fn after
    → IsUntouched (addr_of fn s) pc c
    → IsLeft (addr_of fn s) pc (site_of fn s) (link_all fn (before ++ s ∷ after) c)
unfolding link_all
link_all_self-IsLeft pc fn [] after s c self new clear clear' h =
    link_all-IsLeft (addr_of fn s) pc fn (site_of fn s) after (link_own fn s c) clear'
      (link_own_self-IsLeft pc fn s c self new h)
link_all_self-IsLeft pc fn (x ∷ before) after s c self new clear clear' h =
    link_all_self-IsLeft pc fn before after s (link_own fn x c) self
      (ap (lookup pc) (link_own-entries fn x c).0 ∙ new) clear.1 clear'
      (link_own-IsUntouched (addr_of fn s) pc fn x c (inl clear.0) (inl clear.0) h)

-- Blocks of other addresses, one after the other, whose sites are apart from the jump at a; the
-- assembler leaves any code that keeps the bytes of that jump.
pub data Later (a pc : ℕ) : Chains → Chains → Type 0 where
  here : (c : Chains) → Later a pc c c
  block :
      (other fn body_off : ℕ) (patches : List Patch) (code : ℕ → ℕ) {c d : Chains}
      → Later a pc c d
      → other ≢ pc
      → AreClear a fn patches
      → ((i : ℕ) → a ≤ i → i < a + 4 → code i ≡ d.code i)
      → Later a pc c (link_block other fn body_off patches (record d { code = code }))

entered-IsLeft :
    (a pc other fn body : ℕ) (site : PatchSite) (c : Chains)
    → IsLeft a pc site c
    → IsLeft a pc site (enter other fn body c)
unfolding enter
entered-IsLeft a pc other fn body site c h = record {
  waits = h.waits;
  untouched = record { unlinked = h.untouched.unlinked; pending = h.untouched.pending };
}

recoded-IsLeft :
    (a pc : ℕ) (site : PatchSite) (d : Chains) (code : ℕ → ℕ)
    → ((i : ℕ) → a ≤ i → i < a + 4 → code i ≡ d.code i)
    → IsLeft a pc site d
    → IsLeft a pc site (record d { code = code })
recoded-IsLeft a pc site d code same h = record {
  waits = h.waits;
  untouched = record {
    unlinked =
        ap (λ v. u64 (a + 4 + extend v)) (load_le_ext 4 d.code code a same) ∙ h.untouched.unlinked;
    pending = h.untouched.pending;
  };
}

Later-IsLeft :
    (a pc : ℕ) (site : PatchSite) {c d : Chains}
    → Later a pc c d
    → IsLeft a pc site c
    → IsLeft a pc site d
unfolding link_block
Later-IsLeft a pc site (here c) h = h
Later-IsLeft a pc site (block other fn off patches code {c} {d} l ne clear same) h =
    let d' = record d { code = code } in
    let body = u64 (fn + off) in
    let taken = take_waiting other body d' in
    entered-IsLeft a pc other fn body site (link_all fn patches taken) (
      link_all-IsLeft a pc fn site patches taken clear (
        take_waiting-IsLeft a pc other body site d' ne
          (recoded-IsLeft a pc site d code same (Later-IsLeft a pc site l h))))

-- A block with a direct exit to its own start is never linked to itself: when the block is entered in
-- the tables, that very site is on the list of those that wait for its pc, and its jump is unlinked,
-- as it was assembled, and falls through to its way back to the dispatcher. Both still hold after any
-- later blocks of other addresses, since a compiled block is not compiled again. The bytes of all
-- other sites are taken to be apart from those of the jump.
pub link_block_self_waits :
    (pc fn body_off : ℕ) (before after : List Patch) (s : Patch) (c d : Chains)
    → s.target ≡ pc
    → lookup pc c.block_entry ≡ none
    → jump_of c.code (addr_of fn s) ≡ u64 (addr_of fn s + 4)
    → AreClear (addr_of fn s) fn before
    → AreClear (addr_of fn s) fn after
    → ((target : ℕ) (l : List PatchSite)
        → lookup target c.pending_patches ≡ some l
        → SitesClear (addr_of fn s) l)
    → Later (addr_of fn s) pc (link_block pc fn body_off (before ++ s ∷ after) c) d
    → IsWaiting pc (site_of fn s) d.pending_patches
      × (jump_of d.code (addr_of fn s) ≡ u64 (addr_of fn s + 4))
unfolding link_block
link_block_self_waits pc fn off before after s c d self new jump clear clear' waiting later =
    let a = addr_of fn s in
    let body = u64 (fn + off) in
    let taken = take_waiting pc body c in
    let untouched = take_waiting-IsUntouched a pc body c waiting jump in
    let linked =
      link_all_self-IsLeft pc fn before after s taken self
        (ap (lookup pc) (take_waiting-entries pc body c).0 ∙ new) clear clear' untouched in
    let all = link_all fn (before ++ s ∷ after) taken in
    let left =
      Later-IsLeft a pc (site_of fn s) later
        (entered-IsLeft a pc pc fn body (site_of fn s) all linked) in
    (left.waits, left.untouched.unlinked)
