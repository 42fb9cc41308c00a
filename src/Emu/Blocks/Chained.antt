-- ===== src/Emu/Blocks/Chained.antt =====
-- The links of all blocks, whatever the order in which they are compiled.
use reversetta.Prelude.{
  ℕ, ◌+◌, List, [], ◌∷◌, none, some, u64, ◌≡◌, sym, ◌∙◌, arith, Option-cases, Each, inl, inr, subst,
}
use reversetta.Emitter.State.{Patch}
use reversetta.Emu.State.{Chains, lookup, insert, lookup-insert}
use reversetta.Emu.Blocks.{take_waiting, link_own, link_all, enter, link_block}
use reversetta.Emu.Blocks.Linking.{IsLinked, Agrees, Links, patch-IsLinked, take_waiting-Links}
use reversetta.Emu.Blocks.Tables.{
  AreBodies, insert-AreBodies, Grows, insert-Grows, take_waiting-entries, link_own-entries,
  link_all-entries, link_own-some, link_own-none, push-PendingAgree,
}

module _ (a t : ℕ) where
  abbrev pub OwnAgree : ℕ → List Patch → Type 0
  OwnAgree fn l = Each (λ s. Agrees a t fn s.disp_off s.target) l

  link_own-Links :
      (entries : List (ℕ × ℕ)) (fn : ℕ) (s : Patch) (c : Chains)
      → AreBodies c.block_entry
      → Grows c.block_entry entries
      → Agrees a t fn s.disp_off s.target
      → Links a t entries c
      → Links a t entries (link_own fn s c)
  link_own-Links entries fn s c bodies grows agrees links =
      elim (Option-cases (lookup s.target c.block_entry)) [
        | inl e ↦ rw (link_own-none fn s c e) (record {
          linked = links.linked;
          pending =
              push-PendingAgree a t s.target (record { holder = fn; disp_off = s.disp_off })
                c.pending_patches agrees links.pending;
        })
        | inr (body, e) ↦ rw (link_own-some fn body s c e) (record {
          linked =
              patch-IsLinked a t entries c.code fn s.disp_off s.target body (bodies s.target body e)
                (grows s.target body e) agrees links.linked;
          pending = links.pending;
        })
      ]

  link_all-Links :
      (entries : List (ℕ × ℕ)) (fn : ℕ) (l : List Patch) (c : Chains)
      → AreBodies c.block_entry
      → Grows c.block_entry entries
      → OwnAgree fn l
      → Links a t entries c
      → Links a t entries (link_all fn l c)
  unfolding link_all
  link_all-Links entries fn [] c bodies grows agree links = links
  link_all-Links entries fn (s ∷ l) c bodies grows agree links =
      let same = sym (link_own-entries fn s c).0 in
      link_all-Links entries fn l (link_own fn s c) (subst AreBodies same bodies)
        (subst (λ m. Grows m entries) same grows) agree.1
        (link_own-Links entries fn s c bodies grows agree.0 links)

  -- What holds of the tables between two blocks, for a jump at a that waits for t
  pub record IsChained (c : Chains) : Type 0 where
    pub links : Links a t c.block_entry c
    pub bodies : AreBodies c.block_entry

  grow-IsLinked :
      (m n : List (ℕ × ℕ)) (code : ℕ → ℕ) → Grows m n → IsLinked a t m code → IsLinked a t n code
  grow-IsLinked m n code grows (inl unlinked) = inl unlinked
  grow-IsLinked m n code grows (inr there) = inr (grows t _ there)

  -- Compiling and linking a block keeps every direct exit right: the jump at any site a that waits
  -- for the target t is unlinked, and then falls through to its way back to the dispatcher, or it
  -- goes to the body of the block compiled for t. This holds whether the new block is that of t, has
  -- the site, or is another one, if the block is new and the bytes of other sites are apart from a.
  pub link_block-IsChained :
      (pc fn body_off : ℕ) (patches : List Patch) (c : Chains)
      → lookup pc c.block_entry ≡ none
      → OwnAgree fn patches
      → IsChained c
      → IsChained (link_block pc fn body_off patches c)
  unfolding link_block enter
  link_block-IsChained pc fn body_off patches c new agree h =
      let body = u64 (fn + body_off) in
      let entries = insert pc body c.block_entry in
      let taken = take_waiting pc body c in
      let linked = link_all fn patches taken in
      let grows = insert-Grows pc body c.block_entry new in
      let found : lookup pc entries ≡ some body =
        lookup-insert pc pc body c.block_entry ∙ ground arith in
      let same = sym (take_waiting-entries pc body c).0 in
      let all : linked.block_entry ≡ c.block_entry =
        (link_all-entries fn patches taken).0 ∙ sym same in
      let after =
        link_all-Links entries fn patches taken (subst AreBodies same h.bodies)
          (subst (λ m. Grows m entries) same grows) agree
          (take_waiting-Links a t entries pc body c (omega arith) found (record {
            linked = grow-IsLinked c.block_entry entries c.code grows h.links.linked;
            pending = h.links.pending;
          })) in
      record {
        links = record {
          linked = subst (λ m. IsLinked a t (insert pc body m) linked.code) (sym all) after.linked;
          pending = after.pending;
        };
        bodies =
            subst (λ m. AreBodies (insert pc body m)) (sym all)
              (insert-AreBodies pc body c.block_entry (omega arith) h.bodies);
      }
