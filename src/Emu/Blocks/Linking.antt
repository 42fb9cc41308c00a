-- ===== src/Emu/Blocks/Linking.antt =====
-- Links between blocks: a direct exit either falls through to its way back to the dispatcher, or
-- jumps to the body of the block that was compiled for its target.
use reversetta.Prelude.{
  ℕ, ◌+◌, ◌-◌, ◌%◌, ◌^◌, ◌≤◌, ◌<◌, List, [], ◌∷◌, true, false, none, some, if◌then◌else◌, u64,
  sub_u64, ltb, ◌≡◌, ◌⊎◌, ◌==◌, inl, inr, sym, ap, ◌∙◌, arith, Bool-cases, Option-cases, Each,
}
use reversetta.Memory.{load_le, store_le}
use reversetta.Memory.Access.{load_le_ext, store_le_outside, load_le-store_le}
use reversetta.Emitter.Regs.{fits_int32}
use reversetta.Emu.State.{Chains, PatchSite, lookup, erase, lookup-erase}
use reversetta.Emu.Blocks.{patch_site, patch_waiting, take_waiting}

-- a rel32 as a 64-bit pattern
abbrev pub extend : ℕ → ℕ
extend v = if ltb v (2 ^ 31) then v else v + 2 ^ 64 - 2 ^ 32

-- where a jump goes whose rel32 stands at `site`
abbrev pub jump_of : (ℕ → ℕ) → ℕ → ℕ
jump_of code site = u64 (site + 4 + extend (load_le 4 code site))

-- the bytes of a jump at `site` are not those of one at `a`
abbrev pub Clear : ℕ → ℕ → Type 0
Clear a site = (site + 4 ≤ a) ⊎ (a + 4 ≤ site)

extend-cut : (rel : ℕ) → rel < 2 ^ 64 → fits_int32 rel ≡ true → extend (rel % 2 ^ 32) ≡ rel
extend-cut rel h f = ground arith

module _ (holder disp body : ℕ) (code : ℕ → ℕ) where
  abbrev site : ℕ
  site = u64 (holder + disp)

  abbrev rel : ℕ
  rel = sub_u64 body (u64 (holder + disp + 4))

  patch_site-fits :
      fits_int32 rel ≡ true → patch_site holder disp body code ≡ store_le 4 code site (rel % 2 ^ 32)
  unfolding patch_site
  patch_site-fits f = simp f

  patch_site_far : fits_int32 rel ≡ false → patch_site holder disp body code ≡ code
  unfolding patch_site
  patch_site_far f = simp f

  -- A site that is near enough is patched to jump to the body.
  pub jump_of-patch_site :
      body < 2 ^ 64 → fits_int32 rel ≡ true → jump_of (patch_site holder disp body code) site ≡ body
  jump_of-patch_site h f =
      let stored : load_le 4 (store_le 4 code site (rel % 2 ^ 32)) site ≡ rel % 2 ^ 32 =
        load_le-store_le 4 code site (rel % 2 ^ 32) ∙ omega arith in
      rw (patch_site-fits f, stored, extend-cut rel (omega arith) f) (omega arith)

  pub jump_of-patch_other :
      (a : ℕ) → Clear a site → jump_of (patch_site holder disp body code) a ≡ jump_of code a
  jump_of-patch_other a clear = elim (Bool-cases (fits_int32 rel)) [
    | inl f ↦ rw (patch_site-fits f) (
        ap (λ v. u64 (a + 4 + extend v))
          (load_le_ext 4 code _ a
            λ i p q. store_le_outside 4 code site (rel % 2 ^ 32) i (omega arith)))
    | inr f ↦ rw (patch_site_far f)
  ]

pub take_waiting-none :
    (pc body : ℕ) (c : Chains) → lookup pc c.pending_patches ≡ none → take_waiting pc body c ≡ c
unfolding take_waiting
take_waiting-none pc body c e = rw (e, take_waiting)

pub take_waiting-some :
    (pc body : ℕ) (c : Chains) (l : List PatchSite)
    → lookup pc c.pending_patches ≡ some l
    → take_waiting pc body c ≡ record c {
      code = patch_waiting l body c.code;
      pending_patches = erase pc c.pending_patches;
    }
unfolding take_waiting
take_waiting-some pc body c l e = rw (e, take_waiting)

module _ (a t : ℕ) where
  -- The jump at a is unlinked, or it goes to the body of the block for t.
  abbrev pub IsLinked : List (ℕ × ℕ) → (ℕ → ℕ) → Type 0
  IsLinked entries code =
      (jump_of code a ≡ u64 (a + 4)) ⊎ (lookup t entries ≡ some (jump_of code a))

  -- another site does not touch the jump at a, or it is that very site, for the same target
  abbrev pub Agrees : ℕ → ℕ → ℕ → Type 0
  Agrees holder disp target =
      Clear a (u64 (holder + disp)) ⊎ ((u64 (holder + disp) ≡ a) × (target ≡ t))

  abbrev pub SiteAgrees : ℕ → PatchSite → Type 0
  SiteAgrees target s = Agrees s.holder s.disp_off target

  abbrev pub PendingAgree : List (ℕ × List PatchSite) → Type 0
  PendingAgree m =
      (target : ℕ) (l : List PatchSite) → lookup target m ≡ some l → Each (SiteAgrees target) l

  pub patch-IsLinked :
      (entries : List (ℕ × ℕ)) (code : ℕ → ℕ) (holder disp target body : ℕ)
      → body < 2 ^ 64
      → lookup target entries ≡ some body
      → Agrees holder disp target
      → IsLinked entries code
      → IsLinked entries (patch_site holder disp body code)
  patch-IsLinked entries code holder disp target body h found (inl clear) linked =
      rw (jump_of-patch_other holder disp body code a clear) linked
  patch-IsLinked entries code holder disp target body h found (inr (here, same)) linked =
      elim (Bool-cases (fits_int32 (sub_u64 body (u64 (holder + disp + 4))))) [
        | inl f ↦
            let there = rw here at (jump_of-patch_site holder disp body code h f) in
            inr (rw same at found ∙ ap some (sym there))
        | inr f ↦ rw (patch_site_far holder disp body code f) linked
      ]

  patch_waiting-IsLinked :
      (entries : List (ℕ × ℕ)) (target body : ℕ) (l : List PatchSite) (code : ℕ → ℕ)
      → body < 2 ^ 64
      → lookup target entries ≡ some body
      → Each (SiteAgrees target) l
      → IsLinked entries code
      → IsLinked entries (patch_waiting l body code)
  unfolding patch_waiting
  patch_waiting-IsLinked entries target body [] code h found agree linked = linked
  patch_waiting-IsLinked entries target body (s ∷ l) code h found agree linked =
      patch_waiting-IsLinked entries target body l (patch_site s.holder s.disp_off body code) h
        found agree.1
        (patch-IsLinked entries code s.holder s.disp_off target body h found agree.0 linked)

  -- the tables that a block is linked by: the entries it will find, and the sites that wait
  pub record Links (entries : List (ℕ × ℕ)) (c : Chains) : Type 0 where
    pub linked : IsLinked entries c.code
    pub pending : PendingAgree c.pending_patches

  pub erase-PendingAgree :
      (pc : ℕ) (m : List (ℕ × List PatchSite)) → PendingAgree m → PendingAgree (erase pc m)
  erase-PendingAgree pc m h target l e = elim (Bool-cases (pc == target)) [
    | inl q ↦ cc (lookup-erase pc target m, e, q)
    | inr q ↦ h target l (sym (lookup-erase pc target m ∙ rw q) ∙ e)
  ]

  pub take_waiting-Links :
      (entries : List (ℕ × ℕ)) (pc body : ℕ) (c : Chains)
      → body < 2 ^ 64
      → lookup pc entries ≡ some body
      → Links entries c
      → Links entries (take_waiting pc body c)
  take_waiting-Links entries pc body c h found links =
      elim (Option-cases (lookup pc c.pending_patches)) [
        | inl e ↦ rw (take_waiting-none pc body c e) links
        | inr (l, e) ↦ rw (take_waiting-some pc body c l e) (record {
          linked =
              patch_waiting-IsLinked entries pc body l c.code h found (links.pending pc l e)
                links.linked;
          pending = erase-PendingAgree pc c.pending_patches links.pending;
        })
      ]
