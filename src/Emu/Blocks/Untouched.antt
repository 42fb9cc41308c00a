-- ===== src/Emu/Blocks/Untouched.antt =====
-- A site that waits for a block, and the jump at it, which nothing else touches.
use mathlib.Core.List.{append_assoc}
use reversetta.Prelude.{
  ℕ, ◌+◌, List, [], ◌∷◌, ◌++◌, none, some, ◌≡◌, ◌≢◌, ◌⊎◌, ◌==◌, false, refl, ap, ◌∙◌, arith, u64,
  Option-cases, Bool-cases, inl, inr, Each,
}
use reversetta.Emitter.State.{Patch}
use reversetta.Emu.State.{Chains, PatchSite, lookup, lookup-insert, lookup-erase}
use reversetta.Emu.Blocks.{
  patch_waiting, patch_site, take_waiting, push_waiting, link_own, link_all,
}
use reversetta.Emu.Blocks.Linking.{
  Clear, jump_of, Agrees, PendingAgree, SiteAgrees, jump_of-patch_other, take_waiting-none,
  take_waiting-some, erase-PendingAgree,
}
use reversetta.Emu.Blocks.Tables.{
  link_own-some, link_own-none, push-none, push-some, push-PendingAgree,
}

-- the list found at pc has the site
abbrev pub IsWaiting : ℕ → PatchSite → List (ℕ × List PatchSite) → Type 0
IsWaiting pc s m =
    (before : List PatchSite) × (after : List PatchSite) × (lookup pc m
      ≡ some (before ++ s ∷ after))

push-IsWaiting :
    (pc target : ℕ) (s x : PatchSite) (m : List (ℕ × List PatchSite))
    → IsWaiting pc s m
    → IsWaiting pc s (push_waiting target x m)
push-IsWaiting pc target s x m (before, after, found) = elim (Bool-cases (target == pc)) [
  | inl q ↦
      (let same : target ≡ pc = ground arith in
        let there = ap (λ k. lookup k m) same ∙ found in
        (
          before,
          after ++ x ∷ [],
          rw (push-some target x m _ there) (
              lookup-insert target pc _ m
              ∙ rw q (ap some (append_assoc before (s ∷ after) (x ∷ [])))),
        ))
  | inr q ↦ (elim (Option-cases (lookup target m)) [
    | inl e ↦
        (before, after, rw (push-none target x m e) (lookup-insert target pc _ m ∙ rw q found))
    | inr (l, e) ↦
        (before, after, rw (push-some target x m l e) (lookup-insert target pc _ m ∙ rw q found))
  ])
]

pub push_self-IsWaiting :
    (pc : ℕ) (s : PatchSite) (m : List (ℕ × List PatchSite)) → IsWaiting pc s (push_waiting pc s m)
push_self-IsWaiting pc s m = elim (Option-cases (lookup pc m)) [
  | inl e ↦ ([], [], rw (push-none pc s m e) (lookup-insert pc pc (s ∷ []) m ∙ ground arith))
  | inr (l, e) ↦
      (l, [], rw (push-some pc s m l e) (lookup-insert pc pc (l ++ s ∷ []) m ∙ ground arith))
]

module _ (a : ℕ) where
  abbrev pub AreClear : ℕ → List Patch → Type 0
  AreClear fn l = Each (λ s. Clear a (u64 (fn + s.disp_off))) l

  abbrev pub SitesClear : List PatchSite → Type 0
  SitesClear l = Each (λ s. Clear a (u64 (s.holder + s.disp_off))) l

  patch_waiting-jump_of :
      (l : List PatchSite) (body : ℕ) (code : ℕ → ℕ)
      → SitesClear l
      → jump_of (patch_waiting l body code) a ≡ jump_of code a
  unfolding patch_waiting
  patch_waiting-jump_of [] body code clear = refl
  patch_waiting-jump_of (s ∷ l) body code clear =
      patch_waiting-jump_of l body (patch_site s.holder s.disp_off body code) clear.1
      ∙ jump_of-patch_other s.holder s.disp_off body code a clear.0

  Clear→Agrees :
      (pc target : ℕ) (l : List PatchSite) → SitesClear l → Each (SiteAgrees a pc target) l
  Clear→Agrees pc target [] c = tt
  Clear→Agrees pc target (s ∷ l) c = (inl c.0, Clear→Agrees pc target l c.1)

  Agrees→Clear :
      (pc target : ℕ) (l : List PatchSite)
      → target ≢ pc
      → Each (SiteAgrees a pc target) l
      → SitesClear l
  Agrees→Clear pc target [] ne h = tt
  Agrees→Clear pc target (s ∷ l) ne (inl clear, h) = (clear, Agrees→Clear pc target l ne h)
  Agrees→Clear pc target (s ∷ l) ne (inr (at, same), h) = absurd (ne same)

  -- The jump at a is not linked, and no site that waits touches it, unless it is its own, for pc.
  pub record IsUntouched (pc : ℕ) (c : Chains) : Type 0 where
    pub unlinked : jump_of c.code a ≡ u64 (a + 4)
    pub pending : PendingAgree a pc c.pending_patches

  -- moreover, the site waits for pc
  pub record IsLeft (pc : ℕ) (site : PatchSite) (c : Chains) : Type 0 where
    pub waits : IsWaiting pc site c.pending_patches
    pub untouched : IsUntouched pc c

  pub take_waiting-IsLeft :
      (pc other body : ℕ) (site : PatchSite) (c : Chains)
      → other ≢ pc
      → IsLeft pc site c
      → IsLeft pc site (take_waiting other body c)
  take_waiting-IsLeft pc other body site c ne h =
      elim (Option-cases (lookup other c.pending_patches)) [
        | inl e ↦ rw (take_waiting-none other body c e) h
        | inr (l, e) ↦ rw (take_waiting-some other body c l e) (
            let (before, after, found) = h.waits in
            let apart : (other == pc) ≡ false = ground arith in
            let clear = Agrees→Clear pc other l ne (h.untouched.pending other l e) in
            record {
              waits = (before, after, lookup-erase other pc c.pending_patches ∙ rw apart found);
              untouched = record {
                unlinked = patch_waiting-jump_of l body c.code clear ∙ h.untouched.unlinked;
                pending = erase-PendingAgree a pc other c.pending_patches h.untouched.pending;
              };
            })
      ]

  -- Sites that wait for the new block itself are patched, apart from a.
  pub take_waiting-IsUntouched :
      (pc body : ℕ) (c : Chains)
      → ((target : ℕ) (l : List PatchSite)
          → lookup target c.pending_patches ≡ some l
          → SitesClear l)
      → jump_of c.code a ≡ u64 (a + 4)
      → IsUntouched pc (take_waiting pc body c)
  take_waiting-IsUntouched pc body c clear unlinked =
      let agree : PendingAgree a pc c.pending_patches =
        λ target l e. Clear→Agrees pc target l (clear target l e) in
      elim (Option-cases (lookup pc c.pending_patches)) [
        | inl e ↦
            rw (take_waiting-none pc body c e) (record { unlinked = unlinked; pending = agree })
        | inr (l, e) ↦ rw (take_waiting-some pc body c l e) (record {
          unlinked = patch_waiting-jump_of l body c.code (clear pc l e) ∙ unlinked;
          pending = erase-PendingAgree a pc pc c.pending_patches agree;
        })
      ]

  pub link_own-IsUntouched :
      (pc fn : ℕ) (s : Patch) (c : Chains)
      → Clear a (u64 (fn + s.disp_off)) ⊎ (lookup s.target c.block_entry ≡ none)
      → Agrees a pc fn s.disp_off s.target
      → IsUntouched pc c
      → IsUntouched pc (link_own fn s c)
  link_own-IsUntouched pc fn s c apart agrees h =
      elim (Option-cases (lookup s.target c.block_entry)) [
        | inl e ↦ rw (link_own-none fn s c e) (record {
          unlinked = h.unlinked;
          pending =
              push-PendingAgree a pc s.target (record { holder = fn; disp_off = s.disp_off })
                c.pending_patches agrees h.pending;
        })
        | inr (body, e) ↦ rw (link_own-some fn body s c e) (record {
          unlinked = elim apart [
            | inl clear ↦ jump_of-patch_other fn s.disp_off body c.code a clear ∙ h.unlinked
            | inr new ↦ cc
          ];
          pending = h.pending;
        })
      ]

  link_own-IsWaiting :
      (pc fn : ℕ) (site : PatchSite) (s : Patch) (c : Chains)
      → IsWaiting pc site c.pending_patches
      → IsWaiting pc site (link_own fn s c).pending_patches
  link_own-IsWaiting pc fn site s c w = elim (Option-cases (lookup s.target c.block_entry)) [
    | inl e ↦ rw (link_own-none fn s c e) (
        push-IsWaiting pc s.target site (record { holder = fn; disp_off = s.disp_off })
          c.pending_patches w)
    | inr (body, e) ↦ rw (link_own-some fn body s c e) w
  ]

  pub link_all-IsLeft :
      (pc fn : ℕ) (site : PatchSite) (l : List Patch) (c : Chains)
      → AreClear fn l
      → IsLeft pc site c
      → IsLeft pc site (link_all fn l c)
  unfolding link_all
  link_all-IsLeft pc fn site [] c clear h = h
  link_all-IsLeft pc fn site (s ∷ l) c clear h =
      link_all-IsLeft pc fn site l (link_own fn s c) clear.1 (record {
        waits = link_own-IsWaiting pc fn site s c h.waits;
        untouched = link_own-IsUntouched pc fn s c (inl clear.0) (inl clear.0) h.untouched;
      })
