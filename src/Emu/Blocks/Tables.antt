-- ===== src/Emu/Blocks/Tables.antt =====
-- The tables of blocks, and what the parts of linking do to them.
use reversetta.Prelude.{
  ℕ, ◌^◌, ◌<◌, List, [], ◌∷◌, ◌++◌, true, none, some, ◌≡◌, ◌==◌, inl, inr, refl, sym, ◌∙◌, arith,
  Bool-cases, Option-cases, Each, Each-append, subst, ==_iff,
}
use reversetta.Emitter.State.{Patch}
use reversetta.Emu.State.{Chains, PatchSite, lookup, insert, lookup-insert}
use reversetta.Emu.Blocks.{patch_site, take_waiting, push_waiting, link_own, link_all}
use reversetta.Emu.Blocks.Linking.{SiteAgrees, PendingAgree}

-- each body has a 64-bit address
abbrev pub AreBodies : List (ℕ × ℕ) → Type 0
AreBodies m = (k b : ℕ) → lookup k m ≡ some b → b < 2 ^ 64

pub insert-AreBodies :
    (k b : ℕ) (m : List (ℕ × ℕ)) → b < 2 ^ 64 → AreBodies m → AreBodies (insert k b m)
insert-AreBodies k b m h all j v e = elim (Bool-cases (k == j)) [
  | inl q ↦
      let same : some b ≡ some v = sym (lookup-insert k j b m ∙ rw q) ∙ e in ground (arith, same)
  | inr q ↦ all j v (sym (lookup-insert k j b m ∙ rw q) ∙ e)
]

-- every entry of the first table is in the second
abbrev pub Grows : List (ℕ × ℕ) → List (ℕ × ℕ) → Type 0
Grows m n = (k b : ℕ) → lookup k m ≡ some b → lookup k n ≡ some b

pub insert-Grows : (k b : ℕ) (m : List (ℕ × ℕ)) → lookup k m ≡ none → Grows m (insert k b m)
insert-Grows k b m new j v e = elim (Bool-cases (k == j)) [
  | inl q ↦ absurd (clash q)
  | inr q ↦ lookup-insert k j b m ∙ rw q e
]
  where
    clash : (k == j) ≡ true → ⊥
    clash q = ground (arith, e, new)

pub take_waiting-entries :
    (pc body : ℕ) (c : Chains)
    → ((take_waiting pc body c).block_entry ≡ c.block_entry)
      × ((take_waiting pc body c).blocks ≡ c.blocks)
unfolding take_waiting
take_waiting-entries pc body c = ground arith

pub link_own-entries :
    (fn : ℕ) (s : Patch) (c : Chains)
    → ((link_own fn s c).block_entry ≡ c.block_entry) × ((link_own fn s c).blocks ≡ c.blocks)
unfolding link_own
link_own-entries fn s c = ground arith

pub link_all-entries :
    (fn : ℕ) (l : List Patch) (c : Chains)
    → ((link_all fn l c).block_entry ≡ c.block_entry) × ((link_all fn l c).blocks ≡ c.blocks)
unfolding link_all
link_all-entries fn [] c = (refl, refl)
link_all-entries fn (s ∷ l) c =
    let own = link_own-entries fn s c in
    let rest = link_all-entries fn l (link_own fn s c) in (rest.0 ∙ own.0, rest.1 ∙ own.1)

pub link_own-some :
    (fn body : ℕ) (s : Patch) (c : Chains)
    → lookup s.target c.block_entry ≡ some body
    → link_own fn s c ≡ record c { code = patch_site fn s.disp_off body c.code }
unfolding link_own
link_own-some fn body s c e = rw (e, link_own)

pub link_own-none :
    (fn : ℕ) (s : Patch) (c : Chains)
    → lookup s.target c.block_entry ≡ none
    → link_own fn s c ≡ record c {
      pending_patches =
          push_waiting s.target (record { holder = fn; disp_off = s.disp_off }) c.pending_patches;
    }
unfolding link_own
link_own-none fn s c e = rw (e, link_own)

pub push-none :
    (target : ℕ) (s : PatchSite) (m : List (ℕ × List PatchSite))
    → lookup target m ≡ none
    → push_waiting target s m ≡ insert target (s ∷ []) m
unfolding push_waiting
push-none target s m e = rw (e, push_waiting)

pub push-some :
    (target : ℕ) (s : PatchSite) (m : List (ℕ × List PatchSite)) (l : List PatchSite)
    → lookup target m ≡ some l
    → push_waiting target s m ≡ insert target (l ++ s ∷ []) m
unfolding push_waiting
push-some target s m l e = rw (e, push_waiting)

some_inj {ℓ} : {A : Type ℓ} {x y : A} → some x ≡ some y → x ≡ y
some_inj e = cc

module _ (a t : ℕ) where
  insert-PendingAgree :
      (target : ℕ) (l : List PatchSite) (m : List (ℕ × List PatchSite))
      → Each (SiteAgrees a t target) l
      → PendingAgree a t m
      → PendingAgree a t (insert target l m)
  insert-PendingAgree target l m h all j k e = elim (Bool-cases (target == j)) [
    | inl q ↦
        let same_list : l ≡ k = some_inj (sym (lookup-insert target j l m ∙ rw q) ∙ e) in
        subst (λ z. Each (SiteAgrees a t z) k) ((==_iff target j).0 q)
          (subst (λ z. Each (SiteAgrees a t target) z) same_list h)
    | inr q ↦ all j k (sym (lookup-insert target j l m ∙ rw q) ∙ e)
  ]

  pub push-PendingAgree :
      (target : ℕ) (s : PatchSite) (m : List (ℕ × List PatchSite))
      → SiteAgrees a t target s
      → PendingAgree a t m
      → PendingAgree a t (push_waiting target s m)
  push-PendingAgree target s m h all = elim (Option-cases (lookup target m)) [
    | inl e ↦ rw (push-none target s m e) (insert-PendingAgree target (s ∷ []) m (h, tt) all)
    | inr (l, e) ↦ rw (push-some target s m l e) (
        insert-PendingAgree target (l ++ s ∷ []) m
          (Each-append (SiteAgrees a t target) l (s ∷ []) (all target l e) (h, tt)) all)
  ]
