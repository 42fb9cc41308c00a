-- ===== src/Emu/Imports/Thunks.antt =====
-- The thunks: an address for each imported name, which the dispatcher reads back.
use text.Mathlib.TextEquality.{eq_iff}
use text.Mathlib.TextPositions.{eq_refl}
use reversetta.Prelude.{
  ℕ, zero, suc, ◌+◌, ◌*◌, ◌^◌, ◌≤◌, ◌<◌, ◌≡◌, ◌≢◌, refl, sym, ap, ◌∙◌, List, [], ◌∷◌, ◌++◌, Option,
  none, some, ◌⊎◌, length, get_elem?, String, arith, Option-cases, inl, inr, length-append,
}
use reversetta.Layout.{thunk_base}
use reversetta.Emu.State.{Emu, find}
use reversetta.Emu.Imports.{thunk_for, next_thunk}
use reversetta.Emu.Host.{thunk_index}

-- Every name in the table has the address of its place among the thunks, and there is room for the
-- thunks between the first one and the end of the address space.
pub record IsThunks (e : Emu) : Type 0 where
  pub room : length e.thunks < 2 ^ 57
  pub placed :
      (name : String) (addr : ℕ)
      → find name e.thunk_by_name ≡ some addr
      → (i : ℕ) × (get_elem? e.thunks i ≡ some name) × (addr ≡ thunk_base + i * 4)

get_elem?-lt : {A : Type 0} (xs : List A) (i : ℕ) (x : A) → get_elem? xs i ≡ some x → i < length xs
get_elem?-lt [] i x e = cc
get_elem?-lt (y ∷ xs) zero x e = omega arith
get_elem?-lt (y ∷ xs) (suc i) x e = omega (arith, get_elem?-lt xs i x e)

get_elem?-append_left :
    {A : Type 0} (xs ys : List A) (i : ℕ) (x : A)
    → get_elem? xs i ≡ some x
    → get_elem? (xs ++ ys) i ≡ some x
get_elem?-append_left [] ys i x e = cc
get_elem?-append_left (y ∷ xs) ys zero x e = e
get_elem?-append_left (y ∷ xs) ys (suc i) x e = get_elem?-append_left xs ys i x e

get_elem?-append_length :
    {A : Type 0} (xs : List A) (x : A) → get_elem? (xs ++ x ∷ []) (length xs) ≡ some x
get_elem?-append_length [] x = refl
get_elem?-append_length (y ∷ xs) x = get_elem?-append_length xs x

some_inj : {j k : String} → some j ≡ some k → j ≡ k
some_inj e = cc

thunk_for_known :
    (name : String) (e : Emu) (addr : ℕ)
    → find name e.thunk_by_name ≡ some addr
    → thunk_for name e ≡ (addr, e)
unfolding thunk_for
thunk_for_known name e addr h = rw (h, thunk_for)

abbrev extended : String → Emu → Emu
extended name e = record e {
  thunks = e.thunks ++ name ∷ [];
  thunk_by_name = (name, next_thunk e) ∷ e.thunk_by_name;
}

thunk_for_new :
    (name : String) (e : Emu)
    → find name e.thunk_by_name ≡ none
    → thunk_for name e ≡ (next_thunk e, extended name e)
unfolding thunk_for
thunk_for_new name e h = rw (h, thunk_for)

-- The name that the dispatcher finds for an address
abbrev pub name_at : Emu → ℕ → Option String
name_at e pc = get_elem? e.thunks (thunk_index pc)

name_at-placed :
    (e : Emu) (i addr : ℕ) (name : String)
    → i < 2 ^ 57
    → get_elem? e.thunks i ≡ some name
    → addr ≡ thunk_base + i * 4
    → name_at e addr ≡ some name
name_at-placed e i addr name fits at place =
    let index : thunk_index addr ≡ i = omega arith in rw index at'
  where
    at' : get_elem? e.thunks i ≡ some name
    at' = at

find_new : (name : String) (v : ℕ) (m : List (String × ℕ)) → find name ((name, v) ∷ m) ≡ some v
unfolding find
find_new name v m = simp (eq_refl)

-- With the tables right, the address that `thunk_for` gives for a name lies at or above the first
-- thunk, and the dispatcher finds that name at it; asking again gives the same address and changes
-- nothing.
pub thunk_for-name_at :
    (name : String) (e : Emu)
    → IsThunks e
    → let r = thunk_for name e in
      (thunk_base ≤ r.0) × (name_at r.1 r.0 ≡ some name) × (thunk_for name r.1 ≡ (r.0, r.1))
thunk_for-name_at name e h = elim (Option-cases (find name e.thunk_by_name)) [
  | inl new ↦
      let place : next_thunk e ≡ thunk_base + length e.thunks * 4 = omega (arith, h.room) in
      rw (thunk_for_new name e new) (
        omega arith,
        name_at-placed (extended name e) (length e.thunks) (next_thunk e) name h.room
            (get_elem?-append_length e.thunks name) place,
        thunk_for_known name (extended name e) (next_thunk e)
            (find_new name (next_thunk e) e.thunk_by_name),
      )
  | inr (addr, known) ↦
      let (i, at_i, place) = h.placed name addr known in
      rw (thunk_for_known name e addr known) (
        omega (arith, place),
        name_at-placed e i addr name (omega (arith, h.room, get_elem?-lt e.thunks i name at_i)) at_i
            place,
        thunk_for_known name e addr known,
      )
]

pub find_other :
    (j k : String) (v : ℕ) (m : List (String × ℕ)) (w : ℕ)
    → find j ((k, v) ∷ m) ≡ some w
    → ((j ≡ k) × (w ≡ v)) ⊎ (find j m ≡ some w)
unfolding find
find_other j k v m w e = ground (arith, eq_iff k j)

extended-IsThunks :
    (name : String) (e : Emu)
    → IsThunks e
    → length e.thunks + 1 < 2 ^ 57
    → IsThunks (extended name e)
extended-IsThunks name e h more = record {
  room = omega (arith, length-append e.thunks (name ∷ []));
  placed = λ j addr found. elim (find_other j name (next_thunk e) e.thunk_by_name addr found) [
    | inl (same, here) ↦
        (length e.thunks, rw same (get_elem?-append_length e.thunks name), omega (arith, h.room))
    | inr older ↦
        (let (i, at_i, place) = h.placed j addr older in
          (i, get_elem?-append_left e.thunks (name ∷ []) i j at_i, place))
  ];
}

-- Asking for a name keeps the table right, as long as there is room for one more thunk.
pub thunk_for-IsThunks :
    (name : String) (e : Emu)
    → IsThunks e
    → length e.thunks + 1 < 2 ^ 57
    → IsThunks (thunk_for name e).1
thunk_for-IsThunks name e h more = elim (Option-cases (find name e.thunk_by_name)) [
  | inl new ↦ rw (thunk_for_new name e new) (extended-IsThunks name e h more)
  | inr (addr, known) ↦ rw (thunk_for_known name e addr known) h
]

-- A name that is found at an address stays there.
name_at-thunk_for :
    (k n : String) (e : Emu) (pc : ℕ)
    → name_at e pc ≡ some n
    → name_at (thunk_for k e).1 pc ≡ some n
name_at-thunk_for k n e pc at = elim (Option-cases (find k e.thunk_by_name)) [
  | inl new ↦
      rw (thunk_for_new k e new) (get_elem?-append_left e.thunks (k ∷ []) (thunk_index pc) n at)
  | inr (addr, known) ↦ rw (thunk_for_known k e addr known) at
]

-- With the tables right, two names never share an address: whichever of them is known already, the
-- addresses that `thunk_for` gives for one and then the other differ, as long as there is room for
-- one more thunk.
pub thunk_for_injective :
    (j k : String) (e : Emu)
    → IsThunks e
    → length e.thunks + 1 < 2 ^ 57
    → j ≢ k
    → let r = thunk_for j e in (thunk_for k r.1).0 ≢ r.0
thunk_for_injective j k e h more differ same =
    let first = thunk_for-name_at j e h in
    let r = thunk_for j e in
    let second = thunk_for-name_at k r.1 (thunk_for-IsThunks j e h more) in
    let kept : name_at (thunk_for k r.1).1 r.0 ≡ some j = name_at-thunk_for k j r.1 r.0 first.1 in
    let found : name_at (thunk_for k r.1).1 (thunk_for k r.1).0 ≡ some k = second.1 in
    differ (some_inj (sym kept ∙ sym (ap (name_at (thunk_for k r.1).1) same) ∙ found))
