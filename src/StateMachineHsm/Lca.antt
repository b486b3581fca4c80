-- ===== src/StateMachineHsm/Lca.antt =====
-- What `FindLCA` of state-machine/StateMachineHSM.cpp returns, on a state map in which the two
-- states have chains.
use active_fsm.Base.{
  ℕ, zero, suc, true, false, ◌≤◌, ◌≡◌, refl, sym, subst, ◌⊎◌, inl, inr, List, [], ◌∷◌,
  if◌then◌else◌, length, arith, Bool-cases, le→ltb,
}
use active_fsm.Outcome.{ok}
use active_fsm.StateMachineHsm.{StateMapRowHsm, no_parent, max_hsm_depth}
use active_fsm.StateMachineHsm.Ancestors.{is_ancestor, find_lca_from, find_lca}
use active_fsm.StateMachineHsm.Chain.{elem, elem-cons, elem_self, elem-later, Chain, top, up}

-- The first of the first list that is in the second
abbrev pub first_common : List ℕ → List ℕ → ℕ
first_common [] ys = no_parent
first_common (x ∷ xs) ys = if elem x ys then x else first_common xs ys

-- No state is in both chains.
abbrev pub HaveNoCommon : List ℕ → List ℕ → Type 0
HaveNoCommon xs ys = (c : ℕ) → elem c xs ≡ true → elem c ys ≡ false

module _ {D U : Type 0} (max_states : ℕ) (state_map : List (StateMapRowHsm D U)) where
  -- The least common ancestor: it is in both chains, and its own chain has every state that is.
  abbrev pub IsLeastCommon : List ℕ → List ℕ → ℕ → Type 0
  IsLeastCommon xs ys l =
      (zs : List ℕ) × Chain max_states state_map l zs
      × (elem l xs ≡ true)
      × (elem l ys ≡ true)
      × ((c : ℕ) → elem c xs ≡ true → elem c ys ≡ true → elem c zs ≡ true)

  abbrev pub IsLca : List ℕ → List ℕ → ℕ → Type 0
  IsLca xs ys l = ((l ≡ no_parent) × HaveNoCommon xs ys) ⊎ IsLeastCommon xs ys l

no_common-cons :
    (x : ℕ) (xs ys : List ℕ) → elem x ys ≡ false → HaveNoCommon xs ys → HaveNoCommon (x ∷ xs) ys
no_common-cons x xs ys n h c m = elim (elem-cons c x xs m) [
  | inl e ↦ subst (λ k. elem k ys ≡ false) (sym e) n
  | inr e ↦ h c e
]

-- Whatever is in both chains is in that of the first common state.
later_common :
    (x : ℕ) (xs ys zs : List ℕ)
    → elem x ys ≡ false
    → ((c : ℕ) → elem c xs ≡ true → elem c ys ≡ true → elem c zs ≡ true)
    → (c : ℕ) → elem c (x ∷ xs) ≡ true
    → elem c ys ≡ true
    → elem c zs ≡ true
later_common x xs ys zs n h c m k = elim (elem-cons c x xs m) [
  | inl e ↦ absurd_of (subst (λ j. elem j ys ≡ true) e k)
  | inr e ↦ h c e k
]
  where
    absurd_of : elem x ys ≡ true → elem c zs ≡ true
    absurd_of p = cc

pub first_common-here : (x : ℕ) (xs ys : List ℕ) → elem x ys ≡ true → first_common (x ∷ xs) ys ≡ x
first_common-here x xs ys h = rw h

pub first_common-later :
    (x : ℕ) (xs ys : List ℕ) → elem x ys ≡ false → first_common (x ∷ xs) ys ≡ first_common xs ys
first_common-later x xs ys h = rw h

module _ {D U : Type 0} {max_states : ℕ} {state_map : List (StateMapRowHsm D U)} where
  is_ancestor_lem :
      (left a : ℕ) {b : ℕ} {ys : List ℕ}
      → Chain max_states state_map b ys
      → length ys ≤ left
      → is_ancestor max_states state_map left a b ≡ ok (elem a ys)
  unfolding is_ancestor
  is_ancestor_lem zero a (top {s = b} h) l = rw (le→ltb b max_states h)
  is_ancestor_lem (suc left) a (top {s = b} h) l = rw (le→ltb b max_states h)
  is_ancestor_lem zero a (up h r ch) l = absurd (omega arith)
  is_ancestor_lem (suc left) a (up {s = b} {row = row} {xs = ys} h r ch) l =
      ground (arith, is_ancestor_lem left a ch)

  find_lca_from_lem :
      (left : ℕ) {a b : ℕ} {xs ys : List ℕ}
      → Chain max_states state_map a xs
      → Chain max_states state_map b ys
      → length xs ≤ left
      → length ys ≤ max_hsm_depth
      → find_lca_from max_states state_map left a b ≡ ok (first_common xs ys)
  unfolding find_lca_from
  find_lca_from_lem zero (top {s = a} h) d l k = rw (le→ltb a max_states h)
  find_lca_from_lem (suc left) (top {s = a} h) d l k = rw (le→ltb a max_states h)
  find_lca_from_lem zero (up h r ch) d l k = absurd (omega arith)
  find_lca_from_lem (suc left) {b = b} {ys = ys} (up {s = a} {row = row} {xs = xs} h r ch) d l k =
      ground (arith, is_ancestor_lem max_hsm_depth a d, find_lca_from_lem left ch d)

  pub first_common-IsLca :
      {a : ℕ} {xs : List ℕ} (ys : List ℕ)
      → Chain max_states state_map a xs
      → IsLca max_states state_map xs ys (first_common xs ys)
  first_common-IsLca ys (top h) = inl (refl, λ c m. cc)
  first_common-IsLca ys (up {s = x} {xs = xs} h r ch) = elim (Bool-cases (elem x ys)) [
    | inl here ↦
        subst (IsLca max_states state_map (x ∷ xs) ys) (sym (first_common-here x xs ys here))
          (inr (x ∷ xs, up h r ch, elem_self x x xs refl, here, λ c m k. m))
    | inr later ↦
        subst (IsLca max_states state_map (x ∷ xs) ys) (sym (first_common-later x xs ys later))
          (step later (first_common-IsLca ys ch))
  ]
    where
      step :
          elem x ys ≡ false
          → IsLca max_states state_map xs ys (first_common xs ys)
          → IsLca max_states state_map (x ∷ xs) ys (first_common xs ys)
      step n (inl (e, h)) = inl (e, no_common-cons x xs ys n h)
      step n (inr (zs, d, m, k, least)) =
          inr (zs, d, elem-later _ x xs m, k, later_common x xs ys zs n least)

pub find_lca-first_common :
    {D U : Type 0} {max_states : ℕ} {state_map : List (StateMapRowHsm D U)} {a b : ℕ}
    {xs ys : List ℕ}
    → Chain max_states state_map a xs
    → Chain max_states state_map b ys
    → length xs ≤ max_hsm_depth
    → length ys ≤ max_hsm_depth
    → find_lca max_states state_map a b ≡ ok (first_common xs ys)
unfolding find_lca
find_lca-first_common c d k l = find_lca_from_lem max_hsm_depth c d k l

-- `FindLCA` returns the least common ancestor of two states that lie no deeper than the bound, and
-- `NO_PARENT` if they have none; it does not assert.
pub find_lca-IsLca :
    {D U : Type 0} {max_states : ℕ} {state_map : List (StateMapRowHsm D U)} {a b : ℕ}
    {xs ys : List ℕ}
    → Chain max_states state_map a xs
    → Chain max_states state_map b ys
    → length xs ≤ max_hsm_depth
    → length ys ≤ max_hsm_depth
    → (l : ℕ) × (find_lca max_states state_map a b ≡ ok l) × IsLca max_states state_map xs ys l
find_lca-IsLca {xs = xs} {ys = ys} c d k l =
    (first_common xs ys, find_lca-first_common c d k l, first_common-IsLca ys c)
