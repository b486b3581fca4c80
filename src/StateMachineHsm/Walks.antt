-- ===== src/StateMachineHsm/Walks.antt =====
-- Which states a transition of state-machine/StateMachineHSM.cpp leaves and enters.
use active_fsm.Base.{
  ℕ, zero, suc, true, false, not, ◌&&◌, ◌≤◌, ◌<◌, ◌≡◌, ◌≢◌, refl, sym, ap, ◌∙◌, subst, inl, inr,
  List, [], ◌∷◌, ◌==◌, if◌then◌else◌, length, arith, Bool-cases, ==_cases, lt→ltb, le→ltb,
}
use active_fsm.Outcome.{ok, for_each, ◌>>◌}
use active_fsm.StateMachine.{Context}
use active_fsm.StateMachineHsm.{StateMapRowHsm, no_parent}
use active_fsm.StateMachineHsm.Ancestors.{entry_chain}
use active_fsm.StateMachineHsm.Engine.{leave, exit_up}
use active_fsm.StateMachineHsm.Chain.{elem, Chain, top, up, elem-Chain}
use active_fsm.StateMachineHsm.Lca.{first_common, first_common-here, first_common-later}

-- The part of a chain below an ancestor; all of it, if `l` is not in it.
abbrev pub below : ℕ → List ℕ → List ℕ
below l [] = []
below l (x ∷ xs) = if x == l then [] else x ∷ below l xs

below_here :
    (c x l : ℕ) (xs ys : List ℕ)
    → x ≡ l
    → (elem c (x ∷ xs) ≡ true → elem c ys ≡ true)
    → elem c (below l (x ∷ xs)) ≡ (elem c (x ∷ xs) && not (elem c ys))
below_here c x l xs ys e h = ground arith

below_later :
    (c x l : ℕ) (xs ys : List ℕ)
    → x ≢ l
    → elem x ys ≡ false
    → elem c (below l xs) ≡ (elem c xs && not (elem c ys))
    → elem c (below l (x ∷ xs)) ≡ (elem c (x ∷ xs) && not (elem c ys))
below_later c x l xs ys n h ih = elim (==_cases c x) [
  | inl e ↦ let h' : elem c ys ≡ false = subst (λ k. elem k ys ≡ false) (sym e) h in ground arith
  | inr e ↦ ground arith
]

-- A state below the bound is not what `first_common` finds later on, if it is not in the other list.
first_common-ne :
    (x : ℕ) (xs ys : List ℕ) → x < no_parent → elem x ys ≡ false → x ≢ first_common xs ys
first_common-ne x [] ys k h e = omega arith
first_common-ne x (z ∷ xs) ys k h e = elim (Bool-cases (elem z ys)) [
  | inl here ↦
      let m : elem x ys ≡ true =
        subst (λ j. elem j ys ≡ true) (sym (e ∙ first_common-here z xs ys here)) here in
      cc
  | inr later ↦ first_common-ne x xs ys k h (e ∙ first_common-later z xs ys later)
]

module _ {D U : Type 0} {max_states : ℕ} {state_map : List (StateMapRowHsm D U)} where
  -- The states to enter are those of the chain below the ancestor, leaf first.
  pub entry_chain_lem :
      (left l : ℕ) {s : ℕ} {xs : List ℕ}
      → Chain max_states state_map s xs
      → length xs ≤ left
      → entry_chain max_states state_map left s l ≡ ok (below l xs)
  unfolding entry_chain
  entry_chain_lem zero l (top {s = s} h) k = rw (le→ltb s max_states h)
  entry_chain_lem (suc left) l (top {s = s} h) k = rw (le→ltb s max_states h)
  entry_chain_lem zero l (up h r ch) k = absurd (omega arith)
  entry_chain_lem (suc left) l (up {s = s} h r ch) k = ground (arith, entry_chain_lem left l ch)

  -- What a change of state leaves: the states above the old one that are not above the new one.
  pub elem-below-first_common :
      (c : ℕ) {a b : ℕ} {xs ys : List ℕ}
      → max_states ≤ no_parent
      → Chain max_states state_map a xs
      → Chain max_states state_map b ys
      → elem c (below (first_common xs ys) xs) ≡ (elem c xs && not (elem c ys))
  elem-below-first_common c k (top h) d = refl
  elem-below-first_common c {ys = ys} k (up {s = x} {xs = xs} h r ch) d =
      elim (Bool-cases (elem x ys)) [
        | inl here ↦
            below_here c x _ xs ys (sym (first_common-here x xs ys here))
              (λ m. elem-Chain c d here (up h r ch) m)
        | inr later ↦
            subst (λ l. elem c (below l (x ∷ xs)) ≡ (elem c (x ∷ xs) && not (elem c ys)))
              (sym (first_common-later x xs ys later))
              (below_later c x (first_common xs ys) xs ys
                (first_common-ne x xs ys (omega arith) later) later
                (elem-below-first_common c k ch d))
      ]

module _ {D U : Type 0} (c : Context D U) {state_map : List (StateMapRowHsm D U)} where
  pub exit_up_lem :
      (left l : ℕ) {s : ℕ} {xs : List ℕ}
      → Chain c.max_states state_map s xs
      → length xs ≤ left
      → exit_up c state_map left s l ≡ for_each (leave c state_map) (below l xs)
  unfolding exit_up for_each
  exit_up_lem zero l (top {s = s} h) k = rw (le→ltb s c.max_states h)
  exit_up_lem (suc left) l (top {s = s} h) k = rw (le→ltb s c.max_states h)
  exit_up_lem zero l (up h r ch) k = absurd (omega arith)
  exit_up_lem (suc left) l (up {s = s} {xs = xs} h r ch) k = elim (Bool-cases (s == l)) [
    | inl e ↦ rw (lt→ltb s c.max_states h, e)
    | inr e ↦
        rw (lt→ltb s c.max_states h, e, r)
          (ap (◌>>◌ (leave c state_map s)) (exit_up_lem left l ch (omega arith)))
  ]
