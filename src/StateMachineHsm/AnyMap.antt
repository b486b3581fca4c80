-- ===== src/StateMachineHsm/AnyMap.antt =====
-- A change of state of state-machine/StateMachineHSM.cpp on any state map, malformed ones included: what
-- `FindLCA` checks is enough for the loops behind it.
use active_fsm.Base.{
  ℕ, zero, suc, ◌≤◌, ◌<◌, Bool, true, false, ◌≡◌, refl, sym, ap, subst, fun_ext, ◌⊎◌, inl, inr,
  Option, none, some, List, [], ◌∷◌, ◌==◌, if◌then◌else◌, length, get_elem?, ltb, arith, Bool-cases,
  lt→ltb,
}
use active_fsm.Outcome.{Fault, faulted, Result, ok, err, bind, for_each, ◌>>◌}
use active_fsm.StateMachine.{Machine, Context}
use active_fsm.StateMachineHsm.{StateMapRowHsm, max_hsm_depth, parent_of, parent_of_row}
use active_fsm.StateMachineHsm.Ancestors.{is_ancestor, find_lca_from, find_lca, entry_chain}
use active_fsm.StateMachineHsm.Engine.{leave, exit_up, change_state_hsm}
use active_fsm.StateMachineHsm.Transition.{planned}

bind-eq-ok :
    {A B : Type 0} (r : Result A) (f : A → Result B) {b : B}
    → bind r f ≡ ok b
    → (a : A) × (r ≡ ok a) × (f a ≡ ok b)
bind-eq-ok (ok a) f h = (a, refl, h)
bind-eq-ok (err e) f h = absurd (cc)

Result-cases : {A : Type 0} (r : Result A) → ((e : Fault) × (r ≡ err e)) ⊎ ((a : A) × (r ≡ ok a))
Result-cases (ok a) = inr (a, refl)
Result-cases (err e) = inl (e, refl)

row-eq-ok :
    {D U : Type 0} (o : Option (StateMapRowHsm D U)) {p : ℕ}
    → parent_of_row o ≡ ok p
    → (row : StateMapRowHsm D U) × (o ≡ some row) × (row.parent_state ≡ p)
row-eq-ok none h = absurd (cc)
row-eq-ok (some row) h = (row, refl, ground arith)

later :
    (found : Bool) (a l : ℕ) (next : Result ℕ)
    → (if found then ok a else next) ≡ ok l
    → (a == l) ≡ false
    → next ≡ ok l
later true a l next h other = absurd (different a l h other)
  where
    different : (a l : ℕ) → ◌≡◌ {A = Result ℕ} (ok a) (ok l) → (a == l) ≡ false → ⊥
    different a l h other = ground arith
later false a l next h other = h

met :
    (found : Bool) (a l : ℕ) (next : Result ℕ)
    → (if found then ok a else next) ≡ ok l
    → (found ≡ false) ⊎ (l ≡ a)
met true a l next h = inr (ground arith)
met false a l next h = inl refl

apart :
    (x b l : ℕ) {found : Bool}
    → ◌≡◌ {A = Result Bool} (ok true) (ok found)
    → (found ≡ false) ⊎ (l ≡ x)
    → (x == b) ≡ true
    → (b == l) ≡ false
    → ⊥
apart x b l h (inl f) met other = cc
apart x b l h (inr e) met other = ground arith

module _ {D U : Type 0} (max_states : ℕ) (state_map : List (StateMapRowHsm D U)) where
  -- Where the inner loop of `FindLCA` ends, the loop that collects the states to enter does.
  entry_chain-ends :
      (left x b l : ℕ) {found : Bool}
      → is_ancestor max_states state_map left x b ≡ ok found
      → (found ≡ false) ⊎ (l ≡ x)
      → (ss : List ℕ) × (entry_chain max_states state_map left b l ≡ ok ss)
  unfolding is_ancestor entry_chain
  entry_chain-ends zero x b l h o = elim (Bool-cases (ltb b max_states)) [
    | inl e ↦ let h' = rw e at h in absurd (cc)
    | inr e ↦ rw e ([], refl)
  ]
  entry_chain-ends (suc left) x b l h o = elim (Bool-cases (ltb b max_states)) [
    | inl e ↦ elim (Bool-cases (b == l)) [
      | inl same ↦ rw (e, same) ([], refl)
      | inr other ↦ elim (Bool-cases (x == b)) [
        | inl met ↦ let h' = rw (e, met) at h in absurd (apart x b l h' o met other)
        | inr on ↦
            let (p, e₁, h₁) =
              bind-eq-ok (parent_of state_map b) (λ p. is_ancestor max_states state_map left x p)
                (rw (e, on) at h) in
            let (ss, e₂) = entry_chain-ends left x p l h₁ o in rw (e, other, e₁, e₂) (b ∷ ss, refl)
      ]
    ]
    | inr e ↦ rw e ([], refl)
  ]

module _ {D U : Type 0} (c : Context D U) (state_map : List (StateMapRowHsm D U)) where
  -- Where the outer loop ends, the exit loop does, within as many rounds.
  exit_up-ends :
      (left a b l : ℕ)
      → find_lca_from c.max_states state_map left a b ≡ ok l
      → (ss : List ℕ) × (length ss ≤ left)
        × (exit_up c state_map left a l ≡ for_each (leave c state_map) ss)
  unfolding find_lca_from exit_up for_each
  exit_up-ends zero a b l h = elim (Bool-cases (ltb a c.max_states)) [
    | inl e ↦ let h' = rw e at h in absurd (cc)
    | inr e ↦ rw e ([], omega arith, refl)
  ]
  exit_up-ends (suc left) a b l h = elim (Bool-cases (ltb a c.max_states)) [
    | inl e ↦ elim (Bool-cases (a == l)) [
      | inl same ↦ rw (e, same) ([], omega arith, refl)
      | inr other ↦
          let (found, e₁, h₁) =
            bind-eq-ok (is_ancestor c.max_states state_map max_hsm_depth a b) _ (rw e at h) in
          let (p, e₂, h₂) =
            bind-eq-ok (parent_of state_map a) (λ p. find_lca_from c.max_states state_map left p b)
              (later found a l _ h₁ other) in
          let (row, e₃, q) = row-eq-ok (get_elem? state_map a) e₂ in
          let (ss, k, e₄) =
            exit_up-ends left row.parent_state b l
              (subst (λ s. find_lca_from c.max_states state_map left s b ≡ ok l) (sym q) h₂) in
          rw (e, other, e₃) (a ∷ ss, omega arith, ap (◌>>◌ (leave c state_map a)) e₄)
    ]
    | inr e ↦ rw e ([], omega arith, refl)
  ]

  -- The first round of the outer loop has seen the end of the chain of `b`, or `b` below `a`.
  first_round :
      (left a b l : ℕ)
      → a < c.max_states
      → find_lca_from c.max_states state_map (suc left) a b ≡ ok l
      → (found : Bool) × (is_ancestor c.max_states state_map max_hsm_depth a b ≡ ok found)
        × ((found ≡ false) ⊎ (l ≡ a))
  unfolding find_lca_from
  first_round left a b l k h =
      let (found, e, h') =
        bind-eq-ok (is_ancestor c.max_states state_map max_hsm_depth a b) _
          (rw (lt→ltb a c.max_states k) at h) in
      (found, e, met found a l _ h')

  -- A change of state from a state of the machine, whatever the parent column of the state map holds.
  -- Either `FindLCA` faults, and then the change faults likewise with the machine untouched; or it does
  -- not, and then the bounds of the two loops behind it are never met: the change runs the exits of at
  -- most 32 states, sets the new state, and runs the entries that it has collected.
  pub change_state_hsm-any :
      (a b : ℕ) (d : Option D)
      → a < c.max_states
      → ((e : Fault) × (find_lca c.max_states state_map a b ≡ err e)
          × ((m : Machine D U) → change_state_hsm c state_map a b d m ≡ faulted e m))
        ⊎ ((l : ℕ) × (exits : List ℕ) × (entries : List ℕ) × (find_lca c.max_states state_map a b
              ≡ ok l)
            × (length exits ≤ max_hsm_depth)
            × (entry_chain c.max_states state_map max_hsm_depth b l ≡ ok entries)
            × (change_state_hsm c state_map a b d ≡ planned c state_map exits entries b d))
  unfolding change_state_hsm find_lca
  change_state_hsm-any a b d h = elim (Result-cases (find_lca c.max_states state_map a b)) [
    | inl (e, f) ↦ inl (e, f, λ m. rw f)
    | inr (l, f) ↦
        let (exits, k, x) = exit_up-ends max_hsm_depth a b l f in
        let (found, g, o) = first_round 31 a b l h f in
        let (entries, y) = entry_chain-ends c.max_states state_map max_hsm_depth a b l g o in
        inr (l, exits, entries, f, k, y, fun_ext λ m. rw (f, x, y))
  ]
