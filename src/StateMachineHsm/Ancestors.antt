-- ===== src/StateMachineHsm/Ancestors.antt =====
-- state-machine/StateMachineHSM.cpp: `FindLCA`, and the collection of the states to enter. Each
-- loop asserts that it makes at most `max_hsm_depth` rounds, so it recurs on the rounds left.
use active_fsm.Base.{
  ℕ, zero, suc, Bool, true, false, not, ◌&&◌, List, [], ◌∷◌, ltb, ◌==◌, if◌then◌else◌,
}
use active_fsm.Outcome.{Result, ok, err, bind, hierarchy_too_deep}
use active_fsm.StateMachineHsm.{StateMapRowHsm, no_parent, max_hsm_depth, parent_of}

module _ {D U : Type 0} (max_states : ℕ) (state_map : List (StateMapRowHsm D U)) where
  -- The inner loop of `FindLCA`: is `a` the state `b` or above it?
  unfoldable pub is_ancestor : ℕ → ℕ → ℕ → Result Bool
  is_ancestor zero a b = if ltb b max_states then err hierarchy_too_deep else ok false
  is_ancestor (suc left) a b =
      let rest = bind (parent_of state_map b) (λ p. is_ancestor left a p) in
      if ltb b max_states then (if a == b then ok true else rest) else ok false

  -- The outer loop
  unfoldable pub find_lca_from : ℕ → ℕ → ℕ → Result ℕ
  find_lca_from zero a b = if ltb a max_states then err hierarchy_too_deep else ok no_parent
  find_lca_from (suc left) a b =
      let next = bind (parent_of state_map a) (λ p. find_lca_from left p b) in
      if ltb a max_states
      then bind (is_ancestor max_hsm_depth a b) (λ found. if found then ok a else next)
      else ok no_parent

  -- `FindLCA`
  unfoldable pub find_lca : ℕ → ℕ → Result ℕ
  find_lca state_a state_b = find_lca_from max_hsm_depth state_a state_b

  -- The loop of `StateEngine` that fills `entryChain`, from the target up to, and without, `lca`
  unfoldable pub entry_chain : ℕ → ℕ → ℕ → Result (List ℕ)
  entry_chain zero s lca =
      if ltb s max_states && not (s == lca) then err hierarchy_too_deep else ok []
  entry_chain (suc left) s lca =
      let rest =
        bind (parent_of state_map s) (λ p. bind (entry_chain left p lca) (λ ss. ok (s ∷ ss))) in
      if ltb s max_states && not (s == lca) then rest else ok []
