-- ===== src/StateMachineHsm/Cycles.antt =====
-- What `FindLCA` of state-machine/StateMachineHSM.cpp and the walk down to the new state do on a state
-- map in which parents go round.
use active_fsm.Base.{ℕ, zero, suc, ◌<◌, ◌≡◌, ◌≢◌, sym, subst, some, List, ==_ne, get_elem?, lt→ltb}
use active_fsm.Outcome.{err, hierarchy_too_deep}
use active_fsm.StateMachineHsm.{StateMapRowHsm, max_hsm_depth}
use active_fsm.StateMachineHsm.Ancestors.{is_ancestor, find_lca_from, find_lca, entry_chain}

-- States of the map whose parents are among them, so that none has a top-level ancestor
abbrev pub IsCyclic : {D U : Type 0} → ℕ → List (StateMapRowHsm D U) → (ℕ → Type 0) → Type 0
IsCyclic {D} {U} max_states state_map P =
    (s : ℕ)
    → P s
    → (s < max_states)
      × ((row : StateMapRowHsm D U) × (get_elem? state_map s ≡ some row) × P row.parent_state)

module _ {D U : Type 0} (max_states : ℕ) (state_map : List (StateMapRowHsm D U)) (P : ℕ → Type 0)
    (cyclic : IsCyclic max_states state_map P) where
  ne_member : (a s : ℕ) → (P a → ⊥) → P s → a ≢ s
  ne_member a s out p e = out (subst P (sym e) p)

  is_ancestor-too_deep :
      (left a b : ℕ)
      → (P a → ⊥)
      → P b
      → is_ancestor max_states state_map left a b ≡ err hierarchy_too_deep
  unfolding is_ancestor
  is_ancestor-too_deep zero a b out p = let (k, _) = cyclic b p in rw (lt→ltb b max_states k)
  is_ancestor-too_deep (suc left) a b out p =
      let (k, (row, e, p')) = cyclic b p in
      rw (lt→ltb b max_states k, ==_ne a b (ne_member a b out p), e)
        (is_ancestor-too_deep left a row.parent_state out p')

  -- If the new state is in a cycle of parents, and the old state is not, `FindLCA` asserts.
  pub find_lca-too_deep :
      (a b : ℕ)
      → a < max_states
      → (P a → ⊥)
      → P b
      → find_lca max_states state_map a b ≡ err hierarchy_too_deep
  unfolding find_lca find_lca_from
  find_lca-too_deep a b k out p =
      rw (lt→ltb a max_states k, is_ancestor-too_deep max_hsm_depth a b out p)

  -- The walk that collects the states to enter asserts in a cycle that the ancestor it looks for is not
  -- in, after any number of rounds.
  pub entry_chain-too_deep :
      (left s lca : ℕ)
      → (P lca → ⊥)
      → P s
      → entry_chain max_states state_map left s lca ≡ err hierarchy_too_deep
  unfolding entry_chain
  entry_chain-too_deep zero s lca out p =
      let (k, _) = cyclic s p in
      rw (lt→ltb s max_states k, ==_ne s lca (λ e. ne_member lca s out p (sym e)))
  entry_chain-too_deep (suc left) s lca out p =
      let (k, (row, e, p')) = cyclic s p in
      rw (
        lt→ltb s max_states k,
        ==_ne s lca (λ e. ne_member lca s out p (sym e)),
        e,
        entry_chain-too_deep left row.parent_state lca out p',
      )
