-- ===== src/Witnesses/Hierarchy.antt =====
-- Tests and instances for a hierarchical machine with the states of unit-tests/StateMachineHSMTests.cpp:
-- 0 and 1 at the top, 2 and 3 below 1. Each entry and exit is noted.
use active_fsm.Base.{
  ℕ, false, not, ◌&&◌, none, some, List, [], ◌∷◌, ◌++◌, ◌≡◌, refl, ◌⊎◌, inl, inr, arith,
}
use active_fsm.Outcome.{err, hierarchy_too_deep, ok, unfinished}
use active_fsm.StateMachine.{Machine, Context}
use active_fsm.StateMachine.Events.{external_event}
use active_fsm.StateMachine.Observed.{observed, modify_object}
use active_fsm.StateMachineHsm.{StateMapRowHsm, no_parent, propagate_to_parent}
use active_fsm.StateMachineHsm.Ancestors.{find_lca, find_lca_from, is_ancestor}
use active_fsm.StateMachineHsm.Engine.{change_state_hsm, state_engine_hsm}
use active_fsm.StateMachineHsm.Propagation.{resolve, end_transition_map_hsm}
use active_fsm.StateMachineHsm.Chain.{Chain, top, up, elem}
use active_fsm.StateMachineHsm.Lca.{IsLca, find_lca-IsLca}
use active_fsm.StateMachineHsm.Transition.{planned, change_state_hsm_lem}
use active_fsm.StateMachineHsm.Handlers.{end_transition_map_hsm-handler, IsLoop, resolve-unfinished}
use active_fsm.StateMachineHsm.Cycles.{IsCyclic, find_lca-too_deep}
use active_fsm.Witnesses.{thread_7}

pub data Note : Type 0 where
  entry exit action : ℕ → Note

abbrev row : ℕ → ℕ → StateMapRowHsm (Unit {0}) (List Note)
row s parent = record {
  state = some λ d. modify_object (λ u. action s ∷ u);
  guard = none;
  entry = some λ d. modify_object (λ u. entry s ∷ u);
  exit = some (modify_object λ u. exit s ∷ u);
  parent_state = parent;
}

abbrev state_map : List (StateMapRowHsm (Unit {0}) (List Note))
state_map = row 0 no_parent ∷ row 1 no_parent ∷ row 2 1 ∷ row 3 1 ∷ []

abbrev c : Context (Unit {0}) (List Note)
c = observed 4 tt (λ x u. u) thread_7

Chain-2 : Chain 4 state_map 2 (2 ∷ 1 ∷ [])
Chain-2 = up (omega arith) refl (up (omega arith) refl (top (omega arith)))

Chain-3 : Chain 4 state_map 3 (3 ∷ 1 ∷ [])
Chain-3 = up (omega arith) refl (up (omega arith) refl (top (omega arith)))

find_lca-IsLca_example :
    (l : ℕ) × (find_lca 4 state_map 2 3 ≡ ok l) × IsLca 4 state_map (2 ∷ 1 ∷ []) (3 ∷ 1 ∷ []) l
find_lca-IsLca_example = find_lca-IsLca Chain-2 Chain-3 (omega arith) (omega arith)

siblings_lca : find_lca 4 state_map 2 3 ≡ ok 1
unfolding find_lca find_lca_from is_ancestor
siblings_lca = refl

change_state_hsm_lem_example :
    (exits : List ℕ) × (entries : List ℕ) × (change_state_hsm c state_map 2 3 (some tt)
      ≡ planned c state_map exits entries 3 (some tt))
    × ((rest : List ℕ) × (2 ∷ 1 ∷ [] ≡ exits ++ rest))
    × ((rest : List ℕ) × (3 ∷ 1 ∷ [] ≡ entries ++ rest))
    × ((s : ℕ) → elem s exits ≡ (elem s (2 ∷ 1 ∷ []) && not (elem s (3 ∷ 1 ∷ []))))
    × ((s : ℕ) → elem s entries ≡ (elem s (3 ∷ 1 ∷ []) && not (elem s (2 ∷ 1 ∷ []))))
change_state_hsm_lem_example =
    change_state_hsm_lem c (some tt) (omega arith) Chain-2 Chain-3 (omega arith) (omega arith)

-- State 1 handles the event; its children propagate it.
abbrev go_top : List ℕ
go_top = 0xFE ∷ 0 ∷ propagate_to_parent ∷ propagate_to_parent ∷ []

abbrev in_child : Machine (Unit {0}) (List Note)
in_child = record {
  current_state = 2;
  new_state = 2;
  event_generated = false;
  event_data = none;
  thread = none;
  object = [];
}

end_transition_map_hsm-handler_example :
    end_transition_map_hsm c
      (state_engine_hsm c (some state_map) 1)
      state_map
      2
      go_top
      4
      none
      in_child
    ≡ external_event c (state_engine_hsm c (some state_map) 1) 0 none in_child
end_transition_map_hsm-handler_example =
    end_transition_map_hsm-handler c (state_engine_hsm c (some state_map) 1) state_map 2 go_top none
      in_child Chain-2 (omega arith) (omega arith)

-- Two states that are each other's parents
abbrev cyclic_map : List (StateMapRowHsm (Unit {0}) (List Note))
cyclic_map = row 0 1 ∷ row 1 0 ∷ []

abbrev both_propagate : List ℕ
both_propagate = propagate_to_parent ∷ propagate_to_parent ∷ []

cyclic-IsLoop : IsLoop cyclic_map both_propagate (λ s. (s ≡ 0) ⊎ (s ≡ 1))
cyclic-IsLoop = record {
  propagates = λ s p. elim p [ inl e ↦ rw e | inr e ↦ rw e ];
  parent = λ s p. elim p [
    | inl e ↦ rw e (row 0 1, refl, omega arith, inr refl)
    | inr e ↦ rw e (row 1 0, refl, omega arith, inl refl)
  ];
}

resolve-unfinished_example : resolve cyclic_map both_propagate 2 100 0 in_child ≡ unfinished
resolve-unfinished_example =
    resolve-unfinished cyclic_map both_propagate (λ s. (s ≡ 0) ⊎ (s ≡ 1)) 100 0 in_child
      cyclic-IsLoop (inl refl)

-- State 0 at the top, and 1 and 2 that are each other's parents
abbrev partly_cyclic : List (StateMapRowHsm (Unit {0}) (List Note))
partly_cyclic = row 0 no_parent ∷ row 1 2 ∷ row 2 1 ∷ []

partly_cyclic-IsCyclic : IsCyclic 3 partly_cyclic (λ s. (s ≡ 1) ⊎ (s ≡ 2))
partly_cyclic-IsCyclic s (inl e) = rw e (omega arith, (row 1 2, refl, inr refl))
partly_cyclic-IsCyclic s (inr e) = rw e (omega arith, (row 2 1, refl, inl refl))

zero_is_out : (s : ℕ) → s ≡ 0 → ((s ≡ 1) ⊎ (s ≡ 2)) → ⊥
zero_is_out s z (inl e) = omega arith
zero_is_out s z (inr e) = omega arith

find_lca-too_deep_example : find_lca 3 partly_cyclic 0 2 ≡ err hierarchy_too_deep
find_lca-too_deep_example =
    find_lca-too_deep 3 partly_cyclic (λ s. (s ≡ 1) ⊎ (s ≡ 2)) partly_cyclic-IsCyclic 0 2
      (omega arith) (zero_is_out 0 refl) (inr refl)
