-- ===== src/Witnesses/AnyMap.antt =====
-- An instance of a change of state on a malformed map: the parents of states 0 and 1 go round.
use active_fsm.Base.{ℕ, suc, ◌≤◌, none, List, [], ◌∷◌, ◌≡◌, ◌⊎◌, length, arith}
use active_fsm.Outcome.{Fault, faulted, ok, err}
use active_fsm.StateMachine.{Machine, Context}
use active_fsm.StateMachine.Observed.{Signal, observed}
use active_fsm.StateMachineHsm.{StateMapRowHsm, no_parent, max_hsm_depth}
use active_fsm.StateMachineHsm.Ancestors.{find_lca, entry_chain}
use active_fsm.StateMachineHsm.Engine.{change_state_hsm}
use active_fsm.StateMachineHsm.Transition.{planned}
use active_fsm.StateMachineHsm.AnyMap.{change_state_hsm-any}
use active_fsm.Witnesses.{thread_7}

abbrev c : Context (Unit {0}) ℕ
c = observed 3 tt (λ (x : Signal) u. suc u) thread_7

abbrev row : ℕ → StateMapRowHsm (Unit {0}) ℕ
row parent = record { state = none; guard = none; entry = none; exit = none; parent_state = parent }

abbrev state_map : List (StateMapRowHsm (Unit {0}) ℕ)
state_map = row 1 ∷ row 0 ∷ row no_parent ∷ []

change_state_hsm-any_example :
    ((e : Fault) × (find_lca 3 state_map 0 2 ≡ err e)
      × ((m : Machine (Unit {0}) ℕ) → change_state_hsm c state_map 0 2 none m ≡ faulted e m))
    ⊎ ((l : ℕ) × (exits : List ℕ) × (entries : List ℕ) × (find_lca 3 state_map 0 2 ≡ ok l)
        × (length exits ≤ max_hsm_depth)
        × (entry_chain 3 state_map max_hsm_depth 2 l ≡ ok entries)
        × (change_state_hsm c state_map 0 2 none ≡ planned c state_map exits entries 2 none))
change_state_hsm-any_example = change_state_hsm-any c state_map 0 2 none (omega arith)
