-- ===== src/Witnesses/HierarchyRun.antt =====
-- An instance of the hierarchical engine on a machine with three states: 0 and 1 at the top, 2 below
-- 1. State 2 posts an event for state 0.
use active_fsm.Base.{
  ℕ, true, zero, suc, ◌<◌, ◌≤◌, none, some, List, [], ◌∷◌, ◌≡◌, refl, get_elem?, length, arith,
}
use active_fsm.Outcome.{done}
use active_fsm.StateMachine.{Context}
use active_fsm.StateMachine.Events.{external_event, is_on_state_machine_thread}
use active_fsm.StateMachine.Termination.{PostsFall}
use active_fsm.StateMachineHsm.Termination.{external_event-rests_hsm}
use active_fsm.StateMachine.Engine.{run_events}
use active_fsm.StateMachine.Observed.{Signal, observed, Actions}
use active_fsm.StateMachine.Spec.{Config, respond_all}
use active_fsm.StateMachine.Rounds.{at_rest, machine_of, outcome_of, InRange}
use active_fsm.StateMachine.Refinement.{PostsBelow}
use active_fsm.StateMachineHsm.{StateMapRowHsm, no_parent, max_hsm_depth}
use active_fsm.StateMachineHsm.Engine.{turn_hsm, state_engine_hsm}
use active_fsm.StateMachineHsm.Chain.{Chain, top, up}
use active_fsm.StateMachineHsm.Spec.{respond_hsm}
use active_fsm.StateMachineHsm.Refinement.{row_of_hsm, run_events-refines_hsm}
use active_fsm.Witnesses.{keep, thread_7}

abbrev quiet : Actions (Unit {0}) (List Signal)
quiet = record { act = λ d u. (u, none); guard = none; entry = none; exit = none }

abbrev rows : ℕ → Actions (Unit {0}) (List Signal)
rows (suc (suc zero)) = record quiet { act = λ d u. (u, some (0, none)) }
rows _ = quiet

abbrev parents : ℕ → ℕ
parents (suc (suc zero)) = 1
parents _ = no_parent

abbrev c : Context (Unit {0}) (List Signal)
c = observed 3 tt keep thread_7

abbrev row : ℕ → StateMapRowHsm (Unit {0}) (List Signal)
row = row_of_hsm c rows parents

abbrev state_map : List (StateMapRowHsm (Unit {0}) (List Signal))
state_map = row 0 ∷ row 1 ∷ row 2 ∷ []

state_map-filled : (s : ℕ) → s < 3 → get_elem? state_map s ≡ some (row s)
state_map-filled zero h = refl
state_map-filled (suc zero) h = refl
state_map-filled (suc (suc zero)) h = refl
state_map-filled (suc (suc (suc s))) h = absurd (omega arith)

abbrev chains : ℕ → List ℕ
chains (suc (suc zero)) = 2 ∷ 1 ∷ []
chains s = s ∷ []

chained : (s : ℕ) → s < 3 → Chain 3 state_map s (chains s) × (length (chains s) ≤ max_hsm_depth)
chained zero h = (up (omega arith) refl (top (omega arith)), omega arith)
chained (suc zero) h = (up (omega arith) refl (top (omega arith)), omega arith)
chained (suc (suc zero)) h =
    (up (omega arith) refl (up (omega arith) refl (top (omega arith))), omega arith)
chained (suc (suc (suc s))) h = absurd (omega arith)

rows-PostsBelow : PostsBelow 3 rows
rows-PostsBelow zero d u t e h = cc
rows-PostsBelow (suc zero) d u t e h = cc
rows-PostsBelow (suc (suc zero)) d u t e h = let q : 0 ≡ t = cc in omega arith
rows-PostsBelow (suc (suc (suc s))) d u t e h = cc

-- In state 0, with an event for state 2
abbrev two_turns : Config (Unit {0}) (List Signal)
two_turns = record { state = 0; object = []; event = some (2, none) }

two_turns-InRange : InRange 3 two_turns
two_turns-InRange = (omega arith, λ t d h. let q : 2 ≡ t = cc in omega arith)

run_events-refines_hsm_example :
    run_events (turn_hsm c state_map) 2 (machine_of tt 0 none two_turns)
    ≡ outcome_of tt none
        (respond_all tt (λ s t. respond_hsm rows keep s t (chains s) (chains t)) 2 0 two_turns)
run_events-refines_hsm_example =
    run_events-refines_hsm 3 tt keep thread_7 rows parents state_map state_map-filled chains chained
      rows-PostsBelow 2 0 none two_turns two_turns-InRange

-- State 2 posts an event for state 0, which posts none.
abbrev rank : ℕ → ℕ
rank s = s

rows-PostsFall : PostsFall rank rows
rows-PostsFall zero d u t e h = cc
rows-PostsFall (suc zero) d u t e h = cc
rows-PostsFall (suc (suc zero)) d u t e h = let q : 0 ≡ t = cc in omega arith
rows-PostsFall (suc (suc (suc s))) d u t e h = cc

on_thread : is_on_state_machine_thread c none ≡ true
unfolding is_on_state_machine_thread
on_thread = refl

external_event-rests_hsm_example :
    (n' : ℕ) × (s' : ℕ) × (u' : List Signal) × (external_event c
        (state_engine_hsm c (some state_map) 3)
        2
        none
        (at_rest 0 none 1 [])
      ≡ done tt (at_rest n' none s' u'))
    × (s' < 3)
external_event-rests_hsm_example =
    external_event-rests_hsm 3 tt keep thread_7 rows parents state_map state_map-filled chains
      chained rows-PostsBelow rank rows-PostsFall 3 0 1 2 none none [] (omega arith) (omega arith)
      (omega arith) on_thread (omega arith)
