-- ===== src/Witnesses/TestHsm.antt =====
-- An instance for `TestHSM` of unit-tests/StateMachineHSMTests.cpp.
use active_fsm.Base.{Bool, true, false, List, [], ◌∷◌, ◌≡◌}
use active_fsm.Outcome.{done, pure, and_then, for_each}
use active_fsm.StateMachine.Observed.{Signal}
use active_fsm.UnitTests.TestHsm.{
  Note, HsmMachine, HsmCall, go_child1_call, go_child2_call, go_top_call, toggle_call, test_hsm,
}
use active_fsm.UnitTests.TestHsm.History.{attempt, phase_after, is_top, IsAt, IsLog, test_hsm-IsLog}
use active_fsm.Witnesses.{keep, thread_7}

abbrev events : List (HsmCall × Bool)
events =
    (go_child1_call, true)
    ∷ (go_child2_call, false)
    ∷ (toggle_call, true)
    ∷ (go_top_call, true)
    ∷ (go_child2_call, true)
    ∷ []

test_hsm-IsLog_example :
    (m' : HsmMachine (List Signal)) × (log' : List Note) × (and_then
        (test_hsm keep thread_7 (λ _ _. pure tt) [])
        (λ _. for_each (attempt keep thread_7 (λ _ _. pure tt)) events)
      ≡ done tt m')
    × IsAt keep thread_7 (λ _ _. pure tt) (phase_after is_top events) log' m'
    × IsLog (phase_after is_top events) log'
test_hsm-IsLog_example = test_hsm-IsLog keep thread_7 (λ _ _. pure tt) [] events
