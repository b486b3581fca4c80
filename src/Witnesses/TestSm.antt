-- ===== src/Witnesses/TestSm.antt =====
-- An instance for `TestSM` of unit-tests/StateMachineTests.cpp.
use active_fsm.Base.{Bool, true, false, List, [], ◌∷◌, ◌≡◌}
use active_fsm.Outcome.{done, pure, and_then, for_each}
use active_fsm.StateMachine.Observed.{Signal}
use active_fsm.UnitTests.TestSm.{SmMachine, test_sm, attempt, passes, IsAfter, test_sm-IsAfter}
use active_fsm.Witnesses.{keep, thread_7}

-- The guard vetoes, passes, passes in `ST_B`, and vetoes.
abbrev attempts : List Bool
attempts = false ∷ true ∷ true ∷ false ∷ []

test_sm-IsAfter_example :
    (m' : SmMachine (List Signal)) × (and_then
        (test_sm keep thread_7 (λ _. pure tt) [])
        (λ _. for_each (attempt keep thread_7 (λ _. pure tt)) attempts)
      ≡ done tt m')
    × IsAfter (passes 0 attempts) m'
test_sm-IsAfter_example = test_sm-IsAfter keep thread_7 (λ _. pure tt) [] attempts
