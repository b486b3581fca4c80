-- ===== src/Witnesses/ParentChild.antt =====
-- An instance for `ChildDerived` of unit-tests/StateMachineTests.cpp.
use active_fsm.Base.{List, [], ◌∷◌, ◌≡◌, length}
use active_fsm.Outcome.{done, pure, and_then, for_each}
use active_fsm.StateMachine.Observed.{Signal}
use active_fsm.UnitTests.ParentChild.{
  ChildMachine, child_derived, Request, to_derived, to_base_idle, to_base_derived, request,
  phase_after, is_idle, IsAfter, child_derived-IsAfter,
}
use active_fsm.Witnesses.{keep, thread_7}

abbrev requests : List Request
requests = to_derived ∷ to_base_derived ∷ to_base_idle ∷ to_base_derived ∷ []

child_derived-IsAfter_example :
    (m' : ChildMachine (List Signal)) × (and_then
        (child_derived keep thread_7 (λ _ _. pure tt) [])
        (λ _. for_each (request keep thread_7 (λ _ _. pure tt)) requests)
      ≡ done tt m')
    × IsAfter keep thread_7 (λ _ _. pure tt) (length requests) (phase_after is_idle requests) m'
child_derived-IsAfter_example = child_derived-IsAfter keep thread_7 (λ _ _. pure tt) [] requests
