-- ===== src/UnitTests/Cases/SmCases.antt =====
-- The cases of unit-tests/StateMachineTests.cpp on `TestSM` and `ChildDerived`.
use active_fsm.Base.{ℕ, Bool, true, false, ◌==◌, ◌≡◌, refl}
use active_fsm.Outcome.{M, Outcome, done, and_then, ◌>>◌}
use active_fsm.StateMachine.Events.{is_on_state_machine_thread}
use active_fsm.StateMachine.Observed.{Threads}
use active_fsm.StateMachine.Object.{Object, modify_own}
use active_fsm.UnitTests.{EventData}
use active_fsm.UnitTests.TestSm.{TestSm, SmMachine, test_sm, go_b, st_a, st_b}
use active_fsm.UnitTests.ParentChild.{
  ChildDerived, ChildMachine, ChildCall, child_derived, call_base_transition, go_derived, st_idle,
  st_derived,
}
use active_fsm.UnitTests.Cases.{Tally, new_tally, tally, expect_state, expect_own}

module _ (threads : Threads EventData (Object TestSm Tally))
    (hand_over : ℕ → M (SmMachine Tally) (Unit {0})) where
  abbrev on_sm : M (SmMachine Tally) (Unit {0}) → Outcome (SmMachine Tally) (Unit {0})
  on_sm body = and_then (test_sm tally threads hand_over new_tally) (λ _. body)

  abbrev set_guard : Bool → M (SmMachine Tally) (Unit {0})
  set_guard allow = modify_own λ o. record o { guard_allow = allow }

  abbrev send_b : M (SmMachine Tally) (Unit {0})
  send_b = go_b tally threads hand_over

  test_guard_allows : Outcome (SmMachine Tally) (Unit {0})
  test_guard_allows = on_sm (do
    set_guard true
    send_b
    expect_state st_b
    expect_own λ o. o.action_b_count == 1
    expect_own λ o. o.entry_b_count == 1
    expect_own λ o. o.exit_a_count == 1)

  test_guard_blocks : Outcome (SmMachine Tally) (Unit {0})
  test_guard_blocks = on_sm (do
    set_guard false
    send_b
    expect_state st_a
    expect_own λ o. o.action_b_count == 0
    expect_own λ o. o.entry_b_count == 0
    expect_own λ o. o.exit_a_count == 0)

  test_guard_self_transition_blocked : Outcome (SmMachine Tally) (Unit {0})
  test_guard_self_transition_blocked = on_sm (do
    set_guard true
    send_b
    expect_state st_b
    set_guard false
    send_b
    expect_state st_b
    expect_own λ o. o.action_b_count == 1)

  run_sm_tests : Outcome (SmMachine Tally) (Unit {0})
  unfolding test_guard_allows test_guard_blocks test_guard_self_transition_blocked
  run_sm_tests =
      and_then test_guard_allows
        λ _ _. and_then test_guard_blocks λ _ _. test_guard_self_transition_blocked

  sm_tests_pass : (m : SmMachine Tally) × (run_sm_tests ≡ done tt m)
  unfolding run_sm_tests test_sm go_b is_on_state_machine_thread
  sm_tests_pass = (_, refl)

module _ (threads : Threads EventData (Object ChildDerived Tally))
    (hand_over : ChildCall → ℕ → M (ChildMachine Tally) (Unit {0})) where
  test_parent_transition : Outcome (ChildMachine Tally) (Unit {0})
  test_parent_transition = and_then (child_derived tally threads hand_over new_tally) λ _. (do
    expect_state st_idle
    go_derived tally threads hand_over
    expect_state st_derived
    call_base_transition tally threads hand_over st_idle
    expect_state st_idle
    expect_own λ o. o.base_action_count == 1)

  parent_test_passes : (m : ChildMachine Tally) × (test_parent_transition ≡ done tt m)
  unfolding test_parent_transition child_derived go_derived call_base_transition
      is_on_state_machine_thread
  parent_test_passes = (_, refl)
