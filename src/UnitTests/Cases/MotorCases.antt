-- ===== src/UnitTests/Cases/MotorCases.antt =====
-- The cases of unit-tests/StateMachineTests.cpp on `Motor`, in synchronous mode.
use active_fsm.Base.{ℕ, pos, some, ◌==◌, length, ◌≡◌, refl}
use active_fsm.Outcome.{M, Outcome, done, and_then, ◌>>◌}
use active_fsm.StateMachine.Events.{is_on_state_machine_thread, construct}
use active_fsm.StateMachine.Observed.{Threads}
use active_fsm.StateMachine.Object.{Object}
use active_fsm.Examples.Motor.{
  MotorData, motor_data, Motor, MotorCall, MotorMachine, motor, motor_context, set_speed, halt,
}
use active_fsm.UnitTests.Cases.{Tally, new_tally, tally, expect, expect_state, expect_tally}

module _ (threads : Threads MotorData (Object Motor Tally))
    (hand_over : MotorCall → ℕ → M (MotorMachine Tally) (Unit {0})) where
  -- A case on a new `Motor`
  abbrev on_motor : M (MotorMachine Tally) (Unit {0}) → Outcome (MotorMachine Tally) (Unit {0})
  on_motor body = and_then (motor tally threads hand_over new_tally) (λ _. body)

  abbrev speed : ℕ → M (MotorMachine Tally) (Unit {0})
  speed v = set_speed tally threads hand_over (some (motor_data (pos v)))

  abbrev stop : M (MotorMachine Tally) (Unit {0})
  stop = halt tally threads hand_over

  test_initial_state : Outcome (MotorMachine Tally) (Unit {0})
  test_initial_state = on_motor (expect_state 0)

  test_max_states : Outcome (MotorMachine Tally) (Unit {0})
  test_max_states = on_motor (expect ((motor_context tally threads hand_over).max_states == 4))

  test_basic_transition : Outcome (MotorMachine Tally) (Unit {0})
  test_basic_transition = on_motor (speed 100 >> expect_state 2)

  test_self_transition_does_not_change_state : Outcome (MotorMachine Tally) (Unit {0})
  test_self_transition_does_not_change_state =
      on_motor (do speed 100; expect_state 2; speed 200; expect_state 3; speed 300; expect_state 3)

  test_internal_event_chain : Outcome (MotorMachine Tally) (Unit {0})
  test_internal_event_chain = on_motor (do speed 100; expect_state 2; stop; expect_state 0)

  test_event_ignored : Outcome (MotorMachine Tally) (Unit {0})
  test_event_ignored = on_motor (stop >> expect_state 0)

  test_on_transition_signal : Outcome (MotorMachine Tally) (Unit {0})
  test_on_transition_signal =
      on_motor
        (do speed 100; expect_tally λ u. u.captured_from == 0; expect_tally λ u. u.captured_to == 2)

  test_on_entry_signal_fires_on_state_change : Outcome (MotorMachine Tally) (Unit {0})
  test_on_entry_signal_fires_on_state_change = on_motor (do
    speed 100
    expect_tally λ u. length u.entered_states == 1
    speed 200
    expect_tally λ u. length u.entered_states == 2
    speed 300
    expect_tally λ u. length u.entered_states == 2)

  test_on_exit_signal_fires_on_state_change : Outcome (MotorMachine Tally) (Unit {0})
  test_on_exit_signal_fires_on_state_change = on_motor (do
    speed 100
    expect_tally λ u. length u.exited_states == 1
    speed 200
    expect_tally λ u. length u.exited_states == 2
    speed 300
    expect_tally λ u. length u.exited_states == 2)

  test_on_transition_self_transition : Outcome (MotorMachine Tally) (Unit {0})
  test_on_transition_self_transition = on_motor (do
    speed 100
    expect_tally λ u. u.transition_count == 1
    speed 200
    expect_tally λ u. u.transition_count == 2
    speed 300
    expect_tally λ u. u.transition_count == 3)

  test_multiple_transitions : Outcome (MotorMachine Tally) (Unit {0})
  test_multiple_transitions =
      on_motor (do speed 100; expect_state 2; speed 200; expect_state 3; stop; expect_state 0)

  -- Behind the scope of its connection the observer is called no more.
  test_signal_disconnection : Outcome (MotorMachine Tally) (Unit {0})
  test_signal_disconnection = on_motor (do
    speed 100
    expect_tally λ u. u.transition_count == 1
    set_speed (λ x u. u) threads hand_over (some (motor_data (pos 200)))
    expect_tally λ u. u.transition_count == 1)

  test_no_event_data_case : Outcome (MotorMachine Tally) (Unit {0})
  test_no_event_data_case = on_motor (stop >> expect_state 0)

  -- All of them, in the order of `RunStateMachineTests`
  run_motor_tests : Outcome (MotorMachine Tally) (Unit {0})
  unfolding test_initial_state test_max_states test_basic_transition
      test_self_transition_does_not_change_state test_internal_event_chain test_event_ignored
      test_on_transition_signal test_on_entry_signal_fires_on_state_change
      test_on_exit_signal_fires_on_state_change test_on_transition_self_transition
      test_multiple_transitions test_signal_disconnection test_no_event_data_case
  run_motor_tests = and_then test_initial_state λ _ _. and_then test_max_states λ _ _.
      and_then test_basic_transition λ _ _.
        and_then test_self_transition_does_not_change_state λ _ _.
          and_then test_internal_event_chain λ _ _. and_then test_event_ignored λ _ _.
            and_then test_on_transition_signal λ _ _.
              and_then test_on_entry_signal_fires_on_state_change λ _ _.
                and_then test_on_exit_signal_fires_on_state_change λ _ _.
                  and_then test_on_transition_self_transition λ _ _.
                    and_then test_multiple_transitions
                      λ _ _. and_then test_signal_disconnection λ _ _. test_no_event_data_case

  motor_tests_pass : (m : MotorMachine Tally) × (run_motor_tests ≡ done tt m)
  unfolding run_motor_tests motor construct set_speed halt is_on_state_machine_thread
  motor_tests_pass = (_, refl)
