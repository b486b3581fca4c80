-- ===== src/Witnesses/CentrifugeTest.antt =====
-- Instances for examples/CentrifugeTest.cpp.
use active_fsm.Base.{suc, pos, true, false, none, some, List, [], ◌∷◌, ◌≡◌, refl}
use active_fsm.Outcome.{done, pure}
use active_fsm.StateMachine.Events.{external_event_impl, is_on_state_machine_thread}
use active_fsm.StateMachine.Observed.{Signal}
use active_fsm.StateMachine.Object.{resting}
use active_fsm.Examples.SelfTest.{st_idle, st_failed}
use active_fsm.Examples.CentrifugeTest.{
  CentrifugeTest, TestCall, start_call, poll_call, cancel_call, TestMachine, test_context,
  test_engine, cancel,
}
use active_fsm.Examples.Table.{answered}
use active_fsm.Examples.CentrifugeTest.Laws.{
  is_idle, is_waiting_up, answer, OnThread, request, state_of, test-answer,
}
use active_fsm.Examples.CentrifugeTest.Promise.{
  IsTest, IsMembers, history, new_test, spent_test, whole_test, run_test, history-IsTest,
  whole_test-IsTest,
}
use active_fsm.Examples.CentrifugeTest.Races.{cancel-late}
use active_fsm.Witnesses.{keep, thread_7}

abbrev requests : List TestCall
requests = start_call ∷ poll_call ∷ poll_call ∷ cancel_call ∷ start_call ∷ []

history-IsTest_example :
    (m' : TestMachine (List Signal)) × (run_test keep thread_7 (λ _ _. pure tt) 7 refl [] requests
      ≡ done tt m')
    × IsTest keep thread_7
        (λ _ _. pure tt)
        (some 7)
        (history is_idle new_test requests).0
        (history is_idle new_test requests).1
        m'
    × IsMembers (history is_idle new_test requests).0 (history is_idle new_test requests).1
history-IsTest_example = history-IsTest keep thread_7 (λ _ _. pure tt) 7 refl [] requests

whole_test-IsTest_example :
    (m' : TestMachine (List Signal)) × (run_test keep thread_7
        (λ _ _. pure tt)
        7
        refl
        []
        (whole_test requests)
      ≡ done tt m')
    × IsTest keep thread_7 (λ _ _. pure tt) (some 7) is_idle spent_test m'
whole_test-IsTest_example = whole_test-IsTest keep thread_7 (λ _ _. pure tt) 7 refl [] requests

thread_7_runs : OnThread keep thread_7 (λ _ _. pure tt) (some 7)
unfolding is_on_state_machine_thread
thread_7_runs = refl

-- A test that polls at speed 4
abbrev at_4 : CentrifugeTest
at_4 = record { speed = pos 4; polling = true; completions = 0 }

test-answer_example :
    request keep thread_7
      (λ _ _. pure tt)
      poll_call
      (answered keep state_of 5 (some 7) is_waiting_up at_4 [] none)
    ≡ done tt (
        answered keep state_of 5
          (some 7)
          is_waiting_up
          at_4
          []
          (answer is_waiting_up poll_call at_4))
test-answer_example =
    test-answer keep thread_7 (λ _ _. pure tt) 5 (some 7) is_waiting_up poll_call at_4 []
      thread_7_runs

cancel-late_example :
    let m = resting 5 (some 8) (state_of is_waiting_up) at_4 [] in
    let idle_machine = resting 0 (some 8) st_idle spent_test [] in
    (cancel keep thread_7 (λ _ _. pure tt) m ≡ thread_7.post 8 st_failed none m)
    × ((w'' : List Signal) × (external_event_impl
            (test_context keep thread_7 (λ _ _. pure tt))
            (test_engine keep thread_7 (λ _ _. pure tt))
            st_failed
            none
            idle_machine
          ≡ done tt (
              resting st_idle
                (some 8)
                st_idle
                (record spent_test { polling = false; completions = suc spent_test.completions })
                w'')))
cancel-late_example =
    cancel-late keep thread_7 (λ _ _. pure tt) 5 0 8 is_waiting_up at_4 spent_test [] [] refl refl
