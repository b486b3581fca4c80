-- ===== src/UnitTests/Cases/AsyncCases.antt =====
-- The asynchronous cases of unit-tests/StateMachineHSMTests.cpp with one thread that sends. A case waits
-- for its last transition, by which all of its calls have been handled.
use active_fsm.Base.{ℕ, suc, Bool, pos, some, [], ◌==◌, ◌&&◌, if◌then◌else◌, ◌≡◌, refl}
use active_fsm.Outcome.{M, Outcome, done, and_then, get, ◌>>=◌, ◌>>◌}
use active_fsm.StateMachine.Events.{is_on_state_machine_thread}
use active_fsm.StateMachine.Observed.{Signal, transition}
use active_fsm.StateMachine.ActiveObject.{on_queue, handling, enqueue, send, drain, handle_all}
use active_fsm.Examples.AlarmPanel.{
  trigger_data, PanelCall, arm_away_call, disarm_call, trigger_call, arm_away, disarm, trigger,
}
use active_fsm.Examples.AlarmPanel.Async.{QueuedPanel, panel_events, async_panel}
use active_fsm.UnitTests.StressHsm.{
  activate_call, deactivate_call, stress_hsm, activate, deactivate, st_child,
}
use active_fsm.UnitTests.StressHsm.Producers.{Shared, Counts, no_counts, count, stress_events}
use active_fsm.UnitTests.Cases.{expect, expect_state}
use active_fsm.UnitTests.Cases.AlarmCases.{al_disarmed, al_alarming}

-- The number of the case's thread
abbrev sm_thread : ℕ
sm_thread = 7

abbrev expect_counts : (Counts → Bool) → M Shared (Unit {0})
expect_counts test = do m ← get; expect (test m.object.seen.seen)

-- A new machine with its thread; then the three calls that these cases make
abbrev on_stress_hsm : M Shared (Unit {0}) → Outcome Shared (Unit {0})
on_stress_hsm body =
    and_then
      (stress_hsm (on_queue count) handling enqueue sm_thread
        (record { seen = no_counts; pending = [] }))
      (λ _. do
        send stress_events activate_call
        send stress_events deactivate_call
        send stress_events activate_call
        drain stress_events
        body)

test_hsm_async_basic_dispatch : Outcome Shared (Unit {0})
test_hsm_async_basic_dispatch = on_stress_hsm (expect_state st_child)

test_hsm_async_transition_count : Outcome Shared (Unit {0})
test_hsm_async_transition_count = on_stress_hsm (expect_counts λ u. u.trans_count == 3)

test_hsm_async_entry_exit_counts : Outcome Shared (Unit {0})
test_hsm_async_entry_exit_counts =
    on_stress_hsm (do expect_counts λ u. u.entry_parent == 2; expect_counts λ u. u.exit_parent == 1)

-- The observer of the case looks for the transition that the case waits for.
abbrev count_disarms : Signal → ℕ → ℕ
count_disarms (transition f t) n = if (f == al_alarming) && (t == al_disarmed) then suc n else n
count_disarms _ n = n

abbrev posts : PanelCall → M (QueuedPanel ℕ) (Unit {0})
posts = send (panel_events count_disarms)

test_hsm_async_alarm_sequence : Outcome (QueuedPanel ℕ) (Unit {0})
unfolding async_panel
test_hsm_async_alarm_sequence = and_then (async_panel count_disarms sm_thread 0) (λ _. do
  posts arm_away_call
  posts (trigger_call (some (trigger_data (pos 7))))
  posts disarm_call
  drain (panel_events count_disarms)
  expect_state al_disarmed)

hsm_async_cases_pass :
    ((m : Shared) × (test_hsm_async_basic_dispatch ≡ done tt m))
    × ((m : Shared) × (test_hsm_async_transition_count ≡ done tt m))
    × ((m : Shared) × (test_hsm_async_entry_exit_counts ≡ done tt m))
unfolding test_hsm_async_basic_dispatch test_hsm_async_transition_count
    test_hsm_async_entry_exit_counts stress_hsm activate deactivate handle_all
    is_on_state_machine_thread
hsm_async_cases_pass = ((_, refl), (_, refl), (_, refl))

-- The transition that the case waits for comes once.
alarm_async_case_passes :
    (m : QueuedPanel ℕ) × (test_hsm_async_alarm_sequence ≡ done tt m) × (m.object.seen.seen ≡ 1)
unfolding test_hsm_async_alarm_sequence arm_away trigger disarm handle_all
    is_on_state_machine_thread
alarm_async_case_passes = (_, refl, refl)
