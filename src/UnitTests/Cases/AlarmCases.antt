-- ===== src/UnitTests/Cases/AlarmCases.antt =====
-- The cases of unit-tests/StateMachineHSMTests.cpp on `AlarmPanel`, in synchronous mode.
use active_fsm.Base.{
  ℕ, suc, pos, none, some, List, [], ◌∷◌, reverse, length, get_elem?, Bool, Option, false, ◌==◌,
  if◌then◌else◌, ◌≡◌, refl,
}
use active_fsm.Outcome.{M, Outcome, done, and_then, ◌>>◌}
use active_fsm.StateMachine.Events.{is_on_state_machine_thread}
use active_fsm.StateMachine.Observed.{Threads}
use active_fsm.StateMachine.Object.{Object}
use active_fsm.Examples.AlarmPanel.{
  TriggerData, trigger_data, AlarmPanel, PanelMachine, PanelCall, alarm_panel, arm_home, arm_away,
  disarm, toggle, trigger,
}
use active_fsm.UnitTests.Cases.{Tally, new_tally, tally, expect_state, expect_tally, connect}

-- `enum AlarmState`
abbrev pub al_disarmed : ℕ
al_disarmed = 0

abbrev pub al_armed : ℕ
al_armed = 1

abbrev pub al_armed_home : ℕ
al_armed_home = 2

abbrev pub al_armed_away : ℕ
al_armed_away = 3

abbrev pub al_alarming : ℕ
al_alarming = 4

-- An observer that counts one state
abbrev count_of : ℕ → List ℕ → ℕ
count_of s [] = 0
count_of s (t ∷ ts) = let rest = count_of s ts in if t == s then suc rest else rest

abbrev is_state : ℕ → Option ℕ → Bool
is_state s none = false
is_state s (some t) = t == s

module _ (threads : Threads TriggerData (Object AlarmPanel Tally))
    (hand_over : PanelCall → ℕ → M (PanelMachine Tally) (Unit {0})) where
  abbrev on_alarm : M (PanelMachine Tally) (Unit {0}) → Outcome (PanelMachine Tally) (Unit {0})
  on_alarm body = and_then (alarm_panel tally threads hand_over new_tally) (λ _. body)

  abbrev to_home : M (PanelMachine Tally) (Unit {0})
  to_home = arm_home tally threads hand_over

  abbrev to_away : M (PanelMachine Tally) (Unit {0})
  to_away = arm_away tally threads hand_over

  abbrev to_disarm : M (PanelMachine Tally) (Unit {0})
  to_disarm = disarm tally threads hand_over

  abbrev to_toggle : M (PanelMachine Tally) (Unit {0})
  to_toggle = toggle tally threads hand_over

  abbrev to_trigger : ℕ → M (PanelMachine Tally) (Unit {0})
  to_trigger zone = trigger tally threads hand_over (some (trigger_data (pos zone)))

  test_alarm_initial_state : Outcome (PanelMachine Tally) (Unit {0})
  test_alarm_initial_state = on_alarm (expect_state al_disarmed)

  test_alarm_arm_home : Outcome (PanelMachine Tally) (Unit {0})
  test_alarm_arm_home = on_alarm (do
    connect
    to_home
    expect_state al_armed_home
    expect_tally λ u. length u.entered_states == 2
    expect_tally λ u. is_state al_armed (get_elem? (reverse u.entered_states) 0)
    expect_tally λ u. is_state al_armed_home (get_elem? (reverse u.entered_states) 1))

  test_alarm_toggle_does_not_repeat_parent_entry_exit : Outcome (PanelMachine Tally) (Unit {0})
  test_alarm_toggle_does_not_repeat_parent_entry_exit = on_alarm (do
    to_home
    connect
    to_toggle
    expect_state al_armed_away
    expect_tally λ u. count_of al_armed u.entered_states == 0
    expect_tally λ u. count_of al_armed u.exited_states == 0)

  test_alarm_disarm_from_armed_home_propagates_to_armed : Outcome (PanelMachine Tally) (Unit {0})
  test_alarm_disarm_from_armed_home_propagates_to_armed = on_alarm (do
    to_home
    connect
    to_disarm
    expect_state al_disarmed
    expect_tally λ u. count_of al_armed u.exited_states == 1)

  test_alarm_disarm_from_armed_away : Outcome (PanelMachine Tally) (Unit {0})
  test_alarm_disarm_from_armed_away = on_alarm (do to_away; to_disarm; expect_state al_disarmed)

  test_alarm_trigger_propagates_from_child : Outcome (PanelMachine Tally) (Unit {0})
  test_alarm_trigger_propagates_from_child = on_alarm (do
    to_home
    connect
    to_trigger 1
    expect_state al_alarming
    expect_tally λ u. count_of al_armed u.exited_states == 1)

  test_alarm_trigger_from_armed_away : Outcome (PanelMachine Tally) (Unit {0})
  test_alarm_trigger_from_armed_away = on_alarm (do to_away; to_trigger 2; expect_state al_alarming)

  test_alarm_disarm_from_alarming : Outcome (PanelMachine Tally) (Unit {0})
  test_alarm_disarm_from_alarming =
      on_alarm
        (do to_home; to_trigger 1; expect_state al_alarming; to_disarm; expect_state al_disarmed)

  test_alarm_events_ignored_when_disarmed : Outcome (PanelMachine Tally) (Unit {0})
  test_alarm_events_ignored_when_disarmed =
      on_alarm (do to_toggle; expect_state al_disarmed; to_trigger 1; expect_state al_disarmed)

  test_alarm_trigger_ignored_in_alarming : Outcome (PanelMachine Tally) (Unit {0})
  test_alarm_trigger_ignored_in_alarming =
      on_alarm
        (do to_away; to_trigger 1; expect_state al_alarming; to_trigger 2; expect_state al_alarming)

  test_alarm_rearm : Outcome (PanelMachine Tally) (Unit {0})
  test_alarm_rearm = on_alarm (do
    to_home
    to_disarm
    expect_state al_disarmed
    connect
    to_away
    expect_state al_armed_away
    expect_tally λ u. count_of al_armed u.entered_states == 1)

  test_alarm_full_scenario : Outcome (PanelMachine Tally) (Unit {0})
  test_alarm_full_scenario = on_alarm (do
    to_home
    expect_state al_armed_home
    to_toggle
    expect_state al_armed_away
    to_trigger 5
    expect_state al_alarming
    to_disarm
    expect_state al_disarmed
    to_home
    expect_state al_armed_home
    to_disarm
    expect_state al_disarmed)

  -- The cases on `AlarmPanel`, in the order of `RunStateMachineHSMTests`
  run_alarm_tests : Outcome (PanelMachine Tally) (Unit {0})
  unfolding test_alarm_initial_state test_alarm_arm_home
      test_alarm_toggle_does_not_repeat_parent_entry_exit
      test_alarm_disarm_from_armed_home_propagates_to_armed test_alarm_disarm_from_armed_away
      test_alarm_trigger_propagates_from_child test_alarm_trigger_from_armed_away
      test_alarm_disarm_from_alarming test_alarm_events_ignored_when_disarmed
      test_alarm_trigger_ignored_in_alarming test_alarm_rearm test_alarm_full_scenario
  run_alarm_tests = and_then test_alarm_initial_state λ _ _. and_then test_alarm_arm_home λ _ _.
      and_then test_alarm_toggle_does_not_repeat_parent_entry_exit λ _ _.
        and_then test_alarm_disarm_from_armed_home_propagates_to_armed λ _ _.
          and_then test_alarm_disarm_from_armed_away λ _ _.
            and_then test_alarm_trigger_propagates_from_child λ _ _.
              and_then test_alarm_trigger_from_armed_away λ _ _.
                and_then test_alarm_disarm_from_alarming λ _ _.
                  and_then test_alarm_events_ignored_when_disarmed λ _ _.
                    and_then test_alarm_trigger_ignored_in_alarming
                      λ _ _. and_then test_alarm_rearm λ _ _. test_alarm_full_scenario

  alarm_tests_pass : (m : PanelMachine Tally) × (run_alarm_tests ≡ done tt m)
  unfolding run_alarm_tests alarm_panel arm_home arm_away disarm toggle trigger
      is_on_state_machine_thread
  alarm_tests_pass = (_, refl)
