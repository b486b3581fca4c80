-- ===== src/Witnesses/AlarmPanel.antt =====
-- Instances for examples/AlarmPanel.cpp.
use active_fsm.Base.{pos, none, some, List, [], ◌∷◌, ◌≡◌, refl}
use active_fsm.Outcome.{done, pure, and_then, for_each, ◌>>◌}
use active_fsm.StateMachine.Events.{is_on_state_machine_thread}
use active_fsm.StateMachine.Observed.{Signal}
use active_fsm.Examples.Table.{IsResting, answered}
use active_fsm.StateMachine.ActiveObject.{requeue, send, handle, drain}
use active_fsm.Examples.AlarmPanel.Async.{async_panel, panel_events, panel-async}
use active_fsm.Examples.AlarmPanel.{
  PanelCall, arm_home_call, arm_away_call, disarm_call, toggle_call, trigger_call, trigger_data,
  PanelMachine, alarm_panel,
}
use active_fsm.Examples.AlarmPanel.Laws.{
  is_disarmed, is_away, Request, to_home, to_away, to_toggle, to_disarm, to_trigger, answer,
  OnThread, state_of, request, panel-answer,
}
use active_fsm.Examples.AlarmPanel.Promise.{AreSensors, history, new_panel, alarm_panel-IsPanel}
use active_fsm.Witnesses.{keep, thread_7}

abbrev requests : List Request
requests = to_home ∷ to_toggle ∷ to_home ∷ to_trigger (pos 4) ∷ to_toggle ∷ to_disarm ∷ to_away ∷ []

alarm_panel-IsPanel_example :
    (m' : PanelMachine (List Signal)) × (and_then
        (alarm_panel keep thread_7 (λ _ _. pure tt) [])
        (λ _. for_each (request keep thread_7 (λ _ _. pure tt)) requests)
      ≡ done tt m')
    × IsResting keep state_of none
        (history is_disarmed new_panel requests).0
        (history is_disarmed new_panel requests).1
        m'
    × AreSensors
        (history is_disarmed new_panel requests).0
        (history is_disarmed new_panel requests).1
alarm_panel-IsPanel_example = alarm_panel-IsPanel keep thread_7 (λ _ _. pure tt) [] requests

thread_7_runs : OnThread keep thread_7 (λ _ _. pure tt) (some 7)
unfolding is_on_state_machine_thread
thread_7_runs = refl

panel-answer_example :
    request keep thread_7
      (λ _ _. pure tt)
      (to_trigger (pos 4))
      (answered keep state_of 3 (some 7) is_away new_panel [] none)
    ≡ done tt (
        answered keep state_of 3
          (some 7)
          is_away
          new_panel
          []
          (answer is_away (to_trigger (pos 4)) new_panel))
panel-answer_example =
    panel-answer keep thread_7 (λ _ _. pure tt) 3 (some 7) is_away (to_trigger (pos 4)) new_panel []
      thread_7_runs

-- A null pointer, which faults, among the calls
abbrev posted : List PanelCall
posted =
    arm_home_call
    ∷ toggle_call
    ∷ trigger_call (some (trigger_data (pos 4)))
    ∷ disarm_call
    ∷ arm_away_call
    ∷ trigger_call none
    ∷ disarm_call
    ∷ []

panel-async_example :
    requeue [] (
      and_then
        (async_panel keep 7 [])
        (λ _. for_each (send (panel_events keep)) posted >> drain (panel_events keep)))
    ≡ requeue []
        (and_then (async_panel keep 7 []) (λ _. for_each (handle (panel_events keep)) posted))
panel-async_example = panel-async keep 7 [] posted
