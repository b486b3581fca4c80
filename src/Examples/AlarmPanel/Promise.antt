-- ===== src/Examples/AlarmPanel/Promise.antt =====
-- examples/AlarmPanel.cpp over any history of events: its mode, and what the printed lines say of the
-- sensors.
use active_fsm.Base.{ℕ, Bool, true, false, none, List, [], ◌∷◌, ◌≡◌, refl}
use active_fsm.Outcome.{M, done, and_then, for_each}
use active_fsm.StateMachine.Events.{is_on_state_machine_thread}
use active_fsm.StateMachine.Observed.{Signal, Threads}
use active_fsm.StateMachine.Object.{Object}
use active_fsm.Examples.Table.{IsResting, phase_after, own_after}
use active_fsm.Examples.Table.Follow.{led_to, led_to-keeps, requests-led_to}
use active_fsm.Examples.AlarmPanel.{
  TriggerData, Line, activating_sensors, deactivating_sensors, AlarmPanel, PanelCall, PanelMachine,
  alarm_panel,
}
use active_fsm.Examples.AlarmPanel.Laws.{
  Mode, is_disarmed, is_home, is_away, is_alarming, Request, to_home, to_away, to_toggle, to_disarm,
  to_trigger, answer, request, panel-answer, state_of,
}

-- Are the sensors active, by the last line that says so?
abbrev pub sensors_on : List Line → Bool
sensors_on [] = false
sensors_on (activating_sensors ∷ ls) = true
sensors_on (deactivating_sensors ∷ ls) = false
sensors_on (_ ∷ ls) = sensors_on ls

abbrev pub is_armed : Mode → Bool
is_armed is_home = true
is_armed is_away = true
is_armed _ = false

-- The sensors are active just if the panel is armed.
abbrev pub AreSensors : Mode → AlarmPanel → Type 0
AreSensors mode o = sensors_on o.printed ≡ is_armed mode

answer-AreSensors :
    (mode : Mode) (r : Request) (o : AlarmPanel)
    → AreSensors mode o
    → AreSensors (phase_after mode (answer mode r o)) (own_after o (answer mode r o))
answer-AreSensors is_disarmed to_home o h = refl
answer-AreSensors is_disarmed to_away o h = refl
answer-AreSensors is_home to_toggle o h = h
answer-AreSensors is_away to_toggle o h = h
answer-AreSensors is_home to_disarm o h = refl
answer-AreSensors is_away to_disarm o h = refl
answer-AreSensors is_home (to_trigger zone) o h = refl
answer-AreSensors is_away (to_trigger zone) o h = refl
answer-AreSensors is_alarming to_disarm o h = h
answer-AreSensors _ _ o h = h

abbrev pub history : Mode → AlarmPanel → List Request → Mode × AlarmPanel
history = led_to answer

abbrev pub new_panel : AlarmPanel
new_panel = record { printed = [] }

-- In synchronous mode any number of events on a new panel is done without an assertion, in the mode and
-- with the printed lines that the table has. By the lines printed, the sensors are active in the end
-- just if the panel is armed, at home or away.
pub alarm_panel-IsPanel :
    {W : Type 0} (observe : Signal → W → W) (threads : Threads TriggerData (Object AlarmPanel W))
    (hand_over : PanelCall → ℕ → M (PanelMachine W) (Unit {0})) (seen : W) (rs : List Request)
    → (m' : PanelMachine W) × (and_then
          (alarm_panel observe threads hand_over seen)
          (λ _. for_each (request observe threads hand_over) rs)
        ≡ done tt m')
      × IsResting observe state_of none
          (history is_disarmed new_panel rs).0
          (history is_disarmed new_panel rs).1
          m'
      × AreSensors (history is_disarmed new_panel rs).0 (history is_disarmed new_panel rs).1
unfolding alarm_panel is_on_state_machine_thread
alarm_panel-IsPanel observe threads hand_over seen rs =
    let (m', e, h) =
      requests-led_to answer observe state_of none (request observe threads hand_over)
        (λ n p r o w. panel-answer observe threads hand_over n none p r o w refl) is_disarmed
        new_panel rs _ (0, seen, refl) in
    (m', e, h, led_to-keeps answer AreSensors answer-AreSensors is_disarmed new_panel rs refl)
