-- ===== src/Examples/AlarmPanel/Laws.antt =====
-- What each event of examples/AlarmPanel.cpp comes to in each state: the state, the lines that are
-- printed, and the signals, in order.
use active_fsm.Base.{ℕ, ℤ, true, Option, none, some, List, [], ◌∷◌, ◌≡◌}
use active_fsm.Outcome.{M, done}
use active_fsm.StateMachine.Events.{is_on_state_machine_thread}
use active_fsm.StateMachine.Observed.{Signal, Threads, transition, entered, exited}
use active_fsm.StateMachine.Object.{Object}
use active_fsm.Examples.Table.{Row, answered}
use active_fsm.Examples.AlarmPanel.{
  TriggerData, trigger_data, Line, system_disarmed, armed_home, armed_away, alarm,
  activating_sensors, deactivating_sensors, interior_motion_disabled, full_coverage_enabled,
  AlarmPanel, PanelCall, PanelMachine, panel_context, st_disarmed, st_armed, st_armed_home,
  st_armed_away, st_alarming, arm_home, arm_away, disarm, toggle, trigger,
}

-- The states that the panel rests in
pub data Mode : Type 0 where
  is_disarmed is_home is_away is_alarming : Mode

pub data Request : Type 0 where
  to_home to_away to_disarm to_toggle : Request
  to_trigger : (zone : ℤ) → Request

abbrev pub state_of : Mode → ℕ
state_of is_disarmed = st_disarmed
state_of is_home = st_armed_home
state_of is_away = st_armed_away
state_of is_alarming = st_alarming

-- Newest first
abbrev pub printing : List Line → List Line → List Line
printing [] printed = printed
printing (l ∷ ls) printed = printing ls (l ∷ printed)

-- The states in `left` are left, and those in `into` entered, both in order.
abbrev exited_then : List ℕ → List Signal → List Signal
exited_then [] rest = rest
exited_then (s ∷ ss) rest = exited s ∷ exited_then ss rest

abbrev entered_then : List ℕ → List Signal → List Signal
entered_then [] rest = rest
entered_then (s ∷ ss) rest = entered s ∷ entered_then ss rest

abbrev answer_with :
    Mode → Mode → List ℕ → List ℕ → List Line → AlarmPanel → Option (Row Mode AlarmPanel)
answer_with from to left into lines o = some (record {
  phase = to;
  left = state_of to;
  own = record { printed = printing lines o.printed };
  signals = exited_then left (entered_then into (transition (state_of from) (state_of to) ∷ []));
})

-- The table of the panel; `none` is an event that is ignored.
abbrev pub answer : Mode → Request → AlarmPanel → Option (Row Mode AlarmPanel)
answer is_disarmed to_home o =
    answer_with is_disarmed is_home (st_disarmed ∷ []) (st_armed ∷ st_armed_home ∷ [])
      (activating_sensors ∷ interior_motion_disabled ∷ armed_home ∷ []) o
answer is_disarmed to_away o =
    answer_with is_disarmed is_away (st_disarmed ∷ []) (st_armed ∷ st_armed_away ∷ [])
      (activating_sensors ∷ full_coverage_enabled ∷ armed_away ∷ []) o
answer is_home to_toggle o =
    answer_with is_home is_away (st_armed_home ∷ []) (st_armed_away ∷ [])
      (full_coverage_enabled ∷ armed_away ∷ []) o
answer is_away to_toggle o =
    answer_with is_away is_home (st_armed_away ∷ []) (st_armed_home ∷ [])
      (interior_motion_disabled ∷ armed_home ∷ []) o
answer is_home to_disarm o =
    answer_with is_home is_disarmed (st_armed_home ∷ st_armed ∷ []) (st_disarmed ∷ [])
      (deactivating_sensors ∷ system_disarmed ∷ []) o
answer is_away to_disarm o =
    answer_with is_away is_disarmed (st_armed_away ∷ st_armed ∷ []) (st_disarmed ∷ [])
      (deactivating_sensors ∷ system_disarmed ∷ []) o
answer is_home (to_trigger zone) o =
    answer_with is_home is_alarming (st_armed_home ∷ st_armed ∷ []) (st_alarming ∷ [])
      (deactivating_sensors ∷ alarm zone ∷ []) o
answer is_away (to_trigger zone) o =
    answer_with is_away is_alarming (st_armed_away ∷ st_armed ∷ []) (st_alarming ∷ [])
      (deactivating_sensors ∷ alarm zone ∷ []) o
answer is_alarming to_disarm o =
    answer_with is_alarming is_disarmed (st_alarming ∷ []) (st_disarmed ∷ []) (system_disarmed ∷ [])
      o
answer _ _ o = none

module _ {W : Type 0} (observe : Signal → W → W)
    (threads : Threads TriggerData (Object AlarmPanel W))
    (hand_over : PanelCall → ℕ → M (PanelMachine W) (Unit {0})) where
  abbrev pub OnThread : Option ℕ → Type 0
  OnThread thread =
      is_on_state_machine_thread (panel_context observe threads hand_over) thread ≡ true

  abbrev pub request : Request → M (PanelMachine W) (Unit {0})
  request to_home = arm_home observe threads hand_over
  request to_away = arm_away observe threads hand_over
  request to_disarm = disarm observe threads hand_over
  request to_toggle = toggle observe threads hand_over
  request (to_trigger zone) = trigger observe threads hand_over (some (trigger_data zone))

  -- On the thread of the machine, each event in each state does what the table has.
  pub panel-answer :
      (n : ℕ) (thread : Option ℕ) (mode : Mode) (r : Request) (o : AlarmPanel) (w : W)
      → OnThread thread
      → request r (answered observe state_of n thread mode o w none)
        ≡ done tt (answered observe state_of n thread mode o w (answer mode r o))
  unfolding arm_home arm_away disarm toggle trigger
  panel-answer n thread is_disarmed to_home o w on = rw (on, on)
  panel-answer n thread is_disarmed to_away o w on = rw (on, on)
  panel-answer n thread is_home to_toggle o w on = rw (on, on)
  panel-answer n thread is_away to_toggle o w on = rw (on, on)
  panel-answer n thread is_home to_disarm o w on = rw (on, on)
  panel-answer n thread is_away to_disarm o w on = rw (on, on)
  panel-answer n thread is_home (to_trigger zone) o w on = rw (on, on)
  panel-answer n thread is_away (to_trigger zone) o w on = rw (on, on)
  panel-answer n thread is_alarming to_disarm o w on = rw (on, on)
  panel-answer n thread _ _ o w on = rw on
