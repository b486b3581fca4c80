-- ===== src/Examples/AlarmPanel/Async.antt =====
-- examples/AlarmPanel.cpp as an active object: other threads call its events, and the panel's thread
-- makes the calls that it was handed.
use active_fsm.Base.{ℕ, none, some, List, [], ◌++◌, ◌∷◌, ◌≡◌, refl}
use active_fsm.Outcome.{Outcome, done, and_then, for_each, ◌>>◌}
use active_fsm.StateMachine.Events.{set_thread, is_on_state_machine_thread}
use active_fsm.StateMachine.Observed.{Signal}
use active_fsm.StateMachine.Object.{resting}
use active_fsm.StateMachine.ActiveObject.{
  Queued, QueuedMachine, Events, on_queue, with_pending, with_thread, pending_of, enqueue, handling,
  requeue, send, handle, drain, IfDone, IsOneOf, IsActive, family-IsActive,
}
use active_fsm.StateMachine.ActiveObject.Drain.{sends-drain}
use active_fsm.Examples.AlarmPanel.{
  TriggerData, no_event_data, trigger_data, AlarmPanel, PanelCall, arm_home_call, arm_away_call,
  disarm_call, toggle_call, trigger_call, alarm_panel, panel_context, arm_home, arm_away, disarm,
  toggle, trigger,
}
use active_fsm.Examples.AlarmPanel.Laws.{Mode, is_disarmed, is_home, is_away, is_alarming, state_of}

abbrev pub QueuedPanel : Type 0 → Type 0
QueuedPanel W = QueuedMachine TriggerData AlarmPanel PanelCall W

module _ {W : Type 0} (observe : Signal → W → W) where
  abbrev pub panel_events : Events TriggerData AlarmPanel PanelCall W
  panel_events threads hand_over arm_home_call = arm_home (on_queue observe) threads hand_over
  panel_events threads hand_over arm_away_call = arm_away (on_queue observe) threads hand_over
  panel_events threads hand_over disarm_call = disarm (on_queue observe) threads hand_over
  panel_events threads hand_over toggle_call = toggle (on_queue observe) threads hand_over
  panel_events threads hand_over (trigger_call d) = trigger (on_queue observe) threads hand_over d

  -- A panel, and `SetThread`
  unfoldable pub async_panel : ℕ → W → Outcome (QueuedPanel W) (Unit {0})
  unfolding alarm_panel set_thread
  async_panel thread seen =
      and_then
        (alarm_panel (on_queue observe) handling enqueue (record { seen = seen; pending = [] }))
        (λ _. set_thread (panel_context (on_queue observe) handling enqueue) thread)

  module _ (thread : ℕ) where
    abbrev Resting : Type 0
    Resting = ℕ × Mode × AlarmPanel × Queued PanelCall W

    abbrev rests : Resting → QueuedPanel W
    rests (n, p, o, w) = resting n (some thread) (state_of p) o w

    panel-sends :
        (r : PanelCall) (k : QueuedPanel W)
        → send panel_events r (with_thread k thread)
          ≡ done tt (with_pending (with_thread k thread) (pending_of k ++ r ∷ []))
    unfolding arm_home arm_away disarm toggle trigger is_on_state_machine_thread
    panel-sends arm_home_call k = refl
    panel-sends arm_away_call k = refl
    panel-sends disarm_call k = refl
    panel-sends toggle_call k = refl
    panel-sends (trigger_call d) k = refl

    panel-handles :
        (r : PanelCall) (i : Resting) (calls : List PanelCall)
        → handle panel_events r (with_pending (rests i) calls)
          ≡ requeue calls (handle panel_events r (rests i))
    unfolding arm_home arm_away disarm toggle trigger is_on_state_machine_thread
    panel-handles arm_home_call (n, is_disarmed, o, w) calls = refl
    panel-handles arm_home_call (n, is_home, o, w) calls = refl
    panel-handles arm_home_call (n, is_away, o, w) calls = refl
    panel-handles arm_home_call (n, is_alarming, o, w) calls = refl
    panel-handles arm_away_call (n, is_disarmed, o, w) calls = refl
    panel-handles arm_away_call (n, is_home, o, w) calls = refl
    panel-handles arm_away_call (n, is_away, o, w) calls = refl
    panel-handles arm_away_call (n, is_alarming, o, w) calls = refl
    panel-handles disarm_call (n, is_disarmed, o, w) calls = refl
    panel-handles disarm_call (n, is_home, o, w) calls = refl
    panel-handles disarm_call (n, is_away, o, w) calls = refl
    panel-handles disarm_call (n, is_alarming, o, w) calls = refl
    panel-handles toggle_call (n, is_disarmed, o, w) calls = refl
    panel-handles toggle_call (n, is_home, o, w) calls = refl
    panel-handles toggle_call (n, is_away, o, w) calls = refl
    panel-handles toggle_call (n, is_alarming, o, w) calls = refl
    panel-handles (trigger_call d) (n, is_disarmed, o, w) calls = refl
    panel-handles (trigger_call (some (trigger_data z))) (n, is_home, o, w) calls = refl
    panel-handles (trigger_call (some no_event_data)) (n, is_home, o, w) calls = refl
    panel-handles (trigger_call none) (n, is_home, o, w) calls = refl
    panel-handles (trigger_call (some (trigger_data z))) (n, is_away, o, w) calls = refl
    panel-handles (trigger_call (some no_event_data)) (n, is_away, o, w) calls = refl
    panel-handles (trigger_call none) (n, is_away, o, w) calls = refl
    panel-handles (trigger_call d) (n, is_alarming, o, w) calls = refl

    panel-keeps :
        (r : PanelCall) (i : Resting) → IfDone (IsOneOf rests) (handle panel_events r (rests i))
    unfolding arm_home arm_away disarm toggle trigger is_on_state_machine_thread
    panel-keeps arm_home_call (n, is_disarmed, o, w) = ((_, is_home, _, _), refl)
    panel-keeps arm_home_call (n, is_home, o, w) = ((_, is_home, _, _), refl)
    panel-keeps arm_home_call (n, is_away, o, w) = ((_, is_away, _, _), refl)
    panel-keeps arm_home_call (n, is_alarming, o, w) = ((_, is_alarming, _, _), refl)
    panel-keeps arm_away_call (n, is_disarmed, o, w) = ((_, is_away, _, _), refl)
    panel-keeps arm_away_call (n, is_home, o, w) = ((_, is_home, _, _), refl)
    panel-keeps arm_away_call (n, is_away, o, w) = ((_, is_away, _, _), refl)
    panel-keeps arm_away_call (n, is_alarming, o, w) = ((_, is_alarming, _, _), refl)
    panel-keeps disarm_call (n, is_disarmed, o, w) = ((_, is_disarmed, _, _), refl)
    panel-keeps disarm_call (n, is_home, o, w) = ((_, is_disarmed, _, _), refl)
    panel-keeps disarm_call (n, is_away, o, w) = ((_, is_disarmed, _, _), refl)
    panel-keeps disarm_call (n, is_alarming, o, w) = ((_, is_disarmed, _, _), refl)
    panel-keeps toggle_call (n, is_disarmed, o, w) = ((_, is_disarmed, _, _), refl)
    panel-keeps toggle_call (n, is_home, o, w) = ((_, is_away, _, _), refl)
    panel-keeps toggle_call (n, is_away, o, w) = ((_, is_home, _, _), refl)
    panel-keeps toggle_call (n, is_alarming, o, w) = ((_, is_alarming, _, _), refl)
    panel-keeps (trigger_call d) (n, is_disarmed, o, w) = ((_, is_disarmed, _, _), refl)
    panel-keeps (trigger_call (some (trigger_data z))) (n, is_home, o, w) =
        ((_, is_alarming, _, _), refl)
    panel-keeps (trigger_call (some no_event_data)) (n, is_home, o, w) = tt
    panel-keeps (trigger_call none) (n, is_home, o, w) = tt
    panel-keeps (trigger_call (some (trigger_data z))) (n, is_away, o, w) =
        ((_, is_alarming, _, _), refl)
    panel-keeps (trigger_call (some no_event_data)) (n, is_away, o, w) = tt
    panel-keeps (trigger_call none) (n, is_away, o, w) = tt
    panel-keeps (trigger_call d) (n, is_alarming, o, w) = ((_, is_alarming, _, _), refl)

    panel-IsActive : IsActive panel_events (IsOneOf rests)
    panel-IsActive =
        family-IsActive panel_events thread rests (λ i. refl) panel-sends panel-handles panel-keeps
          (λ i calls. ((i.0, i.1, i.2, record i.3 { pending = calls }), refl))

    -- Any calls that other threads hand to a new panel, and that its thread then makes, come to what they
    -- come to if the panel's thread makes them itself, one after the other, null pointers included: the
    -- same printed lines, signals and result, or the same fault in the same state.
    pub panel-async :
        (seen : W) (calls : List PanelCall)
        → requeue [] (
            and_then
              (async_panel thread seen)
              (λ _. for_each (send panel_events) calls >> drain panel_events))
          ≡ requeue []
              (and_then (async_panel thread seen) (λ _. for_each (handle panel_events) calls))
    unfolding async_panel
    panel-async seen calls =
        sends-drain panel_events panel-IsActive calls (rests (0, is_disarmed, _, _))
          ((0, is_disarmed, _, _), refl) refl
