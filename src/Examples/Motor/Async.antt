-- ===== src/Examples/Motor/Async.antt =====
-- examples/Motor.cpp as an active object: other threads call `SetSpeed` and `Halt`, and the motor's
-- thread makes the calls that it was handed.
use active_fsm.Base.{ℕ, none, some, List, [], ◌++◌, ◌∷◌, ◌≡◌, refl}
use active_fsm.Outcome.{Outcome, done, and_then, for_each, ◌>>◌}
use active_fsm.StateMachine.Events.{construct, set_thread, is_on_state_machine_thread}
use active_fsm.StateMachine.Observed.{Signal}
use active_fsm.StateMachine.Object.{resting}
use active_fsm.StateMachine.ActiveObject.{
  Queued, QueuedMachine, Events, on_queue, with_pending, with_thread, pending_of, enqueue, handling,
  requeue, send, handle, drain, IfDone, IsOneOf, IsActive, family-IsActive,
}
use active_fsm.StateMachine.ActiveObject.Drain.{sends-drain}
use active_fsm.Examples.Motor.{
  MotorData, no_event_data, motor_data, Motor, MotorCall, set_speed_call, halt_call, motor,
  motor_context, set_speed, halt, st_idle, st_start, st_change_speed,
}

-- The states that a motor rests in
pub data Phase : Type 0 where
  is_idle is_started is_changed : Phase

abbrev pub state_of : Phase → ℕ
state_of is_idle = st_idle
state_of is_started = st_start
state_of is_changed = st_change_speed

abbrev pub QueuedMotor : Type 0 → Type 0
QueuedMotor W = QueuedMachine MotorData Motor MotorCall W

module _ {W : Type 0} (observe : Signal → W → W) where
  abbrev pub motor_events : Events MotorData Motor MotorCall W
  motor_events threads hand_over (set_speed_call d) =
      set_speed (on_queue observe) threads hand_over d
  motor_events threads hand_over halt_call = halt (on_queue observe) threads hand_over

  -- A motor, and `SetThread`
  unfoldable pub async_motor : ℕ → W → Outcome (QueuedMotor W) (Unit {0})
  unfolding motor construct set_thread
  async_motor thread seen =
      and_then (motor (on_queue observe) handling enqueue (record { seen = seen; pending = [] }))
        (λ _. set_thread (motor_context (on_queue observe) handling enqueue) thread)

  module _ (thread : ℕ) where
    abbrev Resting : Type 0
    Resting = ℕ × Phase × Motor × Queued MotorCall W

    abbrev rests : Resting → QueuedMotor W
    rests (n, p, o, w) = resting n (some thread) (state_of p) o w

    motor-sends :
        (r : MotorCall) (k : QueuedMotor W)
        → send motor_events r (with_thread k thread)
          ≡ done tt (with_pending (with_thread k thread) (pending_of k ++ r ∷ []))
    unfolding set_speed halt is_on_state_machine_thread
    motor-sends (set_speed_call d) k = refl
    motor-sends halt_call k = refl

    motor-handles :
        (r : MotorCall) (i : Resting) (calls : List MotorCall)
        → handle motor_events r (with_pending (rests i) calls)
          ≡ requeue calls (handle motor_events r (rests i))
    unfolding set_speed halt is_on_state_machine_thread
    motor-handles (set_speed_call (some (motor_data v))) (n, is_idle, o, w) calls = refl
    motor-handles (set_speed_call (some (motor_data v))) (n, is_started, o, w) calls = refl
    motor-handles (set_speed_call (some (motor_data v))) (n, is_changed, o, w) calls = refl
    motor-handles (set_speed_call (some no_event_data)) (n, is_idle, o, w) calls = refl
    motor-handles (set_speed_call (some no_event_data)) (n, is_started, o, w) calls = refl
    motor-handles (set_speed_call (some no_event_data)) (n, is_changed, o, w) calls = refl
    motor-handles (set_speed_call none) (n, is_idle, o, w) calls = refl
    motor-handles (set_speed_call none) (n, is_started, o, w) calls = refl
    motor-handles (set_speed_call none) (n, is_changed, o, w) calls = refl
    motor-handles halt_call (n, is_idle, o, w) calls = refl
    motor-handles halt_call (n, is_started, o, w) calls = refl
    motor-handles halt_call (n, is_changed, o, w) calls = refl

    motor-keeps :
        (r : MotorCall) (i : Resting) → IfDone (IsOneOf rests) (handle motor_events r (rests i))
    unfolding set_speed halt is_on_state_machine_thread
    motor-keeps (set_speed_call (some (motor_data v))) (n, is_idle, o, w) =
        ((_, is_started, _, _), refl)
    motor-keeps (set_speed_call (some (motor_data v))) (n, is_started, o, w) =
        ((_, is_changed, _, _), refl)
    motor-keeps (set_speed_call (some (motor_data v))) (n, is_changed, o, w) =
        ((_, is_changed, _, _), refl)
    motor-keeps (set_speed_call (some no_event_data)) (n, is_idle, o, w) = tt
    motor-keeps (set_speed_call (some no_event_data)) (n, is_started, o, w) = tt
    motor-keeps (set_speed_call (some no_event_data)) (n, is_changed, o, w) = tt
    motor-keeps (set_speed_call none) (n, is_idle, o, w) = tt
    motor-keeps (set_speed_call none) (n, is_started, o, w) = tt
    motor-keeps (set_speed_call none) (n, is_changed, o, w) = tt
    motor-keeps halt_call (n, is_idle, o, w) = ((_, is_idle, _, _), refl)
    motor-keeps halt_call (n, is_started, o, w) = ((_, is_idle, _, _), refl)
    motor-keeps halt_call (n, is_changed, o, w) = ((_, is_idle, _, _), refl)

    motor-IsActive : IsActive motor_events (IsOneOf rests)
    motor-IsActive =
        family-IsActive motor_events thread rests (λ i. refl) motor-sends motor-handles motor-keeps
          (λ i calls. ((i.0, i.1, i.2, record i.3 { pending = calls }), refl))

    -- Any calls that other threads hand to a new motor, and that its thread then makes, come to what they
    -- come to if the motor's thread makes them itself, one after the other, null pointers included: the
    -- same members, signals and result, or the same fault in the same state.
    pub motor-async :
        (seen : W) (calls : List MotorCall)
        → requeue [] (
            and_then
              (async_motor thread seen)
              (λ _. for_each (send motor_events) calls >> drain motor_events))
          ≡ requeue []
              (and_then (async_motor thread seen) (λ _. for_each (handle motor_events) calls))
    unfolding async_motor
    motor-async seen calls =
        sends-drain motor_events motor-IsActive calls (rests (0, is_idle, _, _))
          ((0, is_idle, _, _), refl) refl
