-- ===== src/Examples/Motor.antt =====
-- examples/Motor.h and examples/Motor.cpp. What the state functions print is left out.
pub mod Laws
pub mod Promise
pub mod Async
use active_fsm.Base.{ℕ, ℤ, pos, Option, none, some, List, [], ◌∷◌}
use active_fsm.Outcome.{M, Outcome, undefined, ◌>>=◌, ◌>>◌, pure, fault}
use active_fsm.StateMachine.{
  Machine, StateFunction, StateMapRowEx, Context, event_ignored, cannot_happen,
}
use active_fsm.StateMachine.Engine.{
  state_engine, run_events, turn_ex, take_transition, change_state, invoke_state_action,
  invoke_guard_condition, invoke_entry_action, invoke_exit_action,
}
use active_fsm.StateMachine.Events.{
  construct, internal_event, begin_transition_map, end_transition_map, external_event,
  external_event_impl,
}
use active_fsm.StateMachine.Observed.{Signal, Threads}
use active_fsm.StateMachine.Object.{Object, modify_own, context, entry_ex}

-- The objects of `NoEventData` and of `MotorData`
pub data MotorData : Type 0 where
  no_event_data : MotorData
  motor_data : (speed : ℤ) → MotorData

pub record Motor : Type 0 where
  pub current_speed : ℤ

-- `enum States`
abbrev pub st_idle : ℕ
st_idle = 0

abbrev pub st_stop : ℕ
st_stop = 1

abbrev pub st_start : ℕ
st_start = 2

abbrev pub st_change_speed : ℕ
st_change_speed = 3

abbrev pub st_max_states : ℕ
st_max_states = 4

-- The longest chain of events: `Stop`, and `Idle` which it posts.
abbrev pub motor_fuel : ℕ
motor_fuel = 2

abbrev pub MotorMachine : Type 0 → Type 0
MotorMachine W = Machine MotorData (Object Motor W)

-- The two external events, as calls that a thread can be handed
pub data MotorCall : Type 0 where
  set_speed_call : Option MotorData → MotorCall
  halt_call : MotorCall

-- `data->speed`, behind a `static_pointer_cast` that checks nothing
speed_of : {W : Type 0} → Option MotorData → M (MotorMachine W) ℤ
speed_of (some (motor_data speed)) = pure speed
speed_of (some no_event_data) = fault undefined
speed_of none = fault undefined

module _ {W : Type 0} (observe : Signal → W → W) (threads : Threads MotorData (Object Motor W))
    (hand_over : MotorCall → ℕ → M (MotorMachine W) (Unit {0})) where
  abbrev pub motor_context : Context MotorData (Object Motor W)
  motor_context = context st_max_states no_event_data observe threads

  -- The constructor
  unfoldable pub motor : W → Outcome (MotorMachine W) (Unit {0})
  motor seen =
      construct motor_context st_idle
        (record { own = record { current_speed = pos 0 }; seen = seen })

  -- `ST_Idle`
  idle : StateFunction MotorData (Object Motor W)
  idle d = pure tt

  -- `ST_Stop`
  stop : StateFunction MotorData (Object Motor W)
  stop d = do
    modify_own λ o. record o { current_speed = pos 0 }
    internal_event motor_context st_idle none

  -- `ST_Start`
  start : StateFunction MotorData (Object Motor W)
  unfolding speed_of
  start d = do speed ← speed_of d; modify_own λ o. record o { current_speed = speed }

  -- `ST_ChangeSpeed`
  change_speed : StateFunction MotorData (Object Motor W)
  unfolding speed_of
  change_speed d = do speed ← speed_of d; modify_own λ o. record o { current_speed = speed }

  abbrev state_map : List (StateMapRowEx MotorData (Object Motor W))
  state_map = entry_ex idle ∷ entry_ex stop ∷ entry_ex start ∷ entry_ex change_speed ∷ []

  motor_engine : M (MotorMachine W) (Unit {0})
  unfolding state_engine run_events turn_ex take_transition change_state invoke_state_action
      invoke_guard_condition invoke_entry_action invoke_exit_action idle stop start change_speed
      internal_event
  motor_engine = state_engine motor_context none (some state_map) motor_fuel

  -- `Motor::SetSpeed`
  unfoldable pub set_speed : Option MotorData → M (MotorMachine W) (Unit {0})
  unfolding motor_engine begin_transition_map end_transition_map external_event external_event_impl
  set_speed d = begin_transition_map motor_context (hand_over (set_speed_call d)) (
      end_transition_map motor_context motor_engine
        (st_start ∷ cannot_happen ∷ st_change_speed ∷ st_change_speed ∷ []) st_max_states d)

  -- `Motor::Halt`
  unfoldable pub halt : M (MotorMachine W) (Unit {0})
  unfolding motor_engine begin_transition_map end_transition_map external_event external_event_impl
  halt = begin_transition_map motor_context (hand_over halt_call) (
      end_transition_map motor_context motor_engine
        (event_ignored ∷ cannot_happen ∷ st_stop ∷ st_stop ∷ []) st_max_states none)
