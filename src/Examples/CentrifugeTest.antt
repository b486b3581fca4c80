-- ===== src/Examples/CentrifugeTest.antt =====
-- examples/CentrifugeTest.h and examples/CentrifugeTest.cpp. What is printed is left out.
pub mod Async
pub mod Laws
pub mod Promise
pub mod Races
use active_fsm.Base.{
  ℕ, Bool, true, false, suc, ℤ, pos, increment, decrement, is_zero, at_least, Option, none, some,
  List, [], ◌∷◌, if◌then◌else◌,
}
use active_fsm.Outcome.{M, Outcome, and_then, ◌>>=◌, ◌>>◌, pure, get, done}
use active_fsm.StateMachine.{
  Machine, StateFunction, GuardFunction, ExitFunction, StateMapRowEx, Context, event_ignored,
  cannot_happen,
}
use active_fsm.StateMachine.Engine.{
  state_engine, run_events, turn_ex, take_transition, change_state, invoke_state_action,
  invoke_guard_condition, invoke_entry_action, invoke_exit_action,
}
use active_fsm.StateMachine.Events.{
  construct, set_thread, internal_event, begin_transition_map, end_transition_map,
  parent_transition, external_event, external_event_impl,
}
use active_fsm.StateMachine.Observed.{Signal, Threads}
use active_fsm.StateMachine.Object.{Object, modify_own, context, entry_ex}
use active_fsm.Examples.SelfTest
use active_fsm.Examples.SelfTest.{st_idle, st_completed, st_failed}

-- The only class of event data
pub data EventData : Type 0 where
  no_event_data : EventData

pub record CentrifugeTest : Type 0 where
  pub speed : ℤ  -- m_speed
  pub polling : Bool  -- m_pollTimer.Enabled()
  pub completions : ℕ  -- how often `OnComplete` has fired

-- `enum States`
abbrev pub st_start_test : ℕ
st_start_test = 3

abbrev pub st_acceleration : ℕ
st_acceleration = 4

abbrev pub st_wait_for_acceleration : ℕ
st_wait_for_acceleration = 5

abbrev pub st_deceleration : ℕ
st_deceleration = 6

abbrev pub st_wait_for_deceleration : ℕ
st_wait_for_deceleration = 7

abbrev pub st_max_states : ℕ
st_max_states = 8

-- The longest chain of events: the last wait, `Completed`, `Idle`.
abbrev pub test_fuel : ℕ
test_fuel = 3

abbrev pub TestMachine : Type 0 → Type 0
TestMachine W = Machine EventData (Object CentrifugeTest W)

-- The events, as calls that a thread can be handed
pub data TestCall : Type 0 where
  start_call poll_call cancel_call : TestCall

module _ {W : Type 0} where
  start_poll : M (TestMachine W) (Unit {0})
  start_poll = modify_own λ o. record o { polling = true }

  stop_poll : M (TestMachine W) (Unit {0})
  stop_poll = modify_own λ o. record o { polling = false }

  on_complete : M (TestMachine W) (Unit {0})
  on_complete = modify_own λ o. record o { completions = suc o.completions }

  idle : StateFunction EventData (Object CentrifugeTest W)
  unfolding SelfTest.idle stop_poll on_complete
  idle d = do SelfTest.idle d; stop_poll; on_complete

  guard_start_test : GuardFunction EventData (Object CentrifugeTest W)
  guard_start_test d = do m ← get; pure (is_zero m.object.own.speed)

  acceleration : StateFunction EventData (Object CentrifugeTest W)
  unfolding start_poll
  acceleration d = start_poll

  exit_wait_for_acceleration : ExitFunction EventData (Object CentrifugeTest W)
  unfolding stop_poll
  exit_wait_for_acceleration = stop_poll

  deceleration : StateFunction EventData (Object CentrifugeTest W)
  unfolding start_poll
  deceleration d = start_poll

  exit_wait_for_deceleration : ExitFunction EventData (Object CentrifugeTest W)
  unfolding stop_poll
  exit_wait_for_deceleration = stop_poll

module _ {W : Type 0} (observe : Signal → W → W)
    (threads : Threads EventData (Object CentrifugeTest W))
    (hand_over : TestCall → ℕ → M (TestMachine W) (Unit {0})) where
  abbrev pub test_context : Context EventData (Object CentrifugeTest W)
  test_context = context st_max_states no_event_data observe threads

  start_test : StateFunction EventData (Object CentrifugeTest W)
  start_test d = internal_event test_context st_acceleration none

  wait_for_acceleration : StateFunction EventData (Object CentrifugeTest W)
  wait_for_acceleration d = do
    modify_own λ o. record o { speed = increment o.speed }
    m ← get
    if at_least 5 m.object.own.speed
        then internal_event test_context st_deceleration none
        else pure tt

  wait_for_deceleration : StateFunction EventData (Object CentrifugeTest W)
  wait_for_deceleration d = do
    m ← get
    modify_own λ o. record o { speed = decrement o.speed }
    if is_zero m.object.own.speed then internal_event test_context st_completed none else pure tt

  abbrev state_map : List (StateMapRowEx EventData (Object CentrifugeTest W))
  state_map =
      record { state = some idle; guard = none; entry = some SelfTest.entry_idle; exit = none }
      ∷ entry_ex (SelfTest.completed test_context)
      ∷ entry_ex (SelfTest.failed test_context)
      ∷ record { state = some start_test; guard = some guard_start_test; entry = none; exit = none }
      ∷ entry_ex acceleration
      ∷ record {
        state = some wait_for_acceleration;
        guard = none;
        entry = none;
        exit = some exit_wait_for_acceleration;
      }
      ∷ entry_ex deceleration
      ∷ record {
        state = some wait_for_deceleration;
        guard = none;
        entry = none;
        exit = some exit_wait_for_deceleration;
      }
      ∷ []

  pub test_engine : M (TestMachine W) (Unit {0})
  unfolding state_engine run_events turn_ex take_transition change_state invoke_state_action
      invoke_guard_condition invoke_entry_action invoke_exit_action idle guard_start_test
      acceleration exit_wait_for_acceleration deceleration exit_wait_for_deceleration start_test
      wait_for_acceleration wait_for_deceleration SelfTest.entry_idle SelfTest.completed
      SelfTest.failed internal_event
  test_engine = state_engine test_context none (some state_map) test_fuel

  -- The constructor, with the number of `m_threadObj`
  unfoldable pub centrifuge_test : ℕ → W → Outcome (TestMachine W) (Unit {0})
  unfolding construct set_thread
  centrifuge_test thread seen =
      and_then
        (construct test_context st_idle (record {
          own = record { speed = pos 0; polling = false; completions = 0 };
          seen = seen;
        }))
        (λ _. set_thread test_context thread)

  test_event : TestCall → List ℕ → M (TestMachine W) (Unit {0})
  unfolding test_engine begin_transition_map end_transition_map external_event external_event_impl
  test_event call transitions =
      begin_transition_map test_context (hand_over call)
        (end_transition_map test_context test_engine transitions st_max_states none)

  unfoldable pub start : M (TestMachine W) (Unit {0})
  unfolding test_event
  start = test_event start_call (
      st_start_test ∷ cannot_happen ∷ cannot_happen ∷ event_ignored ∷ event_ignored ∷ event_ignored
      ∷ event_ignored ∷ event_ignored ∷ [])

  unfoldable pub poll : M (TestMachine W) (Unit {0})
  unfolding test_event
  poll = test_event poll_call (
      event_ignored ∷ event_ignored ∷ event_ignored ∷ event_ignored ∷ st_wait_for_acceleration
      ∷ st_wait_for_acceleration ∷ st_wait_for_deceleration ∷ st_wait_for_deceleration ∷ [])

  unfoldable pub cancel : M (TestMachine W) (Unit {0})
  unfolding test_engine SelfTest.cancel parent_transition begin_transition_map end_transition_map
      external_event external_event_impl
  cancel = SelfTest.cancel test_context test_engine (hand_over cancel_call)
