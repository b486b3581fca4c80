-- ===== src/Examples/Player.antt =====
-- examples/Player.h and examples/Player.cpp. What is printed is left out. The static variable of
-- `ST_Empty` stands with the members: it is one for all players, and there is one player here.
pub mod Laws
pub mod Promise
use active_fsm.Base.{ℕ, Bool, true, false, not, none, some, Option, List, [], ◌∷◌, if◌then◌else◌}
use active_fsm.Outcome.{M, Outcome, ◌>>=◌, ◌>>◌, pure, get}
use active_fsm.StateMachine.{Machine, StateFunction, StateMapRowEx, Context, event_ignored}
use active_fsm.StateMachine.Engine.{
  state_engine, run_events, turn_ex, take_transition, change_state, invoke_state_action,
  invoke_guard_condition, invoke_entry_action, invoke_exit_action,
}
use active_fsm.StateMachine.Events.{
  construct, internal_event, begin_transition_map, end_transition_map, external_event,
  external_event_impl,
}
use active_fsm.StateMachine.Observed.{Signal, Threads}
use active_fsm.StateMachine.Object.{Object, modify_own, context, entry_ex}

-- The only class of event data
pub data EventData : Type 0 where
  no_event_data : EventData

pub record Player : Type 0 where
  pub cd_detected_toggle : Bool

-- `enum States`
abbrev pub st_empty : ℕ
st_empty = 0

abbrev pub st_open : ℕ
st_open = 1

abbrev pub st_stopped : ℕ
st_stopped = 2

abbrev pub st_paused : ℕ
st_paused = 3

abbrev pub st_playing : ℕ
st_playing = 4

abbrev pub st_max_states : ℕ
st_max_states = 5

-- The longest chain of events: `Empty`, `Stopped`.
abbrev player_fuel : ℕ
player_fuel = 2

abbrev pub PlayerMachine : Type 0 → Type 0
PlayerMachine W = Machine EventData (Object Player W)

-- The events, as calls that a thread can be handed
pub data PlayerCall : Type 0 where
  open_close_call play_call stop_call pause_call end_pause_call : PlayerCall

module _ {W : Type 0} (observe : Signal → W → W) (threads : Threads EventData (Object Player W))
    (hand_over : PlayerCall → ℕ → M (PlayerMachine W) (Unit {0})) where
  abbrev pub player_context : Context EventData (Object Player W)
  player_context = context st_max_states no_event_data observe threads

  empty : StateFunction EventData (Object Player W)
  empty d = do
    modify_own λ o. record { cd_detected_toggle = not o.cd_detected_toggle }
    m ← get
    if m.object.own.cd_detected_toggle
        then internal_event player_context st_stopped none
        else pure tt

  -- `ST_Open`, `ST_Stopped`, `ST_Paused` and `ST_Playing`, which print and do no more
  quiet : StateFunction EventData (Object Player W)
  quiet d = pure tt

  abbrev state_map : List (StateMapRowEx EventData (Object Player W))
  state_map =
      entry_ex empty ∷ entry_ex quiet ∷ entry_ex quiet ∷ entry_ex quiet ∷ entry_ex quiet ∷ []

  player_engine : M (PlayerMachine W) (Unit {0})
  unfolding state_engine run_events turn_ex take_transition change_state invoke_state_action
      invoke_guard_condition invoke_entry_action invoke_exit_action empty quiet internal_event
  player_engine = state_engine player_context none (some state_map) player_fuel

  -- The constructor
  unfoldable pub player : W → Outcome (PlayerMachine W) (Unit {0})
  unfolding construct
  player seen =
      construct player_context st_empty
        (record { own = record { cd_detected_toggle = false }; seen = seen })

  player_event : PlayerCall → List ℕ → M (PlayerMachine W) (Unit {0})
  unfolding player_engine begin_transition_map end_transition_map external_event external_event_impl
  player_event call transitions =
      begin_transition_map player_context (hand_over call)
        (end_transition_map player_context player_engine transitions st_max_states none)

  unfoldable pub open_close : M (PlayerMachine W) (Unit {0})
  unfolding player_event
  open_close = player_event open_close_call (st_open ∷ st_empty ∷ st_open ∷ st_open ∷ st_open ∷ [])

  unfoldable pub play : M (PlayerMachine W) (Unit {0})
  unfolding player_event
  play =
      player_event play_call
        (event_ignored ∷ event_ignored ∷ st_playing ∷ event_ignored ∷ event_ignored ∷ [])

  unfoldable pub stop : M (PlayerMachine W) (Unit {0})
  unfolding player_event
  stop =
      player_event stop_call
        (event_ignored ∷ event_ignored ∷ st_stopped ∷ st_stopped ∷ st_stopped ∷ [])

  unfoldable pub pause : M (PlayerMachine W) (Unit {0})
  unfolding player_event
  pause =
      player_event pause_call
        (event_ignored ∷ event_ignored ∷ event_ignored ∷ event_ignored ∷ st_paused ∷ [])

  unfoldable pub end_pause : M (PlayerMachine W) (Unit {0})
  unfolding player_event
  end_pause =
      player_event end_pause_call
        (event_ignored ∷ event_ignored ∷ event_ignored ∷ st_playing ∷ event_ignored ∷ [])
