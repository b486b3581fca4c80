-- ===== src/Examples/AlarmPanel.antt =====
-- examples/AlarmPanel.h and examples/AlarmPanel.cpp. The functions of the panel only print, so what
-- they print is the state of its object.
pub mod Laws
pub mod Promise
pub mod Async
use active_fsm.Base.{ℕ, ℤ, Option, none, some, List, [], ◌∷◌}
use active_fsm.Outcome.{M, Outcome, undefined, ◌>>=◌, ◌>>◌, pure, fault, for_each}
use active_fsm.StateMachine.{
  Machine, StateFunction, EntryFunction, ExitFunction, Context, event_ignored,
}
use active_fsm.StateMachine.Engine.{
  run_events, invoke_state_action, invoke_guard_condition, invoke_entry_action, invoke_exit_action,
}
use active_fsm.StateMachine.Events.{
  construct, begin_transition_map, external_event, external_event_impl, internal_event,
}
use active_fsm.StateMachine.Observed.{Signal, Threads}
use active_fsm.StateMachine.Object.{Object, modify_own, context}
use active_fsm.StateMachineHsm.{StateMapRowHsm, no_parent, propagate_to_parent}
use active_fsm.StateMachineHsm.Ancestors.{is_ancestor, find_lca_from, find_lca, entry_chain}
use active_fsm.StateMachineHsm.Engine.{
  construct_hsm, leave, exit_up, enter, change_state_hsm, take_transition_hsm, turn_hsm,
  state_engine_hsm,
}
use active_fsm.StateMachineHsm.Propagation.{resolve_from, resolve, end_transition_map_hsm}

-- The objects of `NoEventData` and of `TriggerData`
pub data TriggerData : Type 0 where
  no_event_data : TriggerData
  trigger_data : (zone : ℤ) → TriggerData

pub data Line : Type 0 where
  system_disarmed : Line
  armed_composite : Line
  armed_home : Line
  armed_away : Line
  alarm : (zone : ℤ) → Line
  activating_sensors : Line
  deactivating_sensors : Line
  interior_motion_disabled : Line
  full_coverage_enabled : Line

-- The lines printed, newest first
pub record AlarmPanel : Type 0 where
  pub printed : List Line

-- `enum States`
abbrev pub st_disarmed : ℕ
st_disarmed = 0

abbrev pub st_armed : ℕ
st_armed = 1

abbrev pub st_armed_home : ℕ
st_armed_home = 2

abbrev pub st_armed_away : ℕ
st_armed_away = 3

abbrev pub st_alarming : ℕ
st_alarming = 4

abbrev pub st_max_states : ℕ
st_max_states = 5

abbrev pub PanelMachine : Type 0 → Type 0
PanelMachine W = Machine TriggerData (Object AlarmPanel W)

-- The external events, as calls that a thread can be handed
pub data PanelCall : Type 0 where
  arm_home_call : PanelCall
  arm_away_call : PanelCall
  disarm_call : PanelCall
  toggle_call : PanelCall
  trigger_call : Option TriggerData → PanelCall

module _ {W : Type 0} where
  print : Line → M (PanelMachine W) (Unit {0})
  print line = modify_own λ o. record { printed = line ∷ o.printed }

  -- `data->zone`, behind an unchecked cast
  zone_of : Option TriggerData → M (PanelMachine W) ℤ
  zone_of (some (trigger_data zone)) = pure zone
  zone_of (some no_event_data) = fault undefined
  zone_of none = fault undefined

  unfoldable pub disarmed : StateFunction TriggerData (Object AlarmPanel W)
  unfolding print
  disarmed d = print system_disarmed

  unfoldable pub armed : StateFunction TriggerData (Object AlarmPanel W)
  unfolding print
  armed d = print armed_composite

  unfoldable pub home : StateFunction TriggerData (Object AlarmPanel W)
  unfolding print
  home d = print armed_home

  unfoldable pub away : StateFunction TriggerData (Object AlarmPanel W)
  unfolding print
  away d = print armed_away

  unfoldable pub alarming : StateFunction TriggerData (Object AlarmPanel W)
  unfolding print zone_of
  alarming d = do zone ← zone_of d; print (alarm zone)

  unfoldable pub entry_armed : EntryFunction TriggerData (Object AlarmPanel W)
  unfolding print
  entry_armed d = print activating_sensors

  unfoldable pub exit_armed : ExitFunction TriggerData (Object AlarmPanel W)
  unfolding print
  exit_armed = print deactivating_sensors

  unfoldable pub entry_armed_home : EntryFunction TriggerData (Object AlarmPanel W)
  unfolding print
  entry_armed_home d = print interior_motion_disabled

  unfoldable pub entry_armed_away : EntryFunction TriggerData (Object AlarmPanel W)
  unfolding print
  entry_armed_away d = print full_coverage_enabled

  -- The rows that `BEGIN_STATE_MAP_HSM` and `STATE_MAP_ENTRY_ALL_HSM` make
  abbrev pub state_map : List (StateMapRowHsm TriggerData (Object AlarmPanel W))
  state_map =
      record {
        state = some disarmed;
        guard = none;
        entry = none;
        exit = none;
        parent_state = no_parent;
      }
      ∷ record {
        state = some armed;
        guard = none;
        entry = some entry_armed;
        exit = some exit_armed;
        parent_state = no_parent;
      }
      ∷ record {
        state = some home;
        guard = none;
        entry = some entry_armed_home;
        exit = none;
        parent_state = st_armed;
      }
      ∷ record {
        state = some away;
        guard = none;
        entry = some entry_armed_away;
        exit = none;
        parent_state = st_armed;
      }
      ∷ record {
        state = some alarming;
        guard = none;
        entry = none;
        exit = none;
        parent_state = no_parent;
      }
      ∷ []

-- No function of the panel posts an event, so the engine makes one turn; the hierarchy has two levels.
abbrev pub panel_fuel : ℕ
panel_fuel = 1

module _ {W : Type 0} (observe : Signal → W → W)
    (threads : Threads TriggerData (Object AlarmPanel W))
    (hand_over : PanelCall → ℕ → M (PanelMachine W) (Unit {0})) where
  abbrev pub panel_context : Context TriggerData (Object AlarmPanel W)
  panel_context = context st_max_states no_event_data observe threads

  unfoldable pub alarm_panel : W → Outcome (PanelMachine W) (Unit {0})
  unfolding construct_hsm construct
  alarm_panel seen =
      construct_hsm panel_context st_disarmed
        (record { own = record { printed = [] }; seen = seen })

  panel_engine : M (PanelMachine W) (Unit {0})
  unfolding state_engine_hsm run_events turn_hsm take_transition_hsm change_state_hsm leave exit_up
      enter find_lca find_lca_from is_ancestor entry_chain for_each invoke_state_action
      invoke_guard_condition invoke_entry_action invoke_exit_action disarmed armed home away
      alarming entry_armed exit_armed entry_armed_home entry_armed_away internal_event
  panel_engine = state_engine_hsm panel_context (some state_map) panel_fuel

  -- `BEGIN_TRANSITION_MAP` to `END_TRANSITION_MAP_HSM`, as each event of the panel has them
  panel_event : PanelCall → List ℕ → Option TriggerData → M (PanelMachine W) (Unit {0})
  unfolding panel_engine begin_transition_map end_transition_map_hsm resolve resolve_from
      external_event external_event_impl
  panel_event call transitions d = begin_transition_map panel_context (hand_over call) (
      end_transition_map_hsm panel_context panel_engine state_map panel_fuel transitions
        st_max_states d)

  unfoldable pub arm_home : M (PanelMachine W) (Unit {0})
  unfolding panel_event
  arm_home =
      panel_event arm_home_call
        (st_armed_home ∷ event_ignored ∷ event_ignored ∷ event_ignored ∷ event_ignored ∷ []) none

  unfoldable pub arm_away : M (PanelMachine W) (Unit {0})
  unfolding panel_event
  arm_away =
      panel_event arm_away_call
        (st_armed_away ∷ event_ignored ∷ event_ignored ∷ event_ignored ∷ event_ignored ∷ []) none

  unfoldable pub disarm : M (PanelMachine W) (Unit {0})
  unfolding panel_event
  disarm =
      panel_event disarm_call
        (event_ignored ∷ st_disarmed ∷ propagate_to_parent ∷ propagate_to_parent ∷ st_disarmed ∷ [])
        none

  unfoldable pub toggle : M (PanelMachine W) (Unit {0})
  unfolding panel_event
  toggle =
      panel_event toggle_call
        (event_ignored ∷ event_ignored ∷ st_armed_away ∷ st_armed_home ∷ event_ignored ∷ []) none

  unfoldable pub trigger : Option TriggerData → M (PanelMachine W) (Unit {0})
  unfolding panel_event
  trigger d =
      panel_event (trigger_call d)
        (event_ignored ∷ st_alarming ∷ propagate_to_parent ∷ propagate_to_parent ∷ event_ignored
          ∷ [])
        d
