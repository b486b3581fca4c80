-- ===== src/UnitTests/TestHsm.antt =====
-- `TestHSM` of unit-tests/StateMachineHSMTests.cpp: four states in two levels, whose functions note
-- that they were called.
pub mod History
use active_fsm.Base.{ℕ, Bool, true, none, some, Option, List, [], ◌∷◌}
use active_fsm.Outcome.{M, Outcome, for_each, ◌>>=◌, pure, get}
use active_fsm.StateMachine.{
  Machine, StateFunction, GuardFunction, EntryFunction, ExitFunction, Context, event_ignored,
}
use active_fsm.StateMachine.Engine.{
  run_events, invoke_state_action, invoke_guard_condition, invoke_entry_action, invoke_exit_action,
}
use active_fsm.StateMachine.Events.{
  construct, begin_transition_map, external_event, external_event_impl, internal_event,
}
use active_fsm.StateMachine.Observed.{Signal, Threads}
use active_fsm.StateMachine.Object.{Object, modify_own, context}
use active_fsm.StateMachineHsm.{StateMapRowHsm, no_parent, propagate_to_parent}
use active_fsm.StateMachineHsm.Ancestors.{is_ancestor, find_lca_from, find_lca, entry_chain}
use active_fsm.StateMachineHsm.Engine.{
  construct_hsm, leave, exit_up, enter, change_state_hsm, take_transition_hsm, turn_hsm,
  state_engine_hsm,
}
use active_fsm.StateMachineHsm.Propagation.{resolve_from, resolve, end_transition_map_hsm}
use active_fsm.UnitTests.{EventData, no_event_data}

-- The strings that are logged
pub data Note : Type 0 where
  st_top_note st_parent_note st_child1_note st_child2_note : Note
  en_parent ex_parent en_child1 ex_child1 en_child2 : Note

-- `log` has the newest note first.
pub record TestHsm : Type 0 where
  pub log : List Note
  pub guard_allow : Bool

abbrev pub st_top : ℕ
st_top = 0

abbrev pub st_parent : ℕ
st_parent = 1

abbrev pub st_child1 : ℕ
st_child1 = 2

abbrev pub st_child2 : ℕ
st_child2 = 3

abbrev pub st_max_states : ℕ
st_max_states = 4

-- No function posts an event, and the hierarchy has two levels.
abbrev fuel : ℕ
fuel = 1

abbrev pub HsmMachine : Type 0 → Type 0
HsmMachine W = Machine EventData (Object TestHsm W)

pub data HsmCall : Type 0 where
  go_child1_call go_child2_call go_top_call toggle_call : HsmCall

module _ {W : Type 0} where
  note : Note → M (HsmMachine W) (Unit {0})
  note x = modify_own λ o. record o { log = x ∷ o.log }

  top : StateFunction EventData (Object TestHsm W)
  unfolding note
  top d = note st_top_note

  parent : StateFunction EventData (Object TestHsm W)
  unfolding note
  parent d = note st_parent_note

  child1 : StateFunction EventData (Object TestHsm W)
  unfolding note
  child1 d = note st_child1_note

  child2 : StateFunction EventData (Object TestHsm W)
  unfolding note
  child2 d = note st_child2_note

  entry_parent : EntryFunction EventData (Object TestHsm W)
  unfolding note
  entry_parent d = note en_parent

  exit_parent : ExitFunction EventData (Object TestHsm W)
  unfolding note
  exit_parent = note ex_parent

  entry_child1 : EntryFunction EventData (Object TestHsm W)
  unfolding note
  entry_child1 d = note en_child1

  exit_child1 : ExitFunction EventData (Object TestHsm W)
  unfolding note
  exit_child1 = note ex_child1

  entry_child2 : EntryFunction EventData (Object TestHsm W)
  unfolding note
  entry_child2 d = note en_child2

  guard_child2 : GuardFunction EventData (Object TestHsm W)
  guard_child2 d = do m ← get; pure m.object.own.guard_allow

  abbrev state_map : List (StateMapRowHsm EventData (Object TestHsm W))
  state_map =
      record { state = some top; guard = none; entry = none; exit = none; parent_state = no_parent }
      ∷ record {
        state = some parent;
        guard = none;
        entry = some entry_parent;
        exit = some exit_parent;
        parent_state = no_parent;
      }
      ∷ record {
        state = some child1;
        guard = none;
        entry = some entry_child1;
        exit = some exit_child1;
        parent_state = st_parent;
      }
      ∷ record {
        state = some child2;
        guard = some guard_child2;
        entry = some entry_child2;
        exit = none;
        parent_state = st_parent;
      }
      ∷ []

module _ {W : Type 0} (observe : Signal → W → W) (threads : Threads EventData (Object TestHsm W))
    (hand_over : HsmCall → ℕ → M (HsmMachine W) (Unit {0})) where
  abbrev hsm_context : Context EventData (Object TestHsm W)
  hsm_context = context st_max_states no_event_data observe threads

  unfoldable pub test_hsm : W → Outcome (HsmMachine W) (Unit {0})
  unfolding construct_hsm construct
  test_hsm seen =
      construct_hsm hsm_context st_top
        (record { own = record { log = []; guard_allow = true }; seen = seen })

  hsm_engine : M (HsmMachine W) (Unit {0})
  unfolding state_engine_hsm run_events turn_hsm take_transition_hsm change_state_hsm leave exit_up
      enter find_lca find_lca_from is_ancestor entry_chain for_each invoke_state_action
      invoke_guard_condition invoke_entry_action invoke_exit_action top parent child1 child2
      entry_parent exit_parent entry_child1 exit_child1 entry_child2 guard_child2 internal_event
  hsm_engine = state_engine_hsm hsm_context (some state_map) fuel

  hsm_event : HsmCall → List ℕ → M (HsmMachine W) (Unit {0})
  unfolding hsm_engine begin_transition_map end_transition_map_hsm resolve resolve_from
      external_event external_event_impl
  hsm_event call transitions =
      begin_transition_map hsm_context (hand_over call) (
        end_transition_map_hsm hsm_context hsm_engine state_map fuel transitions st_max_states none)

  unfoldable pub go_child1 : M (HsmMachine W) (Unit {0})
  unfolding hsm_event
  go_child1 = hsm_event go_child1_call (st_child1 ∷ st_child1 ∷ st_child1 ∷ st_child1 ∷ [])

  unfoldable pub go_child2 : M (HsmMachine W) (Unit {0})
  unfolding hsm_event
  go_child2 = hsm_event go_child2_call (st_child2 ∷ st_child2 ∷ st_child2 ∷ st_child2 ∷ [])

  unfoldable pub go_top : M (HsmMachine W) (Unit {0})
  unfolding hsm_event
  go_top =
      hsm_event go_top_call
        (event_ignored ∷ st_top ∷ propagate_to_parent ∷ propagate_to_parent ∷ [])

  unfoldable pub toggle : M (HsmMachine W) (Unit {0})
  unfolding hsm_event
  toggle = hsm_event toggle_call (event_ignored ∷ event_ignored ∷ st_child2 ∷ st_child1 ∷ [])
