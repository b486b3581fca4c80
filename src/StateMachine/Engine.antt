-- ===== src/StateMachine/Engine.antt =====
-- state-machine/StateMachine.cpp: the two state engines, for plain and for extended state maps,
-- and the calls of state, guard, entry and exit functions (state-machine/StateMachine.h).
use active_fsm.Base.{
  ℕ, zero, suc, Bool, true, false, not, Option, none, some, List, ltb, ◌==◌, if◌then◌else◌,
}
use active_fsm.Outcome.{
  M, done, unfinished, invalid_new_state, null_state, null_event_data, event_from_entry_or_exit,
  no_state_map, ◌>>=◌, ◌>>◌, pure, get, modify, fault, assert, or_fault, read,
}
use active_fsm.StateMachine.{
  Machine, StateFunction, GuardFunction, EntryFunction, ExitFunction, StateMapRow, StateMapRowEx,
  Context,
}

module _ {D U : Type 0} where
  -- `StateAction::InvokeStateAction`, behind the engine's assertion on the pointer
  unfoldable pub invoke_state_action :
      Option (StateFunction D U) → Option D → M (Machine D U) (Unit {0})
  invoke_state_action state d = do f ← or_fault state null_state; f d

  -- `GuardCondition::InvokeGuardCondition`, where the row has a guard
  unfoldable pub invoke_guard_condition :
      Option (GuardFunction D U) → Option D → M (Machine D U) Bool
  invoke_guard_condition none d = pure true
  invoke_guard_condition (some guard) d = do x ← or_fault d null_event_data; guard x

  -- `EntryAction::InvokeEntryAction`, where the row has one
  unfoldable pub invoke_entry_action :
      Option (EntryFunction D U) → Option D → M (Machine D U) (Unit {0})
  invoke_entry_action none d = pure tt
  invoke_entry_action (some entry) d = do x ← or_fault d null_event_data; entry x

  -- `ExitAction::InvokeExitAction`, where the row has one
  unfoldable pub invoke_exit_action : Option (ExitFunction D U) → M (Machine D U) (Unit {0})
  invoke_exit_action none = pure tt
  invoke_exit_action (some exit) = exit

  abbrev pub set_current_state : ℕ → M (Machine D U) (Unit {0})
  set_current_state s = modify λ m. record m { current_state = s }

  -- The pending event is used up: its pointer and its flag are reset.
  abbrev pub consume_event : M (Machine D U) (Unit {0})
  consume_event = modify λ m. record m { event_data = none; event_generated = false }

  -- `while (m_eventGenerated)`, on fuel
  unfoldable pub run_events : M (Machine D U) (Unit {0}) → ℕ → M (Machine D U) (Unit {0})
  run_events turn zero m = elim m.event_generated [ true ↦ unfinished | false ↦ done tt m ]
  run_events turn (suc fuel) m = elim m.event_generated [
    | true ↦ (turn >> run_events turn fuel) m
    | false ↦ done tt m
  ]

module _ {D U : Type 0} (c : Context D U) where
  -- One turn of the loop of `StateEngine(const StateMapRow*)`
  unfoldable pub turn : List (StateMapRow D U) → M (Machine D U) (Unit {0})
  turn state_map = do
    m ← get
    assert (ltb m.new_state c.max_states) invalid_new_state
    row ← read state_map m.new_state
    consume_event
    set_current_state m.new_state
    invoke_state_action row.state m.event_data
    last ← get
    c.on_transition m.current_state last.current_state

  -- The part of the extended engine's turn for a change of state
  unfoldable pub change_state :
      StateMapRowEx D U → StateMapRowEx D U → Option D → M (Machine D U) (Unit {0})
  change_state from to d = do
    invoke_exit_action from.exit
    left ← get
    c.on_exit left.current_state
    m ← get
    set_current_state m.new_state
    invoke_entry_action to.entry d
    entered ← get
    c.on_entry entered.current_state
    after ← get
    assert (not after.event_generated) event_from_entry_or_exit

  -- The part of the extended engine's turn behind a guard that passed
  unfoldable pub take_transition :
      StateMapRowEx D U → StateMapRowEx D U → Option D → M (Machine D U) (Unit {0})
  take_transition from to d = do
    m ← get
    if not (m.new_state == m.current_state)
        then change_state from to d
        else set_current_state m.new_state
    invoke_state_action to.state d
    last ← get
    c.on_transition m.current_state last.current_state

  -- One turn of the loop of `StateEngine(const StateMapRowEx*)`
  unfoldable pub turn_ex : List (StateMapRowEx D U) → M (Machine D U) (Unit {0})
  turn_ex state_map = do
    m ← get
    assert (ltb m.new_state c.max_states) invalid_new_state
    to ← read state_map m.new_state
    from ← read state_map m.current_state
    consume_event
    passed ← invoke_guard_condition to.guard m.event_data
    if passed then take_transition from to m.event_data else pure tt

  -- `StateEngine(void)`, on what `GetStateMap` and `GetStateMapEx` return
  unfoldable pub state_engine :
      Option (List (StateMapRow D U))
      → Option (List (StateMapRowEx D U))
      → ℕ
      → M (Machine D U) (Unit {0})
  state_engine (some state_map) ex fuel = run_events (turn state_map) fuel
  state_engine none (some state_map) fuel = run_events (turn_ex state_map) fuel
  state_engine none none fuel = fault no_state_map
