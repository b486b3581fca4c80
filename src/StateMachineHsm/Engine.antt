-- ===== src/StateMachineHsm/Engine.antt =====
-- state-machine/StateMachineHSM.cpp: the hierarchical state engine.
use active_fsm.Base.{
  ℕ, zero, suc, not, ◌&&◌, Option, none, some, List, reverse, ltb, ◌==◌, if◌then◌else◌,
}
use active_fsm.Outcome.{
  M, Outcome, and_then, invalid_new_state, no_state_map, max_states_too_large,
  event_from_entry_or_exit, hierarchy_too_deep, ◌>>=◌, ◌>>◌, pure, get, fault, assert, read, lift,
  for_each,
}
use active_fsm.StateMachine.{Machine, Context}
use active_fsm.StateMachine.Engine.{
  invoke_state_action, invoke_guard_condition, invoke_entry_action, invoke_exit_action,
  set_current_state, consume_event, run_events,
}
use active_fsm.StateMachine.Events.{construct}
use active_fsm.StateMachineHsm.{StateMapRowHsm, max_hsm_depth, propagate_to_parent}
use active_fsm.StateMachineHsm.Ancestors.{find_lca, entry_chain}

module _ {D U : Type 0} (c : Context D U) where
  -- The constructor: behind that of `StateMachine`, one more assertion on the number of states.
  unfoldable pub construct_hsm : ℕ → U → Outcome (Machine D U) (Unit {0})
  construct_hsm initial_state object =
      and_then (construct c initial_state object)
        λ _. assert (ltb c.max_states propagate_to_parent) max_states_too_large

module _ {D U : Type 0} (c : Context D U) (state_map : List (StateMapRowHsm D U)) where
  -- One round of the exit loop: the exit function of `s`, and its signal
  unfoldable pub leave : ℕ → M (Machine D U) (Unit {0})
  leave s = do row ← read state_map s; invoke_exit_action row.exit; c.on_exit s

  -- The exit loop, from `s` up to, and without, `lca`
  unfoldable pub exit_up : ℕ → ℕ → ℕ → M (Machine D U) (Unit {0})
  exit_up zero s lca =
      if ltb s c.max_states && not (s == lca) then fault hierarchy_too_deep else pure tt
  exit_up (suc left) s lca =
      let rest = leave s >> (read state_map s >>= λ row. exit_up left row.parent_state lca) in
      if ltb s c.max_states && not (s == lca) then rest else pure tt

  -- One round of the entry loop
  unfoldable pub enter : Option D → ℕ → M (Machine D U) (Unit {0})
  enter d s = do row ← read state_map s; invoke_entry_action row.entry d; c.on_entry s

  -- The part of the turn for a change of state
  unfoldable pub change_state_hsm : ℕ → ℕ → Option D → M (Machine D U) (Unit {0})
  change_state_hsm from_state new_state d = do
    lca ← lift (find_lca c.max_states state_map from_state new_state)
    exit_up max_hsm_depth from_state lca
    chain ← lift (entry_chain c.max_states state_map max_hsm_depth new_state lca)
    set_current_state new_state
    for_each (enter d) (reverse chain)
    after ← get
    assert (not after.event_generated) event_from_entry_or_exit

  -- The part of the turn behind a guard that passed
  unfoldable pub take_transition_hsm :
      ℕ → StateMapRowHsm D U → Option D → M (Machine D U) (Unit {0})
  take_transition_hsm new_state row d = do
    m ← get
    if not (new_state == m.current_state)
        then change_state_hsm m.current_state new_state d
        else set_current_state new_state
    invoke_state_action row.state d
    last ← get
    c.on_transition m.current_state last.current_state

  -- One turn of the loop of `StateEngine`
  unfoldable pub turn_hsm : M (Machine D U) (Unit {0})
  turn_hsm = do
    m ← get
    assert (ltb m.new_state c.max_states) invalid_new_state
    row ← read state_map m.new_state
    consume_event
    passed ← invoke_guard_condition row.guard m.event_data
    if passed then take_transition_hsm m.new_state row m.event_data else pure tt

-- `StateEngine`, on what `GetStateMapHSM` returns
unfoldable pub state_engine_hsm :
    {D U : Type 0}
    → Context D U
    → Option (List (StateMapRowHsm D U))
    → ℕ
    → M (Machine D U) (Unit {0})
state_engine_hsm c none fuel = fault no_state_map
state_engine_hsm c (some state_map) fuel = run_events (turn_hsm c state_map) fuel
