-- ===== src/StateMachine/Events.antt =====
-- state-machine/StateMachine.cpp: how events enter the machine, and the macros of
-- state-machine/StateMachine.h that look a target up in a transition map. `engine` is the virtual
-- `StateEngine` of the object at hand.
use active_fsm.Base.{
  ℕ, Bool, true, false, not, ◌&&◌, Option, none, some, List, leb, ltb, ◌==◌, if◌then◌else◌,
}
use active_fsm.Outcome.{
  M, Outcome, cannot_happen_event, max_states_too_large, invalid_current_state, undefined, ◌>>=◌,
  ◌>>◌, pure, get, modify, fault, assert, or_fault, read,
}
use active_fsm.StateMachine.{Machine, Context, event_ignored, cannot_happen}

module _ {D U : Type 0} (c : Context D U) where
  -- The constructor: the object before its first event, with an assertion on the number of states.
  unfoldable pub construct : ℕ → U → Outcome (Machine D U) (Unit {0})
  construct initial_state object =
      assert (ltb c.max_states event_ignored) max_states_too_large (record {
        current_state = initial_state;
        new_state = 0;
        event_generated = false;
        event_data = none;
        thread = none;
        object = object;
      })

  abbrev or_no_event_data : Option D → D
  or_no_event_data none = c.no_event_data
  or_no_event_data (some d) = d

  -- `InternalEvent`
  unfoldable pub internal_event : ℕ → Option D → M (Machine D U) (Unit {0})
  internal_event new_state d = modify λ m. record m {
    event_data = some (or_no_event_data d);
    event_generated = true;
    new_state = new_state;
  }

  -- `IsOnStateMachineThread`
  unfoldable pub is_on_state_machine_thread : Option ℕ → Bool
  is_on_state_machine_thread none = true
  is_on_state_machine_thread (some thread) = c.is_current_thread thread

  -- `*m_thread`
  abbrev hand_over : Option ℕ → (ℕ → M (Machine D U) (Unit {0})) → M (Machine D U) (Unit {0})
  hand_over thread call = do t ← or_fault thread undefined; call t

  -- `SetThread`
  unfoldable pub set_thread : ℕ → M (Machine D U) (Unit {0})
  set_thread thread = modify λ m. record m { thread = some thread }

  -- `BEGIN_TRANSITION_MAP`: off the machine's thread the whole call is handed over, by `repost`.
  unfoldable pub begin_transition_map :
      (ℕ → M (Machine D U) (Unit {0})) → M (Machine D U) (Unit {0}) → M (Machine D U) (Unit {0})
  begin_transition_map repost body = do
    m ← get
    if not (is_on_state_machine_thread m.thread) then hand_over m.thread repost else body

module _ {D U : Type 0} (c : Context D U) (engine : M (Machine D U) (Unit {0})) where
  -- `ExternalEventImpl`
  unfoldable pub external_event_impl : ℕ → Option D → M (Machine D U) (Unit {0})
  external_event_impl new_state d = do internal_event c new_state d; engine

  report_cannot_happen : M (Machine D U) (Unit {0})
  report_cannot_happen = do m ← get; c.on_cannot_happen m.current_state; fault cannot_happen_event

  -- `ExternalEvent`
  unfoldable pub external_event : ℕ → Option D → M (Machine D U) (Unit {0})
  unfolding report_cannot_happen
  external_event new_state d = if new_state == event_ignored then pure tt else do
    if new_state == cannot_happen then report_cannot_happen else pure tt
    m ← get
    if not (is_on_state_machine_thread c m.thread)
        then hand_over c m.thread (λ thread. c.post thread new_state d)
        else external_event_impl new_state d

  -- `END_TRANSITION_MAP`: `transitions` has `st_max_states` entries.
  unfoldable pub end_transition_map : List ℕ → ℕ → Option D → M (Machine D U) (Unit {0})
  end_transition_map transitions st_max_states d = do
    m ← get
    assert (ltb m.current_state st_max_states) invalid_current_state
    target ← read transitions m.current_state
    external_event target d

  -- `PARENT_TRANSITION`: in a state of the derived class the event goes to `state`.
  unfoldable pub parent_transition : ℕ → ℕ → M (Machine D U) (Unit {0}) → M (Machine D U) (Unit {0})
  parent_transition st_max_states state rest = do
    m ← get
    if leb st_max_states m.current_state && ltb m.current_state c.max_states
        then external_event state none
        else rest
