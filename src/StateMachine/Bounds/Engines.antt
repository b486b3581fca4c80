-- ===== src/StateMachine/Bounds/Engines.antt =====
-- The engines of state-machine/StateMachine.cpp, and `ExternalEvent`, keep the bounds on the states.
use active_fsm.Base.{
  ℕ, ◌<◌, true, not, Option, refl, ==_cases, ==_ne, none, some, List, ◌≡◌, if◌then◌else◌, ltb,
  ltb→lt, ◌==◌, Bool-cases, inl, inr,
}
use active_fsm.Outcome.{M, cannot_happen_event, fault, or_fault, ◌>>=◌, and_then, undefined, pure}
use active_fsm.StateMachine.{
  Machine, Context, StateMapRow, StateMapRowEx, event_ignored, cannot_happen,
}
use active_fsm.StateMachine.Engine.{
  set_current_state, turn, turn_ex, take_transition, change_state, state_engine,
  invoke_state_action, invoke_guard_condition, invoke_entry_action, invoke_exit_action,
}
use active_fsm.StateMachine.Events.{
  external_event, external_event_impl, internal_event, is_on_state_machine_thread,
}
use active_fsm.StateMachine.Bounds.{
  IsBelow, EndsBelow, Keeps, and_then-EndsBelow, Each, Rows, KeepsState, RowKeeps, MapsKeep, Checks,
  ContextKeeps, read-EndsBelow, invoke_state_action-Keeps, invoke_guard_condition-Keeps,
  invoke_entry_action-Keeps, invoke_exit_action-Keeps, assert-Keeps, if-Keeps, run_events-EndsBelow,
}

module _ {D U : Type 0} (c : Context D U) (quiet : ContextKeeps c) where
  turn-Checks :
      (rows : List (StateMapRow D U))
      → Rows (λ row. Each (KeepsState c.max_states) row.state) rows
      → Checks c.max_states (turn c rows)
  unfolding turn
  turn-Checks rows k m h = elim (Bool-cases (ltb m.new_state c.max_states)) [
    | inl inside ↦
        let b = ltb→lt m.new_state c.max_states inside in
        rw inside (
          read-EndsBelow rows m.new_state _ m
            (λ row e.
              and_then-EndsBelow c.max_states (invoke_state_action row.state m.event_data _) _
                (invoke_state_action-Keeps row.state (k m.new_state row e) m.event_data _ (b, b))
                (λ _ m₁ b₁. quiet.on_transition _ _ m₁ b₁))
            h)
    | inr outside ↦ rw outside h
  ]

  change_state-Keeps :
      (from to : StateMapRowEx D U) (d : Option D)
      → RowKeeps c.max_states from
      → RowKeeps c.max_states to
      → Keeps c.max_states (change_state c from to d)
  unfolding change_state
  change_state-Keeps from to d kf kt m h =
      and_then-EndsBelow c.max_states (invoke_exit_action from.exit m) _
        (invoke_exit_action-Keeps from.exit kf.exit m h)
        (λ _ m₁ h₁.
          and_then-EndsBelow c.max_states (c.on_exit m₁.current_state m₁) _
            (quiet.on_exit m₁.current_state m₁ h₁)
            (λ _ m₂ h₂.
              and_then-EndsBelow c.max_states (invoke_entry_action to.entry d _) _
                (invoke_entry_action-Keeps to.entry kt.entry d _ (h₂.1, h₂.1))
                (λ _ m₃ h₃.
                  and_then-EndsBelow c.max_states (c.on_entry m₃.current_state m₃) _
                    (quiet.on_entry m₃.current_state m₃ h₃) (λ _ m₄ h₄. assert-Keeps _ _ m₄ h₄))))

  take_transition-Keeps :
      (from to : StateMapRowEx D U) (d : Option D)
      → RowKeeps c.max_states from
      → RowKeeps c.max_states to
      → Keeps c.max_states (take_transition c from to d)
  unfolding take_transition
  take_transition-Keeps from to d kf kt m h =
      and_then-EndsBelow c.max_states _ _
        (if-Keeps (not (m.new_state == m.current_state)) (change_state c from to d)
          (set_current_state m.new_state) (change_state-Keeps from to d kf kt) (λ _ h₁. (h.1, h₁.1))
          m h)
        (λ _ m₁ h₁.
          and_then-EndsBelow c.max_states (invoke_state_action to.state d m₁) _
            (invoke_state_action-Keeps to.state kt.state d m₁ h₁)
            (λ _ m₂ h₂. quiet.on_transition _ _ m₂ h₂))

  turn_ex-Checks :
      (rows : List (StateMapRowEx D U))
      → Rows (RowKeeps c.max_states) rows
      → Checks c.max_states (turn_ex c rows)
  unfolding turn_ex
  turn_ex-Checks rows k m h = elim (Bool-cases (ltb m.new_state c.max_states)) [
    | inl inside ↦
        let b = ltb→lt m.new_state c.max_states inside in
        rw inside (
          read-EndsBelow rows m.new_state _ m
            (λ to e.
              read-EndsBelow rows m.current_state _ m
                (λ from e'.
                  and_then-EndsBelow c.max_states (invoke_guard_condition to.guard m.event_data _) _
                    (invoke_guard_condition-Keeps to.guard (k m.new_state to e).guard m.event_data _
                      (h, b))
                    (λ passed m₁ h₁.
                      if-Keeps passed (take_transition c from to m.event_data) (pure tt)
                        (take_transition-Keeps from to m.event_data (k m.current_state from e')
                          (k m.new_state to e))
                        (λ _ h₂. h₂) m₁ h₁))
                h)
            h)
    | inr outside ↦ rw outside h
  ]

  state_engine-EndsBelow :
      (rows : Option (List (StateMapRow D U))) (rows_ex : Option (List (StateMapRowEx D U)))
      (fuel : ℕ) (m : Machine D U)
      → MapsKeep c.max_states rows rows_ex
      → m.current_state < c.max_states
      → m.event_generated ≡ true
      → EndsBelow c.max_states (state_engine c rows rows_ex fuel m)
  unfolding state_engine
  state_engine-EndsBelow (some rows) ex fuel m k h g =
      run_events-EndsBelow (turn c rows) (turn-Checks rows k.0) fuel m h (λ i. cc)
  state_engine-EndsBelow none (some rows) fuel m k h g =
      run_events-EndsBelow (turn_ex c rows) (turn_ex-Checks rows k.1) fuel m h (λ i. cc)
  state_engine-EndsBelow none none fuel m k h g = h

  module _ (engine : M (Machine D U) (Unit {0}))
      (keeps : (m : Machine D U)
        → m.current_state < c.max_states
        → m.event_generated ≡ true
        → EndsBelow c.max_states (engine m)) where
    -- The part of `ExternalEvent` behind its two tests, by the thread of the machine
    delivered-EndsBelow :
        (t : ℕ) (d : Option D) (thread : Option ℕ) (m : Machine D U)
        → IsBelow c.max_states m
        → EndsBelow c.max_states (
            (if not (is_on_state_machine_thread c thread)
                then (or_fault thread undefined >>= λ n. c.post n t d)
                else external_event_impl c engine t d)
              m)
    unfolding external_event_impl internal_event is_on_state_machine_thread
    delivered-EndsBelow t d none m h = keeps _ h.0 refl
    delivered-EndsBelow t d (some n) m h =
        if-Keeps (not (c.is_current_thread n)) (c.post n t d) (external_event_impl c engine t d)
          (quiet.post n t d) (λ m₁ h₁. keeps _ h₁.0 refl) m h

    -- `ExternalEvent`, for any engine that keeps the bounds with an event pending
    pub external_event-Keeps :
        (t : ℕ) (d : Option D) → Keeps c.max_states (external_event c engine t d)
    unfolding external_event
    external_event-Keeps t d m h = elim (==_cases t event_ignored) [
      | inl e ↦ rw e h
      | inr a ↦ elim (==_cases t cannot_happen) [
        | inl e ↦ rw e (
            and_then-EndsBelow c.max_states
              (and_then (c.on_cannot_happen m.current_state m) (λ _. fault cannot_happen_event)) _
              (and_then-EndsBelow c.max_states (c.on_cannot_happen m.current_state m) _
                (quiet.on_cannot_happen m.current_state m h) (λ _ m₁ h₁. h₁.0))
              (λ _ m₁ h₁. delivered-EndsBelow cannot_happen d m₁.thread m₁ h₁))
        | inr b ↦
            rw (==_ne t event_ignored a, ==_ne t cannot_happen b)
              (delivered-EndsBelow t d m.thread m h)
      ]
    ]

  -- On state maps whose functions, with observers and queues that do so too, keep `m_currentState` and
  -- `m_newState` below the number of states, an event for any target, from a machine with both below
  -- it, does the same with either engine; if it faults, `m_currentState` is below the bound.
  pub external_event-EndsBelow :
      (rows : Option (List (StateMapRow D U))) (rows_ex : Option (List (StateMapRowEx D U)))
      (fuel t : ℕ) (d : Option D) (m : Machine D U)
      → MapsKeep c.max_states rows rows_ex
      → IsBelow c.max_states m
      → EndsBelow c.max_states (external_event c (state_engine c rows rows_ex fuel) t d m)
  external_event-EndsBelow rows ex fuel t d m k h =
      external_event-Keeps (state_engine c rows ex fuel)
        (λ m₁ b g. state_engine-EndsBelow rows ex fuel m₁ k b g) t d m h
