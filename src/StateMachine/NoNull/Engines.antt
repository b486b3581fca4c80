-- ===== src/StateMachine/NoNull/Engines.antt =====
-- The engines of state-machine/StateMachine.cpp, and `ExternalEvent`, never hand a null pointer to data to a
-- guard or an entry function.
use active_fsm.Base.{
  ℕ, not, Option, none, some, List, ltb, ◌==◌, if◌then◌else◌, Bool-cases, inl, inr, ==_cases, ==_ne,
}
use active_fsm.Outcome.{
  M, and_then, ◌>>=◌, or_fault, undefined, fault, pure, event_from_entry_or_exit,
  cannot_happen_event,
}
use active_fsm.StateMachine.{
  Machine, Context, StateMapRow, StateMapRowEx, event_ignored, cannot_happen,
}
use active_fsm.StateMachine.Engine.{
  set_current_state, turn, turn_ex, take_transition, change_state, state_engine,
  invoke_state_action, invoke_guard_condition, invoke_entry_action, invoke_exit_action,
}
use active_fsm.StateMachine.Events.{
  external_event, external_event_impl, internal_event, is_on_state_machine_thread,
}
use active_fsm.StateMachine.Bounds.{Each, Rows}
use active_fsm.StateMachine.NoNull.{
  HasData, EndsWithData, KeepsData, StateKeepsData, RowKeepsData, MapsKeepData, TurnKeepsData,
  ContextKeepsData, internal_event-KeepsData, and_then-EndsWithData, read-EndsWithData,
  if-KeepsData, assert-KeepsData, state-KeepsData, guard-KeepsData, entry-KeepsData, exit-KeepsData,
  run_events-KeepsData,
}

module _ {D U : Type 0} (c : Context D U) (quiet : ContextKeepsData c) where
  turn-KeepsData :
      (rows : List (StateMapRow D U))
      → Rows (λ row. Each StateKeepsData row.state) rows
      → TurnKeepsData (turn c rows)
  unfolding turn
  turn-KeepsData rows k m d e = elim (Bool-cases (ltb m.new_state c.max_states)) [
    | inl inside ↦ rw inside (
        read-EndsWithData rows m.new_state _ m (λ row q.
          and_then-EndsWithData (invoke_state_action row.state m.event_data _) _
            (state-KeepsData row.state m.event_data (k m.new_state row q) _ (λ g. cc))
            (λ _ m₁ h₁. quiet.on_transition _ _ m₁ h₁)))
    | inr outside ↦ rw outside (λ q. cc)
  ]

  change_state-KeepsData :
      (from to : StateMapRowEx D U) (d : D)
      → RowKeepsData from
      → RowKeepsData to
      → KeepsData (change_state c from to (some d))
  unfolding change_state
  change_state-KeepsData from to d kf kt m h =
      and_then-EndsWithData (invoke_exit_action from.exit m) _
        (exit-KeepsData from.exit kf.exit m h)
        (λ _ m₁ h₁.
          and_then-EndsWithData (c.on_exit m₁.current_state m₁) _
            (quiet.on_exit m₁.current_state m₁ h₁)
            (λ _ m₂ h₂.
              and_then-EndsWithData (invoke_entry_action to.entry (some d) _) _
                (entry-KeepsData to.entry d kt.entry _ h₂)
                (λ _ m₃ h₃.
                  and_then-EndsWithData (c.on_entry m₃.current_state m₃) _
                    (quiet.on_entry m₃.current_state m₃ h₃)
                    (λ _ m₄ h₄. assert-KeepsData _ event_from_entry_or_exit (λ q. cc) m₄ h₄))))

  take_transition-KeepsData :
      (from to : StateMapRowEx D U) (d : D)
      → RowKeepsData from
      → RowKeepsData to
      → KeepsData (take_transition c from to (some d))
  unfolding take_transition
  take_transition-KeepsData from to d kf kt m h =
      and_then-EndsWithData _ _
        (if-KeepsData (not (m.new_state == m.current_state)) (change_state c from to (some d))
          (set_current_state m.new_state) (change_state-KeepsData from to d kf kt) (λ _ h₁. h₁) m h)
        (λ _ m₁ h₁.
          and_then-EndsWithData (invoke_state_action to.state (some d) m₁) _
            (state-KeepsData to.state (some d) kt.state m₁ h₁)
            (λ _ m₂ h₂. quiet.on_transition _ _ m₂ h₂))

  turn_ex-KeepsData :
      (rows : List (StateMapRowEx D U)) → Rows RowKeepsData rows → TurnKeepsData (turn_ex c rows)
  unfolding turn_ex
  turn_ex-KeepsData rows k m d e = elim (Bool-cases (ltb m.new_state c.max_states)) [
    | inl inside ↦ rw inside (
        read-EndsWithData rows m.new_state _ m (λ to q.
          read-EndsWithData rows m.current_state _ m (λ from q'. rw e (
            and_then-EndsWithData (invoke_guard_condition to.guard (some d) _) _
              (guard-KeepsData to.guard d (k m.new_state to q).guard _ (λ g. cc))
              (λ passed m₁ h₁.
                if-KeepsData passed (take_transition c from to (some d)) (pure tt)
                  (take_transition-KeepsData from to d (k m.current_state from q')
                    (k m.new_state to q))
                  (λ _ h₂. h₂) m₁ h₁)))))
    | inr outside ↦ rw outside (λ q. cc)
  ]

  state_engine-KeepsData :
      (rows : Option (List (StateMapRow D U))) (rows_ex : Option (List (StateMapRowEx D U)))
      (fuel : ℕ)
      → MapsKeepData rows rows_ex
      → KeepsData (state_engine c rows rows_ex fuel)
  unfolding state_engine
  state_engine-KeepsData (some rows) ex fuel k =
      run_events-KeepsData (turn c rows) (turn-KeepsData rows k.0) fuel
  state_engine-KeepsData none (some rows) fuel k =
      run_events-KeepsData (turn_ex c rows) (turn_ex-KeepsData rows k.1) fuel
  state_engine-KeepsData none none fuel k = λ m h q. cc

  module _ (engine : M (Machine D U) (Unit {0})) (keeps : KeepsData engine) where
    -- The part of `ExternalEvent` behind its two tests, by the thread of the machine
    delivered-KeepsData :
        (t : ℕ) (d : Option D) (thread : Option ℕ)
        → KeepsData (
            if not (is_on_state_machine_thread c thread)
            then (or_fault thread undefined >>= λ n. c.post n t d)
            else external_event_impl c engine t d)
    unfolding external_event_impl is_on_state_machine_thread
    delivered-KeepsData t d none m h =
        and_then-EndsWithData (internal_event c t d m) _ (internal_event-KeepsData c t d m h)
          (λ _. keeps)
    delivered-KeepsData t d (some n) m h =
        if-KeepsData (not (c.is_current_thread n)) (c.post n t d) (external_event_impl c engine t d)
          (quiet.post n t d)
          (λ m₁ h₁.
            and_then-EndsWithData (internal_event c t d m₁) _ (internal_event-KeepsData c t d m₁ h₁)
              (λ _. keeps))
          m h

    external_event-KeepsData : (t : ℕ) (d : Option D) → KeepsData (external_event c engine t d)
    unfolding external_event
    external_event-KeepsData t d m h = elim (==_cases t event_ignored) [
      | inl e ↦ rw e h
      | inr a ↦ elim (==_cases t cannot_happen) [
        | inl e ↦ rw e (
            and_then-EndsWithData
              (and_then (c.on_cannot_happen m.current_state m) (λ _. fault cannot_happen_event)) _
              (and_then-EndsWithData (c.on_cannot_happen m.current_state m) _
                (quiet.on_cannot_happen m.current_state m h) (λ _ m₁ h₁ q. cc))
              (λ _ m₁ h₁. delivered-KeepsData cannot_happen d m₁.thread m₁ h₁))
        | inr b ↦
            rw (==_ne t event_ignored a, ==_ne t cannot_happen b)
              (delivered-KeepsData t d m.thread m h)
      ]
    ]

  -- On state maps whose functions, with observers and queues that do so too, leave data with an event that
  -- is pending and do not raise the assertion on null data themselves, an event with any pointer, the
  -- null pointer included, for any target, from a machine whose pending event has data if it has one,
  -- does the same with either engine: the assertions of guards and entries on null data never fail.
  pub external_event-EndsWithData :
      (rows : Option (List (StateMapRow D U))) (rows_ex : Option (List (StateMapRowEx D U)))
      (fuel t : ℕ) (d : Option D) (m : Machine D U)
      → MapsKeepData rows rows_ex
      → HasData m
      → EndsWithData (external_event c (state_engine c rows rows_ex fuel) t d m)
  external_event-EndsWithData rows rows_ex fuel t d m k h =
      external_event-KeepsData (state_engine c rows rows_ex fuel)
        (state_engine-KeepsData rows rows_ex fuel k) t d m h
