-- ===== src/StateMachineHsm/Bounds.antt =====
-- The hierarchical engine of state-machine/StateMachineHSM.cpp keeps the bounds on the states.
use active_fsm.Base.{
  ℕ, zero, suc, ◌<◌, not, ◌&&◌, Bool-cases, inl, inr, Option, some, List, [], ◌∷◌, reverse, ltb,
  ltb→lt, ◌==◌,
}
use active_fsm.Outcome.{M, Result, ok, err, lift, pure, for_each, ◌>>=◌}
use active_fsm.StateMachine.{Machine, Context}
use active_fsm.StateMachine.Engine.{
  invoke_state_action, invoke_guard_condition, invoke_entry_action, invoke_exit_action,
  set_current_state,
}
use active_fsm.StateMachine.Events.{external_event}
use active_fsm.StateMachine.Bounds.{
  IsBelow, EndsBelow, Keeps, and_then-EndsBelow, Each, Rows, KeepsState, KeepsGuard, KeepsEntry,
  Checks, ContextKeeps, read-EndsBelow, invoke_state_action-Keeps, invoke_guard_condition-Keeps,
  invoke_entry_action-Keeps, invoke_exit_action-Keeps, assert-Keeps, if-Keeps, run_events-EndsBelow,
}
use active_fsm.StateMachine.Bounds.Engines.{external_event-Keeps}
use active_fsm.StateMachineHsm.{StateMapRowHsm, max_hsm_depth}
use active_fsm.StateMachineHsm.Ancestors.{find_lca, entry_chain}
use active_fsm.StateMachineHsm.Engine.{
  leave, exit_up, enter, change_state_hsm, take_transition_hsm, turn_hsm, state_engine_hsm,
}

pub record RowKeepsHsm {D U : Type 0} (max_states : ℕ) (row : StateMapRowHsm D U) : Type 0 where
  pub state : Each (KeepsState max_states) row.state
  pub guard : Each (KeepsGuard max_states) row.guard
  pub entry : Each (KeepsEntry max_states) row.entry
  pub exit : Each (Keeps max_states) row.exit

module _ {D U : Type 0} {max_states : ℕ} where
  lift-Keeps :
      {A B : Type 0} (r : Result A) (f : A → M (Machine D U) B)
      → ((a : A) → Keeps max_states (f a))
      → Keeps max_states (lift r >>= f)
  lift-Keeps (ok a) f k m h = k a m h
  lift-Keeps (err e) f k m h = h.0

  for_each-Keeps :
      {A : Type 0} (f : A → M (Machine D U) (Unit {0})) (xs : List A)
      → ((a : A) → Keeps max_states (f a))
      → Keeps max_states (for_each f xs)
  unfolding for_each
  for_each-Keeps f [] k m h = h
  for_each-Keeps f (x ∷ xs) k m h =
      and_then-EndsBelow max_states (f x m) _ (k x m h) (λ _. for_each-Keeps f xs k)

module _ {D U : Type 0} (c : Context D U) (quiet : ContextKeeps c)
    (rows : List (StateMapRowHsm D U)) (keep : Rows (RowKeepsHsm c.max_states) rows) where
  leave-Keeps : (s : ℕ) → Keeps c.max_states (leave c rows s)
  unfolding leave
  leave-Keeps s m h =
      read-EndsBelow rows s _ m
        (λ row e.
          and_then-EndsBelow c.max_states (invoke_exit_action row.exit m) _
            (invoke_exit_action-Keeps row.exit (keep s row e).exit m h)
            (λ _ m₁ h₁. quiet.on_exit s m₁ h₁))
        h.0

  exit_up-Keeps : (left s lca : ℕ) → Keeps c.max_states (exit_up c rows left s lca)
  unfolding exit_up
  exit_up-Keeps zero s lca =
      if-Keeps (ltb s c.max_states && not (s == lca)) _ _ (λ m h. h.0) (λ m h. h)
  exit_up-Keeps (suc left) s lca =
      if-Keeps (ltb s c.max_states && not (s == lca)) _ _
        (λ m h. and_then-EndsBelow c.max_states (leave c rows s m) _ (leave-Keeps s m h) (λ _ m₁ h₁.
          read-EndsBelow rows s _ m₁ (λ row e. exit_up-Keeps left row.parent_state lca m₁ h₁) h₁.0))
        (λ m h. h)

  enter-Keeps : (d : Option D) (s : ℕ) → Keeps c.max_states (enter c rows d s)
  unfolding enter
  enter-Keeps d s m h =
      read-EndsBelow rows s _ m
        (λ row e.
          and_then-EndsBelow c.max_states (invoke_entry_action row.entry d m) _
            (invoke_entry_action-Keeps row.entry (keep s row e).entry d m h)
            (λ _ m₁ h₁. quiet.on_entry s m₁ h₁))
        h.0

  change_state_hsm-Keeps :
      (from_state new_state : ℕ) (d : Option D)
      → new_state < c.max_states
      → Keeps c.max_states (change_state_hsm c rows from_state new_state d)
  unfolding change_state_hsm
  change_state_hsm-Keeps from_state new_state d b =
      lift-Keeps (find_lca c.max_states rows from_state new_state) _ (λ lca m h.
        and_then-EndsBelow c.max_states (exit_up c rows max_hsm_depth from_state lca m) _
          (exit_up-Keeps max_hsm_depth from_state lca m h)
          (λ _.
            lift-Keeps (entry_chain c.max_states rows max_hsm_depth new_state lca) _ (λ chain m₁ h₁.
              and_then-EndsBelow c.max_states (for_each (enter c rows d) (reverse chain) _) _
                (for_each-Keeps (enter c rows d) (reverse chain) (enter-Keeps d) _ (b, h₁.1))
                (λ _ m₂ h₂. assert-Keeps _ _ m₂ h₂))))

  take_transition_hsm-Keeps :
      (new_state : ℕ) (row : StateMapRowHsm D U) (d : Option D)
      → new_state < c.max_states
      → RowKeepsHsm c.max_states row
      → Keeps c.max_states (take_transition_hsm c rows new_state row d)
  unfolding take_transition_hsm
  take_transition_hsm-Keeps new_state row d b k m h =
      and_then-EndsBelow c.max_states _ _
        (if-Keeps (not (new_state == m.current_state))
          (change_state_hsm c rows m.current_state new_state d) (set_current_state new_state)
          (change_state_hsm-Keeps m.current_state new_state d b) (λ _ h₁. (b, h₁.1)) m h)
        (λ _ m₁ h₁.
          and_then-EndsBelow c.max_states (invoke_state_action row.state d m₁) _
            (invoke_state_action-Keeps row.state k.state d m₁ h₁)
            (λ _ m₂ h₂. quiet.on_transition _ _ m₂ h₂))

  turn_hsm-Checks : Checks c.max_states (turn_hsm c rows)
  unfolding turn_hsm
  turn_hsm-Checks m h = elim (Bool-cases (ltb m.new_state c.max_states)) [
    | inl inside ↦
        let b = ltb→lt m.new_state c.max_states inside in
        rw inside (
          read-EndsBelow rows m.new_state _ m
            (λ row e.
              let k = keep m.new_state row e in
              and_then-EndsBelow c.max_states (invoke_guard_condition row.guard m.event_data _) _
                (invoke_guard_condition-Keeps row.guard k.guard m.event_data _ (h, b))
                (λ passed.
                  if-Keeps passed (take_transition_hsm c rows m.new_state row m.event_data)
                    (pure tt) (take_transition_hsm-Keeps m.new_state row m.event_data b k)
                    (λ _ h₁. h₁)))
            h)
    | inr outside ↦ rw outside h
  ]

  -- On a hierarchical state map whose functions, with observers and queues that do so too, keep
  -- `m_currentState` and `m_newState` below the number of states, whatever its parent column holds, an
  -- event for any target, from a machine with both below it, does the same; if it faults,
  -- `m_currentState` is below the bound.
  pub external_event-EndsBelow_hsm :
      (fuel t : ℕ) (d : Option D) (m : Machine D U)
      → IsBelow c.max_states m
      → EndsBelow c.max_states (external_event c (state_engine_hsm c (some rows) fuel) t d m)
  unfolding state_engine_hsm
  external_event-EndsBelow_hsm fuel t d m h =
      external_event-Keeps c quiet (state_engine_hsm c (some rows) fuel)
        (λ m₁ b g. run_events-EndsBelow (turn_hsm c rows) turn_hsm-Checks fuel m₁ b (λ i. cc)) t d m
        h
