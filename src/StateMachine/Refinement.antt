-- ===== src/StateMachine/Refinement.antt =====
-- The extended engine of state-machine/StateMachine.cpp against `Spec`.
use active_fsm.Base.{
  ℕ, ◌<◌, Bool, Option, none, some, List, ◌≡◌, refl, get_elem?, ◌==◌, Bool-cases, lt→ltb,
  if◌then◌else◌, inl, inr,
}
use active_fsm.Outcome.{pure, done}
use active_fsm.StateMachine.{Machine, StateMapRowEx, Context}
use active_fsm.StateMachine.Engine.{
  run_events, turn_ex, take_transition, change_state, invoke_state_action, invoke_guard_condition,
  invoke_entry_action, invoke_exit_action,
}
use active_fsm.StateMachine.Events.{internal_event}
use active_fsm.StateMachine.Observed.{
  Signal, transition, entered, exited, Threads, observed, Actions, row_of, guard_of, entry_of,
  exit_of, raise,
}
use active_fsm.StateMachine.Rounds.{
  at_rest, with_event, machine_of, InRange, outcome_of, run_events-answers,
}
use active_fsm.StateMachine.Spec.{
  Config, respond, guarded, entering, exiting, acted, data_of, respond_all,
}

module _ {D U : Type 0} where
  abbrev pub with_object : Machine D U → U → Machine D U
  with_object m u = record m { object = u }

  pub guard_lem :
      (g : Option (D → U → Bool × U)) (d : D) (m : Machine D U)
      → invoke_guard_condition (guard_of g) (some d) m
        ≡ done (guarded g d m.object).0 (with_object m (guarded g d m.object).1)
  unfolding invoke_guard_condition
  guard_lem none d m = refl
  guard_lem (some g) d m = refl

  pub entry_lem :
      (f : Option (D → U → U)) (d : D) (m : Machine D U)
      → invoke_entry_action (entry_of f) (some d) m
        ≡ done tt (with_object m (entering f d m.object))
  unfolding invoke_entry_action
  entry_lem none d m = refl
  entry_lem (some f) d m = refl

  pub exit_lem :
      (f : Option (U → U)) (m : Machine D U)
      → invoke_exit_action (exit_of {D = D} f) m ≡ done tt (with_object m (exiting f m.object))
  unfolding invoke_exit_action
  exit_lem none m = refl
  exit_lem (some f) m = refl

module _ {D U : Type 0} (max_states : ℕ) (no_data : D) (observe : Signal → U → U)
    (threads : Threads D U) where
  abbrev c : Context D U
  c = observed max_states no_data observe threads

  pub raise_lem :
      (m : Machine D U) (event : Option (ℕ × Option D))
      → raise c event m ≡ done tt (with_event no_data m event)
  unfolding internal_event
  raise_lem m none = refl
  raise_lem m (some (t, none)) = refl
  raise_lem m (some (t, some d)) = refl

  pub transition_lem :
      (thread : Option ℕ) (s t : ℕ) (u : U) (event : Option (ℕ × Option D))
      → let m : Machine D U = with_event no_data (at_rest t thread t u) event in
        c.on_transition s m.current_state m
        ≡ done tt (with_event no_data (at_rest t thread t (observe (transition s t) u)) event)
  transition_lem thread s t u none = refl
  transition_lem thread s t u (some (n, none)) = refl
  transition_lem thread s t u (some (n, some d)) = refl

  module _ (rows : ℕ → Actions D U) where
    change_state_lem :
        (thread : Option ℕ) (s t : ℕ) (d : D) (u : U)
        → change_state c (row_of c (rows s)) (row_of c (rows t)) (some d) (at_rest t thread s u)
          ≡ done tt (
              at_rest t thread t (
                observe
                  (entered t)
                  (entering (rows t).entry d (observe (exited s) (exiting (rows s).exit u)))))
    unfolding change_state
    change_state_lem thread s t d u = rw (exit_lem, entry_lem)

    take_transition_lem :
        (thread : Option ℕ) (s t : ℕ) (d : D) (u : U)
        → take_transition c (row_of c (rows s)) (row_of c (rows t)) (some d) (at_rest t thread s u)
          ≡ done tt (machine_of no_data t thread (acted rows observe s t d u))
    unfolding take_transition invoke_state_action
    take_transition_lem thread s t d u = elim (Bool-cases (t == s)) [
      | inl e ↦ rw (e, raise_lem) (transition_lem thread s t _ _)
      | inr e ↦ rw (e, change_state_lem thread s t d u, raise_lem) (transition_lem thread s t _ _)
    ]

    guarded_lem :
        (thread : Option ℕ) (s t : ℕ) (d : D) (u : U)
        → let (passed, u') = guarded (rows t).guard d u in
          (if passed
              then take_transition c (row_of c (rows s)) (row_of c (rows t)) (some d)
              else pure tt)
            (at_rest t thread s u')
          ≡ done tt (machine_of no_data t thread (respond rows observe s t d u))
    unfolding respond
    guarded_lem thread s t d u = elim (Bool-cases (guarded (rows t).guard d u).0) [
      | inl e ↦ rw (e, take_transition_lem)
      | inr e ↦ rw e
    ]

    module _ (state_map : List (StateMapRowEx D U))
        (filled : (s : ℕ) → s < max_states → get_elem? state_map s ≡ some (row_of c (rows s))) where
      turn_ex_lem :
          (thread : Option ℕ) (n s t : ℕ) (d : Option D) (u : U)
          → s < max_states
          → t < max_states
          → turn_ex c state_map (with_event no_data (at_rest n thread s u) (some (t, d)))
            ≡ done tt (machine_of no_data t thread (respond rows observe s t (data_of no_data d) u))
      unfolding turn_ex
      turn_ex_lem thread n s t none u h k =
          rw (lt→ltb t max_states k, filled t k, filled s h, guard_lem)
            (guarded_lem thread s t no_data u)
      turn_ex_lem thread n s t (some d) u h k =
          rw (lt→ltb t max_states k, filled t k, filled s h, guard_lem) (guarded_lem thread s t d u)

-- The states that a row's function posts are below the number of states.
abbrev pub PostsBelow : {D U : Type 0} → ℕ → (ℕ → Actions D U) → Type 0
PostsBelow {D} {U} max_states rows =
    (s : ℕ) (d : Option D) (u : U) (t : ℕ) (e : Option D)
    → ((rows s).act d u).1 ≡ some (t, e)
    → t < max_states

pub respond-InRange :
    {D U : Type 0} (max_states : ℕ) (rows : ℕ → Actions D U) (observe : Signal → U → U) (s t : ℕ)
    (d : D) (u : U)
    → PostsBelow max_states rows
    → s < max_states
    → t < max_states
    → InRange max_states (respond rows observe s t d u)
unfolding respond
respond-InRange max_states rows observe s t d u below h k =
    elim (Bool-cases (guarded (rows t).guard d u).0) [
      | inl e ↦ rw e (k, λ t' d' q. below t (some d) _ t' d' q)
      | inr e ↦ rw e (h, λ t' d' q. cc)
    ]

module _ {D U : Type 0} (max_states : ℕ) (no_data : D) (observe : Signal → U → U)
    (threads : Threads D U) (rows : ℕ → Actions D U) (state_map : List (StateMapRowEx D U))
    (filled : (s : ℕ)
      → s < max_states
      → get_elem? state_map s
        ≡ some (row_of (observed max_states no_data observe threads) (rows s)))
    (below : PostsBelow max_states rows) where
  abbrev c' : Context D U
  c' = observed max_states no_data observe threads

  -- On a map whose rows call functions of the object alone, which post events for states of the machine
  -- only, from a state of the machine with an event for one, the extended engine comes to just what is
  -- promised: the same state, object and signals, or the same failure to end within the fuel. So it
  -- never asserts.
  pub run_events-refines :
      (fuel n : ℕ) (thread : Option ℕ) (k : Config D U)
      → InRange max_states k
      → run_events (turn_ex c' state_map) fuel (machine_of no_data n thread k)
        ≡ outcome_of no_data thread (respond_all no_data (respond rows observe) fuel n k)
  run_events-refines fuel n thread k v =
      run_events-answers max_states no_data (turn_ex c' state_map) (respond rows observe)
        (turn_ex_lem max_states no_data observe threads rows state_map filled)
        (λ s t d u h l. respond-InRange max_states rows observe s t d u below h l) fuel n thread k v
