-- ===== src/StateMachine/PlainRefinement.antt =====
-- The plain engine of state-machine/StateMachine.cpp against `Spec`.
use active_fsm.Base.{ℕ, ◌<◌, Option, none, some, List, ◌≡◌, get_elem?, lt→ltb}
use active_fsm.Outcome.{done}
use active_fsm.StateMachine.{StateMapRow, Context}
use active_fsm.StateMachine.Engine.{run_events, turn, invoke_state_action}
use active_fsm.StateMachine.Observed.{Signal, Threads, observed, state_of}
use active_fsm.StateMachine.Spec.{Config, data_of, respond_plain, respond_all}
use active_fsm.StateMachine.Rounds.{
  at_rest, with_event, machine_of, InRange, outcome_of, run_events-answers,
}
use active_fsm.StateMachine.Refinement.{raise_lem, transition_lem}

module _ {D U : Type 0} (max_states : ℕ) (no_data : D) (observe : Signal → U → U)
    (threads : Threads D U) (acts : ℕ → Option D → U → U × Option (ℕ × Option D))
    (state_map : List (StateMapRow D U))
    (filled : (s : ℕ)
      → s < max_states
      → get_elem? state_map s
        ≡ some (record {
          state = some (state_of (observed max_states no_data observe threads) (acts s));
        }))
    (below : (s : ℕ) (d : Option D) (u : U) (t : ℕ) (e : Option D)
      → (acts s d u).1 ≡ some (t, e)
      → t < max_states) where
  abbrev c : Context D U
  c = observed max_states no_data observe threads

  turn_lem :
      (thread : Option ℕ) (n s t : ℕ) (d : Option D) (u : U)
      → s < max_states
      → t < max_states
      → turn c state_map (with_event no_data (at_rest n thread s u) (some (t, d)))
        ≡ done tt
            (machine_of no_data t thread (respond_plain acts observe s t (data_of no_data d) u))
  unfolding turn invoke_state_action respond_plain
  turn_lem thread n s t none u h k =
      rw (lt→ltb t max_states k, filled t k, raise_lem max_states no_data observe threads)
        (transition_lem max_states no_data observe threads thread s t _ _)
  turn_lem thread n s t (some d) u h k =
      rw (lt→ltb t max_states k, filled t k, raise_lem max_states no_data observe threads)
        (transition_lem max_states no_data observe threads thread s t _ _)

  respond_plain-InRange :
      (s t : ℕ) (d : D) (u : U)
      → s < max_states
      → t < max_states
      → InRange max_states (respond_plain acts observe s t d u)
  unfolding respond_plain
  respond_plain-InRange s t d u h k = (k, λ t' d' q. below t (some d) u t' d' q)

  -- On a map whose rows call functions of the object alone, which post events for states of the machine
  -- only, from a state of the machine with an event for one, the plain engine comes to just what is
  -- promised: the same state, object and signals, or the same failure to end within the fuel. So it
  -- never asserts.
  pub run_events-refines_plain :
      (fuel n : ℕ) (thread : Option ℕ) (k : Config D U)
      → InRange max_states k
      → run_events (turn c state_map) fuel (machine_of no_data n thread k)
        ≡ outcome_of no_data thread (respond_all no_data (respond_plain acts observe) fuel n k)
  run_events-refines_plain fuel n thread k v =
      run_events-answers max_states no_data (turn c state_map) (respond_plain acts observe) turn_lem
        respond_plain-InRange fuel n thread k v
