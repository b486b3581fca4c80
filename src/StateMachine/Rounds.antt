-- ===== src/StateMachine/Rounds.antt =====
-- The loop of the engines, for a turn that answers an event as promised.
use active_fsm.Base.{ℕ, zero, suc, ◌<◌, true, false, Option, none, some, ◌≡◌, refl, ap, ◌∙◌}
use active_fsm.Outcome.{M, Outcome, and_then, unfinished, done}
use active_fsm.StateMachine.{Machine}
use active_fsm.StateMachine.Engine.{run_events}
use active_fsm.StateMachine.Spec.{Config, data_of, respond_all}

module _ {D U : Type 0} where
  abbrev pub at_rest : ℕ → Option ℕ → ℕ → U → Machine D U
  at_rest n thread s u = record {
    current_state = s;
    new_state = n;
    event_generated = false;
    event_data = none;
    thread = thread;
    object = u;
  }

  abbrev pub with_event : D → Machine D U → Option (ℕ × Option D) → Machine D U
  with_event no_data m none = m
  with_event no_data m (some (t, none)) = record m {
    new_state = t;
    event_generated = true;
    event_data = some no_data;
  }
  with_event no_data m (some (t, some d)) = record m {
    new_state = t;
    event_generated = true;
    event_data = some d;
  }

  -- The machine that stands for a configuration; `n` is what `m_newState` is left at.
  abbrev pub machine_of : D → ℕ → Option ℕ → Config D U → Machine D U
  machine_of no_data n thread k = with_event no_data (at_rest n thread k.state k.object) k.event

-- A configuration in a state below the number of states, with an event for such a state.
abbrev pub InRange : {D U : Type 0} → ℕ → Config D U → Type 0
InRange {D} max_states k =
    (k.state < max_states) × ((t : ℕ) (d : Option D) → k.event ≡ some (t, d) → t < max_states)

-- What the engine comes to, if the promised run comes to a result.
abbrev pub outcome_of :
    {D U : Type 0} → D → Option ℕ → Option (ℕ × Config D U) → Outcome (Machine D U) (Unit {0})
outcome_of no_data thread none = unfinished
outcome_of no_data thread (some (n, k)) = done tt (machine_of no_data n thread k)

module _ {D U : Type 0} (max_states : ℕ) (no_data : D) (turn : M (Machine D U) (Unit {0}))
    (respond : ℕ → ℕ → D → U → Config D U)
    (turn_answers : (thread : Option ℕ) (n s t : ℕ) (d : Option D) (u : U)
      → s < max_states
      → t < max_states
      → turn (with_event no_data (at_rest n thread s u) (some (t, d)))
        ≡ done tt (machine_of no_data t thread (respond s t (data_of no_data d) u)))
    (keeps : (s t : ℕ) (d : D) (u : U)
      → s < max_states
      → t < max_states
      → InRange max_states (respond s t d u)) where
  rounds_lem :
      (fuel n : ℕ) (thread : Option ℕ) (s : ℕ) (u : U) (event : Option (ℕ × Option D))
      → InRange max_states (record { state = s; object = u; event = event })
      → run_events turn fuel (with_event no_data (at_rest n thread s u) event)
        ≡ outcome_of no_data thread
            (respond_all no_data respond fuel n (record { state = s; object = u; event = event }))
  unfolding run_events respond_all
  rounds_lem zero n thread s u none v = refl
  rounds_lem zero n thread s u (some (t, none)) v = refl
  rounds_lem zero n thread s u (some (t, some d)) v = refl
  rounds_lem (suc fuel) n thread s u none v = refl
  rounds_lem (suc fuel) n thread s u (some (t, none)) v =
      let r : Config D U = respond s t no_data u in
      ap (λ o. and_then o (λ _. run_events turn fuel))
        (turn_answers thread n s t none u v.0 (v.1 t none refl))
      ∙ rounds_lem fuel t thread r.state r.object r.event
          (keeps s t no_data u v.0 (v.1 t none refl))
  rounds_lem (suc fuel) n thread s u (some (t, some d)) v =
      let r : Config D U = respond s t d u in
      ap (λ o. and_then o (λ _. run_events turn fuel))
        (turn_answers thread n s t (some d) u v.0 (v.1 t (some d) refl))
      ∙ rounds_lem fuel t thread r.state r.object r.event (keeps s t d u v.0 (v.1 t (some d) refl))

  pub run_events-answers :
      (fuel n : ℕ) (thread : Option ℕ) (k : Config D U)
      → InRange max_states k
      → run_events turn fuel (machine_of no_data n thread k)
        ≡ outcome_of no_data thread (respond_all no_data respond fuel n k)
  run_events-answers fuel n thread k v = rounds_lem fuel n thread k.state k.object k.event v
