-- ===== src/StateMachineHsm/Refinement.antt =====
-- The hierarchical engine of state-machine/StateMachineHSM.cpp against `Spec`.
use mathlib.Core.List.{reverse-cons}
use active_fsm.Base.{
  ℕ, ◌≤◌, ◌<◌, Option, none, some, List, [], ◌∷◌, reverse, ◌≡◌, refl, length, get_elem?, ◌==◌,
  Bool-cases, lt→ltb, if◌then◌else◌, inl, inr,
}
use active_fsm.Outcome.{pure, done, for_each, for_each-append}
use active_fsm.StateMachine.{Machine, Context}
use active_fsm.StateMachine.Engine.{run_events, invoke_state_action}
use active_fsm.StateMachine.Observed.{
  Signal, entered, exited, Threads, observed, Actions, guard_of, entry_of, exit_of, state_of,
}
use active_fsm.StateMachine.Spec.{Config, respond_all, guarded, entering, exiting, data_of}
use active_fsm.StateMachine.Rounds.{
  machine_of, at_rest, with_event, InRange, outcome_of, run_events-answers,
}
use active_fsm.StateMachine.Refinement.{
  with_object, guard_lem, entry_lem, exit_lem, raise_lem, transition_lem, PostsBelow,
}
use active_fsm.StateMachineHsm.{StateMapRowHsm, max_hsm_depth}
use active_fsm.StateMachineHsm.Engine.{
  leave, enter, change_state_hsm, take_transition_hsm, turn_hsm,
}
use active_fsm.StateMachineHsm.Chain.{Chain, top, up}
use active_fsm.StateMachineHsm.Lca.{first_common}
use active_fsm.StateMachineHsm.Walks.{below}
use active_fsm.StateMachineHsm.Transition.{change_state_hsm-planned}
use active_fsm.StateMachineHsm.Spec.{left_all, entered_all, acted_hsm, respond_hsm}

-- The row of a state with such functions
abbrev pub row_of_hsm :
    {D U : Type 0} → Context D U → (ℕ → Actions D U) → (ℕ → ℕ) → ℕ → StateMapRowHsm D U
row_of_hsm c rows parents s = record {
  state = some (state_of c (rows s).act);
  guard = guard_of (rows s).guard;
  entry = entry_of (rows s).entry;
  exit = exit_of (rows s).exit;
  parent_state = parents s;
}

abbrev pub AreBelow : ℕ → List ℕ → Type 0
AreBelow n [] = Unit {0}
AreBelow n (s ∷ ss) = (s < n) × AreBelow n ss

pub below-AreBelow :
    {D U : Type 0} {max_states : ℕ} {state_map : List (StateMapRowHsm D U)} (l : ℕ) {s : ℕ}
    {xs : List ℕ}
    → Chain max_states state_map s xs
    → AreBelow max_states (below l xs)
below-AreBelow l (top h) = tt
below-AreBelow l (up {s = s} h r ch) = elim (Bool-cases (s == l)) [
  | inl e ↦ rw e tt
  | inr e ↦ rw e (h, below-AreBelow l ch)
]

module _ {D U : Type 0} (max_states : ℕ) (no_data : D) (observe : Signal → U → U)
    (threads : Threads D U) (rows : ℕ → Actions D U) (parents : ℕ → ℕ)
    (state_map : List (StateMapRowHsm D U))
    (filled : (s : ℕ)
      → s < max_states
      → get_elem? state_map s
        ≡ some (row_of_hsm (observed max_states no_data observe threads) rows parents s)) where
  abbrev c : Context D U
  c = observed max_states no_data observe threads

  leave_lem :
      (s : ℕ) (m : Machine D U)
      → s < max_states
      → leave c state_map s m
        ≡ done tt (with_object m (observe (exited s) (exiting (rows s).exit m.object)))
  unfolding leave
  leave_lem s m h = rw (filled s h, exit_lem)

  enter_lem :
      (s : ℕ) (d : D) (m : Machine D U)
      → s < max_states
      → enter c state_map (some d) s m
        ≡ done tt (with_object m (observe (entered s) (entering (rows s).entry d m.object)))
  unfolding enter
  enter_lem s d m h = rw (filled s h, entry_lem)

  leaves_lem :
      (ss : List ℕ) (m : Machine D U)
      → AreBelow max_states ss
      → for_each (leave c state_map) ss m
        ≡ done tt (with_object m (left_all rows observe ss m.object))
  unfolding for_each
  leaves_lem [] m h = refl
  leaves_lem (s ∷ ss) m (k, h) = rw (leave_lem s m k) (leaves_lem ss _ h)

  enters_lem :
      (ss : List ℕ) (d : D) (m : Machine D U)
      → AreBelow max_states ss
      → for_each (enter c state_map (some d)) (reverse ss) m
        ≡ done tt (with_object m (entered_all rows observe ss d m.object))
  unfolding for_each
  enters_lem [] d m h = refl
  enters_lem (s ∷ ss) d m (k, h) =
      rw (reverse-cons s ss, for_each-append, enters_lem ss d m h, enter_lem s d _ k)

  module _ {s t : ℕ} {xs ys : List ℕ} (p : Chain max_states state_map s xs)
      (q : Chain max_states state_map t ys) (k : length xs ≤ max_hsm_depth)
      (l : length ys ≤ max_hsm_depth) where
    pub change_state_lem :
        (thread : Option ℕ) (d : D) (u : U)
        → change_state_hsm c state_map s t (some d) (at_rest t thread s u)
          ≡ done tt (
              at_rest t thread t (
                entered_all rows observe
                  (below (first_common xs ys) ys)
                  d
                  (left_all rows observe (below (first_common xs ys) xs) u)))
    change_state_lem thread d u = rw (
      change_state_hsm-planned c (some d) p q k l,
      leaves_lem (below (first_common xs ys) xs) _ (below-AreBelow (first_common xs ys) p),
      enters_lem (below (first_common xs ys) ys) d _ (below-AreBelow (first_common xs ys) q),
    )

    take_transition_lem :
        (thread : Option ℕ) (d : D) (u : U)
        → take_transition_hsm c state_map t
            (row_of_hsm c rows parents t)
            (some d)
            (at_rest t thread s u)
          ≡ done tt (machine_of no_data t thread (acted_hsm rows observe s t xs ys d u))
    unfolding take_transition_hsm invoke_state_action
    take_transition_lem thread d u = elim (Bool-cases (t == s)) [
      | inl e ↦
          rw (e, raise_lem max_states no_data observe threads)
            (transition_lem max_states no_data observe threads thread s t _ _)
      | inr e ↦
          rw (e, change_state_lem thread d u, raise_lem max_states no_data observe threads)
            (transition_lem max_states no_data observe threads thread s t _ _)
    ]

    guarded_lem :
        (thread : Option ℕ) (d : D) (u : U)
        → let (passed, u') = guarded (rows t).guard d u in
          (if passed
              then take_transition_hsm c state_map t (row_of_hsm c rows parents t) (some d)
              else pure tt)
            (at_rest t thread s u')
          ≡ done tt (machine_of no_data t thread (respond_hsm rows observe s t xs ys d u))
    unfolding respond_hsm
    guarded_lem thread d u = elim (Bool-cases (guarded (rows t).guard d u).0) [
      | inl e ↦ rw (e, take_transition_lem)
      | inr e ↦ rw e
    ]

    turn_hsm_lem :
        (thread : Option ℕ) (n : ℕ) (d : Option D) (u : U)
        → t < max_states
        → turn_hsm c state_map (with_event no_data (at_rest n thread s u) (some (t, d)))
          ≡ done tt (
              machine_of no_data t thread
                (respond_hsm rows observe s t xs ys (data_of no_data d) u))
    unfolding turn_hsm
    turn_hsm_lem thread n none u h =
        rw (lt→ltb t max_states h, filled t h, guard_lem) (guarded_lem thread no_data u)
    turn_hsm_lem thread n (some d) u h =
        rw (lt→ltb t max_states h, filled t h, guard_lem) (guarded_lem thread d u)

  module _ (chains : ℕ → List ℕ)
      (chained : (s : ℕ)
        → s < max_states
        → Chain max_states state_map s (chains s) × (length (chains s) ≤ max_hsm_depth))
      (below_max : PostsBelow max_states rows) where
    abbrev pub response : ℕ → ℕ → D → U → Config D U
    response s t = respond_hsm rows observe s t (chains s) (chains t)

    pub response-InRange :
        (s t : ℕ) (d : D) (u : U)
        → s < max_states
        → t < max_states
        → InRange max_states (response s t d u)
    unfolding respond_hsm
    response-InRange s t d u h k = elim (Bool-cases (guarded (rows t).guard d u).0) [
      | inl e ↦ rw e (k, λ t' d' q. below_max t (some d) _ t' d' q)
      | inr e ↦ rw e (h, λ t' d' q. cc)
    ]

    -- On a map whose rows call functions of the object alone, which post events for states of the
    -- machine only, and whose states have chains of ancestors no longer than the bound, from a state of
    -- the machine with an event for one, the hierarchical engine comes to just what is promised: the
    -- same state, object and signals, or the same failure to end within the fuel. So it never asserts.
    pub run_events-refines_hsm :
        (fuel n : ℕ) (thread : Option ℕ) (k : Config D U)
        → InRange max_states k
        → run_events (turn_hsm c state_map) fuel (machine_of no_data n thread k)
          ≡ outcome_of no_data thread (respond_all no_data response fuel n k)
    run_events-refines_hsm fuel n thread k v =
        run_events-answers max_states no_data (turn_hsm c state_map) response
          (λ thread n s t d u h l.
            turn_hsm_lem (chained s h).0 (chained t l).0 (chained s h).1 (chained t l).1 thread n d
              u l)
          response-InRange fuel n thread k v
