-- ===== src/StateMachineHsm/Termination.antt =====
-- Run to completion with the hierarchical engine (README.md, "State engine";
-- state-machine/StateMachineHSM.cpp): when the chains of posted events are finite, the loop ends.
use active_fsm.Base.{
  ℕ, ◌≤◌, ◌<◌, true, Option, some, List, length, ◌≡◌, sym, ap, ◌∙◌, arith, get_elem?, Bool-cases,
  inl, inr,
}
use active_fsm.Outcome.{done}
use active_fsm.StateMachine.{Context, event_ignored}
use active_fsm.StateMachine.Events.{external_event, is_on_state_machine_thread}
use active_fsm.StateMachine.Observed.{Signal, Threads, observed, Actions}
use active_fsm.StateMachine.Rounds.{at_rest, InRange, outcome_of}
use active_fsm.StateMachine.Spec.{Config, guarded}
use active_fsm.StateMachine.Refinement.{PostsBelow}
use active_fsm.StateMachine.Termination.{PostsFall, Falls, settles, external_event-machine_of}
use active_fsm.StateMachineHsm.{StateMapRowHsm, max_hsm_depth}
use active_fsm.StateMachineHsm.Chain.{Chain}
use active_fsm.StateMachineHsm.Engine.{state_engine_hsm}
use active_fsm.StateMachineHsm.Spec.{respond_hsm}
use active_fsm.StateMachineHsm.Refinement.{
  row_of_hsm, response, response-InRange, run_events-refines_hsm,
}

respond_hsm-Falls :
    {D U : Type 0} (rank : ℕ → ℕ) (rows : ℕ → Actions D U) (observe : Signal → U → U) (s t : ℕ)
    (xs ys : List ℕ) (d : D) (u : U)
    → PostsFall rank rows
    → Falls rank t (respond_hsm rows observe s t xs ys d u)
unfolding respond_hsm
respond_hsm-Falls rank rows observe s t xs ys d u fall =
    elim (Bool-cases (guarded (rows t).guard d u).0) [
      | inl e ↦ rw e (λ t' d' q. fall t (some d) _ t' d' q)
      | inr e ↦ rw e (λ t' d' q. cc)
    ]

module _ {D U : Type 0} (max_states : ℕ) (no_data : D) (observe : Signal → U → U)
    (threads : Threads D U) (rows : ℕ → Actions D U) (parents : ℕ → ℕ)
    (state_map : List (StateMapRowHsm D U))
    (filled : (s : ℕ)
      → s < max_states
      → get_elem? state_map s
        ≡ some (row_of_hsm (observed max_states no_data observe threads) rows parents s))
    (chains : ℕ → List ℕ)
    (chained : (s : ℕ)
      → s < max_states
      → Chain max_states state_map s (chains s) × (length (chains s) ≤ max_hsm_depth))
    (below : PostsBelow max_states rows) (rank : ℕ → ℕ) (fall : PostsFall rank rows) where
  abbrev c : Context D U
  c = observed max_states no_data observe threads

  abbrev answer : ℕ → ℕ → D → U → Config D U
  answer =
      response max_states no_data observe threads rows parents state_map filled chains chained below

  -- Run to completion. On a hierarchical state map whose rows call functions of the object alone, whose
  -- states have chains of ancestors no longer than the bound, and in which the events that a state
  -- posts are for states of the machine of a lower rank: an event for a state that reaches a machine at
  -- rest on its own thread, with fuel above the rank of its target, is done, without an assertion, and
  -- leaves the machine at rest in a state of the machine: no event is pending, and its data is reset.
  pub external_event-rests_hsm :
      (fuel n s t : ℕ) (thread : Option ℕ) (d : Option D) (u : U)
      → s < max_states
      → t < max_states
      → max_states < event_ignored
      → is_on_state_machine_thread c thread ≡ true
      → rank t < fuel
      → (n' : ℕ) × (s' : ℕ) × (u' : U) × (external_event c
            (state_engine_hsm c (some state_map) fuel)
            t
            d
            (at_rest n thread s u)
          ≡ done tt (at_rest n' thread s' u'))
        × (s' < max_states)
  unfolding state_engine_hsm
  external_event-rests_hsm fuel n s t thread d u h k b on l =
      let event : Config D U = record { state = s; object = u; event = some (t, d) } in
      let v : InRange max_states event =
        (h, λ t' d' q. let e : t ≡ t' = cc in omega (arith, e, k)) in
      let (n', s', u', e, h') =
        settles max_states no_data answer rank
          (response-InRange max_states no_data observe threads rows parents state_map filled chains
            chained below)
          (λ s t d u. respond_hsm-Falls rank rows observe s t (chains s) (chains t) d u fall) fuel n
          s u (some (t, d)) v (λ t' d' q. let e : t ≡ t' = cc in rw (sym e) l) in
      (
        n',
        s',
        u',
        external_event-machine_of c (state_engine_hsm c (some state_map) fuel) n s t thread d u k b
              on
            ∙ run_events-refines_hsm max_states no_data observe threads rows parents state_map
                filled chains chained below fuel n thread event v
            ∙ ap (outcome_of no_data thread) e,
        h',
      )
