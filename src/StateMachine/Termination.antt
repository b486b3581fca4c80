-- ===== src/StateMachine/Termination.antt =====
-- Run to completion (README.md, "State engine"; `ExternalEvent` and the extended engine of
-- state-machine/StateMachine.cpp): when the chains of posted events are finite, the loop ends.
use active_fsm.Base.{
  ℕ, zero, suc, ◌<◌, true, Option, none, some, List, ◌≡◌, refl, ap, sym, ◌∙◌, arith, get_elem?,
  Bool-cases, inl, inr,
}
use active_fsm.Outcome.{M, done}
use active_fsm.StateMachine.{Machine, StateMapRowEx, Context, event_ignored}
use active_fsm.StateMachine.Engine.{state_engine}
use active_fsm.StateMachine.Events.{
  external_event, external_event_impl, internal_event, is_on_state_machine_thread,
}
use active_fsm.StateMachine.Dispatch.{external_event-target}
use active_fsm.StateMachine.Observed.{Signal, Threads, observed, Actions, row_of}
use active_fsm.StateMachine.Rounds.{at_rest, machine_of, InRange, outcome_of}
use active_fsm.StateMachine.Spec.{Config, respond, guarded, data_of, respond_all}
use active_fsm.StateMachine.Refinement.{PostsBelow, respond-InRange, run_events-refines}

-- Whatever a state's function posts is of a lower rank than the state.
abbrev pub PostsFall : {D U : Type 0} → (ℕ → ℕ) → (ℕ → Actions D U) → Type 0
PostsFall {D} {U} rank rows =
    (s : ℕ) (d : Option D) (u : U) (t : ℕ) (e : Option D)
    → ((rows s).act d u).1 ≡ some (t, e)
    → rank t < rank s

-- The response to an event for `t` posts no event, or one of a lower rank.
abbrev pub Falls : {D U : Type 0} → (ℕ → ℕ) → ℕ → Config D U → Type 0
Falls {D} rank t k = (t' : ℕ) (d : Option D) → k.event ≡ some (t', d) → rank t' < rank t

pub respond-Falls :
    {D U : Type 0} (rank : ℕ → ℕ) (rows : ℕ → Actions D U) (observe : Signal → U → U) (s t : ℕ)
    (d : D) (u : U)
    → PostsFall rank rows
    → Falls rank t (respond rows observe s t d u)
unfolding respond
respond-Falls rank rows observe s t d u fall = elim (Bool-cases (guarded (rows t).guard d u).0) [
  | inl e ↦ rw e (λ t' d' q. fall t (some d) _ t' d' q)
  | inr e ↦ rw e (λ t' d' q. cc)
]

module _ {D U : Type 0} (max_states : ℕ) (no_data : D) (respond : ℕ → ℕ → D → U → Config D U)
    (rank : ℕ → ℕ)
    (keeps : (s t : ℕ) (d : D) (u : U)
      → s < max_states
      → t < max_states
      → InRange max_states (respond s t d u))
    (falls : (s t : ℕ) (d : D) (u : U) → Falls rank t (respond s t d u)) where
  -- The promised run of a configuration comes to a rest in a state of the machine.
  abbrev pub Settles : ℕ → ℕ → Config D U → Type 0
  Settles fuel n k =
      (n' : ℕ) × (s : ℕ) × (u : U) × (respond_all no_data respond fuel n k
        ≡ some (n', record { state = s; object = u; event = none }))
      × (s < max_states)

  pub settles :
      (fuel n s : ℕ) (u : U) (event : Option (ℕ × Option D))
      → InRange max_states (record { state = s; object = u; event = event })
      → ((t : ℕ) (d : Option D) → event ≡ some (t, d) → rank t < fuel)
      → Settles fuel n (record { state = s; object = u; event = event })
  unfolding respond_all
  settles zero n s u none v l = (n, s, u, refl, v.0)
  settles zero n s u (some (t, d)) v l = absurd (omega (arith, l t d refl))
  settles (suc fuel) n s u none v l = (n, s, u, refl, v.0)
  settles (suc fuel) n s u (some (t, d)) v l =
      let e = data_of no_data d in
      let r : Config D U = respond s t e u in
      settles fuel t r.state r.object r.event (keeps s t e u v.0 (v.1 t d refl))
        (λ t' d' q. omega (arith, falls s t e u t' d' q, l t d refl))

-- An event for `t` that reaches a machine at rest on its thread is one round of `InternalEvent`, and
-- then the engine.
pub external_event-machine_of :
    {D U : Type 0} (c : Context D U) (engine : M (Machine D U) (Unit {0})) (n s t : ℕ)
    (thread : Option ℕ) (d : Option D) (u : U)
    → t < c.max_states
    → c.max_states < event_ignored
    → is_on_state_machine_thread c thread ≡ true
    → external_event c engine t d (at_rest n thread s u)
      ≡ engine (
          machine_of c.no_event_data n thread
            (record { state = s; object = u; event = some (t, d) }))
unfolding external_event_impl internal_event
external_event-machine_of c engine n s t thread none u k b on =
    external_event-target c engine t none (at_rest n thread s u) (λ e. absurd (omega arith))
      (λ e. absurd (omega arith)) on
external_event-machine_of c engine n s t thread (some d) u k b on =
    external_event-target c engine t (some d) (at_rest n thread s u) (λ e. absurd (omega arith))
      (λ e. absurd (omega arith)) on

module _ {D U : Type 0} (max_states : ℕ) (no_data : D) (observe : Signal → U → U)
    (threads : Threads D U) (rows : ℕ → Actions D U) (state_map : List (StateMapRowEx D U))
    (filled : (s : ℕ)
      → s < max_states
      → get_elem? state_map s
        ≡ some (row_of (observed max_states no_data observe threads) (rows s)))
    (below : PostsBelow max_states rows) (rank : ℕ → ℕ) (fall : PostsFall rank rows) where
  abbrev c : Context D U
  c = observed max_states no_data observe threads

  -- Run to completion. On a state map whose rows call functions of the object alone, and in which the
  -- events that a state posts are for states of the machine of a lower rank: an event for a state that
  -- reaches a machine at rest on its own thread, with fuel above the rank of its target, is done,
  -- without an assertion, and leaves the machine at rest in a state of the machine: no event is
  -- pending, and its data is reset.
  pub external_event-rests :
      (fuel n s t : ℕ) (thread : Option ℕ) (d : Option D) (u : U)
      → s < max_states
      → t < max_states
      → max_states < event_ignored
      → is_on_state_machine_thread c thread ≡ true
      → rank t < fuel
      → (n' : ℕ) × (s' : ℕ) × (u' : U) × (external_event c
            (state_engine c none (some state_map) fuel)
            t
            d
            (at_rest n thread s u)
          ≡ done tt (at_rest n' thread s' u'))
        × (s' < max_states)
  unfolding state_engine
  external_event-rests fuel n s t thread d u h k b on l =
      let event : Config D U = record { state = s; object = u; event = some (t, d) } in
      let v : InRange max_states event =
        (h, λ t' d' q. let e : t ≡ t' = cc in omega (arith, e, k)) in
      let (n', s', u', e, h') =
        settles max_states no_data (respond rows observe) rank
          (λ s t d u h k. respond-InRange max_states rows observe s t d u below h k)
          (λ s t d u. respond-Falls rank rows observe s t d u fall) fuel n s u (some (t, d)) v
          (λ t' d' q. let e : t ≡ t' = cc in rw (sym e) l) in
      (
        n',
        s',
        u',
        external_event-machine_of c (state_engine c none (some state_map) fuel) n s t thread d u k b
              on
            ∙ run_events-refines max_states no_data observe threads rows state_map filled below fuel
                n thread event v
            ∙ ap (outcome_of no_data thread) e,
        h',
      )
