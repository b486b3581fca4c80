-- ===== src/UnitTests/StressHsm.antt =====
-- `StressHSM` of unit-tests/StateMachineHSMTests.cpp: a hierarchical machine with events that several
-- threads send. The thread of the machine handles their calls one after the other.
pub mod Producers
use active_fsm.Base.{ℕ, true, none, some, List, [], ◌∷◌, ◌≡◌, refl, ap, ◌∙◌}
use active_fsm.Outcome.{M, Outcome, done, and_then, for_each, pure}
use active_fsm.StateMachine.{Machine, StateFunction, Context, event_ignored}
use active_fsm.StateMachine.Engine.{
  run_events, invoke_state_action, invoke_guard_condition, invoke_entry_action, invoke_exit_action,
}
use active_fsm.StateMachine.Events.{
  construct, set_thread, begin_transition_map, external_event, external_event_impl, internal_event,
  is_on_state_machine_thread,
}
use active_fsm.StateMachine.Observed.{Signal, Threads, transition, entered, exited}
use active_fsm.StateMachine.Object.{Object, context, resting}
use active_fsm.StateMachineHsm.{StateMapRowHsm, no_parent, propagate_to_parent}
use active_fsm.StateMachineHsm.Ancestors.{is_ancestor, find_lca_from, find_lca, entry_chain}
use active_fsm.StateMachineHsm.Engine.{
  construct_hsm, leave, exit_up, enter, change_state_hsm, take_transition_hsm, turn_hsm,
  state_engine_hsm,
}
use active_fsm.StateMachineHsm.Propagation.{resolve_from, resolve, end_transition_map_hsm}
use active_fsm.UnitTests.{EventData, no_event_data}

abbrev pub st_idle : ℕ
st_idle = 0

abbrev pub st_parent : ℕ
st_parent = 1

abbrev pub st_child : ℕ
st_child = 2

abbrev pub st_max_states : ℕ
st_max_states = 3

-- No function posts an event, and the hierarchy has two levels.
abbrev fuel : ℕ
fuel = 1

abbrev pub StressMachine : Type 0 → Type 0
StressMachine W = Machine EventData (Object (Unit {0}) W)

pub data StressCall : Type 0 where
  activate_call deactivate_call : StressCall

-- `STATE_MAP_ENTRY_HSM`
abbrev entry_hsm : {D U : Type 0} → StateFunction D U → ℕ → StateMapRowHsm D U
entry_hsm state parent = record {
  state = some state;
  guard = none;
  entry = none;
  exit = none;
  parent_state = parent;
}

module _ {W : Type 0} (observe : Signal → W → W) (threads : Threads EventData (Object (Unit {0}) W))
    (hand_over : StressCall → ℕ → M (StressMachine W) (Unit {0})) where
  abbrev stress_context : Context EventData (Object (Unit {0}) W)
  stress_context = context st_max_states no_event_data observe threads

  -- `ST_Idle`, `ST_Parent` and `ST_Child`, which do nothing
  quiet : StateFunction EventData (Object (Unit {0}) W)
  quiet d = pure tt

  abbrev state_map : List (StateMapRowHsm EventData (Object (Unit {0}) W))
  state_map = entry_hsm quiet no_parent ∷ entry_hsm quiet no_parent ∷ entry_hsm quiet st_parent ∷ []

  stress_engine : M (StressMachine W) (Unit {0})
  unfolding state_engine_hsm run_events turn_hsm take_transition_hsm change_state_hsm leave exit_up
      enter find_lca find_lca_from is_ancestor entry_chain for_each invoke_state_action
      invoke_guard_condition invoke_entry_action invoke_exit_action quiet internal_event
  stress_engine = state_engine_hsm stress_context (some state_map) fuel

  -- The constructor, and `SetThread`
  unfoldable pub stress_hsm : ℕ → W → Outcome (StressMachine W) (Unit {0})
  unfolding construct_hsm construct set_thread
  stress_hsm thread seen =
      and_then (construct_hsm stress_context st_idle (record { own = tt; seen = seen }))
        (λ _. set_thread stress_context thread)

  stress_event : StressCall → List ℕ → M (StressMachine W) (Unit {0})
  unfolding stress_engine begin_transition_map end_transition_map_hsm resolve resolve_from
      external_event external_event_impl
  stress_event call transitions = begin_transition_map stress_context (hand_over call) (
      end_transition_map_hsm stress_context stress_engine state_map fuel transitions st_max_states
        none)

  unfoldable pub activate : M (StressMachine W) (Unit {0})
  unfolding stress_event
  activate = stress_event activate_call (st_child ∷ st_child ∷ event_ignored ∷ [])

  unfoldable pub deactivate : M (StressMachine W) (Unit {0})
  unfolding stress_event
  deactivate = stress_event deactivate_call (event_ignored ∷ st_idle ∷ propagate_to_parent ∷ [])

  abbrev pub request : StressCall → M (StressMachine W) (Unit {0})
  request activate_call = activate
  request deactivate_call = deactivate

-- The state that a call leads to
abbrev pub target : StressCall → ℕ
target activate_call = st_child
target deactivate_call = st_idle

abbrev pub state_after : ℕ → List StressCall → ℕ
state_after s [] = s
state_after s (r ∷ rs) = state_after (target r) rs

-- The observers, after a call that the machine does not ignore: the composite state is entered before
-- its child, and left after it.
abbrev told : {W : Type 0} → (Signal → W → W) → StressCall → W → W
told observe activate_call w =
    observe (transition st_idle st_child)
      (observe (entered st_child) (observe (entered st_parent) (observe (exited st_idle) w)))
told observe deactivate_call w =
    observe (transition st_child st_idle)
      (observe (entered st_idle) (observe (exited st_parent) (observe (exited st_child) w)))

module _ {W : Type 0} (observe : Signal → W → W) (threads : Threads EventData (Object (Unit {0}) W))
    (hand_over : StressCall → ℕ → M (StressMachine W) (Unit {0})) (thread : ℕ)
    (on : threads.is_current_thread thread ≡ true) where
  abbrev pub IsStress : ℕ → StressMachine W → Type 0
  IsStress s m =
      (r : StressCall) × (n : ℕ) × (w : W) × (s ≡ target r)
      × (m ≡ resting n (some thread) (target r) tt w)

  request-IsStress :
      (r : StressCall) (s : ℕ) (m : StressMachine W)
      → IsStress s m
      → (m' : StressMachine W) × (request observe threads hand_over r m ≡ done tt m')
        × IsStress (target r) m'
  unfolding activate deactivate is_on_state_machine_thread
  request-IsStress activate_call s m (activate_call, n, w, p, e) = (
    resting n (some thread) st_child tt w,
    ap (request observe threads hand_over activate_call) e ∙ rw on,
    (activate_call, n, w, refl, refl),
  )
  request-IsStress activate_call s m (deactivate_call, n, w, p, e) = (
    resting st_child (some thread) st_child tt (told observe activate_call w),
    ap (request observe threads hand_over activate_call) e ∙ rw (on, on),
    (activate_call, _, _, refl, refl),
  )
  request-IsStress deactivate_call s m (activate_call, n, w, p, e) = (
    resting st_idle (some thread) st_idle tt (told observe deactivate_call w),
    ap (request observe threads hand_over deactivate_call) e ∙ rw (on, on),
    (deactivate_call, _, _, refl, refl),
  )
  request-IsStress deactivate_call s m (deactivate_call, n, w, p, e) = (
    resting n (some thread) st_idle tt w,
    ap (request observe threads hand_over deactivate_call) e ∙ rw on,
    (deactivate_call, n, w, refl, refl),
  )

  requests-IsStress :
      (s : ℕ) (rs : List StressCall) (m : StressMachine W)
      → IsStress s m
      → (m' : StressMachine W) × (for_each (request observe threads hand_over) rs m ≡ done tt m')
        × IsStress (state_after s rs) m'
  unfolding for_each
  requests-IsStress s [] m h = (m, refl, h)
  requests-IsStress s (r ∷ rs) m h =
      let (m₁, e, h₁) = request-IsStress r s m h in
      let (m', e', h') = requests-IsStress (target r) rs m₁ h₁ in (m', rw e e', h')

  -- In whatever order the thread of a new `StressHSM` handles calls of `Activate` and `Deactivate`, all
  -- of them are done without an assertion, and the machine ends in the state of the last call.
  pub stress_hsm-IsStress :
      (seen : W) (rs : List StressCall)
      → (m' : StressMachine W) × (and_then
            (stress_hsm observe threads hand_over thread seen)
            (λ _. for_each (request observe threads hand_over) rs)
          ≡ done tt m')
        × IsStress (state_after st_idle rs) m'
  unfolding stress_hsm
  stress_hsm-IsStress seen rs =
      requests-IsStress st_idle rs _ (deactivate_call, 0, seen, refl, refl)
