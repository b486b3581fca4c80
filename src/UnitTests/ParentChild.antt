-- ===== src/UnitTests/ParentChild.antt =====
-- `ParentBase` and `ChildDerived` of unit-tests/StateMachineTests.cpp: an event of a base class that
-- acts in a state of the derived class. The counts are of type `int`, and start at 0.
use active_fsm.Base.{ℕ, suc, ◌+◌, arith, none, some, List, [], ◌∷◌, length, ◌≡◌, refl, ap, ◌∙◌}
use active_fsm.Outcome.{M, Outcome, done, and_then, for_each}
use active_fsm.StateMachine.{Machine, StateFunction, StateMapRow, Context}
use active_fsm.StateMachine.Engine.{state_engine, run_events, turn, invoke_state_action}
use active_fsm.StateMachine.Events.{
  construct, internal_event, begin_transition_map, end_transition_map, external_event,
  external_event_impl, parent_transition, is_on_state_machine_thread,
}
use active_fsm.StateMachine.Observed.{Signal, Threads, transition}
use active_fsm.StateMachine.Object.{Object, modify_own, context, resting}
use active_fsm.UnitTests.{EventData, no_event_data}

pub record ChildDerived : Type 0 where
  pub base_action_count : ℕ
  pub derived_action_count : ℕ

abbrev pub st_idle : ℕ
st_idle = 0

-- `ParentBase::ST_MAX_STATES`
abbrev parent_max_states : ℕ
parent_max_states = 1

abbrev pub st_derived : ℕ
st_derived = 1

abbrev st_max_states : ℕ
st_max_states = 2

-- No function posts an event.
abbrev fuel : ℕ
fuel = 1

abbrev pub ChildMachine : Type 0 → Type 0
ChildMachine W = Machine EventData (Object ChildDerived W)

pub data ChildCall : Type 0 where
  call_base_transition_call : ℕ → ChildCall
  go_derived_call : ChildCall

module _ {W : Type 0} where
  base_idle : StateFunction EventData (Object ChildDerived W)
  base_idle d = modify_own λ o. record o { base_action_count = suc o.base_action_count }

  derived_state : StateFunction EventData (Object ChildDerived W)
  derived_state d = modify_own λ o. record o { derived_action_count = suc o.derived_action_count }

  abbrev state_map : List (StateMapRow EventData (Object ChildDerived W))
  state_map = record { state = some base_idle } ∷ record { state = some derived_state } ∷ []

module _ {W : Type 0} (observe : Signal → W → W)
    (threads : Threads EventData (Object ChildDerived W))
    (hand_over : ChildCall → ℕ → M (ChildMachine W) (Unit {0})) where
  abbrev child_context : Context EventData (Object ChildDerived W)
  child_context = context st_max_states no_event_data observe threads

  child_engine : M (ChildMachine W) (Unit {0})
  unfolding state_engine run_events turn invoke_state_action base_idle derived_state internal_event
  child_engine = state_engine child_context (some state_map) none fuel

  unfoldable pub child_derived : W → Outcome (ChildMachine W) (Unit {0})
  unfolding construct
  child_derived seen =
      construct child_context st_idle
        (record { own = record { base_action_count = 0; derived_action_count = 0 }; seen = seen })

  unfoldable pub call_base_transition : ℕ → M (ChildMachine W) (Unit {0})
  unfolding child_engine parent_transition begin_transition_map end_transition_map external_event
      external_event_impl
  call_base_transition derived =
      parent_transition child_context child_engine parent_max_states derived (
        begin_transition_map child_context (hand_over (call_base_transition_call derived))
          (end_transition_map child_context child_engine (st_idle ∷ []) parent_max_states none))

  unfoldable pub go_derived : M (ChildMachine W) (Unit {0})
  unfolding child_engine begin_transition_map end_transition_map external_event external_event_impl
  go_derived = begin_transition_map child_context (hand_over go_derived_call) (
      end_transition_map child_context child_engine (st_derived ∷ st_derived ∷ []) st_max_states
        none)

-- An event as the user sends it; `CallBaseTransition` with a state of the class
pub data Request : Type 0 where
  to_derived to_base_idle to_base_derived : Request

-- The two states
pub data Phase : Type 0 where
  is_idle is_derived : Phase

abbrev pub state_of : Phase → ℕ
state_of is_idle = st_idle
state_of is_derived = st_derived

-- In `ST_IDLE` the base class handles its event, and goes to `ST_IDLE` whatever it is given.
abbrev pub target : Phase → Request → Phase
target p to_derived = is_derived
target is_idle to_base_idle = is_idle
target is_idle to_base_derived = is_idle
target is_derived to_base_idle = is_idle
target is_derived to_base_derived = is_derived

abbrev pub phase_after : Phase → List Request → Phase
phase_after p [] = p
phase_after p (r ∷ rs) = phase_after (target p r) rs

abbrev acted : Phase → ChildDerived → ChildDerived
acted is_idle o = record o { base_action_count = suc o.base_action_count }
acted is_derived o = record o { derived_action_count = suc o.derived_action_count }

module _ {W : Type 0} (observe : Signal → W → W)
    (threads : Threads EventData (Object ChildDerived W))
    (hand_over : ChildCall → ℕ → M (ChildMachine W) (Unit {0})) where
  abbrev pub request : Request → M (ChildMachine W) (Unit {0})
  request to_derived = go_derived observe threads hand_over
  request to_base_idle = call_base_transition observe threads hand_over st_idle
  request to_base_derived = call_base_transition observe threads hand_over st_derived

  request_lem :
      (n : ℕ) (p : Phase) (r : Request) (o : ChildDerived) (w : W)
      → let q = target p r in
        request r (resting n none (state_of p) o w)
        ≡ done tt (
            resting
              (state_of q)
              none
              (state_of q)
              (acted q o)
              (observe (transition (state_of p) (state_of q)) w))
  unfolding go_derived call_base_transition is_on_state_machine_thread
  request_lem n is_idle to_derived o w = refl
  request_lem n is_idle to_base_idle o w = refl
  request_lem n is_idle to_base_derived o w = refl
  request_lem n is_derived to_derived o w = refl
  request_lem n is_derived to_base_idle o w = refl
  request_lem n is_derived to_base_derived o w = refl

  -- So many state functions have run.
  abbrev pub IsAfter : ℕ → Phase → ChildMachine W → Type 0
  IsAfter k p m =
      (n : ℕ) × (o : ChildDerived) × (w : W) × (m ≡ resting n none (state_of p) o w)
      × (o.base_action_count + o.derived_action_count ≡ k)

  acted_lem :
      (p : Phase) (o : ChildDerived)
      → (acted p o).base_action_count + (acted p o).derived_action_count
        ≡ suc (o.base_action_count + o.derived_action_count)
  acted_lem is_idle o = omega arith
  acted_lem is_derived o = omega arith

  request-IsAfter :
      (k : ℕ) (p : Phase) (r : Request) (m : ChildMachine W)
      → IsAfter k p m
      → (m' : ChildMachine W) × (request r m ≡ done tt m') × IsAfter (suc k) (target p r) m'
  request-IsAfter k p r m (n, o, w, e, c) = (
    _,
    ap (request r) e ∙ request_lem n p r o w,
    (_, _, _, refl, acted_lem (target p r) o ∙ ap suc c),
  )

  requests-IsAfter :
      (k : ℕ) (p : Phase) (rs : List Request) (m : ChildMachine W)
      → IsAfter k p m
      → (m' : ChildMachine W) × (for_each request rs m ≡ done tt m')
        × IsAfter (length rs + k) (phase_after p rs) m'
  unfolding for_each
  requests-IsAfter k p [] m (n, o, w, e, c) = (m, refl, (n, o, w, e, c ∙ omega arith))
  requests-IsAfter k p (r ∷ rs) m h =
      let (m₁, e, h₁) = request-IsAfter k p r m h in
      let (m', e', (n, o, w, h', c)) = requests-IsAfter (suc k) (target p r) rs m₁ h₁ in
      (m', rw e e', (n, o, w, h', c ∙ omega arith))

  -- In synchronous mode any number of events on a new `ChildDerived` is done without an assertion, and
  -- runs just one state function each. The event of the base class, called in the derived class's
  -- state, leads to the state it is given, and in `ST_IDLE` to `ST_IDLE`.
  pub child_derived-IsAfter :
      (seen : W) (rs : List Request)
      → (m' : ChildMachine W) × (and_then
            (child_derived observe threads hand_over seen)
            (λ _. for_each request rs)
          ≡ done tt m')
        × IsAfter (length rs) (phase_after is_idle rs) m'
  unfolding child_derived
  child_derived-IsAfter seen rs =
      let (m', e, (n, o, w, h, c)) = requests-IsAfter 0 is_idle rs _ (0, _, seen, refl, refl) in
      (m', e, (n, o, w, h, c ∙ omega arith))
