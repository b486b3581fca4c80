-- ===== src/UnitTests/StressMotor.antt =====
-- `StressMotor` of unit-tests/StateMachineTests.cpp: two states on a plain state map, with events that
-- several threads send. The thread of the machine handles their calls one after the other.
pub mod Producers
use active_fsm.Base.{ℕ, ◌<◌, arith, true, false, none, some, List, [], ◌∷◌, ◌≡◌, refl, ap, ◌∙◌}
use active_fsm.Outcome.{M, Outcome, done, and_then, for_each, pure}
use active_fsm.StateMachine.{Machine, StateFunction, StateMapRow, Context, event_ignored}
use active_fsm.StateMachine.Engine.{state_engine, run_events, turn, invoke_state_action}
use active_fsm.StateMachine.Events.{
  construct, set_thread, internal_event, begin_transition_map, end_transition_map, external_event,
  external_event_impl, is_on_state_machine_thread,
}
use active_fsm.StateMachine.Observed.{Signal, Threads, transition}
use active_fsm.StateMachine.Object.{Object, context, resting}
use active_fsm.UnitTests.{EventData, no_event_data}

abbrev pub st_idle : ℕ
st_idle = 0

abbrev pub st_running : ℕ
st_running = 1

abbrev pub st_max_states : ℕ
st_max_states = 2

-- No function posts an event.
abbrev fuel : ℕ
fuel = 1

abbrev pub StressMachine : Type 0 → Type 0
StressMachine W = Machine EventData (Object (Unit {0}) W)

pub data StressCall : Type 0 where
  run_call stop_call : StressCall

module _ {W : Type 0} (observe : Signal → W → W) (threads : Threads EventData (Object (Unit {0}) W))
    (hand_over : StressCall → ℕ → M (StressMachine W) (Unit {0})) where
  abbrev stress_context : Context EventData (Object (Unit {0}) W)
  stress_context = context st_max_states no_event_data observe threads

  state_idle : StateFunction EventData (Object (Unit {0}) W)
  state_idle d = pure tt

  state_running : StateFunction EventData (Object (Unit {0}) W)
  state_running d = pure tt

  abbrev state_map : List (StateMapRow EventData (Object (Unit {0}) W))
  state_map = record { state = some state_idle } ∷ record { state = some state_running } ∷ []

  stress_engine : M (StressMachine W) (Unit {0})
  unfolding state_engine run_events turn invoke_state_action state_idle state_running internal_event
  stress_engine = state_engine stress_context (some state_map) none fuel

  -- The constructor, and `SetThread`
  unfoldable pub stress_motor : ℕ → W → Outcome (StressMachine W) (Unit {0})
  unfolding construct set_thread
  stress_motor thread seen =
      and_then (construct stress_context st_idle (record { own = tt; seen = seen }))
        (λ _. set_thread stress_context thread)

  unfoldable pub run : M (StressMachine W) (Unit {0})
  unfolding stress_engine begin_transition_map end_transition_map external_event external_event_impl
  run = begin_transition_map stress_context (hand_over run_call) (
      end_transition_map stress_context stress_engine (st_running ∷ event_ignored ∷ [])
        st_max_states none)

  pub stop : M (StressMachine W) (Unit {0})
  unfolding stress_engine begin_transition_map end_transition_map external_event external_event_impl
  stop = begin_transition_map stress_context (hand_over stop_call) (
      end_transition_map stress_context stress_engine (event_ignored ∷ st_idle ∷ []) st_max_states
        none)

  abbrev pub request : StressCall → M (StressMachine W) (Unit {0})
  request run_call = run
  request stop_call = stop

  -- From another thread
  request-posts :
      (r : StressCall) (m : StressMachine W) (thread : ℕ)
      → m.thread ≡ some thread
      → threads.is_current_thread thread ≡ false
      → request r m ≡ hand_over r thread m
  unfolding run stop is_on_state_machine_thread
  request-posts run_call m thread e off = rw (e, off)
  request-posts stop_call m thread e off = rw (e, off)

-- The state that the last call leads to, and the transitions of the calls
abbrev pub target : StressCall → ℕ
target run_call = st_running
target stop_call = st_idle

abbrev pub state_after : ℕ → List StressCall → ℕ
state_after s [] = s
state_after s (r ∷ rs) = state_after (target r) rs

module _ {W : Type 0} (observe : Signal → W → W) (threads : Threads EventData (Object (Unit {0}) W))
    (hand_over : StressCall → ℕ → M (StressMachine W) (Unit {0})) (thread : ℕ)
    (on : threads.is_current_thread thread ≡ true) where
  abbrev pub IsStress : ℕ → StressMachine W → Type 0
  IsStress s m =
      (r : StressCall) × (n : ℕ) × (w : W) × (s ≡ target r)
      × (m ≡ resting n (some thread) (target r) tt w)

  request-IsStress :
      (r : StressCall) (s : ℕ) (m : StressMachine W)
      → IsStress s m
      → (m' : StressMachine W) × (request observe threads hand_over r m ≡ done tt m')
        × IsStress (target r) m'
  unfolding run stop is_on_state_machine_thread
  request-IsStress run_call s m (run_call, n, w, p, e) = (
    resting n (some thread) st_running tt w,
    ap (request observe threads hand_over run_call) e ∙ rw on,
    (run_call, n, w, refl, refl),
  )
  request-IsStress run_call s m (stop_call, n, w, p, e) = (
    resting st_running (some thread) st_running tt (observe (transition st_idle st_running) w),
    ap (request observe threads hand_over run_call) e ∙ rw (on, on),
    (run_call, _, _, refl, refl),
  )
  request-IsStress stop_call s m (run_call, n, w, p, e) = (
    resting st_idle (some thread) st_idle tt (observe (transition st_running st_idle) w),
    ap (request observe threads hand_over stop_call) e ∙ rw (on, on),
    (stop_call, _, _, refl, refl),
  )
  request-IsStress stop_call s m (stop_call, n, w, p, e) = (
    resting n (some thread) st_idle tt w,
    ap (request observe threads hand_over stop_call) e ∙ rw on,
    (stop_call, n, w, refl, refl),
  )

  requests-IsStress :
      (s : ℕ) (rs : List StressCall) (m : StressMachine W)
      → IsStress s m
      → (m' : StressMachine W) × (for_each (request observe threads hand_over) rs m ≡ done tt m')
        × IsStress (state_after s rs) m'
  unfolding for_each
  requests-IsStress s [] m h = (m, refl, h)
  requests-IsStress s (r ∷ rs) m h =
      let (m₁, e, h₁) = request-IsStress r s m h in
      let (m', e', h') = requests-IsStress (target r) rs m₁ h₁ in (m', rw e e', h')

  IsStress-lt : (s : ℕ) (m : StressMachine W) → IsStress s m → m.current_state < st_max_states
  IsStress-lt s m (run_call, n, w, p, e) = rw e (omega arith)
  IsStress-lt s m (stop_call, n, w, p, e) = rw e (omega arith)

  -- In whatever order the thread of a new `StressMotor` handles calls of `Run` and `Stop`, all of them
  -- are done without an assertion; the machine ends in the state of the last call, which is below the
  -- number of states.
  pub stress_motor-IsStress :
      (seen : W) (rs : List StressCall)
      → (m' : StressMachine W) × (and_then
            (stress_motor observe threads hand_over thread seen)
            (λ _. for_each (request observe threads hand_over) rs)
          ≡ done tt m')
        × IsStress (state_after st_idle rs) m'
        × (m'.current_state < st_max_states)
  unfolding stress_motor
  stress_motor-IsStress seen rs =
      let (m', e, h) = requests-IsStress st_idle rs _ (stop_call, 0, seen, refl, refl) in
      (m', e, h, IsStress-lt (state_after st_idle rs) m' h)
