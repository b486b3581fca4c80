-- ===== src/UnitTests/StressMotor/Producers.antt =====
-- `TestConcurrentEventDispatch` of unit-tests/StateMachineTests.cpp: threads that send events to a
-- `StressMotor`, and the thread of the machine that handles the calls it was handed, in any order.
use active_fsm.Base.{ℕ, ◌<◌, false, some, List, [], ◌∷◌, ◌++◌, ◌≡◌, refl, subst, arith}
use active_fsm.Outcome.{done}
use active_fsm.StateMachine.Events.{is_on_state_machine_thread}
use active_fsm.StateMachine.Observed.{Signal}
use active_fsm.StateMachine.Object.{resting}
use active_fsm.StateMachine.ActiveObject.{
  Queued, QueuedMachine, Events, with_pending, with_thread, pending_of, enqueue, handling, requeue,
  send, handle, IfDone, IsOneOf, IsActive, family-IsActive, on_queue,
}
use active_fsm.StateMachine.ActiveObject.Reach.{IsSeen, Reachable, Reachable-P}
use active_fsm.UnitTests.{EventData}
use active_fsm.UnitTests.StressMotor.{
  StressCall, run_call, stop_call, stress_motor, request, run, stop, st_max_states, target,
}

abbrev pub Shared : Type 0 → Type 0
Shared W = QueuedMachine EventData (Unit {0}) StressCall W

module _ {W : Type 0} (observe : Signal → W → W) where
  abbrev pub stress_events : Events EventData (Unit {0}) StressCall W
  stress_events threads hand_over = request (on_queue observe) threads hand_over

  -- A new machine with the thread, and no call handed to it
  abbrev pub IsNew : ℕ → W → Shared W → Type 0
  IsNew thread seen m =
      stress_motor (on_queue observe) handling enqueue thread (record { seen = seen; pending = [] })
      ≡ done tt m

  module _ (thread : ℕ) where
    -- A machine between two calls, after one or none
    abbrev rests : ℕ × StressCall × Queued StressCall W → Shared W
    rests (n, q, w) = resting n (some thread) (target q) tt w

    stress-sends :
        (r : StressCall) (k : Shared W)
        → send stress_events r (with_thread k thread)
          ≡ done tt (with_pending (with_thread k thread) (pending_of k ++ r ∷ []))
    unfolding run stop is_on_state_machine_thread
    stress-sends run_call k = refl
    stress-sends stop_call k = refl

    stress-handles :
        (r : StressCall) (i : ℕ × StressCall × Queued StressCall W) (calls : List StressCall)
        → handle stress_events r (with_pending (rests i) calls)
          ≡ requeue calls (handle stress_events r (rests i))
    unfolding run stop is_on_state_machine_thread
    stress-handles run_call (n, run_call, w) calls = refl
    stress-handles run_call (n, stop_call, w) calls = refl
    stress-handles stop_call (n, run_call, w) calls = refl
    stress-handles stop_call (n, stop_call, w) calls = refl

    stress-keeps :
        (r : StressCall) (i : ℕ × StressCall × Queued StressCall W)
        → IfDone (IsOneOf rests) (handle stress_events r (rests i))
    unfolding run stop is_on_state_machine_thread
    stress-keeps run_call (n, run_call, w) = ((_, run_call, _), refl)
    stress-keeps run_call (n, stop_call, w) = ((_, run_call, _), refl)
    stress-keeps stop_call (n, run_call, w) = ((_, stop_call, _), refl)
    stress-keeps stop_call (n, stop_call, w) = ((_, stop_call, _), refl)

    stress-IsActive : IsActive stress_events (IsOneOf rests)
    stress-IsActive =
        family-IsActive stress_events thread rests (λ i. refl) stress-sends stress-handles
          stress-keeps (λ i calls. ((i.0, i.1, record i.2 { pending = calls }), refl))

    handle-done :
        (r : StressCall) (i : ℕ × StressCall × Queued StressCall W)
        → (m' : Shared W) × (handle stress_events r (rests i) ≡ done tt m')
    unfolding run stop is_on_state_machine_thread
    handle-done run_call (n, run_call, w) = (_, refl)
    handle-done run_call (n, stop_call, w) = (_, refl)
    handle-done stop_call (n, run_call, w) = (_, refl)
    handle-done stop_call (n, stop_call, w) = (_, refl)

    IsNew-rests : (seen : W) (m : Shared W) → IsNew thread seen m → IsOneOf rests m
    unfolding stress_motor
    IsNew-rests seen m e = ((0, stop_call, record { seen = seen; pending = [] }), cc)

    rests-lt : (i : ℕ × StressCall × Queued StressCall W) → target i.1 < st_max_states
    rests-lt (n, run_call, w) = omega arith
    rests-lt (n, stop_call, w) = omega arith

    -- However the sends of other threads to a new machine and the handling of their calls follow on
    -- each other, in whatever order the machine's thread takes the calls, sends in the midst of a call
    -- included: when no call is being handled, the machine is in a state below the number of states, with no
    -- event pending; the next send, also from a thread that sees it in the midst of a call, hands over the
    -- call and does no more; and the handling of any call is done without an assertion.
    pub Reachable-safe :
        (seen : W) {start m : Shared W}
        → IsNew thread seen start
        → Reachable stress_events start m
        → (m.current_state < st_max_states)
          × (m.event_generated ≡ false)
          × ((k : Shared W) (r : StressCall)
              → IsSeen m k
              → send stress_events r k ≡ done tt (with_pending k (pending_of m ++ r ∷ [])))
          × ((calls : List StressCall) (r : StressCall)
              → (m' : Shared W) × (handle stress_events r (with_pending m calls) ≡ done tt m'))
    Reachable-safe seen {start} {m} new reachable =
        let (i, e) =
          Reachable-P stress_events stress-IsActive (IsNew-rests seen start new) reachable in
        (
          rw e (rests-lt i),
          rw e,
          λ k r s.
              subst (λ calls. send stress_events r k ≡ done tt (with_pending k (calls ++ r ∷ [])))
                s.same_pending (stress-IsActive.sends r m k (i, e) s.same_thread),
          λ calls r.
              let (m', f) = handle-done r (i.0, i.1, record i.2 { pending = calls }) in
              (m', rw e f),
        )
