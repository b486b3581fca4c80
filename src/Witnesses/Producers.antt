-- ===== src/Witnesses/Producers.antt =====
-- An instance for the threads that send events to a `StressMotor`: one `Run` is sent and handled.
use active_fsm.Base.{ℕ, suc, ◌<◌, false, some, List, [], ◌∷◌, ◌++◌, ◌≡◌, refl}
use active_fsm.Outcome.{done}
use active_fsm.StateMachine.Events.{is_on_state_machine_thread}
use active_fsm.StateMachine.Observed.{Signal, transition}
use active_fsm.StateMachine.Object.{resting}
use active_fsm.StateMachine.ActiveObject.{send, handle, with_pending, pending_of}
use active_fsm.StateMachine.ActiveObject.Reach.{IsSeen, Reachable, new, sent, handled}
use active_fsm.UnitTests.StressMotor.{
  StressCall, run_call, stress_motor, run, st_idle, st_running, st_max_states,
}
use active_fsm.UnitTests.StressMotor.Producers.{Shared, stress_events, IsNew, Reachable-safe}

-- The observer of the test
abbrev count : Signal → ℕ → ℕ
count (transition f t) n = suc n
count _ n = n

abbrev idle_machine : List StressCall → Shared ℕ
idle_machine calls = resting 0 (some 7) st_idle tt (record { seen = 0; pending = calls })

abbrev running_machine : Shared ℕ
running_machine = resting 1 (some 7) st_running tt (record { seen = 1; pending = [] })

idle_machine-IsNew : IsNew count 7 0 (idle_machine [])
unfolding stress_motor
idle_machine-IsNew = refl

running-Reachable : Reachable (stress_events count) (idle_machine []) running_machine
unfolding run is_on_state_machine_thread
running-Reachable =
    handled {m = idle_machine (run_call ∷ [])} [] [] run_call
      (sent {m = idle_machine []} (idle_machine []) run_call (run_call ∷ []) new
        (record { same_thread = refl; same_pending = refl }) refl refl)
      refl refl

Reachable-safe_example :
    (running_machine.current_state < st_max_states)
    × (running_machine.event_generated ≡ false)
    × ((k : Shared ℕ) (r : StressCall)
        → IsSeen running_machine k
        → send (stress_events count) r k
          ≡ done tt (with_pending k (pending_of running_machine ++ r ∷ [])))
    × ((calls : List StressCall) (r : StressCall)
        → (m' : Shared ℕ) × (handle (stress_events count) r (with_pending running_machine calls)
            ≡ done tt m'))
Reachable-safe_example = Reachable-safe count 7 0 idle_machine-IsNew running-Reachable
