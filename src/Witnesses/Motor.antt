-- ===== src/Witnesses/Motor.antt =====
-- Instances for examples/Motor.cpp.
use active_fsm.Base.{pos, none, some, List, [], ◌∷◌, ◌≡◌, refl}
use active_fsm.Outcome.{done, pure, and_then, for_each, ◌>>◌}
use active_fsm.StateMachine.Events.{is_on_state_machine_thread}
use active_fsm.StateMachine.Observed.{Signal}
use active_fsm.Examples.Motor.{
  MotorMachine, Motor, motor_data, MotorCall, set_speed_call, halt_call, motor,
}
use active_fsm.Examples.Motor.Laws.{OnThread}
use active_fsm.Examples.Motor.Promise.{
  Request, set_to, stop_it, standing, asked_all, IsAt, request, motor-requests,
}
use active_fsm.StateMachine.ActiveObject.{requeue, send, handle, drain}
use active_fsm.Examples.Motor.Async.{async_motor, motor_events, motor-async}
use active_fsm.Witnesses.{keep, thread_7}

abbrev requests : List Request
requests = set_to (pos 10) ∷ set_to (pos 20) ∷ stop_it ∷ stop_it ∷ set_to (pos 5) ∷ []

motor-requests_example :
    (m' : MotorMachine (List Signal)) × (and_then
        (motor keep thread_7 (λ _ _. pure tt) [])
        (λ _. for_each (request keep thread_7 (λ _ _. pure tt)) requests)
      ≡ done tt m')
    × IsAt none (asked_all standing requests) m'
motor-requests_example = motor-requests keep thread_7 (λ _ _. pure tt) [] requests

fast : Motor
fast = record { current_speed = pos 9 }

thread_7_runs : OnThread keep thread_7 (λ _ _. pure tt) (some 7)
unfolding is_on_state_machine_thread
thread_7_runs = refl

-- A null pointer, which faults, among the calls
abbrev posted : List MotorCall
posted =
    set_speed_call (some (motor_data (pos 10))) ∷ halt_call ∷ set_speed_call none ∷ halt_call ∷ []

motor-async_example :
    requeue [] (
      and_then
        (async_motor keep 7 [])
        (λ _. for_each (send (motor_events keep)) posted >> drain (motor_events keep)))
    ≡ requeue []
        (and_then (async_motor keep 7 []) (λ _. for_each (handle (motor_events keep)) posted))
motor-async_example = motor-async keep 7 [] posted
